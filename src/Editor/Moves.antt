-- ===== src/Editor/Moves.antt =====
-- The cursor keys of text_editor.c as moves in a text.
use amq_os.Editor.{Buffer, strlen, editor_max_lines, visible_lines}
use amq_os.Editor.Cursor.{
  to_line, scroll_to_cursor, text_editor_move_cursor, back, forth, target, to_col,
}
use amq_os.Editor.Strings.{Holds, strlen-Holds}
use amq_os.Editor.Page.{
  Page, current, all_lines, join, length-join, join-reversed, stand, go_down, go_left, go_right,
  go_up,
}
use amq_os.Editor.Lines.{HoldsLines, HoldsLines-current}
use amq_os.Editor.Represents.{
  Represents, placed, if_true-Represents, if_false-Represents, page, placed_self, strlen-current,
  above-lt,
}
use amq_os.Editor.Breaks.{scrolled-Represents}
use amq_os.Prelude.{
  ℕ, suc, ◌+◌, ◌-◌, ◌≤◌, ◌≡◌, refl, sym, ap, ◌∙◌, subst, inl, inr, true, none, some, List, [], ◌∷◌,
  arith, ltb, leb, if◌then◌else◌, Bool-cases, length, take, drop, length-take, take-append-drop,
}

scroll_to_cursor-Represents :
    (b : Buffer) (p : Page) → Represents b p → Represents (scroll_to_cursor b) p
scroll_to_cursor-Represents b p r = elim (Bool-cases (ltb b.cursor_line b.scroll_offset)) [
  | inl e ↦
      if_true-Represents (ltb b.cursor_line b.scroll_offset) _ _ p e
        (scrolled-Represents b b.cursor_line p r)
  | inr e ↦
      if_false-Represents (ltb b.cursor_line b.scroll_offset) _ _ p e
        (elim (Bool-cases (leb (b.scroll_offset + visible_lines) b.cursor_line)) [
          | inl f ↦
              if_true-Represents (leb (b.scroll_offset + visible_lines) b.cursor_line) _ _ p f
                (scrolled-Represents b (b.cursor_line + 1 - visible_lines) p r)
          | inr f ↦
              if_false-Represents (leb (b.scroll_offset + visible_lines) b.cursor_line) _ _ p f r
        ])
]

-- A line on which the cursor stands is the line.
current-stand :
    (above : List (List ℕ)) (line : List ℕ) (col : ℕ) (below : List (List ℕ))
    → current (stand above line col below) ≡ line
current-stand above line col below =
    join-reversed (take col line) (drop col line) ∙ take-append-drop col line

module _ (b : Buffer) (p : Page) (few : length (all_lines p) ≤ editor_max_lines)
    (h : HoldsLines b.lines (all_lines p)) where
  -- The cursor to another line of the page.
  to_line-Represents :
      (above : List (List ℕ)) (line : List ℕ) (below : List (List ℕ))
      → all_lines p ≡ join above (line ∷ below)
      → Represents (to_line (placed b p) (length above)) (stand above line (length p.left) below)
  to_line-Represents above line below e =
      if_true-Represents (ltb (length above) (length (all_lines p))) (scroll_to_cursor (moved len))
        (placed b p) q inside
        (scroll_to_cursor-Represents (moved len) q (
          subst (λ n. Represents (moved n) q)
            (sym (strlen-Holds (b.lines (length above)) line held))
            (record {
              count = ap length same;
              row = refl;
              col = column;
              few = subst (λ l. length l ≤ editor_max_lines) same few;
              holds = subst (HoldsLines b.lines) same h;
            })))
    where
      q : Page
      q = stand above line (length p.left) below

      len : ℕ
      len = strlen (b.lines (length above))

      moved : ℕ → Buffer
      moved n = record (placed b p) {
        cursor_line = length above;
        cursor_col = if ltb n (length p.left) then n else length p.left;
      }

      same : all_lines p ≡ all_lines q
      same =
          e
          ∙ ap (λ l. join above (l ∷ below)) (sym (current-stand above line (length p.left) below))

      held : Holds (b.lines (length above)) line
      held = HoldsLines-current b.lines above below line (subst (HoldsLines b.lines) e h)

      inside : ltb (length above) (length (all_lines p)) ≡ true
      inside = ground (arith, ap length e, length-join above (line ∷ below))

      column :
          (if ltb (length line) (length p.left) then length line else length p.left)
          ≡ length (join (take (length p.left) line) [])
      column =
          ground
            (arith, length-join (take (length p.left) line) [], length-take (length p.left) line)

target-back : (n : ℕ) → target (suc n) (back 1) ≡ some n
target-back n = ground arith

module _ (b : Buffer) where
  pub up-Represents :
      (above : List (List ℕ)) (left right : List ℕ) (below : List (List ℕ))
      → length (all_lines (page above left right below)) ≤ editor_max_lines
      → HoldsLines b.lines (all_lines (page above left right below))
      → Represents
          (text_editor_move_cursor (placed b (page above left right below)) (forth 0) (back 1))
          (go_up (page above left right below) above)
  unfolding text_editor_move_cursor
  up-Represents [] left right below few h = placed_self b (page [] left right below) few h
  up-Represents (line ∷ above) left right below few h =
      subst
        (λ o.
          Represents (elim o [ none ↦ placed b p | some line ↦ to_line (placed b p) line ])
            (stand above line (length left) (current p ∷ below)))
        (sym (target-back (length above)))
        (to_line-Represents b p few h above line (current p ∷ below) refl)
    where
      p : Page
      p = page (line ∷ above) left right below

  pub down-Represents :
      (above : List (List ℕ)) (left right : List ℕ) (below : List (List ℕ))
      → length (all_lines (page above left right below)) ≤ editor_max_lines
      → HoldsLines b.lines (all_lines (page above left right below))
      → Represents
          (text_editor_move_cursor (placed b (page above left right below)) (forth 0) (forth 1))
          (go_down (page above left right below) below)
  unfolding text_editor_move_cursor
  down-Represents above left right [] few h =
      if_false-Represents (ltb (length above + 1) (length (all_lines p)))
        (scroll_to_cursor (record (placed b p) {
          cursor_line = length above + 1;
          cursor_col =
              (let len = strlen (b.lines (length above + 1)) in
                if ltb len (length left) then len else length left);
        }))
        (placed b p) p (ground (arith, above-lt p)) (placed_self b p few h)
    where
      p : Page
      p = page above left right []
  down-Represents above left right (line ∷ below) few h =
      subst
        (λ n.
          Represents (to_line (placed b p) n) (stand (current p ∷ above) line (length left) below))
        (omega arith) (to_line-Represents b p few h (current p ∷ above) line below refl)
    where
      p : Page
      p = page above left right (line ∷ below)

  pub left-Represents :
      (above : List (List ℕ)) (left right : List ℕ) (below : List (List ℕ))
      → length (all_lines (page above left right below)) ≤ editor_max_lines
      → HoldsLines b.lines (all_lines (page above left right below))
      → Represents
          (text_editor_move_cursor (placed b (page above left right below)) (back 1) (forth 0))
          (go_left (page above left right below) left)
  unfolding text_editor_move_cursor
  left-Represents above [] right below few h = placed_self b (page above [] right below) few h
  left-Represents above (c ∷ left) right below few h =
      subst
        (λ o.
          Represents (elim o [ none ↦ placed b p | some col ↦ to_col (placed b p) col ])
            (page above left (c ∷ right) below))
        (sym (target-back (length left)))
        (if_true-Represents (leb (length left) (strlen (b.lines (length above))))
          (record (placed b p) { cursor_col = length left }) (placed b p)
          (page above left (c ∷ right) below)
          (ground (arith, strlen-current b p few h, length-join left (c ∷ right)))
          (record { count = refl; row = refl; col = refl; few = few; holds = h }))
    where
      p : Page
      p = page above (c ∷ left) right below

  pub right-Represents :
      (above : List (List ℕ)) (left right : List ℕ) (below : List (List ℕ))
      → length (all_lines (page above left right below)) ≤ editor_max_lines
      → HoldsLines b.lines (all_lines (page above left right below))
      → Represents
          (text_editor_move_cursor (placed b (page above left right below)) (forth 1) (forth 0))
          (go_right (page above left right below) right)
  unfolding text_editor_move_cursor
  right-Represents above left [] below few h =
      if_false-Represents (leb (length left + 1) (strlen (b.lines (length above))))
        (record (placed b p) { cursor_col = length left + 1 }) (placed b p) p
        (ground (arith, strlen-current b p few h, length-join left [])) (placed_self b p few h)
    where
      p : Page
      p = page above left [] below
  right-Represents above left (c ∷ right) below few h =
      if_true-Represents (leb (length left + 1) (strlen (b.lines (length above))))
        (record (placed b p) { cursor_col = length left + 1 }) (placed b p)
        (page above (c ∷ left) right below)
        (ground (arith, strlen-current b p few h, length-join left (c ∷ right)))
        (record { count = refl; row = refl; col = omega arith; few = few; holds = h })
    where
      p : Page
      p = page above left (c ∷ right) below
