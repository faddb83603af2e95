-- ===== src/Editor/Breaks.antt =====
-- The line break of text_editor.c as one of a text with a cursor.
use amq_os.Editor.{
  Buffer, Chars, strlen, lines_down, copy_tail, text_editor_newline, editor_max_lines, split_line,
  scroll_down, visible_lines,
}
use amq_os.Editor.Strings.{Holds, strlen-Holds}
use amq_os.Editor.Edits.{cut-Holds, tail-Holds}
use amq_os.Editor.Page.{Page, current, all_lines, join, break_line}
use amq_os.Editor.Lines.{HoldsLines, HoldsLines-current, HoldsLines-replace, lines_down-HoldsLines}
use amq_os.Editor.Represents.{Represents, placed, placed_self, above-lt, if-Represents}
use amq_os.Prelude.{
  ℕ, suc, ◌+◌, ◌-◌, ◌≤◌, ◌<◌, ◌≡◌, refl, sym, subst, inl, inr, true, [], ◌∷◌, arith, leb,
  if◌then◌else◌, Bool-cases, length, update,
}

-- Where the view stands does not matter.
pub scrolled-Represents :
    (b : Buffer) (n : ℕ) (p : Page) → Represents b p → Represents (record b { scroll_offset = n }) p
scrolled-Represents b n p r = record {
  count = r.count;
  row = r.row;
  col = r.col;
  few = r.few;
  holds = r.holds;
}

scroll_down-Represents : (b : Buffer) (p : Page) → Represents b p → Represents (scroll_down b) p
scroll_down-Represents b p r =
    elim (Bool-cases (leb (b.scroll_offset + visible_lines) b.cursor_line)) [
      | inl e ↦
          subst
            (λ t. Represents (if t then record b { scroll_offset = b.scroll_offset + 1 } else b) p)
            (sym e) (scrolled-Represents b (b.scroll_offset + 1) p r)
      | inr e ↦
          subst
            (λ t. Represents (if t then record b { scroll_offset = b.scroll_offset + 1 } else b) p)
            (sym e) r
    ]

module _ (b : Buffer) (p : Page) (few : length (all_lines p) ≤ editor_max_lines)
    (h : HoldsLines b.lines (all_lines p)) where
  c : ℕ
  c = length p.above

  -- The table after the loop over the lines, with its rounds, and after the loop over the characters.
  moved : ℕ → ℕ → ℕ → Chars
  moved rounds last = lines_down rounds b.lines last

  parted : (ℕ → Chars) → ℕ → ℕ → ℕ → Chars
  parted t len n = update t n (copy_tail (len + 1 - length p.left) (t n) (t c) (length p.left) 0)

  broken : (ℕ → Chars) → ℕ → Buffer
  broken t n = record b {
    lines = update t c (update (t c) (length p.left) 0);
    line_count = length (all_lines p) + 1;
    cursor_line = n;
    cursor_col = 0;
    modified = true;
  }

  t : ℕ → Chars
  t = moved (suc (length p.below)) (length p.above + suc (length p.below))

  doubled : HoldsLines t (join p.above (current p ∷ current p ∷ p.below))
  unfolding t moved
  doubled = lines_down-HoldsLines b.lines p.above p.below (current p) h

  here : Holds (t c) (current p)
  unfolding c
  here = HoldsLines-current t p.above (current p ∷ p.below) (current p) doubled

  tail-HoldsLines :
      HoldsLines
        (parted t (length (current p)) (suc c))
        (join p.above (current p ∷ p.right ∷ p.below))
  unfolding parted c
  tail-HoldsLines =
      HoldsLines-replace t (current p ∷ p.above) p.below (current p) p.right
        (copy_tail (length (current p) + 1 - length p.left) (t (suc c)) (t c) (length p.left) 0)
        doubled (tail-Holds (t c) (t (suc c)) p.left p.right here)

  cut-HoldsLines :
      (u : ℕ → Chars)
      → HoldsLines u (join p.above (current p ∷ p.right ∷ p.below))
      → HoldsLines
          (update u c (update (u c) (length p.left) 0))
          (join p.above (join p.left [] ∷ p.right ∷ p.below))
  unfolding c
  cut-HoldsLines u g =
      HoldsLines-replace u p.above (p.right ∷ p.below) (current p) (join p.left [])
        (update (u c) (length p.left) 0) g
        (cut-Holds (u c) p.left p.right
          (HoldsLines-current u p.above (p.right ∷ p.below) (current p) g))

  split-Represents :
      length (all_lines p) < editor_max_lines
      → Represents
          (split_line (placed b p))
          (record p { above = join p.left [] ∷ p.above; left = [] })
  unfolding broken parted t moved c
  split-Represents room =
      subst
        (λ r.
          Represents
            (broken
              (parted (moved r (length (all_lines p))) (strlen (moved r (length (all_lines p)) c))
                (c + 1))
              (c + 1))
            q)
        (omega (arith, above-lt p))
        (subst
          (λ l.
            Represents
              (broken
                (parted (moved (suc (length p.below)) l) (strlen (moved (suc (length p.below)) l c))
                  (c + 1))
                (c + 1))
              q)
          (above-lt p)
          (subst (λ l. Represents (broken (parted t l (c + 1)) (c + 1)) q)
            (sym (strlen-Holds (t c) (current p) here))
            (subst (λ n. Represents (broken (parted t (length (current p)) n) n) q) (omega arith)
              (record {
                count = longer;
                row = refl;
                col = refl;
                few = omega (arith, longer, room);
                holds = cut-HoldsLines (parted t (length (current p)) (suc c)) tail-HoldsLines;
              }))))
    where
      q : Page
      q = record p { above = join p.left [] ∷ p.above; left = [] }

      longer : length (all_lines p) + 1 ≡ length (all_lines q)
      longer = omega (arith, above-lt p, above-lt q)

  pub newline-Represents : Represents (text_editor_newline (placed b p)) (break_line p)
  unfolding text_editor_newline
  newline-Represents =
      if-Represents (leb editor_max_lines (length (all_lines p))) (placed b p)
        (scroll_down (split_line (placed b p))) p
        (record p { above = join p.left [] ∷ p.above; left = [] }) (λ e. placed_self b p few h)
        (λ e.
          scroll_down-Represents (split_line (placed b p))
            (record p { above = join p.left [] ∷ p.above; left = [] })
            (split-Represents (ground arith)))
