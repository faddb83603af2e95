-- ===== src/Editor/Represents.antt =====
-- The buffer of text_editor.c as a text with a cursor.
use amq_os.Editor.{
  Buffer, strlen, make_room, text_editor_insert_char, set_line, editor_max_lines,
  editor_max_line_length,
}
use amq_os.Editor.Strings.{Holds, strlen-Holds}
use amq_os.Editor.Edits.{insert-Holds}
use amq_os.Editor.Page.{Page, current, all_lines, join, length-join, type_char}
use amq_os.Editor.Lines.{HoldsLines, HoldsLines-current, HoldsLines-replace}
use amq_os.Prelude.{
  ℕ, suc, ◌+◌, ◌-◌, ◌≤◌, ◌≡◌, refl, sym, ap, ◌∙◌, subst, ◌≢◌, Bool, true, false, List, ◌∷◌, arith,
  leb, if◌then◌else◌, length, update,
}

-- A page in its parts.
abbrev pub page : List (List ℕ) → List ℕ → List ℕ → List (List ℕ) → Page
page above left right below = record { above = above; left = left; right = right; below = below }

-- The buffer has the lines of the page, and its cursor.
pub record Represents (b : Buffer) (p : Page) : Type 0 where
  pub count : b.line_count ≡ length (all_lines p)
  pub row : b.cursor_line ≡ length p.above
  pub col : b.cursor_col ≡ length p.left
  pub few : length (all_lines p) ≤ editor_max_lines
  pub holds : HoldsLines b.lines (all_lines p)

-- The buffer with the counters of the page.
abbrev pub placed : Buffer → Page → Buffer
placed b p = record b {
  line_count = length (all_lines p);
  cursor_line = length p.above;
  cursor_col = length p.left;
}

pub placed-Represents : (b : Buffer) (p : Page) → Represents b p → placed b p ≡ b
placed-Represents b p r =
    ap (λ n. record b { line_count = n; cursor_line = length p.above; cursor_col = length p.left })
      (sym r.count)
    ∙ ap (λ n. record b { cursor_line = n; cursor_col = length p.left }) (sym r.row)
    ∙ ap (λ n. record b { cursor_col = n }) (sym r.col)

pub if-Represents :
    (t : Bool) (b c : Buffer) (p q : Page)
    → (t ≡ true → Represents b p)
    → (t ≡ false → Represents c q)
    → Represents (if t then b else c) (if t then p else q)
if-Represents true b c p q hit miss = hit refl
if-Represents false b c p q hit miss = miss refl

pub if_true-Represents :
    (t : Bool) (b c : Buffer) (p : Page)
    → t ≡ true
    → Represents b p
    → Represents (if t then b else c) p
if_true-Represents t b c p e r = subst (λ t. Represents (if t then b else c) p) (sym e) r

pub if_false-Represents :
    (t : Bool) (b c : Buffer) (p : Page)
    → t ≡ false
    → Represents c p
    → Represents (if t then b else c) p
if_false-Represents t b c p e r = subst (λ t. Represents (if t then b else c) p) (sym e) r

pub above-lt : (p : Page) → length p.above + suc (length p.below) ≡ length (all_lines p)
above-lt p = sym (length-join p.above (current p ∷ p.below))

module _ (b : Buffer) (p : Page) (few : length (all_lines p) ≤ editor_max_lines)
    (h : HoldsLines b.lines (all_lines p)) where
  pub current-Holds : Holds (b.lines (length p.above)) (current p)
  current-Holds = HoldsLines-current b.lines p.above p.below (current p) h

  pub strlen-current : strlen (b.lines (length p.above)) ≡ length (current p)
  strlen-current = strlen-Holds (b.lines (length p.above)) (current p) current-Holds

  pub placed_self : Represents (placed b p) p
  placed_self = record { count = refl; row = refl; col = refl; few = few; holds = h }

  typed : ℕ → ℕ → Buffer
  typed ch len =
      record (set_line (placed b p) (length p.above) (
        update (make_room (len + 1 - length p.left) (b.lines (length p.above)) len) (length p.left)
          ch)) { cursor_col = length p.left + 1; modified = true }

  pub insert-placed :
      (ch : ℕ) → ch ≢ 0 → Represents (text_editor_insert_char (placed b p) ch) (type_char p ch)
  unfolding text_editor_insert_char typed
  insert-placed ch nz =
      subst
        (λ t.
          Represents
            (if t
              then placed b p
              else if leb (editor_max_line_length - 1) (strlen (b.lines (length p.above)))
              then placed b p
              else typed ch (strlen (b.lines (length p.above))))
            (type_char p ch))
        (sym inside)
        (subst
          (λ n.
            Represents (if leb (editor_max_line_length - 1) n then placed b p else typed ch n)
              (type_char p ch))
          (sym strlen-current)
          (if-Represents (leb (editor_max_line_length - 1) (length (current p))) (placed b p)
            (typed ch (length (current p))) p (record p { left = ch ∷ p.left }) (λ e. placed_self)
            (λ e. record {
              count = same;
              row = refl;
              col = omega arith;
              few = omega (arith, same, few);
              holds =
                  HoldsLines-replace b.lines p.above p.below (current p)
                    (join p.left (ch ∷ p.right))
                    (update
                      (make_room (length (current p) + 1 - length p.left) (b.lines (length p.above))
                        (length (current p)))
                      (length p.left) ch)
                    h
                    (insert-Holds (b.lines (length p.above)) p.left p.right ch current-Holds
                      (ground arith) nz);
            })))
    where
      inside : leb editor_max_lines (length p.above) ≡ false
      inside = ground (arith, above-lt p, few)

      same : length (all_lines p) ≡ length (join p.above (join p.left (ch ∷ p.right) ∷ p.below))
      same = omega (
        arith,
        length-join p.above (current p ∷ p.below),
        length-join p.above (join p.left (ch ∷ p.right) ∷ p.below),
      )
