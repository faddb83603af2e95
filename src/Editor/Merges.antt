-- ===== src/Editor/Merges.antt =====
-- The backspace key of text_editor.c as one in a text with a cursor.
use amq_os.Editor.{
  merge_fitting, Buffer, strlen, set_line, editor_max_lines, editor_max_line_length, lines_up,
  text_editor_backspace, close_gap, strcat, erase_char, merge_lines, Chars,
}
use amq_os.Editor.Strings.{Holds, strlen-Holds, strcat-Holds}
use amq_os.Editor.Edits.{erase-Holds}
use amq_os.Editor.Page.{Page, current, all_lines, join, length-join, join-reversed, erase_at}
use amq_os.Editor.Lines.{
  HoldsLines, HoldsLines-current, HoldsLines-replace, lines_up-HoldsLines, HoldsLines-beyond,
}
use amq_os.Prelude.{
  ℕ, suc, ◌+◌, ◌-◌, ◌≤◌, ◌<◌, ◌≡◌, refl, sym, ◌∙◌, subst, true, List, [], ◌∷◌, ◌++◌, arith, ltb,
  if◌then◌else◌, length, update,
}
use amq_os.Editor.Represents.{
  Represents, placed, placed_self, page, above-lt, if-Represents, if_true-Represents,
  if_false-Represents, current-Holds, strlen-current,
}

module _ (b : Buffer) (above : List (List ℕ)) (right : List ℕ) (below : List (List ℕ)) where
  erased-Represents :
      (c : ℕ) (left : List ℕ)
      → length (all_lines (page above (c ∷ left) right below)) ≤ editor_max_lines
      → HoldsLines b.lines (all_lines (page above (c ∷ left) right below))
      → Represents
          (text_editor_backspace (placed b (page above (c ∷ left) right below)))
          (page above left right below)
  unfolding text_editor_backspace
  erased-Represents c left few h =
      if_true-Represents (ltb 0 (suc (length left))) (erase_char (placed b p)) _
        (page above left right below) (ground arith)
        (subst
          (λ m.
            Represents (shorter (strlen (b.lines (length above))) m) (page above left right below))
          (omega arith)
          (subst (λ n. Represents (shorter n (length left)) (page above left right below))
            (sym (strlen-current b p few h))
            (record {
              count = same;
              row = refl;
              col = refl;
              few = omega (arith, same, few);
              holds =
                  HoldsLines-replace b.lines above below (current p) (join left right)
                    (close_gap (length (current p) - length left) (b.lines (length above))
                      (length left))
                    h (erase-Holds (b.lines (length above)) left right c (current-Holds b p few h));
            })))
    where
      p : Page
      p = page above (c ∷ left) right below

      shorter : ℕ → ℕ → Buffer
      shorter len col =
          record (set_line (placed b p) (length above)
            (close_gap (len - col) (b.lines (length above)) col)) {
              cursor_col = col;
              modified = true;
            }

      same : length (all_lines p) ≡ length (join above (join left right ∷ below))
      same = omega (
        arith,
        length-join above (current p ∷ below),
        length-join above (join left right ∷ below),
      )

  merge-Represents :
      (line : List ℕ)
      → length (all_lines (page (line ∷ above) [] right below)) ≤ editor_max_lines
      → HoldsLines b.lines (all_lines (page (line ∷ above) [] right below))
      → length line + length right < editor_max_line_length - 1
      → Represents
          (merge_lines (placed b (page (line ∷ above) [] right below)))
          (page above (join line []) right below)
  merge-Represents line few h fits =
      subst (λ n. Represents (joined (last - suc (length above)) n (strlen (b.lines n))) q)
        (omega arith)
        (subst (λ n. Represents (joined n (length above) (strlen (b.lines (length above)))) q)
          (omega (arith, above-lt p))
          (record {
            count = omega (arith, above-lt p, above-lt q);
            row = refl;
            col =
                strlen-Holds (b.lines (length above)) line first
                ∙ omega (arith, length-join line []);
            few = omega (arith, above-lt p, above-lt q, few);
            holds =
                HoldsLines-beyond moved (all_lines q) last (update (moved last) 0 0)
                  (omega (arith, above-lt p, above-lt q)) held;
          }))
    where
      p : Page
      p = page (line ∷ above) [] right below

      q : Page
      q = page above (join line []) right below

      last : ℕ
      last = length (all_lines p) - 1

      first : Holds (b.lines (length above)) line
      first = HoldsLines-current b.lines above (right ∷ below) line h

      second : Holds (b.lines (suc (length above))) right
      second = HoldsLines-current b.lines (line ∷ above) below right h

      text : Chars
      text = strcat (b.lines (length above)) (b.lines (suc (length above)))

      moved : ℕ → Chars
      moved = lines_up (length below) (update b.lines (length above) text) (suc (length above))

      held : HoldsLines moved (all_lines q)
      held =
          subst (λ l. HoldsLines moved (join above (l ∷ below))) (sym (join-reversed line right))
            (subst
              (λ n.
                HoldsLines (lines_up (length below) (update b.lines (length above) text) n)
                  (join above ((line ++ right) ∷ below)))
              (omega arith)
              (lines_up-HoldsLines (update b.lines (length above) text) above below (line ++ right)
                right
                (HoldsLines-replace b.lines above (right ∷ below) line (line ++ right) text h (
                  strcat-Holds (b.lines (length above)) (b.lines (suc (length above))) line right
                    first second (omega arith)))))

      joined : ℕ → ℕ → ℕ → Buffer
      joined rounds row len =
          let t =
            lines_up rounds
              (update b.lines row (strcat (b.lines row) (b.lines (suc (length above)))))
              (suc (length above)) in
          record b {
            lines = update t last (update (t last) 0 0);
            line_count = last;
            cursor_line = row;
            cursor_col = len;
            modified = true;
          }

pub backspace-Represents :
    (b : Buffer) (above : List (List ℕ)) (left right : List ℕ) (below : List (List ℕ))
    → length (all_lines (page above left right below)) ≤ editor_max_lines
    → HoldsLines b.lines (all_lines (page above left right below))
    → Represents
        (text_editor_backspace (placed b (page above left right below)))
        (erase_at (page above left right below) left above)
unfolding text_editor_backspace
backspace-Represents b above (c ∷ left) right below few h =
    erased-Represents b above right below c left few h
backspace-Represents b [] [] right below few h =
    let start = placed b (page [] [] right below) in
    if_false-Represents (ltb 0 0) (erase_char start)
      (if ltb 0 0 then merge_fitting start else start) (page [] [] right below) (ground arith)
      (if_false-Represents (ltb 0 0) (merge_fitting start) start (page [] [] right below)
        (ground arith) (placed_self b (page [] [] right below) few h))
backspace-Represents b (line ∷ above) [] right below few h =
    if_false-Represents (ltb 0 0) (erase_char start)
      (if ltb 0 (suc (length above)) then merge_fitting start else start) q (ground arith)
      (if_true-Represents (ltb 0 (suc (length above))) (merge_fitting start) start q (ground arith)
        (subst
          (λ n.
            Represents
              (if ltb (strlen (b.lines n) + strlen (b.lines (suc (length above))))
                  (editor_max_line_length - 1)
                then merge_lines start
                else start)
              q)
          (omega arith)
          (subst
            (λ n.
              Represents
                (if ltb (n + strlen (b.lines (suc (length above)))) (editor_max_line_length - 1)
                  then merge_lines start
                  else start)
                q)
            (sym (
              strlen-Holds (b.lines (length above)) line
                (HoldsLines-current b.lines above (right ∷ below) line h)))
            (subst
              (λ n.
                Represents
                  (if ltb (length line + n) (editor_max_line_length - 1)
                    then merge_lines start
                    else start)
                  q)
              (sym (strlen-current b p few h))
              (if-Represents (ltb (length line + length right) (editor_max_line_length - 1))
                (merge_lines start) start (page above (join line []) right below) p
                (λ e. merge-Represents b above right below line few h (ground arith))
                (λ e. placed_self b p few h))))))
  where
    p : Page
    p = page (line ∷ above) [] right below

    q : Page
    q = erase_at p [] (line ∷ above)

    start : Buffer
    start = placed b p
