-- ===== src/Asm/Reports.antt =====
-- The lines of a text for asm_program of asm.c, one after the other, and what is reported of them.
use amq_os.Asm.{Asm}
use amq_os.Asm.Words.{read_word}
use amq_os.Asm.Lines.{asm_line, skip_newline, is_newline, digits_of, run_lines, with_line}
use mathlib.Core.List.{reverse, append_assoc, append-nil}
use amq_os.Prelude.{
  ℕ, zero, suc, ◌+◌, ◌≤◌, ◌<◌, ◌≡◌, refl, sym, ap, ◌∙◌, subst, ◌⊎◌, inl, inr, Bool, true, false,
  List, [], ◌∷◌, ◌++◌, arith, ◌==◌, if◌then◌else◌, Bool-cases, length, take, length-append, codes,
}

-- The lines of a text behind the characters of a line that has begun: up to a newline, and cut after 255
-- characters.
unfoldable pub lines_of : List ℕ → List ℕ → List (List ℕ)
lines_of [] [] = []
lines_of [] (x ∷ line) = (x ∷ line) ∷ []
lines_of (c ∷ text) line =
    let more = lines_of text (line ++ c ∷ []) in
    let whole = lines_of text [] in
    let cut = lines_of text (c ∷ []) in
    if c == 10 then line ∷ whole else if length line == 255 then line ∷ cut else more

-- The state behind lines, and that they are all assembled.
unfoldable pub after_lines : Asm → List (List ℕ) → Asm
after_lines c [] = c
after_lines c (l ∷ ls) = after_lines (asm_line c l).1 ls

unfoldable pub AllDone : Asm → List (List ℕ) → Type 0
AllDone c [] = Unit
AllDone c (l ∷ ls) = ((asm_line c l).0 ≡ true) × AllDone (asm_line c l).1 ls

-- A line fails behind others that do not, and the message is its own behind its number, counted from
-- `first`.
pub record IsReport (first : ℕ) (c : Asm) (ls : List (List ℕ)) (r : Asm) : Type 0 where
  pub before : List (List ℕ)
  pub line : List ℕ
  pub behind : List (List ℕ)
  pub split : ls ≡ before ++ line ∷ behind
  pub done : AllDone c before
  pub fails : (asm_line (after_lines c before) line).0 ≡ false
  pub message :
      r.error_msg
      ≡ take 255 (
          codes "Line "
          ++ (reverse (digits_of 16 (first + length before))
              ++ (b':' ∷ b' ' ∷ (asm_line (after_lines c before) line).1.error_msg)))

lines_of-read_word :
    (k : ℕ) (text line : List ℕ)
    → k + length line ≡ 255
    → 0 < length text + length line
    → let r = read_word k is_newline text in
      lines_of text line ≡ (line ++ r.0) ∷ lines_of (skip_newline r.1) []
unfolding lines_of read_word
lines_of-read_word k [] [] full some_left = absurd (omega arith)
lines_of-read_word zero [] (x ∷ line) full some_left =
    ap (λ l. l ∷ []) (sym (append-nil (x ∷ line)))
lines_of-read_word (suc k) [] (x ∷ line) full some_left =
    ap (λ l. l ∷ []) (sym (append-nil (x ∷ line)))
lines_of-read_word zero (c ∷ text) line full some_left = elim (Bool-cases (c == 10)) [
  | inl e ↦ rw e (ap (λ l. l ∷ lines_of text []) (sym (append-nil line)))
  | inr e ↦
      let long : (length line == 255) ≡ true = ground arith in
      rw (e, long, e) (ap (λ l. l ∷ lines_of text (c ∷ [])) (sym (append-nil line)))
]
lines_of-read_word (suc k) (c ∷ text) line full some_left = elim (Bool-cases (c == 10)) [
  | inl e ↦ rw (e, e) (ap (λ l. l ∷ lines_of text []) (sym (append-nil line)))
  | inr e ↦
      let short : (length line == 255) ≡ false = ground arith in
      let r = read_word k is_newline text in
      rw (e, short)
        (lines_of-read_word k text (line ++ c ∷ []) (omega (arith, length-append line (c ∷ [])))
            (omega (arith, length-append line (c ∷ [])))
          ∙ ap (λ l. l ∷ lines_of (skip_newline r.1) []) (append_assoc line (c ∷ []) r.0))
]

read_word-shorter : (k : ℕ) (text : List ℕ) → length (read_word k is_newline text).1 ≤ length text
unfolding read_word
read_word-shorter zero text = omega arith
read_word-shorter (suc k) [] = omega arith
read_word-shorter (suc k) (c ∷ text) = ground (arith, read_word-shorter k text)

skip_newline-shorter : (text : List ℕ) → length (skip_newline text) ≤ length text
skip_newline-shorter [] = omega arith
skip_newline-shorter (c ∷ text) = ground arith

round-shorter :
    (k c : ℕ) (text : List ℕ)
    → length (skip_newline (read_word (suc k) is_newline (c ∷ text)).1) ≤ length text
unfolding read_word
round-shorter k c text = elim (Bool-cases (c == 10)) [
  | inl e ↦ rw (e, e) (omega arith)
  | inr e ↦
      let rest = (read_word k is_newline text).1 in
      rw e (omega (arith, skip_newline-shorter rest, read_word-shorter k text))
]

round-enough :
    (fuel x : ℕ) (text : List ℕ)
    → length (x ∷ text) ≤ suc fuel
    → length (skip_newline (read_word 255 is_newline (x ∷ text)).1) ≤ fuel
round-enough fuel x text enough = below _ (length text) (round-shorter 254 x text) (omega arith)
  where
    below : (a b : ℕ) → a ≤ b → b ≤ fuel → a ≤ fuel
    below a b h k = omega arith

-- All lines are assembled, or the first that fails is reported.
abbrev pub IsOutcome : ℕ → Asm → List (List ℕ) → Bool × Asm → Type 0
IsOutcome first c ls r =
    ((r.0 ≡ true) × AllDone c ls × (r.1 ≡ after_lines c ls))
    ⊎ ((r.0 ≡ false) × IsReport first c ls r.1)

abbrev goes_on : ℕ → ℕ → List ℕ → Bool × Asm → Bool × Asm
goes_on fuel n behind r = elim r.0 [
  | true ↦ run_lines fuel r.1 behind (n + 1)
  | false ↦ (false, with_line r.1 n)
]

goes_on-IsOutcome :
    (fuel n : ℕ) (rest : List ℕ) (c : Asm) (line : List ℕ) (ls : List (List ℕ)) (r : Bool × Asm)
    → asm_line c line ≡ r
    → IsOutcome (n + 1) r.1 ls (run_lines fuel r.1 rest (n + 1))
    → IsOutcome n c (line ∷ ls) (goes_on fuel n rest r)
unfolding AllDone after_lines
goes_on-IsOutcome fuel n rest c line ls (false, c') e later = inr (
  refl,
  record {
    before = [];
    line = line;
    behind = ls;
    split = refl;
    done = tt;
    fails = ap (λ r. r.0) e;
    message =
        ap (λ m. take 255 (codes "Line " ++ (reverse (digits_of 16 n) ++ (b':' ∷ b' ' ∷ m))))
          (sym (ap (λ r. r.1.error_msg) e))
        ∙ ap
            (λ k. take 255 (
              codes "Line "
              ++ (reverse (digits_of 16 k) ++ (b':' ∷ b' ' ∷ (asm_line c line).1.error_msg))))
            same;
  },
)
  where
    same : n ≡ n + 0
    same = omega arith
goes_on-IsOutcome fuel n rest c line ls (true, c') e (inl (ok, all, end)) = inl (
  ok,
  (ap (λ r. r.0) e, subst (λ r. AllDone r.1 ls) (sym e) all),
  end ∙ ap (λ r. after_lines r.1 ls) (sym e),
)
goes_on-IsOutcome fuel n rest c line ls (true, c') e (inr (bad, p)) = inr (
  bad,
  record {
    before = line ∷ p.before;
    line = p.line;
    behind = p.behind;
    split = ap (λ l. line ∷ l) p.split;
    done = (ap (λ r. r.0) e, subst (λ r. AllDone r.1 p.before) (sym e) p.done);
    fails = subst (λ r. (asm_line (after_lines r.1 p.before) p.line).0 ≡ false) (sym e) p.fails;
    message =
        p.message
        ∙ ap
            (λ r.
              said (n + 1 + length p.before)
                (asm_line (after_lines r.1 p.before) p.line).1.error_msg)
            (sym e)
        ∙ ap (λ k. said k (asm_line (after_lines (asm_line c line).1 p.before) p.line).1.error_msg)
            same;
  },
)
  where
    said : ℕ → List ℕ → List ℕ
    said k m = take 255 (codes "Line " ++ (reverse (digits_of 16 k) ++ (b':' ∷ b' ' ∷ m)))

    same : n + 1 + length p.before ≡ n + suc (length p.before)
    same = omega arith

pub run_lines-IsOutcome :
    (fuel : ℕ) (c : Asm) (text : List ℕ) (n : ℕ)
    → length text ≤ fuel
    → IsOutcome n c (lines_of text []) (run_lines fuel c text n)
unfolding run_lines lines_of AllDone after_lines
run_lines-IsOutcome fuel c [] n enough = inl (refl, tt, refl)
run_lines-IsOutcome zero c (x ∷ text) n enough = absurd (omega arith)
run_lines-IsOutcome (suc fuel) c (x ∷ text) n enough =
    let r = read_word 255 is_newline (x ∷ text) in
    subst (λ ls. IsOutcome n c ls (goes_on fuel n (skip_newline r.1) (asm_line c r.0)))
      (sym (lines_of-read_word 255 (x ∷ text) [] (omega arith) (omega arith)))
      (goes_on-IsOutcome fuel n (skip_newline r.1) c r.0 (lines_of (skip_newline r.1) [])
        (asm_line c r.0) refl
        (run_lines-IsOutcome fuel (asm_line c r.0).1 (skip_newline r.1) (n + 1)
          (round-enough fuel x text enough)))
