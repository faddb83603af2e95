-- ===== src/Asm/Reading.antt =====
-- How asm_line of asm.c reads the words of a line.
use amq_os.Asm.{Asm}
use amq_os.Asm.Words.{is_blank, skip_blanks, read_word}
use amq_os.Asm.Lines.{asm_line, line_of, line_words, dispatch, ends_arg, lower, skip_separators}
use amq_os.Asm.Texts.{
  is_arg, plain-split, reg_name, reg_name_lem, literal, literal-is_arg, parse_immediate-literal,
  parse_register-literal, read_word-plain, read_word-end,
}
use amq_os.Asm.Texts
use mathlib.Core.List.{append-nil}
use amq_os.Prelude.{
  ℕ, ◌<◌, ◌≡◌, refl, sym, ap, ◌∙◌, Bool, true, false, ◌||◌, List, [], ◌∷◌, ◌++◌, map, arith, ◌==◌,
  if◌then◌else◌, length,
}
use amq_os.Asm.Shown.{two, one}

abbrev pub IsMnemonic : List ℕ → Type 0
IsMnemonic [] = ⊥
IsMnemonic (x ∷ w) =
    ((x == b';' || x == b'#') ≡ false)
    × (is_blank x ≡ false)
    × (Texts.plain is_blank (x ∷ w) ≡ true)
    × (length (x ∷ w) < 31)
    × (map lower (x ∷ w) ≡ x ∷ w)

skip_blanks-arg : (w rest : List ℕ) → is_arg w ≡ true → skip_blanks (w ++ rest) ≡ w ++ rest
unfolding skip_blanks
skip_blanks-arg [] rest h = cc
skip_blanks-arg (x ∷ w) rest h =
    ap (λ t. if t then skip_blanks (w ++ rest) else x ∷ w ++ rest) (Texts.is_arg-parts x w h).0.0

skip_separators-arg : (w : List ℕ) → is_arg w ≡ true → skip_separators w ≡ w
unfolding skip_separators
skip_separators-arg [] h = cc
skip_separators-arg (x ∷ w) h =
    ap (λ t. if t then skip_separators w else x ∷ w) (Texts.is_arg-parts x w h).0.1

read-arg :
    (w : List ℕ) (c : ℕ) (rest : List ℕ)
    → is_arg w ≡ true
    → ends_arg c ≡ true
    → read_word 63 ends_arg (w ++ c ∷ rest) ≡ (w, c ∷ rest)
read-arg [] c rest h e = cc
read-arg (x ∷ w) c rest h e =
    let (head, word, short) = Texts.is_arg-parts x w h in
    read_word-plain 63 ends_arg (x ∷ w) c rest (omega arith) short word e

read-last_arg : (w : List ℕ) → is_arg w ≡ true → read_word 63 ends_arg w ≡ (w, [])
read-last_arg [] h = cc
read-last_arg (x ∷ w) h =
    let (head, word, short) = Texts.is_arg-parts x w h in
    read_word-end 63 ends_arg (x ∷ w) (omega arith) word

-- What is left to do behind each word of a line.
abbrev behind_arg1 : Asm → List ℕ → List ℕ × List ℕ → Bool × Asm
behind_arg1 c m r = dispatch c (map lower m) r.0 (read_word 63 ends_arg (skip_separators r.1)).0

abbrev behind_mnemonic : Asm → List ℕ × List ℕ → Bool × Asm
behind_mnemonic c r = behind_arg1 c r.0 (read_word 63 ends_arg (skip_blanks r.1))

asm_line-mnemonic :
    (c : Asm) (name rest : List ℕ) (r : List ℕ × List ℕ)
    → c.error ≡ false
    → IsMnemonic name
    → read_word 31 is_blank (name ++ rest) ≡ r
    → asm_line c (name ++ rest) ≡ behind_mnemonic c r
unfolding asm_line skip_blanks line_words
asm_line-mnemonic c [] rest r e h f = absurd h
asm_line-mnemonic c (x ∷ w) rest r e h f =
    ap (λ t. if t then (false, c) else line_of c (skip_blanks (x ∷ w ++ rest))) e
    ∙ ap (λ t. line_of c (if t then skip_blanks (w ++ rest) else x ∷ w ++ rest)) h.1
    ∙ ap (λ t. if t then (true, c) else line_words c (x ∷ w ++ rest)) h.0
    ∙ ap (behind_mnemonic c) f

read_mnemonic :
    (name rest : List ℕ)
    → IsMnemonic name
    → read_word 31 is_blank (name ++ b' ' ∷ rest) ≡ (name, b' ' ∷ rest)
read_mnemonic [] rest h = absurd h
read_mnemonic (x ∷ w) rest h =
    read_word-plain 31 is_blank (x ∷ w) b' ' rest (omega (arith, h.3)) h.3 h.2 refl

lowered : (name : List ℕ) → IsMnemonic name → map lower name ≡ name
lowered [] h = absurd h
lowered (x ∷ w) h = h.4

pub asm_line-two :
    (c : Asm) (name arg1 arg2 : List ℕ)
    → c.error ≡ false
    → IsMnemonic name
    → is_arg arg1 ≡ true
    → is_arg arg2 ≡ true
    → asm_line c (two name arg1 arg2) ≡ dispatch c name arg1 arg2
unfolding skip_blanks skip_separators
asm_line-two c name arg1 arg2 e h h1 h2 =
    asm_line-mnemonic c name _ (name, b' ' ∷ rest) e h (read_mnemonic name rest h)
    ∙ ap (λ s. behind_arg1 c name (read_word 63 ends_arg s)) (skip_blanks-arg arg1 _ h1)
    ∙ ap (behind_arg1 c name) (read-arg arg1 b',' (b' ' ∷ arg2) h1 refl)
    ∙ ap (λ s. dispatch c (map lower name) arg1 (read_word 63 ends_arg s).0)
        (skip_separators-arg arg2 h2)
    ∙ ap (λ r. dispatch c (map lower name) arg1 r.0) (read-last_arg arg2 h2)
    ∙ ap (λ m. dispatch c m arg1 arg2) (lowered name h)
  where
    rest : List ℕ
    rest = arg1 ++ b',' ∷ b' ' ∷ arg2

pub asm_line-one :
    (c : Asm) (name arg1 : List ℕ)
    → c.error ≡ false
    → IsMnemonic name
    → is_arg arg1 ≡ true
    → asm_line c (one name arg1) ≡ dispatch c name arg1 []
unfolding skip_blanks skip_separators read_word
asm_line-one c name arg1 e h h1 =
    asm_line-mnemonic c name _ (name, b' ' ∷ arg1) e h (read_mnemonic name arg1 h)
    ∙ ap (λ s. behind_arg1 c name (read_word 63 ends_arg s)) (whole ∙ append-nil arg1)
    ∙ ap (behind_arg1 c name) (read-last_arg arg1 h1)
    ∙ ap (λ m. dispatch c m arg1 []) (lowered name h)
  where
    whole : skip_blanks arg1 ≡ arg1 ++ []
    whole = ap skip_blanks (sym (append-nil arg1)) ∙ skip_blanks-arg arg1 [] h1

-- Both registers are read.
