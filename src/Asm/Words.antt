-- ===== src/Asm/Words.antt =====
-- src/kernel/assembler/asm.c: the words of a line, registers and immediates.
use amq_os.Prelude.{
  ℕ, zero, suc, ◌+◌, ◌-◌, ◌*◌, Bool, true, false, ◌&&◌, ◌||◌, Option, none, some, List, [], ◌∷◌,
  leb, ◌==◌, if◌then◌else◌, u64, sub64, codes,
}

abbrev pub is_blank : ℕ → Bool
is_blank c = c == b' ' || c == 9

unfoldable pub skip_blanks : List ℕ → List ℕ
skip_blanks [] = []
skip_blanks (c ∷ s) = if is_blank c then skip_blanks s else c ∷ s

-- Characters up to one at which `stop` holds, `limit` of them at most, and the rest.
unfoldable pub read_word : ℕ → (ℕ → Bool) → List ℕ → List ℕ × List ℕ
read_word zero stop s = ([], s)
read_word (suc limit) stop [] = ([], [])
read_word (suc limit) stop (c ∷ s) =
    let (word, rest) = read_word limit stop s in if stop c then ([], c ∷ s) else (c ∷ word, rest)

-- `STRNCMP(text, literal, n) == 0`, where `n` is the length of the literal.
unfoldable pub starts_with : List ℕ → List ℕ → Bool
starts_with [] text = true
starts_with (l ∷ literal) [] = false
starts_with (l ∷ literal) (c ∷ text) = l == c && starts_with literal text

-- The literal and an end behind it.
unfoldable pub is_name : List ℕ → List ℕ → Bool
is_name [] [] = true
is_name [] (c ∷ text) = c == b' ' || c == b','
is_name (l ∷ literal) [] = false
is_name (l ∷ literal) (c ∷ text) = l == c && is_name literal text

-- The tests of `parse_register` in their order; `none` for the -1.
abbrev pub register_table : List (List ℕ × ℕ)
register_table =
    (codes "rax", 0)
    ∷ (codes "rcx", 1)
    ∷ (codes "rdx", 2)
    ∷ (codes "rbx", 3)
    ∷ (codes "rsp", 4)
    ∷ (codes "rbp", 5)
    ∷ (codes "rsi", 6)
    ∷ (codes "rdi", 7)
    ∷ (codes "r8", 8)
    ∷ (codes "r9", 9)
    ∷ (codes "r10", 10)
    ∷ (codes "r11", 11)
    ∷ (codes "r12", 12)
    ∷ (codes "r13", 13)
    ∷ (codes "r14", 14)
    ∷ (codes "r15", 15)
    ∷ (codes "eax", 0)
    ∷ (codes "ecx", 1)
    ∷ (codes "edx", 2)
    ∷ (codes "ebx", 3)
    ∷ (codes "esp", 4)
    ∷ (codes "ebp", 5)
    ∷ (codes "esi", 6)
    ∷ (codes "edi", 7)
    ∷ []

unfoldable pub find_name : List (List ℕ × ℕ) → List ℕ → Option ℕ
unfolding is_name
find_name [] text = none
find_name ((name, n) ∷ table) text = if is_name name text then some n else find_name table text

unfoldable pub parse_register : List ℕ → Option ℕ
unfolding skip_blanks find_name
parse_register text = find_name register_table (skip_blanks text)

abbrev pub hex_digit : ℕ → Option ℕ
hex_digit c =
    if leb b'0' c && leb c b'9'
    then some (c - b'0')
    else if leb b'a' c && leb c b'f'
    then some (c - b'a' + 10)
    else if leb b'A' c && leb c b'F'
    then some (c - b'A' + 10)
    else none

unfoldable pub parse_hex : ℕ → List ℕ → ℕ
parse_hex val [] = val
parse_hex val (c ∷ s) = elim (hex_digit c) [
  | none ↦ val
  | some d ↦ parse_hex (u64 (val * 16 + d)) s
]

unfoldable pub parse_decimal : ℕ → List ℕ → ℕ
parse_decimal val [] = val
parse_decimal val (c ∷ s) = elim (leb b'0' c && leb c b'9') [
  | true ↦ parse_decimal (u64 (val * 10 + (c - b'0'))) s
  | false ↦ val
]

-- Behind the sign.
unfoldable pub parse_magnitude : List ℕ → ℕ
unfolding parse_hex parse_decimal
parse_magnitude (c ∷ x ∷ s) =
    if c == b'0' && (x == b'x' || x == b'X') then parse_hex 0 s else parse_decimal 0 (c ∷ x ∷ s)
parse_magnitude s = parse_decimal 0 s

abbrev pub parse_signed : List ℕ → ℕ
parse_signed [] = parse_magnitude []
parse_signed (c ∷ s) = if c == b'-' then sub64 0 (parse_magnitude s) else parse_magnitude (c ∷ s)

unfoldable pub parse_immediate : List ℕ → ℕ
unfolding skip_blanks parse_magnitude
parse_immediate text = parse_signed (skip_blanks text)
