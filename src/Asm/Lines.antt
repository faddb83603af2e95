-- ===== src/Asm/Lines.antt =====
-- src/kernel/assembler/asm.c: `asm_line` and `asm_program`. True stands for the result 0.
use amq_os.Asm
use amq_os.Asm.{Asm}
use amq_os.Asm.Words.{
  is_blank, skip_blanks, read_word, starts_with, parse_register, parse_immediate,
}
use mathlib.Core.List.{reverse}
use amq_os.Prelude.{
  ℕ, zero, suc, ◌+◌, ◌-◌, ◌/◌, ◌%◌, ◌^◌, Bool, true, false, not, ◌&&◌, ◌||◌, Option, none, some,
  List, [], ◌∷◌, ◌++◌, map, ltb, leb, ◌==◌, if◌then◌else◌, length, take, codes,
}

abbrev pub failed : Asm → List ℕ → Bool × Asm
failed c msg = (false, Asm.asm_error c msg)

-- Signed 64-bit words in the range of 32 and of 8 bits.
abbrev pub fits_32 : ℕ → Bool
fits_32 x = ltb x (2 ^ 31) || leb (2 ^ 64 - 2 ^ 31) x

abbrev pub fits_8 : ℕ → Bool
fits_8 x = ltb x 128 || leb (2 ^ 64 - 128) x

unfoldable pub line_mov : Asm → List ℕ → List ℕ → Bool × Asm
line_mov c arg1 arg2 = elim (parse_register arg1) [
  | none ↦ failed c (codes "Invalid destination register")
  | some reg1 ↦ elim (parse_register arg2) [
    | some reg2 ↦ (true, Asm.asm_mov_reg_reg c reg1 reg2)
    | none ↦
        let imm = parse_immediate arg2 in
        (
          true,
          if reg1 == 0 && not (fits_32 imm)
              then Asm.asm_mov_rax_imm64 c imm
              else Asm.asm_mov_reg_imm32 c reg1 imm,
        )
  ]
]

-- `add`, `sub` and `cmp`, which differ in their encoders and in the message.
unfoldable pub line_imm8 :
    List ℕ → (Asm → ℕ → ℕ → Asm) → (Asm → ℕ → ℕ → Asm) → Asm → List ℕ → List ℕ → Bool × Asm
line_imm8 invalid with_reg with_imm c arg1 arg2 = elim (parse_register arg1) [
  | none ↦ failed c invalid
  | some reg1 ↦ elim (parse_register arg2) [
    | some reg2 ↦ (true, with_reg c reg1 reg2)
    | none ↦
        let imm = parse_immediate arg2 in
        if fits_8 imm
        then (true, with_imm c reg1 imm)
        else failed c (codes "Immediate out of range (-128 to 127)")
  ]
]

-- `xor`, `or` and `and`.
unfoldable pub line_regs : (Asm → ℕ → ℕ → Asm) → Asm → List ℕ → List ℕ → Bool × Asm
line_regs with_reg c arg1 arg2 = elim (parse_register arg1) [
  | none ↦ failed c (codes "Invalid register")
  | some reg1 ↦ elim (parse_register arg2) [
    | none ↦ failed c (codes "Invalid register")
    | some reg2 ↦ (true, with_reg c reg1 reg2)
  ]
]

unfoldable pub line_call : Asm → List ℕ → Bool × Asm
line_call c arg1 = elim (parse_register arg1) [
  | some reg ↦ (true, Asm.asm_call_reg c reg)
  | none ↦ (true, Asm.asm_call_rel32 c (parse_immediate arg1))
]

-- `push`, `pop`, `inc`, `dec`, `neg` and `not`.
unfoldable pub line_reg : (Asm → ℕ → Asm) → Asm → List ℕ → Bool × Asm
line_reg with_reg c arg1 = elim (parse_register arg1) [
  | none ↦ failed c (codes "Invalid register")
  | some reg ↦ (true, with_reg c reg)
]

-- `shl` and `shr`.
unfoldable pub line_shift : (Asm → ℕ → ℕ → Asm) → Asm → List ℕ → List ℕ → Bool × Asm
line_shift with_imm c arg1 arg2 = elim (parse_register arg1) [
  | none ↦ failed c (codes "Invalid register")
  | some reg ↦
      let imm = parse_immediate arg2 in
      if leb imm 63
      then (true, with_imm c reg imm)
      else failed c (codes "Shift count out of range (0-63)")
]

-- The tests of the mnemonic, in their order.
unfoldable pub dispatch : Asm → List ℕ → List ℕ → List ℕ → Bool × Asm
unfolding starts_with line_mov line_imm8 line_regs line_call line_reg line_shift
dispatch c mnemonic arg1 arg2 =
    if starts_with (codes "mov") mnemonic
    then line_mov c arg1 arg2
    else if starts_with (codes "add") mnemonic
    then line_imm8 (codes "Invalid destination register") Asm.asm_add_reg_reg Asm.asm_add_reg_imm8 c
        arg1 arg2
    else if starts_with (codes "sub") mnemonic
    then line_imm8 (codes "Invalid destination register") Asm.asm_sub_reg_reg Asm.asm_sub_reg_imm8 c
        arg1 arg2
    else if starts_with (codes "xor") mnemonic
    then line_regs Asm.asm_xor_reg_reg c arg1 arg2
    else if starts_with (codes "or") mnemonic
    then line_regs Asm.asm_or_reg_reg c arg1 arg2
    else if starts_with (codes "and") mnemonic
    then line_regs Asm.asm_and_reg_reg c arg1 arg2
    else if starts_with (codes "cmp") mnemonic
    then line_imm8 (codes "Invalid register") Asm.asm_cmp_reg_reg Asm.asm_cmp_reg_imm8 c arg1 arg2
    else if starts_with (codes "call") mnemonic
    then line_call c arg1
    else if starts_with (codes "push") mnemonic
    then line_reg Asm.asm_push_reg c arg1
    else if starts_with (codes "pop") mnemonic
    then line_reg Asm.asm_pop_reg c arg1
    else if starts_with (codes "inc") mnemonic
    then line_reg Asm.asm_inc_reg c arg1
    else if starts_with (codes "dec") mnemonic
    then line_reg Asm.asm_dec_reg c arg1
    else if starts_with (codes "neg") mnemonic
    then line_reg Asm.asm_neg_reg c arg1
    else if starts_with (codes "not") mnemonic
    then line_reg Asm.asm_not_reg c arg1
    else if starts_with (codes "shl") mnemonic
    then line_shift Asm.asm_shl_reg_imm8 c arg1 arg2
    else if starts_with (codes "shr") mnemonic
    then line_shift Asm.asm_shr_reg_imm8 c arg1 arg2
    else if starts_with (codes "syscall") mnemonic
    then (true, Asm.asm_syscall c)
    else if starts_with (codes "ret") mnemonic
    then (true, Asm.asm_ret c)
    else if starts_with (codes "nop") mnemonic
    then (true, Asm.asm_nop c)
    else failed c (codes "Unknown instruction")

abbrev pub lower : ℕ → ℕ
lower c = if leb b'A' c && leb c b'Z' then c + 32 else c

-- What ends an argument.
abbrev pub ends_arg : ℕ → Bool
ends_arg c = c == b',' || is_blank c || c == b';' || c == b'#' || c == 10 || c == 13

unfoldable pub skip_separators : List ℕ → List ℕ
skip_separators [] = []
skip_separators (c ∷ s) = if is_blank c || c == b',' then skip_separators s else c ∷ s

unfoldable pub line_words : Asm → List ℕ → Bool × Asm
unfolding read_word skip_blanks skip_separators dispatch
line_words c text =
    let (mnemonic, behind) = read_word 31 is_blank text in
    let (arg1, behind1) = read_word 63 ends_arg (skip_blanks behind) in
    let (arg2, behind2) = read_word 63 ends_arg (skip_separators behind1) in
    dispatch c (map lower mnemonic) arg1 arg2

-- A line that is empty or a comment does nothing.
abbrev pub line_of : Asm → List ℕ → Bool × Asm
line_of c [] = (true, c)
line_of c (x ∷ text) = if x == b';' || x == b'#' then (true, c) else line_words c (x ∷ text)

unfoldable pub asm_line : Asm → List ℕ → Bool × Asm
unfolding skip_blanks line_words
asm_line c line = if c.error then (false, c) else line_of c (skip_blanks line)

-- The decimal digits of the number of a line, the low one first; it has 16 at most.
abbrev pub digits_of : ℕ → ℕ → List ℕ
digits_of zero n = []
digits_of (suc rounds) n =
    let rest = digits_of rounds (n / 10) in (b'0' + n % 10) ∷ (if n / 10 == 0 then [] else rest)

abbrev pub with_line : Asm → ℕ → Asm
with_line c line_num = record c {
  error_msg =
      take 255 (codes "Line " ++ (reverse (digits_of 16 line_num) ++ (b':' ∷ b' ' ∷ c.error_msg)));
}

abbrev pub skip_newline : List ℕ → List ℕ
skip_newline [] = []
skip_newline (c ∷ s) = if c == 10 then s else c ∷ s

-- A line of the program: at most 255 characters up to a newline, which is skipped.
abbrev pub is_newline : ℕ → Bool
is_newline c = c == 10

unfoldable pub run_lines : ℕ → Asm → List ℕ → ℕ → Bool × Asm
unfolding read_word asm_line
run_lines fuel c [] line_num = (true, c)
run_lines zero c (x ∷ program) line_num = (true, c)
run_lines (suc fuel) c (x ∷ program) line_num =
    let (line, behind) = read_word 255 is_newline (x ∷ program) in
    let (done, c') = asm_line c line in
    elim done [
      | true ↦ run_lines fuel c' (skip_newline behind) (line_num + 1)
      | false ↦ (false, with_line c' line_num)
    ]

-- Every round takes a character at least, so that as many rounds as characters are enough.
unfoldable pub asm_program : Asm → List ℕ → Bool × Asm
unfolding run_lines
asm_program c program = run_lines (length program) c program 1

-- The code, none for NULL.
abbrev pub asm_get_code : Asm → Option (List ℕ)
asm_get_code c = if c.error then none else some c.code
