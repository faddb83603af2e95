-- ===== src/Asm/Shown.antt =====
-- The line of asm.c that shows an instruction.
use amq_os.Asm.Lines.{fits_32}
use amq_os.Asm.Decode.{
  RegOp, UnaryOp, ImmOp, StackOp, PlainOp, Instruction, reg_to_reg, unary, with_imm8, mov_imm32,
  mov_imm64, stack, call_rel, plain,
}
use amq_os.Asm.Texts.{reg_name, literal}
use amq_os.Prelude.{ℕ, ◌+◌, ◌-◌, ◌^◌, ◌<◌, ◌≡◌, false, List, ◌∷◌, ◌++◌, ltb, if◌then◌else◌, codes}

-- An immediate of 8 or 32 bits as the word of 64 bits that has its sign.
abbrev pub word_8 : ℕ → ℕ
word_8 b = if ltb b 128 then b else b + (2 ^ 64 - 256)

abbrev pub word_32 : ℕ → ℕ
word_32 x = if ltb x (2 ^ 31) then x else x + (2 ^ 64 - 2 ^ 32)

abbrev pub two : List ℕ → List ℕ → List ℕ → List ℕ
two name arg1 arg2 = name ++ b' ' ∷ (arg1 ++ b',' ∷ b' ' ∷ arg2)

abbrev pub one : List ℕ → List ℕ → List ℕ
one name arg1 = name ++ b' ' ∷ arg1

-- The line that shows an instruction.
unfoldable pub text : Instruction → List ℕ
text (reg_to_reg RegOp.mov dst src) = two (codes "mov") (reg_name dst) (reg_name src)
text (reg_to_reg RegOp.add dst src) = two (codes "add") (reg_name dst) (reg_name src)
text (reg_to_reg RegOp.sub dst src) = two (codes "sub") (reg_name dst) (reg_name src)
text (reg_to_reg RegOp.xor dst src) = two (codes "xor") (reg_name dst) (reg_name src)
text (reg_to_reg RegOp.or dst src) = two (codes "or") (reg_name dst) (reg_name src)
text (reg_to_reg RegOp.and dst src) = two (codes "and") (reg_name dst) (reg_name src)
text (reg_to_reg RegOp.cmp dst src) = two (codes "cmp") (reg_name dst) (reg_name src)
text (unary UnaryOp.inc reg) = one (codes "inc") (reg_name reg)
text (unary UnaryOp.dec reg) = one (codes "dec") (reg_name reg)
text (unary UnaryOp.neg reg) = one (codes "neg") (reg_name reg)
text (unary UnaryOp.complement reg) = one (codes "not") (reg_name reg)
text (unary UnaryOp.call reg) = one (codes "call") (reg_name reg)
text (with_imm8 ImmOp.add reg imm) = two (codes "add") (reg_name reg) (literal (word_8 imm))
text (with_imm8 ImmOp.sub reg imm) = two (codes "sub") (reg_name reg) (literal (word_8 imm))
text (with_imm8 ImmOp.cmp reg imm) = two (codes "cmp") (reg_name reg) (literal (word_8 imm))
text (with_imm8 ImmOp.shl reg imm) = two (codes "shl") (reg_name reg) (literal (word_8 imm))
text (with_imm8 ImmOp.shr reg imm) = two (codes "shr") (reg_name reg) (literal (word_8 imm))
text (mov_imm32 reg imm) = two (codes "mov") (reg_name reg) (literal (word_32 imm))
text (mov_imm64 reg imm) = two (codes "mov") (codes "rax") (literal imm)
text (stack StackOp.push reg) = one (codes "push") (reg_name reg)
text (stack StackOp.pop reg) = one (codes "pop") (reg_name reg)
text (call_rel imm) = one (codes "call") (literal (word_32 imm))
text (plain PlainOp.syscall) = codes "syscall"
text (plain PlainOp.ret) = codes "ret"
text (plain PlainOp.nop) = codes "nop"

-- What the assembler takes beyond the room for it: shifts by 63 at most, and a number of 64 bits only
-- where 32 are not enough.
abbrev pub IsAccepted : Instruction → Type 0
IsAccepted (with_imm8 ImmOp.shl reg imm) = imm < 64
IsAccepted (with_imm8 ImmOp.shr reg imm) = imm < 64
IsAccepted (mov_imm64 reg imm) = fits_32 imm ≡ false
IsAccepted _ = Unit {0}

-- A mnemonic: a word without blanks, in small letters, no comment.
