-- ===== src/Asm/Fitting.antt =====
-- The lines that show instructions fit into the array of asm_program in asm.c.
use amq_os.Asm.Lines.{ends_arg, is_newline}
use amq_os.Asm.Decode.{
  RegOp, UnaryOp, ImmOp, StackOp, PlainOp, Instruction, reg_to_reg, unary, with_imm8, mov_imm32,
  mov_imm64, stack, call_rel, plain,
}
use amq_os.Asm.Encoding.{IsInstruction}
use amq_os.Asm.Texts
use amq_os.Asm.Texts.{
  is_arg, is_arg-parts, plain-split, reg_name, reg_name_lem, literal, literal-is_arg,
  read_word-plain,
}
use amq_os.Asm.Shown.{word_8, word_32, two, one, text}
use amq_os.Prelude.{
  ℕ, ◌<◌, ◌≡◌, refl, Bool, true, List, [], ◌∷◌, ◌++◌, arith, length, length-append, codes,
}

-- A line has no newline, and fits into the array for it.
abbrev pub IsLine : List ℕ → Type 0
IsLine s = (Texts.plain is_newline s ≡ true) × (length s < 255)

no_newline : (w : List ℕ) → Texts.plain ends_arg w ≡ true → Texts.plain is_newline w ≡ true
no_newline [] h = refl
no_newline (x ∷ w) h =
    let (head, more) = plain-split (ends_arg x) (Texts.plain ends_arg w) h in
    let rest = no_newline w more in ground arith

plain-append :
    (stop : ℕ → Bool) (v w : List ℕ)
    → Texts.plain stop v ≡ true
    → Texts.plain stop w ≡ true
    → Texts.plain stop (v ++ w) ≡ true
plain-append stop [] w h k = k
plain-append stop (x ∷ v) w h k =
    let (head, more) = plain-split (stop x) (Texts.plain stop v) h in
    let rest = plain-append stop v w more k in ground arith

arg-IsLine : (w : List ℕ) → is_arg w ≡ true → (Texts.plain is_newline w ≡ true) × (length w < 63)
arg-IsLine [] h = cc
arg-IsLine (x ∷ w) h =
    let (head, word, short) = is_arg-parts x w h in (no_newline (x ∷ w) word, short)

two-IsLine :
    (name arg1 arg2 : List ℕ)
    → Texts.plain is_newline name ≡ true
    → length name < 31
    → is_arg arg1 ≡ true
    → is_arg arg2 ≡ true
    → IsLine (two name arg1 arg2)
two-IsLine name arg1 arg2 p s h k =
    let (p1, s1) = arg-IsLine arg1 h in
    let (p2, s2) = arg-IsLine arg2 k in
    let tail = b',' ∷ b' ' ∷ arg2 in
    (
      plain-append is_newline name (b' ' ∷ (arg1 ++ tail)) p
          (plain-append is_newline arg1 tail p1 p2),
      omega (arith, length-append name (b' ' ∷ (arg1 ++ tail)), length-append arg1 tail),
    )

one-IsLine :
    (name arg1 : List ℕ)
    → Texts.plain is_newline name ≡ true
    → length name < 31
    → is_arg arg1 ≡ true
    → IsLine (one name arg1)
one-IsLine name arg1 p s h =
    let (p1, s1) = arg-IsLine arg1 h in
    (
      plain-append is_newline name (b' ' ∷ arg1) p p1,
      omega (arith, length-append name (b' ' ∷ arg1)),
    )

pub text-IsLine : (i : Instruction) → IsInstruction i → IsLine (text i)
unfolding text
text-IsLine (reg_to_reg RegOp.mov dst src) h =
    two-IsLine (codes "mov") (reg_name dst) (reg_name src) refl (omega arith)
      (reg_name_lem dst h.0).0 (reg_name_lem src h.1).0
text-IsLine (reg_to_reg RegOp.add dst src) h =
    two-IsLine (codes "add") (reg_name dst) (reg_name src) refl (omega arith)
      (reg_name_lem dst h.0).0 (reg_name_lem src h.1).0
text-IsLine (reg_to_reg RegOp.sub dst src) h =
    two-IsLine (codes "sub") (reg_name dst) (reg_name src) refl (omega arith)
      (reg_name_lem dst h.0).0 (reg_name_lem src h.1).0
text-IsLine (reg_to_reg RegOp.xor dst src) h =
    two-IsLine (codes "xor") (reg_name dst) (reg_name src) refl (omega arith)
      (reg_name_lem dst h.0).0 (reg_name_lem src h.1).0
text-IsLine (reg_to_reg RegOp.or dst src) h =
    two-IsLine (codes "or") (reg_name dst) (reg_name src) refl (omega arith)
      (reg_name_lem dst h.0).0 (reg_name_lem src h.1).0
text-IsLine (reg_to_reg RegOp.and dst src) h =
    two-IsLine (codes "and") (reg_name dst) (reg_name src) refl (omega arith)
      (reg_name_lem dst h.0).0 (reg_name_lem src h.1).0
text-IsLine (reg_to_reg RegOp.cmp dst src) h =
    two-IsLine (codes "cmp") (reg_name dst) (reg_name src) refl (omega arith)
      (reg_name_lem dst h.0).0 (reg_name_lem src h.1).0
text-IsLine (unary UnaryOp.inc reg) h =
    one-IsLine (codes "inc") (reg_name reg) refl (omega arith) (reg_name_lem reg h).0
text-IsLine (unary UnaryOp.dec reg) h =
    one-IsLine (codes "dec") (reg_name reg) refl (omega arith) (reg_name_lem reg h).0
text-IsLine (unary UnaryOp.neg reg) h =
    one-IsLine (codes "neg") (reg_name reg) refl (omega arith) (reg_name_lem reg h).0
text-IsLine (unary UnaryOp.complement reg) h =
    one-IsLine (codes "not") (reg_name reg) refl (omega arith) (reg_name_lem reg h).0
text-IsLine (unary UnaryOp.call reg) h =
    one-IsLine (codes "call") (reg_name reg) refl (omega arith) (reg_name_lem reg h).0
text-IsLine (with_imm8 ImmOp.add reg imm) h =
    two-IsLine (codes "add") (reg_name reg) (literal (word_8 imm)) refl (omega arith)
      (reg_name_lem reg h.0).0 (literal-is_arg (word_8 imm))
text-IsLine (with_imm8 ImmOp.sub reg imm) h =
    two-IsLine (codes "sub") (reg_name reg) (literal (word_8 imm)) refl (omega arith)
      (reg_name_lem reg h.0).0 (literal-is_arg (word_8 imm))
text-IsLine (with_imm8 ImmOp.cmp reg imm) h =
    two-IsLine (codes "cmp") (reg_name reg) (literal (word_8 imm)) refl (omega arith)
      (reg_name_lem reg h.0).0 (literal-is_arg (word_8 imm))
text-IsLine (with_imm8 ImmOp.shl reg imm) h =
    two-IsLine (codes "shl") (reg_name reg) (literal (word_8 imm)) refl (omega arith)
      (reg_name_lem reg h.0).0 (literal-is_arg (word_8 imm))
text-IsLine (with_imm8 ImmOp.shr reg imm) h =
    two-IsLine (codes "shr") (reg_name reg) (literal (word_8 imm)) refl (omega arith)
      (reg_name_lem reg h.0).0 (literal-is_arg (word_8 imm))
text-IsLine (mov_imm32 reg imm) h =
    two-IsLine (codes "mov") (reg_name reg) (literal (word_32 imm)) refl (omega arith)
      (reg_name_lem reg h.0).0 (literal-is_arg (word_32 imm))
text-IsLine (mov_imm64 reg imm) h =
    two-IsLine (codes "mov") (codes "rax") (literal imm) refl (omega arith) refl
      (literal-is_arg imm)
text-IsLine (stack StackOp.push reg) h =
    one-IsLine (codes "push") (reg_name reg) refl (omega arith) (reg_name_lem reg h).0
text-IsLine (stack StackOp.pop reg) h =
    one-IsLine (codes "pop") (reg_name reg) refl (omega arith) (reg_name_lem reg h).0
text-IsLine (call_rel imm) h =
    one-IsLine (codes "call") (literal (word_32 imm)) refl (omega arith)
      (literal-is_arg (word_32 imm))
text-IsLine (plain PlainOp.syscall) h = (refl, omega arith)
text-IsLine (plain PlainOp.ret) h = (refl, omega arith)
text-IsLine (plain PlainOp.nop) h = (refl, omega arith)
