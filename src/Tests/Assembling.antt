-- ===== src/Tests/Assembling.antt =====
-- Programs of src/kernel/assembler/asm.c.
use amq_os.Asm
use amq_os.Asm.{max_asm_size}
use amq_os.Asm.Lines.{asm_program, asm_get_code}
use amq_os.Asm.Decode.{
  RegOp, UnaryOp, ImmOp, StackOp, PlainOp, Instruction, reg_to_reg, unary, with_imm8, mov_imm32,
  mov_imm64, stack, plain,
}
use amq_os.Asm.Listing.{program, decode_all}
use amq_os.Asm.RoundTrip.{asm_program-program}
use amq_os.Asm.Errors.{asm_program-bounded}
use amq_os.Asm.Reports.{lines_of, AllDone, after_lines, IsReport}
use amq_os.Prelude.{ℕ, ◌≤◌, ◌≡◌, refl, ◌⊎◌, true, none, some, List, [], ◌∷◌, arith, length, codes}

abbrev instructions : List Instruction
instructions =
    mov_imm64 0 0x123456789ABC
    ∷ mov_imm32 9 0xFFFFFFFF
    ∷ reg_to_reg RegOp.add 8 1
    ∷ with_imm8 ImmOp.sub 12 0x80
    ∷ with_imm8 ImmOp.shl 3 63
    ∷ unary UnaryOp.complement 15
    ∷ stack StackOp.push 11
    ∷ plain PlainOp.ret
    ∷ []

asm_program_example :
    ((asm_program Asm.asm_init (program instructions)).0 ≡ true)
    × ((code : List ℕ) × (asm_get_code (asm_program Asm.asm_init (program instructions)).1
          ≡ some code)
        × (decode_all (length instructions) code ≡ some instructions))
asm_program_example =
    asm_program-program instructions
      (
        ((refl, omega arith), refl),
        (
          ((omega arith, omega arith), tt),
          (
            ((omega arith, omega arith), tt),
            (
              ((omega arith, omega arith), tt),
              (
                ((omega arith, omega arith), omega arith),
                ((omega arith, tt), ((omega arith, tt), ((tt, tt), tt))),
              ),
            ),
          ),
        ),
      )
      (omega arith)

-- The second line has no such instruction.
asm_program-bounded_example :
    let r = asm_program Asm.asm_init (codes "ret\nfoo rax, 1\n") in
    let lines = codes "ret" ∷ codes "foo rax, 1" ∷ [] in
    (length r.1.code ≤ max_asm_size)
    × (((r.0 ≡ true) × AllDone Asm.asm_init lines × (r.1 ≡ after_lines Asm.asm_init lines))
        ⊎ ((asm_get_code r.1 ≡ none) × IsReport 1 Asm.asm_init lines r.1))
unfolding lines_of
asm_program-bounded_example = asm_program-bounded (codes "ret\nfoo rax, 1\n")
