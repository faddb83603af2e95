-- ===== src/Asm/Decode.antt =====
-- A decoder of the machine code that asm.c emits, read off the manual of the processor.
use amq_os.Prelude.{
  ℕ, zero, suc, ◌+◌, ◌-◌, ◌*◌, ◌/◌, ◌%◌, Bool, not, ◌&&◌, Option, none, some, List, [], ◌∷◌, ltb,
  leb, ◌==◌, if◌then◌else◌,
}

pub data RegOp : Type 0 where
  mov add sub xor or and cmp : RegOp

pub data UnaryOp : Type 0 where
  inc dec neg complement call : UnaryOp

pub data ImmOp : Type 0 where
  add sub cmp shl shr : ImmOp

pub data StackOp : Type 0 where
  push pop : StackOp

pub data PlainOp : Type 0 where
  syscall ret nop : PlainOp

-- Registers are numbers below 16. Immediates have the bits that the instruction has room for.
pub data Instruction : Type 0 where
  reg_to_reg : RegOp → ℕ → ℕ → Instruction
  unary : UnaryOp → ℕ → Instruction
  with_imm8 : ImmOp → ℕ → ℕ → Instruction
  mov_imm32 : ℕ → ℕ → Instruction
  mov_imm64 : ℕ → ℕ → Instruction
  stack : StackOp → ℕ → Instruction
  call_rel : ℕ → Instruction
  plain : PlainOp → Instruction

-- A little-endian number.
unfoldable pub read_le : ℕ → List ℕ → Option (ℕ × List ℕ)
read_le zero bytes = some (0, bytes)
read_le (suc n) [] = none
read_le (suc n) (b ∷ bytes) = elim (read_le n bytes) [
  | none ↦ none
  | some r ↦ some (b + r.0 * 256, r.1)
]

abbrev pub then_imm : (ℕ → Instruction) → Option (ℕ × List ℕ) → Option (Instruction × List ℕ)
then_imm f none = none
then_imm f (some r) = some (f r.0, r.1)

-- A field of three bits, and the bit of the prefix that extends it.
abbrev pub register : ℕ → ℕ → ℕ
register bit low = bit * 8 + low

abbrev pub reg_op_of : ℕ → Option RegOp
reg_op_of op =
    if op == 0x89
    then some RegOp.mov
    else if op == 0x01
    then some RegOp.add
    else if op == 0x29
    then some RegOp.sub
    else if op == 0x31
    then some RegOp.xor
    else if op == 0x09
    then some RegOp.or
    else if op == 0x21
    then some RegOp.and
    else if op == 0x39
    then some RegOp.cmp
    else none

-- The operations that the second field of the byte behind the opcode extends.
abbrev pub unary_of : ℕ → ℕ → Option UnaryOp
unary_of op ext =
    if op == 0xFF && ext == 0
    then some UnaryOp.inc
    else if op == 0xFF && ext == 1
    then some UnaryOp.dec
    else if op == 0xFF && ext == 2
    then some UnaryOp.call
    else if op == 0xF7 && ext == 2
    then some UnaryOp.complement
    else if op == 0xF7 && ext == 3
    then some UnaryOp.neg
    else none

abbrev pub imm_op_of : ℕ → ℕ → Option ImmOp
imm_op_of op ext =
    if op == 0x83 && ext == 0
    then some ImmOp.add
    else if op == 0x83 && ext == 5
    then some ImmOp.sub
    else if op == 0x83 && ext == 7
    then some ImmOp.cmp
    else if op == 0xC1 && ext == 4
    then some ImmOp.shl
    else if op == 0xC1 && ext == 5
    then some ImmOp.shr
    else none

unfoldable pub decode_group : ℕ → ℕ → ℕ → List ℕ → Option (Instruction × List ℕ)
unfolding read_le
decode_group op ext reg bytes = elim (unary_of op ext) [
  | some u ↦ some (unary u reg, bytes)
  | none ↦ elim (imm_op_of op ext) [
    | some o ↦ then_imm (with_imm8 o reg) (read_le 1 bytes)
    | none ↦ if op == 0xC7 && ext == 0 then then_imm (mov_imm32 reg) (read_le 4 bytes) else none
  ]
]

-- The fields of the byte behind the opcode: `mode` 3 stands for registers.
unfoldable pub decode_fields : ℕ → ℕ → ℕ → ℕ → ℕ → ℕ → List ℕ → Option (Instruction × List ℕ)
unfolding decode_group
decode_fields r b op mode reg rm bytes = if not (mode == 3) then none else elim (reg_op_of op) [
  | some o ↦ some (reg_to_reg o (register b rm) (register r reg), bytes)
  | none ↦ if r == 0 then decode_group op reg (register b rm) bytes else none
]

-- Behind a prefix for 64-bit operands with the bits `r` and `b`.
unfoldable pub decode_wide : ℕ → ℕ → List ℕ → Option (Instruction × List ℕ)
unfolding decode_fields read_le
decode_wide r b [] = none
decode_wide r b (op ∷ []) = none
decode_wide r b (op ∷ m ∷ bytes) =
    if leb 0xB8 op && ltb op 0xC0
    then then_imm (mov_imm64 (register b (op - 0xB8))) (read_le 8 (m ∷ bytes))
    else decode_fields r b op (m / 64) (m / 8 % 8) (m % 8) bytes

abbrev pub decode_stack : ℕ → ℕ → List ℕ → Option (Instruction × List ℕ)
decode_stack b op bytes =
    if leb 0x50 op && ltb op 0x58
    then some (stack StackOp.push (register b (op - 0x50)), bytes)
    else if leb 0x58 op && ltb op 0x60
    then some (stack StackOp.pop (register b (op - 0x58)), bytes)
    else none

abbrev pub decode_syscall : List ℕ → Option (Instruction × List ℕ)
decode_syscall [] = none
decode_syscall (b ∷ bytes) = if b == 0x05 then some (plain PlainOp.syscall, bytes) else none

abbrev pub decode_extended : List ℕ → Option (Instruction × List ℕ)
decode_extended [] = none
decode_extended (op ∷ bytes) = decode_stack 1 op bytes

unfoldable pub decode_narrow : ℕ → List ℕ → Option (Instruction × List ℕ)
unfolding read_le
decode_narrow op bytes =
    if op == 0xC3
    then some (plain PlainOp.ret, bytes)
    else if op == 0x90
    then some (plain PlainOp.nop, bytes)
    else if op == 0x0F
    then decode_syscall bytes
    else if op == 0xE8
    then then_imm call_rel (read_le 4 bytes)
    else if op == 0x41
    then decode_extended bytes
    else decode_stack 0 op bytes

abbrev pub is_wide : ℕ → Bool
is_wide op = leb 0x48 op && ltb op 0x50

-- The first instruction and the bytes behind it.
unfoldable pub decode : List ℕ → Option (Instruction × List ℕ)
unfolding decode_wide decode_narrow
decode [] = none
decode (op ∷ bytes) =
    if is_wide op then decode_wide (op / 4 % 2) (op % 2) bytes else decode_narrow op bytes
