-- ===== src/Asm.antt =====
-- src/kernel/assembler/asm.c and includes/asm.h: the assembler. A text is the characters before its NUL.
-- Of `code` the first `size` bytes are kept, the others are 0. Immediates are 64-bit words in two's
-- complement; a literal too large for one wraps. Bits that are joined by `|` are disjoint, so that a
-- sum stands for it.
use amq_os.Prelude.{
  ℕ, zero, suc, ◌+◌, ◌-◌, ◌*◌, ◌/◌, ◌%◌, ◌^◌, ◌≤◌, ◌<◌, ◌≡◌, refl, sym, ap, ◌∙◌, subst, ◌≢◌, ◌↔◌,
  ◌⊎◌, inl, inr, Bool, true, false, not, ◌&&◌, ◌||◌, Option, none, some, List, [], ◌∷◌, ◌++◌, map,
  arith, ltb, leb, ◌==◌, if◌then◌else◌, u8, u16, u32, u64, sub16, sub32, sub64, Bool-cases,
  Option-cases, ==_iff, length, take, drop, update, update_self, update_ne, scan, scan-some,
  scan-first, scan-ne-none, contains, Distinct, without, AllBelow, contains-ne, without-absent,
  contains-without, without-Distinct, contains-append, append-Distinct, length-le_bound, replicate,
  length-append, length-take, length-drop, length-replicate, take-append-drop, get_elem?, get_or,
  if_both, contains-join, scan_is, Distinct-split, codes, check_below, check_below_lem,
}
pub mod Words
pub mod Lines
pub mod Decode
pub mod Encoding
pub mod Decoding
pub mod Emitting
pub mod Texts
pub mod Shown
pub mod Reading
pub mod Parsing
pub mod Programs
pub mod Listing
pub mod Fitting
pub mod RoundTrip
pub mod Bounded
pub mod Reports
pub mod Errors

abbrev pub max_asm_size : ℕ
max_asm_size = 4096

pub record Asm : Type 0 where
  pub code : List ℕ
  pub error : Bool
  pub error_msg : List ℕ

abbrev pub asm_init : Asm
asm_init = record { code = []; error = false; error_msg = [] }

abbrev pub asm_error : Asm → List ℕ → Asm
asm_error c msg = record c { error = true; error_msg = take 255 msg }

abbrev pub asm_emit : Asm → ℕ → Asm
asm_emit c byte =
    if leb max_asm_size (length c.code)
    then asm_error c (codes "Code size exceeded")
    else record c { code = c.code ++ byte ∷ [] }

-- Calls of `asm_emit` one after the other.
unfoldable pub asm_emit_bytes : Asm → List ℕ → Asm
asm_emit_bytes c [] = c
asm_emit_bytes c (b ∷ bytes) = asm_emit_bytes (asm_emit c b) bytes

-- The bytes of a word, the low one first: `(x >> (i * 8)) & 0xFF`.
abbrev pub bytes_of : ℕ → ℕ → List ℕ
bytes_of zero x = []
bytes_of (suc n) x = x % 256 ∷ bytes_of n (x / 256)

-- The low three bits of the number of a register, and whether it has a fourth.
abbrev pub low_bits : ℕ → ℕ
low_bits reg = if leb 8 reg then reg - 8 else reg

abbrev pub high_bit : ℕ → ℕ
high_bit reg = if leb 8 reg then 1 else 0

-- The shape of the encoders of two registers: the prefix, the operation, and both registers.
unfoldable pub reg_reg : ℕ → Asm → ℕ → ℕ → Asm
unfolding asm_emit_bytes
reg_reg op c dst src =
    asm_emit_bytes c (
      (0x48 + high_bit src * 4 + high_bit dst) ∷ op ∷ (0xC0 + low_bits src * 8 + low_bits dst) ∷ [])

-- The shape of the encoders of one register; `ext` has the bits that extend the operation.
unfoldable pub one_reg : ℕ → ℕ → List ℕ → Asm → ℕ → Asm
unfolding asm_emit_bytes
one_reg op ext imm c reg =
    asm_emit_bytes c ((0x48 + high_bit reg) ∷ op ∷ (ext + low_bits reg) ∷ imm)

abbrev pub asm_call_rel32 : Asm → ℕ → Asm
asm_call_rel32 c offset = asm_emit_bytes c (0xE8 ∷ bytes_of 4 offset)

abbrev pub asm_call_reg : Asm → ℕ → Asm
asm_call_reg = one_reg 0xFF 0xD0 []

abbrev pub asm_mov_rax_imm64 : Asm → ℕ → Asm
asm_mov_rax_imm64 c imm = asm_emit_bytes c (0x48 ∷ 0xB8 ∷ bytes_of 8 imm)

abbrev pub asm_mov_reg_imm32 : Asm → ℕ → ℕ → Asm
asm_mov_reg_imm32 c reg imm = one_reg 0xC7 0xC0 (bytes_of 4 imm) c reg

abbrev pub asm_mov_reg_reg : Asm → ℕ → ℕ → Asm
asm_mov_reg_reg = reg_reg 0x89

abbrev pub asm_add_reg_imm8 : Asm → ℕ → ℕ → Asm
asm_add_reg_imm8 c reg imm = one_reg 0x83 0xC0 (bytes_of 1 imm) c reg

abbrev pub asm_add_reg_reg : Asm → ℕ → ℕ → Asm
asm_add_reg_reg = reg_reg 0x01

abbrev pub asm_sub_reg_imm8 : Asm → ℕ → ℕ → Asm
asm_sub_reg_imm8 c reg imm = one_reg 0x83 0xE8 (bytes_of 1 imm) c reg

abbrev pub asm_sub_reg_reg : Asm → ℕ → ℕ → Asm
asm_sub_reg_reg = reg_reg 0x29

abbrev pub asm_xor_reg_reg : Asm → ℕ → ℕ → Asm
asm_xor_reg_reg = reg_reg 0x31

abbrev pub asm_or_reg_reg : Asm → ℕ → ℕ → Asm
asm_or_reg_reg = reg_reg 0x09

abbrev pub asm_and_reg_reg : Asm → ℕ → ℕ → Asm
asm_and_reg_reg = reg_reg 0x21

abbrev pub asm_cmp_reg_imm8 : Asm → ℕ → ℕ → Asm
asm_cmp_reg_imm8 c reg imm = one_reg 0x83 0xF8 (bytes_of 1 imm) c reg

abbrev pub asm_cmp_reg_reg : Asm → ℕ → ℕ → Asm
asm_cmp_reg_reg = reg_reg 0x39

-- `push` and `pop` have a prefix only for the registers from 8 on.
unfoldable pub short_reg : ℕ → Asm → ℕ → Asm
unfolding asm_emit_bytes
short_reg op c reg =
    asm_emit_bytes c
      (if leb 8 reg then 0x41 ∷ (op + low_bits reg) ∷ [] else (op + low_bits reg) ∷ [])

abbrev pub asm_push_reg : Asm → ℕ → Asm
asm_push_reg = short_reg 0x50

abbrev pub asm_pop_reg : Asm → ℕ → Asm
asm_pop_reg = short_reg 0x58

abbrev pub asm_syscall : Asm → Asm
asm_syscall c = asm_emit_bytes c (0x0F ∷ 0x05 ∷ [])

abbrev pub asm_ret : Asm → Asm
asm_ret c = asm_emit_bytes c (0xC3 ∷ [])

abbrev pub asm_nop : Asm → Asm
asm_nop c = asm_emit_bytes c (0x90 ∷ [])

abbrev pub asm_inc_reg : Asm → ℕ → Asm
asm_inc_reg = one_reg 0xFF 0xC0 []

abbrev pub asm_dec_reg : Asm → ℕ → Asm
asm_dec_reg = one_reg 0xFF 0xC8 []

abbrev pub asm_neg_reg : Asm → ℕ → Asm
asm_neg_reg = one_reg 0xF7 0xD8 []

abbrev pub asm_not_reg : Asm → ℕ → Asm
asm_not_reg = one_reg 0xF7 0xD0 []

abbrev pub asm_shl_reg_imm8 : Asm → ℕ → ℕ → Asm
asm_shl_reg_imm8 c reg imm = one_reg 0xC1 0xE0 (bytes_of 1 imm) c reg

abbrev pub asm_shr_reg_imm8 : Asm → ℕ → ℕ → Asm
asm_shr_reg_imm8 c reg imm = one_reg 0xC1 0xE8 (bytes_of 1 imm) c reg
