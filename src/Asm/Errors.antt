-- ===== src/Asm/Errors.antt =====
-- The room for the code and the errors of asm.c, on any text.
use amq_os.Asm
use amq_os.Asm.{
  Asm, max_asm_size, asm_emit, asm_emit_bytes, reg_reg, one_reg, short_reg, bytes_of, high_bit,
  low_bits,
}
use amq_os.Asm.Words.{skip_blanks, read_word, starts_with}
use amq_os.Asm.Lines.{
  asm_line, line_of, line_words, dispatch, run_lines, asm_program, asm_get_code, with_line,
  skip_newline, is_newline,
}
use amq_os.Asm.Words.{is_blank}
use amq_os.Asm.Lines.{ends_arg, skip_separators, lower}
use amq_os.Prelude.{
  ℕ, zero, suc, ◌+◌, ◌≤◌, ◌≡◌, refl, sym, subst, ◌⊎◌, inl, inr, Bool, true, false, ◌||◌, none, List,
  [], ◌∷◌, map, arith, ◌==◌, if◌then◌else◌, Bool-cases, length, codes,
}
use amq_os.Asm.Reports.{lines_of, AllDone, after_lines, IsReport, run_lines-IsOutcome}
use amq_os.Asm.Bounded.{
  IsBounded, IsResult, if-IsResult, emitted, reg_reg-Keeps, one_reg-Keeps, short_reg-Keeps, stopped,
  line_mov-IsResult, line_imm8-IsResult, line_regs-IsResult, line_call-IsResult, line_reg-IsResult,
  line_shift-IsResult,
}

dispatch-IsResult : (c : Asm) (m a b : List ℕ) → IsBounded c → IsResult (dispatch c m a b)
unfolding dispatch
dispatch-IsResult c m a b h =
    if-IsResult (starts_with (codes "mov") m) _ _ (line_mov-IsResult c a b h) (
      if-IsResult (starts_with (codes "add") m) _ _
        (line_imm8-IsResult (codes "Invalid destination register") Asm.asm_add_reg_reg
          Asm.asm_add_reg_imm8 c a b (reg_reg-Keeps 0x01)
          (λ c d x. one_reg-Keeps 0x83 0xC0 (bytes_of 1 x) c d) h)
        (if-IsResult (starts_with (codes "sub") m) _ _
          (line_imm8-IsResult (codes "Invalid destination register") Asm.asm_sub_reg_reg
            Asm.asm_sub_reg_imm8 c a b (reg_reg-Keeps 0x29)
            (λ c d x. one_reg-Keeps 0x83 0xE8 (bytes_of 1 x) c d) h)
          (if-IsResult (starts_with (codes "xor") m) _ _
            (line_regs-IsResult Asm.asm_xor_reg_reg c a b (reg_reg-Keeps 0x31) h)
            (if-IsResult (starts_with (codes "or") m) _ _
              (line_regs-IsResult Asm.asm_or_reg_reg c a b (reg_reg-Keeps 0x09) h)
              (if-IsResult (starts_with (codes "and") m) _ _
                (line_regs-IsResult Asm.asm_and_reg_reg c a b (reg_reg-Keeps 0x21) h)
                (if-IsResult (starts_with (codes "cmp") m) _ _
                  (line_imm8-IsResult (codes "Invalid register") Asm.asm_cmp_reg_reg
                    Asm.asm_cmp_reg_imm8 c a b (reg_reg-Keeps 0x39)
                    (λ c d x. one_reg-Keeps 0x83 0xF8 (bytes_of 1 x) c d) h)
                  (if-IsResult (starts_with (codes "call") m) _ _ (line_call-IsResult c a h) (
                    if-IsResult (starts_with (codes "push") m) _ _
                      (line_reg-IsResult Asm.asm_push_reg c a (short_reg-Keeps 0x50) h)
                      (if-IsResult (starts_with (codes "pop") m) _ _
                        (line_reg-IsResult Asm.asm_pop_reg c a (short_reg-Keeps 0x58) h)
                        (if-IsResult (starts_with (codes "inc") m) _ _
                          (line_reg-IsResult Asm.asm_inc_reg c a (one_reg-Keeps 0xFF 0xC0 []) h)
                          (if-IsResult (starts_with (codes "dec") m) _ _
                            (line_reg-IsResult Asm.asm_dec_reg c a (one_reg-Keeps 0xFF 0xC8 []) h)
                            (if-IsResult (starts_with (codes "neg") m) _ _
                              (line_reg-IsResult Asm.asm_neg_reg c a (one_reg-Keeps 0xF7 0xD8 []) h)
                              (if-IsResult (starts_with (codes "not") m) _ _
                                (line_reg-IsResult Asm.asm_not_reg c a (one_reg-Keeps 0xF7 0xD0 [])
                                  h)
                                (if-IsResult (starts_with (codes "shl") m) _ _
                                  (line_shift-IsResult Asm.asm_shl_reg_imm8 c a b
                                    (λ c d x. one_reg-Keeps 0xC1 0xE0 (bytes_of 1 x) c d) h)
                                  (if-IsResult (starts_with (codes "shr") m) _ _
                                    (line_shift-IsResult Asm.asm_shr_reg_imm8 c a b
                                      (λ c d x. one_reg-Keeps 0xC1 0xE8 (bytes_of 1 x) c d) h)
                                    (if-IsResult (starts_with (codes "syscall") m) _ _
                                      (emitted c (0x0F ∷ 0x05 ∷ []) h)
                                      (if-IsResult (starts_with (codes "ret") m) _ _
                                        (emitted c (0xC3 ∷ []) h)
                                        (if-IsResult (starts_with (codes "nop") m) _ _
                                          (emitted c (0x90 ∷ []) h)
                                          (stopped c (codes "Unknown instruction")
                                            h)))))))))))))))))))

line_words-IsResult : (c : Asm) (text : List ℕ) → IsBounded c → IsResult (line_words c text)
unfolding line_words
line_words-IsResult c text h =
    let r = read_word 31 is_blank text in
    let r1 = read_word 63 ends_arg (skip_blanks r.1) in
    let r2 = read_word 63 ends_arg (skip_separators r1.1) in
    dispatch-IsResult c (map lower r.0) r1.0 r2.0 h

asm_line-IsResult : (c : Asm) (line : List ℕ) → IsBounded c → IsResult (asm_line c line)
unfolding asm_line
asm_line-IsResult c line h = elim (Bool-cases c.error) [
  | inl e ↦
      subst (λ t. IsResult (if t then (false, c) else line_of c (skip_blanks line))) (sym e)
        (record { bounded = h; done = inr e })
  | inr e ↦
      subst (λ t. IsResult (if t then (false, c) else line_of c (skip_blanks line))) (sym e)
        (inside (skip_blanks line))
]
  where
    inside : (text : List ℕ) → IsResult (line_of c text)
    inside [] = record { bounded = h; done = inl refl }
    inside (x ∷ text) =
        if-IsResult (x == b';' || x == b'#') (true, c) (line_words c (x ∷ text))
          (record { bounded = h; done = inl refl }) (line_words-IsResult c (x ∷ text) h)

run_lines-IsResult :
    (fuel : ℕ) (c : Asm) (text : List ℕ) (n : ℕ)
    → IsBounded c
    → IsBounded (run_lines fuel c text n).1
      × (((run_lines fuel c text n).0 ≡ true) ⊎ ((run_lines fuel c text n).1.error ≡ true))
unfolding run_lines
run_lines-IsResult fuel c [] n h = (h, inl refl)
run_lines-IsResult zero c (x ∷ text) n h = (h, inl refl)
run_lines-IsResult (suc fuel) c (x ∷ text) n h =
    let r = read_word 255 is_newline (x ∷ text) in
    after (λ c' rest k. run_lines-IsResult fuel c' rest (n + 1) k) (skip_newline r.1)
      (asm_line c r.0) (asm_line-IsResult c r.0 h)
  where
    next : List ℕ → Bool × Asm → Bool × Asm
    next rest r = elim r.0 [
      | true ↦ run_lines fuel r.1 rest (n + 1)
      | false ↦ (false, with_line r.1 n)
    ]

    after :
        ((c : Asm) (rest : List ℕ)
          → IsBounded c
          → IsBounded (run_lines fuel c rest (n + 1)).1
            × (((run_lines fuel c rest (n + 1)).0 ≡ true)
                ⊎ ((run_lines fuel c rest (n + 1)).1.error ≡ true)))
        → (rest : List ℕ) (r : Bool × Asm) → IsResult r
        → IsBounded (next rest r).1 × (((next rest r).0 ≡ true) ⊎ ((next rest r).1.error ≡ true))
    after later rest (true, c') k = later c' rest k.bounded
    after later rest (false, c') k = (k.bounded, inr (stop k.done))
      where
        stop : (◌≡◌ {A = Bool} false true) ⊎ (c'.error ≡ true) → c'.error ≡ true
        stop (inl e) = cc
        stop (inr e) = e

-- On any text the code has 4096 bytes at most. The lines of the text end at newlines and are cut after
-- 255 characters. Either asm_program succeeds and asm_line did so for all lines in turn, or
-- asm_get_code returns NULL, asm_line failed for a line behind others for which it did not, and the
-- message is the word Line, the number of that line counted from 1, and the message that asm_line left,
-- cut to 255 characters.
pub asm_program-bounded :
    (text : List ℕ)
    → let r = asm_program Asm.asm_init text in
      let lines = lines_of text [] in
      (length r.1.code ≤ max_asm_size)
      × (((r.0 ≡ true) × AllDone Asm.asm_init lines × (r.1 ≡ after_lines Asm.asm_init lines))
          ⊎ ((asm_get_code r.1 ≡ none) × IsReport 1 Asm.asm_init lines r.1))
unfolding asm_program
asm_program-bounded text =
    let (bound, done) = run_lines-IsResult (length text) Asm.asm_init text 1 (omega arith) in
    (
      bound,
      elim (run_lines-IsOutcome (length text) Asm.asm_init text 1 (omega arith)) [
        | inl good ↦ inl good
        | inr (bad, report) ↦ inr (elim done [ inl e ↦ cc | inr e ↦ rw e refl ], report)
      ],
    )
