-- ===== src/Asm/RoundTrip.antt =====
-- A program of asm.c that shows a list of instructions is assembled as code that is decoded as the list.
use amq_os.Asm
use amq_os.Asm.{Asm, max_asm_size, asm_emit_bytes}
use amq_os.Asm.Words.{read_word}
use amq_os.Asm.Lines.{
  asm_line, is_newline, skip_newline, run_lines, asm_program, asm_get_code, with_line,
}
use amq_os.Asm.Decode.{Instruction}
use amq_os.Asm.Encoding.{encoding}
use amq_os.Asm.Emitting.{assemble-encoding, asm_emit_bytes-room}
use amq_os.Asm.Texts.{read_word-plain}
use amq_os.Asm.Shown.{text}
use amq_os.Asm.Programs.{asm_line-text}
use mathlib.Core.List.{append_assoc, append-nil}
use amq_os.Prelude.{
  ℕ, zero, suc, ◌+◌, ◌≤◌, ◌≡◌, refl, sym, ap, ◌∙◌, Bool, true, false, some, List, [], ◌∷◌, ◌++◌,
  arith, length, length-append,
}
use amq_os.Asm.Listing.{program, encodings, AreAccepted, decode_all, decode_all-encodings}
use amq_os.Asm.Fitting.{IsLine, text-IsLine}

-- What a round does behind its line.
abbrev after_line : ℕ → ℕ → List ℕ → Bool × Asm → Bool × Asm
after_line fuel n behind r = elim r.0 [
  | true ↦ run_lines fuel r.1 (skip_newline behind) (n + 1)
  | false ↦ (false, with_line r.1 n)
]

-- A round of the loop that succeeds.
run_lines-line :
    (fuel : ℕ) (c c' : Asm) (line rest : List ℕ) (n : ℕ)
    → IsLine line
    → asm_line c line ≡ (true, c')
    → run_lines (suc fuel) c (line ++ 10 ∷ rest) n ≡ run_lines fuel c' rest (n + 1)
unfolding run_lines read_word
run_lines-line fuel c c' [] rest n h e = ap (after_line fuel n (10 ∷ rest)) e
run_lines-line fuel c c' (x ∷ line) rest n h e =
    ap (λ r. after_line fuel n r.1 (asm_line c r.0))
      (read_word-plain 255 is_newline (x ∷ line) 10 rest (omega (arith, h.1)) h.1 h.0 refl)
    ∙ ap (after_line fuel n (10 ∷ rest)) e

run_lines-program :
    (is : List Instruction) (fuel : ℕ) (c : Asm) (n : ℕ)
    → c.error ≡ false
    → AreAccepted is
    → length c.code + length (encodings is) ≤ max_asm_size
    → length (program is) ≤ fuel
    → run_lines fuel c (program is) n ≡ (true, record c { code = c.code ++ encodings is })
unfolding run_lines program
run_lines-program [] fuel c n e h room enough =
    ap (λ x. (true, record c { code = x })) (sym (append-nil c.code))
run_lines-program (i ∷ is) zero c n e h room enough =
    absurd (omega (arith, length-append (text i) (10 ∷ program is)))
run_lines-program (i ∷ is) (suc fuel) c n e h room enough =
    run_lines-line fuel c c' (text i) (program is) n (text-IsLine i h.0.0) (
      asm_line-text c i e h.0.0 h.0.1
      ∙ ap (λ x. (true, x))
          (assemble-encoding c i ∙ asm_emit_bytes-room c (encoding i) (omega (arith, split))))
    ∙ run_lines-program is fuel c' (n + 1) e h.1
        (omega (arith, split, length-append c.code (encoding i)))
        (omega (arith, length-append (text i) (10 ∷ program is)))
    ∙ ap (λ x. (true, record c { code = x })) (append_assoc c.code (encoding i) (encodings is))
  where
    c' : Asm
    c' = record c { code = c.code ++ encoding i }

    split : length (encoding i ++ encodings is) ≡ length (encoding i) + length (encodings is)
    split = length-append (encoding i) (encodings is)

-- For instructions that the assembler accepts, whose code has 4096 bytes at most: the program that
-- shows them, one in a line, is assembled without an error, and a decoder of the machine code reads
-- these instructions off what asm_get_code returns, and nothing else.
pub asm_program-program :
    (is : List Instruction)
    → AreAccepted is
    → length (encodings is) ≤ max_asm_size
    → ((asm_program Asm.asm_init (program is)).0 ≡ true)
      × ((code : List ℕ) × (asm_get_code (asm_program Asm.asm_init (program is)).1 ≡ some code)
          × (decode_all (length is) code ≡ some is))
unfolding asm_program
asm_program-program is h room =
    let ran : asm_program Asm.asm_init (program is)
        ≡ (true, record Asm.asm_init { code = encodings is }) =
      run_lines-program is (length (program is)) Asm.asm_init 1 refl h (omega arith)
        (omega arith) in
    (ap (λ r. r.0) ran, (encodings is, ap (λ r. asm_get_code r.1) ran, decode_all-encodings is h))
