-- ===== src/Asm/Texts.antt =====
-- How asm.c reads the words of a line: names of registers and numbers in hexadecimal.
use amq_os.Asm.Words.{read_word, parse_register, hex_digit, parse_hex, parse_immediate, is_blank}
use amq_os.Asm.Lines.{ends_arg}
use amq_os.Prelude.{
  ℕ, zero, suc, ◌+◌, ◌-◌, ◌*◌, ◌/◌, ◌%◌, ◌^◌, ◌≤◌, ◌<◌, ◌≡◌, refl, sym, ap, ◌∙◌, Bool, true, false,
  not, ◌&&◌, ◌||◌, Option, none, some, List, [], ◌∷◌, ◌++◌, arith, ltb, ◌==◌, if◌then◌else◌, u64,
  ==_iff, length, length-append, get_or, codes, check_below, check_below_lem,
}

-- No character of the word ends it.
abbrev pub plain : (ℕ → Bool) → List ℕ → Bool
plain stop [] = true
plain stop (c ∷ w) = not (stop c) && plain stop w

pub plain-split : (a b : Bool) → (not a && b) ≡ true → (a ≡ false) × (b ≡ true)
plain-split a b h = ground arith

pub read_word-plain :
    (limit : ℕ) (stop : ℕ → Bool) (w : List ℕ) (c : ℕ) (rest : List ℕ)
    → length w ≤ limit
    → length w < limit
    → plain stop w ≡ true
    → stop c ≡ true
    → read_word limit stop (w ++ c ∷ rest) ≡ (w, c ∷ rest)
unfolding read_word
read_word-plain zero stop w c rest h k p e = absurd (omega arith)
read_word-plain (suc limit) stop [] c rest h k p e = rw e refl
read_word-plain (suc limit) stop (x ∷ w) c rest h k p e =
    let (going, more) = plain-split (stop x) (plain stop w) p in
    ap (λ t. if t then ([], x ∷ w ++ c ∷ rest) else (x ∷ r.0, r.1)) going
    ∙ ap (λ r. (x ∷ r.0, r.1))
        (read_word-plain limit stop w c rest (omega arith) (omega arith) more e)
  where
    r : List ℕ × List ℕ
    r = read_word limit stop (w ++ c ∷ rest)

pub read_word-end :
    (limit : ℕ) (stop : ℕ → Bool) (w : List ℕ)
    → length w ≤ limit
    → plain stop w ≡ true
    → read_word limit stop w ≡ (w, [])
unfolding read_word
read_word-end zero stop [] h p = refl
read_word-end zero stop (x ∷ w) h p = absurd (omega arith)
read_word-end (suc limit) stop [] h p = refl
read_word-end (suc limit) stop (x ∷ w) h p =
    let (going, more) = plain-split (stop x) (plain stop w) p in
    ap (λ t. if t then ([], x ∷ w) else (x ∷ r.0, r.1)) going
    ∙ ap (λ r. (x ∷ r.0, r.1)) (read_word-end limit stop w (omega arith) more)
  where
    r : List ℕ × List ℕ
    r = read_word limit stop w

-- A word that can stand as an argument.
abbrev pub is_arg : List ℕ → Bool
is_arg [] = false
is_arg (x ∷ w) = plain ends_arg (x ∷ w) && ltb (length (x ∷ w)) 63

-- The first character of an argument is no blank.
pub is_arg-parts :
    (x : ℕ) (w : List ℕ)
    → is_arg (x ∷ w) ≡ true
    → ((is_blank x ≡ false) × ((is_blank x || x == b',') ≡ false))
      × (plain ends_arg (x ∷ w) ≡ true)
      × (length (x ∷ w) < 63)
is_arg-parts x w h =
    let (word, short) = both (plain ends_arg (x ∷ w)) (ltb (length (x ∷ w)) 63) h in
    (first (plain-split (ends_arg x) (plain ends_arg w) word).0, word, ground arith)
  where
    both : (a b : Bool) → (a && b) ≡ true → (a ≡ true) × (b ≡ true)
    both a b e = ground arith

    first : ends_arg x ≡ false → (is_blank x ≡ false) × ((is_blank x || x == b',') ≡ false)
    first e = ground arith

abbrev pub reg_name : ℕ → List ℕ
reg_name reg =
    get_or
      (codes "rax"
        ∷ codes "rcx"
        ∷ codes "rdx"
        ∷ codes "rbx"
        ∷ codes "rsp"
        ∷ codes "rbp"
        ∷ codes "rsi"
        ∷ codes "rdi"
        ∷ codes "r8"
        ∷ codes "r9"
        ∷ codes "r10"
        ∷ codes "r11"
        ∷ codes "r12"
        ∷ codes "r13"
        ∷ codes "r14"
        ∷ codes "r15"
        ∷ [])
      reg []

abbrev is_some : Option ℕ → ℕ → Bool
is_some none n = false
is_some (some m) n = m == n

is_some-eq : (o : Option ℕ) (n : ℕ) → is_some o n ≡ true → o ≡ some n
is_some-eq none n e = cc
is_some-eq (some m) n e = ap some ((==_iff m n).0 e)

-- Both halves of a check of the numbers below 16.
check_both :
    (p q : ℕ → Bool)
    → check_below (λ n. p n && q n) 16 ≡ true
    → (n : ℕ) → n < 16
    → (p n ≡ true) × (q n ≡ true)
check_both p q e n h = halves (p n) (q n) (check_below_lem (λ n. p n && q n) 16 n h e)
  where
    halves : (a b : Bool) → (a && b) ≡ true → (a ≡ true) × (b ≡ true)
    halves a b e = ground arith

pub reg_name_lem :
    (reg : ℕ)
    → reg < 16
    → (is_arg (reg_name reg) ≡ true) × (parse_register (reg_name reg) ≡ some reg)
unfolding check_below parse_register
reg_name_lem reg h =
    let (arg, known) =
      check_both (λ r. is_arg (reg_name r)) (λ r. is_some (parse_register (reg_name r)) r) refl reg
        h in
    (arg, is_some-eq (parse_register (reg_name reg)) reg known)

abbrev pub hex_char : ℕ → ℕ
hex_char d = if ltb d 10 then b'0' + d else b'a' + (d - 10)

unfoldable pub hex : ℕ → ℕ → List ℕ
hex zero x = []
hex (suc n) x = hex n (x / 16) ++ hex_char (x % 16) ∷ []

abbrev pub literal : ℕ → List ℕ
literal x = b'0' ∷ b'x' ∷ hex 16 x

hex_char_lem :
    (d : ℕ) → d < 16 → (not (ends_arg (hex_char d)) ≡ true) × (hex_digit (hex_char d) ≡ some d)
unfolding check_below
hex_char_lem d h =
    let (inside, known) =
      check_both (λ n. not (ends_arg (hex_char n))) (λ n. is_some (hex_digit (hex_char n)) n) refl d
        h in
    (inside, is_some-eq (hex_digit (hex_char d)) d known)

-- One digit more.
abbrev IsHex : List ℕ → Type 0
IsHex [] = Unit {0}
IsHex (c ∷ s) = ((d : ℕ) × (hex_digit c ≡ some d)) × IsHex s

parse_hex-snoc :
    (s : List ℕ) (val c d : ℕ)
    → IsHex s
    → hex_digit c ≡ some d
    → parse_hex val (s ++ c ∷ []) ≡ u64 (parse_hex val s * 16 + d)
unfolding parse_hex
parse_hex-snoc [] val c d h e = rw (parse_hex, e) refl
parse_hex-snoc (x ∷ s) val c d ((k, f), h) e =
    ap (step (s ++ c ∷ [])) f
    ∙ parse_hex-snoc s (u64 (val * 16 + k)) c d h e
    ∙ ap (λ v. u64 (v * 16 + d)) (sym (ap (step s) f))
  where
    step : List ℕ → Option ℕ → ℕ
    step t o = elim o [ none ↦ val | some d ↦ parse_hex (u64 (val * 16 + d)) t ]

IsHex-snoc : (s : List ℕ) (c d : ℕ) → IsHex s → hex_digit c ≡ some d → IsHex (s ++ c ∷ [])
IsHex-snoc [] c d h e = ((d, e), tt)
IsHex-snoc (x ∷ s) c d (k, h) e = (k, IsHex-snoc s c d h e)

hex-IsHex : (n x : ℕ) → IsHex (hex n x)
unfolding hex
hex-IsHex zero x = tt
hex-IsHex (suc n) x =
    IsHex-snoc (hex n (x / 16)) (hex_char (x % 16)) (x % 16) (hex-IsHex n (x / 16))
      (hex_char_lem (x % 16) (omega arith)).1

abbrev bound : ℕ → ℕ
bound zero = 1
bound (suc n) = 16 * bound n

parse_hex-hex : (n x : ℕ) → x < bound n → x < 2 ^ 64 → parse_hex 0 (hex n x) ≡ x
unfolding parse_hex hex
parse_hex-hex zero x h k = omega arith
parse_hex-hex (suc n) x h k =
    parse_hex-snoc (hex n (x / 16)) 0 (hex_char (x % 16)) (x % 16) (hex-IsHex n (x / 16))
      (hex_char_lem (x % 16) (omega arith)).1
    ∙ ap (λ v. u64 (v * 16 + x % 16)) (parse_hex-hex n (x / 16) (omega arith) (omega arith))
    ∙ omega arith

pub parse_immediate-literal : (x : ℕ) → x < 2 ^ 64 → parse_immediate (literal x) ≡ x
unfolding parse_immediate
parse_immediate-literal x h = parse_hex-hex 16 x h h

pub parse_register-literal : (x : ℕ) → parse_register (literal x) ≡ none
unfolding parse_register
parse_register-literal x = refl

plain-snoc :
    (stop : ℕ → Bool) (s : List ℕ) (c : ℕ)
    → plain stop s ≡ true
    → not (stop c) ≡ true
    → plain stop (s ++ c ∷ []) ≡ true
plain-snoc stop [] c p e = ground arith
plain-snoc stop (x ∷ s) c p e = ground (arith, plain-snoc stop s c)

hex-plain : (n x : ℕ) → plain ends_arg (hex n x) ≡ true
unfolding hex
hex-plain zero x = refl
hex-plain (suc n) x =
    plain-snoc ends_arg (hex n (x / 16)) (hex_char (x % 16)) (hex-plain n (x / 16))
      (hex_char_lem (x % 16) (omega arith)).0

length-hex : (n x : ℕ) → length (hex n x) ≡ n
unfolding hex
length-hex zero x = refl
length-hex (suc n) x =
    length-append (hex n (x / 16)) (hex_char (x % 16) ∷ []) ∙ omega (arith, length-hex n (x / 16))

pub literal-is_arg : (x : ℕ) → is_arg (literal x) ≡ true
literal-is_arg x = ground (arith, hex-plain 16 x, length-hex 16 x)
