-- ===== src/Checksum/Verify.antt =====
-- A message with its checksum in it has the checksum 0.
use amq_os.Arp.{net_htons}
use amq_os.Checksum.{
  blank, with_checksum, sum_words, fold_carries, finish, net_checksum, tcp_calculate_checksum,
  pseudo_header, net_htons,
}
use amq_os.Prelude.{
  ℕ, ◌+◌, ◌-◌, ◌*◌, ◌/◌, ◌%◌, ◌^◌, ◌≤◌, ◌<◌, ◌≡◌, sym, ap, ◌∙◌, List, [], ◌∷◌, ◌++◌, arith, u32,
  length, AllBelow, length-append,
}

-- The sum without wrap-around.
abbrev total : List ℕ → ℕ
total [] = 0
total (a ∷ []) = a
total (a ∷ b ∷ rest) = a + b * 256 + total rest

total-bound : (bytes : List ℕ) → AllBelow 256 bytes → total bytes * 2 ≤ 65535 * (length bytes + 1)
total-bound [] h = omega arith
total-bound (a ∷ []) h = omega (arith, h.0)
total-bound (a ∷ b ∷ rest) h = omega (arith, h.0, h.1.0, total-bound rest h.1.1)

sum_words-total :
    (bytes : List ℕ) (sum : ℕ)
    → sum + total bytes < 2 ^ 32
    → sum_words bytes sum ≡ sum + total bytes
unfolding sum_words
sum_words-total [] sum h = omega arith
sum_words-total (a ∷ []) sum h = omega arith
sum_words-total (a ∷ b ∷ rest) sum h =
    let step : u32 (sum + (a + b * 256)) ≡ sum + (a + b * 256) = omega arith in
    ap (sum_words rest) step
    ∙ sum_words-total rest (sum + (a + b * 256)) (omega arith)
    ∙ omega arith

-- A round of the loop.
abbrev once : ℕ → ℕ
once s = s % 65536 + s / 65536

fold_carries-once : (s : ℕ) → s < 2 ^ 32 → fold_carries 2 s ≡ once (once s)
unfolding fold_carries
fold_carries-once s h = ground arith

finish-once : (s : ℕ) → s < 2 ^ 32 → finish s ≡ 65535 - once (once s)
unfolding finish
finish-once s h = let e = fold_carries-once s h in omega arith

finish-word : (s : ℕ) → finish s < 2 ^ 16
unfolding finish
finish-word s = omega arith

-- The checksum that a sum lacks completes it.
finish-finish : (s : ℕ) → s + finish s < 2 ^ 32 → finish (s + finish s) ≡ 0
finish-finish s h =
    let e = finish-once s (omega arith) in let f = finish-once (s + finish s) h in omega arith

-- The sum grows by what is put into two bytes in an even place.
total-patch :
    (p q : List ℕ) (c : ℕ)
    → length p % 2 ≡ 0
    → total (p ++ c % 256 ∷ c / 256 ∷ q) ≡ total (p ++ 0 ∷ 0 ∷ q) + c
total-patch [] q c even = omega arith
total-patch (a ∷ []) q c even = absurd (omega arith)
total-patch (a ∷ b ∷ p) q c even = let e = total-patch p q c (omega arith) in omega arith

-- The bytes around the checksum, as many as a 16-bit length can tell.
pub record IsMessage (p q : List ℕ) : Type 0 where
  pub even : length p % 2 ≡ 0
  pub front : AllBelow 256 p
  pub back : AllBelow 256 q
  pub short : length p + length q + 2 < 2 ^ 16

blank-AllBelow : (p q : List ℕ) → AllBelow 256 p → AllBelow 256 q → AllBelow 256 (blank p q)
blank-AllBelow [] q h k = (omega arith, (omega arith, k))
blank-AllBelow (a ∷ p) q (h, hs) k = (h, blank-AllBelow p q hs k)

length-blank : (p q : List ℕ) → length (blank p q) ≡ length p + length q + 2
length-blank p q = length-append p (0 ∷ 0 ∷ q) ∙ omega arith

length-with_checksum : (p q : List ℕ) (c : ℕ) → length (with_checksum p c q) ≡ length (blank p q)
length-with_checksum p q c =
    length-append p (c % 256 ∷ c / 256 ∷ q) ∙ sym (length-append p (0 ∷ 0 ∷ q))

finish-sum :
    (p q : List ℕ) (start : ℕ)
    → IsMessage p q
    → start < 2 ^ 20
    → finish (sum_words (with_checksum p (finish (sum_words (blank p q) start)) q) start) ≡ 0
finish-sum p q start m small =
    let long = total-bound (blank p q) (blank-AllBelow p q m.front m.back) in
    let few : length (blank p q) < 2 ^ 16 = omega (arith, length-blank p q, m.short) in
    let c = finish (sum_words (blank p q) start) in
    let s = sum_words-total (blank p q) start (omega arith) in
    let word : c < 2 ^ 16 = finish-word (sum_words (blank p q) start) in
    let e = total-patch p q c m.even in
    let t = sum_words-total (with_checksum p c q) start (omega arith) in
    let together : sum_words (with_checksum p c q) start ≡ sum_words (blank p q) start + c =
      omega arith in
    ap finish together ∙ finish-finish (sum_words (blank p q) start) (omega arith)

pseudo_header-small :
    (src_ip dest_ip length : ℕ) → u32 (pseudo_header src_ip dest_ip length) < 2 ^ 20
unfolding net_htons
pseudo_header-small src_ip dest_ip length = omega arith

-- For a message of fewer than 2^16 bytes with two bytes at an even place for the checksum: once the
-- checksum of the message with 0 there is put in, low byte first, net_checksum returns 0 for the message;
-- and the same holds of tcp_calculate_checksum, between any two addresses.
pub checksum-verifies :
    (p q : List ℕ) (src_ip dest_ip : ℕ)
    → IsMessage p q
    → (net_checksum (with_checksum p (net_checksum (blank p q)) q) ≡ 0)
      × (tcp_calculate_checksum src_ip dest_ip
            (with_checksum p (tcp_calculate_checksum src_ip dest_ip (blank p q)) q)
          ≡ 0)
unfolding net_checksum tcp_calculate_checksum
checksum-verifies p q src_ip dest_ip m = (
  finish-sum p q 0 m (omega arith),
  ap (λ n. finish (sum_words patched (u32 (pseudo_header src_ip dest_ip n))))
        (length-with_checksum p q c)
      ∙ finish-sum p q (u32 (pseudo_header src_ip dest_ip (length (blank p q)))) m
          (pseudo_header-small src_ip dest_ip (length (blank p q))),
)
  where
    c : ℕ
    c = tcp_calculate_checksum src_ip dest_ip (blank p q)

    patched : List ℕ
    patched = with_checksum p c q
