-- ===== src/Checksum.antt =====
-- src/kernel/Network/Drivers/net.c and src/kernel/Network/Protocols/tcp.c: checksums. The data are bytes,
-- which a little-endian processor reads in pairs as 16-bit words.
use amq_os.Arp.{net_htons}
use amq_os.Prelude.{
  ℕ, zero, suc, ◌+◌, ◌-◌, ◌*◌, ◌/◌, ◌%◌, ◌^◌, ◌≤◌, ◌<◌, ◌≡◌, refl, sym, ap, ◌∙◌, subst, ◌≢◌, ◌↔◌,
  ◌⊎◌, inl, inr, Bool, true, false, not, ◌&&◌, ◌||◌, Option, none, some, List, [], ◌∷◌, ◌++◌, map,
  arith, ltb, leb, ◌==◌, if◌then◌else◌, u8, u16, u32, u64, sub16, sub32, sub64, Bool-cases,
  Option-cases, ==_iff, length, take, drop, update, update_self, update_ne, scan, scan-some,
  scan-first, scan-ne-none, contains, Distinct, without, AllBelow, contains-ne, without-absent,
  contains-without, without-Distinct, contains-append, append-Distinct, length-le_bound, replicate,
  length-append, length-take, length-drop, length-replicate, take-append-drop, get_elem?, get_or,
  if_both, contains-join, scan_is, Distinct-split,
}
pub mod Verify

-- The loop over the words, and the last byte of an odd number.
unfoldable pub sum_words : List ℕ → ℕ → ℕ
sum_words [] sum = sum
sum_words (a ∷ []) sum = u32 (sum + a)
sum_words (a ∷ b ∷ rest) sum = sum_words rest (u32 (sum + (a + b * 256)))

-- `while (sum >> 16) sum = (sum & 0xFFFF) + (sum >> 16);`
unfoldable pub fold_carries : ℕ → ℕ → ℕ
fold_carries zero sum = sum
fold_carries (suc fuel) sum =
    let rest = fold_carries fuel (u32 (sum % 65536 + sum / 65536)) in
    if sum / 65536 == 0 then sum else rest

-- Two rounds are enough for a 32-bit sum.
abbrev pub carry_rounds : ℕ
carry_rounds = 2

-- `(uint16_t)~sum` of the folded sum.
unfoldable pub finish : ℕ → ℕ
unfolding fold_carries
finish sum = u16 (0xFFFFFFFF - fold_carries carry_rounds sum)

unfoldable pub net_checksum : List ℕ → ℕ
unfolding sum_words finish
net_checksum bytes = finish (sum_words bytes 0)

abbrev pub ip_proto_tcp : ℕ
ip_proto_tcp = 6

-- The sum of the pseudo header.
abbrev pub pseudo_header : ℕ → ℕ → ℕ → ℕ
pseudo_header src_ip dest_ip length =
    src_ip / 65536 % 65536
    + src_ip % 65536
    + dest_ip / 65536 % 65536
    + dest_ip % 65536
    + net_htons ip_proto_tcp
    + net_htons length

unfoldable pub tcp_calculate_checksum : ℕ → ℕ → List ℕ → ℕ
unfolding sum_words finish
tcp_calculate_checksum src_ip dest_ip bytes =
    finish (sum_words bytes (u32 (pseudo_header src_ip dest_ip (length bytes))))

-- A message around the two bytes of its checksum, while they are 0 and when it is stored there.
abbrev pub blank : List ℕ → List ℕ → List ℕ
blank p q = p ++ 0 ∷ 0 ∷ q

abbrev pub with_checksum : List ℕ → ℕ → List ℕ → List ℕ
with_checksum p c q = p ++ c % 256 ∷ c / 256 ∷ q
