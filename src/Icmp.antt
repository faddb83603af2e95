-- ===== src/Icmp.antt =====
-- src/kernel/Network/Protocols/icmp.c: echo requests and their replies. A message is its bytes; the
-- processor is little-endian. The allocation of a buffer is taken to succeed.
use amq_os.Arp.{net_htons}
use amq_os.Checksum.{net_checksum, blank, with_checksum}
use amq_os.Prelude.{
  ℕ, zero, suc, ◌+◌, ◌-◌, ◌*◌, ◌/◌, ◌%◌, ◌^◌, ◌≤◌, ◌<◌, ◌≡◌, refl, sym, ap, ◌∙◌, subst, ◌≢◌, ◌↔◌,
  ◌⊎◌, inl, inr, Bool, true, false, not, ◌&&◌, ◌||◌, Option, none, some, List, [], ◌∷◌, ◌++◌, map,
  arith, ltb, leb, ◌==◌, if◌then◌else◌, u8, u16, u32, u64, sub16, sub32, sub64, Bool-cases,
  Option-cases, ==_iff, length, take, drop, update, update_self, update_ne, scan, scan-some,
  scan-first, scan-ne-none, contains, Distinct, without, AllBelow, contains-ne, without-absent,
  contains-without, without-Distinct, contains-append, append-Distinct, length-le_bound, replicate,
  length-append, length-take, length-drop, length-replicate, take-append-drop, get_elem?, get_or,
  if_both, contains-join, scan_is, Distinct-split,
}
pub mod Ping

abbrev pub max_replies : ℕ
max_replies = 16

pub record Reply : Type 0 where
  pub src_ip : ℕ
  pub id : ℕ
  pub sequence : ℕ
  pub timestamp : ℕ

pub record Icmp : Type 0 where
  pub ping_id : ℕ
  pub ping_seq : ℕ
  pub replies : ℕ → Reply
  pub reply_count : ℕ
  pub waiting_for_reply : Bool
  pub expected_id : ℕ
  pub expected_seq : ℕ
  pub reply_received : Bool

-- The expected numbers are left as they are.
unfoldable pub icmp_init : Icmp → Icmp
icmp_init s = record s {
  ping_id = 0x1234;
  ping_seq = 0;
  reply_count = 0;
  waiting_for_reply = false;
  reply_received = false;
}

abbrev pub is_reply : Icmp → ℕ → ℕ → ℕ → Bool
is_reply s id seq i = (s.replies i).id == id && (s.replies i).sequence == seq

unfoldable pub check_reply_in_array : Icmp → ℕ → ℕ → Bool
check_reply_in_array s id seq = elim (scan (is_reply s id seq) 0 s.reply_count) [
  | none ↦ false
  | some i ↦ true
]

-- The fields of a message of 8 bytes or more, as they stand in it.
pub record Header : Type 0 where
  pub type : ℕ
  pub id : ℕ
  pub sequence : ℕ
  pub rest : List ℕ

abbrev pub header_of : List ℕ → Option Header
header_of (t ∷ code ∷ c0 ∷ c1 ∷ i0 ∷ i1 ∷ s0 ∷ s1 ∷ data_bytes) = some (record {
  type = t;
  id = i0 + i1 * 256;
  sequence = s0 + s1 * 256;
  rest = i0 ∷ i1 ∷ s0 ∷ s1 ∷ data_bytes;
})
header_of _ = none

-- The reply has the identifier, the number and the data of the request.
abbrev pub echo_reply : List ℕ → List ℕ
echo_reply rest = with_checksum (0 ∷ 0 ∷ []) (net_checksum (blank (0 ∷ 0 ∷ []) rest)) rest

abbrev pub note_reply : Icmp → ℕ → ℕ → ℕ → Icmp
note_reply s src_ip id seq =
    if ltb s.reply_count max_replies
    then record s {
      replies =
          update s.replies s.reply_count
            (record { src_ip = src_ip; id = id; sequence = seq; timestamp = 0 });
      reply_count = s.reply_count + 1;
    }
    else s

abbrev pub wake_waiter : Icmp → ℕ → ℕ → Icmp
wake_waiter s id seq =
    if s.waiting_for_reply && id == s.expected_id && seq == s.expected_seq
    then record s { reply_received = true }
    else s

abbrev pub receive_reply : Icmp → ℕ → ℕ → ℕ → Icmp
receive_reply s src_ip id seq =
    if check_reply_in_array s id seq then s else wake_waiter (note_reply s src_ip id seq) id seq

-- What is sent back to the sender, and the state.
unfoldable pub icmp_receive : Icmp → ℕ → List ℕ → Option (ℕ × List ℕ) × Icmp
icmp_receive s src_ip bytes = elim (header_of bytes) [
  | none ↦ (none, s)
  | some h ↦
      if h.type == 8
      then (some (src_ip, echo_reply h.rest), s)
      else if h.type == 0
      then (none, receive_reply s src_ip (net_htons h.id) (net_htons h.sequence))
      else (none, s)
]

-- `data[i] = 0x41 + (i % 26)` from `i` on.
abbrev pub ping_data : ℕ → ℕ → List ℕ
ping_data zero i = []
ping_data (suc rounds) i = (0x41 + i % 26) ∷ ping_data rounds (i + 1)

abbrev pub ping_rest : ℕ → ℕ → List ℕ
ping_rest id seq =
    net_htons id % 256
    ∷ net_htons id / 256
    ∷ net_htons seq % 256
    ∷ net_htons seq / 256
    ∷ ping_data 56 0

-- The message of `icmp_send_ping`.
unfoldable pub icmp_send_ping : ℕ → ℕ → List ℕ
icmp_send_ping id seq =
    with_checksum (8 ∷ 0 ∷ []) (net_checksum (blank (8 ∷ 0 ∷ []) (ping_rest id seq)))
      (ping_rest id seq)
