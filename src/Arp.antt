-- ===== src/Arp.antt =====
-- src/kernel/Network/Protocols/arp.c: the cache of hardware addresses and the packets that fill it.
-- Addresses of six bytes are lists. Messages on the screen are left out.
pub mod Slots
pub mod Cache
pub mod Exchange
use amq_os.Prelude.{
  ℕ, zero, suc, ◌+◌, ◌-◌, ◌*◌, ◌/◌, ◌%◌, ◌^◌, ◌≤◌, ◌<◌, ◌≡◌, refl, sym, ap, ◌∙◌, subst, ◌≢◌, ◌↔◌,
  ◌⊎◌, inl, inr, Bool, true, false, not, ◌&&◌, ◌||◌, Option, none, some, List, [], ◌∷◌, ◌++◌, map,
  arith, ltb, leb, ◌==◌, if◌then◌else◌, u8, u16, u32, u64, sub16, sub32, sub64, Bool-cases,
  Option-cases, ==_iff, length, take, drop, update, update_self, update_ne, scan, scan-some,
  scan-first, scan-ne-none, contains, Distinct, without, AllBelow, contains-ne, without-absent,
  contains-without, without-Distinct, contains-append, append-Distinct, length-le_bound, replicate,
}

abbrev pub arp_cache_size : ℕ
arp_cache_size = 32

-- `arp_cache_entry_t`
pub record CacheEntry : Type 0 where
  pub ip : ℕ
  pub mac : List ℕ
  pub timestamp : ℕ
  pub valid : Bool

-- `arp_cache` and `arp_time`.
pub record Arp : Type 0 where
  pub cache : ℕ → CacheEntry
  pub time : ℕ

-- What arp.c uses of `net_config_t`.
pub record NetConfig : Type 0 where
  pub mac : List ℕ
  pub ip : ℕ

-- `arp_packet_t`; `sizeof` is 28. The 16-bit fields are in the order of the network.
pub record ArpPacket : Type 0 where
  pub hw_type : ℕ
  pub proto_type : ℕ
  pub hw_addr_len : ℕ
  pub proto_addr_len : ℕ
  pub operation : ℕ
  pub sender_hw_addr : List ℕ
  pub sender_proto_addr : ℕ
  pub target_hw_addr : List ℕ
  pub target_proto_addr : ℕ

abbrev pub arp_request : ℕ
arp_request = 1

abbrev pub arp_reply : ℕ
arp_reply = 2

abbrev pub eth_type_ipv4 : ℕ
eth_type_ipv4 = 0x0800

-- The two bytes change places; their bits are disjoint, so that the `|` of the code is a sum.
unfoldable pub net_htons : ℕ → ℕ
net_htons n = n % 256 * 256 + n / 256 % 256

-- The entries from 0 to 31 become invalid, and keep the rest.
unfoldable pub arp_init : Arp → Arp
arp_init a = record a {
  cache = λ i. if ltb i arp_cache_size then record (a.cache i) { valid = false } else a.cache i;
}

abbrev pub has_ip : Arp → ℕ → ℕ → Bool
has_ip a ip i = (a.cache i).valid && (a.cache i).ip == ip

-- The loop for a slot: the first that is not valid, or else the one with the smallest timestamp.
unfoldable pub choose : Arp → ℕ → ℕ → ℕ → Option ℕ → Option ℕ
choose a zero i oldest idx = idx
choose a (suc rounds) i oldest idx =
    let older = choose a rounds (i + 1) (a.cache i).timestamp (some i) in
    let same = choose a rounds (i + 1) oldest idx in
    if not (a.cache i).valid
    then some i
    else if ltb (a.cache i).timestamp oldest
    then older
    else same

unfoldable pub oldest_slot : Arp → Option ℕ
unfolding choose
oldest_slot a = choose a arp_cache_size 0 0xFFFFFFFF none

abbrev pub put_entry : Arp → ℕ → CacheEntry → Arp
put_entry a i e = record a { cache = update a.cache i e; time = u32 (a.time + 1) }

unfoldable pub arp_cache_add : Arp → ℕ → List ℕ → Arp
arp_cache_add a ip mac = elim (scan (has_ip a ip) 0 arp_cache_size) [
  | some i ↦ put_entry a i (record (a.cache i) { mac = mac; timestamp = a.time })
  | none ↦ elim (oldest_slot a) [
    | none ↦ a
    | some i ↦ put_entry a i (record { ip = ip; mac = mac; timestamp = a.time; valid = true })
  ]
]

unfoldable pub arp_cache_lookup : Arp → ℕ → Option (List ℕ)
arp_cache_lookup a ip = elim (scan (has_ip a ip) 0 arp_cache_size) [
  | none ↦ none
  | some i ↦ some (a.cache i).mac
]

unfoldable pub reply_to : NetConfig → ArpPacket → ArpPacket
reply_to config p = record {
  hw_type = net_htons 1;
  proto_type = net_htons eth_type_ipv4;
  hw_addr_len = 6;
  proto_addr_len = 4;
  operation = net_htons arp_reply;
  sender_hw_addr = config.mac;
  sender_proto_addr = config.ip;
  target_hw_addr = p.sender_hw_addr;
  target_proto_addr = p.sender_proto_addr;
}

-- The packet that is sent back, with its destination, and the cache. A reply is only printed.
unfoldable pub arp_receive : NetConfig → Arp → ArpPacket → ℕ → Option (List ℕ × ArpPacket) × Arp
unfolding arp_cache_add reply_to net_htons
arp_receive config a p length = if ltb length 28 then (none, a) else (
  if net_htons p.operation == arp_request && p.target_proto_addr == config.ip
      then some (p.sender_hw_addr, reply_to config p)
      else none,
  arp_cache_add a p.sender_proto_addr p.sender_hw_addr,
)

abbrev pub broadcast : List ℕ
broadcast = replicate 6 0xFF

-- `arp_send_request`: the packet that goes to `broadcast`.
unfoldable pub request_for : NetConfig → ℕ → ArpPacket
request_for config target_ip = record {
  hw_type = net_htons 1;
  proto_type = net_htons eth_type_ipv4;
  hw_addr_len = 6;
  proto_addr_len = 4;
  operation = net_htons arp_request;
  sender_hw_addr = config.mac;
  sender_proto_addr = config.ip;
  target_hw_addr = replicate 6 0;
  target_proto_addr = target_ip;
}

unfoldable pub arp_send_request : NetConfig → ℕ → List ℕ × ArpPacket
unfolding request_for
arp_send_request config target_ip = (broadcast, request_for config target_ip)

-- The waiting of `arp_resolve` for one request: in each of its rounds the device is polled, which may
-- change the cache, and then the cache is looked at. `poll` is what round `n` of all does to it.
unfoldable pub wait_for : ℕ → ℕ → (ℕ → Arp → Arp) → Arp → ℕ → Option (List ℕ) × Arp
wait_for zero n poll a ip = (none, a)
wait_for (suc rounds) n poll a ip =
    let a' = poll n a in
    let rest = wait_for rounds (n + 1) poll a' ip in
    elim (arp_cache_lookup a' ip) [ some mac ↦ (some mac, a') | none ↦ rest ]

-- Up to three requests, each with 500 rounds; the last result is the number of requests.
unfoldable pub resolve_loop : ℕ → ℕ → (ℕ → Arp → Arp) → Arp → ℕ → Option (List ℕ) × Arp × ℕ
unfolding wait_for
resolve_loop zero retry poll a ip = (none, a, retry)
resolve_loop (suc rounds) retry poll a ip =
    let (found, a') = wait_for 500 (retry * 500) poll a ip in
    let rest = resolve_loop rounds (retry + 1) poll a' ip in
    elim found [ some mac ↦ (some mac, a', retry + 1) | none ↦ rest ]

unfoldable pub arp_resolve : (ℕ → Arp → Arp) → Arp → ℕ → Option (List ℕ) × Arp × ℕ
unfolding resolve_loop arp_cache_lookup
arp_resolve poll a ip = elim (arp_cache_lookup a ip) [
  | some mac ↦ (some mac, a, 0)
  | none ↦ resolve_loop 3 0 poll a ip
]
