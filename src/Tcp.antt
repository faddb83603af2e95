-- ===== src/Tcp.antt =====
-- src/kernel/Network/Protocols/tcp.c and includes/tcp.h: the table of sockets and the state machine. A
-- packet is given by its fields in the order of the host; messages on the screen are left out. Whether
-- net_send_ipv4 takes a packet is an argument, and what is sent is kept in a list, the last one first;
-- the loopback of net_send_ipv4, which calls `tcp_receive`, is not modelled.
pub mod States
use amq_os.Prelude.{
  ℕ, zero, suc, ◌+◌, ◌-◌, ◌*◌, ◌/◌, ◌%◌, ◌^◌, ◌≤◌, ◌<◌, ◌≡◌, refl, sym, ap, ◌∙◌, subst, ◌≢◌, ◌↔◌,
  ◌⊎◌, inl, inr, Bool, true, false, not, ◌&&◌, ◌||◌, Option, none, some, List, [], ◌∷◌, ◌++◌, map,
  arith, ltb, leb, ◌==◌, if◌then◌else◌, u8, u16, u32, u64, sub16, sub32, sub64, Bool-cases,
  Option-cases, ==_iff, length, take, drop, update, update_self, update_ne, scan, scan-some,
  scan-first, scan-ne-none, contains, Distinct, without, AllBelow, contains-ne, without-absent,
  contains-without, without-Distinct, contains-append, append-Distinct, length-le_bound, replicate,
}

abbrev pub max_tcp_sockets : ℕ
max_tcp_sockets = 16

pub data TcpState : Type 0 where
  closed listen syn_sent syn_rcvd established fin_wait_1 fin_wait_2 close_wait closing last_ack
        time_wait :
      TcpState

-- The bits of `flags` that tcp.c reads or sets.
pub record Flags : Type 0 where
  pub fin : Bool
  pub syn : Bool
  pub psh : Bool
  pub ack : Bool

-- A packet that is sent: the fields of `tcp_header_t` that vary, and the data.
pub record Packet : Type 0 where
  pub remote_ip : ℕ
  pub src_port : ℕ
  pub dest_port : ℕ
  pub seq_num : ℕ
  pub ack_num : ℕ
  pub flags : Flags
  pub payload : List ℕ

-- `struct tcp_socket`
pub record Socket : Type 0 where
  pub remote_ip : ℕ
  pub local_port : ℕ
  pub remote_port : ℕ
  pub seq_num : ℕ
  pub ack_num : ℕ
  pub state : TcpState
  pub in_use : Bool

-- `tcp_sockets`, `next_port`, the packets sent, and what went to http_tcp_data_received: where the data
-- starts in its segment, and how long it is.
pub record Tcp : Type 0 where
  pub sockets : ℕ → Socket
  pub next_port : ℕ
  pub sent : List Packet
  pub delivered : List (ℕ × ℕ)

abbrev pub set_socket : Tcp → ℕ → Socket → Tcp
set_socket t i k = record t { sockets = update t.sockets i k }

-- The slots from 0 to 15.
unfoldable pub tcp_init : Tcp → Tcp
tcp_init t = record t {
  sockets = λ i.
      if ltb i max_tcp_sockets
      then record (t.sockets i) { in_use = false; state = closed }
      else t.sockets i;
}

abbrev pub syn_flags : Flags
syn_flags = record { fin = false; syn = true; psh = false; ack = false }

abbrev pub ack_flags : Flags
ack_flags = record { fin = false; syn = false; psh = false; ack = true }

abbrev pub fin_ack_flags : Flags
fin_ack_flags = record { fin = true; syn = false; psh = false; ack = true }

abbrev pub psh_ack_flags : Flags
psh_ack_flags = record { fin = false; syn = false; psh = true; ack = true }

abbrev pub packet_of : Socket → Flags → List ℕ → Packet
packet_of k flags payload = record {
  remote_ip = k.remote_ip;
  src_port = k.local_port;
  dest_port = k.remote_port;
  seq_num = k.seq_num;
  ack_num = k.ack_num;
  flags = flags;
  payload = payload;
}

-- `tcp_send_packet` for socket `i`; the packet counts as sent whatever net_send_ipv4 returns.
unfoldable pub tcp_send_packet : Tcp → ℕ → Flags → List ℕ → Tcp
tcp_send_packet t i flags payload = record t {
  sent = packet_of (t.sockets i) flags payload ∷ t.sent;
}

unfoldable pub tcp_socket : Tcp → Option ℕ × Tcp
tcp_socket t = elim (scan (λ i. not (t.sockets i).in_use) 0 max_tcp_sockets) [
  | none ↦ (none, t)
  | some i ↦ (
    some i,
    record (set_socket t i (record (t.sockets i) {
      in_use = true;
      state = closed;
      local_port = t.next_port;
      seq_num = 1000;
    })) { next_port = u16 (t.next_port + 1) },
  )
]

abbrev pub is_closed : TcpState → Bool
is_closed closed = true
is_closed _ = false

abbrev pub is_established : TcpState → Bool
is_established established = true
is_established _ = false

-- The start of `tcp_connect`, up to its waiting: true if the SYN is out. `ok` tells whether it could
-- be sent.
unfoldable pub start_connect : Bool → Tcp → ℕ → ℕ → ℕ → Bool × Tcp
unfolding tcp_send_packet
start_connect ok t i dest_ip dest_port =
    if not (is_closed (t.sockets i).state)
    then (false, t)
    else let k = record (t.sockets i) {
      remote_ip = dest_ip;
      remote_port = dest_port;
      state = syn_sent;
    } in
      let t' = tcp_send_packet (set_socket t i k) i syn_flags [] in
      if ok
      then (true, set_socket t' i (record k { seq_num = u32 (k.seq_num + 1) }))
      else (false, set_socket t' i (record k { state = closed }))

-- The waiting: the device is polled, which may call `tcp_receive`, until the socket is established or
-- the rounds are over; `poll` is what poll `n` does.
unfoldable pub wait_established : ℕ → ℕ → (ℕ → Tcp → Tcp) → Tcp → ℕ → Bool × Tcp
wait_established zero n poll t i = (false, set_socket t i (record (t.sockets i) { state = closed }))
wait_established (suc rounds) n poll t i =
    let t' = poll n t in
    let rest = wait_established rounds (n + 1) poll t' i in
    if is_established (t'.sockets i).state then (true, t') else rest

-- `tcp_connect`, with 5000 times 100 polls; true for 0.
unfoldable pub tcp_connect : Bool → (ℕ → Tcp → Tcp) → Tcp → ℕ → ℕ → ℕ → Bool × Tcp
tcp_connect ok poll t i dest_ip dest_port =
    let (started, t') = start_connect ok t i dest_ip dest_port in
    let rest = wait_established 500000 0 poll t' i in if started then rest else (false, t')

-- `tcp_send`; true for 0.
unfoldable pub tcp_send : Bool → Tcp → ℕ → List ℕ → Bool × Tcp
unfolding tcp_send_packet
tcp_send ok t i payload =
    if not (is_established (t.sockets i).state)
    then (false, t)
    else let t' = tcp_send_packet t i psh_ack_flags payload in
      let k = t'.sockets i in
      if ok
      then (true, set_socket t' i (record k { seq_num = u32 (k.seq_num + length payload) }))
      else (false, t')

-- What `tcp_receive` reads of a segment: its length, and the fields of its header.
pub record Segment : Type 0 where
  pub length : ℕ
  pub src_port : ℕ
  pub dest_port : ℕ
  pub seq : ℕ
  pub data_offset : ℕ
  pub flags : Flags

abbrev pub matches : Tcp → ℕ → Segment → ℕ → Bool
matches t src_ip p i =
    (t.sockets i).in_use
    && ((t.sockets i).remote_ip == src_ip
        && ((t.sockets i).remote_port == p.src_port && (t.sockets i).local_port == p.dest_port))

-- A FIN in the established state: it is acknowledged, and answered by a FIN of our own.
unfoldable pub close_passive : Tcp → ℕ → Segment → Tcp
unfolding tcp_send_packet
close_passive t i p =
    let k = record (t.sockets i) { ack_num = u32 (p.seq + 1); state = close_wait } in
    let t' = tcp_send_packet (set_socket t i k) i ack_flags [] in
    let t'' = tcp_send_packet t' i fin_ack_flags [] in
    set_socket t'' i (record k { seq_num = u32 (k.seq_num + 1); state = last_ack })

-- Data in the established state is delivered and acknowledged. The difference of the lengths is one of
-- 16-bit words, also for a header that is longer than the segment.
unfoldable pub take_data : Tcp → ℕ → Segment → Tcp
unfolding tcp_send_packet
take_data t i p =
    let header_len = p.data_offset / 16 * 4 in
    let data_len = sub16 p.length header_len in
    if data_len == 0
    then t
    else let t' = record t { delivered = (header_len, data_len) ∷ t.delivered } in
      let k = record (t.sockets i) { ack_num = u32 (p.seq + data_len) } in
      tcp_send_packet (set_socket t' i k) i ack_flags []

-- The chain of tests on the state of the socket `i`.
unfoldable pub receive_at : Tcp → ℕ → Segment → TcpState → Tcp
unfolding tcp_send_packet close_passive take_data
receive_at t i p syn_sent =
    if p.flags.syn && p.flags.ack
    then tcp_send_packet
        (set_socket t i (record (t.sockets i) { ack_num = u32 (p.seq + 1); state = established })) i
        ack_flags []
    else t
receive_at t i p established =
    if p.flags.fin then close_passive t i p else if p.flags.ack then take_data t i p else t
receive_at t i p last_ack =
    if p.flags.ack then set_socket t i (record (t.sockets i) { state = closed }) else t
receive_at t i p _ = t

-- A segment that is shorter than a header, of 20 bytes, is dropped.
unfoldable pub tcp_receive : Tcp → ℕ → Segment → Tcp
unfolding receive_at
tcp_receive t src_ip p =
    if ltb p.length 20 then t else elim (scan (matches t src_ip p) 0 max_tcp_sockets) [
      | none ↦ t
      | some i ↦ receive_at t i p (t.sockets i).state
    ]

-- The start of `tcp_close`: a FIN, if the socket is established.
unfoldable pub start_close : Tcp → ℕ → Tcp
unfolding tcp_send_packet
start_close t i =
    if not (is_established (t.sockets i).state)
    then t
    else let k = record (t.sockets i) { state = fin_wait_1 } in
      let t' = tcp_send_packet (set_socket t i k) i fin_ack_flags [] in
      set_socket t' i (record k { seq_num = u32 (k.seq_num + 1) })

-- Its waiting: up to 1000 rounds, each of ten polls at once, until the socket is closed.
unfoldable pub wait_closed : ℕ → ℕ → (ℕ → Tcp → Tcp) → Tcp → ℕ → Tcp
wait_closed zero n poll t i = t
wait_closed (suc rounds) n poll t i =
    let t' = poll n t in
    let rest = wait_closed rounds (n + 1) poll t' i in
    if is_closed (t'.sockets i).state then t' else rest

unfoldable pub tcp_close : (ℕ → Tcp → Tcp) → Tcp → ℕ → Tcp
tcp_close poll t i =
    let t' = wait_closed 1000 0 poll (start_close t i) i in
    set_socket t' i (record (t'.sockets i) { in_use = false; state = closed })
