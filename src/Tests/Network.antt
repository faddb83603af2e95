-- ===== src/Tests/Network.antt =====
-- Concrete runs of src/kernel/Network/Protocols/arp.c and tcp.c.
use amq_os.Arp.{
  Arp, ArpPacket, NetConfig, arp_cache_add, arp_cache_lookup, arp_cache_size, arp_receive,
  arp_send_request, broadcast, has_ip,
}
use amq_os.Arp.Cache.{arp_cache_add_lem}
use amq_os.Arp.Exchange.{arp_receive-arp_send_request}
use amq_os.Arp.Slots.{IsChoice}
use amq_os.Arp.Slots.{IsValid}
use amq_os.Checksum.{blank, with_checksum, net_checksum, tcp_calculate_checksum}
use amq_os.Checksum.Verify.{IsMessage, checksum-verifies}
use amq_os.Icmp.{Icmp, icmp_receive, icmp_send_ping, check_reply_in_array, max_replies}
use amq_os.Icmp.Ping.{icmp_receive-icmp_send_ping}
use amq_os.Tcp.{Socket, Tcp, Segment, syn_sent, closed, established, tcp_receive, tcp_connect}
use amq_os.Tcp.States.{IsMove, tcp_receive-IsMove, tcp_connect_lem}
use amq_os.Prelude.{
  ℕ, ◌≤◌, ◌≡◌, refl, ◌≢◌, ◌⊎◌, true, false, none, some, List, [], ◌∷◌, arith, ◌==◌, if◌then◌else◌,
  scan, replicate,
}

-- The entry 0 has the address 7.
abbrev one_entry : Arp
one_entry = record {
  cache = λ i. record { ip = 7; mac = replicate 6 9; timestamp = 0; valid = i == 0 };
  time = 1;
}

one_entry-IsValid : IsValid one_entry
one_entry-IsValid = record {
  fresh = λ i u. omega arith;
  distinct = λ i j p q e. ground arith;
  small = λ i u. ground arith;
}

abbrev first_host : NetConfig
first_host = record { mac = replicate 6 1; ip = 10 }

abbrev second_host : NetConfig
second_host = record { mac = replicate 6 2; ip = 20 }

arp_cache_add_example :
    let a' = arp_cache_add one_entry 10 (replicate 6 1) in
    IsValid a'
    × (arp_cache_lookup a' 10 ≡ some (replicate 6 1))
    × (m : ℕ) × ((j : ℕ) → j ≢ m → a'.cache j ≡ one_entry.cache j)
    × ((has_ip one_entry 10 m ≡ true)
        ⊎ ((scan (has_ip one_entry 10) 0 arp_cache_size ≡ none)
            × IsChoice one_entry arp_cache_size m))
arp_cache_add_example =
    arp_cache_add_lem one_entry 10 (replicate 6 1) one_entry-IsValid (omega arith)

arp_exchange_example :
    let (target, request) = arp_send_request first_host 20 in
    let (answer, b') = arp_receive second_host one_entry request 28 in
    (target ≡ broadcast)
    × (arp_cache_lookup b' 10 ≡ some (replicate 6 1))
    × (reply : ArpPacket) × (answer ≡ some (replicate 6 1, reply))
    × (let (second, a') = arp_receive first_host one_entry reply 28 in
        (second ≡ none) × (arp_cache_lookup a' 20 ≡ some (replicate 6 2)))
arp_exchange_example =
    arp_receive-arp_send_request first_host second_host one_entry one_entry one_entry-IsValid
      one_entry-IsValid (omega arith) (omega arith)

-- Socket 0 waits for the answer to its SYN.
abbrev connecting : Socket
connecting = record {
  remote_ip = 20;
  local_port = 49152;
  remote_port = 80;
  seq_num = 1001;
  ack_num = 0;
  state = syn_sent;
  in_use = true;
}

abbrev one_socket : Tcp
one_socket = record {
  sockets =
      λ i. if i == 0 then connecting else record connecting { state = closed; in_use = false };
  next_port = 49153;
  sent = [];
  delivered = [];
}

-- The SYN-ACK for it.
abbrev syn_ack : Segment
syn_ack = record {
  length = 20;
  src_port = 80;
  dest_port = 49152;
  seq = 77;
  data_offset = 80;
  flags = record { fin = false; syn = true; psh = false; ack = true };
}

tcp_receive_example : IsMove (one_socket.sockets 0) ((tcp_receive one_socket 20 syn_ack).sockets 0)
tcp_receive_example = tcp_receive-IsMove one_socket 20 syn_ack 0

tcp_connect_example :
    let (done, t') = tcp_connect true (λ n t. tcp_receive t 20 syn_ack) one_socket 1 20 80 in
    (t'.sockets 1).state ≡ (if done then established else closed)
tcp_connect_example = tcp_connect_lem true (λ n t. tcp_receive t 20 syn_ack) one_socket 1 20 80 refl

-- The header of a ping, from its type on, and an odd number of bytes.
abbrev ping_front : List ℕ
ping_front = 8 ∷ 0 ∷ []

abbrev ping_back : List ℕ
ping_back = 0x12 ∷ 0x34 ∷ 0 ∷ 1 ∷ 0xFF ∷ []

ping-IsMessage : IsMessage ping_front ping_back
ping-IsMessage = record {
  even = refl;
  front = (omega arith, (omega arith, tt));
  back = (omega arith, (omega arith, (omega arith, (omega arith, (omega arith, tt)))));
  short = omega arith;
}

checksum_example :
    (net_checksum (with_checksum ping_front (net_checksum (blank ping_front ping_back)) ping_back)
      ≡ 0)
    × (tcp_calculate_checksum 1 2 (
          with_checksum ping_front
            (tcp_calculate_checksum 1 2 (blank ping_front ping_back))
            ping_back)
        ≡ 0)
checksum_example = checksum-verifies ping_front ping_back 1 2 ping-IsMessage

-- A host that waits for the ping 5 of 0x1234.
abbrev pinging : Icmp
pinging = record {
  ping_id = 0x1235;
  ping_seq = 6;
  replies = λ i. record { src_ip = 0; id = 0; sequence = 0; timestamp = 0 };
  reply_count = 0;
  waiting_for_reply = true;
  expected_id = 0x1234;
  expected_seq = 5;
  reply_received = false;
}

ping_example :
    (net_checksum (icmp_send_ping 0x1234 5) ≡ 0)
    × ((icmp_receive pinging 1 (icmp_send_ping 0x1234 5)).1 ≡ pinging)
    × (r : List ℕ) × ((icmp_receive pinging 1 (icmp_send_ping 0x1234 5)).0 ≡ some (1, r))
    × (net_checksum r ≡ 0)
    × ((icmp_receive pinging 2 r).0 ≡ none)
    × ((check_reply_in_array (icmp_receive pinging 2 r).1 0x1234 5 ≡ true) ⊎ (max_replies ≤ 0))
    × ((check_reply_in_array pinging 0x1234 5 ≡ true)
        ⊎ ((icmp_receive pinging 2 r).1.reply_received ≡ true))
ping_example = icmp_receive-icmp_send_ping pinging pinging 1 2 0x1234 5 (omega arith) (omega arith)
