-- ===== src/Tcp/States.antt =====
-- The states of a socket of src/kernel/Network/Protocols/tcp.c.
use amq_os.Tcp.{
  listen, syn_rcvd, fin_wait_1, fin_wait_2, close_wait, closing, time_wait, is_established,
  start_connect, tcp_connect, matches, max_tcp_sockets, tcp_receive, Segment, Socket, Tcp, TcpState,
  closed, established, last_ack, receive_at, syn_sent, wait_established,
}
use amq_os.Prelude.{
  ℕ, zero, suc, ◌+◌, ◌≡◌, refl, sym, ap, subst, ◌≢◌, inl, inr, Bool, true, false, ◌&&◌, arith, ltb,
  ◌==◌, if◌then◌else◌, Bool-cases, Option-cases, scan,
}

-- What a segment can do to the state of a socket.
pub data Moves : TcpState → TcpState → Type 0 where
  stay : (a : TcpState) → Moves a a
  open_up : Moves syn_sent established
  fin_seen : Moves established last_ack
  acknowledged : Moves last_ack closed

-- A segment may move the state and the numbers of a socket, and nothing else.
pub record IsMove (k k' : Socket) : Type 0 where
  pub state : Moves k.state k'.state
  pub in_use : k'.in_use ≡ k.in_use
  pub local_port : k'.local_port ≡ k.local_port
  pub remote_port : k'.remote_port ≡ k.remote_port
  pub remote_ip : k'.remote_ip ≡ k.remote_ip

same_IsMove : (k k' : Socket) → k' ≡ k → IsMove k k'
same_IsMove k k' e = subst (IsMove k) (sym e) (record {
  state = stay k.state;
  in_use = refl;
  local_port = refl;
  remote_port = refl;
  remote_ip = refl;
})

receive_at-others :
    (t : Tcp) (i j : ℕ) (p : Segment) (a : TcpState)
    → i ≢ j
    → (receive_at t i p a).sockets j ≡ t.sockets j
unfolding receive_at
receive_at-others t i j p syn_sent h = ground arith
receive_at-others t i j p established h = ground arith
receive_at-others t i j p last_ack h = ground arith
receive_at-others t i j p closed h = refl
receive_at-others t i j p listen h = refl
receive_at-others t i j p syn_rcvd h = refl
receive_at-others t i j p fin_wait_1 h = refl
receive_at-others t i j p fin_wait_2 h = refl
receive_at-others t i j p close_wait h = refl
receive_at-others t i j p closing h = refl
receive_at-others t i j p time_wait h = refl

-- What the socket becomes in the states that segments change.
receive_at-state :
    (t : Tcp) (i : ℕ) (p : Segment) (a : TcpState)
    → (t.sockets i).state ≡ a
    → Moves a ((receive_at t i p a).sockets i).state
unfolding receive_at
receive_at-state t i p syn_sent e = elim (Bool-cases (p.flags.syn && p.flags.ack)) [
  | inl f ↦ subst (Moves syn_sent) (ground (arith, f)) open_up
  | inr f ↦ subst (Moves syn_sent) (ground (arith, f, e)) (stay syn_sent)
]
receive_at-state t i p established e = elim (Bool-cases p.flags.fin) [
  | inl f ↦ subst (Moves established) (ground (arith, f)) fin_seen
  | inr f ↦ subst (Moves established) (ground (arith, f, e)) (stay established)
]
receive_at-state t i p last_ack e = elim (Bool-cases p.flags.ack) [
  | inl f ↦ subst (Moves last_ack) (ground (arith, f)) acknowledged
  | inr f ↦ subst (Moves last_ack) (ground (arith, f, e)) (stay last_ack)
]
receive_at-state t i p closed e = subst (Moves closed) (sym e) (stay closed)
receive_at-state t i p listen e = subst (Moves listen) (sym e) (stay listen)
receive_at-state t i p syn_rcvd e = subst (Moves syn_rcvd) (sym e) (stay syn_rcvd)
receive_at-state t i p fin_wait_1 e = subst (Moves fin_wait_1) (sym e) (stay fin_wait_1)
receive_at-state t i p fin_wait_2 e = subst (Moves fin_wait_2) (sym e) (stay fin_wait_2)
receive_at-state t i p close_wait e = subst (Moves close_wait) (sym e) (stay close_wait)
receive_at-state t i p closing e = subst (Moves closing) (sym e) (stay closing)
receive_at-state t i p time_wait e = subst (Moves time_wait) (sym e) (stay time_wait)

-- The addresses and ports of a socket.
abbrev endpoint : Socket → Bool × ℕ × ℕ × ℕ
endpoint k = (k.in_use, k.local_port, k.remote_port, k.remote_ip)

receive_at-endpoint :
    (t : Tcp) (i : ℕ) (p : Segment) (a : TcpState)
    → endpoint ((receive_at t i p a).sockets i) ≡ endpoint (t.sockets i)
unfolding receive_at
receive_at-endpoint t i p syn_sent = ground arith
receive_at-endpoint t i p established = ground arith
receive_at-endpoint t i p last_ack = ground arith
receive_at-endpoint t i p closed = refl
receive_at-endpoint t i p listen = refl
receive_at-endpoint t i p syn_rcvd = refl
receive_at-endpoint t i p fin_wait_1 = refl
receive_at-endpoint t i p fin_wait_2 = refl
receive_at-endpoint t i p close_wait = refl
receive_at-endpoint t i p closing = refl
receive_at-endpoint t i p time_wait = refl

receive_at-IsMove :
    (t : Tcp) (i j : ℕ) (p : Segment)
    → IsMove (t.sockets j) ((receive_at t i p (t.sockets i).state).sockets j)
receive_at-IsMove t i j p = elim (Bool-cases (i == j)) [
  | inr e ↦ same_IsMove _ _ (receive_at-others t i j p (t.sockets i).state (ground arith))
  | inl e ↦
      let same : i ≡ j = ground arith in
      subst (λ x. IsMove (t.sockets x) ((receive_at t i p (t.sockets i).state).sockets x)) same
        (record {
          state = receive_at-state t i p (t.sockets i).state refl;
          in_use = ap (λ q. q.0) (receive_at-endpoint t i p (t.sockets i).state);
          local_port = ap (λ q. q.1) (receive_at-endpoint t i p (t.sockets i).state);
          remote_port = ap (λ q. q.2) (receive_at-endpoint t i p (t.sockets i).state);
          remote_ip = ap (λ q. q.3) (receive_at-endpoint t i p (t.sockets i).state);
        })
]

-- Whatever segment arrives, each socket either stays in its state or goes from SYN_SENT to ESTABLISHED,
-- from ESTABLISHED to LAST_ACK or from LAST_ACK to CLOSED, and keeps its use, ports and address.
pub tcp_receive-IsMove :
    (t : Tcp) (src_ip : ℕ) (p : Segment) (j : ℕ)
    → IsMove (t.sockets j) ((tcp_receive t src_ip p).sockets j)
unfolding tcp_receive
tcp_receive-IsMove t src_ip p j = elim (Bool-cases (ltb p.length 20)) [
  | inl e ↦ same_IsMove _ _ (ground (arith, e))
  | inr e ↦ elim (Option-cases (scan (matches t src_ip p) 0 max_tcp_sockets)) [
    | inl f ↦ same_IsMove _ _ (rw (tcp_receive, e, f) refl)
    | inr (i, f) ↦ rw (tcp_receive, e, f) (receive_at-IsMove t i j p)
  ]
]

is_established_iff : (a : TcpState) → is_established a ≡ true → a ≡ established
is_established_iff established h = refl
is_established_iff _ h = ground arith

wait_established_lem :
    (rounds n : ℕ) (poll : ℕ → Tcp → Tcp) (t : Tcp) (i : ℕ)
    → let (done, t') = wait_established rounds n poll t i in
      (t'.sockets i).state ≡ (if done then established else closed)
unfolding wait_established
wait_established_lem zero n poll t i = ground arith
wait_established_lem (suc rounds) n poll t i =
    elim (Bool-cases (is_established ((poll n t).sockets i).state)) [
      | inl e ↦ ground (arith, e, is_established_iff ((poll n t).sockets i).state e)
      | inr e ↦ ground (arith, e, wait_established_lem rounds (n + 1) poll (poll n t) i)
    ]

start_connect_lem :
    (ok : Bool) (t : Tcp) (i dest_ip dest_port : ℕ)
    → (t.sockets i).state ≡ closed
    → (start_connect ok t i dest_ip dest_port).0 ≡ false
    → ((start_connect ok t i dest_ip dest_port).1.sockets i).state ≡ closed
unfolding start_connect
start_connect_lem ok t i dest_ip dest_port c h = ground (arith, c, h)

-- The result tells the state of the socket.
abbrev IsTold : ℕ → Bool × Tcp → Type 0
IsTold i r = (r.1.sockets i).state ≡ (if r.0 then established else closed)

if-IsTold :
    (b : Bool) (x y : Bool × Tcp) (i : ℕ)
    → IsTold i x
    → (b ≡ false → IsTold i y)
    → IsTold i (if b then x else y)
if-IsTold true x y i v w = v
if-IsTold false x y i v w = w refl

-- `tcp_connect` of a closed socket succeeds exactly if the socket is then established, and else leaves
-- it closed, whatever the polls of the device do.
pub tcp_connect_lem :
    (ok : Bool) (poll : ℕ → Tcp → Tcp) (t : Tcp) (i dest_ip dest_port : ℕ)
    → (t.sockets i).state ≡ closed
    → let (done, t') = tcp_connect ok poll t i dest_ip dest_port in
      (t'.sockets i).state ≡ (if done then established else closed)
unfolding tcp_connect
tcp_connect_lem ok poll t i dest_ip dest_port c =
    let begun = start_connect ok t i dest_ip dest_port in
    if-IsTold begun.0 (wait_established 500000 0 poll begun.1 i) (false, begun.1) i
      (wait_established_lem 500000 0 poll begun.1 i) (start_connect_lem ok t i dest_ip dest_port c)
