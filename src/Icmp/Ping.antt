-- ===== src/Icmp/Ping.antt =====
-- A ping and its reply.
use amq_os.Icmp.{
  Icmp, icmp_receive, icmp_send_ping, check_reply_in_array, is_reply, receive_reply, note_reply,
  wake_waiter, echo_reply, ping_data, ping_rest, max_replies,
}
use amq_os.Checksum.{net_checksum}
use amq_os.Checksum.Verify.{IsMessage, checksum-verifies}
use amq_os.Arp.{net_htons}
use amq_os.Prelude.{
  ℕ, zero, suc, ◌+◌, ◌*◌, ◌/◌, ◌%◌, ◌^◌, ◌≤◌, ◌<◌, ◌≡◌, refl, sym, ap, ◌∙◌, subst, ◌⊎◌, inl, inr,
  Bool, true, false, ◌&&◌, ◌||◌, none, some, List, [], ◌∷◌, arith, ltb, ◌==◌, if◌then◌else◌,
  Bool-cases, Option-cases, length, update, scan, scan-ne-none, AllBelow,
}

-- The bytes change places twice.
net_htons-net_htons : (n : ℕ) → n < 2 ^ 16 → net_htons (net_htons n) ≡ n
unfolding net_htons
net_htons-net_htons n h = omega arith

net_htons-word : (n : ℕ) → net_htons n < 2 ^ 16
unfolding net_htons
net_htons-word n = omega arith

two_bytes : (n : ℕ) → n % 256 + n / 256 * 256 ≡ n
two_bytes n = omega arith

ping_data-AllBelow : (rounds i : ℕ) → AllBelow 256 (ping_data rounds i)
ping_data-AllBelow zero i = tt
ping_data-AllBelow (suc rounds) i = (omega arith, ping_data-AllBelow rounds (i + 1))

length-ping_data : (rounds i : ℕ) → length (ping_data rounds i) ≡ rounds
length-ping_data zero i = refl
length-ping_data (suc rounds) i = omega (arith, length-ping_data rounds (i + 1))

ping-IsMessage : (type id seq : ℕ) → type < 256 → IsMessage (type ∷ 0 ∷ []) (ping_rest id seq)
ping-IsMessage type id seq small = record {
  even = refl;
  front = (small, (omega arith, tt));
  back =
      let i = net_htons-word id in
      let s = net_htons-word seq in
      (omega arith, (omega arith, (omega arith, (omega arith, ping_data-AllBelow 56 0))));
  short = omega (arith, length-ping_data 56 0);
}

found :
    (s : Icmp) (id seq i : ℕ)
    → i < s.reply_count
    → is_reply s id seq i ≡ true
    → check_reply_in_array s id seq ≡ true
unfolding check_reply_in_array
found s id seq i lt e = elim (Option-cases (scan (is_reply s id seq) 0 s.reply_count)) [
  | inl none_found ↦
      absurd (
        scan-ne-none (is_reply s id seq) 0 s.reply_count i (omega arith) (omega arith) e none_found)
  | inr (j, f) ↦ rw (check_reply_in_array, f) refl
]

-- Waking the waiting thread leaves the replies.
found-wake_waiter :
    (s : Icmp) (id seq : ℕ)
    → check_reply_in_array s id seq ≡ true
    → check_reply_in_array (wake_waiter s id seq) id seq ≡ true
unfolding check_reply_in_array
found-wake_waiter s id seq e =
    either (s.waiting_for_reply && id == s.expected_id && seq == s.expected_seq)
  where
    either :
        (c : Bool)
        → check_reply_in_array (if c then record s { reply_received = true } else s) id seq ≡ true
    either true = e
    either false = e

-- A reply that is noted can be found.
found-note_reply :
    (s : Icmp) (src_ip id seq : ℕ)
    → s.reply_count < max_replies
    → check_reply_in_array (note_reply s src_ip id seq) id seq ≡ true
found-note_reply s src_ip id seq room =
    subst (λ c. check_reply_in_array (if c then longer else s) id seq ≡ true) (sym fits)
      (found longer id seq s.reply_count (omega arith) last)
  where
    longer : Icmp
    longer = record s {
      replies =
          update s.replies s.reply_count
            (record { src_ip = src_ip; id = id; sequence = seq; timestamp = 0 });
      reply_count = s.reply_count + 1;
    }

    fits : ltb s.reply_count max_replies ≡ true
    fits = ground arith

    last : is_reply longer id seq s.reply_count ≡ true
    last = ground arith

receive_reply-known :
    (s : Icmp) (src_ip id seq : ℕ)
    → (check_reply_in_array (receive_reply s src_ip id seq) id seq ≡ true)
      ⊎ (max_replies ≤ s.reply_count)
receive_reply-known s src_ip id seq = elim (Bool-cases (check_reply_in_array s id seq)) [
  | inl known ↦ inl (subst IsKnown (sym (ap step known)) known)
  | inr new ↦ elim (Bool-cases (ltb s.reply_count max_replies)) [
    | inl room ↦ inl (
        subst IsKnown (sym (ap step new)) (
          found-wake_waiter (note_reply s src_ip id seq) id seq
            (found-note_reply s src_ip id seq (ground arith))))
    | inr full ↦ inr (ground arith)
  ]
]
  where
    IsKnown : Icmp → Type 0
    IsKnown x = check_reply_in_array x id seq ≡ true

    step : Bool → Icmp
    step known = if known then s else wake_waiter (note_reply s src_ip id seq) id seq

receive_reply-wakes :
    (s : Icmp) (src_ip id seq : ℕ)
    → (check_reply_in_array s id seq ≡ true)
      ⊎ ((receive_reply s src_ip id seq).reply_received ≡ (
          s.reply_received
          || (s.waiting_for_reply && id == s.expected_id && seq == s.expected_seq)))
receive_reply-wakes s src_ip id seq = elim (Bool-cases (check_reply_in_array s id seq)) [
  | inl known ↦ inl known
  | inr new ↦ inr (ap (λ c. (step c).reply_received) new ∙ wakes)
]
  where
    step : Bool → Icmp
    step known = if known then s else wake_waiter (note_reply s src_ip id seq) id seq

    wakes : (wake_waiter (note_reply s src_ip id seq) id seq).reply_received ≡ (
        s.reply_received || (s.waiting_for_reply && id == s.expected_id && seq == s.expected_seq))
    wakes = ground arith

-- For a 16-bit identifier and number: the message that icmp_send_ping sends has the checksum 0. The
-- host that gets it answers its sender and keeps its state, and the answer has the checksum 0. The sender,
-- when it gets the answer, sends nothing; then the reply is found, unless there were 16 already, and
-- reply_received is set if it was or the reply is the one waited for, unless it was found before.
pub icmp_receive-icmp_send_ping :
    (a b : Icmp) (here there id seq : ℕ)
    → id < 2 ^ 16
    → seq < 2 ^ 16
    → (net_checksum (icmp_send_ping id seq) ≡ 0)
      × ((icmp_receive b here (icmp_send_ping id seq)).1 ≡ b)
      × (r : List ℕ) × ((icmp_receive b here (icmp_send_ping id seq)).0 ≡ some (here, r))
      × (net_checksum r ≡ 0)
      × ((icmp_receive a there r).0 ≡ none)
      × ((check_reply_in_array (icmp_receive a there r).1 id seq ≡ true)
          ⊎ (max_replies ≤ a.reply_count))
      × ((check_reply_in_array a id seq ≡ true)
          ⊎ ((icmp_receive a there r).1.reply_received ≡ (
              a.reply_received
              || (a.waiting_for_reply && id == a.expected_id && seq == a.expected_seq))))
unfolding icmp_send_ping icmp_receive
icmp_receive-icmp_send_ping a b here there id seq i s = (
  (checksum-verifies (8 ∷ 0 ∷ []) (ping_rest id seq) 0 0 (ping-IsMessage 8 id seq (omega arith))).0,
  refl,
  echo_reply (ping_rest id seq),
  refl,
  (checksum-verifies (0 ∷ 0 ∷ []) (ping_rest id seq) 0 0 (ping-IsMessage 0 id seq (omega arith))).0,
  refl,
  subst (λ x. (check_reply_in_array x id seq ≡ true) ⊎ (max_replies ≤ a.reply_count)) (sym same)
      (receive_reply-known a there id seq),
  subst
      (λ x.
        (check_reply_in_array a id seq ≡ true)
        ⊎ (x.reply_received ≡ (
            a.reply_received
            || (a.waiting_for_reply && id == a.expected_id && seq == a.expected_seq))))
      (sym same) (receive_reply-wakes a there id seq),
)
  where
    number : (n : ℕ) → n < 2 ^ 16 → net_htons (net_htons n % 256 + net_htons n / 256 * 256) ≡ n
    number n h = ap net_htons (two_bytes (net_htons n)) ∙ net_htons-net_htons n h

    same : (icmp_receive a there (echo_reply (ping_rest id seq))).1 ≡ receive_reply a there id seq
    same =
        ap
          (λ x.
            receive_reply a there x (net_htons (net_htons seq % 256 + net_htons seq / 256 * 256)))
          (number id i)
        ∙ ap (receive_reply a there id) (number seq s)
