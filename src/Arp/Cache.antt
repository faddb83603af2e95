-- ===== src/Arp/Cache.antt =====
-- The cache of src/kernel/Network/Protocols/arp.c.
use amq_os.Arp.Slots.{IsValid, IsChoice, choose-found}
use amq_os.Arp.{
  oldest_slot, arp_cache_lookup, Arp, arp_cache_add, arp_cache_size, has_ip, put_entry,
}
use amq_os.Prelude.{
  ℕ, ◌+◌, ◌^◌, ◌<◌, ◌≡◌, refl, sym, ap, ◌∙◌, subst, ◌≢◌, ◌⊎◌, inl, inr, true, none, some, List,
  arith, ◌==◌, Bool-cases, Option-cases, update_self, update_ne, scan, scan-some, scan-ne-none,
}

-- What adding an address does to the slot `m`.
record Added (a : Arp) (ip : ℕ) (mac : List ℕ) (m : ℕ) (a' : Arp) : Type 0 where
  entry : a'.cache m ≡ record { ip = ip; mac = mac; timestamp = a.time; valid = true }
  others : (j : ℕ) → j ≢ m → a'.cache j ≡ a.cache j
  time : a'.time ≡ a.time + 1
  alone : (j : ℕ) → j ≢ m → (a.cache j).valid ≡ true → (a.cache j).ip ≢ ip
  small : m < arp_cache_size
  kept :
      (has_ip a ip m ≡ true)
      ⊎ ((scan (has_ip a ip) 0 arp_cache_size ≡ none) × IsChoice a arp_cache_size m)

arp_cache_add-hit :
    (a : Arp) (ip : ℕ) (mac : List ℕ) (m : ℕ)
    → scan (has_ip a ip) 0 arp_cache_size ≡ some m
    → arp_cache_add a ip mac ≡ put_entry a m (record (a.cache m) { mac = mac; timestamp = a.time })
unfolding arp_cache_add
arp_cache_add-hit a ip mac m e = rw (arp_cache_add, e) refl

arp_cache_add-miss :
    (a : Arp) (ip : ℕ) (mac : List ℕ) (m : ℕ)
    → scan (has_ip a ip) 0 arp_cache_size ≡ none
    → oldest_slot a ≡ some m
    → arp_cache_add a ip mac
      ≡ put_entry a m (record { ip = ip; mac = mac; timestamp = a.time; valid = true })
unfolding arp_cache_add
arp_cache_add-miss a ip mac m e f = rw (arp_cache_add, e, f) refl

arp_cache_add-Added :
    (a : Arp) (ip : ℕ) (mac : List ℕ)
    → IsValid a
    → a.time + 1 < 2 ^ 32
    → (m : ℕ) × Added a ip mac m (arp_cache_add a ip mac)
arp_cache_add-Added a ip mac v room = elim (Option-cases (scan (has_ip a ip) 0 arp_cache_size)) [
  | inr (m, e) ↦
      let hit = scan-some (has_ip a ip) 0 arp_cache_size m e in
      let here : (a.cache m).valid ≡ true = ground (arith, hit.2) in
      let same : (a.cache m).ip ≡ ip = ground (arith, hit.2) in
      (
        m,
        subst (Added a ip mac m) (sym (arp_cache_add-hit a ip mac m e)) (record {
          entry =
              update_self a.cache m _
              ∙ ap
                  (λ x. record { ip = x; mac = mac; timestamp = a.time; valid = (a.cache m).valid })
                  same
              ∙ ap (λ x. record { ip = ip; mac = mac; timestamp = a.time; valid = x }) here;
          others = λ j h. update_ne a.cache m _ j (λ x. h (sym x));
          time = omega arith;
          alone = λ j h u x. h (v.distinct j m u here (x ∙ sym same));
          small = omega (arith, hit.1);
          kept = inl hit.2;
        }),
      )
  | inl e ↦
      let (m, found, c) = choose-found a v room in
      (
        m,
        subst (Added a ip mac m) (sym (arp_cache_add-miss a ip mac m e found)) (record {
          entry = update_self a.cache m _;
          others = λ j h. update_ne a.cache m _ j (λ x. h (sym x));
          time = omega arith;
          alone = λ j h u x. scan_hit j u x e;
          small = c.small;
          kept = inr (e, c);
        }),
      )
]
  where
    scan_hit :
        (j : ℕ)
        → (a.cache j).valid ≡ true
        → (a.cache j).ip ≡ ip
        → scan (has_ip a ip) 0 arp_cache_size ≢ none
    scan_hit j u x =
        scan-ne-none (has_ip a ip) 0 arp_cache_size j (omega arith) (v.small j u)
          (ground (arith, u, x))

module _ {a a' : Arp} {ip : ℕ} {mac : List ℕ} {m : ℕ} (d : Added a ip mac m a') where
  Added-ip : (a'.cache m).ip ≡ ip
  Added-ip = ap (λ e. e.ip) d.entry

  Added-mac : (a'.cache m).mac ≡ mac
  Added-mac = ap (λ e. e.mac) d.entry

  Added-valid : (a'.cache m).valid ≡ true
  Added-valid = ap (λ e. e.valid) d.entry

  Added-timestamp : (a'.cache m).timestamp ≡ a.time
  Added-timestamp = ap (λ e. e.timestamp) d.entry

  -- A valid entry other than the new one was there before, with another address.
  Added-old :
      (j : ℕ)
      → j ≢ m
      → (a'.cache j).valid ≡ true
      → ((a.cache j).valid ≡ true) × ((a'.cache j).ip ≢ ip)
  Added-old j h u =
      let was : (a.cache j).valid ≡ true = ap (λ e. e.valid) (sym (d.others j h)) ∙ u in
      (was, λ x. d.alone j h was (ap (λ e. e.ip) (sym (d.others j h)) ∙ x))

  Added-IsValid : IsValid a → IsValid a'
  Added-IsValid v = record {
    fresh = λ i u. elim (Bool-cases (i == m)) [
      | inl e ↦ ground (arith, Added-timestamp, d.time)
      | inr e ↦
          ground (arith, v.fresh i, Added-old i (ground arith) u, d.others i (ground arith), d.time)
    ];
    distinct = λ i j u w x. elim (Bool-cases (i == m)) [
      | inl e ↦ elim (Bool-cases (j == m)) [
        | inl f ↦ ground arith
        | inr f ↦ absurd ((Added-old j (ground arith) w).1 (ground (arith, Added-ip)))
      ]
      | inr e ↦ elim (Bool-cases (j == m)) [
        | inl f ↦ absurd ((Added-old i (ground arith) u).1 (ground (arith, Added-ip)))
        | inr f ↦ v.distinct i j (Added-old i (ground arith) u).0 (Added-old j (ground arith) w).0 (
            ap (λ q. q.ip) (sym (d.others i (ground arith)))
            ∙ x
            ∙ ap (λ q. q.ip) (d.others j (ground arith)))
      ]
    ];
    small = λ i u. elim (Bool-cases (i == m)) [
      | inl e ↦ ground (arith, d.small)
      | inr e ↦ v.small i (Added-old i (ground arith) u).0
    ];
  }

  Added-lookup : arp_cache_lookup a' ip ≡ some mac
  unfolding arp_cache_lookup
  Added-lookup = elim (Option-cases (scan (has_ip a' ip) 0 arp_cache_size)) [
    | inl e ↦ absurd (
        scan-ne-none (has_ip a' ip) 0 arp_cache_size m (omega arith) d.small
          (ground (arith, Added-ip, Added-valid)) e)
    | inr (k, e) ↦
        let hit = (scan-some (has_ip a' ip) 0 arp_cache_size k e).2 in
        elim (Bool-cases (k == m)) [
          | inl f ↦ rw (arp_cache_lookup, e) (ground (arith, Added-mac))
          | inr f ↦
              absurd ((Added-old k (ground arith) (ground (arith, hit))).1 (ground (arith, hit)))
        ]
  ]

-- While the time does not wrap, adding an address to a valid cache keeps it valid and makes a lookup of
-- the address find the hardware address. One slot at most changes: that of the address, or if there is
-- none, a free one, or in a full cache the one with the smallest timestamp.
pub arp_cache_add_lem :
    (a : Arp) (ip : ℕ) (mac : List ℕ)
    → IsValid a
    → a.time + 1 < 2 ^ 32
    → let a' = arp_cache_add a ip mac in
      IsValid a'
      × (arp_cache_lookup a' ip ≡ some mac)
      × (m : ℕ) × ((j : ℕ) → j ≢ m → a'.cache j ≡ a.cache j)
      × ((has_ip a ip m ≡ true)
          ⊎ ((scan (has_ip a ip) 0 arp_cache_size ≡ none) × IsChoice a arp_cache_size m))
arp_cache_add_lem a ip mac v room =
    let (m, d) = arp_cache_add-Added a ip mac v room in
    (Added-IsValid d v, Added-lookup d, m, d.others, d.kept)
