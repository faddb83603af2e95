-- ===== src/Arp/Slots.antt =====
-- The choice of a slot in the cache of src/kernel/Network/Protocols/arp.c.
use amq_os.Arp.{oldest_slot, Arp, choose, arp_cache_size}
use amq_os.Prelude.{
  ℕ, zero, suc, ◌+◌, ◌^◌, ◌≤◌, ◌<◌, ◌≡◌, refl, ◌∙◌, subst, ◌⊎◌, inl, inr, true, false, Option, none,
  some, arith, ltb, Bool-cases,
}

-- No two valid entries share an address, the timestamps are older than the time, and the entries are
-- those of the table.
pub record IsValid (a : Arp) : Type 0 where
  pub fresh : (i : ℕ) → (a.cache i).valid ≡ true → (a.cache i).timestamp < a.time
  pub distinct :
      (i j : ℕ)
      → (a.cache i).valid ≡ true
      → (a.cache j).valid ≡ true
      → (a.cache i).ip ≡ (a.cache j).ip
      → i ≡ j
  pub small : (i : ℕ) → (a.cache i).valid ≡ true → i < arp_cache_size

-- A free slot, or the oldest of a full cache.
pub record IsChoice (a : Arp) (limit m : ℕ) : Type 0 where
  pub small : m < limit
  pub oldest :
      ((a.cache m).valid ≡ false)
      ⊎ ((j : ℕ)
          → j < limit
          → ((a.cache j).valid ≡ true) × ((a.cache m).timestamp ≤ (a.cache j).timestamp))

choose-IsChoice :
    (a : Arp) (rounds i k : ℕ)
    → k < i
    → ((j : ℕ)
        → j < i
        → ((a.cache j).valid ≡ true) × ((a.cache k).timestamp ≤ (a.cache j).timestamp))
    → (m : ℕ) × (choose a rounds i (a.cache k).timestamp (some k) ≡ some m)
      × IsChoice a (i + rounds) m
unfolding choose
choose-IsChoice a zero i k h all =
    (k, refl, record { small = omega arith; oldest = inr (λ j l. all j (omega arith)) })
choose-IsChoice a (suc rounds) i k h all = elim (Bool-cases (a.cache i).valid) [
  | inr e ↦ (i, rw e refl, record { small = omega arith; oldest = inl e })
  | inl e ↦ elim (Bool-cases (ltb (a.cache i).timestamp (a.cache k).timestamp)) [
    | inl f ↦
        let (m, found, c) =
          choose-IsChoice a rounds (i + 1) i (omega arith) (λ j l. ground (arith, all j, e, f)) in
        (m, ground (arith, e, f, found), widen m c)
    | inr f ↦
        let (m, found, c) =
          choose-IsChoice a rounds (i + 1) k (omega arith) (λ j l. ground (arith, all j, e, f)) in
        (m, ground (arith, e, f, found), widen m c)
  ]
]
  where
    widen : (m : ℕ) → IsChoice a (i + 1 + rounds) m → IsChoice a (i + suc rounds) m
    widen m c = subst (λ n. IsChoice a n m) (omega arith) c

choose-first_free :
    (a : Arp) (rounds i oldest : ℕ) (idx : Option ℕ)
    → (a.cache i).valid ≡ false
    → choose a (suc rounds) i oldest idx ≡ some i
unfolding choose
choose-first_free a rounds i oldest idx e = rw e refl

choose-first_used :
    (a : Arp) (rounds i oldest : ℕ) (idx : Option ℕ)
    → (a.cache i).valid ≡ true
    → (a.cache i).timestamp < oldest
    → choose a (suc rounds) i oldest idx ≡ choose a rounds (i + 1) (a.cache i).timestamp (some i)
unfolding choose
choose-first_used a rounds i oldest idx e f = ground (arith, e, f)

first_oldest :
    (a : Arp)
    → (a.cache 0).valid ≡ true
    → (j : ℕ) → j < 1
    → ((a.cache j).valid ≡ true) × ((a.cache 0).timestamp ≤ (a.cache j).timestamp)
first_oldest a e j l = ground (arith, e)

oldest_slot-choose : (a : Arp) → oldest_slot a ≡ choose a arp_cache_size 0 0xFFFFFFFF none
unfolding oldest_slot
oldest_slot-choose a = refl

-- While the time has not reached the last word, the loop finds a slot.
pub choose-found :
    (a : Arp)
    → IsValid a
    → a.time + 1 < 2 ^ 32
    → (m : ℕ) × (oldest_slot a ≡ some m) × IsChoice a arp_cache_size m
choose-found a v room = elim (Bool-cases (a.cache 0).valid) [
  | inr e ↦ (
    0,
    oldest_slot-choose a ∙ choose-first_free a 31 0 0xFFFFFFFF none e,
    record { small = omega arith; oldest = inl e },
  )
  | inl e ↦
      let first = choose-first_used a 31 0 0xFFFFFFFF none e (omega (arith, v.fresh 0 e)) in
      let (m, found, c) = choose-IsChoice a 31 1 0 (omega arith) (first_oldest a e) in
      (m, oldest_slot-choose a ∙ first ∙ found, c)
]
