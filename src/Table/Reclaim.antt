-- ===== src/Table/Reclaim.antt =====
-- `reclaim_expired` against the list of stored entries.
use mem_sync.Base.{
  ℕ, zero, suc, ◌+◌, ◌<◌, ◌≤◌, ◌≡◌, ◌≢◌, refl, ap, ◌∙◌, inl, inr, Bool, true, false, ◌&&◌, Option,
  none, some, arith, length, get_or-set_self, get_or-set_ne, if◌then◌else◌, Bool-cases,
  Option-cases, ℕ_discrete,
}
use mem_sync.Layout.{CacheEntry, Region, is_occupied, matches, at, blank}
use mem_sync.Table.{
  cache_entry_expired, removed, remove_entry, reclaim_slot, reclaim_from, reclaim_expired,
}
use mem_sync.Table.View.{
  find_entry, find_entry-none, find_entry-some, find_entry_of_absent, find_entry_of_matches,
  lt_of_matches, is_occupied_of_matches,
}
use mem_sync.Table.Invariant.{IsValid}
use mem_sync.Table.Remove.{remove_entry-IsValid, matches-removed}
use mem_sync.Text.{Bytes}

-- What a clean-up at a time leaves of a slot.
abbrev pub is_stale : CacheEntry → ℕ → Bool
is_stale e now = is_occupied e && cache_entry_expired e now

abbrev pub swept : ℕ → CacheEntry → CacheEntry
swept now e = if is_stale e now then removed e else e

-- What it leaves of a stored entry.
abbrev pub unexpired : ℕ → Option CacheEntry → Option CacheEntry
unexpired now none = none
unexpired now (some e) = if cache_entry_expired e now then none else some e

module _ (now : ℕ) where
  capacity-reclaim_slot :
      (r : Region) (i : ℕ) → (reclaim_slot r now i).header.capacity ≡ r.header.capacity
  unfolding reclaim_slot remove_entry
  capacity-reclaim_slot r i = ground arith

  capacity-reclaim_from :
      (r : Region) (n i : ℕ) → (reclaim_from r now n i).header.capacity ≡ r.header.capacity
  unfolding reclaim_from
  capacity-reclaim_from r zero i = refl
  capacity-reclaim_from r (suc n) i =
      capacity-reclaim_from (reclaim_slot r now i) n (i + 1) ∙ capacity-reclaim_slot r i

  reclaim_slot-IsValid :
      (r : Region) (i : ℕ) → IsValid r → i < r.header.capacity → IsValid (reclaim_slot r now i)
  unfolding reclaim_slot
  reclaim_slot-IsValid r i v h = elim (Bool-cases (is_stale (at r i) now)) [
    | inl old ↦ rw (step old) (remove_entry-IsValid r i v h (ground arith))
    | inr fresh ↦ rw (keep fresh) v
  ]
    where
      step : is_stale (at r i) now ≡ true → reclaim_slot r now i ≡ remove_entry r i
      step e = ground arith

      keep : is_stale (at r i) now ≡ false → reclaim_slot r now i ≡ r
      keep e = ground arith

  reclaim_from-IsValid :
      (r : Region) (n i : ℕ)
      → IsValid r
      → i + n ≤ r.header.capacity
      → IsValid (reclaim_from r now n i)
  unfolding reclaim_from
  reclaim_from-IsValid r zero i v h = v
  reclaim_from-IsValid r (suc n) i v h =
      reclaim_from-IsValid (reclaim_slot r now i) n (i + 1)
        (reclaim_slot-IsValid r i v (omega arith)) (omega (arith, capacity-reclaim_slot r i))

  at-reclaim_slot_self :
      (r : Region) (i : ℕ) → i < length r.slots → at (reclaim_slot r now i) i ≡ swept now (at r i)
  unfolding reclaim_slot remove_entry
  at-reclaim_slot_self r i h = ground (arith, get_or-set_self r.slots i (removed (at r i)) blank h)

  at-reclaim_slot_ne : (r : Region) (i j : ℕ) → i ≢ j → at (reclaim_slot r now i) j ≡ at r j
  unfolding reclaim_slot remove_entry
  at-reclaim_slot_ne r i j h = ground (arith, get_or-set_ne r.slots i j (removed (at r i)) blank h)

  at-reclaim_from_outside :
      (r : Region) (n i j : ℕ) → j < i → at (reclaim_from r now n i) j ≡ at r j
  unfolding reclaim_from
  at-reclaim_from_outside r zero i j h = refl
  at-reclaim_from_outside r (suc n) i j h =
      at-reclaim_from_outside (reclaim_slot r now i) n (i + 1) j (omega arith)
      ∙ at-reclaim_slot_ne r i j (omega arith)

  at-reclaim_from :
      (r : Region) (n i j : ℕ)
      → IsValid r
      → i + n ≤ r.header.capacity
      → i ≤ j
      → j < i + n
      → at (reclaim_from r now n i) j ≡ swept now (at r j)
  unfolding reclaim_from
  at-reclaim_from r zero i j v room lo hi = absurd (omega arith)
  at-reclaim_from r (suc n) i j v room lo hi = elim (ℕ_discrete i j) [
    | yes e ↦
        at-reclaim_from_outside (reclaim_slot r now i) n (i + 1) j (omega arith)
        ∙ rw (← e) (at-reclaim_slot_self r i (omega (arith, v.table.sized)))
    | no p ↦
        at-reclaim_from (reclaim_slot r now i) n (i + 1) j
          (reclaim_slot-IsValid r i v (omega arith)) (omega (arith, capacity-reclaim_slot r i))
          (omega arith) (omega arith)
        ∙ ap (swept now) (at-reclaim_slot_ne r i j p)
  ]

  module _ (r : Region) (v : IsValid r) where
    pub capacity-reclaim_expired : (reclaim_expired r now).header.capacity ≡ r.header.capacity
    unfolding reclaim_expired
    capacity-reclaim_expired = capacity-reclaim_from r r.header.capacity 0

    pub reclaim_expired-IsValid : IsValid (reclaim_expired r now)
    unfolding reclaim_expired
    reclaim_expired-IsValid = reclaim_from-IsValid r r.header.capacity 0 v (omega arith)

    -- Every slot is swept.
    pub at-reclaim_expired :
        (j : ℕ) → j < r.header.capacity → at (reclaim_expired r now) j ≡ swept now (at r j)
    unfolding reclaim_expired
    at-reclaim_expired j h =
        at-reclaim_from r r.header.capacity 0 j v (omega arith) (omega arith) (omega arith)

    still_absent :
        (q : Bytes) (j : ℕ)
        → matches (at r j) q ≡ false
        → matches (at (reclaim_expired r now) j) q ≡ false
    still_absent q j h = elim (Bool-cases (matches (at (reclaim_expired r now) j) q)) [
      | inr absent ↦ absent
      | inl found ↦
          let w = reclaim_expired-IsValid in
          let lt = lt_of_matches (reclaim_expired r now).slots q j found in
          absurd (
            ground (
              arith,
              h,
              found,
              at-reclaim_expired j (omega (arith, w.table.sized, capacity-reclaim_expired)),
              matches-removed (at r j) q,
            ))
    ]

    -- Exactly the expired entries are forgotten.
    pub find_entry-reclaim_expired :
        (q : Bytes)
        → find_entry q (reclaim_expired r now).slots ≡ unexpired now (find_entry q r.slots)
    find_entry-reclaim_expired q = elim (Option-cases (find_entry q r.slots)) [
      | inl absent ↦ rw absent (
          find_entry_of_absent q (reclaim_expired r now).slots
            (λ j. still_absent q j (find_entry-none q r.slots absent j)))
      | inr (e, found) ↦ rw found (
          let (j, same, m) = find_entry-some q r.slots e found in
          let lt = lt_of_matches r.slots q j m in
          let here = at-reclaim_expired j (omega (arith, v.table.sized)) in
          let occ = is_occupied_of_matches (at r j) q m in
          elim (Bool-cases (cache_entry_expired e now)) [
            | inl old ↦ rw old (
                find_entry_of_absent q (reclaim_expired r now).slots (λ i. elim (ℕ_discrete i j) [
                  | yes p ↦ rw p (gone j here m (rw same old) occ)
                  | no p ↦ still_absent q i (elim (Bool-cases (matches (at r i) q)) [
                    | inl k ↦ absurd (p (v.table.unique q i j k m))
                    | inr k ↦ k
                  ])
                ]))
            | inr fresh ↦ rw fresh (
                let stays = here ∙ kept j (rw same fresh) in
                find_entry_of_matches q (reclaim_expired r now).slots j
                  (reclaim_expired-IsValid).table.unique (rw stays m)
                ∙ ap some (stays ∙ same))
          ])
    ]
      where
        gone :
            (j : ℕ)
            → at (reclaim_expired r now) j ≡ swept now (at r j)
            → matches (at r j) q ≡ true
            → cache_entry_expired (at r j) now ≡ true
            → is_occupied (at r j) ≡ true
            → matches (at (reclaim_expired r now) j) q ≡ false
        gone j here m old occ = ground (arith, matches-removed (at r j) q)

        kept : (j : ℕ) → cache_entry_expired (at r j) now ≡ false → swept now (at r j) ≡ at r j
        kept j fresh = ground arith
