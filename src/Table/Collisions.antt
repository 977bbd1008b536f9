-- ===== src/Table/Collisions.antt =====
-- `find_slot_internal` counts the slots that its walk inspects beyond the first.
use mem_sync.Base.{
  ℕ, zero, suc, ◌+◌, ◌-◌, ◌^◌, ◌<◌, ◌≡◌, inl, inr, false, Option, none, arith, if◌then◌else◌,
  Bool-cases, ltb, add32,
}
use mem_sync.Layout.{Region, matches}
use mem_sync.Table.{find_slot_from, find_slot_internal, probe, keep_first}
use mem_sync.Table.View.{occupied_of_matches}
use mem_sync.Table.Invariant.{IsValid}
use mem_sync.Table.Walk.{Outcome, hit, gap, full, walk, seen, full_walk-Ends, Ends}
use mem_sync.Table.Search.{extra_slots, state_cases}
use mem_sync.Text.{Bytes}

module _ (r : Region) (key : Bytes) where
  -- The walk of the key through the whole table.
  abbrev pub walk_of : Outcome
  walk_of = walk r.header.capacity r.slots key r.header.capacity 0

  -- The slots that a search for the key inspects beyond the first.
  unfoldable pub extra_of : ℕ
  extra_of = extra_slots r.header.capacity walk_of

  pub extra_of-lt : 0 < r.header.capacity → extra_of < r.header.capacity
  unfolding extra_of
  extra_of-lt positive = bound walk_of (full_walk-Ends r.header.capacity r.slots key)
    where
      bound :
          (o : Outcome)
          → Ends r.header.capacity r.slots key o
          → extra_slots r.header.capacity o < r.header.capacity
      bound (hit j) e = e.0
      bound (gap j) e = e.0
      bound full e = omega arith

  find_slot_from-extra :
      (n i : ℕ) (first : Option ℕ) (collisions : ℕ)
      → r.header.capacity < 2 ^ 31
      → 0 < r.header.capacity
      → i + n ≡ r.header.capacity
      → collisions ≡ i - 1
      → (find_slot_from r key n i first collisions).1
        ≡ extra_slots r.header.capacity (walk r.header.capacity r.slots key n i)
  unfolding find_slot_from walk
  find_slot_from-extra zero i first collisions small positive e c = omega arith
  find_slot_from-extra (suc n) i first collisions small positive e c =
      let count : ℕ = if ltb 0 i then add32 collisions 1 else collisions in
      let counted : count ≡ i = ground arith in
      elim (state_cases (seen r.header.capacity r.slots key i).state) [
        | inl (inl p) ↦ rw (p, find_slot_from, walk) counted
        | inl (inr p) ↦
            let other : matches (seen r.header.capacity r.slots key i) key ≡ false =
              ground (arith, occupied_of_matches (seen r.header.capacity r.slots key i) key) in
            rw (p, find_slot_from, walk, other)
              (find_slot_from-extra n (i + 1) (keep_first first (probe r.header.capacity key i))
                count small positive (omega arith) (omega arith))
        | inr p ↦ elim (Bool-cases (matches (seen r.header.capacity r.slots key i) key)) [
          | inl m ↦ rw (p, m, find_slot_from, walk) counted
          | inr m ↦
              rw (p, m, find_slot_from, walk)
                (find_slot_from-extra n (i + 1) first count small positive (omega arith)
                  (omega arith))
        ]
      ]

  -- On a well-formed region the collisions that a search reports are the slots that it inspects
  -- beyond the first.
  pub find_slot_internal-extra : IsValid r → (find_slot_internal r key).1 ≡ extra_of
  unfolding find_slot_internal extra_of
  find_slot_internal-extra v =
      find_slot_from-extra r.header.capacity 0 none 0 v.table.small v.table.positive (omega arith)
        (omega arith)
