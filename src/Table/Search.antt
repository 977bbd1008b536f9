-- ===== src/Table/Search.antt =====
-- The three searches of the table against the walk.
use mem_sync.Base.{
  ℕ, zero, suc, ◌+◌, ◌-◌, ◌<◌, ◌≤◌, ◌≡◌, ◌≢◌, refl, sym, ◌⊎◌, inl, inr, true, Option, none, some,
  arith, Bool-cases, ℕ_discrete,
}
use mathlib.Core.Path.{subst}
use mem_sync.Layout.{SlotState, empty, occupied, deleted, Region, matches, at}
use mem_sync.Table.{
  probe, keep_first, find_slot_from, find_slot_internal, find_key_from, find_key_locked,
}
use mem_sync.Table.View.{find_entry, occupied_of_matches}
use mem_sync.Table.Invariant.{IsTable}
use mem_sync.Table.Walk.{Outcome, hit, gap, full, walk, seen, Passed, Passed-suc, Ends-Answers}
use mem_sync.Text.{Bytes}

-- The slots that a walk inspects beyond the first.
abbrev pub extra_slots : ℕ → Outcome → ℕ
extra_slots capacity (hit j) = j
extra_slots capacity (gap j) = j
extra_slots capacity full = capacity - 1

pub state_cases : (st : SlotState) → ((st ≡ empty) ⊎ (st ≡ deleted)) ⊎ (st ≡ occupied)
state_cases empty = inl (inl refl)
state_cases deleted = inl (inr refl)
state_cases occupied = inr refl

module _ (r : Region) (key : Bytes) where
  abbrev pub found_index : Outcome → Option ℕ
  found_index (hit j) = some (probe r.header.capacity key j)
  found_index (gap j) = none
  found_index full = none

  find_key_from-walk :
      (n i : ℕ) → find_key_from r key n i ≡ found_index (walk r.header.capacity r.slots key n i)
  unfolding find_key_from walk
  find_key_from-walk zero i = refl
  find_key_from-walk (suc n) i = ground (arith, find_key_from-walk n (i + 1))

  pub find_key_locked-walk :
      find_key_locked r key ≡ found_index (walk r.header.capacity r.slots key r.header.capacity 0)
  unfolding find_key_locked
  find_key_locked-walk = find_key_from-walk r.header.capacity 0

  abbrev FirstFree : Option ℕ → ℕ → Type 0
  FirstFree none i = (m : ℕ) → m < i → (seen r.header.capacity r.slots key m).state ≡ occupied
  FirstFree (some x) i =
      (d : ℕ) × (d < i)
      × (probe r.header.capacity key d ≡ x)
      × ((seen r.header.capacity r.slots key d).state ≡ deleted)

  -- A slot where the key is, or may be put: the way to it is closed, and either the key is stored
  -- there, or it is stored nowhere and the slot is free.
  abbrev pub IsPlace : ℕ → Type 0
  IsPlace x =
      (d : ℕ) × (d < r.header.capacity)
      × (probe r.header.capacity key d ≡ x)
      × ((m : ℕ) → m < d → (seen r.header.capacity r.slots key m).state ≢ empty)
      × ((matches (at r x) key ≡ true)
          ⊎ (((at r x).state ≢ occupied) × (find_entry key r.slots ≡ none)))

  -- No place: the key is not stored and every slot on its way is occupied.
  abbrev pub HasNoPlace : Type 0
  HasNoPlace =
      (find_entry key r.slots ≡ none)
      × ((m : ℕ) → m < r.header.capacity → (seen r.header.capacity r.slots key m).state ≡ occupied)

  abbrev pub Located : Option ℕ → Type 0
  Located (some x) = IsPlace x
  Located none = HasNoPlace

  module _ (t : IsTable r.header.capacity r.slots) where
    FirstFree-keep :
        (first : Option ℕ) (i : ℕ)
        → FirstFree first i
        → (seen r.header.capacity r.slots key i).state ≡ deleted
        → FirstFree (keep_first first (probe r.header.capacity key i)) (i + 1)
    FirstFree-keep none i f e = (i, omega arith, refl, e)
    FirstFree-keep (some x) i (d, lt, p, q) e = (d, omega arith, p, q)

    FirstFree-skip :
        (first : Option ℕ) (i : ℕ)
        → FirstFree first i
        → (seen r.header.capacity r.slots key i).state ≡ occupied
        → FirstFree first (i + 1)
    FirstFree-skip none i f e =
        λ m h. elim (ℕ_discrete m i) [ yes p ↦ rw p e | no p ↦ f m (omega arith) ]
    FirstFree-skip (some x) i (d, lt, p, q) e = (d, omega arith, p, q)

    -- The first free slot of a walk that did not meet the key is a place.
    free-IsPlace :
        (x i : ℕ)
        → i ≤ r.header.capacity
        → FirstFree (some x) i
        → Passed r.header.capacity r.slots key i
        → find_entry key r.slots ≡ none
        → IsPlace x
    free-IsPlace x i le (d, lt, p, q) passed absent =
        (d, omega arith, p, (λ m h. (passed m (omega arith)).0), inr ((λ o. cc (sym p, q)), absent))

    empty-Located :
        (first : Option ℕ) (i : ℕ)
        → i < r.header.capacity
        → (seen r.header.capacity r.slots key i).state ≡ empty
        → FirstFree first i
        → Passed r.header.capacity r.slots key i
        → Located (keep_first first (probe r.header.capacity key i))
    empty-Located none i lt e f passed = (
      i,
      lt,
      refl,
      (λ m h. (passed m h).0),
      inr (
        (λ o. cc (sym e, o)),
        Ends-Answers r.header.capacity r.slots key t (gap i) (lt, e, passed),
      ),
    )
    empty-Located (some x) i lt e f passed =
        free-IsPlace x i (omega arith) f passed
          (Ends-Answers r.header.capacity r.slots key t (gap i) (lt, e, passed))

    full-Located :
        (first : Option ℕ)
        → FirstFree first r.header.capacity
        → Passed r.header.capacity r.slots key r.header.capacity
        → Located first
    full-Located none f passed = (Ends-Answers r.header.capacity r.slots key t full passed, f)
    full-Located (some x) f passed =
        free-IsPlace x r.header.capacity (omega arith) f passed
          (Ends-Answers r.header.capacity r.slots key t full passed)

    find_slot_from-Located :
        (n i : ℕ) (first : Option ℕ) (collisions : ℕ)
        → i + n ≡ r.header.capacity
        → FirstFree first i
        → Passed r.header.capacity r.slots key i
        → Located (find_slot_from r key n i first collisions).0
    unfolding find_slot_from
    find_slot_from-Located zero i first collisions e f passed =
        let e' : r.header.capacity ≡ i = omega arith in
        full-Located first (subst (FirstFree first) (sym e') f) (λ m h. passed m (omega arith))
    find_slot_from-Located (suc n) i first collisions e f passed =
        elim (state_cases (seen r.header.capacity r.slots key i).state) [
          | inl (inl p) ↦ rw (p, find_slot_from) (empty-Located first i (omega arith) p f passed)
          | inl (inr p) ↦
              rw (p, find_slot_from)
                (find_slot_from-Located n (i + 1) (keep_first first (probe r.header.capacity key i))
                  _ (omega arith) (FirstFree-keep first i f p)
                  (Passed-suc r.header.capacity r.slots key i passed (λ q. cc (sym p, q))
                    (ground
                      (arith, occupied_of_matches (seen r.header.capacity r.slots key i) key))))
          | inr p ↦ elim (Bool-cases (matches (seen r.header.capacity r.slots key i) key)) [
            | inl m ↦
                rw (p, m, find_slot_from) (i, omega arith, refl, (λ m h. (passed m h).0), inl m)
            | inr m ↦
                rw (p, m, find_slot_from)
                  (find_slot_from-Located n (i + 1) first _ (omega arith)
                    (FirstFree-skip first i f p)
                    (Passed-suc r.header.capacity r.slots key i passed (λ q. cc (sym p, q)) m))
          ]
        ]

    pub find_slot_internal-Located : Located (find_slot_internal r key).0
    unfolding find_slot_internal
    find_slot_internal-Located =
        find_slot_from-Located r.header.capacity 0 none 0 (omega arith)
          (λ m h. absurd (omega arith)) (λ m h. absurd (omega arith))
