-- ===== src/Table/Walk.antt =====
-- The walk that every search of the table makes: along the probe sequence of a key, up to the
-- first empty slot or the slot that stores the key.
use mem_sync.Base.{
  ℕ, zero, suc, ◌+◌, ◌<◌, ◌≡◌, ◌≢◌, inl, inr, true, false, none, some, List, arith, if◌then◌else◌,
  Bool-cases, ℕ_discrete, dec_lt,
}
use mem_sync.Layout.{empty, CacheEntry, matches}
use mem_sync.Table.{probe}
use mem_sync.Table.View.{
  slot, find_entry, find_entry_of_absent, find_entry_of_matches, occupied_of_matches, lt_of_matches,
}
use mem_sync.Table.Invariant.{IsTable, probe_onto}
use mem_sync.Text.{Bytes}

-- How a walk ends: at the key, at an empty slot, or after the whole table; the number is the round.
pub data Outcome : Type 0 where
  hit : ℕ → Outcome
  gap : ℕ → Outcome
  full : Outcome

module _ (capacity : ℕ) (s : List CacheEntry) (key : Bytes) where
  -- The slot that round `m` of a walk inspects.
  abbrev pub seen : ℕ → CacheEntry
  seen m = slot s (probe capacity key m)

  unfoldable pub walk : ℕ → ℕ → Outcome
  walk zero i = full
  walk (suc n) i =
      let rest = walk n (i + 1) in
      elim (seen i).state [ empty ↦ gap i | _ ↦ if matches (seen i) key then hit i else rest ]

  -- The rounds below `j` met neither an empty slot nor the key.
  abbrev pub Passed : ℕ → Type 0
  Passed j = (m : ℕ) → m < j → ((seen m).state ≢ empty) × (matches (seen m) key ≡ false)

  abbrev pub Ends : Outcome → Type 0
  Ends (hit j) = (j < capacity) × (matches (seen j) key ≡ true) × Passed j
  Ends (gap j) = (j < capacity) × ((seen j).state ≡ empty) × Passed j
  Ends full = Passed capacity

  pub Passed-suc :
      (i : ℕ) → Passed i → (seen i).state ≢ empty → matches (seen i) key ≡ false → Passed (i + 1)
  Passed-suc i p solid other m h = elim (ℕ_discrete m i) [
    | yes e ↦ rw e (solid, other)
    | no n ↦ p m (omega arith)
  ]

  walk-Ends : (n i : ℕ) → i + n ≡ capacity → Passed i → Ends (walk n i)
  unfolding walk
  walk-Ends zero i e p = λ m h. p m (omega arith)
  walk-Ends (suc n) i e p = ground (arith, Passed-suc i p, walk-Ends n (i + 1))

  pub full_walk-Ends : Ends (walk capacity 0)
  full_walk-Ends = walk-Ends capacity 0 (omega arith) (λ m h. absurd (omega arith))

  module _ (t : IsTable capacity s) where
    -- A walk that meets an empty slot, or comes to the end, shows that the key is not stored.
    not_stored :
        (j : ℕ) → Passed j → (j < capacity → (seen j).state ≡ empty) → find_entry key s ≡ none
    not_stored j p end = find_entry_of_absent key s (λ x.
        elim (Bool-cases (matches (slot s x) key)) [
          | inr absent ↦ absent
          | inl found ↦
              let x_lt = lt_of_matches s key x found in
              let (d, d_lt, e) =
                probe_onto capacity t.positive t.small key x (omega (arith, t.sized)) in
              let here : matches (seen d) key ≡ true = rw e found in
              absurd (elim (dec_lt d j) [
                | yes below ↦ ground (arith, p d below)
                | no above ↦ elim (ℕ_discrete d j) [
                  | yes same ↦
                      ground (arith, occupied_of_matches (seen d) key here, rw (← same) at end)
                  | no more ↦ t.chained key d j d_lt here (omega arith) (end (omega arith))
                ]
              ])
        ])

    -- What the end of a walk says of the stored entries.
    abbrev pub Answers : Outcome → Type 0
    Answers (hit j) = find_entry key s ≡ some (seen j)
    Answers (gap j) = find_entry key s ≡ none
    Answers full = find_entry key s ≡ none

    pub Ends-Answers : (o : Outcome) → Ends o → Answers o
    Ends-Answers (hit j) h = find_entry_of_matches key s (probe capacity key j) t.unique h.1
    Ends-Answers (gap j) h = not_stored j h.2 (λ _. h.1)
    Ends-Answers full h = not_stored capacity h (λ p. absurd (omega arith))
