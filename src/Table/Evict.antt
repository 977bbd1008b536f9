-- ===== src/Table/Evict.antt =====
-- `evict_oldest_write` removes the entry with the oldest timestamp, the first such by index.
use mem_sync.Base.{
  ℕ, zero, suc, ◌+◌, ◌<◌, ◌≤◌, ◌≡◌, refl, inl, inr, Bool, true, false, ◌&&◌, Option, none, some,
  List, arith, if◌then◌else◌, Bool-cases, ℕ_discrete, ltb,
}
use mathlib.Core.Path.{subst}
use mem_sync.Layout.{CacheEntry, Region, is_occupied, at}
use mem_sync.Table.{remove_entry, oldest_from, evict_oldest_write}
use mem_sync.Table.View.{slot}

-- Among the slots below `i`, `x` is occupied, none is older, and those before it are younger.
pub record IsOldest (s : List CacheEntry) (i x : ℕ) : Type 0 where
  pub below : x < i
  pub stored : is_occupied (slot s x) ≡ true
  pub oldest :
      (j : ℕ)
      → j < i
      → is_occupied (slot s j) ≡ true
      → ((slot s x).timestamp ≤ (slot s j).timestamp)
        × (j < x → (slot s x).timestamp < (slot s j).timestamp)

module _ (r : Region) where
  abbrev Best : ℕ → Option (ℕ × ℕ) → Type 0
  Best i none = (j : ℕ) → j < i → is_occupied (at r j) ≡ false
  Best i (some (x, ts)) = IsOldest r.slots i x × (ts ≡ (at r x).timestamp)

  -- One round of the loop.
  abbrev better : ℕ → Option (ℕ × ℕ) → Option (ℕ × ℕ)
  better i oldest =
      let older : Bool = elim oldest [ none ↦ true | some (_, ts) ↦ ltb (at r i).timestamp ts ] in
      if is_occupied (at r i) && older then some (i, (at r i).timestamp) else oldest

  better-Best : (i : ℕ) (o : Option (ℕ × ℕ)) → Best i o → Best (i + 1) (better i o)
  better-Best i none b = elim (Bool-cases (is_occupied (at r i))) [
    | inl occ ↦ rw occ (
      record {
        below = omega arith;
        stored = occ;
        oldest = λ j h p. elim (ℕ_discrete j i) [
          | yes e ↦ rw e (omega arith)
          | no n ↦ absurd (ground (arith, b j (omega arith)))
        ];
      },
      refl,
    )
    | inr free ↦
        rw free (λ j h. elim (ℕ_discrete j i) [ yes e ↦ rw e free | no n ↦ b j (omega arith) ])
  ]
  better-Best i (some (x, ts)) b =
      elim (Bool-cases (is_occupied (at r i) && ltb (at r i).timestamp ts)) [
        | inl old ↦ rw old (
          record {
            below = omega arith;
            stored = ground arith;
            oldest = λ j h p. elim (ℕ_discrete j i) [
              | yes e ↦ rw e (omega arith)
              | no n ↦ ground (arith, b.0.oldest j (omega arith) p, b.1)
            ];
          },
          refl,
        )
        | inr new ↦ rw new (
          record {
            below = omega (arith, b.0.below);
            stored = b.0.stored;
            oldest = λ j h p. elim (ℕ_discrete j i) [
              | yes e ↦
                  let occ : is_occupied (at r i) ≡ true = rw (← e) p in
                  rw e (ground (arith, b.0.below, b.1, occ))
              | no n ↦ b.0.oldest j (omega arith) p
            ];
          },
          b.1,
        )
      ]

  oldest_from-Best : (n i : ℕ) (o : Option (ℕ × ℕ)) → Best i o → Best (i + n) (oldest_from r n i o)
  unfolding oldest_from
  oldest_from-Best zero i o b = subst (λ k. Best k o) (omega arith) b
  oldest_from-Best (suc n) i o b =
      subst (λ k. Best k (oldest_from r n (i + 1) (better i o))) (omega arith)
        (oldest_from-Best n (i + 1) (better i o) (better-Best i o b))

  -- With an entry stored, the eviction removes the oldest one.
  pub evict_oldest_write-IsOldest :
      (j : ℕ)
      → j < r.header.capacity
      → is_occupied (at r j) ≡ true
      → (x : ℕ) × IsOldest r.slots r.header.capacity x
        × (evict_oldest_write r ≡ (remove_entry r x, true))
  unfolding evict_oldest_write
  evict_oldest_write-IsOldest j h occ = found (oldest_from r r.header.capacity 0 none) refl (
      subst (λ k. Best k (oldest_from r r.header.capacity 0 none)) (omega arith)
        (oldest_from-Best r.header.capacity 0 none (λ m p. absurd (omega arith))))
    where
      found :
          (o : Option (ℕ × ℕ))
          → oldest_from r r.header.capacity 0 none ≡ o
          → Best r.header.capacity o
          → (x : ℕ) × IsOldest r.slots r.header.capacity x
            × (evict_oldest_write r ≡ (remove_entry r x, true))
      found none e b = absurd (ground (arith, b j h, occ))
      found (some (x, ts)) e b = (x, b.0, rw (e, evict_oldest_write))
