-- ===== src/Modify/Delete.antt =====
-- `cache_delete` on every branch.
use mem_sync.Base.{
  ℕ, zero, suc, ◌+◌, ◌<◌, ◌≡◌, refl, ap, ◌∙◌, inl, inr, Bool, true, false, arith, Bool-cases, add64,
}
use mem_sync.Layout.{Region, matches, at}
use mem_sync.Table.{probe, remove_entry}
use mem_sync.Table.View.{find_entry, is_occupied_of_matches}
use mem_sync.Table.Keys.{matches-eq-strcmp_eq, without, without_absent, is_some}
use mem_sync.Table.Invariant.{IsValid, probe-lt}
use mem_sync.Table.Walk.{
  Outcome, hit, gap, full, walk, seen, Ends, Answers, full_walk-Ends, Ends-Answers,
}
use mem_sync.Table.Search.{state_cases}
use mem_sync.Table.Collisions.{extra_of, walk_of}
use mem_sync.Table.Remove.{remove_entry-IsValid, find_entry-remove_entry}
use mem_sync.Cache.{add_collisions}
use mem_sync.Modify.{delete_from, delete_locked, last_round}
use mem_sync.Cache.Put.Place.{add_collisions-IsValid}
use mem_sync.Text.{Bytes}

module _ (r : Region) (key : Bytes) where
  abbrev delete_at : Outcome → Region × Bool
  delete_at (hit j) = (remove_entry (add_collisions r j) (probe r.header.capacity key j), true)
  delete_at (gap j) = (add_collisions r j, false)
  delete_at full = (add_collisions r (last_round r), false)

  delete_from-walk :
      (n i : ℕ) → delete_from r key n i ≡ delete_at (walk r.header.capacity r.slots key n i)
  unfolding delete_from walk
  delete_from-walk zero i = refl
  delete_from-walk (suc n) i = elim (state_cases (seen r.header.capacity r.slots key i).state) [
    | inl (inl p) ↦ rw (p, delete_from, walk)
    | inl (inr p) ↦ elim (Bool-cases (matches (seen r.header.capacity r.slots key i) key)) [
      | inl m ↦ rw (p, m, delete_from, walk)
      | inr m ↦ rw (p, m, delete_from, walk) (delete_from-walk n (i + 1))
    ]
    | inr p ↦ elim (Bool-cases (matches (seen r.header.capacity r.slots key i) key)) [
      | inl m ↦ rw (p, m, delete_from, walk)
      | inr m ↦ rw (p, m, delete_from, walk) (delete_from-walk n (i + 1))
    ]
  ]

  -- What a deletion must come to.
  pub record Deleted (result : Region × Bool) : Type 0 where
    pub valid : IsValid result.0
    pub found : result.1 ≡ is_some (find_entry key r.slots)
    pub entries :
        (q : Bytes) → find_entry q result.0.slots ≡ without key (λ k. find_entry k r.slots) q
    pub collisions :
        result.0.header.total_collisions ≡ add64 r.header.total_collisions (extra_of r key)

  module _ (v : IsValid r) where
    -- The removal of the slot that stores the key.
    pub remove_found-entries :
        (x : ℕ)
        → x < r.header.capacity
        → matches (at r x) key ≡ true
        → (q : Bytes)
        → find_entry q (remove_entry r x).slots ≡ without key (λ k. find_entry k r.slots) q
    remove_found-entries x h m q =
        find_entry-remove_entry r x v h q ∙ (rw (matches-eq-strcmp_eq (at r x) key q m))

    delete_at-Deleted :
        (o : Outcome)
        → walk_of r key ≡ o
        → Ends r.header.capacity r.slots key o
        → Answers r.header.capacity r.slots key v.table o
        → Deleted (delete_at o)
    unfolding add_collisions remove_entry extra_of
    delete_at-Deleted (hit j) e ends a =
        let x_lt = probe-lt r.header.capacity v.table.positive v.table.small key j in
        record {
          valid =
              remove_entry-IsValid (add_collisions r j) (probe r.header.capacity key j)
                (add_collisions-IsValid r j v) x_lt (is_occupied_of_matches _ key ends.1);
          found = rw a;
          entries = remove_found-entries (probe r.header.capacity key j) x_lt ends.1;
          collisions = rw e;
        }
    delete_at-Deleted (gap j) e ends a = record {
      valid = add_collisions-IsValid r j v;
      found = rw a;
      entries = λ q. without_absent key q (λ k. find_entry k r.slots) a;
      collisions = rw e;
    }
    delete_at-Deleted full e ends a = record {
      valid = add_collisions-IsValid r (last_round r) v;
      found = rw a;
      entries = λ q. without_absent key q (λ k. find_entry k r.slots) a;
      collisions =
          rw e
            (ap (add64 r.header.total_collisions) (omega (arith, v.table.small, v.table.positive)));
    }

    -- A deletion under the lock removes the key and nothing else, and reports if it was there.
    pub delete_locked-Deleted : Deleted (delete_locked r key)
    unfolding delete_locked
    delete_locked-Deleted = rw (delete_from-walk r.header.capacity 0) (
        delete_at-Deleted (walk_of r key) refl (full_walk-Ends r.header.capacity r.slots key) (
          Ends-Answers r.header.capacity r.slots key v.table (walk_of r key)
            (full_walk-Ends r.header.capacity r.slots key)))
