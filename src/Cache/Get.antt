-- ===== src/Cache/Get.antt =====
-- `cache_get`: what it returns, and what its second critical section does to a region that other
-- processes may have changed.
pub mod Remove
pub mod Finish
use mathlib.Core.Path.{subst}
use mem_sync.Base.{
  ℕ, zero, suc, ◌+◌, ◌-◌, ◌%◌, ◌^◌, ◌<◌, ◌≤◌, ◌≡◌, ◌≢◌, refl, sym, ap, ◌∙◌, ◌⊎◌, inl, inr, Bool,
  true, false, ◌&&◌, Option, none, some, List, [], ◌∷◌, arith, length, replicate, length-replicate,
  set, if◌then◌else◌, Bool-cases, Option-cases, ltb, add32, add64, u32_mod,
}
use mem_sync.Layout.{
  SlotState, empty, occupied, deleted, CacheEntry, Region, matches, at, is_occupied, max_val_len,
}
use mem_sync.Table.{
  probe, remove_entry, cache_entry_expired, find_key_locked, add_get_metrics, add_telemetry,
}
use mem_sync.Table.View.{slot, find_entry, is_occupied_of_matches, occupied_of_matches}
use mem_sync.Table.Keys.{matches-eq-strcmp_eq, without, without_absent, is_some}
use mem_sync.Table.Invariant.{IsEntry, IsValid, probe-lt}
use mem_sync.Table.Walk.{
  Outcome, hit, gap, full, walk, seen, Ends, Answers, full_walk-Ends, Ends-Answers,
}
use mem_sync.Table.Search.{extra_slots, state_cases, find_key_locked-walk, found_index}
use mem_sync.Table.Collisions.{extra_of, walk_of}
use mem_sync.Table.Remove.{remove_entry-IsValid, find_entry-remove_entry}
use mem_sync.Cache.{
  GetCalls, ReadResult, miss, live, expired, value_copy, read_from, read_locked, remove_if_expired,
  remove_expired, get_finish, copy_string,
}
use mem_sync.Modify.Delete.{remove_found-entries}
use mem_sync.Cache.Store.{read_cstr-copy_string}
use mem_sync.Text.{Bytes, IsCString, read_cstr, strcmp_eq}
use mem_sync.Text.Laws.{length-read_cstr_of_nul, read_cstr-IsCString}

-- What a read at a time tells of an entry, with its collisions.
abbrev pub reading : ℕ → ℕ → Option CacheEntry → ReadResult
reading now n none = miss n
reading now n (some e) =
    if cache_entry_expired e now then expired n else live (value_copy e) e.timestamp n

module _ (r : Region) (key : Bytes) (now : ℕ) where
  abbrev read_at : Outcome → ReadResult
  read_at (hit j) = reading now j (some (seen r.header.capacity r.slots key j))
  read_at (gap j) = miss j
  read_at full = miss (r.header.capacity - 1)

  read_from-walk :
      (n i collisions : ℕ)
      → r.header.capacity < 2 ^ 31
      → 0 < r.header.capacity
      → i + n ≡ r.header.capacity
      → collisions ≡ i - 1
      → read_from r key now n i collisions ≡ read_at (walk r.header.capacity r.slots key n i)
  unfolding read_from walk
  read_from-walk zero i collisions small positive e c = ap miss (omega arith)
  read_from-walk (suc n) i collisions small positive e c =
      let count : ℕ = if ltb 0 i then add32 collisions 1 else collisions in
      let counted : count ≡ i = ground arith in
      let rest = read_from-walk n (i + 1) count small positive (omega arith) (omega arith) in
      elim (state_cases (seen r.header.capacity r.slots key i).state) [
        | inl (inl p) ↦ rw (p, read_from, walk) (ap miss counted)
        | inl (inr p) ↦ elim (Bool-cases (matches (seen r.header.capacity r.slots key i) key)) [
          | inl m ↦ cc (sym p, occupied_of_matches (seen r.header.capacity r.slots key i) key m)
          | inr m ↦ rw (p, m, read_from, walk) rest
        ]
        | inr p ↦ elim (Bool-cases (matches (seen r.header.capacity r.slots key i) key)) [
          | inl m ↦
              rw (p, m, read_from, walk)
                (ap (λ k. reading now k (some (seen r.header.capacity r.slots key i))) counted)
          | inr m ↦ rw (p, m, read_from, walk) rest
        ]
      ]

  -- The first critical section reads the entry that is stored under the key.
  pub read_locked-reading :
      IsValid r → read_locked r key now ≡ reading now (extra_of r key) (find_entry key r.slots)
  unfolding read_locked extra_of
  read_locked-reading v =
      read_from-walk r.header.capacity 0 0 v.table.small v.table.positive (omega arith)
        (omega arith)
      ∙ answer (walk_of r key) refl (
          Ends-Answers r.header.capacity r.slots key v.table (walk_of r key)
            (full_walk-Ends r.header.capacity r.slots key))
    where
      answer :
          (o : Outcome)
          → walk_of r key ≡ o
          → Answers r.header.capacity r.slots key v.table o
          → read_at o ≡ reading now (extra_of r key) (find_entry key r.slots)
      answer (hit j) e a = rw (a, e)
      answer (gap j) e a = rw (a, e)
      answer full e a = rw (a, e)
