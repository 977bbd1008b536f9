-- ===== src/Cache/Get/Remove.antt =====
-- The second critical section of a `cache_get` that read an expired entry.
use mathlib.Core.Path.{subst}
use mem_sync.Base.{
  ℕ, ◌≡◌, refl, ◌∙◌, inl, inr, false, Option, none, some, if◌then◌else◌, Bool-cases,
}
use mem_sync.Layout.{CacheEntry, Region, at}
use mem_sync.Table.{probe, remove_entry, cache_entry_expired, find_key_locked}
use mem_sync.Table.View.{find_entry, is_occupied_of_matches}
use mem_sync.Table.Keys.{without_absent}
use mem_sync.Table.Invariant.{IsValid, probe-lt}
use mem_sync.Table.Walk.{Outcome, hit, gap, full, Ends, Answers, full_walk-Ends, Ends-Answers}
use mem_sync.Table.Search.{find_key_locked-walk, found_index}
use mem_sync.Table.Collisions.{walk_of}
use mem_sync.Table.Remove.{remove_entry-IsValid}
use mem_sync.Cache.{remove_if_expired}
use mem_sync.Modify.Delete.{remove_found-entries}
use mem_sync.Text.{Bytes, strcmp_eq}
use mem_sync.Text.Laws.{eq_of_strcmp_eq}
use mem_sync.Table.Reclaim.{unexpired}

-- The map without the entry under a key, if that entry is expired.
abbrev pub cleaned : Bytes → ℕ → (Bytes → Option CacheEntry) → Bytes → Option CacheEntry
cleaned key now f q = if strcmp_eq key q then unexpired now (f key) else f q

unchanged_of_absent :
    (key q : Bytes) (now : ℕ) (f : Bytes → Option CacheEntry)
    → f key ≡ none
    → f q ≡ cleaned key now f q
unchanged_of_absent key q now f h = without_absent key q f h ∙ (rw h)

unchanged_of_live :
    (key q : Bytes) (now : ℕ) (f : Bytes → Option CacheEntry) (e : CacheEntry)
    → f key ≡ some e
    → cache_entry_expired e now ≡ false
    → f q ≡ cleaned key now f q
unchanged_of_live key q now f e h new = elim (Bool-cases (strcmp_eq key q)) [
  | inl same ↦
      rw (same, h, unexpired, new) (subst (λ k. f k ≡ some e) (eq_of_strcmp_eq key q same) h)
  | inr other ↦ rw other
]

module _ (r : Region) (key : Bytes) (now : ℕ) (v : IsValid r) where
  abbrev Cleans : Region → Type 0
  Cleans r' =
      IsValid r'
      × ((q : Bytes) → find_entry q r'.slots ≡ cleaned key now (λ k. find_entry k r.slots) q)

  abbrev remove_at : Option ℕ → Region
  remove_at none = r
  remove_at (some index) = if cache_entry_expired (at r index) now then remove_entry r index else r

  remove_if_expired-at : remove_if_expired r key now ≡ remove_at (find_key_locked r key)
  unfolding remove_if_expired
  remove_if_expired-at = split (find_key_locked r key) refl
    where
      split : (o : Option ℕ) → find_key_locked r key ≡ o → remove_if_expired r key now ≡ remove_at o
      split none e = rw (e, remove_if_expired)
      split (some x) e = rw (e, remove_if_expired)

  remove_at-Cleans :
      (o : Outcome)
      → Ends r.header.capacity r.slots key o
      → Answers r.header.capacity r.slots key v.table o
      → Cleans (remove_at (found_index r key o))
  remove_at-Cleans (gap j) ends a =
      (v, λ q. unchanged_of_absent key q now (λ k. find_entry k r.slots) a)
  remove_at-Cleans full ends a =
      (v, λ q. unchanged_of_absent key q now (λ k. find_entry k r.slots) a)
  remove_at-Cleans (hit j) ends a =
      let x = probe r.header.capacity key j in
      let x_lt = probe-lt r.header.capacity v.table.positive v.table.small key j in
      elim (Bool-cases (cache_entry_expired (at r x) now)) [
        | inl old ↦ rw old (
          remove_entry-IsValid r x v x_lt (is_occupied_of_matches _ key ends.1),
          λ q. remove_found-entries r key v x x_lt ends.1 q ∙ (rw (a, unexpired, old)),
        )
        | inr new ↦
            rw new (v, λ q. unchanged_of_live key q now (λ k. find_entry k r.slots) (at r x) a new)
      ]

  -- The key's entry goes only if it is expired at that time; every other key stays.
  pub remove_if_expired-Cleans : Cleans (remove_if_expired r key now)
  remove_if_expired-Cleans =
      rw (remove_if_expired-at, find_key_locked-walk r key)
        (remove_at-Cleans (walk_of r key) (full_walk-Ends r.header.capacity r.slots key) (
          Ends-Answers r.header.capacity r.slots key v.table (walk_of r key)
            (full_walk-Ends r.header.capacity r.slots key)))
