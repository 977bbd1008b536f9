-- ===== src/Cache/Put/Evict.antt =====
-- A put after an eviction: the eviction makes a place, and the item goes there.
use mathlib.Core.Path.{subst}
use mem_sync.Base.{
  ℕ, ◌<◌, ◌≡◌, refl, ap, ◌⊎◌, inl, inr, true, none, arith, length, get_or-set_self, if◌then◌else◌,
}
use mem_sync.Layout.{occupied, deleted, CacheEntry, Region, blank, is_occupied, matches, at}
use mem_sync.Table.{find_slot_internal, removed, remove_entry, evict_oldest_write}
use mem_sync.Table.View.{find_entry}
use mem_sync.Table.Invariant.{IsValid, probe_onto}
use mem_sync.Table.Search.{HasNoPlace}
use mem_sync.Table.Evict.{evict_oldest_write-IsOldest}
use mem_sync.Table.Remove.{remove_entry-IsValid, find_entry-remove_entry}
use mem_sync.Cache.{Item, PutCalls, find_counted, put_evicted, put_reclaimed}
use mem_sync.Cache.Store.{IsItem}
use mem_sync.Cache.Put.{Stores, Places, Evicts, Stores-congr}
use mem_sync.Cache.Put.Place.{find_counted-cases, counted-Stores, add_collisions-IsValid}

is_occupied_of_state : (e : CacheEntry) → e.state ≡ occupied → is_occupied e ≡ true
unfolding is_occupied
is_occupied_of_state e h = ground arith

pub state-removed : (e : CacheEntry) → (removed e).state ≡ deleted
unfolding removed
state-removed e = refl

module _ (item : Item) (ok : IsItem item) where
  -- With no place, every slot of the table is occupied.
  pub all_occupied :
      (r : Region)
      → IsValid r
      → HasNoPlace r item.key
      → (j : ℕ) → j < r.header.capacity
      → (at r j).state ≡ occupied
  all_occupied r v none_left j h =
      let (d, d_lt, e) = probe_onto r.header.capacity v.table.positive v.table.small item.key j h in
      subst (λ k. (at r k).state ≡ occupied) e (none_left.1 d d_lt)

  capacity-remove_entry :
      (r : Region) (x : ℕ) → (remove_entry r x).header.capacity ≡ r.header.capacity
  unfolding remove_entry
  capacity-remove_entry r x = refl

  state-remove_entry :
      (r : Region) (x : ℕ) → x < length r.slots → (at (remove_entry r x) x).state ≡ deleted
  unfolding remove_entry removed
  state-remove_entry r x h =
      ap (λ (e : CacheEntry). e.state) (get_or-set_self r.slots x (removed (at r x)) blank h)

  -- The eviction makes a place.
  place_after_eviction :
      (r : Region) (x : ℕ)
      → IsValid r
      → x < r.header.capacity
      → is_occupied (at r x) ≡ true
      → ¬ HasNoPlace (remove_entry r x) item.key
  place_after_eviction r x v h occ none_left = cc (
    state-remove_entry r x (omega (arith, v.table.sized)),
    all_occupied (remove_entry r x) (remove_entry-IsValid r x v h occ) none_left x
        (omega (arith, capacity-remove_entry r x)),
  )

  module _ (r : Region) (calls : PutCalls) (v : IsValid r) where
    evicted-Stores :
        (x : ℕ)
        → x < r.header.capacity
        → is_occupied (at r x) ≡ true
        → ((put_evicted (remove_entry r x, true) item calls).1 ≡ true)
          × Stores
              (λ q. if matches (at r x) q then none else find_entry q r.slots)
              item
              calls.write_time
              (put_evicted (remove_entry r x, true) item calls).0
    unfolding put_evicted
    evicted-Stores x h occ =
        let w = remove_entry-IsValid r x v h occ in
        elim (find_counted-cases item ok (remove_entry r x) w) [
          | inr (e, none_left) ↦ absurd (place_after_eviction r x v h occ none_left)
          | inl (y, e, place) ↦
              rw (e, put_evicted)
                (
                  refl,
                  Stores-congr (find_entry-remove_entry r x v h)
                      (counted-Stores item ok (remove_entry r x) y calls.write_time w place),
                )
        ]

    -- With no place, the oldest entry makes room.
    evict-Stores :
        HasNoPlace r item.key → Evicts r item calls (put_evicted (evict_oldest_write r) item calls)
    evict-Stores none_left =
        let (x, oldest, run) =
          evict_oldest_write-IsOldest r 0 v.table.positive
            (is_occupied_of_state (at r 0) (all_occupied r v none_left 0 v.table.positive)) in
        let (done, s) = evicted-Stores x oldest.below oldest.stored in
        (x, oldest, rw run done, rw run s)

  counted_evict-Stores :
      (r : Region) (calls : PutCalls)
      → IsValid r
      → HasNoPlace r item.key
      → Evicts r item calls
          (put_evicted (evict_oldest_write (find_counted r item.key).1) item calls)
  unfolding find_counted
  counted_evict-Stores r calls v none_left =
      evict-Stores (find_counted r item.key).1 calls
        (add_collisions-IsValid r (find_slot_internal r item.key).1 v) none_left

  -- The second search of a put, and what follows it.
  pub put_reclaimed-Stores :
      (r : Region) (calls : PutCalls)
      → IsValid r
      → Places r item calls (put_reclaimed r item calls)
        ⊎ (HasNoPlace r item.key × Evicts r item calls (put_reclaimed r item calls))
  unfolding put_reclaimed
  put_reclaimed-Stores r calls v = elim (find_counted-cases item ok r v) [
    | inl (x, e, place) ↦
        rw (e, put_reclaimed)
          (inl (x, place, refl, counted-Stores item ok r x calls.write_time v place))
    | inr (e, none_left) ↦
        rw (e, put_reclaimed) (inr (none_left, counted_evict-Stores r calls v none_left))
  ]
