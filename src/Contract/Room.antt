-- ===== src/Contract/Room.antt =====
-- A put into a table that is not full.
use mem_sync.Base.{
  ℕ, suc, ◌+◌, ◌<◌, ◌≤◌, ◌≡◌, refl, inl, inr, Bool, true, false, some, List, [], ◌∷◌, arith, length,
  get_or, Bool-cases,
}
use mem_sync.Layout.{CacheEntry, Region, is_occupied}
use mem_sync.Table.View.{slot, find_entry}
use mem_sync.Table.Invariant.{IsValid, count_occupied}
use mem_sync.Table.Search.{HasNoPlace}
use mem_sync.Cache.{Item, PutCalls, store, find_counted, put_locked, cache_put_ttl}
use mem_sync.Cache.Put.{Stores}
use mem_sync.Cache.Put.Evict.{all_occupied}
use mem_sync.Cache.Put.Place.{find_counted-cases, counted-Stores}
use mem_sync.Contract.Access.{key_accepted, value_accepted}
use mem_sync.Cache.Store.{IsItem}

-- Fewer entries than slots leave a slot that is not occupied.
free_slot :
    (s : List CacheEntry)
    → count_occupied s < length s
    → (i : ℕ) × (i < length s) × (is_occupied (slot s i) ≡ false)
unfolding count_occupied get_or
free_slot [] h = absurd (omega arith)
free_slot (e ∷ s) h = elim (Bool-cases (is_occupied e)) [
  | inr free ↦ (0, omega arith, free)
  | inl taken ↦ let (i, lt, free) = free_slot s (ground arith) in (suc i, omega arith, free)
]

not-HasNoPlace :
    (r : Region) (item : Item)
    → IsItem item
    → IsValid r
    → r.header.entry_count < r.header.capacity
    → ¬ HasNoPlace r item.key
not-HasNoPlace r item ok v room full =
    let (i, lt, free) = free_slot r.slots (omega (arith, v.counted, v.table.sized)) in
    let taken = all_occupied item ok r v full i (omega (arith, v.table.sized)) in
    unfold is_occupied in ground arith

count-store :
    (r : Region) (x now : ℕ) (item : Item)
    → (store r x item now).header.entry_count ≤ r.header.entry_count + 1
unfolding store
count-store r x now item = ground arith

pub capacity-store :
    (r : Region) (x now : ℕ) (item : Item)
    → (store r x item now).header.capacity ≡ r.header.capacity
unfolding store
capacity-store r x now item = refl

-- What a put with room comes to.
pub record Keeps (r : Region) (item : Item) (now : ℕ) (result : Region × Bool) : Type 0 where
  pub done : result.1 ≡ true
  pub stores : Stores (λ q. find_entry q r.slots) item now result.0
  pub count : result.0.header.entry_count ≤ r.header.entry_count + 1
  pub capacity : result.0.header.capacity ≡ r.header.capacity

pub put_locked-Keeps :
    (r : Region) (item : Item) (calls : PutCalls)
    → IsItem item
    → IsValid r
    → r.header.entry_count < r.header.capacity
    → Keeps r item calls.write_time (put_locked r item calls)
unfolding put_locked
put_locked-Keeps r item calls ok v room = elim (find_counted-cases item ok r v) [
  | inr (e, full) ↦ absurd (not-HasNoPlace r item ok v room full)
  | inl (x, e, place) ↦
      rw (e, put_locked)
        (record {
          done = refl;
          stores = counted-Stores item ok r x calls.write_time v place;
          count =
              unfold find_counted in
              count-store (find_counted r item.key).1 x calls.write_time item;
          capacity =
              unfold find_counted in
              capacity-store (find_counted r item.key).1 x calls.write_time item;
        })
]

-- A put of a valid item into a well-formed table with fewer entries than slots, with the lock granted,
-- succeeds, stores the item, loses no other key, expired ones included, and raises the count of
-- entries by one at most.
pub cache_put_ttl-Keeps :
    (r : Region) (item : Item) (calls : PutCalls)
    → IsValid r
    → IsItem item
    → calls.locked ≡ true
    → r.header.entry_count < r.header.capacity
    → (r' : Region) × (done : Bool) × (cache_put_ttl
          (some r)
          (some item.key)
          (some item.value)
          item.ttl
          calls
        ≡ (some r', done))
      × Keeps r item calls.write_time (r', done)
unfolding cache_put_ttl
cache_put_ttl-Keeps r item calls v ok got room = (
  (put_locked r item calls).0,
  (put_locked r item calls).1,
  simp (key_accepted item ok, value_accepted item ok, got),
  put_locked-Keeps r item calls ok v room,
)
