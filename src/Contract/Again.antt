-- ===== src/Contract/Again.antt =====
-- A put of a key that is stored.
use mem_sync.Base.{ℕ, ◌≡◌, refl, ap, ◌∙◌, fun_ext, inl, inr, Bool, true, some, arith, Option-cases}
use mem_sync.Layout.{CacheEntry, Region, is_occupied, at}
use mem_sync.Table.View.{find_entry, is_occupied_of_matches}
use mem_sync.Table.Invariant.{IsValid}
use mem_sync.Cache.{Item, PutCalls, store, find_counted, put_locked, cache_put_ttl}
use mem_sync.Cache.Put.{Stores}
use mem_sync.Cache.Put.Place.{find_counted-cases, counted-Stores}
use mem_sync.Cache.Store.{IsItem}
use mem_sync.Contract.Access.{key_accepted, value_accepted}
use mem_sync.Contract.Room.{capacity-store}
use mem_sync.Contract.Reference.{Represents, with_cell, item_cell, put_cells}
use mem_sync.Sharing.View.{cell_of, view}
use mem_sync.Spec.{Cell, Map}

count-store_taken :
    (r : Region) (x now : ℕ) (item : Item)
    → is_occupied (at r x) ≡ true
    → (store r x item now).header.entry_count ≡ r.header.entry_count
unfolding store
count-store_taken r x now item h = rw h refl

-- What a put of a stored key comes to.
pub record Replaces (r : Region) (item : Item) (now : ℕ) (result : Region × Bool) : Type 0 where
  pub done : result.1 ≡ true
  pub stores : Stores (λ q. find_entry q r.slots) item now result.0
  pub count : result.0.header.entry_count ≡ r.header.entry_count
  pub capacity : result.0.header.capacity ≡ r.header.capacity

pub put_locked-Replaces :
    (r : Region) (item : Item) (calls : PutCalls) (e : CacheEntry)
    → IsItem item
    → IsValid r
    → find_entry item.key r.slots ≡ some e
    → Replaces r item calls.write_time (put_locked r item calls)
unfolding put_locked
put_locked-Replaces r item calls entry ok v stored = elim (find_counted-cases item ok r v) [
  | inr (e, full) ↦ absurd (let gone = full.0 in cc)
  | inl (x, e, place) ↦
      let taken : is_occupied (at r x) ≡ true = elim place.4 [
        | inl same ↦ is_occupied_of_matches (at r x) item.key same
        | inr (free, missing) ↦ absurd cc
      ] in
      rw (e, put_locked)
        (record {
          done = refl;
          stores = counted-Stores item ok r x calls.write_time v place;
          count =
              unfold find_counted in
              count-store_taken (find_counted r item.key).1 x calls.write_time item taken;
          capacity =
              unfold find_counted in
              capacity-store (find_counted r item.key).1 x calls.write_time item;
        })
]

-- A put of a key that is stored succeeds however full the table is: the item is stored in the place
-- of the old one, nothing else changes, and the number of entries stays.
pub put_again-Represents :
    (r : Region) (capacity n : ℕ) (m : Map) (c : Cell) (item : Item) (calls : PutCalls)
    → Represents r capacity n m
    → m item.key ≡ some c
    → IsItem item
    → calls.locked ≡ true
    → (r' : Region) × (cache_put_ttl (some r) (some item.key) (some item.value) item.ttl calls
        ≡ (some r', true))
      × Represents r' capacity n (with_cell item.key (some (item_cell item calls.write_time)) m)
unfolding cache_put_ttl
put_again-Represents r capacity n m c item calls h there ok got =
    let shows : view r item.key ≡ some c = ap (λ (f : Map). f item.key) h.cells ∙ there in
    elim (Option-cases (find_entry item.key r.slots)) [
      | inl missing ↦ absurd (let e = ap cell_of missing in cc)
      | inr (e, found) ↦
          let k = put_locked-Replaces r item calls e ok h.valid found in
          let p = put_locked r item calls in
          let run : cache_put_ttl (some r) (some item.key) (some item.value) item.ttl calls
              ≡ (some p.0, p.1) =
            simp (key_accepted item ok, value_accepted item ok, got) in
          (
            p.0,
            run ∙ ap (λ (b : Bool). (some p.0, b)) k.done,
            record {
              valid = k.stores.valid;
              slots = k.capacity ∙ h.slots;
              count = omega (arith, k.count, h.count);
              cells = fun_ext (λ q.
                  put_cells r (put_locked r item calls).0 item calls.write_time m h.cells k.stores
                    q);
            },
          )
    ]
