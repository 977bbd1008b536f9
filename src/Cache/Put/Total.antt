-- ===== src/Cache/Put/Total.antt =====
-- The whole of a put under the lock.
use mem_sync.Base.{◌≡◌, refl, inl, inr, true}
use mem_sync.Layout.{Region}
use mem_sync.Table.Invariant.{IsValid}
use mem_sync.Cache.{Item, PutCalls, find_counted, put_locked}
use mem_sync.Cache.Store.{IsItem}
use mem_sync.Cache.Put.{Kept, in_place, reclaimed, evicted}
use mem_sync.Cache.Put.Place.{
  find_counted-cases, counted-IsValid, counted-Stores, counted-HasNoPlace,
}
use mem_sync.Cache.Put.Sweep.{after_sweep}

module _ (item : Item) (ok : IsItem item) where
  counted-Kept :
      (r r' : Region) (calls : PutCalls)
      → Kept (find_counted r item.key).1 item calls r'
      → Kept r item calls r'
  unfolding find_counted
  counted-Kept r r' calls (in_place x p s) = in_place x p s
  counted-Kept r r' calls (reclaimed n j s) = reclaimed n j s
  counted-Kept r r' calls (evicted n f x o s) = evicted n f x o s

  -- A put under the lock stores the item, whatever the table holds.
  pub put_locked-Kept :
      (r : Region) (calls : PutCalls)
      → IsValid r
      → ((put_locked r item calls).1 ≡ true) × Kept r item calls (put_locked r item calls).0
  unfolding put_locked
  put_locked-Kept r calls v = elim (find_counted-cases item ok r v) [
    | inl (x, e, place) ↦
        rw (e, put_locked)
          (refl, in_place x place (counted-Stores item ok r x calls.write_time v place))
    | inr (e, none_left) ↦
        rw (e, put_locked)
          (let (done, kept) =
              after_sweep item ok (find_counted r item.key).1 calls (counted-IsValid item ok r v)
                (counted-HasNoPlace item ok r none_left) in
            (done, counted-Kept r _ calls kept))
  ]
