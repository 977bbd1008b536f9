-- ===== src/Contract/Access.antt =====
-- The operations with valid arguments and the lock granted, on a well-formed region.
use mem_sync.Base.{ℕ, ◌<◌, ◌≡◌, ap, ◌∙◌, lt→ltb, Bool, true, some, List, arith, length}
use mem_sync.Layout.{CacheEntry, Region, max_val_len}
use mem_sync.Table.View.{find_entry}
use mem_sync.Table.Invariant.{IsValid}
use mem_sync.Table.Search.{Located, find_slot_internal-Located}
use mem_sync.Cache.{
  Item, PutCalls, GetCalls, valid_key_argument, valid_value_argument, cache_put_ttl, cache_get,
  find_slot, read_locked, put_locked, get_finish,
}
use mem_sync.Modify.{UpdateCalls, cache_update, cache_delete, update_locked, delete_locked}
use mem_sync.Cache.Store.{IsItem}
use mem_sync.Cache.Put.{Kept, Holds, in_place, reclaimed, evicted}
use mem_sync.Cache.Put.Total.{put_locked-Kept}
use mem_sync.Cache.Get.Finish.{Returns, Finishes, get_finish-Returns, get_finish-Finishes}
use mem_sync.Modify.Revise.{Updates, Updated-Updates}
use mem_sync.Modify.Update.{update_locked-Updated}
use mem_sync.Modify.Delete.{Deleted, delete_locked-Deleted}
use mem_sync.Text.{Bytes, IsCString}

pub key_accepted : (item : Item) → IsItem item → valid_key_argument (some item.key) ≡ true
unfolding valid_key_argument
key_accepted item ok = ground (arith, ok.named, ok.key_short)

pub value_accepted : (item : Item) → IsItem item → valid_value_argument (some item.value) ≡ true
unfolding valid_value_argument
value_accepted item ok = ground (arith, ok.value_short)

-- A put of a valid item with the lock granted succeeds whatever a well-formed region holds. The item is then stored with
-- the time of the write and its duration, the region is well formed, and of the other keys are lost:
-- none if there was a place for the key; else the expired entries; and if every slot on the key's way
-- was occupied and none was expired, the entry with the oldest time, the first such by index.
pub cache_put_ttl-Kept :
    (r : Region) (item : Item) (calls : PutCalls)
    → IsValid r
    → IsItem item
    → calls.locked ≡ true
    → (r' : Region) × (cache_put_ttl (some r) (some item.key) (some item.value) item.ttl calls
        ≡ (some r', true))
      × Kept r item calls r'
unfolding cache_put_ttl
cache_put_ttl-Kept r item calls v ok got =
    let (done, kept) = put_locked-Kept item ok r calls v in
    let result = put_locked r item calls in
    let run : cache_put_ttl (some r) (some item.key) (some item.value) item.ttl calls
        ≡ (some result.0, result.1) =
      simp (key_accepted item ok, value_accepted item ok, got) in
    (result.0, run ∙ ap (λ (b : Bool). (some result.0, b)) done, kept)

-- What every put that succeeds has in common.
pub Kept-entry :
    (r : Region) (item : Item) (calls : PutCalls) (r' : Region)
    → Kept r item calls r'
    → IsValid r'
      × ((e : CacheEntry) × (find_entry item.key r'.slots ≡ some e) × Holds item calls.write_time e)
Kept-entry r item calls r' (in_place x p s) = (s.valid, s.entry)
Kept-entry r item calls r' (reclaimed n j s) = (s.valid, s.entry)
Kept-entry r item calls r' (evicted n f x o s) = (s.valid, s.entry)

module _ (r : Region) (key : Bytes) (v : IsValid r)
    (ok : valid_key_argument (some key) ≡ true) where
  -- A get of a valid key, with a buffer of 256 bytes and the read lock granted, returns exactly what is
  -- stored under the key in a well-formed region and not expired at the time of the read, whatever
  -- other processes do between its critical sections.
  pub cache_get-Returns :
      (out : List ℕ) (calls : GetCalls)
      → calls.read_lock ≡ true
      → length out ≡ max_val_len
      → Returns calls.read_time
          (find_entry key r.slots)
          (cache_get (some r) (some key) (some out) calls).1
  unfolding cache_get
  cache_get-Returns out calls got sized =
      simp (ok, got) (get_finish-Returns r (calls.between r) key out calls v sized)

  -- With a valid key and the read lock granted, the region after a get is the one that other processes left, if that is well formed, less the
  -- key's entry if the get read an expired one, has the second lock and finds it expired still; with
  -- the second lock one hit or miss is counted.
  pub cache_get-Finishes :
      (out : List ℕ) (calls : GetCalls)
      → calls.read_lock ≡ true
      → IsValid (calls.between r)
      → (r' : Region) × ((cache_get (some r) (some key) (some out) calls).0 ≡ some r')
        × Finishes (calls.between r) key (read_locked r key calls.read_time) calls r'
  unfolding cache_get
  cache_get-Finishes out calls got w =
      let read = read_locked r key calls.read_time in
      (
        (get_finish (calls.between r) key out read calls).0,
        (simp (ok, got)),
        get_finish-Finishes (calls.between r) key out read calls w,
      )

  -- An update of a valid key in a well-formed region, with a value of at most 255 bytes and the lock
  -- granted: an entry that is expired at the time of the check goes, and another one holds the new value and the time of the write and
  -- keeps its key and duration. No other key changes, and it succeeds exactly if the key is stored
  -- afterwards; a key that was not stored is not stored afterwards.
  pub cache_update-Updates :
      (value : Bytes) (calls : UpdateCalls)
      → length value < max_val_len
      → IsCString value
      → calls.locked ≡ true
      → (r' : Region) × (done : Bool) × (cache_update (some r) (some key) (some value) calls
          ≡ (some r', done))
        × Updates r key value calls (r', done)
  unfolding cache_update
  cache_update-Updates value calls short string got =
      let p = update_locked r key value calls in
      let accepted : valid_value_argument (some value) ≡ true =
        unfold valid_value_argument in lt→ltb (length value) 256 short in
      (
        p.0,
        p.1,
        rw (ok, accepted, got),
        Updated-Updates r key value calls p v short string
            (update_locked-Updated r key value calls v),
      )

  -- With the lock granted, a delete of a valid key from a well-formed region removes the key and no
  -- other, and returns true exactly if the key was stored, expired or not.
  pub cache_delete-Deleted :
      (r' : Region) × (done : Bool) × (cache_delete (some r) (some key) true ≡ (some r', done))
      × Deleted r key (r', done)
  unfolding cache_delete
  cache_delete-Deleted =
      ((delete_locked r key).0, (delete_locked r key).1, rw ok, delete_locked-Deleted r key v)

  -- With a valid key and the lock granted, the slot lookup answers with the slot that stores the key; for a key that is not stored with a
  -- free slot on its way, and with none only if every slot is in use.
  pub find_slot-Located : Located r key (find_slot (some r) (some key) true)
  unfolding find_slot
  find_slot-Located = rw ok (find_slot_internal-Located r key v.table)
