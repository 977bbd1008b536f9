-- ===== src/Sharing/Kept.antt =====
-- No operation changes the layout fields of the header.
use mem_sync.Base.{
  ℕ, zero, suc, ◌+◌, ◌≡◌, refl, ◌∙◌, Bool, true, false, Option, none, some, List, arith,
}
use mem_sync.Layout.{Region}
use mem_sync.Table.{
  remove_entry, evict_oldest_write, reclaim_slot, reclaim_from, reclaim_expired, probe,
  add_get_metrics, add_telemetry,
}
use mem_sync.Cache.{
  Item, PutCalls, GetCalls, ReadResult, miss, live, expired, add_collisions, find_counted, store,
  put_evicted, put_reclaimed, put_locked, get_finish, remove_expired, remove_if_expired,
}
use mem_sync.Modify.{
  UpdateCalls, update_found, update_from, update_locked, delete_from, delete_locked, last_round,
}
use mem_sync.Text.{Bytes}

pub record SameLayout (r r' : Region) : Type 0 where
  pub magic : r'.header.magic ≡ r.header.magic
  pub version : r'.header.version ≡ r.header.version
  pub capacity : r'.header.capacity ≡ r.header.capacity
  pub offset : r'.header.data_offset ≡ r.header.data_offset

same : (r : Region) → SameLayout r r
same r = record { magic = refl; version = refl; capacity = refl; offset = refl }

trans : {r s t : Region} → SameLayout r s → SameLayout s t → SameLayout r t
trans a b = record {
  magic = b.magic ∙ a.magic;
  version = b.version ∙ a.version;
  capacity = b.capacity ∙ a.capacity;
  offset = b.offset ∙ a.offset;
}

remove_entry-SameLayout : (r : Region) (x : ℕ) → SameLayout r (remove_entry r x)
unfolding remove_entry
remove_entry-SameLayout r x = record {
  magic = refl;
  version = refl;
  capacity = refl;
  offset = refl;
}

add_collisions-SameLayout : (r : Region) (n : ℕ) → SameLayout r (add_collisions r n)
unfolding add_collisions
add_collisions-SameLayout r n = record {
  magic = refl;
  version = refl;
  capacity = refl;
  offset = refl;
}

store-SameLayout : (r : Region) (x now : ℕ) (item : Item) → SameLayout r (store r x item now)
unfolding store
store-SameLayout r x now item = record {
  magic = refl;
  version = refl;
  capacity = refl;
  offset = refl;
}

find_counted-SameLayout : (r : Region) (key : Bytes) → SameLayout r (find_counted r key).1
unfolding find_counted
find_counted-SameLayout r key = record {
  magic = refl;
  version = refl;
  capacity = refl;
  offset = refl;
}

evict-SameLayout : (r : Region) → SameLayout r (evict_oldest_write r).0
unfolding evict_oldest_write remove_entry
evict-SameLayout r = ground arith

reclaim_slot-SameLayout : (r : Region) (now i : ℕ) → SameLayout r (reclaim_slot r now i)
unfolding reclaim_slot remove_entry
reclaim_slot-SameLayout r now i = ground arith

reclaim_from-SameLayout : (r : Region) (now n i : ℕ) → SameLayout r (reclaim_from r now n i)
unfolding reclaim_from
reclaim_from-SameLayout r now zero i = same r
reclaim_from-SameLayout r now (suc n) i =
    trans (reclaim_slot-SameLayout r now i)
      (reclaim_from-SameLayout (reclaim_slot r now i) now n (i + 1))

reclaim_expired-SameLayout : (r : Region) (now : ℕ) → SameLayout r (reclaim_expired r now)
unfolding reclaim_expired
reclaim_expired-SameLayout r now = reclaim_from-SameLayout r now r.header.capacity 0

-- Both branches on an index keep the layout.
chosen :
    {r : Region} (o : Option ℕ) (none_left : Region × Bool) (found : ℕ → Region × Bool)
    → SameLayout r none_left.0
    → ((x : ℕ) → SameLayout r (found x).0)
    → SameLayout r (elim o as (λ _. Region × Bool) [ none ↦ none_left | some x ↦ found x ]).0
chosen none n f p q = p
chosen (some x) n f p q = q x

put_evicted-SameLayout :
    (p : Region × Bool) (item : Item) (calls : PutCalls)
    → SameLayout p.0 (put_evicted p item calls).0
unfolding put_evicted
put_evicted-SameLayout (r, false) item calls = same r
put_evicted-SameLayout (r, true) item calls =
    let (index, r') = find_counted r item.key in
    let counted = find_counted-SameLayout r item.key in
    chosen index _ _ counted (λ x. trans counted (store-SameLayout r' x calls.write_time item))

put_reclaimed-SameLayout :
    (r : Region) (item : Item) (calls : PutCalls) → SameLayout r (put_reclaimed r item calls).0
unfolding put_reclaimed
put_reclaimed-SameLayout r item calls =
    let (index, r') = find_counted r item.key in
    let counted = find_counted-SameLayout r item.key in
    chosen index _ _
      (trans (trans counted (evict-SameLayout r'))
        (put_evicted-SameLayout (evict_oldest_write r') item calls))
      (λ x. trans counted (store-SameLayout r' x calls.write_time item))

pub put_locked-SameLayout :
    (r : Region) (item : Item) (calls : PutCalls) → SameLayout r (put_locked r item calls).0
unfolding put_locked
put_locked-SameLayout r item calls =
    let (index, r') = find_counted r item.key in
    let counted = find_counted-SameLayout r item.key in
    chosen index _ _
      (trans (trans counted (reclaim_expired-SameLayout r' calls.reclaim_time))
        (put_reclaimed-SameLayout (reclaim_expired r' calls.reclaim_time) item calls))
      (λ x. trans counted (store-SameLayout r' x calls.write_time item))

update_found-SameLayout :
    (r : Region) (x : ℕ) (value : Bytes) (calls : UpdateCalls)
    → SameLayout r (update_found r x value calls).0
unfolding update_found remove_entry
update_found-SameLayout r x value calls = ground arith

update_from-SameLayout :
    (r : Region) (key value : Bytes) (calls : UpdateCalls) (n i : ℕ)
    → SameLayout r (update_from r key value calls n i).0
unfolding update_from
update_from-SameLayout r key value calls zero i = add_collisions-SameLayout r (last_round r)
update_from-SameLayout r key value calls (suc n) i = ground (
  arith,
  update_from-SameLayout r key value calls n (i + 1),
  add_collisions-SameLayout r i,
  update_found-SameLayout (add_collisions r i) (probe r.header.capacity key i) value calls,
)

pub update_locked-SameLayout :
    (r : Region) (key value : Bytes) (calls : UpdateCalls)
    → SameLayout r (update_locked r key value calls).0
unfolding update_locked
update_locked-SameLayout r key value calls =
    update_from-SameLayout r key value calls r.header.capacity 0

delete_from-SameLayout :
    (r : Region) (key : Bytes) (n i : ℕ) → SameLayout r (delete_from r key n i).0
unfolding delete_from
delete_from-SameLayout r key zero i = add_collisions-SameLayout r (last_round r)
delete_from-SameLayout r key (suc n) i = ground (
  arith,
  delete_from-SameLayout r key n (i + 1),
  add_collisions-SameLayout r i,
  remove_entry-SameLayout (add_collisions r i) (probe r.header.capacity key i),
)

pub delete_locked-SameLayout : (r : Region) (key : Bytes) → SameLayout r (delete_locked r key).0
unfolding delete_locked
delete_locked-SameLayout r key = delete_from-SameLayout r key r.header.capacity 0

metrics-SameLayout :
    (r : Region) (found : Bool) (n : ℕ) (locked : Bool)
    → SameLayout r (add_get_metrics r found n locked).0
unfolding add_get_metrics add_telemetry
metrics-SameLayout r found n locked = ground arith

remove_if_expired-SameLayout :
    (r : Region) (key : Bytes) (now : ℕ) → SameLayout r (remove_if_expired r key now)
unfolding remove_if_expired remove_entry
remove_if_expired-SameLayout r key now = ground arith

pub get_finish-SameLayout :
    (r : Region) (key : Bytes) (out : List ℕ) (read : ReadResult) (calls : GetCalls)
    → SameLayout r (get_finish r key out read calls).0
unfolding get_finish remove_expired
get_finish-SameLayout r key out (miss n) calls = metrics-SameLayout r false n calls.write_lock
get_finish-SameLayout r key out (live value ts n) calls =
    metrics-SameLayout r true n calls.write_lock
get_finish-SameLayout r key out (expired n) calls =
    ground (arith, remove_if_expired-SameLayout r key calls.remove_time)
