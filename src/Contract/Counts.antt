-- ===== src/Contract/Counts.antt =====
-- Only a put raises the number of entries.
use mem_sync.Base.{ℕ, zero, suc, ◌+◌, ◌≤◌, ◌≡◌, Bool, true, false, List, arith}
use mem_sync.Layout.{Region}
use mem_sync.Table.{remove_entry, probe, add_get_metrics, add_telemetry}
use mem_sync.Cache.{
  GetCalls, ReadResult, miss, live, expired, add_collisions, get_finish, remove_expired,
  remove_if_expired,
}
use mem_sync.Modify.{
  UpdateCalls, update_found, update_from, update_locked, delete_from, delete_locked, last_round,
}
use mem_sync.Text.{Bytes}

-- No more entries, and as many slots.
pub record HasNoMore (r r' : Region) : Type 0 where
  pub count : r'.header.entry_count ≤ r.header.entry_count
  pub capacity : r'.header.capacity ≡ r.header.capacity

remove_entry-HasNoMore : (r : Region) (x : ℕ) → HasNoMore r (remove_entry r x)
unfolding remove_entry
remove_entry-HasNoMore r x = ground arith

add_collisions-HasNoMore : (r : Region) (n : ℕ) → HasNoMore r (add_collisions r n)
unfolding add_collisions
add_collisions-HasNoMore r n = ground arith

update_found-HasNoMore :
    (r : Region) (x : ℕ) (value : Bytes) (calls : UpdateCalls)
    → HasNoMore r (update_found r x value calls).0
unfolding update_found
update_found-HasNoMore r x value calls = ground (arith, remove_entry-HasNoMore r x)

update_from-HasNoMore :
    (r : Region) (key value : Bytes) (calls : UpdateCalls) (n i : ℕ)
    → HasNoMore r (update_from r key value calls n i).0
unfolding update_from
update_from-HasNoMore r key value calls zero i = add_collisions-HasNoMore r (last_round r)
update_from-HasNoMore r key value calls (suc n) i = ground (
  arith,
  update_from-HasNoMore r key value calls n (i + 1),
  add_collisions-HasNoMore r i,
  update_found-HasNoMore (add_collisions r i) (probe r.header.capacity key i) value calls,
)

pub update_locked-HasNoMore :
    (r : Region) (key value : Bytes) (calls : UpdateCalls)
    → HasNoMore r (update_locked r key value calls).0
unfolding update_locked
update_locked-HasNoMore r key value calls =
    update_from-HasNoMore r key value calls r.header.capacity 0

delete_from-HasNoMore : (r : Region) (key : Bytes) (n i : ℕ) → HasNoMore r (delete_from r key n i).0
unfolding delete_from
delete_from-HasNoMore r key zero i = add_collisions-HasNoMore r (last_round r)
delete_from-HasNoMore r key (suc n) i = ground (
  arith,
  delete_from-HasNoMore r key n (i + 1),
  add_collisions-HasNoMore r i,
  remove_entry-HasNoMore (add_collisions r i) (probe r.header.capacity key i),
)

pub delete_locked-HasNoMore : (r : Region) (key : Bytes) → HasNoMore r (delete_locked r key).0
unfolding delete_locked
delete_locked-HasNoMore r key = delete_from-HasNoMore r key r.header.capacity 0

metrics-HasNoMore :
    (r : Region) (found : Bool) (n : ℕ) (locked : Bool)
    → HasNoMore r (add_get_metrics r found n locked).0
unfolding add_get_metrics add_telemetry
metrics-HasNoMore r found n locked = ground arith

remove_if_expired-HasNoMore :
    (r : Region) (key : Bytes) (now : ℕ) → HasNoMore r (remove_if_expired r key now)
unfolding remove_if_expired remove_entry
remove_if_expired-HasNoMore r key now = ground arith

pub get_finish-HasNoMore :
    (r : Region) (key : Bytes) (out : List ℕ) (read : ReadResult) (calls : GetCalls)
    → HasNoMore r (get_finish r key out read calls).0
unfolding get_finish remove_expired
get_finish-HasNoMore r key out (miss n) calls = metrics-HasNoMore r false n calls.write_lock
get_finish-HasNoMore r key out (live value ts n) calls = metrics-HasNoMore r true n calls.write_lock
get_finish-HasNoMore r key out (expired n) calls =
    ground (arith, remove_if_expired-HasNoMore r key calls.remove_time)
