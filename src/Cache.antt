-- ===== src/Cache.antt =====
-- The cache operations of src/cache_engine.cpp. A null `shm_base`, key, value or output buffer is
-- `none`. What the environment answers (the lock calls, the readings of `std::time`, and what other
-- processes do to the region while no lock is held) is an argument. Failed lock calls also print to
-- the error stream, which is not modelled.
pub mod Store
pub mod Put
pub mod Get
use mem_sync.Base.{
  ℕ, zero, suc, ◌+◌, ◌-◌, ◌%◌, Bool, true, false, ◌&&◌, Option, none, some, List, [], length,
  get_or, set, replicate, ltb, ◌==◌, if◌then◌else◌, u32_mod, add32, add64, not,
}
use mem_sync.Layout.{
  SlotState, empty, occupied, deleted, CacheHeader, CacheEntry, Region, at, write_slot, is_occupied,
  matches, max_key_len, max_val_len,
}
use mem_sync.Table.{
  cache_entry_expired, remove_entry, probe, find_slot_internal, evict_oldest_write, reclaim_expired,
  find_key_locked, add_get_metrics,
}
use mem_sync.Text.{Bytes, read_cstr, strncpy}

unfoldable pub valid_key_argument : Option Bytes → Bool
valid_key_argument none = false
valid_key_argument (some key) = ltb 0 (length key) && ltb (length key) max_key_len

unfoldable pub valid_value_argument : Option Bytes → Bool
valid_value_argument none = false
valid_value_argument (some value) = ltb (length value) max_val_len

-- `std::strncpy(buf, s, size - 1)` and `buf[size - 1] = '\0'`.
unfoldable pub copy_string : List ℕ → Bytes → ℕ → List ℕ
copy_string buf s size = set (strncpy buf s (size - 1)) (size - 1) 0

-- `header->total_collisions += n`
unfoldable pub add_collisions : Region → ℕ → Region
add_collisions r n = record r {
  header = record r.header { total_collisions = add64 r.header.total_collisions n };
}

-- `locked` is what `pthread_rwlock_rdlock` answers.
unfoldable pub find_slot : Option Region → Option Bytes → Bool → Option ℕ
unfolding valid_key_argument
find_slot none key locked = none
find_slot (some r) none locked = none
find_slot (some r) (some key) locked =
    if valid_key_argument (some key) && locked then (find_slot_internal r key).0 else none

-- What `cache_put_ttl` is asked to store.
pub record Item : Type 0 where
  pub key : Bytes
  pub value : Bytes
  pub ttl : ℕ

-- The lock's answer, and the two readings of the clock.
pub record PutCalls : Type 0 where
  pub locked : Bool
  pub reclaim_time : ℕ
  pub write_time : ℕ

-- The entry that is written over `old`.
unfoldable pub stored : CacheEntry → Item → ℕ → CacheEntry
unfolding copy_string
stored old item now = record {
  state = occupied;
  key = copy_string old.key item.key max_key_len;
  value = copy_string old.value item.value max_val_len;
  timestamp = now;
  ttl_seconds = item.ttl;
}

-- The write to the slot that was chosen.
unfoldable pub store : Region → ℕ → Item → ℕ → Region
unfolding stored is_occupied
store r index item now =
    let count = r.header.entry_count in
    record {
      header = record r.header {
        entry_count = if is_occupied (at r index) then count else add32 count 1;
      };
      slots = set r.slots index (stored (at r index) item now);
    }

-- A search, with its collisions counted.
unfoldable pub find_counted : Region → Bytes → Option ℕ × Region
unfolding add_collisions
find_counted r key =
    let (index, collisions) = find_slot_internal r key in (index, add_collisions r collisions)

-- The third search, after an eviction.
unfoldable pub put_evicted : Region × Bool → Item → PutCalls → Region × Bool
put_evicted (r, false) item calls = (r, false)
put_evicted (r, true) item calls =
    let (index, r') = find_counted r item.key in
    elim index [ none ↦ (r', false) | some x ↦ (store r' x item calls.write_time, true) ]

-- The second search, after `reclaim_expired`.
unfoldable pub put_reclaimed : Region → Item → PutCalls → Region × Bool
put_reclaimed r item calls =
    let (index, r') = find_counted r item.key in
    elim index [
      | none ↦ put_evicted (evict_oldest_write r') item calls
      | some x ↦ (store r' x item calls.write_time, true)
    ]

-- What runs between `lock_for_write` and `unlock_cache`.
unfoldable pub put_locked : Region → Item → PutCalls → Region × Bool
put_locked r item calls =
    let (index, r') = find_counted r item.key in
    elim index [
      | none ↦ put_reclaimed (reclaim_expired r' calls.reclaim_time) item calls
      | some x ↦ (store r' x item calls.write_time, true)
    ]

unfoldable pub cache_put_ttl :
    Option Region → Option Bytes → Option Bytes → ℕ → PutCalls → Option Region × Bool
unfolding put_locked valid_key_argument valid_value_argument
cache_put_ttl none key value ttl calls = (none, false)
cache_put_ttl (some r) none value ttl calls = (some r, false)
cache_put_ttl (some r) (some key) none ttl calls = (some r, false)
cache_put_ttl (some r) (some key) (some value) ttl calls =
    if valid_key_argument (some key) && valid_value_argument (some value) && calls.locked
    then (let (r', done) = put_locked r (record { key = key; value = value; ttl = ttl }) calls in
        (some r', done))
    else (some r, false)

unfoldable pub cache_put :
    Option Region → Option Bytes → Option Bytes → PutCalls → Option Region × Bool
unfolding cache_put_ttl
cache_put base key value calls = cache_put_ttl base key value 0 calls

-- What the first critical section of `cache_get` finds, with its collisions.
pub data ReadResult : Type 0 where
  miss : ℕ → ReadResult
  live : List ℕ → ℕ → ℕ → ReadResult  -- value_copy, timestamp_copy, collisions
  expired : ℕ → ReadResult

-- `value_copy`: every byte of the buffer is written, so what it held before does not matter.
unfoldable pub value_copy : CacheEntry → List ℕ
unfolding copy_string
value_copy entry = copy_string (replicate max_val_len 0) (read_cstr entry.value) max_val_len

-- The loop from round `i` on with `n` rounds left.
unfoldable pub read_from : Region → Bytes → ℕ → ℕ → ℕ → ℕ → ReadResult
read_from r key now zero i collisions = miss collisions
read_from r key now (suc n) i collisions =
    let count : ℕ = if ltb 0 i then add32 collisions 1 else collisions in
    let entry = at r (probe r.header.capacity key i) in
    let after = read_from r key now n (i + 1) count in
    elim entry.state [
      | empty ↦ miss count
      | _ ↦ elim (matches entry key) [
        | true ↦
            if cache_entry_expired entry now
            then expired count
            else live (value_copy entry) entry.timestamp count
        | false ↦ after
      ]
    ]

unfoldable pub read_locked : Region → Bytes → ℕ → ReadResult
read_locked r key now = read_from r key now r.header.capacity 0 0

-- The lock's two answers, the two readings of the clock, and what other processes make of the
-- region between the two critical sections.
pub record GetCalls : Type 0 where
  pub read_lock : Bool
  pub read_time : ℕ
  pub between : Region → Region
  pub write_lock : Bool
  pub remove_time : ℕ

-- The search of the second critical section, and the removal if the entry is still expired.
unfoldable pub remove_if_expired : Region → Bytes → ℕ → Region
remove_if_expired r key now = elim (find_key_locked r key) [
  | none ↦ r
  | some index ↦ if cache_entry_expired (at r index) now then remove_entry r index else r
]

-- The second critical section after an expired entry was read.
unfoldable pub remove_expired : Region → Bytes → ℕ → ℕ → Region
remove_expired r key collisions now =
    let cleaned = remove_if_expired r key now in
    record cleaned {
      header = record cleaned.header {
        total_misses = add64 cleaned.header.total_misses 1;
        total_collisions = add64 cleaned.header.total_collisions collisions;
      };
    }

-- What follows the first `unlock_cache`: the region, and `out_value` with `*out_timestamp` if the
-- call returns true.
unfoldable pub get_finish :
    Region → Bytes → List ℕ → ReadResult → GetCalls → Region × Option (List ℕ × ℕ)
get_finish r key out (miss n) calls = ((add_get_metrics r false n calls.write_lock).0, none)
get_finish r key out (live value ts n) calls = (
  (add_get_metrics r true n calls.write_lock).0,
  some (copy_string out (read_cstr value) max_val_len, ts),
)
get_finish r key out (expired n) calls =
    (if calls.write_lock then remove_expired r key n calls.remove_time else r, none)

-- `out_value` is the caller's buffer. A null `out_timestamp` drops the second result.
unfoldable pub cache_get :
    Option Region → Option Bytes → Option (List ℕ) → GetCalls → Option Region × Option (List ℕ × ℕ)
unfolding read_locked get_finish valid_key_argument
cache_get none key out calls = (none, none)
cache_get (some r) none out calls = (some r, none)
cache_get (some r) (some key) none calls = (some r, none)
cache_get (some r) (some key) (some out) calls =
    if valid_key_argument (some key) && calls.read_lock
    then (let (r', result) =
          get_finish (calls.between r) key out (read_locked r key calls.read_time) calls in
        (some r', result))
    else (some r, none)
