-- ===== src/Table.antt =====
-- The internal functions of src/cache_engine.cpp that search and change the slots; they run under
-- the lock. A slot is named by its index. An `int32_t` index is an option: `none` is -1.
pub mod View
pub mod Keys
pub mod Invariant
pub mod Walk
pub mod Search
pub mod Collisions
pub mod Remove
pub mod Reclaim
pub mod Evict
use mem_sync.Base.{
  ℕ, zero, suc, ◌+◌, ◌-◌, ◌%◌, Bool, true, false, ◌&&◌, Option, none, some, set, ltb, leb,
  if◌then◌else◌, add32, add64,
}
use mem_sync.Hash.{hash_key}
use mem_sync.Layout.{empty, occupied, deleted, CacheEntry, Region, at, is_occupied, matches}
use mem_sync.Text.{Bytes}

unfoldable pub cache_entry_expired : CacheEntry → ℕ → Bool
cache_entry_expired entry now =
    ltb 0 entry.ttl_seconds
    && leb entry.timestamp now
    && leb entry.ttl_seconds (now - entry.timestamp)

-- `key[0] = '\0'` and `value[0] = '\0'` leave the other bytes of the buffers.
unfoldable pub removed : CacheEntry → CacheEntry
removed entry = record {
  state = deleted;
  key = set entry.key 0 0;
  value = set entry.value 0 0;
  timestamp = 0;
  ttl_seconds = 0;
}

unfoldable pub remove_entry : Region → ℕ → Region
unfolding removed
remove_entry r index =
    let count = r.header.entry_count in
    record {
      header = record r.header { entry_count = if ltb 0 count then count - 1 else count };
      slots = set r.slots index (removed (at r index));
    }

-- `(start_index + i) % header->capacity`
abbrev pub probe : ℕ → Bytes → ℕ → ℕ
probe capacity key i = add32 (hash_key key capacity) i % capacity

-- `first_deleted_idx` once `index` is found free.
abbrev pub keep_first : Option ℕ → ℕ → Option ℕ
keep_first none index = some index
keep_first (some first) index = some first

-- The loop from round `i` on with `n` rounds left: the index, and `*collision_count`.
unfoldable pub find_slot_from : Region → Bytes → ℕ → ℕ → Option ℕ → ℕ → Option ℕ × ℕ
find_slot_from r key zero i first_deleted collisions = (first_deleted, collisions)
find_slot_from r key (suc n) i first_deleted collisions =
    let count : ℕ = if ltb 0 i then add32 collisions 1 else collisions in
    let curr_index = probe r.header.capacity key i in
    let after = find_slot_from r key n (i + 1) in
    elim (at r curr_index).state [
      | empty ↦ (keep_first first_deleted curr_index, count)
      | deleted ↦ after (keep_first first_deleted curr_index) count
      | occupied ↦ elim (matches (at r curr_index) key) [
        | true ↦ (some curr_index, count)
        | false ↦ after first_deleted count
      ]
    ]

-- With `*collision_count` at 0, as at each call.
unfoldable pub find_slot_internal : Region → Bytes → Option ℕ × ℕ
unfolding find_slot_from
find_slot_internal r key = find_slot_from r key r.header.capacity 0 none 0

-- The loop of `evict_oldest_write` from slot `i` on: `oldest_idx` with `oldest_ts`.
unfoldable pub oldest_from : Region → ℕ → ℕ → Option (ℕ × ℕ) → Option (ℕ × ℕ)
oldest_from r zero i oldest = oldest
oldest_from r (suc n) i oldest =
    let entry = at r i in
    let older : Bool = elim oldest [ none ↦ true | some (_, ts) ↦ ltb entry.timestamp ts ] in
    oldest_from r n (i + 1)
      (if is_occupied entry && older then some (i, entry.timestamp) else oldest)

unfoldable pub evict_oldest_write : Region → Region × Bool
unfolding oldest_from remove_entry
evict_oldest_write r = elim (oldest_from r r.header.capacity 0 none) [
  | none ↦ (r, false)
  | some (index, _) ↦ (remove_entry r index, true)
]

-- The body of the loop of `reclaim_expired`.
unfoldable pub reclaim_slot : Region → ℕ → ℕ → Region
unfolding cache_entry_expired remove_entry is_occupied
reclaim_slot r now i =
    if is_occupied (at r i) && cache_entry_expired (at r i) now then remove_entry r i else r

unfoldable pub reclaim_from : Region → ℕ → ℕ → ℕ → Region
unfolding reclaim_slot
reclaim_from r now zero i = r
reclaim_from r now (suc n) i = reclaim_from (reclaim_slot r now i) now n (i + 1)

unfoldable pub reclaim_expired : Region → ℕ → Region
unfolding reclaim_from
reclaim_expired r now = reclaim_from r now r.header.capacity 0

unfoldable pub find_key_from : Region → Bytes → ℕ → ℕ → Option ℕ
find_key_from r key zero i = none
find_key_from r key (suc n) i =
    let curr_index = probe r.header.capacity key i in
    let after = find_key_from r key n (i + 1) in
    elim (at r curr_index).state [
      | empty ↦ none
      | _ ↦ if matches (at r curr_index) key then some curr_index else after
    ]

unfoldable pub find_key_locked : Region → Bytes → Option ℕ
unfolding find_key_from
find_key_locked r key = find_key_from r key r.header.capacity 0

unfoldable pub add_telemetry : Region → Bool → ℕ → Region
add_telemetry r found collisions =
    let header = r.header in
    let counted =
      if found
      then record header { total_hits = add64 header.total_hits 1 }
      else record header { total_misses = add64 header.total_misses 1 } in
    record r {
      header = record counted { total_collisions = add64 header.total_collisions collisions };
    }

-- `locked` is what `pthread_rwlock_wrlock` answers.
unfoldable pub add_get_metrics : Region → Bool → ℕ → Bool → Region × Bool
unfolding add_telemetry
add_get_metrics r found collisions locked =
    if locked then (add_telemetry r found collisions, true) else (r, false)
