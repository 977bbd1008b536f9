-- ===== src/Tests/Runs.antt =====
-- The operations by evaluation.
use mem_sync.Base.{ℕ, ◌≡◌, refl, true, Option, none, some, List, replicate, get_or, set}
use mem_sync.Layout.{
  valid_capacity, cache_init_lock, cache_initialize_region, cache_validate_layout,
  validate_ready_header, is_occupied, matches,
}
use mem_sync.Hash.{hash_key}
use mem_sync.Table.{
  cache_entry_expired, remove_entry, find_slot_from, find_slot_internal, oldest_from,
  evict_oldest_write, reclaim_slot, reclaim_from, reclaim_expired, find_key_from, find_key_locked,
  add_telemetry, add_get_metrics,
}
use mem_sync.Cache.{
  valid_key_argument, valid_value_argument, copy_string, add_collisions, find_slot, stored, store,
  find_counted, put_evicted, put_reclaimed, put_locked, cache_put_ttl, cache_put, value_copy,
  read_from, read_locked, remove_if_expired, remove_expired, get_finish, cache_get,
}
use mem_sync.Modify.{
  refreshed, update_found, update_from, update_locked, cache_update, delete_from, delete_locked,
  cache_delete,
}
use mem_sync.Text.{Bytes, read_cstr, strncpy, strcmp_eq}
use mem_sync.Tests.{
  lock_size, size, empty_region, lock_works, item_a, item_d, put_at, get_at, one_entry, two_entries,
}

unfoldable pub program : Unit {0}
unfolding replicate get_or set valid_capacity cache_init_lock cache_initialize_region
    cache_validate_layout validate_ready_header is_occupied matches hash_key cache_entry_expired
    remove_entry find_slot_from find_slot_internal oldest_from evict_oldest_write reclaim_slot
    reclaim_from reclaim_expired find_key_from find_key_locked add_telemetry add_get_metrics
    valid_key_argument valid_value_argument copy_string add_collisions find_slot stored store
    find_counted put_evicted put_reclaimed put_locked cache_put_ttl cache_put value_copy read_from
    read_locked remove_if_expired remove_expired get_finish cache_get refreshed update_found
    update_from update_locked cache_update delete_from delete_locked cache_delete read_cstr strncpy
    strcmp_eq
program = tt

-- The initialisation makes the table of two slots.
pub makes_two_slots :
    cache_initialize_region lock_size (some two_entries) size 2 lock_works
    ≡ (some empty_region, true)
unfolding program
makes_two_slots = refl

abbrev text_of : Option (List ℕ × ℕ) → Option (Bytes × ℕ)
text_of none = none
text_of (some (buf, ts)) = some (read_cstr buf, ts)

abbrev out : List ℕ
out = replicate 256 7

-- A hit before the end of the duration, a miss at its end.
get_a_at_104 :
    text_of (cache_get (some one_entry) (some item_a.key) (some out) (get_at 104)).1
    ≡ some (item_a.value, 100)
unfolding program
get_a_at_104 = refl

get_a_at_105 :
    text_of (cache_get (some one_entry) (some item_a.key) (some out) (get_at 105)).1 ≡ none
unfolding program
get_a_at_105 = refl

-- A third key in the full table: "a" is not expired at 104 and is evicted as the oldest.
evicts_a :
    (cache_get
      (some (put_locked two_entries item_d (put_at 104)).0)
      (some item_a.key)
      (some out)
      (get_at 104)).1
    ≡ none
unfolding program
evicts_a = refl

-- The second key of one home takes a further slot.
collides : (two_entries.header.total_collisions ≡ 1) × (two_entries.header.entry_count ≡ 2)
unfolding program
collides = (refl, refl)
