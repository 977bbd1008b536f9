-- ===== src/Modify.antt =====
-- `cache_update` and `cache_delete` of src/cache_engine.cpp, on the conventions of Cache.
pub mod Delete
pub mod Update
pub mod Revise
use mem_sync.Base.{
  ℕ, zero, suc, ◌+◌, ◌-◌, ◌%◌, Bool, true, false, ◌&&◌, Option, none, some, List, [], length,
  get_or, set, replicate, ltb, ◌==◌, if◌then◌else◌, u32_mod, add32, add64, not,
}
use mem_sync.Cache.{valid_key_argument, valid_value_argument, copy_string, add_collisions}
use mem_sync.Layout.{
  SlotState, empty, occupied, deleted, CacheHeader, CacheEntry, Region, at, write_slot, is_occupied,
  matches, max_key_len, max_val_len,
}
use mem_sync.Table.{cache_entry_expired, remove_entry, probe}
use mem_sync.Text.{Bytes, read_cstr, strncpy}

-- The lock's answer, and the two readings of the clock.
pub record UpdateCalls : Type 0 where
  pub locked : Bool
  pub check_time : ℕ
  pub write_time : ℕ

unfoldable pub refreshed : CacheEntry → Bytes → ℕ → CacheEntry
unfolding copy_string
refreshed entry value now = record entry {
  value = copy_string entry.value value max_val_len;
  timestamp = now;
}

-- The slot `index` stores the key.
unfoldable pub update_found : Region → ℕ → Bytes → UpdateCalls → Region × Bool
update_found r index value calls =
    let entry = at r index in
    if cache_entry_expired entry calls.check_time
    then (remove_entry r index, false)
    else (write_slot r index (refreshed entry value calls.write_time), true)

-- `header->capacity - 1`
abbrev pub last_round : Region → ℕ
last_round r = (r.header.capacity + u32_mod - 1) % u32_mod

unfoldable pub update_from : Region → Bytes → Bytes → UpdateCalls → ℕ → ℕ → Region × Bool
update_from r key value calls zero i = (add_collisions r (last_round r), false)
update_from r key value calls (suc n) i =
    let index = probe r.header.capacity key i in
    let after = update_from r key value calls n (i + 1) in
    elim (at r index).state [
      | empty ↦ (add_collisions r i, false)
      | _ ↦ elim (matches (at r index) key) [
        | true ↦ update_found (add_collisions r i) index value calls
        | false ↦ after
      ]
    ]

unfoldable pub update_locked : Region → Bytes → Bytes → UpdateCalls → Region × Bool
update_locked r key value calls = update_from r key value calls r.header.capacity 0

unfoldable pub cache_update :
    Option Region → Option Bytes → Option Bytes → UpdateCalls → Option Region × Bool
unfolding update_locked valid_key_argument valid_value_argument
cache_update none key value calls = (none, false)
cache_update (some r) none value calls = (some r, false)
cache_update (some r) (some key) none calls = (some r, false)
cache_update (some r) (some key) (some value) calls =
    if valid_key_argument (some key) && valid_value_argument (some value) && calls.locked
    then (let (r', done) = update_locked r key value calls in (some r', done))
    else (some r, false)

unfoldable pub delete_from : Region → Bytes → ℕ → ℕ → Region × Bool
delete_from r key zero i = (add_collisions r (last_round r), false)
delete_from r key (suc n) i =
    let index = probe r.header.capacity key i in
    let after = delete_from r key n (i + 1) in
    elim (at r index).state [
      | empty ↦ (add_collisions r i, false)
      | _ ↦ elim (matches (at r index) key) [
        | true ↦ (remove_entry (add_collisions r i) index, true)
        | false ↦ after
      ]
    ]

unfoldable pub delete_locked : Region → Bytes → Region × Bool
delete_locked r key = delete_from r key r.header.capacity 0

unfoldable pub cache_delete : Option Region → Option Bytes → Bool → Option Region × Bool
unfolding delete_locked valid_key_argument
cache_delete none key locked = (none, false)
cache_delete (some r) none locked = (some r, false)
cache_delete (some r) (some key) locked =
    if valid_key_argument (some key) && locked
    then (let (r', done) = delete_locked r key in (some r', done))
    else (some r, false)
