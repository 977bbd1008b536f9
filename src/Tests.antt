-- ===== src/Tests.antt =====
-- A table of two slots, on which the operations run.
pub mod Runs
pub mod Operations
pub mod Lifecycle
pub mod Benchmarks
pub mod Maps
pub mod Demos
pub mod Sockets
pub mod Rounds
pub mod Managers
pub mod Commands
pub mod Tables
pub mod Regions
use mem_sync.Base.{
  ℕ, ◌+◌, ◌*◌, ◌^◌, ◌≤◌, ◌≡◌, refl, Bool, true, false, Option, none, some, List, [], ◌∷◌, arith,
  replicate,
}
use mem_sync.Layout.{Region, LockCalls, blank, cache_magic, cache_version}
use mem_sync.Layout.Init.{blank-IsTable, count_occupied-replicate}
use mem_sync.Table.Invariant.{IsValid}
use mem_sync.Cache.{Item, PutCalls, GetCalls, put_locked}
use mem_sync.Modify.{UpdateCalls}
use mem_sync.Cache.Store.{IsItem}
use mem_sync.Cache.Put.Total.{put_locked-Kept}
use mem_sync.Contract.Access.{Kept-entry}
use mem_sync.Text.{Bytes}

-- The size of a `pthread_rwlock_t` under glibc on x86-64.
abbrev pub lock_size : ℕ
lock_size = 56

abbrev pub size : ℕ
size = 104 + 2 * 344

abbrev pub empty_region : Region
empty_region = record {
  header = record {
    magic = cache_magic;
    version = cache_version;
    capacity = 2;
    entry_count = 0;
    data_offset = 104;
    total_hits = 0;
    total_misses = 0;
    total_collisions = 0;
  };
  slots = replicate 2 blank;
}

pub empty_region-IsValid : IsValid empty_region
empty_region-IsValid = record {
  table = blank-IsTable 2 (omega arith) (omega arith);
  counted = count_occupied-replicate 2;
}

abbrev pub lock_works : LockCalls
lock_works = record { attr_init = 0; attr_setpshared = 0; rwlock_init = 0 }

-- "a" and "c" share a home slot of two.
abbrev pub item_a : Item
item_a = record { key = b'a' ∷ []; value = b'x' ∷ b'y' ∷ []; ttl = 5 }

abbrev pub item_c : Item
item_c = record { key = b'c' ∷ []; value = []; ttl = 0 }

abbrev pub item_d : Item
item_d = record { key = b'd' ∷ []; value = b'z' ∷ []; ttl = 0 }

pub item_a-IsItem : IsItem item_a
item_a-IsItem = omega arith

pub item_c-IsItem : IsItem item_c
item_c-IsItem = omega arith

pub item_d-IsItem : IsItem item_d
item_d-IsItem = omega arith

abbrev pub put_at : ℕ → PutCalls
put_at now = record { locked = true; reclaim_time = now; write_time = now }

-- A get at a time, with no other process in between.
abbrev pub get_at : ℕ → GetCalls
get_at now = record {
  read_lock = true;
  read_time = now;
  between = λ r. r;
  write_lock = true;
  remove_time = now;
}

abbrev pub update_time : ℕ → UpdateCalls
update_time now = record { locked = true; check_time = now; write_time = now }

-- With "a" stored at 100 for 5 seconds, and then "c" at 101 for ever.
abbrev pub one_entry : Region
one_entry = (put_locked empty_region item_a (put_at 100)).0

abbrev pub two_entries : Region
two_entries = (put_locked one_entry item_c (put_at 101)).0

pub one_entry-IsValid : IsValid one_entry
one_entry-IsValid =
    (Kept-entry empty_region item_a (put_at 100) one_entry
      (put_locked-Kept item_a item_a-IsItem empty_region (put_at 100) empty_region-IsValid).1).0

pub two_entries-IsValid : IsValid two_entries
two_entries-IsValid =
    (Kept-entry one_entry item_c (put_at 101) two_entries
      (put_locked-Kept item_c item_c-IsItem one_entry (put_at 101) one_entry-IsValid).1).0
