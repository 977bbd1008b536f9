-- ===== src/Tests/Lifecycle.antt =====
-- Opening and closing the shared object.
use mem_sync.Base.{◌≡◌, refl, Bool, true, false, none, some, List, [], ◌∷◌, ◌++◌, if◌then◌else◌}
use mem_sync.Layout.{
  cache_shared_memory_size, cache_default_capacity, cache_init_lock, valid_capacity, LockCalls,
}
use mem_sync.Lifecycle.{
  CacheMapping, Event, created_object, opened_object, mapped_memory, unmapped_memory, closed,
  unlinked, unopened, open_existing, open_descriptor, has_size, prepare, finish_open, map_object,
  use_descriptor, open_object, name_or_default, cache_open_shared, cache_close_shared,
}
use mem_sync.Lifecycle.Resources.{nothing_held, after_events}
use mem_sync.Lifecycle.Opening.{Opens, cache_open_shared-Opens, cache_close_shared_lem}
use mem_sync.Lifecycle.Handover.{creating, attaching}
use mem_sync.Tests.Runs.{program}
use mem_sync.Tests.{lock_size, empty_region, lock_works}

unfoldable pub opening : Unit {0}
unfolding open_existing open_descriptor has_size prepare finish_open map_object use_descriptor
    open_object cache_open_shared cache_close_shared
opening = tt

-- The attributes of the lock cannot be made shared.
abbrev broken_lock : LockCalls
broken_lock = record lock_works { attr_setpshared = 22 }

-- A failed initialisation unmaps, closes and unlinks, in this order.
failed_creation :
    cache_open_shared lock_size
      (some unopened)
      true
      (some (47 ∷ []))
      (creating 3 empty_region broken_lock)
    ≡ (
      some unopened,
      false,
      created_object (47 ∷ []) 3
          ∷ mapped_memory cache_shared_memory_size
          ∷ unmapped_memory cache_shared_memory_size
          ∷ closed 3
          ∷ unlinked (47 ∷ [])
          ∷ [],
    )
unfolding program opening
failed_creation = refl

-- An object of another size is closed and not unlinked.
wrong_size :
    cache_open_shared lock_size
      (some unopened)
      true
      (some (47 ∷ []))
      (record (attaching 3 empty_region lock_works) { st_size = some 0 })
    ≡ (some unopened, false, opened_object (47 ∷ []) 3 ∷ closed 3 ∷ [])
unfolding program opening
wrong_size = refl

cache_open_shared-Opens_example :
    (m : CacheMapping) × (done : Bool) × (events : List Event) × (cache_open_shared lock_size
        (some unopened)
        true
        none
        (creating 3 empty_region broken_lock)
      ≡ (some m, done, events))
    × Opens lock_size (name_or_default none) nothing_held (m, done, events)
cache_open_shared-Opens_example =
    cache_open_shared-Opens lock_size unopened true none (creating 3 empty_region broken_lock)

cache_close_shared_lem_example :
    (m : CacheMapping) × (done : Bool) × (events : List Event) × (cache_open_shared lock_size
        (some unopened)
        true
        none
        (creating 3 empty_region lock_works)
      ≡ (some m, done, events))
    × (after_events nothing_held (events ++ (cache_close_shared (some m)).1) ≡ record {
      descriptor = none;
      memory = none;
      object = if m.created then some (name_or_default none) else none;
    })
    × ((cache_close_shared (cache_close_shared (some m)).0).1 ≡ [])
cache_close_shared_lem_example =
    cache_close_shared_lem lock_size unopened true none (creating 3 empty_region lock_works)

pub default_fits : valid_capacity lock_size cache_shared_memory_size cache_default_capacity ≡ true
unfolding program
default_fits = refl

pub lock_made : cache_init_lock (some empty_region.header) lock_works ≡ true
unfolding program
lock_made = refl
