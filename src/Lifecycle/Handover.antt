-- ===== src/Lifecycle/Handover.antt =====
-- From the process that creates the shared object to one that opens it later.
use mem_sync.Base.{ℕ, ◌≡◌, refl, ap, ◌∙◌, Bool, true, false, Option, none, some, [], ◌∷◌, arith}
use mem_sync.Layout.{
  Region, LockCalls, cache_shared_memory_size, cache_default_capacity, cache_initialize_region,
  cache_init_lock, validate_ready_header, valid_capacity,
}
use mem_sync.Layout.Init.{cache_initialize_region_lem}
use mem_sync.Lifecycle.{
  CacheMapping, mapped, mapped_memory, opened, exists, OpenCalls, created_object, opened_object,
  open_existing, open_descriptor, has_size, prepare, finish_open, map_object, use_descriptor,
  open_object, name_or_default, cache_open_shared,
}
use mem_sync.Lifecycle.Opening.{IsFresh}
use mem_sync.Sharing.{Reach}
use mem_sync.Sharing.Reachable.{published_region_stays-IsValid}
use mem_sync.Text.{Bytes}

-- The answers to a process whose exclusive `shm_open` creates the object.
abbrev pub creating : ℕ → Region → LockCalls → OpenCalls
creating fd memory lock = record {
  exclusive = opened fd;
  existing = none;
  truncates = true;
  st_size = none;
  memory = some memory;
  lock = lock;
  read_lock = true;
}

-- The answers to a process that finds the object, with its memory, and gets the read lock.
abbrev pub attaching : ℕ → Region → LockCalls → OpenCalls
attaching fd memory lock = record {
  exclusive = exists;
  existing = some fd;
  truncates = true;
  st_size = some cache_shared_memory_size;
  memory = some memory;
  lock = lock;
  read_lock = true;
}

-- The mapping after a success.
abbrev pub mapping_of : ℕ → Region → Bool → CacheMapping
mapping_of fd r created = record {
  fd = some fd;
  base = mapped r;
  size = cache_shared_memory_size;
  created = created;
}

creates :
    (lock_size : ℕ) (before : CacheMapping) (name : Option Bytes) (fd : ℕ) (memory r : Region)
    (lock : LockCalls)
    → cache_initialize_region lock_size
        (some memory)
        cache_shared_memory_size
        cache_default_capacity
        lock
      ≡ (some r, true)
    → cache_open_shared lock_size (some before) true name (creating fd memory lock) ≡ (
      some (mapping_of fd r true),
      true,
      created_object (name_or_default name) fd ∷ mapped_memory cache_shared_memory_size ∷ [],
    )
unfolding cache_open_shared open_object open_descriptor use_descriptor has_size map_object prepare
    finish_open
creates lock_size before name fd memory r lock run = rw run refl

attaches :
    (lock_size : ℕ) (before : CacheMapping) (b : Bool) (name : Option Bytes) (fd : ℕ) (r : Region)
    (lock : LockCalls)
    → validate_ready_header lock_size (some r) cache_shared_memory_size true ≡ true
    → cache_open_shared lock_size (some before) b name (attaching fd r lock) ≡ (
      some (mapping_of fd r false),
      true,
      opened_object (name_or_default name) fd ∷ mapped_memory cache_shared_memory_size ∷ [],
    )
unfolding cache_open_shared open_object open_descriptor open_existing use_descriptor has_size
    map_object prepare finish_open
attaches lock_size before true name fd r lock ok = rw ok refl
attaches lock_size before false name fd r lock ok = rw ok refl

pub cache_open_shared-hands_over :
    (lock_size : ℕ) (before : CacheMapping) (name : Option Bytes) (fd : ℕ) (memory : Region)
    (lock : LockCalls)
    → valid_capacity lock_size cache_shared_memory_size cache_default_capacity ≡ true
    → cache_init_lock (some memory.header) lock ≡ true
    → (r : Region) × (cache_open_shared lock_size (some before) true name (creating fd memory lock)
        ≡ (
          some (mapping_of fd r true),
          true,
          created_object (name_or_default name) fd ∷ mapped_memory cache_shared_memory_size ∷ [],
        ))
      × IsFresh r
      × ((r' : Region) (later : CacheMapping) (b : Bool) (fd' : ℕ) (lock' : LockCalls)
          → Reach r r'
          → cache_open_shared lock_size (some later) b name (attaching fd' r' lock') ≡ (
            some (mapping_of fd' r' false),
            true,
            opened_object (name_or_default name) fd' ∷ mapped_memory cache_shared_memory_size ∷ [],
          ))
cache_open_shared-hands_over lock_size before name fd memory lock fits lock_made =
    let (r, done, run, made, _, cap, valid, none_stored) =
      cache_initialize_region_lem lock_size cache_shared_memory_size cache_default_capacity memory
        lock fits (omega arith) in
    let run' : cache_initialize_region lock_size (some memory) cache_shared_memory_size
          cache_default_capacity lock
        ≡ (some r, true) =
      run ∙ ap (λ d. (some r, d)) (made ∙ lock_made) in
    (
      r,
      creates lock_size before name fd memory r lock run',
      record { valid = valid; capacity = cap; vacant = none_stored },
      λ r' later b fd' lock' reach.
          attaches lock_size later b name fd' r' lock'
            (published_region_stays-IsValid lock_size cache_shared_memory_size
              cache_default_capacity memory r r' lock (omega arith) run' reach).1,
    )
