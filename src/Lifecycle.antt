-- ===== src/Lifecycle.antt =====
-- How a process opens and closes the shared cache: `cache_open_shared`, `cache_close_shared` and
-- the three helpers that release a resource, all of src/cache_engine.cpp, with CacheMapping of
-- include/cache_engine.h. The operating system's answers are arguments; each function also returns
-- the calls that it made to acquire or to release a resource, in their order. The helpers ignore
-- that a release fails but for a message.
pub mod Resources
pub mod Opening
pub mod Handover
use mem_sync.Base.{
  ℕ, Bool, true, false, Option, none, some, List, [], ◌∷◌, ◌++◌, ◌==◌, if◌then◌else◌, not,
}
use mem_sync.Layout.{
  Region, LockCalls, cache_shared_memory_size, cache_default_capacity, cache_initialize_region,
  validate_ready_header,
}
use mem_sync.Text.{Bytes}

-- A `void*` that `mmap` may have set; a mapped one names the region that it points to.
pub data Pointer : Type 0 where
  null : Pointer
  map_failed : Pointer
  mapped : Region → Pointer

-- `fd` is `none` for -1.
pub record CacheMapping : Type 0 where
  pub fd : Option ℕ
  pub base : Pointer
  pub size : ℕ
  pub created : Bool

-- The successful calls that acquire a resource, and every call that releases one.
pub data Event : Type 0 where
  created_object : Bytes → ℕ → Event  -- shm_open with O_CREAT | O_EXCL
  opened_object : Bytes → ℕ → Event
  mapped_memory : ℕ → Event
  unmapped_memory : ℕ → Event
  closed : ℕ → Event
  unlinked : Bytes → Event

-- What an exclusive `shm_open` answers: a descriptor, EEXIST, or another error.
pub data ExclusiveOpen : Type 0 where
  opened : ℕ → ExclusiveOpen
  exists : ExclusiveOpen
  failed : ExclusiveOpen

-- The answers: of both kinds of `shm_open`, whether `ftruncate` succeeds, the size that `fstat`
-- finds, the memory that `mmap` maps, and those of the lock calls.
pub record OpenCalls : Type 0 where
  pub exclusive : ExclusiveOpen
  pub existing : Option ℕ
  pub truncates : Bool
  pub st_size : Option ℕ
  pub memory : Option Region
  pub lock : LockCalls
  pub read_lock : Bool

-- "/memsync_shm"
unfoldable pub cache_shared_memory_name : Bytes
cache_shared_memory_name = 47 ∷ 109 ∷ 101 ∷ 109 ∷ 115 ∷ 121 ∷ 110 ∷ 99 ∷ 95 ∷ 115 ∷ 104 ∷ 109 ∷ []

abbrev pub unlink_created_object : Bytes → List Event
unlink_created_object name = unlinked name ∷ []

abbrev pub close_descriptor : ℕ → List Event
close_descriptor fd = closed fd ∷ []

abbrev pub unmap_region : ℕ → List Event
unmap_region size = unmapped_memory size ∷ []

-- The mapping before anything is opened.
abbrev pub unopened : CacheMapping
unopened = record { fd = none; base = null; size = cache_shared_memory_size; created = false }

-- `shm_open(name, O_RDWR, 0666)`: the descriptor with `created`.
unfoldable pub open_existing : Bytes → Option ℕ → Option (ℕ × Bool) × List Event
open_existing name none = (none, [])
open_existing name (some fd) = (some (fd, false), opened_object name fd ∷ [])

unfoldable pub open_descriptor :
    Bool → Bytes → ExclusiveOpen → Option ℕ → Option (ℕ × Bool) × List Event
unfolding open_existing
open_descriptor true name (opened fd) existing = (some (fd, true), created_object name fd ∷ [])
open_descriptor true name exists existing = open_existing name existing
open_descriptor true name failed existing = (none, [])
open_descriptor false name exclusive existing = open_existing name existing

-- What a failed call does with what it holds by then.
abbrev pub give_up : Bytes → ℕ → Bool → List Event
give_up name fd created =
    if created then close_descriptor fd ++ unlink_created_object name else close_descriptor fd

-- Whether the object has its size: a created one by `ftruncate`, another one by `fstat`.
unfoldable pub has_size : Bool → OpenCalls → Bool
has_size created calls =
    if created
    then calls.truncates
    else elim calls.st_size [ none ↦ false | some size ↦ size == cache_shared_memory_size ]

-- The initialisation of a created region, or the check of another one: the region after it.
unfoldable pub prepare : ℕ → Bool → Region → OpenCalls → Option Region × Bool
prepare lock_size created region calls =
    if created
    then cache_initialize_region lock_size (some region) cache_shared_memory_size
        cache_default_capacity calls.lock
    else (
      some region,
      validate_ready_header lock_size (some region) cache_shared_memory_size calls.read_lock,
    )

-- What follows the preparation of the mapped memory.
unfoldable pub finish_open :
    Bytes → ℕ → Bool → Option Region × Bool → CacheMapping × Bool × List Event
finish_open name fd created (some region, true) = (
  record { fd = some fd; base = mapped region; size = cache_shared_memory_size; created = created },
  true,
  [],
)
finish_open name fd created (_, _) =
    (unopened, false, unmap_region cache_shared_memory_size ++ give_up name fd created)

-- From `mmap` on, with what it maps.
unfoldable pub map_object :
    ℕ → Bytes → ℕ → Bool → OpenCalls → Option Region → CacheMapping × Bool × List Event
unfolding finish_open prepare
map_object lock_size name fd created calls none = (unopened, false, give_up name fd created)
map_object lock_size name fd created calls (some memory) =
    let (mapping, done, events) =
      finish_open name fd created (prepare lock_size created memory calls) in
    (mapping, done, mapped_memory cache_shared_memory_size ∷ events)

-- What follows the search for a descriptor.
unfoldable pub use_descriptor :
    ℕ → Bytes → OpenCalls → Option (ℕ × Bool) × List Event → CacheMapping × Bool × List Event
unfolding map_object has_size
use_descriptor lock_size name calls (none, events) = (unopened, false, events)
use_descriptor lock_size name calls (some (fd, created), events) =
    let (mapping, done, more) =
      if has_size created calls
      then map_object lock_size name fd created calls calls.memory
      else (unopened, false, give_up name fd created) in
    (mapping, done, events ++ more)

-- From the first `shm_open` on, with the name that was chosen.
unfoldable pub open_object : ℕ → Bool → Bytes → OpenCalls → CacheMapping × Bool × List Event
unfolding open_descriptor use_descriptor
open_object lock_size create_if_missing name calls =
    use_descriptor lock_size name calls
      (open_descriptor create_if_missing name calls.exclusive calls.existing)

-- `shared_memory_name ? shared_memory_name : SHM_NAME`
abbrev pub name_or_default : Option Bytes → Bytes
name_or_default none = cache_shared_memory_name
name_or_default (some name) = name

unfoldable pub cache_open_shared :
    ℕ
    → Option CacheMapping
    → Bool
    → Option Bytes
    → OpenCalls
    → Option CacheMapping × Bool × List Event
unfolding open_object
cache_open_shared lock_size none create_if_missing shared_memory_name calls = (none, false, [])
cache_open_shared lock_size (some before) create_if_missing shared_memory_name calls =
    let (mapping, done, events) =
      open_object lock_size create_if_missing (name_or_default shared_memory_name) calls in
    (some mapping, done, events)

unfoldable pub cache_close_shared : Option CacheMapping → Option CacheMapping × List Event
cache_close_shared none = (none, [])
cache_close_shared (some mapping) = (
  some (record { fd = none; base = null; size = 0; created = false }),
  (elim mapping.base [ mapped region ↦ unmap_region mapping.size | _ ↦ [] ])
      ++ (elim mapping.fd [ none ↦ [] | some fd ↦ close_descriptor fd ]),
)
