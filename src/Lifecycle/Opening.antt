-- ===== src/Lifecycle/Opening.antt =====
-- `cache_open_shared` and `cache_close_shared`, whatever the operating system answers.
use mem_sync.Base.{
  ℕ, ◌≡◌, refl, ◌∙◌, inl, inr, Bool, true, false, Option, none, some, List, [], ◌∷◌, ◌++◌,
  if◌then◌else◌, arith, Bool-cases,
}
use mem_sync.Layout.{
  Region, cache_shared_memory_size, cache_default_capacity, cache_initialize_region,
  validate_ready_header, cache_validate_layout, valid_capacity,
}
use mem_sync.Layout.Init.{cache_initialize_region_lem}
use mem_sync.Lifecycle.{
  CacheMapping, mapped, Event, mapped_memory, ExclusiveOpen, opened, exists, failed, OpenCalls,
  unopened, open_existing, open_descriptor, give_up, has_size, prepare, finish_open, map_object,
  use_descriptor, open_object, name_or_default, cache_open_shared, cache_close_shared,
}
use mem_sync.Lifecycle.Resources.{
  Holdings, nothing_held, after_event, after_events, after_events-append, holding, give_up_lem,
  unmap-give_up, unmap-close_descriptor,
}
use mem_sync.Table.Invariant.{IsValid}
use mem_sync.Table.View.{find_entry}
use mem_sync.Text.{Bytes}

-- A well-formed table of the default capacity that stores nothing.
pub record IsFresh (r : Region) : Type 0 where
  pub valid : IsValid r
  pub capacity : r.header.capacity ≡ cache_default_capacity
  pub vacant : (q : Bytes) → find_entry q r.slots ≡ none

module _ (lock_size : ℕ) where
  -- What the preparation of the memory can come to.
  data Prepared (made : Bool) : Option Region × Bool → Type 0 where
    unready : (o : Option Region) → Prepared made (o, false)
    prepared :
        (r : Region)
        → cache_validate_layout lock_size (some r) cache_shared_memory_size ≡ true
        → (made ≡ true → IsFresh r)
        → Prepared made (some r, true)

  attached :
      (r : Region) (locked b : Bool)
      → validate_ready_header lock_size (some r) cache_shared_memory_size locked ≡ b
      → Prepared false (some r, b)
  unfolding validate_ready_header
  attached r locked true h = prepared r (ground arith) (λ e. cc)
  attached r locked false h = unready (some r)

  initialised :
      (r : Region) (done : Bool)
      → cache_validate_layout lock_size (some r) cache_shared_memory_size ≡ done
      → IsFresh r
      → Prepared true (some r, done)
  initialised r true h fresh = prepared r h (λ e. fresh)
  initialised r false h fresh = unready (some r)

  prepare-Prepared :
      (made : Bool) (memory : Region) (calls : OpenCalls)
      → Prepared made (prepare lock_size made memory calls)
  unfolding prepare
  prepare-Prepared false memory calls = attached memory calls.read_lock _ refl
  prepare-Prepared true memory calls =
      elim (Bool-cases (valid_capacity lock_size cache_shared_memory_size cache_default_capacity)) [
        | inl fits ↦
            let (r, done, run, p, validates, cap, valid, none_stored) =
              cache_initialize_region_lem lock_size cache_shared_memory_size cache_default_capacity
                memory calls.lock fits (omega arith) in
            rw run (
              initialised r done validates
                (record { valid = valid; capacity = cap; vacant = none_stored }))
        | inr not_fit ↦ unfold cache_initialize_region in rw not_fit (unready (some memory))
      ]

-- The outcomes of the opening, from holdings `start` on: nothing is held, or exactly the descriptor
-- and the mapping of a validated region, with the object if the process created it.
pub data Opens (lock_size : ℕ) (name : Bytes) (start : Holdings)
    : CacheMapping × Bool × List Event → Type 0 where
  refused :
      (events : List Event)
      → after_events start events ≡ nothing_held
      → Opens lock_size name start (unopened, false, events)
  ready :
      (fd : ℕ) (created : Bool) (r : Region) (events : List Event)
      → after_events start events ≡ holding name fd created (some cache_shared_memory_size)
      → cache_validate_layout lock_size (some r) cache_shared_memory_size ≡ true
      → (created ≡ true → IsFresh r)
      → Opens lock_size name start (
        record {
          fd = some fd;
          base = mapped r;
          size = cache_shared_memory_size;
          created = created;
        },
        true,
        events,
      )

module _ (lock_size : ℕ) (name : Bytes) where
  Opens-append :
      (start middle : Holdings) (events : List Event) (m : CacheMapping) (done : Bool)
      (more : List Event)
      → after_events start events ≡ middle
      → Opens lock_size name middle (m, done, more)
      → Opens lock_size name start (m, done, events ++ more)
  Opens-append start middle events _ _ _ e (refused more h) =
      refused _ (after_events-append start events more ∙ rw e h)
  Opens-append start middle events _ _ _ e (ready fd created r more h valid fresh) =
      ready fd created r _ (after_events-append start events more ∙ rw e h) valid fresh

  finish_open-Opens :
      (fd : ℕ) (made : Bool) (p : Option Region × Bool)
      → Prepared lock_size made p
      → Opens lock_size name
          (holding name fd made (some cache_shared_memory_size))
          (finish_open name fd made p)
  unfolding finish_open after_events
  finish_open-Opens fd made _ (unready none) =
      refused _ (unmap-give_up name fd made cache_shared_memory_size)
  finish_open-Opens fd made _ (unready (some r)) =
      refused _ (unmap-give_up name fd made cache_shared_memory_size)
  finish_open-Opens fd made _ (prepared r h fresh) = ready fd made r [] refl h fresh

  map_object-Opens :
      (fd : ℕ) (made : Bool) (calls : OpenCalls) (memory : Option Region)
      → Opens lock_size name
          (holding name fd made none)
          (map_object lock_size name fd made calls memory)
  unfolding map_object
  map_object-Opens fd made calls none = refused _ (give_up_lem name fd made)
  map_object-Opens fd made calls (some memory) =
      Opens-append (holding name fd made none)
        (holding name fd made (some cache_shared_memory_size))
        (mapped_memory cache_shared_memory_size ∷ []) _ _ _
        (unfold after_events after_event in refl)
        (finish_open-Opens fd made _ (prepare-Prepared lock_size made memory calls))

  -- What the search for a descriptor can come to.
  data Found : Option (ℕ × Bool) × List Event → Type 0 where
    not_found : Found (none, [])
    found :
        (fd : ℕ) (created : Bool) (events : List Event)
        → after_events nothing_held events ≡ holding name fd created none
        → Found (some (fd, created), events)

  open_existing-Found : (existing : Option ℕ) → Found (open_existing name existing)
  unfolding open_existing after_events after_event
  open_existing-Found none = not_found
  open_existing-Found (some fd) = found fd false _ refl

  open_descriptor-Found :
      (b : Bool) (exclusive : ExclusiveOpen) (existing : Option ℕ)
      → Found (open_descriptor b name exclusive existing)
  unfolding open_descriptor after_events after_event
  open_descriptor-Found true (opened fd) existing = found fd true _ refl
  open_descriptor-Found true exists existing = open_existing-Found existing
  open_descriptor-Found true failed existing = not_found
  open_descriptor-Found false exclusive existing = open_existing-Found existing

  sized-Opens :
      (fd : ℕ) (created b : Bool) (calls : OpenCalls)
      → Opens lock_size name (holding name fd created none) (
          if b
          then map_object lock_size name fd created calls calls.memory
          else (unopened, false, give_up name fd created))
  sized-Opens fd created true calls = map_object-Opens fd created calls calls.memory
  sized-Opens fd created false calls = refused _ (give_up_lem name fd created)

  use_descriptor-Opens :
      (calls : OpenCalls) (o : Option (ℕ × Bool) × List Event)
      → Found o
      → Opens lock_size name nothing_held (use_descriptor lock_size name calls o)
  unfolding use_descriptor after_events
  use_descriptor-Opens calls _ not_found = refused [] refl
  use_descriptor-Opens calls _ (found fd created events h) =
      Opens-append nothing_held (holding name fd created none) events _ _ _ h
        (sized-Opens fd created (has_size created calls) calls)

  open_object-Opens :
      (b : Bool) (calls : OpenCalls)
      → Opens lock_size name nothing_held (open_object lock_size b name calls)
  unfolding open_object
  open_object-Opens b calls =
      use_descriptor-Opens calls _ (open_descriptor-Found b calls.exclusive calls.existing)

-- Whatever the operating system answers, an opening ends in one of two ways. It fails, leaves the
-- mapping unopened, and holds nothing: the descriptor is closed, the memory unmapped, and an object
-- that it created is unlinked. Or it succeeds with a mapping of the whole object, and holds exactly
-- its descriptor and its memory; the region passes the validation, and if the process created the
-- object, its table is well formed, of the default capacity, and stores nothing.
pub cache_open_shared-Opens :
    (lock_size : ℕ) (before : CacheMapping) (b : Bool) (name : Option Bytes) (calls : OpenCalls)
    → (m : CacheMapping) × (done : Bool) × (events : List Event) × (cache_open_shared lock_size
          (some before)
          b
          name
          calls
        ≡ (some m, done, events))
      × Opens lock_size (name_or_default name) nothing_held (m, done, events)
unfolding cache_open_shared
cache_open_shared-Opens lock_size before b name calls =
    let (m, done, events) = open_object lock_size b (name_or_default name) calls in
    (m, done, events, refl, open_object-Opens lock_size (name_or_default name) b calls)

pub opened-Closes :
    (lock_size : ℕ) (name : Bytes) (m : CacheMapping) (done : Bool) (events : List Event)
    → Opens lock_size name nothing_held (m, done, events)
    → after_events nothing_held (events ++ (cache_close_shared (some m)).1)
      ≡ record { descriptor = none; memory = none; object = if m.created then some name else none }
unfolding cache_close_shared
opened-Closes lock_size name _ _ _ (refused events h) =
    after_events-append nothing_held events [] ∙ unfold after_events in h
opened-Closes lock_size name _ _ _ (ready fd created r events h valid fresh) =
    after_events-append nothing_held events _ ∙ rw h (unmap-close_descriptor name fd created _)

-- Closing a mapping that was opened releases its descriptor and its memory, and does not unlink the
-- object, not even the one that the process created. A second close of the mapping makes no call.
pub cache_close_shared_lem :
    (lock_size : ℕ) (before : CacheMapping) (b : Bool) (name : Option Bytes) (calls : OpenCalls)
    → (m : CacheMapping) × (done : Bool) × (events : List Event) × (cache_open_shared lock_size
          (some before)
          b
          name
          calls
        ≡ (some m, done, events))
      × (after_events nothing_held (events ++ (cache_close_shared (some m)).1) ≡ record {
        descriptor = none;
        memory = none;
        object = if m.created then some (name_or_default name) else none;
      })
      × ((cache_close_shared (cache_close_shared (some m)).0).1 ≡ [])
unfolding cache_close_shared
cache_close_shared_lem lock_size before b name calls =
    let (m, done, events, run, opens) = cache_open_shared-Opens lock_size before b name calls in
    (m, done, events, run, opened-Closes lock_size (name_or_default name) m done events opens, refl)
