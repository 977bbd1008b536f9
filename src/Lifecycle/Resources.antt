-- ===== src/Lifecycle/Resources.antt =====
-- What a process holds after a sequence of the events of Lifecycle.
use mem_sync.Base.{
  Bool, true, false, arith, ℕ, ◌≡◌, refl, Option, none, some, List, [], ◌∷◌, ◌++◌, ◌==◌,
  if◌then◌else◌,
}
use mem_sync.Lifecycle.{
  Event, created_object, opened_object, mapped_memory, unmapped_memory, closed, unlinked, give_up,
  unmap_region, close_descriptor,
}
use mem_sync.Text.{Bytes, strcmp_eq}
use mem_sync.Text.Laws.{strcmp_eq_self}

-- The open descriptor, the size of the mapping, and the object that the process created and that
-- it would have to unlink if it does not publish it.
pub record Holdings : Type 0 where
  pub descriptor : Option ℕ
  pub memory : Option ℕ
  pub object : Option Bytes

abbrev pub nothing_held : Holdings
nothing_held = record { descriptor = none; memory = none; object = none }

-- A number that is held stays held unless it is the one released.
unfoldable pub release : Option ℕ → ℕ → Option ℕ
release none m = none
release (some n) m = if n == m then none else some n

unfoldable pub release_name : Option Bytes → Bytes → Option Bytes
release_name none name = none
release_name (some held) name = if strcmp_eq held name then none else some held

unfoldable pub after_event : Holdings → Event → Holdings
unfolding release release_name
after_event h (created_object name fd) = record h { descriptor = some fd; object = some name }
after_event h (opened_object name fd) = record h { descriptor = some fd }
after_event h (mapped_memory size) = record h { memory = some size }
after_event h (unmapped_memory size) = record h { memory = release h.memory size }
after_event h (closed fd) = record h { descriptor = release h.descriptor fd }
after_event h (unlinked name) = record h { object = release_name h.object name }

unfoldable pub after_events : Holdings → List Event → Holdings
unfolding after_event
after_events h [] = h
after_events h (e ∷ es) = after_events (after_event h e) es

pub after_events-append :
    (h : Holdings) (xs ys : List Event)
    → after_events h (xs ++ ys) ≡ after_events (after_events h xs) ys
unfolding after_events
after_events-append h [] ys = refl
after_events-append h (x ∷ xs) ys = after_events-append (after_event h x) xs ys

-- The holdings of a process with an open descriptor.
abbrev pub holding : Bytes → ℕ → Bool → Option ℕ → Holdings
holding name fd created memory = record {
  descriptor = some fd;
  memory = memory;
  object = if created then some name else none;
}

pub release_self : (n : ℕ) → release (some n) n ≡ none
unfolding release
release_self n = ground arith

release_name_self : (name : Bytes) → release_name (some name) name ≡ none
unfolding release_name
release_name_self name = rw (strcmp_eq_self name) refl

pub give_up_lem :
    (name : Bytes) (fd : ℕ) (created : Bool)
    → after_events (holding name fd created none) (give_up name fd created) ≡ nothing_held
unfolding after_events after_event
give_up_lem name fd true = simp (release_self, release_name_self)
give_up_lem name fd false = simp (release_self, release_name)

pub unmap-give_up :
    (name : Bytes) (fd : ℕ) (created : Bool) (size : ℕ)
    → after_events
        (holding name fd created (some size))
        (unmap_region size ++ give_up name fd created)
      ≡ nothing_held
unfolding after_events after_event
unmap-give_up name fd true size = simp (release_self, release_name_self)
unmap-give_up name fd false size = simp (release_self, release_name)

-- Unmapping and closing leave the object alone.
pub unmap-close_descriptor :
    (name : Bytes) (fd : ℕ) (created : Bool) (size : ℕ)
    → after_events (holding name fd created (some size)) (unmap_region size ++ close_descriptor fd)
      ≡ record { descriptor = none; memory = none; object = if created then some name else none }
unfolding after_events after_event
unmap-close_descriptor name fd created size = simp (release_self)
