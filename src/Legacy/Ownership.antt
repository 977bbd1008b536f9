-- ===== src/Legacy/Ownership.antt =====
-- What a manager holds is what its fields say.
use mem_sync.Base.{ℕ, ◌≡◌, refl, ◌∙◌, Bool, true, false, Option, none, some, List, [], ◌∷◌, ◌++◌}
use mem_sync.Legacy.{
  SharedMemoryManager, ManagerEvent, shm_opened, mmapped, sem_opened, munmapped, fd_closed,
  sem_closed, shm_unlinked, sem_unlinked, ManagerCalls, manager, release_by, unlink_by_owner,
  cleanup, fail_with, open_semaphore, map_manager, open_manager, init_as_server, attach_as_client,
}
use mem_sync.Lifecycle.Resources.{release, release_self}
use mem_sync.Text.{Bytes}

-- A descriptor, a mapping and a semaphore.
pub record Possession : Type 0 where
  pub fd : Option ℕ
  pub memory : Option ℕ
  pub semaphore : Option ℕ

abbrev pub empty_handed : Possession
empty_handed = record { fd = none; memory = none; semaphore = none }

unfoldable pub possess : Possession → ManagerEvent → Possession
possess h (shm_opened n) = record h { fd = some n }
possess h (mmapped n) = record h { memory = some n }
possess h (sem_opened n) = record h { semaphore = some n }
possess h (munmapped n) = record h { memory = release h.memory n }
possess h (fd_closed n) = record h { fd = release h.fd n }
possess h (sem_closed n) = record h { semaphore = release h.semaphore n }
possess h (shm_unlinked name) = h
possess h (sem_unlinked name) = h

unfoldable pub possess_all : Possession → List ManagerEvent → Possession
unfolding possess
possess_all h [] = h
possess_all h (e ∷ es) = possess_all (possess h e) es

-- The fields.
abbrev pub possession_of : SharedMemoryManager → Possession
possession_of m = record { fd = m.shm_fd; memory = m.mapped_ptr; semaphore = m.semaphore }

-- What a run must come to: the manager's fields say what it holds, and a failure holds nothing.
pub record IsTracked (run : SharedMemoryManager × Bool × List ManagerEvent) : Type 0 where
  pub held : possess_all empty_handed run.2 ≡ possession_of run.0
  pub failure : run.1 ≡ false → possession_of run.0 ≡ empty_handed

abbrev manager_as : Bytes → Bytes → ℕ → Bool → SharedMemoryManager
manager_as shm_n sem_n size owner = record {
  shm_name = shm_n;
  sem_name = sem_n;
  shm_size = size;
  shm_fd = none;
  mapped_ptr = none;
  semaphore = none;
  is_owner = owner;
}

abbrev answers : Option ℕ → Bool → Option ℕ → Option ℕ → ManagerCalls
answers fd sized memory sem = record {
  shm_open = fd;
  truncates = sized;
  mmap = memory;
  sem_open = sem;
}

opening-IsTracked :
    (shm_n sem_n : Bytes) (size : ℕ) (owner sized t : Bool) (fd memory sem : Option ℕ)
    → IsTracked
        (open_manager (manager_as shm_n sem_n size owner) fd sized (answers fd t memory sem))
unfolding open_manager map_manager open_semaphore fail_with cleanup release_by unlink_by_owner
    possess_all possess
opening-IsTracked shm_n sem_n size owner sized t none memory sem = record {
  held = refl;
  failure = λ e. refl;
}
opening-IsTracked shm_n sem_n size true false t (some fd) memory sem = record {
  held = simp (release_self);
  failure = λ e. refl;
}
opening-IsTracked shm_n sem_n size false false t (some fd) memory sem = record {
  held = simp (release_self);
  failure = λ e. refl;
}
opening-IsTracked shm_n sem_n size true true t (some fd) none sem = record {
  held = simp (release_self);
  failure = λ e. refl;
}
opening-IsTracked shm_n sem_n size false true t (some fd) none sem = record {
  held = simp (release_self);
  failure = λ e. refl;
}
opening-IsTracked shm_n sem_n size true true t (some fd) (some p) none = record {
  held = simp (release_self);
  failure = λ e. refl;
}
opening-IsTracked shm_n sem_n size false true t (some fd) (some p) none = record {
  held = simp (release_self);
  failure = λ e. refl;
}
opening-IsTracked shm_n sem_n size owner true t (some fd) (some p) (some s) = record {
  held = refl;
  failure = λ e. cc;
}

-- A new manager that starts as a server or as a client holds afterwards exactly what its fields name,
-- whatever the operating system answers, and nothing if it failed.
pub manager-IsTracked :
    (shm_n sem_n : Bytes) (size : ℕ) (calls : ManagerCalls)
    → IsTracked (init_as_server (manager shm_n sem_n size) calls)
      × IsTracked (attach_as_client (manager shm_n sem_n size) calls)
unfolding init_as_server attach_as_client manager
manager-IsTracked shm_n sem_n size calls = (
  opening-IsTracked shm_n sem_n size true calls.truncates calls.truncates calls.shm_open calls.mmap
      calls.sem_open,
  opening-IsTracked shm_n sem_n size false true calls.truncates calls.shm_open calls.mmap
      calls.sem_open,
)

possess_all-append :
    (h : Possession) (xs ys : List ManagerEvent)
    → possess_all h (xs ++ ys) ≡ possess_all (possess_all h xs) ys
unfolding possess_all
possess_all-append h [] ys = refl
possess_all-append h (x ∷ xs) ys = possess_all-append (possess h x) xs ys

module _ (f m s : Option ℕ) where
  abbrev possession : Possession
  possession = record { fd = f; memory = m; semaphore = s }

unmaps :
    (f m s : Option ℕ)
    → possess_all (possession f m s) (release_by munmapped m) ≡ possession f none s
unfolding possess_all possess release_by
unmaps f none s = refl
unmaps f (some n) s = simp (release_self)

closes :
    (f m s : Option ℕ)
    → possess_all (possession f m s) (release_by fd_closed f) ≡ possession none m s
unfolding possess_all possess release_by
closes none m s = refl
closes (some n) m s = simp (release_self)

closes_semaphore :
    (f m s : Option ℕ)
    → possess_all (possession f m s) (release_by sem_closed s) ≡ possession f m none
unfolding possess_all possess release_by
closes_semaphore f m none = refl
closes_semaphore f m (some n) = simp (release_self)

unlinks :
    (h : Possession) (m : SharedMemoryManager) (b : Bool)
    → m.is_owner ≡ b
    → possess_all h (unlink_by_owner m) ≡ h
unfolding possess_all possess unlink_by_owner
unlinks h m true e = rw e refl
unlinks h m false e = rw e refl

-- A cleanup releases all that the fields of a manager name.
pub cleanup-possession_of :
    (m : SharedMemoryManager) → possess_all (possession_of m) (cleanup m).1 ≡ empty_handed
unfolding cleanup
cleanup-possession_of m =
    possess_all-append (possession_of m) (release_by munmapped m.mapped_ptr) _
    ∙ rw (unmaps m.shm_fd m.mapped_ptr m.semaphore) (
        possess_all-append (possession m.shm_fd none m.semaphore) (release_by fd_closed m.shm_fd) _
        ∙ rw (closes m.shm_fd none m.semaphore) (
            possess_all-append (possession none none m.semaphore)
              (release_by sem_closed m.semaphore) _
            ∙ rw (closes_semaphore none none m.semaphore) (unlinks empty_handed m m.is_owner refl)))
