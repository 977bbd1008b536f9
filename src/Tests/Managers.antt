-- ===== src/Tests/Managers.antt =====
-- The legacy manager.
use mem_sync.Base.{◌≡◌, refl, true, none, some, [], ◌∷◌}
use mem_sync.Legacy.{
  SharedMemoryManager, shm_unlinked, sem_unlinked, ManagerCalls, manager, release_by,
  unlink_by_owner, cleanup, fail_with, open_semaphore, map_manager, open_manager, init_as_server,
  attach_as_client, acquired, interrupted, wait_loop, lock,
}
use mem_sync.Legacy.Ownership.{IsTracked, manager-IsTracked}

unfoldable managing : Unit {0}
unfolding manager release_by unlink_by_owner cleanup fail_with open_semaphore map_manager
    open_manager init_as_server attach_as_client wait_loop lock
managing = tt

abbrev no_memory : ManagerCalls
no_memory = record { shm_open = some 3; truncates = true; mmap = none; sem_open = some 9 }

abbrev new_manager : SharedMemoryManager
new_manager = record {
  shm_name = 1 ∷ [];
  sem_name = 2 ∷ [];
  shm_size = 100;
  shm_fd = some 3;
  mapped_ptr = some 5;
  semaphore = some 9;
  is_owner = true;
}

-- A server whose `shm_open` fails created nothing, and its destructor unlinks both names.
unlinks_what_it_did_not_create :
    (cleanup
      (init_as_server (manager (1 ∷ []) (2 ∷ []) 100) (record no_memory { shm_open = none })).0).1
    ≡ shm_unlinked (1 ∷ []) ∷ sem_unlinked (2 ∷ []) ∷ []
unfolding managing
unlinks_what_it_did_not_create = refl

-- Interrupted waits are repeated.
waits_again : lock new_manager (interrupted ∷ interrupted ∷ acquired ∷ []) ≡ some true
unfolding managing
waits_again = refl

manager-IsTracked_example :
    IsTracked (init_as_server (manager (1 ∷ []) (2 ∷ []) 100) no_memory)
    × IsTracked (attach_as_client (manager (1 ∷ []) (2 ∷ []) 100) no_memory)
manager-IsTracked_example = manager-IsTracked (1 ∷ []) (2 ∷ []) 100 no_memory
