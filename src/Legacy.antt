-- ===== src/Legacy.antt =====
-- legacy/shared_memory.cpp with legacy/shared_memory.h: the manager that opens a shared object with a
-- named semaphore as its lock. Pointers and descriptors are numbers, with `none` for a null pointer
-- and for -1; MAP_FAILED and SEM_FAILED are never stored. What the operating system answers is an
-- argument, and the calls that acquire or release are returned in their order.
pub mod Ownership
use mem_sync.Base.{ℕ, Bool, true, false, Option, none, some, List, [], ◌∷◌, ◌++◌, if◌then◌else◌}
use mem_sync.Text.{Bytes}

pub record SharedMemoryManager : Type 0 where
  pub shm_name : Bytes
  pub sem_name : Bytes
  pub shm_size : ℕ
  pub shm_fd : Option ℕ
  pub mapped_ptr : Option ℕ
  pub semaphore : Option ℕ
  pub is_owner : Bool

-- The successful calls that acquire, and the calls that release.
pub data ManagerEvent : Type 0 where
  shm_opened : ℕ → ManagerEvent
  mmapped : ℕ → ManagerEvent
  sem_opened : ℕ → ManagerEvent
  munmapped : ℕ → ManagerEvent
  fd_closed : ℕ → ManagerEvent
  sem_closed : ℕ → ManagerEvent
  shm_unlinked : Bytes → ManagerEvent
  sem_unlinked : Bytes → ManagerEvent

-- What the calls of an initialisation answer.
pub record ManagerCalls : Type 0 where
  pub shm_open : Option ℕ
  pub truncates : Bool
  pub mmap : Option ℕ
  pub sem_open : Option ℕ

-- The constructor.
unfoldable pub manager : Bytes → Bytes → ℕ → SharedMemoryManager
manager shm_n sem_n size = record {
  shm_name = shm_n;
  sem_name = sem_n;
  shm_size = size;
  shm_fd = none;
  mapped_ptr = none;
  semaphore = none;
  is_owner = false;
}

unfoldable pub release_by : (ℕ → ManagerEvent) → Option ℕ → List ManagerEvent
release_by call none = []
release_by call (some n) = call n ∷ []

unfoldable pub unlink_by_owner : SharedMemoryManager → List ManagerEvent
unlink_by_owner m =
    if m.is_owner then shm_unlinked m.shm_name ∷ sem_unlinked m.sem_name ∷ [] else []

-- Also the destructor.
unfoldable pub cleanup : SharedMemoryManager → SharedMemoryManager × List ManagerEvent
unfolding release_by unlink_by_owner
cleanup m = (
  record m { mapped_ptr = none; shm_fd = none; semaphore = none },
  release_by munmapped m.mapped_ptr
      ++ (release_by fd_closed m.shm_fd
          ++ (release_by sem_closed m.semaphore ++ unlink_by_owner m)),
)

-- A cleanup and a failure, after the calls made so far.
unfoldable pub fail_with :
    SharedMemoryManager → List ManagerEvent → SharedMemoryManager × Bool × List ManagerEvent
unfolding cleanup
fail_with m events = ((cleanup m).0, false, events ++ (cleanup m).1)

-- `sem_open` and what follows it.
unfoldable pub open_semaphore :
    SharedMemoryManager
    → Option ℕ
    → List ManagerEvent
    → SharedMemoryManager × Bool × List ManagerEvent
unfolding fail_with
open_semaphore m none events = fail_with (record m { semaphore = none }) events
open_semaphore m (some s) events =
    (record m { semaphore = some s }, true, events ++ sem_opened s ∷ [])

-- `mmap` and what follows it.
unfoldable pub map_manager :
    SharedMemoryManager
    → Option ℕ
    → Option ℕ
    → List ManagerEvent
    → SharedMemoryManager × Bool × List ManagerEvent
unfolding fail_with open_semaphore
map_manager m none sem events = fail_with (record m { mapped_ptr = none }) events
map_manager m (some p) sem events =
    open_semaphore (record m { mapped_ptr = some p }) sem (events ++ mmapped p ∷ [])

-- `shm_open`, `ftruncate` if the caller is the server, and what follows.
unfoldable pub open_manager :
    SharedMemoryManager
    → Option ℕ
    → Bool
    → ManagerCalls
    → SharedMemoryManager × Bool × List ManagerEvent
unfolding fail_with map_manager
open_manager m none sized calls = (record m { shm_fd = none }, false, [])
open_manager m (some fd) true calls =
    map_manager (record m { shm_fd = some fd }) calls.mmap calls.sem_open (shm_opened fd ∷ [])
open_manager m (some fd) false calls =
    fail_with (record m { shm_fd = some fd }) (shm_opened fd ∷ [])

unfoldable pub init_as_server :
    SharedMemoryManager → ManagerCalls → SharedMemoryManager × Bool × List ManagerEvent
unfolding open_manager
init_as_server m calls =
    open_manager (record m { is_owner = true }) calls.shm_open calls.truncates calls

-- A client does not size the object.
unfoldable pub attach_as_client :
    SharedMemoryManager → ManagerCalls → SharedMemoryManager × Bool × List ManagerEvent
unfolding open_manager
attach_as_client m calls = open_manager (record m { is_owner = false }) calls.shm_open true calls

-- What `sem_wait` answers.
pub data Wait : Type 0 where
  acquired : Wait
  interrupted : Wait
  wait_failed : Wait

-- The loop over the answers of `sem_wait`; `none` while the last one was an interruption.
unfoldable pub wait_loop : List Wait → Option Bool
wait_loop [] = none
wait_loop (acquired ∷ waits) = some true
wait_loop (interrupted ∷ waits) = wait_loop waits
wait_loop (wait_failed ∷ waits) = some false

unfoldable pub lock : SharedMemoryManager → List Wait → Option Bool
unfolding wait_loop
lock m waits = elim m.semaphore [ none ↦ some false | some s ↦ wait_loop waits ]

-- With whether `sem_post` succeeds.
unfoldable pub unlock : SharedMemoryManager → Bool → Bool
unlock m posts = elim m.semaphore [ none ↦ false | some s ↦ posts ]

unfoldable pub get_base_ptr : SharedMemoryManager → Option ℕ
get_base_ptr m = m.mapped_ptr
