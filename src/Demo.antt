-- ===== src/Demo.antt =====
-- The demonstration programs: src/cleanup.cpp here, src/main.cpp in Demo.Standalone, and
-- src/writer.cpp with src/reader.cpp in Demo.Exchange.
pub mod Standalone
pub mod Tour
pub mod Alone
pub mod Fresh
pub mod Exchange
pub mod Writing
pub mod Reading
pub mod Handing
use mem_sync.Base.{ℕ, ◌+◌, Bool, true, false, Option, none, some, List, [], ◌∷◌}
use mem_sync.Layout.{Region}
use mem_sync.Lifecycle.{Pointer, null, map_failed, mapped}

-- What `shm_unlink` answers: success, ENOENT, or another error.
pub data Unlink : Type 0 where
  gone : Unlink
  no_entry : Unlink
  unlink_failed : Unlink

-- The exit code of src/cleanup.cpp.
unfoldable pub cleanup_main : Unlink → ℕ
cleanup_main gone = 0
cleanup_main no_entry = 0
cleanup_main unlink_failed = 1

-- The region that an operation on a region that is there returns.
abbrev pub region_of : Region → Option Region → Region
region_of r none = r
region_of r (some r') = r'

-- The buffer after a `cache_get`: the result overwrites it, a failure leaves it.
abbrev pub buffer_of : List ℕ → Option (List ℕ × ℕ) → List ℕ
buffer_of out none = out
buffer_of out (some (value, timestamp)) = value

abbrev pub was_found : Option (List ℕ × ℕ) → Bool
was_found none = false
was_found (some result) = true

abbrev pub region_at : Pointer → Option Region
region_at null = none
region_at map_failed = none
region_at (mapped r) = some r
