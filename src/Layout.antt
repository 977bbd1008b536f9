-- ===== src/Layout.antt =====
-- include/cache_engine.h, and the functions of src/cache_engine.cpp that lay out, initialise and
-- validate the mapped region.
pub mod Bounds
pub mod Init
use mem_sync.Base.{
  ℕ, ◌+◌, ◌-◌, ◌*◌, ◌/◌, ◌%◌, Bool, true, false, ◌&&◌, List, Option, none, some, get_or, set,
  replicate, ltb, leb, ◌==◌, if◌then◌else◌, u32_mod,
}
use mem_sync.Text.{Bytes, read_cstr, strcmp_eq}

abbrev pub cache_magic : ℕ
cache_magic = 0xDEADBEEF

abbrev pub cache_version : ℕ
cache_version = 1

abbrev pub max_key_len : ℕ
max_key_len = 64

abbrev pub max_val_len : ℕ
max_val_len = 256

abbrev pub cache_shared_memory_size : ℕ
cache_shared_memory_size = 4 * 1024 * 1024

abbrev pub cache_default_capacity : ℕ
cache_default_capacity = 1000

pub data SlotState : Type 0 where
  empty : SlotState
  occupied : SlotState
  deleted : SlotState

-- The process-shared lock of the header is not data of the model: what its calls return is an
-- argument of the functions that make them.
pub record CacheHeader : Type 0 where
  pub magic : ℕ
  pub version : ℕ
  pub capacity : ℕ
  pub entry_count : ℕ
  pub data_offset : ℕ
  pub total_hits : ℕ
  pub total_misses : ℕ
  pub total_collisions : ℕ

-- `key` and `value` are the whole buffers.
pub record CacheEntry : Type 0 where
  pub state : SlotState
  pub key : List ℕ
  pub value : List ℕ
  pub timestamp : ℕ
  pub ttl_seconds : ℕ

-- A mapped region: its header, and the array of `capacity` slots behind it.
pub record Region : Type 0 where
  pub header : CacheHeader
  pub slots : List CacheEntry

-- The sizes under the x86-64 ABI; the lock stands last in the header, at offset 48, and its size
-- belongs to the C library.
abbrev pub sizeof_entry : ℕ
sizeof_entry = 344

abbrev pub sizeof_header : ℕ → ℕ
sizeof_header lock_size = (48 + lock_size + 7) / 8 * 8

-- An entry of zero bytes.
abbrev pub blank : CacheEntry
blank = record {
  state = empty;
  key = replicate max_key_len 0;
  value = replicate max_val_len 0;
  timestamp = 0;
  ttl_seconds = 0;
}

-- The slot at an index.
abbrev pub at : Region → ℕ → CacheEntry
at r i = get_or r.slots i blank

-- A write to the slot at an index.
abbrev pub write_slot : Region → ℕ → CacheEntry → Region
write_slot r i e = record r { slots = set r.slots i e }

unfoldable pub is_occupied : CacheEntry → Bool
is_occupied e = elim e.state [ occupied ↦ true | _ ↦ false ]

-- `entry->state == SlotState::OCCUPIED && std::strcmp(entry->key, key) == 0`
unfoldable pub matches : CacheEntry → Bytes → Bool
unfolding is_occupied
matches e key = is_occupied e && strcmp_eq (read_cstr e.key) key

unfoldable pub valid_capacity : ℕ → ℕ → ℕ → Bool
valid_capacity lock_size size capacity =
    leb (sizeof_header lock_size) size
    && ltb 0 capacity
    && leb capacity ((size - sizeof_header lock_size) / sizeof_entry)

-- The byte offset of the returned pointer from `shm_base`; the sum is cut to a uint32_t.
unfoldable pub get_entry_ptr : CacheHeader → ℕ → ℕ
get_entry_ptr header index = (header.data_offset + index * sizeof_entry) % u32_mod

-- What the four pthread calls of `cache_init_lock` return.
pub record LockCalls : Type 0 where
  pub attr_init : ℕ
  pub attr_setpshared : ℕ
  pub rwlock_init : ℕ

-- `none` is the null pointer.
unfoldable pub cache_init_lock : Option CacheHeader → LockCalls → Bool
cache_init_lock none calls = false
cache_init_lock (some header) calls =
    if calls.attr_init == 0
    then (if calls.attr_setpshared == 0 then calls.rwlock_init == 0 else false)
    else false

-- The region before the call is only overwritten: the result is the region after it.
unfoldable pub cache_initialize_region :
    ℕ → Option Region → ℕ → ℕ → LockCalls → Option Region × Bool
cache_initialize_region lock_size none size capacity calls = (none, false)
cache_initialize_region lock_size (some before) size capacity calls =
    if valid_capacity lock_size size capacity
    then (let header : CacheHeader = record {
      magic = 0;
      version = cache_version;
      capacity = capacity;
      entry_count = 0;
      data_offset = sizeof_header lock_size % u32_mod;
      total_hits = 0;
      total_misses = 0;
      total_collisions = 0;
    } in
        let slots : List CacheEntry = replicate capacity blank in
        if cache_init_lock (some header) calls
        then (some (record { header = record header { magic = cache_magic }; slots = slots }), true)
        else (some (record { header = header; slots = slots }), false))
    else (some before, false)

-- `size` is that of the mapping; a shorter one is not read.
unfoldable pub cache_validate_layout : ℕ → Option Region → ℕ → Bool
cache_validate_layout lock_size none size = false
cache_validate_layout lock_size (some r) size =
    leb (sizeof_header lock_size) size
    && r.header.magic == cache_magic
    && r.header.version == cache_version
    && valid_capacity lock_size size r.header.capacity
    && r.header.data_offset == sizeof_header lock_size

-- `locked` is what `pthread_rwlock_rdlock` answers.
unfoldable pub validate_ready_header : ℕ → Option Region → ℕ → Bool → Bool
validate_ready_header lock_size none size locked = false
validate_ready_header lock_size (some r) size locked =
    cache_validate_layout lock_size (some r) size
    && locked
    && leb r.header.entry_count r.header.capacity
