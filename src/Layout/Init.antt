-- ===== src/Layout/Init.antt =====
-- `cache_initialize_region` and the validation of a region that it made.
use mem_sync.Base.{
  ℕ, zero, suc, ◌^◌, ◌≤◌, ◌<◌, ◌≡◌, refl, inl, inr, Bool, true, false, none, some, arith, le→leb,
  ◌%◌, u32_mod, replicate, length-replicate, get_or-replicate, Bool-cases,
}
use mem_sync.Base.{get_or}
use mem_sync.Layout.{
  Region, LockCalls, blank, is_occupied, matches, cache_init_lock, sizeof_header, valid_capacity,
  cache_initialize_region, cache_validate_layout, validate_ready_header, cache_magic, cache_version,
}
use mem_sync.Layout.Bounds.{
  FitsIn, FitsIn-valid_capacity, valid_capacity-FitsIn, IsLaidOut, IsLaidOut-cache_validate_layout,
}
use mem_sync.Table.View.{slot, find_entry, find_entry_of_absent, matches-blank}
use mem_sync.Table.Invariant.{IsEntry, IsTable, IsValid, count_occupied, count_occupied-le-length}
use mem_sync.Text.{Bytes}

slot-replicate : (n i : ℕ) → slot (replicate n blank) i ≡ blank
slot-replicate n i = get_or-replicate n i blank

pub count_occupied-replicate : (n : ℕ) → count_occupied (replicate n blank) ≡ 0
unfolding count_occupied replicate is_occupied
count_occupied-replicate zero = refl
count_occupied-replicate (suc n) = omega (arith, count_occupied-replicate n)

never_matches : (n i : ℕ) (q : Bytes) → matches (slot (replicate n blank) i) q ≡ false
never_matches n i q = rw (slot-replicate n i) (matches-blank q)

blank-IsEntry : IsEntry blank
unfolding replicate get_or
blank-IsEntry = record {
  key_size = refl;
  value_size = refl;
  key_end = refl;
  value_end = refl;
  named = λ e. cc;
}

-- A table of blank slots stores nothing.
pub blank-IsTable : (n : ℕ) → 0 < n → n < 2 ^ 31 → IsTable n (replicate n blank)
blank-IsTable n positive small = record {
  sized = length-replicate n blank;
  positive = positive;
  small = small;
  unique = λ q i j h. cc (never_matches n i q, h);
  chained = λ q d m hd h. cc (never_matches n _ q, h);
  entries = λ i. rw (slot-replicate n i) blank-IsEntry;
}

module _ (lock_size size capacity : ℕ) (fits : FitsIn lock_size size capacity)
    (size_small : size ≤ 2 ^ 32) where
  -- The region that the initialisation writes, with its marker.
  abbrev made : ℕ → Region
  made magic = record {
    header = record {
      magic = magic;
      version = cache_version;
      capacity = capacity;
      entry_count = 0;
      data_offset = sizeof_header lock_size % u32_mod;
      total_hits = 0;
      total_misses = 0;
      total_collisions = 0;
    };
    slots = replicate capacity blank;
  }

  made-IsValid : (magic : ℕ) → IsValid (made magic)
  made-IsValid magic = record {
    table = blank-IsTable capacity fits.positive (omega (arith, fits.slots));
    counted = count_occupied-replicate capacity;
  }

  made-IsLaidOut : IsLaidOut lock_size size (made cache_magic)
  made-IsLaidOut = record {
    magic = refl;
    version = refl;
    fits = fits;
    offset = omega (arith, fits.slots, fits.positive);
  }

  made-unpublished : cache_validate_layout lock_size (some (made 0)) size ≡ false
  unfolding cache_validate_layout
  made-unpublished = ground arith

  initialized :
      (before : Region) (calls : LockCalls) (b : Bool)
      → cache_init_lock (some (made 0).header) calls ≡ b
      → (r : Region) × (cache_initialize_region lock_size (some before) size capacity calls
          ≡ (some r, b))
        × (cache_validate_layout lock_size (some r) size ≡ b)
        × (r.header.capacity ≡ capacity)
        × IsValid r
        × ((q : Bytes) → find_entry q r.slots ≡ none)
  unfolding cache_initialize_region
  initialized before calls true e = (
    made cache_magic,
    rw (FitsIn-valid_capacity lock_size size capacity fits, e),
    IsLaidOut-cache_validate_layout lock_size size (made cache_magic) made-IsLaidOut,
    refl,
    made-IsValid cache_magic,
    λ q. find_entry_of_absent q (replicate capacity blank) (λ i. never_matches capacity i q),
  )
  initialized before calls false e = (
    made 0,
    rw (FitsIn-valid_capacity lock_size size capacity fits, e),
    made-unpublished,
    refl,
    made-IsValid 0,
    λ q. find_entry_of_absent q (replicate capacity blank) (λ i. never_matches capacity i q),
  )

-- With a capacity that fits into at most 4 GiB, the initialisation makes a well-formed table of
-- that capacity with no entry, and returns what the lock's initialisation returned; the region
-- passes the validation exactly if the call returned true.
pub cache_initialize_region_lem :
    (lock_size size capacity : ℕ) (before : Region) (calls : LockCalls)
    → valid_capacity lock_size size capacity ≡ true
    → size ≤ 2 ^ 32
    → (r : Region) × (done : Bool) × (cache_initialize_region lock_size
          (some before)
          size
          capacity
          calls
        ≡ (some r, done))
      × (done ≡ cache_init_lock (some before.header) calls)
      × (cache_validate_layout lock_size (some r) size ≡ done)
      × (r.header.capacity ≡ capacity)
      × IsValid r
      × ((q : Bytes) → find_entry q r.slots ≡ none)
cache_initialize_region_lem lock_size size capacity before calls h small =
    let fits = valid_capacity-FitsIn lock_size size capacity h in
    let b = cache_init_lock (some before.header) calls in
    let (r, run, validates, cap, valid, none_stored) =
      initialized lock_size size capacity fits small before calls b
        (unfold cache_init_lock in refl) in
    (r, b, run, refl, validates, cap, valid, none_stored)

-- A capacity that does not fit is refused and the region left alone.
pub cache_initialize_region-refused :
    (lock_size size capacity : ℕ) (before : Region) (calls : LockCalls)
    → ¬ FitsIn lock_size size capacity
    → cache_initialize_region lock_size (some before) size capacity calls ≡ (some before, false)
unfolding cache_initialize_region
cache_initialize_region-refused lock_size size capacity before calls h =
    elim (Bool-cases (valid_capacity lock_size size capacity)) [
      | inl p ↦ absurd (h (valid_capacity-FitsIn lock_size size capacity p))
      | inr p ↦ rw p
    ]

-- A well-formed region that is laid out for its size is accepted by an attaching process that gets
-- the lock.
pub validate_ready_header-attaches :
    (lock_size size : ℕ) (r : Region)
    → IsValid r
    → IsLaidOut lock_size size r
    → validate_ready_header lock_size (some r) size true ≡ true
unfolding validate_ready_header
validate_ready_header-attaches lock_size size r v l =
    let few : r.header.entry_count ≤ r.header.capacity =
      omega (arith, v.counted, v.table.sized, count_occupied-le-length r.slots) in
    rw (IsLaidOut-cache_validate_layout lock_size size r l, le→leb _ _ few)
