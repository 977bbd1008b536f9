-- ===== src/Layout/Bounds.antt =====
-- Slots and pointers: in a validated region no pointer is cut, and no two slots share a byte.
use mem_sync.Base.{ℕ, ◌+◌, ◌*◌, ◌^◌, ◌≤◌, ◌<◌, ◌≡◌, ◌⊎◌, inl, inr, dec_lt, true, some, arith}
use mem_sync.Layout.{
  Region, sizeof_entry, sizeof_header, valid_capacity, get_entry_ptr, cache_validate_layout,
  cache_magic, cache_version,
}

-- What the test of a capacity establishes.
pub record FitsIn (lock_size size capacity : ℕ) : Type 0 where
  pub header : sizeof_header lock_size ≤ size
  pub positive : 0 < capacity
  pub slots : sizeof_header lock_size + capacity * sizeof_entry ≤ size

pub valid_capacity-FitsIn :
    (lock_size size capacity : ℕ)
    → valid_capacity lock_size size capacity ≡ true
    → FitsIn lock_size size capacity
unfolding valid_capacity
valid_capacity-FitsIn lock_size size capacity h = ground arith

pub FitsIn-valid_capacity :
    (lock_size size capacity : ℕ)
    → FitsIn lock_size size capacity
    → valid_capacity lock_size size capacity ≡ true
unfolding valid_capacity
FitsIn-valid_capacity lock_size size capacity h = ground arith

-- What the validation establishes.
pub record IsLaidOut (lock_size size : ℕ) (r : Region) : Type 0 where
  pub magic : r.header.magic ≡ cache_magic
  pub version : r.header.version ≡ cache_version
  pub fits : FitsIn lock_size size r.header.capacity
  pub offset : r.header.data_offset ≡ sizeof_header lock_size

pub cache_validate_layout-IsLaidOut :
    (lock_size size : ℕ) (r : Region)
    → cache_validate_layout lock_size (some r) size ≡ true
    → IsLaidOut lock_size size r
unfolding cache_validate_layout
cache_validate_layout-IsLaidOut lock_size size r h =
    ground (arith, valid_capacity-FitsIn lock_size size r.header.capacity)

pub IsLaidOut-cache_validate_layout :
    (lock_size size : ℕ) (r : Region)
    → IsLaidOut lock_size size r
    → cache_validate_layout lock_size (some r) size ≡ true
unfolding cache_validate_layout
IsLaidOut-cache_validate_layout lock_size size r h =
    ground (arith, FitsIn-valid_capacity lock_size size r.header.capacity h.fits, h.fits.header)

-- A pointer that is not cut to 32 bits.
get_entry_ptr_uncut :
    (lock_size size : ℕ) (r : Region) (i : ℕ)
    → IsLaidOut lock_size size r
    → size ≤ 2 ^ 32
    → i < r.header.capacity
    → get_entry_ptr r.header i ≡ sizeof_header lock_size + i * sizeof_entry
unfolding get_entry_ptr
get_entry_ptr_uncut lock_size size r i l small hi = omega (arith, l.offset, l.fits.slots)

-- In a region that validates, of at most 4 GiB, the pointer to each slot, the last one included, is not
-- cut to 32 bits; the slot lies behind the header and inside the region, and any other slot lies wholly
-- in front of it or behind it.
pub get_entry_ptr_bounds :
    (lock_size size : ℕ) (r : Region) (i j : ℕ)
    → cache_validate_layout lock_size (some r) size ≡ true
    → size ≤ 2 ^ 32
    → i < r.header.capacity
    → j < r.header.capacity
    → (get_entry_ptr r.header i ≡ sizeof_header lock_size + i * sizeof_entry)
      × (sizeof_header lock_size ≤ get_entry_ptr r.header i)
      × (get_entry_ptr r.header i + sizeof_entry ≤ size)
      × ((i ≡ j)
          ⊎ ((get_entry_ptr r.header i + sizeof_entry ≤ get_entry_ptr r.header j)
              ⊎ (get_entry_ptr r.header j + sizeof_entry ≤ get_entry_ptr r.header i)))
get_entry_ptr_bounds lock_size size r i j h small hi hj =
    let l = cache_validate_layout-IsLaidOut lock_size size r h in
    let at_i = get_entry_ptr_uncut lock_size size r i l small hi in
    let at_j = get_entry_ptr_uncut lock_size size r j l small hj in
    (
      at_i,
      omega (arith, at_i),
      omega (arith, at_i, l.fits.slots),
      elim (dec_lt i j) [
        | yes before ↦ inr (inl (omega (arith, at_i, at_j)))
        | no p ↦ elim (dec_lt j i) [
          | yes behind ↦ inr (inr (omega (arith, at_i, at_j)))
          | no p' ↦ inl (omega arith)
        ]
      ],
    )
