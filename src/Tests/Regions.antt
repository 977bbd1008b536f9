-- ===== src/Tests/Regions.antt =====
-- The theorems on the region's layout, its creation and its sharing.
use mem_sync.Base.{ℕ, ◌+◌, ◌*◌, ◌⊎◌, ◌≤◌, ◌≡◌, refl, Bool, true, none, some, arith}
use mem_sync.Layout.{
  Region, sizeof_header, sizeof_entry, get_entry_ptr, cache_validate_layout, validate_ready_header,
  cache_initialize_region, cache_init_lock, valid_capacity,
}
use mem_sync.Layout.Bounds.{FitsIn, get_entry_ptr_bounds}
use mem_sync.Layout.Init.{cache_initialize_region_lem}
use mem_sync.Table.View.{find_entry}
use mem_sync.Table.Invariant.{IsValid}
use mem_sync.Sharing.{Reach, here, next, put}
use mem_sync.Sharing.Reachable.{published_region_stays-IsValid}
use mem_sync.Text.{Bytes}
use mem_sync.Tests.Runs.{program, makes_two_slots}
use mem_sync.Tests.{
  lock_size, size, empty_region, lock_works, item_a, item_c, item_a-IsItem, item_c-IsItem, put_at,
  two_entries,
}

laid_out : cache_validate_layout lock_size (some empty_region) size ≡ true
unfolding program
laid_out = refl

get_entry_ptr_bounds_example :
    (get_entry_ptr empty_region.header 1 ≡ sizeof_header lock_size + 1 * sizeof_entry)
    × (sizeof_header lock_size ≤ get_entry_ptr empty_region.header 1)
    × (get_entry_ptr empty_region.header 1 + sizeof_entry ≤ size)
    × (◌≡◌ {A = ℕ} 1 0
        ⊎ ((get_entry_ptr empty_region.header 1 + sizeof_entry
              ≤ get_entry_ptr empty_region.header 0)
            ⊎ (get_entry_ptr empty_region.header 0 + sizeof_entry
                ≤ get_entry_ptr empty_region.header 1)))
get_entry_ptr_bounds_example =
    get_entry_ptr_bounds lock_size size empty_region 1 0 laid_out (omega arith) (omega arith)
      (omega arith)

two_fit : valid_capacity lock_size size 2 ≡ true
unfolding program
two_fit = refl

cache_initialize_region_lem_example :
    (r : Region) × (done : Bool) × (cache_initialize_region lock_size
        (some two_entries)
        size
        2
        lock_works
      ≡ (some r, done))
    × (done ≡ cache_init_lock (some two_entries.header) lock_works)
    × (cache_validate_layout lock_size (some r) size ≡ done)
    × (r.header.capacity ≡ 2)
    × IsValid r
    × ((q : Bytes) → find_entry q r.slots ≡ none)
cache_initialize_region_lem_example =
    cache_initialize_region_lem lock_size size 2 two_entries lock_works two_fit (omega arith)

three_do_not_fit : ¬ FitsIn lock_size size 3
three_do_not_fit f = absurd (omega (arith, f.slots))

two_puts : Reach empty_region two_entries
two_puts =
    next (next here (put empty_region item_a (put_at 100) item_a-IsItem))
      (put _ item_c (put_at 101) item_c-IsItem)

published_region_stays-IsValid_example :
    IsValid two_entries × (validate_ready_header lock_size (some two_entries) size true ≡ true)
published_region_stays-IsValid_example =
    published_region_stays-IsValid lock_size size 2 two_entries empty_region two_entries lock_works
      (omega arith) makes_two_slots two_puts
