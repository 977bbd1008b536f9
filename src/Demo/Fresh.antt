-- ===== src/Demo/Fresh.antt =====
-- A created object represents an empty map, and what src/main.cpp makes of one.
use mem_sync.Base.{
  ℕ, suc, ◌<◌, ◌≡◌, refl, ap, ◌∙◌, inl, inr, true, false, none, some, List, [], ◌∷◌, arith, get_or,
  Bool-cases, dec_lt,
}
use mem_sync.Contract.Reference.{Represents}
use mem_sync.Demo.{gone}
use mem_sync.Demo.Standalone.{
  TourCalls, final_code, take_tour, tour_opened, reset_refused, standalone_main,
}
use mem_sync.Demo.Tour.{IsGranted, expected, tour-expected}
use mem_sync.Layout.{
  CacheEntry, Region, LockCalls, is_occupied, at, cache_init_lock, valid_capacity,
  cache_shared_memory_size, cache_default_capacity,
}
use mem_sync.Lifecycle.{
  unlinked, closed, created_object, mapped_memory, unmapped_memory, OpenCalls, unopened,
  cache_shared_memory_name, cache_open_shared, cache_close_shared,
}
use mem_sync.Lifecycle.Handover.{creating, cache_open_shared-hands_over}
use mem_sync.Lifecycle.Opening.{IsFresh}
use mem_sync.Sharing.View.{cell_of, view, slot-cell}
use mem_sync.Table.Invariant.{count_occupied}
use mem_sync.Table.View.{slot}
use mem_sync.Telemetry.{Doubles, Report, report}
use mem_sync.Text.{read_cstr}

occupied_slot :
    (s : List CacheEntry) → 0 < count_occupied s → (i : ℕ) × (is_occupied (slot s i) ≡ true)
unfolding count_occupied get_or
occupied_slot [] h = absurd (omega arith)
occupied_slot (e ∷ s) h = elim (Bool-cases (is_occupied e)) [
  | inl taken ↦ (0, taken)
  | inr free ↦ let (i, taken) = occupied_slot s (ground arith) in (suc i, taken)
]

-- A table that stores nothing has no entries.
pub IsFresh-count : (r : Region) → IsFresh r → r.header.entry_count ≡ 0
IsFresh-count r f = elim (dec_lt 0 (count_occupied r.slots)) [
  | no p ↦ omega (arith, f.valid.counted)
  | yes p ↦
      let (i, taken) = occupied_slot r.slots p in
      let stands = (slot-cell r f.valid i taken).1 in
      cc (stands, ap cell_of (f.vacant (read_cstr (at r i).key)))
]

pub IsFresh-Represents : (r : Region) → IsFresh r → Represents r 1000 0 (view r)
IsFresh-Represents r f = record {
  valid = f.valid;
  slots = f.capacity;
  count = omega (arith, IsFresh-count r f);
  cells = refl;
}

-- If the default table fits, its lock can be made, no call of the operating system fails, the locks
-- are granted, no other process comes between, and the entry with two seconds is read once before they
-- have passed and once after, src/main.cpp exits with 0 and prints that each of its calls did what it
-- was made for: the entry is found, deleted and then absent, and the one with two seconds is found the
-- first time and not the second. The object is unlinked before and after.
pub standalone_main-expected :
    {D : Type 0} (d : Doubles D) (lock_size fd : ℕ) (memory : Region) (lock : LockCalls)
    (calls : TourCalls)
    → valid_capacity lock_size cache_shared_memory_size cache_default_capacity ≡ true
    → cache_init_lock (some memory.header) lock ≡ true
    → calls.open_calls ≡ creating fd memory lock
    → reset_refused calls.reset ≡ false
    → calls.final ≡ gone
    → IsGranted calls
    → (last : Report D) × (standalone_main d lock_size calls ≡ record {
      code = 0;
      lines = expected d last;
      events =
          unlinked cache_shared_memory_name
          ∷ created_object cache_shared_memory_name fd
          ∷ mapped_memory cache_shared_memory_size
          ∷ unmapped_memory cache_shared_memory_size
          ∷ closed fd
          ∷ unlinked cache_shared_memory_name
          ∷ [];
    })
unfolding standalone_main tour_opened take_tour final_code cache_close_shared
standalone_main-expected d lock_size fd memory lock calls fits made opens reset final ok =
    let (r, run, fresh, later) =
      cache_open_shared-hands_over lock_size unopened none fd memory lock fits made in
    let opened =
      ap (λ (c : OpenCalls). cache_open_shared lock_size (some unopened) true none c) opens ∙ run in
    let (r', k, m, h, lines) =
      tour-expected d r 1000 0 (view r) calls (IsFresh-Represents r fresh) (omega arith) ok in
    (
      report d r'.header,
      rw (reset, opened)
          (λ i. record {
            code = final_code (final i);
            lines = lines i;
            events =
                unlinked cache_shared_memory_name
                ∷ created_object cache_shared_memory_name fd
                ∷ mapped_memory cache_shared_memory_size
                ∷ unmapped_memory cache_shared_memory_size
                ∷ closed fd
                ∷ unlinked cache_shared_memory_name
                ∷ [];
          }),
    )
