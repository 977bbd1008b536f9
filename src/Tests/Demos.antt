-- ===== src/Tests/Demos.antt =====
-- The demo programs, with a whole number for a double.
use mem_sync.Base.{
  ℕ, ◌+◌, ◌*◌, ◌/◌, ◌<◌, ◌≡◌, refl, true, false, some, [], ◌∷◌, arith, map, replicate,
  length-replicate, ltb, ◌==◌, if◌then◌else◌,
}
use mem_sync.Demo.{gone, no_entry, region_of}
use mem_sync.Demo.Alone.{IsAlone}
use mem_sync.Demo.Exchange.{WriterCalls, ReaderCalls, records, writer_main, reader_main}
use mem_sync.Demo.Fresh.{standalone_main-expected}
use mem_sync.Demo.Handing.{round, writer_main-then-reader_main}
use mem_sync.Demo.Reading.{lines_of}
use mem_sync.Demo.Standalone.{TourCalls, reset_refused, standalone_main}
use mem_sync.Demo.Tour.{IsGranted, expected}
use mem_sync.Demo.Writing.{result_of, success_of}
use mem_sync.Layout.{max_val_len, cache_shared_memory_size}
use mem_sync.Lifecycle.{
  unlinked, closed, created_object, mapped_memory, unmapped_memory, cache_shared_memory_name,
}
use mem_sync.Lifecycle.Handover.{creating, attaching}
use mem_sync.Telemetry.{Doubles, Report, cache_print_telemetry}
use mem_sync.Telemetry.Ratios.{cache_print_telemetry-agrees}
use mem_sync.Tests.{lock_size, empty_region, lock_works, put_at, get_at}
use mem_sync.Tests.Lifecycle.{default_fits, lock_made}

-- A quotient by zero is the given number.
abbrev whole_numbers : ℕ → Doubles ℕ
whole_numbers by_zero = record {
  of_nat = λ n. n;
  div = λ x n. if n == 0 then by_zero else x / n;
  mul = λ x y. x * y;
  gt = λ x y. ltb y x;
}

off_zero : (a b x n : ℕ) → 0 < n → (if n == 0 then a else x / n) ≡ (if n == 0 then b else x / n)
off_zero a b x n h = ground arith

cache_print_telemetry-agrees_example :
    cache_print_telemetry (whole_numbers 0) (some empty_region) true
    ≡ cache_print_telemetry (whole_numbers 7) (some empty_region) true
cache_print_telemetry-agrees_example =
    cache_print_telemetry-agrees (whole_numbers 0) (whole_numbers 7)
      (record {
        of_nat = λ n. refl;
        div = λ x n h. off_zero 0 7 x n h;
        mul = λ x y. refl;
        gt = λ x y. refl;
      })
      (some empty_region) true

get_at-IsAlone : (now : ℕ) → IsAlone (get_at now)
get_at-IsAlone now = record { read_lock = refl; write_lock = refl; between = λ r. refl }

-- The session is stored at 100, read at 100, and read again at 103.
abbrev tour_calls : TourCalls
tour_calls = record {
  reset = no_entry;
  open_calls = creating 3 empty_region lock_works;
  put_lead = put_at 100;
  get_lead = get_at 100;
  delete_lock = true;
  get_deleted = get_at 100;
  put_dev = put_at 100;
  put_session = put_at 100;
  get_early = get_at 100;
  get_late = get_at 103;
  telemetry_lock = true;
  final = gone;
}

tour_calls-IsGranted : IsGranted tour_calls
tour_calls-IsGranted = record {
  put_lead = refl;
  get_lead = get_at-IsAlone 100;
  delete_lock = refl;
  get_deleted = get_at-IsAlone 100;
  put_dev = refl;
  put_session = refl;
  get_early = get_at-IsAlone 100;
  get_late = get_at-IsAlone 103;
  telemetry_lock = refl;
  in_time = omega arith;
  too_late = omega arith;
}

not_refused : reset_refused no_entry ≡ false
unfolding reset_refused
not_refused = refl

standalone_main-expected_example :
    (last : Report ℕ) × (standalone_main (whole_numbers 0) lock_size tour_calls ≡ record {
      code = 0;
      lines = expected (whole_numbers 0) last;
      events =
          unlinked cache_shared_memory_name
          ∷ created_object cache_shared_memory_name 3
          ∷ mapped_memory cache_shared_memory_size
          ∷ unmapped_memory cache_shared_memory_size
          ∷ closed 3
          ∷ unlinked cache_shared_memory_name
          ∷ [];
    })
standalone_main-expected_example =
    standalone_main-expected (whole_numbers 0) lock_size 3 empty_region lock_works tour_calls
      default_fits lock_made refl not_refused refl tour_calls-IsGranted

-- The puts are two seconds apart.
abbrev writer : WriterCalls
writer = record {
  open_calls = creating 3 empty_region lock_works;
  others = λ i r. r;
  put = λ i. put_at (100 + 2 * i);
  others_after = λ i r. r;
  read_lock = λ i. true;
}

abbrev reader : ReaderCalls
reader = record {
  open_calls =
      attaching 4 (region_of empty_region (writer_main lock_size writer).region) lock_works;
  garbage = replicate max_val_len 7;
  others = λ tick i r. r;
  get = λ tick i. get_at (110 + 2 * tick);
  telemetry_lock = λ tick. true;
}

writer_main-then-reader_main_example :
    ((writer_main lock_size writer).code ≡ 0)
    × (map result_of (writer_main lock_size writer).lines ≡ map success_of records)
    × ((reader_main (whole_numbers 0) lock_size reader).code ≡ 0)
    × (lines_of (reader_main (whole_numbers 0) lock_size reader).ticks
        ≡ replicate 5 (round writer.put))
writer_main-then-reader_main_example =
    writer_main-then-reader_main (whole_numbers 0) lock_size 3 4 empty_region lock_works lock_works
      writer reader default_fits lock_made refl refl
      (record {
        put = λ i. refl;
        read_lock = λ i. refl;
        others = λ i r. refl;
        others_after = λ i r. refl;
      })
      (record { get = λ tick i. get_at-IsAlone (110 + 2 * tick); others = λ tick i r. refl })
      (length-replicate max_val_len 7)
