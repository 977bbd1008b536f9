-- ===== src/Demo/Handing.antt =====
-- src/writer.cpp and src/reader.cpp one after the other.
use mem_sync.Base.{
  ℕ, ◌≡◌, refl, ap, ◌∙◌, true, false, none, some, List, [], ◌∷◌, map, arith, length, replicate,
}
use mem_sync.Cache.{PutCalls}
use mem_sync.Cache.{valid_key_argument}
use mem_sync.Contract.Reference.{item_cell}
use mem_sync.Demo.{region_of}
use mem_sync.Demo.Exchange.{
  user_1, alice, user_2, bob, status, active, keys, records, WriterCalls, write_from, write_all,
  write_opened, writer_main, read_all, read_opened, reader_main, ReaderCalls, GetLine,
}
use mem_sync.Layout.{
  Region, LockCalls, max_val_len, cache_init_lock, valid_capacity, cache_shared_memory_size,
  cache_default_capacity,
}
use mem_sync.Lifecycle.{
  opened_object, mapped_memory, OpenCalls, unopened, cache_shared_memory_name, cache_open_shared,
}
use mem_sync.Lifecycle.Handover.{creating, attaching, mapping_of, cache_open_shared-hands_over}
use mem_sync.Demo.Fresh.{IsFresh-Represents}
use mem_sync.Sharing.{here}
use mem_sync.Sharing.View.{view}
use mem_sync.Spec.{Map}
use mem_sync.Telemetry.{Doubles}
use mem_sync.Text.{Bytes, strcmp_eq}
use mem_sync.Demo.Writing.{
  IsWriterAlone, AreItems, entry, written, result_of, success_of, write_from-Writes,
}
use mem_sync.Demo.Reading.{
  IsReaderAlone, IsLasting, AreLasting, line_of, lines_of, read_ticks-lines,
}

records-AreItems : AreItems records
records-AreItems = omega arith

-- The map after the writer.
abbrev final_map : Map → (ℕ → PutCalls) → Map
final_map m puts = written m records puts 0

lasts :
    (m : Map) (puts : ℕ → PutCalls) (p : Bytes × Bytes) (i : ℕ)
    → final_map m puts p.0 ≡ some (item_cell (entry p) (puts i).write_time)
    → IsLasting (final_map m puts) p.0
lasts m puts p i stored = record {
  cell = item_cell (entry p) (puts i).write_time;
  stored = stored;
  no_ttl = refl;
}

final_map-AreLasting : (m : Map) (puts : ℕ → PutCalls) → AreLasting (final_map m puts) keys
unfolding valid_key_argument strcmp_eq
final_map-AreLasting m puts = (
  refl,
  lasts m puts (user_1, alice) 0 refl,
  (refl, lasts m puts (user_2, bob) 1 refl, (refl, lasts m puts (status, active) 2 refl, _)),
)

-- The lines of a round once the writer is done.
abbrev pub round : (ℕ → PutCalls) → List GetLine
round puts =
    (user_1, some (alice, (puts 0).write_time))
    ∷ (user_2, some (bob, (puts 1).write_time))
    ∷ (status, some (active, (puts 2).write_time))
    ∷ []

final_map-round :
    (m : Map) (puts : ℕ → PutCalls) → map (line_of (final_map m puts)) keys ≡ round puts
unfolding strcmp_eq
final_map-round m puts = refl

module _ {D : Type 0} (d : Doubles D) where
  -- If the default table fits, its lock can be made, no call of the operating system fails, the locks
  -- are granted, and no third process comes between, src/writer.cpp makes the object, all its puts
  -- succeed, and it exits with 0; src/reader.cpp, which then opens the object as the writer left it and
  -- has a buffer of the size of a value, exits with 0, and each of its five rounds shows the three
  -- values that were written, with the times of their puts.
  pub writer_main-then-reader_main :
      (lock_size fd fd' : ℕ) (memory : Region) (lock lock' : LockCalls) (w : WriterCalls)
      (reads : ReaderCalls)
      → valid_capacity lock_size cache_shared_memory_size cache_default_capacity ≡ true
      → cache_init_lock (some memory.header) lock ≡ true
      → w.open_calls ≡ creating fd memory lock
      → reads.open_calls ≡ attaching fd' (region_of memory (writer_main lock_size w).region) lock'
      → IsWriterAlone w
      → IsReaderAlone reads
      → length reads.garbage ≡ max_val_len
      → ((writer_main lock_size w).code ≡ 0)
        × (map result_of (writer_main lock_size w).lines ≡ map success_of records)
        × ((reader_main d lock_size reads).code ≡ 0)
        × (lines_of (reader_main d lock_size reads).ticks ≡ replicate 5 (round w.put))
  unfolding writer_main write_opened write_all reader_main read_opened read_all
  writer_main-then-reader_main lock_size fd fd' memory lock lock' w reads fits made opens opens'
        alone alone' sized =
      let (r, run, fresh, later) =
        cache_open_shared-hands_over lock_size unopened none fd memory lock fits made in
      let opened =
        ap (λ (c : OpenCalls). cache_open_shared lock_size (some unopened) true none c) opens
        ∙ run in
      let all =
        write_from-Writes r r 1000 0 (view r) records w 0 alone records-AreItems (omega arith)
          (IsFresh-Represents r fresh) here in
      let r' = (write_from r records w 0).0 in
      let left : region_of memory (writer_main lock_size w).region ≡ r' = rw opened refl in
      let attached : cache_open_shared lock_size (some unopened) false none reads.open_calls ≡ (
        some (mapping_of fd' r' false),
        true,
        opened_object cache_shared_memory_name fd' ∷ mapped_memory cache_shared_memory_size ∷ [],
      ) =
        ap (λ (c : OpenCalls). cache_open_shared lock_size (some unopened) false none c)
          (opens' ∙ ap (λ (x : Region). attaching fd' x lock') left)
        ∙ later r' unopened false fd' lock' all.reach in
      let rounds =
        read_ticks-lines d r' 1000 3 (final_map (view r) w.put) reads.garbage reads 5 0 alone'
          (final_map-AreLasting (view r) w.put) all.represents sized
        ∙ ap (λ (l : List GetLine). replicate 5 l) (final_map-round (view r) w.put) in
      rw (opened, attached) (rw all.done refl, all.lines, refl, rounds)
