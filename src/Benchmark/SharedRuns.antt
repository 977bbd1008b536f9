-- ===== src/Benchmark/SharedRuns.antt =====
-- The writes of the benchmark to the table, and its whole runs on it.
use mathlib.Core.Path.{subst}
use mem_sync.Base.{
  arith, ℕ, ◌+◌, ◌≤◌, ◌<◌, ◌≡◌, refl, ap, inl, inr, Bool, true, Option, some, List, replicate, ◌*◌,
  ◌%◌, u64_mod,
}
use mem_sync.Benchmark.{bench_miss, bench_put, bench_update}
use mem_sync.Benchmark.Implementations.{PerformCalls, perform_shared, shared_memory}
use mem_sync.Benchmark.Measurement.{should_succeed, run_measurement}
use mem_sync.Benchmark.Sound.{Performs, IsSound}
use mem_sync.Benchmark.Timed.{turns, run_measurement_sound}
use mem_sync.Benchmark.Workload.{IsRequest, reads_hit, reads_miss, puts, updates}
use mem_sync.Cache.{PutCalls, cache_put, cache_put_ttl, valid_key_argument}
use mem_sync.Contract.Again.{put_again-Represents}
use mem_sync.Contract.Reference.{Represents, with_cell, item_cell, has_cell, put-Represents}
use mem_sync.Contract.Writes.{update-Represents}
use mem_sync.Demo.Fresh.{IsFresh-Represents}
use mem_sync.Lifecycle.Opening.{IsFresh}
use mem_sync.Layout.{Region, max_val_len}
use mem_sync.Sharing.View.{view, cell_of}
use mem_sync.Spec.{Cell, is_due, rewritten}
use mem_sync.Text.{Bytes, strcmp_eq}
use mem_sync.Benchmark.Shared.{
  AreGranted, IsPayload, HasRoom, IsGood, entry, put-IsItem, prepares-shared,
}
use mem_sync.Benchmark.SharedRequests.{hit-Performs, miss-Performs}

module _ (capacity : ℕ) (payload : Bytes) (ok : IsPayload payload) (s : Region × ℕ)
    (good : IsGood capacity payload s) (calls : PerformCalls) (granted : AreGranted calls) where
  abbrev out₀ : List ℕ
  out₀ = replicate max_val_len 0

  abbrev counted : Region × Bool × List ℕ → Option ((Region × ℕ) × Bool × Bool × List ℕ)
  counted (r', done, out') = some ((r', s.1 + 1), true, done, out')

  abbrev put_cell : Cell
  put_cell = item_cell (entry bench_put payload) calls.put.write_time

  abbrev PutRun : Region → Type 0
  PutRun r' = cache_put_ttl (some s.0) (some bench_put) (some payload) 0 calls.put ≡ (some r', true)

  -- The put is done, whether the key was there or not.
  put_bench :
      (r' : Region) × (n : ℕ) × PutRun r'
      × Represents r' capacity n (with_cell bench_put (some put_cell) good.map)
  put_bench = elim good.room [
    | inl room ↦
        let (r', run, h') =
          put-Represents s.0 capacity good.entries good.map (entry bench_put payload) calls.put
            good.represents room (put-IsItem payload ok) granted.put in
        (r', good.entries + 1, run, h')
    | inr (c, there) ↦
        let (r', run, h') =
          put_again-Represents s.0 capacity good.entries good.map c (entry bench_put payload)
            calls.put good.represents there (put-IsItem payload ok) granted.put in
        (r', good.entries, run, h')
  ]

  put-Performs :
      Performs
        (IsGood capacity payload)
        payload
        (b'P', bench_put)
        (counted (perform_shared s.0 b'P' bench_put payload out₀ calls))
  unfolding perform_shared should_succeed cache_put
  put-Performs =
      let (r', n, run, h') = put_bench in
      record {
        state = (r', s.1 + 1);
        out = out₀;
        answers = rw run refl;
        good =
            unfold strcmp_eq in
            record {
              entries = n;
              map = with_cell bench_put (some put_cell) good.map;
              represents = h';
              hit = record {
                cell = good.hit.cell;
                stored = good.hit.stored;
                no_ttl = good.hit.no_ttl;
              };
              hit_value = good.hit_value;
              update = record {
                cell = good.update.cell;
                stored = good.update.stored;
                no_ttl = good.update.no_ttl;
              };
              miss = good.miss;
              room = inr (put_cell, refl);
            };
        shows = λ e. absurd cc;
      }

  abbrev updated : Cell → Cell
  updated c = record c { value = payload; written = calls.update.write_time }

  rewritten_lem :
      rewritten payload calls.update.check_time calls.update.write_time (good.map bench_update)
      ≡ some (updated good.update.cell)
  unfolding rewritten is_due
  rewritten_lem =
      rw (good.update.stored, good.update.no_ttl)
        (λ i. some (updated (record good.update.cell { ttl = 0 })))

  update-Performs :
      Performs
        (IsGood capacity payload)
        payload
        (b'U', bench_update)
        (counted (perform_shared s.0 b'U' bench_update payload out₀ calls))
  unfolding perform_shared should_succeed
  update-Performs =
      let key : valid_key_argument (some bench_update) ≡ true = unfold valid_key_argument in refl in
      let (r', run, h') =
        update-Represents s.0 capacity good.entries good.map bench_update payload calls.update
          good.represents key ok.short ok.terminated granted.update in
      let done = ap has_cell rewritten_lem in
      let m' = with_cell bench_update (some (updated good.update.cell)) good.map in
      record {
        state = (r', s.1 + 1);
        out = out₀;
        answers = rw run (ap (λ (b : Bool). some ((r', s.1 + 1), true, b, out₀)) done);
        good =
            unfold strcmp_eq in
            record {
              entries = good.entries;
              map = m';
              represents =
                  subst
                    (λ (o : Option Cell).
                      Represents r' capacity good.entries (with_cell bench_update o good.map))
                    rewritten_lem h';
              hit = record {
                cell = good.hit.cell;
                stored = good.hit.stored;
                no_ttl = good.hit.no_ttl;
              };
              hit_value = good.hit_value;
              update = record {
                cell = updated good.update.cell;
                stored = refl;
                no_ttl = good.update.no_ttl;
              };
              miss = good.miss;
              room = good.room;
            };
        shows = λ e. absurd cc;
      }

module _ (capacity : ℕ) (payload : Bytes) (ok : IsPayload payload) (first second : PutCalls)
    (calls : ℕ → PerformCalls) (one : first.locked ≡ true) (two : second.locked ≡ true)
    (granted : (n : ℕ) → AreGranted (calls n)) where
  shared-Performs :
      (s : Region × ℕ) (worker : ℕ) (q : ℕ × Bytes)
      → IsGood capacity payload s
      → IsRequest q
      → Performs (IsGood capacity payload) payload q (
          (shared_memory first second calls).perform s worker q.0 q.1 payload
            (replicate max_val_len 0))
  shared-Performs s worker _ good reads_hit =
      hit-Performs capacity payload ok s good (calls s.1) (granted s.1)
  shared-Performs s worker _ good reads_miss =
      miss-Performs capacity payload ok s good (calls s.1) (granted s.1)
  shared-Performs s worker _ good puts =
      put-Performs capacity payload ok s good (calls s.1) (granted s.1)
  shared-Performs s worker _ good updates =
      update-Performs capacity payload ok s good (calls s.1) (granted s.1)

  shared-IsSound :
      IsSound
        (shared_memory first second calls)
        payload
        (HasRoom capacity)
        (IsGood capacity payload)
  shared-IsSound = record {
    prepares = prepares-shared capacity payload ok first second calls one two granted;
    performs = shared-Performs;
  }

-- On a table with room for three entries, which does not store the key that is to be missed, with the
-- locks granted and no other operation between the two critical sections of a get, a run of the
-- benchmark on shared memory reports no failure and the operations of all its threads, for every
-- workload, every payload that the cache accepts, and every order in which the threads take their
-- turns, if each gets at least as many as it has operations.
pub run_measurement-shared :
    (capacity : ℕ) (workload payload : Bytes) (first second : PutCalls) (calls : ℕ → PerformCalls)
    (r : Region) (threads operations : ℕ) (schedule : List ℕ)
    → IsPayload payload
    → first.locked ≡ true
    → second.locked ≡ true
    → ((n : ℕ) → AreGranted (calls n))
    → HasRoom capacity (r, 0)
    → ((v : ℕ) → v < threads → operations ≤ turns v schedule)
    → run_measurement
        (shared_memory first second calls)
        workload
        payload
        (r, 0)
        threads
        operations
        schedule
      ≡ some (record { failures = 0; operations = threads * operations % u64_mod })
run_measurement-shared capacity workload payload first second calls r threads operations schedule ok
      one two granted room enough =
    run_measurement_sound (shared_memory first second calls) workload payload (HasRoom capacity)
      (IsGood capacity payload)
      (shared-IsSound capacity payload ok first second calls one two granted) threads operations
      (r, 0) schedule room enough

-- A table that a process has just created is ready for the benchmark.
IsFresh-HasRoom : (r : Region) → IsFresh r → HasRoom 1000 (r, 0)
IsFresh-HasRoom r f = record {
  entries = 0;
  map = view r;
  represents = IsFresh-Represents r f;
  miss = ap cell_of (f.vacant bench_miss);
  room = omega arith;
}
