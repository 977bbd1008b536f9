-- ===== src/Benchmark/Measurement.antt =====
-- `run_measurement` of bench/benchmark_measurement.cpp, less the clock. An operation of a worker is one
-- step of the timed part, and `schedule` says whose operation comes next.
use mem_sync.Base.{
  ℕ, zero, suc, ◌+◌, ◌*◌, ◌%◌, Bool, true, false, ◌&&◌, ◌||◌, not, Option, none, some, List, [],
  ◌∷◌, ◌==◌, ltb, leb, if◌then◌else◌, replicate, get_or, set, add32, add64, u64_mod,
}
use mem_sync.Benchmark.{bench_hit, expected_result}
use mem_sync.Benchmark.Implementations.{Implementation}
use mem_sync.Layout.{max_val_len}
use mem_sync.Text.{Bytes, read_cstr, strcmp_eq}

unfoldable pub should_succeed : ℕ → Bytes → Bool
should_succeed operation key = not (operation == b'G') || strcmp_eq key bench_hit

abbrev pub same_bool : Bool → Bool → Bool
same_bool b c = if b then c else not c

unfoldable pub is_correct : ℕ → Bytes → Bytes → Bool × Bool × List ℕ → Bool
unfolding should_succeed
is_correct operation key payload (completed, succeeded, out) =
    let should = should_succeed operation key in
    let correct = completed && same_bool succeeded should in
    if correct && (operation == b'G' && should) then strcmp_eq (read_cstr out) payload else correct

abbrev pub judge :
    {S : Type 0} → ℕ → Bytes → Bytes → Option (S × Bool × Bool × List ℕ) → Option (S × Bool)
judge operation key payload none = none
judge operation key payload (some (s, completed, succeeded, out)) =
    some (s, is_correct operation key payload (completed, succeeded, out))

pub record Measurement : Type 0 where
  pub failures : ℕ
  pub operations : ℕ

-- On to the rest of a loop, unless a result was not correct.
abbrev pub while_correct :
    {S : Type 0} → Option (S × Bool) → (S → Option (S × Bool)) → Option (S × Bool)
while_correct none rest = none
while_correct (some (s, false)) rest = some (s, false)
while_correct (some (s, true)) rest = rest s

-- On with a result.
abbrev pub with_judged :
    {S : Type 0} {T : Type 0} → Option (S × Bool) → (S → Bool → Option T) → Option T
with_judged none rest = none
with_judged (some (s, correct)) rest = rest s correct

-- The next index and the failures of each worker.
pub record Counts : Type 0 where
  pub indices : List ℕ
  pub failures : List ℕ

abbrev pub count_result : ℕ → Bool → Counts → Counts
count_result worker correct c = record {
  indices = set c.indices worker (get_or c.indices worker 0 + 1);
  failures =
      if correct then c.failures else set c.failures worker (add64 (get_or c.failures worker 0) 1);
}

abbrev pub sum64 : List ℕ → ℕ
sum64 [] = 0
sum64 (n ∷ ns) = add64 n (sum64 ns)

abbrev pub all_done : List ℕ → ℕ → Bool
all_done [] operations = true
all_done (i ∷ indices) operations = leb operations i && all_done indices operations

module _ {S : Type 0} (impl : Implementation S) (workload payload : Bytes) where
  -- The body of either loop, less the clock.
  unfoldable pub measure_one : S → ℕ → ℕ → Option (S × Bool)
  unfolding is_correct
  measure_one s worker index =
      let (operation, key) = expected_result workload (add32 index worker) in
      judge operation key payload
        (impl.perform s worker operation key payload (replicate max_val_len 0))

  -- The warm-up of a worker, with `n` indices to go; it stops at a result that is not correct.
  unfoldable pub warm_worker : S → ℕ → ℕ → ℕ → Option (S × Bool)
  unfolding measure_one
  warm_worker s worker zero index = some (s, true)
  warm_worker s worker (suc n) index =
      while_correct (measure_one s worker index) (λ s'. warm_worker s' worker n (index + 1))

  -- With `n` workers to go.
  unfoldable pub warm_up : S → ℕ → ℕ → ℕ → Option (S × Bool)
  unfolding warm_worker
  warm_up s warmup zero worker = some (s, true)
  warm_up s warmup (suc n) worker =
      while_correct (warm_worker s worker warmup 0) (λ s'. warm_up s' warmup n (worker + 1))

  -- The loops of the threads: a worker that is not there, or has done its operations, does nothing.
  unfoldable pub timed : S → Counts → ℕ → ℕ → List ℕ → Option (S × Counts)
  unfolding measure_one
  timed s c threads operations [] = some (s, c)
  timed s c threads operations (worker ∷ schedule) =
      let rest = timed s c threads operations schedule in
      if ltb worker threads && ltb (get_or c.indices worker 0) operations
      then with_judged (measure_one s worker (get_or c.indices worker 0))
          (λ s' correct. timed s' (count_result worker correct c) threads operations schedule)
      else rest

  -- The threads have been joined once each has done its operations.
  unfoldable pub joined : ℕ → ℕ → Option (S × Counts) → Option Measurement
  joined threads operations none = none
  joined threads operations (some (s, c)) =
      if all_done c.indices operations
      then some
          (record { failures = sum64 c.failures; operations = threads * operations % u64_mod })
      else none

  abbrev pub unless_failed : Option (S × Bool) → (S → Option Measurement) → Option Measurement
  unless_failed none rest = none
  unless_failed (some (s, false)) rest = some (record { failures = 1; operations = 0 })
  unless_failed (some (s, true)) rest = rest s

  -- `none` while a call has not answered, or a thread has not ended.
  unfoldable pub run_measurement : S → ℕ → ℕ → List ℕ → Option Measurement
  unfolding warm_up timed joined
  run_measurement s threads operations schedule =
      let warmup = if leb 100 operations then 100 else operations in
      unless_failed (impl.prepare s payload) (λ s'.
        unless_failed (warm_up s' warmup threads 0) (λ s''. joined threads operations (
          timed s'' (record { indices = replicate threads 0; failures = replicate threads 0 })
            threads operations schedule)))
