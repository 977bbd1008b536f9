-- ===== src/Benchmark/Workload.antt =====
-- The requests of a workload.
use mem_sync.Base.{ℕ, ◌≡◌, ◌%◌, refl, Bool, true, false, ◌==◌, some, if◌then◌else◌}
use mem_sync.Benchmark.{
  bench_hit, bench_miss, bench_put, bench_update, is_get_hit, is_get_miss, is_put_update,
  expected_result,
}
use mem_sync.Cache.{valid_key_argument}
use mem_sync.Text.{Bytes}

-- A request that the benchmark's cases know: reads of the key that is there or of the one that is
-- not, writes of the new key, and updates of the other key.
pub data IsRequest : ℕ × Bytes → Type 0 where
  reads_hit : IsRequest (b'G', bench_hit)
  reads_miss : IsRequest (b'G', bench_miss)
  puts : IsRequest (b'P', bench_put)
  updates : IsRequest (b'U', bench_update)

if-IsRequest :
    (b : Bool) {x y : ℕ × Bytes} → IsRequest x → IsRequest y → IsRequest (if b then x else y)
if-IsRequest true h k = h
if-IsRequest false h k = k

pub expected_result-IsRequest :
    (workload : Bytes) (index : ℕ) → IsRequest (expected_result workload index)
unfolding expected_result
expected_result-IsRequest workload index = if-IsRequest (is_get_hit workload) reads_hit (
    if-IsRequest (is_get_miss workload) reads_miss (
      if-IsRequest (is_put_update workload) (if-IsRequest (index % 2 == 0) puts updates) (
        if-IsRequest (index % 4 == 0) reads_hit
          (if-IsRequest (index % 4 == 1) reads_miss (if-IsRequest (index % 4 == 2) puts updates)))))

IsRequest-accepted : (p : ℕ × Bytes) → IsRequest p → valid_key_argument (some p.1) ≡ true
unfolding valid_key_argument
IsRequest-accepted _ reads_hit = refl
IsRequest-accepted _ reads_miss = refl
IsRequest-accepted _ puts = refl
IsRequest-accepted _ updates = refl

-- Each request of a workload reads the key that is there or the one that is not, writes the new key,
-- or updates the other key, and the cache accepts its key.
pub expected_result-accepted :
    (workload : Bytes) (index : ℕ)
    → IsRequest (expected_result workload index)
      × (valid_key_argument (some (expected_result workload index).1) ≡ true)
expected_result-accepted workload index =
    let h = expected_result-IsRequest workload index in (h, IsRequest-accepted _ h)
