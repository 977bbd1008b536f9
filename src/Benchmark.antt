-- ===== src/Benchmark.antt =====
-- `csv_quote` of bench/benchmark_reporting.cpp, and `expected_result` of
-- bench/benchmark_measurement.cpp, which chooses the operation of a request and its key.
pub mod Implementations
pub mod CpuModel
pub mod Options
pub mod Counting
pub mod Measurement
pub mod Sound
pub mod Timed
pub mod Shared
pub mod SharedRequests
pub mod SharedRuns
pub mod SocketRuns
pub mod Quoting
pub mod Workload
use mem_sync.Base.{ℕ, ◌%◌, Bool, true, false, List, [], ◌∷◌, ◌++◌, ◌==◌, if◌then◌else◌}
use mem_sync.Text.{Bytes, strcmp_eq}

-- The loop: a quote is doubled.
unfoldable pub double_quotes : Bytes → Bytes
double_quotes [] = []
double_quotes (c ∷ s) =
    let rest = double_quotes s in if c == b'"' then b'"' ∷ c ∷ rest else c ∷ rest

unfoldable pub csv_quote : Bytes → Bytes
unfolding double_quotes
csv_quote value = b'"' ∷ double_quotes value ++ b'"' ∷ []

-- The keys of the requests.
abbrev pub bench_hit : Bytes
bench_hit = b'b' ∷ b'e' ∷ b'n' ∷ b'c' ∷ b'h' ∷ b'-' ∷ b'h' ∷ b'i' ∷ b't' ∷ []

abbrev pub bench_miss : Bytes
bench_miss = b'b' ∷ b'e' ∷ b'n' ∷ b'c' ∷ b'h' ∷ b'-' ∷ b'm' ∷ b'i' ∷ b's' ∷ b's' ∷ []

abbrev pub bench_put : Bytes
bench_put = b'b' ∷ b'e' ∷ b'n' ∷ b'c' ∷ b'h' ∷ b'-' ∷ b'p' ∷ b'u' ∷ b't' ∷ []

abbrev pub bench_update : Bytes
bench_update =
    b'b' ∷ b'e' ∷ b'n' ∷ b'c' ∷ b'h' ∷ b'-' ∷ b'u' ∷ b'p' ∷ b'd' ∷ b'a' ∷ b't' ∷ b'e' ∷ []

-- The tests of the workload's name.
unfoldable pub is_get_hit : Bytes → Bool
is_get_hit workload = strcmp_eq workload (b'g' ∷ b'e' ∷ b't' ∷ b'_' ∷ b'h' ∷ b'i' ∷ b't' ∷ [])

unfoldable pub is_get_miss : Bytes → Bool
is_get_miss workload =
    strcmp_eq workload (b'g' ∷ b'e' ∷ b't' ∷ b'_' ∷ b'm' ∷ b'i' ∷ b's' ∷ b's' ∷ [])

unfoldable pub is_put_update : Bytes → Bool
is_put_update workload =
    strcmp_eq workload (b'p' ∷ b'u' ∷ b't' ∷ b'_' ∷ b'u' ∷ b'p' ∷ b'd' ∷ b'a' ∷ b't' ∷ b'e' ∷ [])

-- `*operation` and `*key`; `*value` is always null, and the result always true.
unfoldable pub expected_result : Bytes → ℕ → ℕ × Bytes
expected_result workload index =
    if is_get_hit workload
    then (b'G', bench_hit)
    else if is_get_miss workload
    then (b'G', bench_miss)
    else if is_put_update workload
    then (if index % 2 == 0 then (b'P', bench_put) else (b'U', bench_update))
    else if index % 4 == 0
    then (b'G', bench_hit)
    else if index % 4 == 1
    then (b'G', bench_miss)
    else if index % 4 == 2
    then (b'P', bench_put)
    else (b'U', bench_update)
