-- ===== src/Benchmark/Implementations.antt =====
-- The two implementations of the cache that bench/benchmark_measurement.cpp compares.
use mem_sync.Base.{
  ℕ, ◌+◌, ◌-◌, ◌^◌, Bool, true, false, ◌&&◌, Option, none, some, List, ◌==◌, leb, if◌then◌else◌,
}
use mem_sync.Benchmark.{bench_hit, bench_update}
use mem_sync.Cache.{PutCalls, GetCalls, cache_put, cache_get}
use mem_sync.Demo.{region_of, buffer_of, was_found}
use mem_sync.Layout.{Region, max_val_len}
use mem_sync.Modify.{UpdateCalls, cache_update}
use mem_sync.Socket.{Reply, pending, failed, answered, Values}
use mem_sync.Socket.Server.{ExchangeCalls, exchange}
use mem_sync.Text.{Bytes, read_cstr, strncpy}

-- What the environment answers to an operation on the table.
pub record PerformCalls : Type 0 where
  pub get : GetCalls
  pub put : PutCalls
  pub update : UpdateCalls

abbrev pub after_read :
    Region → List ℕ → Option Region × Option (List ℕ × ℕ) → Region × Bool × List ℕ
after_read r out (o, result) = (region_of r o, was_found result, buffer_of out result)

abbrev pub after_write : Region → List ℕ → Option Region × Bool → Region × Bool × List ℕ
after_write r out (o, done) = (region_of r o, done, out)

-- The region, the result, and `out_value`.
unfoldable pub perform_shared :
    Region → ℕ → Bytes → Bytes → List ℕ → PerformCalls → Region × Bool × List ℕ
perform_shared r operation key value out calls =
    if operation == b'G'
    then after_read r out (cache_get (some r) (some key) (some out) calls.get)
    else if operation == b'P'
    then after_write r out (cache_put (some r) (some key) (some value) calls.put)
    else after_write r out (cache_update (some r) (some key) (some value) calls.update)

-- From the result of `request` on: whether it completed, `operation_succeeded`, and `out_value`.
unfoldable pub use_reply : Reply → ℕ → List ℕ → Option (Bool × Bool × List ℕ)
use_reply pending operation out = none
use_reply failed operation out = some (false, false, out)
use_reply (answered a) operation out =
    let succeeded = a.status == 1 in
    if leb (2 ^ 31) a.status
    then some (false, false, out)
    else some (
      true,
      succeeded,
      if operation == b'G' && succeeded
          then strncpy out (read_cstr a.value) (max_val_len - 1)
          else out,
    )

-- `none` while a call has not answered.
unfoldable pub perform_socket :
    Values → ℕ → Bytes → Bytes → List ℕ → ExchangeCalls → Values × Option (Bool × Bool × List ℕ)
unfolding use_reply
perform_socket values operation key value out calls =
    let (values', reply) = exchange values operation key (some value) calls in
    (values', use_reply reply operation out)

unfoldable pub prepare_shared : Region → Bytes → PutCalls → PutCalls → Region × Bool
prepare_shared r payload first second =
    let (o, done) = cache_put (some r) (some bench_hit) (some payload) first in
    let (o', done') = cache_put (some (region_of r o)) (some bench_update) (some payload) second in
    if done then (region_of (region_of r o) o', done') else (region_of r o, false)

-- Whether a `request` returned true with the status 1; `none` while it has not returned.
abbrev pub is_done : Reply → Option Bool
is_done pending = none
is_done failed = some false
is_done (answered a) = some (a.status == 1)

abbrev pub with_result : Values → Option Bool → Option (Values × Bool)
with_result values none = none
with_result values (some done) = some (values, done)

abbrev pub prepare_second : Values → Values × Reply → Option Bool → Option (Values × Bool)
prepare_second values second none = none
prepare_second values second (some false) = some (values, false)
prepare_second values (values', reply) (some true) = with_result values' (is_done reply)

unfoldable pub prepare_socket :
    Values → Bytes → ExchangeCalls → ExchangeCalls → Option (Values × Bool)
prepare_socket values payload first second =
    let (values', reply) = exchange values b'P' bench_hit (some payload) first in
    prepare_second values' (exchange values' b'P' bench_update (some payload) second)
      (is_done reply)

-- `shared` with what it selects, on a state that the operations change.
pub record Implementation (S : Type 0) : Type 0 where
  pub prepare : S → Bytes → Option (S × Bool)
  pub perform : S → ℕ → ℕ → Bytes → Bytes → List ℕ → Option (S × Bool × Bool × List ℕ)

-- The answers are numbered over the whole run; the state counts the operations.
abbrev pub shared_memory : PutCalls → PutCalls → (ℕ → PerformCalls) → Implementation (Region × ℕ)
shared_memory first second calls = record {
  prepare = λ s payload.
      let (r', done) = prepare_shared s.0 payload first second in some ((r', s.1), done);
  perform = λ s worker operation key value out.
      let (r', done, out') = perform_shared s.0 operation key value out (calls s.1) in
      some ((r', s.1 + 1), true, done, out');
}

abbrev pub with_values :
    ℕ → Values × Option (Bool × Bool × List ℕ) → Option ((Values × ℕ) × Bool × Bool × List ℕ)
with_values n (values, none) = none
with_values n (values, some (completed, succeeded, out)) =
    some ((values, n), completed, succeeded, out)

abbrev pub with_count : ℕ → Option (Values × Bool) → Option ((Values × ℕ) × Bool)
with_count n none = none
with_count n (some (values, done)) = some ((values, n), done)

abbrev pub unix_socket :
    ExchangeCalls → ExchangeCalls → (ℕ → ExchangeCalls) → Implementation (Values × ℕ)
unix_socket first second calls = record {
  prepare = λ s payload. with_count s.1 (prepare_socket s.0 payload first second);
  perform = λ s worker operation key value out.
      with_values (s.1 + 1) (perform_socket s.0 operation key value out (calls s.1));
}
