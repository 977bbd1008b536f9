-- ===== src/Tests/Rounds.antt =====
-- Runs of the benchmark: two threads with three operations each, which take turns unevenly.
use mem_sync.Base.{
  ℕ, zero, suc, ◌*◌, ◌%◌, ◌≤◌, ◌<◌, ◌≡◌, refl, none, some, List, [], ◌∷◌, arith, replicate, u64_mod,
}
use mem_sync.Benchmark.{bench_miss}
use mem_sync.Benchmark.Implementations.{PerformCalls, shared_memory, unix_socket}
use mem_sync.Benchmark.Measurement.{run_measurement}
use mem_sync.Benchmark.Shared.{AreGranted, IsPayload, HasRoom}
use mem_sync.Benchmark.SharedRuns.{run_measurement-shared}
use mem_sync.Benchmark.SocketRuns.{run_measurement-socket}
use mem_sync.Benchmark.Timed.{turns}
use mem_sync.Layout.{Region, blank, matches}
use mem_sync.Layout.Init.{blank-IsTable, count_occupied-replicate}
use mem_sync.Sharing.View.{view}
use mem_sync.Socket.{find}
use mem_sync.Table.Invariant.{IsValid}
use mem_sync.Table.View.{find_entry}
use mem_sync.Tests.{empty_region, put_at, get_at, update_time}
use mem_sync.Tests.Sockets.{connected, connected-IsConnected}
use mem_sync.Text.{Bytes}

abbrev four_slots : Region
four_slots = record {
  header = record empty_region.header { capacity = 4 };
  slots = replicate 4 blank;
}

four_slots-IsValid : IsValid four_slots
four_slots-IsValid = record {
  table = blank-IsTable 4 (omega arith) (omega arith);
  counted = count_occupied-replicate 4;
}

no_miss : view four_slots bench_miss ≡ none
unfolding find_entry replicate matches
no_miss = refl

four_slots-HasRoom : HasRoom 4 (four_slots, 0)
four_slots-HasRoom = record {
  entries = 0;
  map = view four_slots;
  represents = record {
    valid = four_slots-IsValid;
    slots = refl;
    count = omega arith;
    cells = refl;
  };
  miss = no_miss;
  room = omega arith;
}

abbrev calls : ℕ → PerformCalls
calls n = record { get = get_at n; put = put_at n; update = update_time n }

granted : (n : ℕ) → AreGranted (calls n)
granted n = record {
  get = record { read_lock = refl; write_lock = refl; between = λ r. refl };
  put = refl;
  update = refl;
}

-- "mixed", and "vv".
abbrev mixed : Bytes
mixed = b'm' ∷ b'i' ∷ b'x' ∷ b'e' ∷ b'd' ∷ []

abbrev payload : Bytes
payload = b'v' ∷ b'v' ∷ []

payload-IsPayload : IsPayload payload
payload-IsPayload = record { short = omega arith; terminated = omega arith }

abbrev order : List ℕ
order = 0 ∷ 0 ∷ 1 ∷ 0 ∷ 0 ∷ 1 ∷ 1 ∷ []

order-enough : (v : ℕ) → v < 2 → 3 ≤ turns v order
order-enough zero h = omega arith
order-enough (suc zero) h = omega arith
order-enough (suc (suc v)) h = absurd (omega arith)

run_measurement-shared_example :
    run_measurement
      (shared_memory (put_at 1) (put_at 1) calls)
      mixed
      payload
      (four_slots, 0)
      2
      3
      order
    ≡ some (record { failures = 0; operations = 2 * 3 % u64_mod })
run_measurement-shared_example =
    run_measurement-shared 4 mixed payload (put_at 1) (put_at 1) calls four_slots 2 3 order
      payload-IsPayload refl refl granted four_slots-HasRoom order-enough

nothing_there : find bench_miss [] ≡ none
unfolding find
nothing_there = refl

run_measurement-socket_example :
    run_measurement
      (unix_socket connected connected (λ n. connected))
      mixed
      payload
      ([], 0)
      2
      3
      order
    ≡ some (record { failures = 0; operations = 2 * 3 % u64_mod })
run_measurement-socket_example =
    run_measurement-socket mixed payload connected connected (λ n. connected) [] 2 3 order
      payload-IsPayload connected-IsConnected connected-IsConnected (λ n. connected-IsConnected)
      nothing_there order-enough
