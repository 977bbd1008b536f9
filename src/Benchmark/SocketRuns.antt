-- ===== src/Benchmark/SocketRuns.antt =====
-- The socket cache answers every request of the benchmark as it should.
use mem_sync.Base.{
  ℕ, ◌+◌, ◌*◌, ◌%◌, ◌≤◌, ◌<◌, ◌≡◌, refl, ap, ◌∙◌, true, false, Option, none, some, List, arith,
  length, replicate, u64_mod,
}
use mem_sync.Benchmark.{bench_hit, bench_miss, bench_put, bench_update}
use mem_sync.Benchmark.Implementations.{use_reply, perform_socket, prepare_socket, unix_socket}
use mem_sync.Benchmark.Measurement.{should_succeed, run_measurement}
use mem_sync.Benchmark.Shared.{IsPayload}
use mem_sync.Benchmark.Sound.{Performs}
use mem_sync.Benchmark.Timed.{turns, run_measurement_sound}
use mem_sync.Benchmark.Workload.{IsRequest, reads_hit, reads_miss, puts, updates}
use mem_sync.Layout.{max_key_len, max_val_len}
use mem_sync.Socket.{
  Reply, answered, Response, no_value, make_request, Values, find, assign, answer_get,
  answer_update, answer_request,
}
use mem_sync.Socket.Meeting.{
  IsConnected, exchange-answers, asked_key, asked_value, find-assign_self, find-assign_ne,
}
use mem_sync.Socket.Messages.{read_cstr-strncpy}
use mem_sync.Socket.Server.{ExchangeCalls, exchange}
use mem_sync.Text.{Bytes, IsCString, read_cstr, strncpy, strcmp_eq}

-- The payload is stored under the one key, something under the other, and the one to be missed is not
-- there.
record IsGood (payload : Bytes) (s : Values × ℕ) : Type 0 where
  hit : find bench_hit s.0 ≡ some payload
  old : Bytes
  update : find bench_update s.0 ≡ some old
  miss : find bench_miss s.0 ≡ none

abbrev told : Values × Response → Values × Reply
told (values, a) = (values, answered a)

-- The requests of the benchmark at the server.
module _ (payload : Bytes) (ok : IsPayload payload) (values : Values) (calls : ExchangeCalls)
    (h : IsConnected calls) where
  get_lem :
      (key : Bytes)
      → IsCString key
      → length key < max_key_len
      → exchange values b'G' key (some payload) calls
        ≡ (values, answered (answer_get (find key values)))
  get_lem key string short =
      let k = asked_key b'G' key (some payload) string short in
      exchange-answers values b'G' key (some payload) calls refl h
      ∙ (unfold answer_request make_request in
          ap (λ q. (values, answered (answer_get (find q values)))) k)

  put_lem :
      (key : Bytes)
      → IsCString key
      → length key < max_key_len
      → exchange values b'P' key (some payload) calls
        ≡ (assign key payload values, answered (no_value 1))
  put_lem key string short =
      let k = asked_key b'P' key (some payload) string short in
      let v = asked_value b'P' key payload ok.terminated ok.short in
      exchange-answers values b'P' key (some payload) calls refl h
      ∙ (unfold answer_request make_request in
          λ i. (assign (k i) (v i) values, answered (no_value 1)))

  update_lem :
      (key old : Bytes)
      → IsCString key
      → length key < max_key_len
      → find key values ≡ some old
      → exchange values b'U' key (some payload) calls
        ≡ (assign key payload values, answered (no_value 1))
  update_lem key old string short there =
      let k = asked_key b'U' key (some payload) string short in
      let v = asked_value b'U' key payload ok.terminated ok.short in
      let done : told (answer_update key payload (some old) values)
          ≡ (assign key payload values, answered (no_value 1)) =
        unfold answer_update in refl in
      let asked : told (answer_request values (make_request b'U' key (some payload)))
          ≡ told (answer_update key payload (find key values) values) =
        unfold answer_request make_request in
        λ i. told (answer_update (k i) (v i) (find (k i) values) values) in
      exchange-answers values b'U' key (some payload) calls refl h
      ∙ asked
      ∙ ap (λ (o : Option Bytes). told (answer_update key payload o values)) there
      ∙ done

-- The count of the operations does not matter.
recount : (payload : Bytes) (s : Values × ℕ) (n : ℕ) → IsGood payload s → IsGood payload (s.0, n)
recount payload s n good = record {
  hit = good.hit;
  old = good.old;
  update = good.update;
  miss = good.miss;
}

module _ (payload : Bytes) (ok : IsPayload payload) (first second : ExchangeCalls)
    (calls : ℕ → ExchangeCalls) (one : IsConnected first) (two : IsConnected second)
    (connected : (n : ℕ) → IsConnected (calls n)) where
  prepares-socket :
      (s : Values × ℕ)
      → find bench_miss s.0 ≡ none
      → (s' : Values × ℕ) × ((unix_socket first second calls).prepare s payload ≡ some (s', true))
        × IsGood payload s'
  unfolding prepare_socket
  prepares-socket s missing =
      let values' = assign bench_hit payload s.0 in
      let values'' = assign bench_update payload values' in
      let e1 = put_lem payload ok s.0 first one bench_hit (omega arith) (omega arith) in
      let e2 = put_lem payload ok values' second two bench_update (omega arith) (omega arith) in
      let apart : strcmp_eq bench_hit bench_update ≡ false = unfold strcmp_eq in refl in
      let apart' : strcmp_eq bench_miss bench_update ≡ false = unfold strcmp_eq in refl in
      let apart'' : strcmp_eq bench_miss bench_hit ≡ false = unfold strcmp_eq in refl in
      (
        (values'', s.1),
        rw (e1, e2) refl,
        record {
          hit =
              find-assign_ne bench_hit bench_update payload values' apart
              ∙ find-assign_self bench_hit payload s.0;
          old = payload;
          update = find-assign_self bench_update payload values';
          miss =
              find-assign_ne bench_miss bench_update payload values' apart'
              ∙ find-assign_ne bench_miss bench_hit payload s.0 apart''
              ∙ missing;
        },
      )

  socket-Performs :
      (s : Values × ℕ) (worker : ℕ) (q : ℕ × Bytes)
      → IsGood payload s
      → IsRequest q
      → Performs (IsGood payload) payload q (
          (unix_socket first second calls).perform s worker q.0 q.1 payload
            (replicate max_val_len 0))
  unfolding perform_socket use_reply should_succeed
  socket-Performs s worker _ good reads_hit =
      let run =
        get_lem payload ok s.0 (calls s.1) (connected s.1) bench_hit (omega arith) (omega arith) in
      let value = strncpy (replicate max_val_len 0) payload 255 in
      let text : read_cstr value ≡ payload =
        read_cstr-strncpy 256 255 payload ok.terminated (omega (arith, ok.short)) (omega arith) in
      record {
        state = (s.0, s.1 + 1);
        out = strncpy (replicate max_val_len 0) (read_cstr value) 255;
        answers = unfold strcmp_eq answer_get in (rw (run, good.hit) refl);
        good = recount payload s (s.1 + 1) good;
        shows = λ e.
            ap (λ (v : Bytes). read_cstr (strncpy (replicate max_val_len 0) v 255)) text ∙ text;
      }
  socket-Performs s worker _ good reads_miss =
      let run =
        get_lem payload ok s.0 (calls s.1) (connected s.1) bench_miss (omega arith) (omega arith) in
      record {
        state = (s.0, s.1 + 1);
        out = replicate max_val_len 0;
        answers = unfold strcmp_eq answer_get in (rw (run, good.miss) refl);
        good = recount payload s (s.1 + 1) good;
        shows = λ e. absurd (unfold strcmp_eq in cc);
      }
  socket-Performs s worker _ good puts =
      let run =
        put_lem payload ok s.0 (calls s.1) (connected s.1) bench_put (omega arith) (omega arith) in
      let apart : strcmp_eq bench_hit bench_put ≡ false = unfold strcmp_eq in refl in
      let apart' : strcmp_eq bench_miss bench_put ≡ false = unfold strcmp_eq in refl in
      let apart'' : strcmp_eq bench_update bench_put ≡ false = unfold strcmp_eq in refl in
      record {
        state = (assign bench_put payload s.0, s.1 + 1);
        out = replicate max_val_len 0;
        answers = rw run refl;
        good = record {
          hit = find-assign_ne bench_hit bench_put payload s.0 apart ∙ good.hit;
          old = good.old;
          update = find-assign_ne bench_update bench_put payload s.0 apart'' ∙ good.update;
          miss = find-assign_ne bench_miss bench_put payload s.0 apart' ∙ good.miss;
        };
        shows = λ e. absurd cc;
      }
  socket-Performs s worker _ good updates =
      let run =
        update_lem payload ok s.0 (calls s.1) (connected s.1) bench_update good.old (omega arith)
          (omega arith) good.update in
      let apart : strcmp_eq bench_hit bench_update ≡ false = unfold strcmp_eq in refl in
      let apart' : strcmp_eq bench_miss bench_update ≡ false = unfold strcmp_eq in refl in
      record {
        state = (assign bench_update payload s.0, s.1 + 1);
        out = replicate max_val_len 0;
        answers = rw run refl;
        good = record {
          hit = find-assign_ne bench_hit bench_update payload s.0 apart ∙ good.hit;
          old = payload;
          update = find-assign_self bench_update payload s.0;
          miss = find-assign_ne bench_miss bench_update payload s.0 apart' ∙ good.miss;
        };
        shows = λ e. absurd cc;
      }

-- With values that do not have the key that is to be missed, and enough calls on either side that go
-- through, a run of the benchmark over the socket reports no failure and the operations of all
-- its threads, for every workload, every payload that the table would accept, and every order in which
-- the threads take their turns, if each gets at least as many as it has operations.
pub run_measurement-socket :
    (workload payload : Bytes) (first second : ExchangeCalls) (calls : ℕ → ExchangeCalls)
    (values : Values) (threads operations : ℕ) (schedule : List ℕ)
    → IsPayload payload
    → IsConnected first
    → IsConnected second
    → ((n : ℕ) → IsConnected (calls n))
    → find bench_miss values ≡ none
    → ((v : ℕ) → v < threads → operations ≤ turns v schedule)
    → run_measurement
        (unix_socket first second calls)
        workload
        payload
        (values, 0)
        threads
        operations
        schedule
      ≡ some (record { failures = 0; operations = threads * operations % u64_mod })
run_measurement-socket workload payload first second calls values threads operations schedule ok one
      two connected missing enough =
    run_measurement_sound (unix_socket first second calls) workload payload
      (λ s. find bench_miss s.0 ≡ none) (IsGood payload)
      (record {
        prepares = prepares-socket payload ok first second calls one two connected;
        performs = socket-Performs payload ok first second calls one two connected;
      })
      threads operations (values, 0) schedule missing enough
