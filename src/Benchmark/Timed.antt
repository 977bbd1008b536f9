-- ===== src/Benchmark/Timed.antt =====
-- The threads of the benchmark, in any order.
use mathlib.Core.Path.{subst}
use mem_sync.Base.{
  ℕ, zero, suc, ◌+◌, ◌*◌, ◌%◌, ◌≤◌, ◌<◌, ◌≡◌, refl, ap, ◌∙◌, inl, inr, true, false, ◌&&◌, some,
  List, [], ◌∷◌, ◌==◌, ltb, leb, le→leb, if◌then◌else◌, arith, length, replicate, length-replicate,
  get_or, set, get_or-set_self, get_or-set_ne, length-set, u64_mod, Bool-cases, ℕ_discrete,
}
use mem_sync.Benchmark.Implementations.{Implementation}
use mem_sync.Benchmark.Measurement.{
  Counts, count_result, sum64, all_done, timed, joined, run_measurement,
}
use mem_sync.Benchmark.Sound.{IsSound, measure_one_correct, warm_up_correct}
use mem_sync.Text.{Bytes}

-- How often a worker stands in the schedule.
abbrev pub turns : ℕ → List ℕ → ℕ
turns v [] = 0
turns v (w ∷ schedule) = (if w == v then 1 else 0) + turns v schedule

-- No failure yet, and every worker has turns enough for what it has left to do.
record IsOnTrack (threads operations : ℕ) (schedule : List ℕ) (c : Counts) : Type 0 where
  sized : length c.indices ≡ threads
  failures : c.failures ≡ replicate threads 0
  enough : (v : ℕ) → v < threads → operations ≤ get_or c.indices v 0 + turns v schedule

counted-IsOnTrack :
    (threads operations worker : ℕ) (schedule : List ℕ) (c : Counts)
    → IsOnTrack threads operations (worker ∷ schedule) c
    → worker < threads
    → IsOnTrack threads operations schedule (count_result worker true c)
counted-IsOnTrack threads operations worker schedule c h lt = record {
  sized = length-set c.indices worker (get_or c.indices worker 0 + 1) ∙ h.sized;
  failures = h.failures;
  enough = λ v lt'. elim (ℕ_discrete worker v) [
    | yes same ↦
        let at =
          get_or-set_self c.indices worker (get_or c.indices worker 0 + 1) 0
            (omega (arith, h.sized)) in
        let next = set c.indices worker (get_or c.indices worker 0 + 1) in
        subst (λ u. operations ≤ get_or next u 0 + turns u schedule) same
          (ground (arith, at, h.enough worker lt))
    | no other ↦
        let stays = get_or-set_ne c.indices worker v (get_or c.indices worker 0 + 1) 0 other in
        ground (arith, stays, other, h.enough v lt')
  ];
}

skipped-IsOnTrack :
    (threads operations worker : ℕ) (schedule : List ℕ) (c : Counts)
    → IsOnTrack threads operations (worker ∷ schedule) c
    → (ltb worker threads && ltb (get_or c.indices worker 0) operations) ≡ false
    → IsOnTrack threads operations schedule c
skipped-IsOnTrack threads operations worker schedule c h idle = record {
  sized = h.sized;
  failures = h.failures;
  enough = λ v lt'. elim (ℕ_discrete worker v) [
    | yes same ↦
        let finished : operations ≤ get_or c.indices worker 0 = ground (arith, same) in
        let there : operations ≤ get_or c.indices v 0 =
          subst (λ u. operations ≤ get_or c.indices u 0) same finished in
        omega (arith, there)
    | no other ↦ ground (arith, other, h.enough v lt')
  ];
}

all_done_lem :
    (l : List ℕ) (operations : ℕ)
    → ((v : ℕ) → v < length l → operations ≤ get_or l v 0)
    → all_done l operations ≡ true
unfolding get_or
all_done_lem [] operations h = refl
all_done_lem (i ∷ l) operations h =
    rw
      (
        le→leb operations i (h 0 (omega arith)),
        all_done_lem l operations (λ v lt. h (suc v) (omega arith)),
      )
      refl

sum64-replicate : (n : ℕ) → sum64 (replicate n 0) ≡ 0
unfolding replicate
sum64-replicate zero = refl
sum64-replicate (suc n) = rw (sum64-replicate n) refl

module _ {S : Type 0} (impl : Implementation S) (workload payload : Bytes)
    (IsReady IsGood : S → Type 0) (sound : IsSound impl payload IsReady IsGood)
    (threads operations : ℕ) where
  timed-IsOnTrack :
      (schedule : List ℕ) (s : S) (c : Counts)
      → IsGood s
      → IsOnTrack threads operations schedule c
      → (s' : S) × (c' : Counts) × (timed impl workload payload s c threads operations schedule
          ≡ some (s', c'))
        × IsOnTrack threads operations [] c'
  unfolding timed
  timed-IsOnTrack [] s c good h = (s, c, refl, h)
  timed-IsOnTrack (worker ∷ schedule) s c good h =
      elim (Bool-cases (ltb worker threads && ltb (get_or c.indices worker 0) operations)) [
        | inr idle ↦
            let (s', c', run, h') =
              timed-IsOnTrack schedule s c good
                (skipped-IsOnTrack threads operations worker schedule c h idle) in
            (s', c', rw idle run, h')
        | inl busy ↦
            let (s', one, good') =
              measure_one_correct impl workload payload IsReady IsGood sound s worker
                (get_or c.indices worker 0) good in
            let (s'', c', run, h') =
              timed-IsOnTrack schedule s' (count_result worker true c) good'
                (counted-IsOnTrack threads operations worker schedule c h (ground arith)) in
            (s'', c', rw (busy, one) run, h')
      ]

  -- If each worker gets at least as many turns as it has operations, then in whatever order the turns
  -- come, the run ends, counts the operations of all threads, and no failure.
  pub run_measurement_sound :
      (s : S) (schedule : List ℕ)
      → IsReady s
      → ((v : ℕ) → v < threads → operations ≤ turns v schedule)
      → run_measurement impl workload payload s threads operations schedule
        ≡ some (record { failures = 0; operations = threads * operations % u64_mod })
  unfolding run_measurement joined
  run_measurement_sound s schedule ready enough =
      let warmup = if leb 100 operations then 100 else operations in
      let (s1, prepared, good1) = sound.prepares s ready in
      let (s2, warm, good2) =
        warm_up_correct impl workload payload IsReady IsGood sound threads s1 warmup 0 good1 in
      let start : Counts = record {
        indices = replicate threads 0;
        failures = replicate threads 0;
      } in
      let (s3, c, run, h) = timed-IsOnTrack schedule s2 start good2 (record {
        sized = length-replicate threads 0;
        failures = refl;
        enough = λ v lt. omega (arith, enough v lt);
      }) in
      let done =
        all_done_lem c.indices operations
          (λ v lt. omega (arith, h.enough v (omega (arith, h.sized)))) in
      rw (prepared, warm, run, done)
        (ap (λ n. some (record { failures = n; operations = threads * operations % u64_mod }))
          (ap sum64 h.failures ∙ sum64-replicate threads))
