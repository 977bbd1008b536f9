-- ===== src/Benchmark/Sound.antt =====
-- The loops of the benchmark, over an implementation that answers every request as it should.
use mem_sync.Base.{
  ℕ, zero, suc, ◌+◌, ◌≡◌, refl, ap, inl, inr, Bool, true, false, ◌&&◌, Option, some, List, ◌==◌,
  replicate, add32, Bool-cases,
}
use mem_sync.Benchmark.{expected_result}
use mem_sync.Benchmark.Implementations.{Implementation}
use mem_sync.Benchmark.Measurement.{
  should_succeed, is_correct, same_bool, measure_one, warm_worker, warm_up,
}
use mem_sync.Benchmark.Workload.{IsRequest, expected_result-IsRequest}
use mem_sync.Layout.{max_val_len}
use mem_sync.Text.{Bytes, read_cstr}
use mem_sync.Text.Laws.{strcmp_eq_self}

-- What a request must come to: it completes, with success exactly if it should have it, and a read of
-- the stored key has the payload in its buffer.
pub record Performs {S : Type 0} (IsGood : S → Type 0) (payload : Bytes) (q : ℕ × Bytes)
    (o : Option (S × Bool × Bool × List ℕ)) : Type 0 where
  pub state : S
  pub out : List ℕ
  pub answers : o ≡ some (state, true, should_succeed q.0 q.1, out)
  pub good : IsGood state
  pub shows : ((q.0 == b'G') && should_succeed q.0 q.1) ≡ true → read_cstr out ≡ payload

-- What the loops ask of an implementation.
pub record IsSound {S : Type 0} (impl : Implementation S) (payload : Bytes)
    (IsReady IsGood : S → Type 0) : Type 0 where
  pub prepares :
      (s : S) → IsReady s → (s' : S) × (impl.prepare s payload ≡ some (s', true)) × IsGood s'
  pub performs :
      (s : S) (worker : ℕ) (q : ℕ × Bytes)
      → IsGood s
      → IsRequest q
      → Performs IsGood payload q (impl.perform s worker q.0 q.1 payload (replicate max_val_len 0))

same_bool_self : (b : Bool) → same_bool b b ≡ true
same_bool_self true = refl
same_bool_self false = refl

-- Such a result is correct.
is_correct_lem :
    (operation : ℕ) (key payload : Bytes) (out : List ℕ)
    → (((operation == b'G') && should_succeed operation key) ≡ true → read_cstr out ≡ payload)
    → is_correct operation key payload (true, should_succeed operation key, out) ≡ true
unfolding is_correct
is_correct_lem operation key payload out shows =
    elim (Bool-cases ((operation == b'G') && should_succeed operation key)) [
      | inl e ↦
          rw (same_bool_self (should_succeed operation key), e, shows e) (strcmp_eq_self payload)
      | inr e ↦ rw (same_bool_self (should_succeed operation key), e) refl
    ]

module _ {S : Type 0} (impl : Implementation S) (workload payload : Bytes)
    (IsReady IsGood : S → Type 0) (sound : IsSound impl payload IsReady IsGood) where
  pub measure_one_correct :
      (s : S) (worker index : ℕ)
      → IsGood s
      → (s' : S) × (measure_one impl workload payload s worker index ≡ some (s', true)) × IsGood s'
  unfolding measure_one
  measure_one_correct s worker index good =
      let q = expected_result workload (add32 index worker) in
      let p =
        sound.performs s worker q good (expected_result-IsRequest workload (add32 index worker)) in
      (
        p.state,
        rw p.answers
            (ap (λ (b : Bool). some (p.state, b)) (is_correct_lem q.0 q.1 payload p.out p.shows)),
        p.good,
      )

  warm_worker_correct :
      (n : ℕ) (s : S) (worker index : ℕ)
      → IsGood s
      → (s' : S) × (warm_worker impl workload payload s worker n index ≡ some (s', true))
        × IsGood s'
  unfolding warm_worker
  warm_worker_correct zero s worker index good = (s, refl, good)
  warm_worker_correct (suc n) s worker index good =
      let (s', run, good') = measure_one_correct s worker index good in
      let (s'', rest, good'') = warm_worker_correct n s' worker (index + 1) good' in
      (s'', rw run rest, good'')

  pub warm_up_correct :
      (n : ℕ) (s : S) (warmup worker : ℕ)
      → IsGood s
      → (s' : S) × (warm_up impl workload payload s warmup n worker ≡ some (s', true)) × IsGood s'
  unfolding warm_up
  warm_up_correct zero s warmup worker good = (s, refl, good)
  warm_up_correct (suc n) s warmup worker good =
      let (s', run, good') = warm_worker_correct warmup s worker 0 good in
      let (s'', rest, good'') = warm_up_correct n s' warmup (worker + 1) good' in
      (s'', rw run rest, good'')
