-- ===== src/Socket/Transfer.antt =====
-- The loop of `transfer_all`: it ends, and what it moves arrives.
use mem_sync.Base.{
  ℕ, zero, suc, ◌+◌, ◌-◌, ◌≤◌, ◌<◌, ◌≡◌, refl, sym, ap, ◌∙◌, inl, inr, Bool, true, false, List, [],
  ◌∷◌, ◌++◌, arith, length, take, drop, take-drop, length-take, length-drop, length-append,
  append_assoc, append_nil, append-cancel, ◌==◌, Bool-cases,
}
use mem_sync.Socket.{
  Answer, interrupted, refused, moves, Progress, returned, waiting, min, transfer_from,
  transfer_all,
}

-- How many of the calls are not interrupted.
abbrev pub effective : List Answer → ℕ
effective [] = 0
effective (interrupted ∷ answers) = effective answers
effective (refused ∷ answers) = suc (effective answers)
effective (moves k ∷ answers) = suc (effective answers)

abbrev pub has_returned : Progress → Bool
has_returned (returned b target source answers) = true
has_returned (waiting target) = false

-- The loop with bytes already moved.
transfer_from-returns :
    (answers : List Answer) (n : ℕ) (target source : List ℕ)
    → n ≤ effective answers
    → has_returned (transfer_from n target source answers) ≡ true
unfolding transfer_from
transfer_from-returns answers zero target source h = refl
transfer_from-returns [] (suc n) target source h = absurd (omega arith)
transfer_from-returns (interrupted ∷ answers) (suc n) target source h =
    transfer_from-returns answers (suc n) target source h
transfer_from-returns (refused ∷ answers) (suc n) target source h = refl
transfer_from-returns (moves k ∷ answers) (suc n) target source h =
    let result = min k (min (suc n) (length source)) in
    elim (Bool-cases (result == 0)) [
      | inl e ↦ rw e refl
      | inr e ↦ rw e (
          transfer_from-returns answers (suc n - result) (target ++ take result source)
            (drop result source) (ground arith))
    ]

-- The loop returns, with or without success, if as many of the calls as there are bytes are not
-- interrupted, however many are.
pub transfer_all-returns :
    (size : ℕ) (source : List ℕ) (answers : List Answer)
    → size ≤ effective answers
    → has_returned (transfer_all size source answers) ≡ true
unfolding transfer_all
transfer_all-returns size source answers enough =
    transfer_from-returns answers size [] source enough

-- No call is refused or moves nothing.
abbrev pub AreWilling : List Answer → Type 0
AreWilling [] = Unit {0}
AreWilling (interrupted ∷ answers) = AreWilling answers
AreWilling (refused ∷ answers) = ⊥
AreWilling (moves k ∷ answers) = (0 < k) × AreWilling answers

-- What a loop with enough bytes to move comes to.
record Moves (n : ℕ) (target source : List ℕ) (p : Progress) : Type 0 where
  target' : List ℕ
  source' : List ℕ
  answers : List Answer
  returns : p ≡ returned true target' source' answers
  size : length target' ≡ length target + n
  bytes : target' ++ source' ≡ target ++ source

transfer_from-Moves :
    (answers : List Answer) (n : ℕ) (target source : List ℕ)
    → AreWilling answers
    → n ≤ effective answers
    → n ≤ length source
    → Moves n target source (transfer_from n target source answers)
unfolding transfer_from
transfer_from-Moves answers zero target source ok enough there = record {
  target' = target;
  source' = source;
  answers = answers;
  returns = refl;
  size = omega arith;
  bytes = refl;
}
transfer_from-Moves [] (suc n) target source ok enough there = absurd (omega arith)
transfer_from-Moves (interrupted ∷ answers) (suc n) target source ok enough there =
    transfer_from-Moves answers (suc n) target source ok enough there
transfer_from-Moves (refused ∷ answers) (suc n) target source ok enough there = absurd ok
transfer_from-Moves (moves k ∷ answers) (suc n) target source ok enough there =
    let result = min k (min (suc n) (length source)) in
    let some_byte : (result == 0) ≡ false = ground (arith, ok.0) in
    let within : result ≤ suc n = ground arith in
    let within' : result ≤ length source = ground arith in
    let w =
      transfer_from-Moves answers (suc n - result) (target ++ take result source)
        (drop result source) ok.1 (ground (arith, ok.0))
        (ground (arith, length-drop result source within')) in
    rw some_byte (record {
      target' = w.target';
      source' = w.source';
      answers = w.answers;
      returns = w.returns;
      size = omega (
        arith,
        w.size,
        within,
        length-append target (take result source),
        length-take result source within',
      );
      bytes =
          w.bytes
          ∙ append_assoc target (take result source) (drop result source)
          ∙ ap (λ l. target ++ l) (take-drop result source);
    })

-- What is put on the wire comes out of it, whole and in order, however the calls on either side cut it
-- into pieces and however often they are interrupted: a loop whose calls are neither refused nor
-- answered with nothing, and of which as many as there are bytes are not interrupted, moves the
-- bytes in front and leaves those behind them.
pub transfer_all-delivers :
    (size : ℕ) (sent more : List ℕ) (answers : List Answer)
    → length sent ≡ size
    → AreWilling answers
    → size ≤ effective answers
    → (later : List Answer) × (transfer_all size (sent ++ more) answers
        ≡ returned true sent more later)
unfolding transfer_all
transfer_all-delivers size sent more answers sized ok enough =
    let w =
      transfer_from-Moves answers size [] (sent ++ more) ok enough
        (omega (arith, length-append sent more, sized)) in
    let (same, rest) =
      append-cancel w.target' w.source' sent more (omega (arith, w.size, sized)) w.bytes in
    (w.answers, w.returns ∙ (λ i. returned true (same i) (rest i) w.answers))

-- With nothing behind.
pub transfer_all-delivers_all :
    (size : ℕ) (sent : List ℕ) (answers : List Answer)
    → length sent ≡ size
    → AreWilling answers
    → size ≤ effective answers
    → (later : List Answer) × (transfer_all size sent answers ≡ returned true sent [] later)
transfer_all-delivers_all size sent answers sized ok enough =
    let (later, run) = transfer_all-delivers size sent [] answers sized ok enough in
    (later, ap (λ l. transfer_all size l answers) (sym (append_nil sent)) ∙ run)
