-- ===== src/Tests/Sockets.antt =====
-- The socket cache and the benchmark, on small runs.
use mem_sync.Base.{
  ℕ, zero, suc, ◌≤◌, ◌≡◌, refl, true, false, Option, none, some, List, [], ◌∷◌, ◌++◌, arith,
  replicate, ◌==◌,
}
use mem_sync.Socket.{
  Answer, Values, interrupted, moves, returned, transfer_all, make_request, answered,
  answer_request,
}
use mem_sync.Socket.Meeting.{IsConnected, exchange-answers}
use mem_sync.Socket.Server.{ExchangeCalls, TurnCalls, exchange, serve}
use mem_sync.Socket.Answers.{
  Asked, IsShort, IsText, IsAsked, AreAsked, wire, turns_of, AnswersAll, serve-AnswersAll,
}
use mem_sync.Layout.{max_key_len, max_val_len}
use mem_sync.Socket.Transfer.{
  effective, AreWilling, has_returned, transfer_all-returns, transfer_all-delivers,
}
use mem_sync.Text.{Bytes}

-- One interruption, then a piece of at most two bytes, then the rest.
abbrev pieces : List Answer
pieces = interrupted ∷ moves 2 ∷ moves 9 ∷ moves 9 ∷ []

transfer_all-returns_example : has_returned (transfer_all 3 (5 ∷ 6 ∷ 7 ∷ []) pieces) ≡ true
transfer_all-returns_example = transfer_all-returns 3 (5 ∷ 6 ∷ 7 ∷ []) pieces (omega arith)

transfer_all-delivers_example :
    (later : List Answer) × (transfer_all 3 ((5 ∷ 6 ∷ 7 ∷ []) ++ 8 ∷ []) pieces
      ≡ returned true (5 ∷ 6 ∷ 7 ∷ []) (8 ∷ []) later)
transfer_all-delivers_example =
    transfer_all-delivers 3 (5 ∷ 6 ∷ 7 ∷ []) (8 ∷ []) pieces refl (omega arith) (omega arith)

-- Calls in plenty, each of which moves at most a hundred bytes.
willing : (n : ℕ) → AreWilling (replicate n (moves 100))
unfolding replicate
willing zero = tt
willing (suc n) = (omega arith, willing n)

plenty : (n : ℕ) → n ≤ effective (replicate n (moves 100))
unfolding replicate
plenty zero = omega arith
plenty (suc n) = omega (arith, plenty n)

abbrev pub requesting : List Answer
requesting = replicate 321 (moves 100)

abbrev pub responding : List Answer
responding = replicate 260 (moves 100)

-- Another client puts the text "o" under "k" before each turn.
abbrev turn_calls : TurnCalls
turn_calls = record {
  receive = requesting;
  others = λ values. (b'k' ∷ [], b'o' ∷ []) ∷ values;
  send = responding;
}

-- 'P', 'G' and 'U' of the key "k".
abbrev asked : List Asked
asked =
    record { operation = b'P'; key = b'k' ∷ []; value = some (b'v' ∷ []); calls = turn_calls }
    ∷ record { operation = b'G'; key = b'k' ∷ []; value = none; calls = turn_calls }
    ∷ record { operation = b'U'; key = b'k' ∷ []; value = some (b'w' ∷ []); calls = turn_calls }
    ∷ []

k-IsShort : IsShort max_key_len (b'k' ∷ [])
k-IsShort = record { terminated = omega arith; short = omega arith }

asks :
    (operation : ℕ) (value : Option Bytes)
    → IsText value
    → (operation == b'Q') ≡ false
    → IsAsked (record { operation = operation; key = b'k' ∷ []; value = value; calls = turn_calls })
asks operation value text h = record {
  named = k-IsShort;
  valued = text;
  goes_on = h;
  receives = willing 321;
  received = plenty 321;
  sends = willing 260;
  sent = plenty 260;
}

letter : (c : ℕ) → ¬ (c ≡ 0) → IsShort max_val_len (c ∷ [])
letter c h = record { terminated = omega arith; short = omega arith }

asked-AreAsked : AreAsked asked
asked-AreAsked = (
  asks b'P' (some (b'v' ∷ [])) (letter b'v' (omega arith)) refl,
  (asks b'G' none tt refl, (asks b'U' (some (b'w' ∷ [])) (letter b'w' (omega arith)) refl, tt)),
)

serve-AnswersAll_example :
    (values' : Values) × (written : List ℕ) × AnswersAll [] asked written values'
    × (serve [] (wire asked []) (turns_of asked [])
        ≡ ((serve values' [] []).0, written ++ (serve values' [] []).1, (serve values' [] []).2))
serve-AnswersAll_example = serve-AnswersAll [] asked [] [] asked-AreAsked

abbrev pub connected : ExchangeCalls
connected = record {
  send = requesting;
  serve_receive = requesting;
  serve_send = responding;
  receive = responding;
}

pub connected-IsConnected : IsConnected connected
connected-IsConnected = record {
  sends = willing 321;
  sent = plenty 321;
  serve_receives = willing 321;
  serve_received = plenty 321;
  serve_sends = willing 260;
  serve_sent = plenty 260;
  receives = willing 260;
  received = plenty 260;
}

exchange-answers_example : exchange [] b'P' (b'k' ∷ []) (some (b'v' ∷ [])) connected ≡ (
  (answer_request [] (make_request b'P' (b'k' ∷ []) (some (b'v' ∷ [])))).0,
  answered (answer_request [] (make_request b'P' (b'k' ∷ []) (some (b'v' ∷ [])))).1,
)
exchange-answers_example =
    exchange-answers [] b'P' (b'k' ∷ []) (some (b'v' ∷ [])) connected refl connected-IsConnected
