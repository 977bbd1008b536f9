-- ===== src/Socket/Server.antt =====
-- The loop of `LocalSocketCache::serve`, which each client has one of. All of them share the values.
use mem_sync.Base.{ℕ, Bool, true, false, Option, List, [], ◌∷◌, ◌++◌, ◌==◌, if◌then◌else◌}
use mem_sync.Text.{Bytes}
use mem_sync.Socket.{
  Answer, Progress, returned, waiting, transfer_all, request_size, read_request, response_size,
  response_bytes, Values, answer_request, Reply, request,
}

-- The server waits in a call, or has left its loop and closed its end.
pub data Place : Type 0 where
  inside : Place
  closed : Place

pub record Turn : Type 0 where
  pub values : Values
  pub written : List ℕ
  pub stream : List ℕ
  pub goes_on : Bool
  pub place : Place

abbrev pub place_after : Bool → Place
place_after true = inside
place_after false = closed

unfoldable pub after_answer : Values → List ℕ → Progress → Turn
after_answer values stream (waiting target) = record {
  values = values;
  written = target;
  stream = stream;
  goes_on = false;
  place = inside;
}
after_answer values stream (returned done target source answers) = record {
  values = values;
  written = target;
  stream = stream;
  goes_on = done;
  place = place_after done;
}

unfoldable pub take_turn : Values → Progress → List Answer → Turn
unfolding read_request answer_request response_bytes transfer_all after_answer
take_turn values (waiting target) send = record {
  values = values;
  written = [];
  stream = [];
  goes_on = false;
  place = inside;
}
take_turn values (returned false target stream answers) send = record {
  values = values;
  written = [];
  stream = stream;
  goes_on = false;
  place = closed;
}
take_turn values (returned true target stream answers) send =
    let q = read_request target in
    let (values', a) = answer_request values q in
    let turn = after_answer values' stream (transfer_all response_size (response_bytes a) send) in
    if q.operation == b'Q'
    then record { values = values; written = []; stream = stream; goes_on = false; place = closed }
    else turn

-- The answers to the calls of a turn. The values are those of all servers: `others` is what the other
-- ones make of them before this one gets the mutex.
pub record TurnCalls : Type 0 where
  pub receive : List Answer
  pub others : Values → Values
  pub send : List Answer

-- The values, what has been written, and the place, after the turns that have begun.
unfoldable pub serve : Values → List ℕ → List TurnCalls → Values × List ℕ × Place
unfolding take_turn
serve values stream [] = (values, [], inside)
serve values stream (calls ∷ turns) =
    let turn =
      take_turn (calls.others values) (transfer_all request_size stream calls.receive) calls.send in
    let (values', written, place) = serve turn.values turn.stream turns in
    if turn.goes_on
    then (values', turn.written ++ written, place)
    else (turn.values, turn.written, turn.place)

-- The answers to the calls of one request: the client's and the server's.
pub record ExchangeCalls : Type 0 where
  pub send : List Answer
  pub serve_receive : List Answer
  pub serve_send : List Answer
  pub receive : List Answer

-- A request of a client whose server takes one turn for it.
unfoldable pub exchange : Values → ℕ → Bytes → Option Bytes → ExchangeCalls → Values × Reply
unfolding request take_turn
exchange values operation key value calls =
    let sent = (request operation key value calls.send [] calls.receive).0 in
    let turn =
      take_turn values (transfer_all request_size sent calls.serve_receive) calls.serve_send in
    (turn.values, (request operation key value calls.send turn.written calls.receive).1)
