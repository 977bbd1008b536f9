-- ===== src/Socket/Serving.antt =====
-- A turn of a server that is sent a request, and the client of one.
use mem_sync.Base.{ℕ, ◌≤◌, ◌≡◌, refl, true, false, Option, List, ◌++◌, ◌==◌}
use mem_sync.Socket.{
  Answer, transfer_all, Request, request_bytes, request_size, response_bytes, response_size,
  make_request, answered, after_send, receive_reply, request, Values, answer_request,
}
use mem_sync.Socket.Messages.{
  IsSized, length-request_bytes, read_request-request_bytes, length-response_bytes,
  read_response-response_bytes, make_request-IsSized, answer_request-IsResponse,
}
use mem_sync.Socket.Server.{inside, after_answer, take_turn}
use mem_sync.Socket.Transfer.{
  effective, AreWilling, transfer_all-delivers, transfer_all-delivers_all,
}
use mem_sync.Text.{Bytes}

-- A request with the answers to the server's calls for it.
pub record Job : Type 0 where
  pub asked : Request
  pub receive : List Answer
  pub send : List Answer

-- The request has its size and is not the one to stop, and enough calls go through.
pub record IsJob (j : Job) : Type 0 where
  pub sized : IsSized j.asked
  pub goes_on : (j.asked.operation == b'Q') ≡ false
  pub receives : AreWilling j.receive
  pub received : request_size ≤ effective j.receive
  pub sends : AreWilling j.send
  pub sent : response_size ≤ effective j.send

pub take_turn-IsJob :
    (values : Values) (j : Job) (more : List ℕ)
    → IsJob j
    → take_turn values (transfer_all request_size (request_bytes j.asked ++ more) j.receive) j.send
      ≡ record {
        values = (answer_request values j.asked).0;
        written = response_bytes (answer_request values j.asked).1;
        stream = more;
        goes_on = true;
        place = inside;
      }
unfolding take_turn after_answer
take_turn-IsJob values j more h =
    let a = (answer_request values j.asked).1 in
    let (later, got) =
      transfer_all-delivers request_size (request_bytes j.asked) more j.receive
        (length-request_bytes j.asked h.sized) h.receives h.received in
    let (later', put) =
      transfer_all-delivers_all response_size (response_bytes a) j.send
        (length-response_bytes a (answer_request-IsResponse values j.asked).value) h.sends h.sent in
    rw (got, read_request-request_bytes j.asked h.sized, h.goes_on, put) refl

-- A client with enough calls that go through gets its response from the front of what comes back.
pub request-answered :
    (operation : ℕ) (key : Bytes) (value : Option Bytes) (send receive : List Answer)
    (values : Values) (more : List ℕ)
    → AreWilling send
    → request_size ≤ effective send
    → AreWilling receive
    → response_size ≤ effective receive
    → request operation key value send
        (response_bytes (answer_request values (make_request operation key value)).1 ++ more)
        receive
      ≡ (
        request_bytes (make_request operation key value),
        answered (answer_request values (make_request operation key value)).1,
      )
unfolding request after_send receive_reply
request-answered operation key value send receive values more sends sent receives received =
    let q = make_request operation key value in
    let a = (answer_request values q).1 in
    let h = answer_request-IsResponse values q in
    let (later, put) =
      transfer_all-delivers_all request_size (request_bytes q) send
        (length-request_bytes q (make_request-IsSized operation key value)) sends sent in
    let (later', got) =
      transfer_all-delivers response_size (response_bytes a) more receive
        (length-response_bytes a h.value) receives received in
    rw (put, got, read_response-response_bytes a h.status) refl
