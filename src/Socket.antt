-- ===== src/Socket.antt =====
-- bench/benchmark_socket.cpp: a cache behind a stream socket, which the benchmark compares with the
-- shared table.
pub mod Transfer
pub mod Messages
pub mod Server
pub mod Serving
pub mod Meeting
pub mod Dictionary
pub mod Answers
use mem_sync.Base.{
  ℕ, zero, suc, ◌+◌, ◌-◌, ◌≤◌, Bool, true, false, ◌&&◌, Option, none, some, List, [], ◌∷◌, ◌++◌,
  ◌*◌, ◌/◌, ◌%◌, ◌^◌, length, take, drop, replicate, ◌==◌, leb, if◌then◌else◌, u32_mod,
}
use mem_sync.Layout.{max_key_len, max_val_len}
use mem_sync.Text.{Bytes, read_cstr, strncpy, strcmp_eq}

-- What one `read` or `write` answers: -1 with EINTR, -1 with another error, or that it may move up to
-- so many bytes.
pub data Answer : Type 0 where
  interrupted : Answer
  refused : Answer
  moves : ℕ → Answer

-- A loop of calls has returned, with what it has moved, what is left to move and the answers to the
-- calls after it; or it has moved some and waits in a call that has not answered.
pub data Progress : Type 0 where
  returned : Bool → List ℕ → List ℕ → List Answer → Progress
  waiting : List ℕ → Progress

abbrev pub min : ℕ → ℕ → ℕ
min a b = if leb a b then a else b

-- The loop of `transfer_all` with that many bytes to go: a `write` moves bytes of the data to the
-- wire, a `read` bytes of the wire to the data. A call moves as many as it may, as are asked for, and as
-- there are; none is an error, or the end of the stream.
unfoldable pub transfer_from : ℕ → List ℕ → List ℕ → List Answer → Progress
transfer_from zero target source answers = returned true target source answers
transfer_from (suc n) target source [] = waiting target
transfer_from (suc n) target source (interrupted ∷ answers) =
    transfer_from (suc n) target source answers
transfer_from (suc n) target source (refused ∷ answers) = returned false target source answers
transfer_from (suc n) target source (moves k ∷ answers) =
    let result = min k (min (suc n) (length source)) in
    let rest =
      transfer_from (suc n - result) (target ++ take result source) (drop result source) answers in
    if result == 0 then returned false target source answers else rest

unfoldable pub transfer_all : ℕ → List ℕ → List Answer → Progress
unfolding transfer_from
transfer_all size source answers = transfer_from size [] source answers

-- A `Request` in memory is its three arrays one behind the other.
pub record Request : Type 0 where
  pub operation : ℕ
  pub key : List ℕ
  pub value : List ℕ

abbrev pub request_size : ℕ
request_size = 1 + max_key_len + max_val_len

unfoldable pub request_bytes : Request → List ℕ
request_bytes q = q.operation ∷ (q.key ++ q.value)

unfoldable pub read_request : List ℕ → Request
read_request [] = record { operation = 0; key = []; value = [] }
read_request (c ∷ rest) = record {
  operation = c;
  key = take max_key_len rest;
  value = drop max_key_len rest;
}

-- `status` is an `int32_t`, so -1 is 2 ^ 32 - 1. In memory it is four bytes, the low one first.
pub record Response : Type 0 where
  pub status : ℕ
  pub value : List ℕ

abbrev pub response_size : ℕ
response_size = 4 + max_val_len

unfoldable pub response_bytes : Response → List ℕ
response_bytes a =
    a.status % 256
    ∷ a.status / 256 % 256
    ∷ a.status / 65536 % 256
    ∷ a.status / 16777216 % 256
    ∷ a.value

unfoldable pub read_response : List ℕ → Response
read_response (a ∷ b ∷ c ∷ d ∷ value) = record {
  status = a + 256 * b + 65536 * c + 16777216 * d;
  value = value;
}
read_response _ = record { status = 0; value = [] }

-- The request that `LocalSocketCache::request` sends.
unfoldable pub make_request : ℕ → Bytes → Option Bytes → Request
make_request operation key none = record {
  operation = operation;
  key = strncpy (replicate max_key_len 0) key (max_key_len - 1);
  value = replicate max_val_len 0;
}
make_request operation key (some value) = record {
  operation = operation;
  key = strncpy (replicate max_key_len 0) key (max_key_len - 1);
  value = strncpy (replicate max_val_len 0) value (max_val_len - 1);
}

-- What `request` comes to: a call that has not answered, false, or true with the response.
pub data Reply : Type 0 where
  pending : Reply
  failed : Reply
  answered : Response → Reply

unfoldable pub receive_reply : Progress → Reply
unfolding read_response
receive_reply (waiting target) = pending
receive_reply (returned false target source answers) = failed
receive_reply (returned true target source answers) = answered (read_response target)

-- The second `transfer_all`, which reads what the server has put on the wire.
unfoldable pub after_send : Progress → List ℕ → List Answer → List ℕ × Reply
unfolding receive_reply
after_send (waiting target) back receive = (target, pending)
after_send (returned false target source answers) back receive = (target, failed)
after_send (returned true target source answers) back receive =
    (target, receive_reply (transfer_all response_size back receive))

-- `LocalSocketCache::request`: what it puts on the wire, and its result.
unfoldable pub request :
    ℕ → Bytes → Option Bytes → List Answer → List ℕ → List Answer → List ℕ × Reply
unfolding make_request request_bytes after_send
request operation key value send back receive =
    after_send (transfer_all request_size (request_bytes (make_request operation key value)) send)
      back receive

-- `values_`, a `std::map` of which only its lookups matter.
abbrev pub Values : Type 0
Values = List (Bytes × Bytes)

unfoldable pub find : Bytes → Values → Option Bytes
find key [] = none
find key ((k, v) ∷ values) = let rest = find key values in if strcmp_eq key k then some v else rest

-- `values_[key] = value`
unfoldable pub assign : Bytes → Bytes → Values → Values
assign key value [] = (key, value) ∷ []
assign key value ((k, v) ∷ values) =
    let rest = assign key value values in
    if strcmp_eq key k then (k, value) ∷ values else (k, v) ∷ rest

abbrev pub no_value : ℕ → Response
no_value status = record { status = status; value = replicate max_val_len 0 }

unfoldable pub answer_get : Option Bytes → Response
answer_get none = no_value 0
answer_get (some v) = record {
  status = 1;
  value = strncpy (replicate max_val_len 0) v (max_val_len - 1);
}

unfoldable pub answer_update : Bytes → Bytes → Option Bytes → Values → Values × Response
unfolding assign
answer_update key value none values = (values, no_value 0)
answer_update key value (some v) values = (assign key value values, no_value 1)

-- What a server does with a request, under the mutex. The key is read as a string from the start of its
-- array, so without a NUL in there it goes on with the value; what is in memory behind the request is
-- not modelled.
unfoldable pub answer_request : Values → Request → Values × Response
unfolding find assign answer_get answer_update
answer_request values q =
    let key = read_cstr (q.key ++ q.value) in
    let found = find key values in
    if q.operation == b'G'
    then (values, answer_get found)
    else if q.operation == b'P'
    then (assign key (read_cstr q.value) values, no_value 1)
    else if q.operation == b'U'
    then answer_update key (read_cstr q.value) found values
    else (values, no_value (u32_mod - 1))
