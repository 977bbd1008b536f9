-- ===== src/Socket/Meeting.antt =====
-- A request of a client with the turn that its server takes for it, and the values of the server.
use mem_sync.Base.{
  ℕ, ◌≤◌, ◌<◌, ◌≡◌, refl, sym, ap, ◌∙◌, inl, inr, false, Option, none, some, List, [], ◌∷◌, ◌++◌,
  replicate, arith, length, append_nil, ◌==◌, Bool-cases,
}
use mem_sync.Layout.{max_key_len, max_val_len}
use mem_sync.Socket.{
  Answer, request_bytes, request_size, response_bytes, response_size, make_request, answered,
  after_send, request, Values, find, assign, answer_request,
}
use mem_sync.Socket.Messages.{
  make_request-IsSized, length-request_bytes, read_cstr-strncpy, read_cstr-strncpy-append,
}
use mem_sync.Socket.Server.{ExchangeCalls, exchange}
use mem_sync.Socket.Serving.{Job, take_turn-IsJob, request-answered}
use mem_sync.Socket.Transfer.{effective, AreWilling, transfer_all-delivers_all}
use mem_sync.Text.{Bytes, IsCString, read_cstr, strncpy, strcmp_eq}
use mem_sync.Text.Laws.{strcmp_eq_self, eq_of_strcmp_eq}

-- Enough calls on either side go through.
pub record IsConnected (calls : ExchangeCalls) : Type 0 where
  pub sends : AreWilling calls.send
  pub sent : request_size ≤ effective calls.send
  pub serve_receives : AreWilling calls.serve_receive
  pub serve_received : request_size ≤ effective calls.serve_receive
  pub serve_sends : AreWilling calls.serve_send
  pub serve_sent : response_size ≤ effective calls.serve_send
  pub receives : AreWilling calls.receive
  pub received : response_size ≤ effective calls.receive

request-sends :
    (operation : ℕ) (key : Bytes) (value : Option Bytes) (send : List Answer) (back : List ℕ)
    (receive : List Answer)
    → AreWilling send
    → request_size ≤ effective send
    → (request operation key value send back receive).0
      ≡ request_bytes (make_request operation key value)
unfolding request after_send
request-sends operation key value send back receive ok enough =
    let q = make_request operation key value in
    let (later, put) =
      transfer_all-delivers_all request_size (request_bytes q) send
        (length-request_bytes q (make_request-IsSized operation key value)) ok enough in
    rw put refl

pub goes_on_of :
    (operation : ℕ) (key : Bytes) (value : Option Bytes)
    → (operation == b'Q') ≡ false
    → ((make_request operation key value).operation == b'Q') ≡ false
unfolding make_request
goes_on_of operation key none h = h
goes_on_of operation key (some value) h = h

-- If enough calls on either side go through, and the request is not the one to stop, the client gets
-- what the server answers to its request, and the server has the values it answers it with, however
-- the bytes of both messages are cut into pieces and the calls interrupted.
pub exchange-answers :
    (values : Values) (operation : ℕ) (key : Bytes) (value : Option Bytes) (calls : ExchangeCalls)
    → (operation == b'Q') ≡ false
    → IsConnected calls
    → exchange values operation key value calls ≡ (
      (answer_request values (make_request operation key value)).0,
      answered (answer_request values (make_request operation key value)).1,
    )
unfolding exchange
exchange-answers values operation key value calls goes_on h =
    let q = make_request operation key value in
    let answer = answer_request values q in
    let out =
      request-sends operation key value calls.send [] calls.receive h.sends h.sent
      ∙ sym (append_nil (request_bytes q)) in
    let job : Job = record { asked = q; receive = calls.serve_receive; send = calls.serve_send } in
    let turn = take_turn-IsJob values job [] (record {
      sized = make_request-IsSized operation key value;
      goes_on = goes_on_of operation key value goes_on;
      receives = h.serve_receives;
      received = h.serve_received;
      sends = h.serve_sends;
      sent = h.serve_sent;
    }) in
    let back = sym (append_nil (response_bytes answer.1)) in
    let got =
      request-answered operation key value calls.send calls.receive values [] h.sends h.sent
        h.receives h.received in
    rw (out, turn)
      (λ i. (
        answer.0,
        (ap (λ b. (request operation key value calls.send b calls.receive).1) back
              ∙ ap (λ p. p.1) got)
            i,
      ))

-- The strings of a request, as the server reads them.
pub asked_key :
    (operation : ℕ) (key : Bytes) (value : Option Bytes)
    → IsCString key
    → length key < max_key_len
    → read_cstr ((make_request operation key value).key ++ (make_request operation key value).value)
      ≡ key
unfolding make_request
asked_key operation key none ok short =
    read_cstr-strncpy-append 64 63 key (replicate max_val_len 0) ok (omega arith) (omega arith)
asked_key operation key (some value) ok short =
    read_cstr-strncpy-append 64 63 key (strncpy (replicate max_val_len 0) value 255) ok
      (omega arith) (omega arith)

pub asked_value :
    (operation : ℕ) (key value : Bytes)
    → IsCString value
    → length value < max_val_len
    → read_cstr (make_request operation key (some value)).value ≡ value
unfolding make_request
asked_value operation key value ok short =
    read_cstr-strncpy 256 255 value ok (omega arith) (omega arith)

-- What the values hold after a write.
pub find-assign_self :
    (key value : Bytes) (values : Values) → find key (assign key value values) ≡ some value
unfolding find assign
find-assign_self key value [] = rw (strcmp_eq_self key) refl
find-assign_self key value ((k, v) ∷ values) = elim (Bool-cases (strcmp_eq key k)) [
  | inl e ↦ rw (e, e) refl
  | inr e ↦ rw (e, e) (find-assign_self key value values)
]

pub find-assign_ne :
    (q key value : Bytes) (values : Values)
    → strcmp_eq q key ≡ false
    → find q (assign key value values) ≡ find q values
unfolding find assign
find-assign_ne q key value [] ne = rw ne refl
find-assign_ne q key value ((k, v) ∷ values) ne = elim (Bool-cases (strcmp_eq key k)) [
  | inl e ↦
      let other : strcmp_eq q k ≡ false =
        ap (λ l. strcmp_eq q l) (sym (eq_of_strcmp_eq key k e)) ∙ ne in
      rw (e, other) refl
  | inr e ↦ rw (e, find-assign_ne q key value values ne) refl
]
