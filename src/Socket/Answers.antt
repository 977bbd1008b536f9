-- ===== src/Socket/Answers.antt =====
-- A server among others, against the map.
use mathlib.Core.Path.{subst}
use mem_sync.Base.{
  ℕ, ◌<◌, ◌≤◌, ◌≡◌, refl, sym, ap, false, Option, none, some, List, [], ◌∷◌, ◌++◌, length,
  replicate, append_assoc, ◌==◌,
}
use mem_sync.Layout.{max_key_len, max_val_len}
use mem_sync.Socket.{
  request_size, request_bytes, response_size, response_bytes, make_request, Values, find,
  answer_request,
}
use mem_sync.Socket.Dictionary.{
  Dictionary, dictionary_after, response_to, Answers, answer_request-Answers,
}
use mem_sync.Socket.Meeting.{asked_key, asked_value, goes_on_of}
use mem_sync.Socket.Messages.{make_request-IsSized}
use mem_sync.Socket.Server.{TurnCalls, serve}
use mem_sync.Socket.Serving.{Job, take_turn-IsJob}
use mem_sync.Socket.Transfer.{effective, AreWilling}
use mem_sync.Text.{Bytes, IsCString, read_cstr}

-- What a client asks, with the answers to its server's calls for it.
pub record Asked : Type 0 where
  pub operation : ℕ
  pub key : Bytes
  pub value : Option Bytes
  pub calls : TurnCalls

-- A string that fits a buffer of that size with its terminator.
pub record IsShort (size : ℕ) (s : Bytes) : Type 0 where
  pub terminated : IsCString s
  pub short : length s < size

abbrev pub IsText : Option Bytes → Type 0
IsText none = Unit {0}
IsText (some value) = IsShort max_val_len value

abbrev pub text_of : Option Bytes → Bytes
text_of none = []
text_of (some value) = value

-- The strings fit, it is not the request to stop, and enough calls go through.
pub record IsAsked (a : Asked) : Type 0 where
  pub named : IsShort max_key_len a.key
  pub valued : IsText a.value
  pub goes_on : (a.operation == b'Q') ≡ false
  pub receives : AreWilling a.calls.receive
  pub received : request_size ≤ effective a.calls.receive
  pub sends : AreWilling a.calls.send
  pub sent : response_size ≤ effective a.calls.send

abbrev pub AreAsked : List Asked → Type 0
AreAsked [] = Unit {0}
AreAsked (a ∷ l) = IsAsked a × AreAsked l

-- What the client has put on the wire, and the turns of its server.
abbrev pub wire : List Asked → List ℕ → List ℕ
wire [] more = more
wire (a ∷ l) more = request_bytes (make_request a.operation a.key a.value) ++ wire l more

abbrev pub turns_of : List Asked → List TurnCalls → List TurnCalls
turns_of [] later = later
turns_of (a ∷ l) later = a.calls ∷ turns_of l later

-- The requests, answered in turn: each finds the values that the other servers have made of those
-- that the one before it left, changes them as the map changes, and is answered as the map answers.
abbrev pub AnswersAll : Values → List Asked → List ℕ → Values → Type 0
AnswersAll values [] written values' = (written ≡ []) × (values' ≡ values)
AnswersAll values (a ∷ l) written values' =
    let m : Dictionary = λ q. find q (a.calls.others values) in
    (next : Values) × (rest : List ℕ) × ((q : Bytes)
      → find q next ≡ dictionary_after m a.operation a.key (text_of a.value) q)
    × (written ≡ response_bytes (response_to a.operation (m a.key)) ++ rest)
    × AnswersAll next l rest values'

made_text :
    (operation : ℕ) (key : Bytes) (value : Option Bytes)
    → IsText value
    → read_cstr (make_request operation key value).value ≡ text_of value
made_text operation key none ok = unfold make_request read_cstr replicate in refl
made_text operation key (some value) ok = asked_value operation key value ok.terminated ok.short

made_operation :
    (operation : ℕ) (key : Bytes) (value : Option Bytes)
    → (make_request operation key value).operation ≡ operation
unfolding make_request
made_operation operation key none = refl
made_operation operation key (some value) = refl

asked-Answers :
    (values : Values) (operation : ℕ) (key : Bytes) (value : Option Bytes)
    → IsShort max_key_len key
    → IsText value
    → Answers
        (λ k. find k values)
        (λ k. find k (answer_request values (make_request operation key value)).0)
        operation
        key
        (text_of value)
        (answer_request values (make_request operation key value)).1
asked-Answers values operation key value named valued =
    let q = make_request operation key value in
    subst
      (λ (o : ℕ).
        Answers (λ j. find j values) (λ j. find j (answer_request values q).0) o key (text_of value)
          (answer_request values q).1)
      (made_operation operation key value)
      (answer_request-Answers values q key (text_of value)
        (asked_key operation key value named.terminated named.short)
        (made_text operation key value valued))

-- If the strings of the requests on its wire fit their arrays, none of them is the one to stop, and
-- enough of its calls go through, a server answers them in turn, among other servers that change the
-- same values between its turns in any way: each request finds the values as they are when its server
-- has the mutex, and changes them, and is answered, as a map from keys to texts says. The responses
-- are written in the order of the requests, and the server goes on with what follows on the wire.
pub serve-AnswersAll :
    (values : Values) (l : List Asked) (more : List ℕ) (later : List TurnCalls)
    → AreAsked l
    → (values' : Values) × (written : List ℕ) × AnswersAll values l written values'
      × (serve values (wire l more) (turns_of l later) ≡ (
        (serve values' more later).0,
        written ++ (serve values' more later).1,
        (serve values' more later).2,
      ))
unfolding serve
serve-AnswersAll values [] more later ok = (values, [], (refl, refl), refl)
serve-AnswersAll values (a ∷ l) more later ok =
    let q = make_request a.operation a.key a.value in
    let found = a.calls.others values in
    let answer = answer_request found q in
    let w = asked-Answers found a.operation a.key a.value ok.0.named ok.0.valued in
    let job : Job = record { asked = q; receive = a.calls.receive; send = a.calls.send } in
    let turn = take_turn-IsJob found job (wire l more) (record {
      sized = make_request-IsSized a.operation a.key a.value;
      goes_on = goes_on_of a.operation a.key a.value ok.0.goes_on;
      receives = ok.0.receives;
      received = ok.0.received;
      sends = ok.0.sends;
      sent = ok.0.sent;
    }) in
    let (values', written, all, run) = serve-AnswersAll answer.0 l more later ok.1 in
    let s = serve values' more later in
    (
      values',
      response_bytes answer.1 ++ written,
      (answer.0, written, w.values, ap (λ r. response_bytes r ++ written) w.response, all),
      rw (turn, run)
          (ap (λ (b : List ℕ). (s.0, b, s.2))
            (sym (append_assoc (response_bytes answer.1) written s.1))),
    )
