-- ===== src/Socket/Dictionary.antt =====
-- What the socket cache promises, with no wire and no list: a map from keys to texts.
use mathlib.Core.Path.{subst}
use mem_sync.Base.{
  arith, ℕ, ◌^◌, ◌-◌, ◌≡◌, refl, ap, ◌∙◌, inl, inr, false, Option, none, some, ◌++◌, replicate,
  ◌==◌, if◌then◌else◌, Bool-cases,
}
use mem_sync.Layout.{max_val_len}
use mem_sync.Socket.{
  Request, Response, Values, find, assign, answer_get, answer_update, answer_request,
}
use mem_sync.Socket.Meeting.{find-assign_self, find-assign_ne}
use mem_sync.Text.{Bytes, read_cstr, strncpy, strcmp_eq}
use mem_sync.Text.Laws.{eq_of_strcmp_eq}

abbrev pub Dictionary : Type 0
Dictionary = Bytes → Option Bytes

-- A text in place of another one.
abbrev pub replaced : Bytes → Option Bytes → Option Bytes
replaced text none = none
replaced text (some old) = some text

-- What a key has after an operation on it: 'P' stores, 'U' replaces what is there, all else reads.
abbrev pub stored_after : ℕ → Bytes → Option Bytes → Option Bytes
stored_after operation text o =
    if operation == b'P' then some text else if operation == b'U' then replaced text o else o

-- The other keys have what they had.
abbrev pub dictionary_after : Dictionary → ℕ → Bytes → Bytes → Dictionary
dictionary_after m operation key text q =
    if strcmp_eq q key then stored_after operation text (m key) else m q

abbrev pub without_text : ℕ → Response
without_text status = record { status = status; value = replicate max_val_len 0 }

-- A text of which there is room for 255 bytes.
abbrev pub shown : Option Bytes → Response
shown none = without_text 0
shown (some text) = record {
  status = 1;
  value = strncpy (replicate max_val_len 0) text (max_val_len - 1);
}

abbrev pub was_there : Option Bytes → Response
was_there none = without_text 0
was_there (some text) = without_text 1

-- The response: the text of the key, that it is stored, whether it was there, or -1.
abbrev pub response_to : ℕ → Option Bytes → Response
response_to operation o =
    if operation == b'G'
    then shown o
    else if operation == b'P'
    then without_text 1
    else if operation == b'U'
    then was_there o
    else without_text (2 ^ 32 - 1)

-- To look a key up where a decision says it is.
find-here :
    (q key : Bytes) (values : Values)
    → find q values ≡ (if strcmp_eq q key then find key values else find q values)
find-here q key values = elim (Bool-cases (strcmp_eq q key)) [
  | inl same ↦ rw same (ap (λ (k : Bytes). find k values) (eq_of_strcmp_eq q key same))
  | inr other ↦ rw other refl
]

find-assign :
    (q key text : Bytes) (values : Values)
    → find q (assign key text values) ≡ (if strcmp_eq q key then some text else find q values)
find-assign q key text values = elim (Bool-cases (strcmp_eq q key)) [
  | inl same ↦ rw same (
      ap (λ (k : Bytes). find k (assign key text values)) (eq_of_strcmp_eq q key same)
      ∙ find-assign_self key text values)
  | inr other ↦ rw other (find-assign_ne q key text values other)
]

-- What an operation on a key comes to: the map after it, and the response.
pub record Answers (m m' : Dictionary) (operation : ℕ) (key text : Bytes) (a : Response)
    : Type 0 where
  pub values : (q : Bytes) → m' q ≡ dictionary_after m operation key text q
  pub response : a ≡ response_to operation (m key)

answer_update-Answers :
    (key text : Bytes) (o : Option Bytes) (values : Values)
    → find key values ≡ o
    → Answers
        (λ q. find q values)
        (λ q. find q (answer_update key text o values).0)
        b'U'
        key
        text
        (answer_update key text o values).1
unfolding answer_update
answer_update-Answers key text none values h = record {
  values = λ q. find-here q key values ∙ rw h refl;
  response = rw h refl;
}
answer_update-Answers key text (some old) values h = record {
  values = λ q. find-assign q key text values ∙ rw h refl;
  response = rw h refl;
}

answer_get-shown : (o : Option Bytes) → answer_get o ≡ shown o
unfolding answer_get
answer_get-shown none = refl
answer_get-shown (some text) = refl

answer_request_lem :
    (values : Values) (q : Request)
    → Answers
        (λ k. find k values)
        (λ k. find k (answer_request values q).0)
        q.operation
        (read_cstr (q.key ++ q.value))
        (read_cstr q.value)
        (answer_request values q).1
unfolding answer_request
answer_request_lem values q =
    let key = read_cstr (q.key ++ q.value) in
    let text = read_cstr q.value in
    elim (Bool-cases (q.operation == b'G')) [
      | inl g ↦
          let p : (q.operation == b'P') ≡ false = ground arith in
          let u : (q.operation == b'U') ≡ false = ground arith in
          rw g (record {
            values = λ k. find-here k key values ∙ rw (p, u) refl;
            response = answer_get-shown (find key values) ∙ rw g refl;
          })
      | inr g ↦ elim (Bool-cases (q.operation == b'P')) [
        | inl p ↦ rw g (
            rw p (record {
              values = λ k. find-assign k key text values ∙ rw p refl;
              response = rw (g, p) refl;
            }))
        | inr p ↦ elim (Bool-cases (q.operation == b'U')) [
          | inl u ↦
              let w = answer_update-Answers key text (find key values) values refl in
              rw g (
                rw p (
                  rw u (record {
                    values = λ k. w.values k ∙ rw (p, u) refl;
                    response = w.response ∙ rw (g, p, u) refl;
                  })))
          | inr u ↦ rw g (
              rw p (
                rw u (record {
                  values = λ k. find-here k key values ∙ rw (p, u) refl;
                  response = rw (g, p, u) refl;
                })))
        ]
      ]
    ]

-- The server does to its values, and answers, what the map does.
pub answer_request-Answers :
    (values : Values) (q : Request) (key text : Bytes)
    → read_cstr (q.key ++ q.value) ≡ key
    → read_cstr q.value ≡ text
    → Answers
        (λ k. find k values)
        (λ k. find k (answer_request values q).0)
        q.operation
        key
        text
        (answer_request values q).1
answer_request-Answers values q key text k v =
    subst
      (λ (x : Bytes).
        Answers (λ j. find j values) (λ j. find j (answer_request values q).0) q.operation key x
          (answer_request values q).1)
      v
      (subst
        (λ (x : Bytes).
          Answers (λ j. find j values) (λ j. find j (answer_request values q).0) q.operation x
            (read_cstr q.value) (answer_request values q).1)
        k (answer_request_lem values q))
