-- ===== src/Socket/Messages.antt =====
-- Requests and responses in memory, and the strings in them.
use mem_sync.Base.{
  ℕ, zero, suc, ◌+◌, ◌*◌, ◌/◌, ◌%◌, ◌^◌, ◌≤◌, ◌<◌, ◌≡◌, refl, ap, ◌∙◌, inl, inr, false, Option,
  none, some, List, [], ◌∷◌, ◌++◌, arith, length, take, drop, length-append, replicate,
  length-replicate, ◌==◌, Bool-cases,
}
use mem_sync.Layout.{max_key_len, max_val_len}
use mem_sync.Socket.{
  Request, request_bytes, read_request, request_size, Response, response_bytes, read_response,
  response_size, make_request, no_value, answer_get, answer_update, answer_request, Values, find,
}
use mem_sync.Text.{Bytes, IsCString, read_cstr, strncpy}
use mem_sync.Text.Laws.{length-strncpy}

-- The arrays have the sizes of the C struct.
pub record IsSized (q : Request) : Type 0 where
  pub key : length q.key ≡ max_key_len
  pub value : length q.value ≡ max_val_len

take-append : (n : ℕ) (xs ys : List ℕ) → length xs ≡ n → take n (xs ++ ys) ≡ xs
unfolding take
take-append zero [] ys h = refl
take-append zero (x ∷ xs) ys h = absurd (omega (arith, h))
take-append (suc n) [] ys h = absurd (omega (arith, h))
take-append (suc n) (x ∷ xs) ys h = ap (λ l. x ∷ l) (take-append n xs ys (omega (arith, h)))

drop-append : (n : ℕ) (xs ys : List ℕ) → length xs ≡ n → drop n (xs ++ ys) ≡ ys
unfolding drop
drop-append zero [] ys h = refl
drop-append zero (x ∷ xs) ys h = absurd (omega (arith, h))
drop-append (suc n) [] ys h = absurd (omega (arith, h))
drop-append (suc n) (x ∷ xs) ys h = drop-append n xs ys (omega (arith, h))

pub length-request_bytes : (q : Request) → IsSized q → length (request_bytes q) ≡ request_size
unfolding request_bytes
length-request_bytes q h = omega (arith, length-append q.key q.value, h.key, h.value)

pub read_request-request_bytes : (q : Request) → IsSized q → read_request (request_bytes q) ≡ q
unfolding request_bytes read_request
read_request-request_bytes q h = λ i. record {
  operation = q.operation;
  key = take-append max_key_len q.key q.value h.key i;
  value = drop-append max_key_len q.key q.value h.key i;
}

pub length-response_bytes :
    (a : Response) → length a.value ≡ max_val_len → length (response_bytes a) ≡ response_size
unfolding response_bytes
length-response_bytes a h = omega (arith, h)

status_lem :
    (s : ℕ)
    → s < 4294967296
    → s % 256 + 256 * (s / 256 % 256) + 65536 * (s / 65536 % 256) + 16777216 * (s / 16777216 % 256)
      ≡ s
status_lem s h = omega arith

pub read_response-response_bytes :
    (a : Response) → a.status < 2 ^ 32 → read_response (response_bytes a) ≡ a
unfolding response_bytes read_response
read_response-response_bytes a h = λ i. record { status = status_lem a.status h i; value = a.value }

pub make_request-IsSized :
    (operation : ℕ) (key : Bytes) (value : Option Bytes)
    → IsSized (make_request operation key value)
unfolding make_request
make_request-IsSized operation key none = record {
  key = length-strncpy (replicate max_key_len 0) key 63 ∙ length-replicate 64 0;
  value = length-replicate 256 0;
}
make_request-IsSized operation key (some value) = record {
  key = length-strncpy (replicate max_key_len 0) key 63 ∙ length-replicate 64 0;
  value = length-strncpy (replicate max_val_len 0) value 255 ∙ length-replicate 256 0;
}

read_cstr_of_zeros : (m n : ℕ) → read_cstr (strncpy (replicate m 0) [] n) ≡ []
unfolding read_cstr strncpy replicate
read_cstr_of_zeros zero zero = refl
read_cstr_of_zeros zero (suc n) = refl
read_cstr_of_zeros (suc m) zero = refl
read_cstr_of_zeros (suc m) (suc n) = refl

-- A string that fits in a cleared buffer is read back.
pub read_cstr-strncpy :
    (m n : ℕ) (s : Bytes)
    → IsCString s
    → length s ≤ n
    → n ≤ m
    → read_cstr (strncpy (replicate m 0) s n) ≡ s
unfolding read_cstr strncpy replicate
read_cstr-strncpy m n [] ok fits le = read_cstr_of_zeros m n
read_cstr-strncpy m zero (c ∷ s) ok fits le = absurd (omega arith)
read_cstr-strncpy zero (suc n) (c ∷ s) ok fits le = absurd (omega arith)
read_cstr-strncpy (suc m) (suc n) (c ∷ s) ok fits le =
    let e : (c == 0) ≡ false = ground (arith, ok.0) in
    rw (e, read_cstr-strncpy m n s ok.1 (omega arith) (omega arith)) refl

read_cstr_of_zeros_then :
    (m n : ℕ) (rest : List ℕ) → n < m → read_cstr (strncpy (replicate m 0) [] n ++ rest) ≡ []
unfolding read_cstr strncpy replicate
read_cstr_of_zeros_then zero n rest lt = absurd (omega arith)
read_cstr_of_zeros_then (suc m) zero rest lt = refl
read_cstr_of_zeros_then (suc m) (suc n) rest lt = refl

-- A string that is shorter than a cleared buffer is read back whatever stands behind the buffer.
pub read_cstr-strncpy-append :
    (m n : ℕ) (s : Bytes) (rest : List ℕ)
    → IsCString s
    → length s ≤ n
    → n < m
    → read_cstr (strncpy (replicate m 0) s n ++ rest) ≡ s
unfolding read_cstr strncpy replicate
read_cstr-strncpy-append m n [] rest ok fits lt = read_cstr_of_zeros_then m n rest lt
read_cstr-strncpy-append m zero (c ∷ s) rest ok fits lt = absurd (omega arith)
read_cstr-strncpy-append zero (suc n) (c ∷ s) rest ok fits lt = absurd (omega arith)
read_cstr-strncpy-append (suc m) (suc n) (c ∷ s) rest ok fits lt =
    let e : (c == 0) ≡ false = ground (arith, ok.0) in
    rw (e, read_cstr-strncpy-append m n s rest ok.1 (omega arith) (omega arith)) refl

-- A response that the server makes.
pub record IsResponse (a : Response) : Type 0 where
  pub status : a.status < 2 ^ 32
  pub value : length a.value ≡ max_val_len

no_value-IsResponse : (s : ℕ) → s < 2 ^ 32 → IsResponse (no_value s)
no_value-IsResponse s h = record { status = h; value = length-replicate 256 0 }

answer_get-IsResponse : (o : Option Bytes) → IsResponse (answer_get o)
unfolding answer_get
answer_get-IsResponse none = no_value-IsResponse 0 (omega arith)
answer_get-IsResponse (some v) = record {
  status = omega arith;
  value = length-strncpy (replicate max_val_len 0) v 255 ∙ length-replicate 256 0;
}

answer_update-IsResponse :
    (key value : Bytes) (o : Option Bytes) (values : Values)
    → IsResponse (answer_update key value o values).1
unfolding answer_update
answer_update-IsResponse key value none values = no_value-IsResponse 0 (omega arith)
answer_update-IsResponse key value (some v) values = no_value-IsResponse 1 (omega arith)

pub answer_request-IsResponse :
    (values : Values) (q : Request) → IsResponse (answer_request values q).1
unfolding answer_request
answer_request-IsResponse values q = elim (Bool-cases (q.operation == b'G')) [
  | inl e ↦ rw e (answer_get-IsResponse (find (read_cstr (q.key ++ q.value)) values))
  | inr e ↦ elim (Bool-cases (q.operation == b'P')) [
    | inl e' ↦ rw (e, e') (no_value-IsResponse 1 (omega arith))
    | inr e' ↦ elim (Bool-cases (q.operation == b'U')) [
      | inl e'' ↦
          rw (e, e', e'')
            (answer_update-IsResponse (read_cstr (q.key ++ q.value)) (read_cstr q.value)
              (find (read_cstr (q.key ++ q.value)) values) values)
      | inr e'' ↦ rw (e, e', e'') (no_value-IsResponse 4294967295 (omega arith))
    ]
  ]
]
