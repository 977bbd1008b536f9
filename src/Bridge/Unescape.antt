-- ===== src/Bridge/Unescape.antt =====
-- The escapes of the printed strings read back. Bridge.Json adds that a JSON text is UTF-8.
use mem_sync.Base.{
  ℕ, zero, suc, ◌+◌, ◌-◌, ◌*◌, ◌/◌, ◌%◌, ◌<◌, ◌≡◌, refl, ◌∙◌, ap, inl, inr, true, false, ◌&&◌,
  Option, none, some, List, [], ◌∷◌, ◌++◌, get_or, length, ltb, leb, ◌==◌, if◌then◌else◌, arith,
  Bool-cases, Option-cases, ltb→lt, lt→ltb,
}
use mathlib.Core.List.{append_assoc}
use mem_sync.Bridge.{
  quote, backslash, hex, short_escape, long_escape, escape_as, escape, escape_all,
  print_json_string,
}
use mem_sync.Text.{Bytes}

-- Where a reader of a JSON string stands: between characters, behind a backslash, or before the
-- last `suc n` hexadecimal digits of a code point.
pub data Reader : Type 0 where
  between : Reader
  escaped : Reader
  digits : ℕ → ℕ → Reader

unfoldable pub hex_value : ℕ → Option ℕ
hex_value c =
    if leb 48 c && leb c 57
    then some (c - 48)
    else if leb 97 c && leb c 102
    then some (c - 87)
    else if leb 65 c && leb c 70
    then some (c - 55)
    else none

-- RFC 8259, section 7, less the escapes that stand for themselves.
unfoldable pub named_character : ℕ → Option ℕ
named_character c =
    if c == quote
    then some quote
    else if c == backslash
    then some backslash
    else if c == b'/'
    then some b'/'
    else if c == b'b'
    then some 8
    else if c == b'f'
    then some 12
    else if c == b'n'
    then some 10
    else if c == b'r'
    then some 13
    else if c == b't'
    then some 9
    else none

unfoldable pub emit : ℕ → Option (Bytes × List ℕ) → Option (Bytes × List ℕ)
emit c none = none
emit c (some (s, rest)) = some (c ∷ s, rest)

abbrev pub and_then {ℓ} : {A : Type ℓ} → Option ℕ → (ℕ → Option A) → Option A
and_then none f = none
and_then (some v) f = f v

-- The string up to its closing quote, and what follows it. An unescaped control character is
-- refused, and so is an escaped code point past ASCII, which the printer has no use for.
unfoldable pub read_json : Reader → List ℕ → Option (Bytes × List ℕ)
unfolding hex_value named_character emit
read_json state [] = none
read_json between (c ∷ cs) =
    let behind = read_json escaped cs in
    let more = read_json between cs in
    if c == quote
    then some ([], cs)
    else if c == backslash
    then behind
    else if ltb c 32
    then none
    else emit c more
read_json escaped (c ∷ cs) =
    let code = read_json (digits 3 0) cs in
    let more = read_json between cs in
    if c == b'u' then code else and_then (named_character c) (λ d. emit d more)
read_json (digits zero value) (c ∷ cs) =
    let more = read_json between cs in
    and_then (hex_value c)
      (λ v. if ltb (value * 16 + v) 128 then emit (value * 16 + v) more else none)
read_json (digits (suc n) value) (c ∷ cs) =
    and_then (hex_value c) (λ v. read_json (digits n (value * 16 + v)) cs)

-- A whole string, from its opening quote on.
unfoldable pub parse_json_string : List ℕ → Option (Bytes × List ℕ)
unfolding read_json
parse_json_string [] = none
parse_json_string (c ∷ cs) = if c == quote then read_json between cs else none

-- Each character of a list has its index, counted from `n` on, for its hexadecimal value.
Counts : ℕ → List ℕ → Type 0
Counts n [] = Unit {0}
Counts n (c ∷ cs) = (hex_value c ≡ some n) × Counts (n + 1) cs

Counts-get_or :
    (n : ℕ) (cs : List ℕ) (i : ℕ)
    → Counts n cs
    → i < length cs
    → hex_value (get_or cs i 0) ≡ some (n + i)
unfolding Counts get_or
Counts-get_or n [] i h small = absurd (omega arith)
Counts-get_or n (c ∷ cs) zero h small = h.0 ∙ ap some (omega arith)
Counts-get_or n (c ∷ cs) (suc i) h small =
    Counts-get_or (n + 1) cs i h.1 (omega arith) ∙ ap some (omega arith)

hex-Counts : Counts 0 hex
unfolding Counts hex hex_value
hex-Counts = (
  refl,
  (
    refl,
    (
      refl,
      (
        refl,
        (
          refl,
          (
            refl,
            (refl, (refl, (refl, (refl, (refl, (refl, (refl, (refl, (refl, (refl, tt)))))))))),
          ),
        ),
      ),
    ),
  ),
)

hex-value : (d : ℕ) → d < 16 → hex_value (get_or hex d 0) ≡ some d
hex-value d h = Counts-get_or 0 hex d hex-Counts (unfold hex in h) ∙ ap some (omega arith)

read-named :
    (c d : ℕ) (tail : List ℕ)
    → short_escape c ≡ some d
    → read_json between (backslash ∷ d ∷ tail) ≡ emit c (read_json between tail)
unfolding read_json short_escape
read-named c d tail h =
    let named : named_character d ≡ some c = unfold named_character in ground arith in
    let plain : (d == b'u') ≡ false = ground arith in rw (plain, named) refl

read-prefix :
    (cs : List ℕ)
    → read_json between (backslash ∷ b'u' ∷ b'0' ∷ b'0' ∷ cs) ≡ read_json (digits 1 0) cs
unfolding read_json hex_value
read-prefix cs = refl

read-digits :
    (c high low : ℕ) (tail : List ℕ)
    → c < 32
    → hex_value high ≡ some (c / 16)
    → hex_value low ≡ some (c % 16)
    → read_json (digits 1 0) (high ∷ low ∷ tail) ≡ emit c (read_json between tail)
unfolding read_json
read-digits c high low tail small h l =
    let whole : (0 * 16 + c / 16) * 16 + c % 16 ≡ c = omega arith in
    let ascii : ltb c 128 ≡ true = lt→ltb c 128 (omega (arith, small)) in
    rw (h, l, whole, ascii) refl

read-plain :
    (c : ℕ) (tail : List ℕ)
    → short_escape c ≡ none
    → ltb c 32 ≡ false
    → read_json between (c ∷ tail) ≡ emit c (read_json between tail)
unfolding read_json
read-plain c tail h printed =
    let no_quote : (c == quote) ≡ false = unfold short_escape in ground arith in
    let no_backslash : (c == backslash) ≡ false = unfold short_escape in ground arith in
    rw (no_quote, no_backslash, printed) refl

read-long :
    (c : ℕ) (tail : List ℕ)
    → short_escape c ≡ none
    → read_json between (long_escape c ++ tail) ≡ emit c (read_json between tail)
unfolding long_escape
read-long c tail h = elim (Bool-cases (ltb c 32)) [
  | inl control ↦
      let small : c < 32 = ltb→lt c 32 control in
      rw control (
        read-prefix _
        ∙ read-digits c _ _ tail small (hex-value (c / 16) (omega (arith, small)))
            (hex-value (c % 16) (omega arith)))
  | inr printed ↦ rw printed (read-plain c tail h printed)
]

read-escape :
    (c : ℕ) (tail : List ℕ) → read_json between (escape c ++ tail) ≡ emit c (read_json between tail)
unfolding escape escape_as
read-escape c tail = elim (Option-cases (short_escape c)) [
  | inl e ↦ rw e (read-long c tail e)
  | inr (d, e) ↦ rw e (read-named c d tail e)
]

read-escape_all :
    (s : Bytes) (rest : List ℕ) → read_json between (escape_all s ++ quote ∷ rest) ≡ some (s, rest)
unfolding escape_all
read-escape_all [] rest = unfold read_json in refl
read-escape_all (c ∷ s) rest =
    ap (read_json between) (append_assoc (escape c) (escape_all s) (quote ∷ rest))
    ∙ read-escape c (escape_all s ++ quote ∷ rest)
    ∙ ap (emit c) (read-escape_all s rest)
    ∙ unfold emit in refl

-- What is printed for a string reads back as its bytes, and its closing quote is the last byte printed.
pub parse_json_string-print_json_string :
    (s : Bytes) (rest : List ℕ) → parse_json_string (print_json_string s ++ rest) ≡ some (s, rest)
unfolding parse_json_string print_json_string
parse_json_string-print_json_string s rest =
    ap (read_json between) (append_assoc (escape_all s) (quote ∷ []) rest) ∙ read-escape_all s rest
