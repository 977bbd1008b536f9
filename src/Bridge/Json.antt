-- ===== src/Bridge/Json.antt =====
-- The printed strings as JSON texts: UTF-8, with the escapes of RFC 8259.
use mathlib.Core.Path.{subst}
use mem_sync.Base.{
  ℕ, ◌/◌, ◌%◌, ◌<◌, ◌≤◌, ◌≡◌, refl, sym, ap, ◌∙◌, inl, inr, Bool, false, ◌&&◌, Option, none, some,
  List, [], ◌∷◌, ◌++◌, get_or, ltb, leb, arith, if◌then◌else◌, Bool-cases, Option-cases, dec_lt,
  append_nil, append_assoc, zero, suc,
}
use mem_sync.Bridge.{
  quote, backslash, hex, short_escape, long_escape, escape_as, escape, escape_all,
  print_json_string,
}
use mem_sync.Bridge.Unescape.{parse_json_string, parse_json_string-print_json_string}
use mem_sync.Bridge.Utf8.{
  Bounds, utf8_from, is_utf8, tail_of, AreHigh, AreAscii, tail_of-AreHigh, tail_of-ascii,
  utf8_from-ascii, utf8_from-broken,
}
use mem_sync.Text.{Bytes}

-- A string with nothing behind it.
abbrev whole : Option (Bytes × List ℕ) → Option Bytes
whole none = none
whole (some (s, [])) = some s
whole (some (s, c ∷ rest)) = none

-- A JSON text that is one string: it is UTF-8, and reads as a string to its end.
unfoldable pub parse_json : List ℕ → Option Bytes
unfolding is_utf8
parse_json text = if is_utf8 text then whole (parse_json_string text) else none

get_or-ascii : (l : List ℕ) (i : ℕ) → AreAscii l → get_or l i 0 < 128
unfolding get_or
get_or-ascii [] i h = omega arith
get_or-ascii (c ∷ l) zero h = h.0
get_or-ascii (c ∷ l) (suc i) h = get_or-ascii l i h.1

hex-AreAscii : AreAscii hex
unfolding hex
hex-AreAscii = omega arith

hex-ascii : (i : ℕ) → get_or hex i 0 < 128
hex-ascii i = get_or-ascii hex i hex-AreAscii

-- What is printed for a byte of ASCII is one or more bytes of ASCII.
abbrev IsPrinted : List ℕ → Type 0
IsPrinted l = (d : ℕ) × (t : List ℕ) × (l ≡ d ∷ t) × (d < 128) × AreAscii t

escape-ascii : (c : ℕ) → c < 128 → IsPrinted (escape c)
unfolding escape escape_as long_escape
escape-ascii c h = elim (Option-cases (short_escape c)) [
  | inr (d, e) ↦
      (backslash, d ∷ [], rw e refl, omega arith, (unfold short_escape in ground arith, tt))
  | inl e ↦ elim (Bool-cases (ltb c 32)) [
    | inl control ↦ (
      backslash,
      b'u' ∷ b'0' ∷ b'0' ∷ get_or hex (c / 16) 0 ∷ get_or hex (c % 16) 0 ∷ [],
      rw (e, control) refl,
      omega arith,
      omega (arith, hex-ascii (c / 16), hex-ascii (c % 16)),
    )
    | inr plain ↦ (c, [], rw (e, plain) refl, h, tt)
  ]
]

-- Any other byte is printed as it is.
escape-high : (c : ℕ) → 128 ≤ c → escape c ≡ c ∷ []
unfolding escape escape_as long_escape
escape-high c h =
    let named : short_escape c ≡ none = unfold short_escape in ground arith in
    let plain : ltb c 32 ≡ false = ground arith in rw (named, plain) refl

IsPrinted-AreAscii : (l : List ℕ) → IsPrinted l → AreAscii l
IsPrinted-AreAscii l (d, t, e, small, ok) = subst AreAscii (sym e) (small, ok)

ascii_step :
    (bs : List Bounds) (c : ℕ) (s t : Bytes)
    → AreHigh bs
    → c < 128
    → utf8_from [] t ≡ utf8_from [] s
    → utf8_from bs (escape c ++ t) ≡ utf8_from bs (c ∷ s)
unfolding utf8_from
ascii_step [] c s t high small same =
    utf8_from-ascii (escape c) t (IsPrinted-AreAscii (escape c) (escape-ascii c small))
    ∙ same
    ∙ sym (ap (λ (b : List Bounds). utf8_from b s) (tail_of-ascii c small))
ascii_step (b ∷ bs) c s t high small same =
    let (d, l, e, low, ok) = escape-ascii c small in
    ap (λ (x : List ℕ). utf8_from (b ∷ bs) (x ++ t)) e
    ∙ utf8_from-broken b bs d (l ++ t) high low
    ∙ sym (utf8_from-broken b bs c s high small)

high_step :
    (bs : List Bounds) (c : ℕ) (s t : Bytes)
    → AreHigh bs
    → ((bs' : List Bounds) → AreHigh bs' → utf8_from bs' t ≡ utf8_from bs' s)
    → utf8_from bs (c ∷ t) ≡ utf8_from bs (c ∷ s)
unfolding utf8_from
high_step [] c s t high same = same (tail_of c) (tail_of-AreHigh c)
high_step ((low, top) ∷ bs) c s t high same =
    ap (λ (b : Bool). leb low c && leb c top && b) (same bs high.1)

-- The printed bytes go on as the bytes of the string do.
utf8_from-escape_all :
    (bs : List Bounds) (s : Bytes)
    → AreHigh bs
    → utf8_from bs (escape_all s ++ quote ∷ []) ≡ utf8_from bs s
unfolding utf8_from escape_all
utf8_from-escape_all [] [] high = utf8_from-ascii (quote ∷ []) [] (omega arith)
utf8_from-escape_all (b ∷ bs) [] high = utf8_from-broken b bs quote [] high (omega arith)
utf8_from-escape_all bs (c ∷ s) high =
    let t = escape_all s ++ quote ∷ [] in
    ap (utf8_from bs) (append_assoc (escape c) (escape_all s) (quote ∷ [])) ∙ elim (dec_lt c 128) [
      | yes small ↦ ascii_step bs c s t high small (utf8_from-escape_all [] s tt)
      | no large ↦
          ap (λ (x : List ℕ). utf8_from bs (x ++ t)) (escape-high c (omega arith))
          ∙ high_step bs c s t high (λ bs' h. utf8_from-escape_all bs' s h)
    ]

-- Exactly for a string that is UTF-8 is what is printed a JSON text, and it then reads back as the
-- string.
pub parse_json-print_json_string :
    (s : Bytes) → parse_json (print_json_string s) ≡ (if is_utf8 s then some s else none)
unfolding parse_json
parse_json-print_json_string s =
    let text : is_utf8 (print_json_string s) ≡ is_utf8 s =
      unfold is_utf8 print_json_string in
      utf8_from-ascii (quote ∷ []) (escape_all s ++ quote ∷ []) (omega arith)
      ∙ utf8_from-escape_all [] s tt in
    let read : parse_json_string (print_json_string s) ≡ some (s, []) =
      ap parse_json_string (sym (append_nil (print_json_string s)))
      ∙ parse_json_string-print_json_string s [] in
    rw (text, read) refl
