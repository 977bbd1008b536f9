-- ===== src/Bridge.antt =====
-- src/ui_bridge.cpp: the JSON strings that it prints, its argument checks, and the time-to-live
-- argument of `put`.
pub mod Unescape
pub mod Utf8
pub mod Json
pub mod Decimal
use mem_sync.Base.{
  ℕ, zero, suc, ◌+◌, ◌-◌, ◌*◌, ◌/◌, ◌%◌, ◌^◌, Bool, true, false, ◌&&◌, ◌||◌, Option, none, some,
  List, [], ◌∷◌, ◌++◌, length, get_or, ltb, leb, ◌==◌, if◌then◌else◌, u64_mod, u32_mod,
}
use mem_sync.Layout.{max_key_len, max_val_len}
use mem_sync.Text.{Bytes}

abbrev pub quote : ℕ
quote = 34

abbrev pub backslash : ℕ
backslash = 92

-- `const char hex[]`
unfoldable pub hex : List ℕ
hex =
    b'0' ∷ b'1' ∷ b'2' ∷ b'3' ∷ b'4' ∷ b'5' ∷ b'6' ∷ b'7' ∷ b'8' ∷ b'9' ∷ b'a' ∷ b'b' ∷ b'c' ∷ b'd'
    ∷ b'e' ∷ b'f' ∷ []

-- The character behind the backslash in the two-character escapes of the switch.
unfoldable pub short_escape : ℕ → Option ℕ
short_escape c =
    if c == quote
    then some quote
    else if c == backslash
    then some backslash
    else if c == 8
    then some b'b'
    else if c == 12
    then some b'f'
    else if c == 10
    then some b'n'
    else if c == 13
    then some b'r'
    else if c == 9
    then some b't'
    else none

-- The default case of the switch.
unfoldable pub long_escape : ℕ → List ℕ
long_escape c =
    if ltb c 32
    then backslash ∷ b'u' ∷ b'0' ∷ b'0' ∷ get_or hex (c / 16) 0 ∷ get_or hex (c % 16) 0 ∷ []
    else c ∷ []

unfoldable pub escape_as : ℕ → Option ℕ → List ℕ
unfolding long_escape
escape_as c none = long_escape c
escape_as c (some d) = backslash ∷ d ∷ []

-- What one round of the loop prints.
unfoldable pub escape : ℕ → List ℕ
unfolding short_escape escape_as
escape c = escape_as c (short_escape c)

unfoldable pub escape_all : Bytes → List ℕ
unfolding escape
escape_all [] = []
escape_all (c ∷ s) = escape c ++ escape_all s

unfoldable pub print_json_string : Bytes → List ℕ
unfolding escape_all
print_json_string value = quote ∷ escape_all value ++ quote ∷ []

unfoldable pub valid_key : Option Bytes → Bool
valid_key none = false
valid_key (some []) = false
valid_key (some (c ∷ s)) = if leb max_key_len (length (c ∷ s)) then false else true

unfoldable pub valid_value : Option Bytes → Bool
valid_value none = false
valid_value (some value) = if leb max_val_len (length value) then false else true

-- `isspace` in the C locale.
abbrev pub is_space : ℕ → Bool
is_space c = c == 32 || (leb 9 c && leb c 13)

abbrev pub is_digit : ℕ → Bool
is_digit c = leb 48 c && leb c 57

-- The digits at the front, read on from `value`, with the rest of the string.
unfoldable pub read_digits : ℕ → Bytes → ℕ × Bytes
read_digits value [] = (value, [])
read_digits value (c ∷ s) =
    let more = read_digits (value * 10 + (c - 48)) s in if is_digit c then more else (value, c ∷ s)

-- A value past ULONG_MAX is replaced by it; a minus sign negates what is left modulo 2^64.
unfoldable pub signed_value : Bool → ℕ → ℕ
signed_value negative value =
    if leb u64_mod value
    then u64_mod - 1
    else if negative
    then (u64_mod - value) % u64_mod
    else value

-- The number behind a sign, or nothing read if no digit follows.
unfoldable pub read_number : Bytes → Bool → Bytes → ℕ × Bytes
read_number whole negative [] = (0, whole)
read_number whole negative (c ∷ s) =
    if is_digit c
    then (signed_value negative (read_digits 0 (c ∷ s)).0, (read_digits 0 (c ∷ s)).1)
    else (0, whole)

unfoldable pub read_signed : Bytes → Bytes → ℕ × Bytes
unfolding read_number
read_signed whole [] = (0, whole)
read_signed whole (c ∷ s) =
    if c == b'-'
    then read_number whole true s
    else if c == b'+'
    then read_number whole false s
    else read_number whole false (c ∷ s)

unfoldable pub skip_space : Bytes → Bytes
skip_space [] = []
skip_space (c ∷ s) = let rest = skip_space s in if is_space c then rest else c ∷ s

-- `std::strtoul(s, &end, 10)`: the value, and the string at `end`.
unfoldable pub strtoul : Bytes → ℕ × Bytes
unfolding read_signed skip_space
strtoul s = read_signed s (skip_space s)

unfoldable pub is_end : Bytes → Bool
is_end [] = true
is_end (c ∷ s) = false

-- The fifth argument of `put`: `none` where the message about the TTL is printed.
unfoldable pub parse_ttl : Bytes → Option ℕ
unfolding strtoul is_end
parse_ttl s =
    let (parsed, rest) = strtoul s in
    if is_end rest && ltb parsed u32_mod then some parsed else none
