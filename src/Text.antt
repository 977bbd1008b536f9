-- ===== src/Text.antt =====
-- C strings and fixed-size character buffers: what the engine uses of <cstring>.
pub mod Laws
use mem_sync.Base.{
  ℕ, zero, suc, ◌+◌, ◌≤◌, ◌<◌, Bool, true, false, ◌&&◌, List, [], ◌∷◌, ◌==◌, if◌then◌else◌,
}

-- A `const char*` to a terminated string: its bytes before the terminator.
abbrev pub Bytes : Type 0
Bytes = List ℕ

-- No byte before the terminator is NUL.
abbrev pub IsCString : Bytes → Type 0
IsCString [] = Unit {0}
IsCString (c ∷ s) = (0 < c) × IsCString s

-- The string that a `char` buffer holds: its bytes before the first NUL.
unfoldable pub read_cstr : List ℕ → Bytes
read_cstr [] = []
read_cstr (c ∷ buf) = let rest = read_cstr buf in if c == 0 then [] else c ∷ rest

-- `strncpy(buf, s, n)` writes `n` bytes: the string, then NUL bytes. The rest of `buf` stays.
unfoldable pub strncpy : List ℕ → Bytes → ℕ → List ℕ
strncpy buf s zero = buf
strncpy [] s (suc n) = []
strncpy (b ∷ buf) [] (suc n) = 0 ∷ strncpy buf [] n
strncpy (b ∷ buf) (c ∷ s) (suc n) = c ∷ strncpy buf s n

-- `strcmp(a, b) == 0`
unfoldable pub strcmp_eq : Bytes → Bytes → Bool
strcmp_eq [] [] = true
strcmp_eq [] (d ∷ t) = false
strcmp_eq (c ∷ s) [] = false
strcmp_eq (c ∷ s) (d ∷ t) = c == d && strcmp_eq s t
