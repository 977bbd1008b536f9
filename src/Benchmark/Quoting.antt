-- ===== src/Benchmark/Quoting.antt =====
-- A quoted field read back by the rules of CSV.
use mem_sync.Base.{
  ℕ, ◌≡◌, refl, Bool, true, false, Option, none, some, [], ◌∷◌, ◌++◌, ◌==◌, inl, inr, if◌then◌else◌,
  Bool-cases,
}
use mem_sync.Benchmark.{double_quotes, csv_quote}
use mem_sync.Text.{Bytes}

unfoldable pub push : ℕ → Option Bytes → Option Bytes
push c none = none
push c (some s) = some (c ∷ s)

-- The rest of a quoted field, with whether the last byte was a quote that may be doubled.
unfoldable pub read_field : Bool → Bytes → Option Bytes
unfolding push
read_field false [] = none
read_field true [] = some []
read_field false (c ∷ s) =
    let behind = read_field true s in
    let more = read_field false s in if c == b'"' then behind else push c more
read_field true (c ∷ s) = let more = read_field false s in if c == b'"' then push c more else none

-- A whole quoted field.
unfoldable pub parse_csv_field : Bytes → Option Bytes
unfolding read_field
parse_csv_field [] = none
parse_csv_field (c ∷ s) = if c == b'"' then read_field false s else none

read_field-double_quotes : (s : Bytes) → read_field false (double_quotes s ++ b'"' ∷ []) ≡ some s
unfolding read_field double_quotes push
read_field-double_quotes [] = refl
read_field-double_quotes (c ∷ s) = elim (Bool-cases (c == b'"')) [
  | inl e ↦ rw (e, read_field-double_quotes s, e) refl
  | inr e ↦ rw (e, read_field-double_quotes s, e) refl
]

-- Whatever bytes a field holds, quotes included, its quoted form is one field that reads back as it.
pub parse_csv_field-csv_quote : (s : Bytes) → parse_csv_field (csv_quote s) ≡ some s
unfolding parse_csv_field csv_quote
parse_csv_field-csv_quote s = read_field-double_quotes s
