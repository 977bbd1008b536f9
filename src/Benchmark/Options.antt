-- ===== src/Benchmark/Options.antt =====
-- The command line of bench/cache_benchmark.cpp.
use mem_sync.Base.{
  ℕ, ◌-◌, Bool, false, ◌&&◌, ◌||◌, not, Option, none, some, List, [], ◌∷◌, ◌==◌, ltb, leb,
  if◌then◌else◌, u32_mod, u64_mod,
}
use mem_sync.Bridge.{is_digit, read_digits, skip_space, strtoul, is_end}
use mem_sync.Text.{Bytes, strcmp_eq}

-- Whether `strtoul` sets `errno`: the number behind the sign is past ULONG_MAX.
unfoldable pub number_overflows : Bytes → Bool
number_overflows [] = false
number_overflows (c ∷ s) = is_digit c && leb u64_mod (read_digits 0 (c ∷ s)).0

unfoldable pub signed_overflows : Bytes → Bool
unfolding number_overflows
signed_overflows [] = false
signed_overflows (c ∷ s) =
    if c == b'-' || c == b'+' then number_overflows s else number_overflows (c ∷ s)

unfoldable pub sets_errno : Bytes → Bool
unfolding signed_overflows skip_space
sets_errno s = signed_overflows (skip_space s)

unfoldable pub parse_positive : Bytes → Option ℕ
unfolding sets_errno strtoul is_end
parse_positive s =
    let (number, rest) = strtoul s in
    if sets_errno s || (not (is_end rest) || (number == 0 || ltb (u32_mod - 1) number))
    then none
    else some number

-- "--operations"
abbrev pub operations_option : Bytes
operations_option =
    b'-' ∷ b'-' ∷ b'o' ∷ b'p' ∷ b'e' ∷ b'r' ∷ b'a' ∷ b't' ∷ b'i' ∷ b'o' ∷ b'n' ∷ b's' ∷ []

-- "--trials"
abbrev pub trials_option : Bytes
trials_option = b'-' ∷ b'-' ∷ b't' ∷ b'r' ∷ b'i' ∷ b'a' ∷ b'l' ∷ b's' ∷ []

abbrev pub with_option : Bytes → Option ℕ → ℕ → ℕ → (ℕ → ℕ → Option (ℕ × ℕ)) → Option (ℕ × ℕ)
with_option option none operations trials rest = none
with_option option (some parsed) operations trials rest =
    if strcmp_eq option operations_option
    then rest parsed trials
    else if strcmp_eq option trials_option
    then rest operations parsed
    else none

-- The loop over the arguments behind the program's name; `none` where `main` returns 2.
unfoldable pub parse_options : List Bytes → ℕ → ℕ → Option (ℕ × ℕ)
unfolding parse_positive
parse_options [] operations trials = some (operations, trials)
parse_options (option ∷ []) operations trials = none
parse_options (option ∷ value ∷ args) operations trials =
    with_option option (parse_positive value) operations trials (λ n k. parse_options args n k)
