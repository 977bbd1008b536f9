-- ===== src/Benchmark/Counting.antt =====
-- Decimal counts on the command line of the benchmark.
use mem_sync.Base.{
  ℕ, ◌<◌, ◌≡◌, refl, ◌∙◌, true, false, ◌&&◌, ◌||◌, none, some, [], ◌∷◌, ◌==◌, ltb, leb, lt→ltb,
  arith, if◌then◌else◌, u32_mod, u64_mod,
}
use mem_sync.Benchmark.Options.{
  sets_errno, signed_overflows, number_overflows, parse_positive, operations_option, trials_option,
  parse_options,
}
use mem_sync.Bridge.{is_digit, is_space, read_digits, skip_space, signed_value, is_end}
use mem_sync.Bridge.Decimal.{
  IsDecimal, decimal-StartsWithDigit, read_digits-decimal, strtoul-digits,
}
use mem_sync.Text.{Bytes, strcmp_eq}

sets_errno-digits :
    (c : ℕ) (t : Bytes) (v : ℕ)
    → is_digit c ≡ true
    → read_digits 0 (c ∷ t) ≡ (v, [])
    → sets_errno (c ∷ t) ≡ leb u64_mod v
unfolding sets_errno signed_overflows number_overflows skip_space
sets_errno-digits c t v first h =
    let no_space : is_space c ≡ false = ground arith in
    let no_sign : (c == b'-' || c == b'+') ≡ false = ground arith in
    rw (no_space, no_sign, first, h) refl

-- A decimal number is accepted exactly if it is positive and below 2^32, with its value.
pub parse_positive-decimal :
    (s : Bytes) (v : ℕ)
    → IsDecimal s v
    → parse_positive s ≡ (if ltb 0 v && ltb v u32_mod then some v else none)
unfolding parse_positive is_end
parse_positive-decimal s v h =
    let (c, t, e, first) = decimal-StartsWithDigit h in
    let digits : read_digits 0 (c ∷ t) ≡ (v, []) = rw (← e) (read_digits-decimal h) in
    rw (e, strtoul-digits c t v first digits, sets_errno-digits c t v first digits)
      (unfold signed_value in ground arith)

-- Both options in either order, with decimal counts that are positive and below 2^32, set the two
-- counts; either one alone leaves the other count; and either one twice counts the second time.
pub parse_options-counts :
    (s t : Bytes) (n k operations trials : ℕ)
    → IsDecimal s n
    → IsDecimal t k
    → 0 < n
    → n < u32_mod
    → 0 < k
    → k < u32_mod
    → (parse_options (operations_option ∷ s ∷ trials_option ∷ t ∷ []) operations trials
        ≡ some (n, k))
      × (parse_options (trials_option ∷ t ∷ operations_option ∷ s ∷ []) operations trials
          ≡ some (n, k))
      × (parse_options (operations_option ∷ s ∷ []) operations trials ≡ some (n, trials))
      × (parse_options (trials_option ∷ t ∷ []) operations trials ≡ some (operations, k))
      × (parse_options (operations_option ∷ s ∷ operations_option ∷ t ∷ []) operations trials
          ≡ some (k, trials))
      × (parse_options (trials_option ∷ s ∷ trials_option ∷ t ∷ []) operations trials
          ≡ some (operations, k))
unfolding parse_options strcmp_eq
parse_options-counts s t n k operations trials hs ht n_pos n_small k_pos k_small =
    let one : parse_positive s ≡ some n =
      parse_positive-decimal s n hs ∙ (rw (lt→ltb 0 n n_pos, lt→ltb n u32_mod n_small) refl) in
    let two : parse_positive t ≡ some k =
      parse_positive-decimal t k ht ∙ (rw (lt→ltb 0 k k_pos, lt→ltb k u32_mod k_small) refl) in
    (
      rw (one, two) refl,
      rw (one, two) refl,
      rw one refl,
      rw two refl,
      rw (one, two) refl,
      rw (one, two) refl,
    )
