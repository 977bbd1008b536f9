-- ===== src/Bridge/Decimal.antt =====
-- The time-to-live argument in decimal.
use mem_sync.Base.{
  ℕ, ◌+◌, ◌-◌, ◌*◌, ◌<◌, ◌≡◌, refl, ap, ◌∙◌, inl, inr, true, false, none, some, [], ◌∷◌, ◌++◌, ltb,
  ◌==◌, if◌then◌else◌, arith, u32_mod, Bool-cases,
}
use mem_sync.Bridge.{
  is_space, is_digit, read_digits, signed_value, read_number, read_signed, skip_space, strtoul,
  is_end, parse_ttl,
}
use mem_sync.Text.{Bytes}

abbrev pub digit : ℕ → Bytes
digit d = (48 + d) ∷ []

-- A string of digits with its value: one digit, or one more digit behind such a string.
pub data IsDecimal : Bytes → ℕ → Type 0 where
  one_digit : (d : ℕ) → d < 10 → IsDecimal (digit d) d
  one_more : (s : Bytes) (v d : ℕ) → IsDecimal s v → d < 10 → IsDecimal (s ++ digit d) (v * 10 + d)

digit-is_digit : (d : ℕ) → d < 10 → is_digit (48 + d) ≡ true
digit-is_digit d h = ground arith

read_digits-append :
    (s : Bytes) (from to d : ℕ)
    → read_digits from s ≡ (to, [])
    → d < 10
    → read_digits from (s ++ digit d) ≡ (to * 10 + d, [])
unfolding read_digits
read_digits-append [] from to d h small =
    let start : from ≡ to = ap (λ p. p.0) h in
    let value : from * 10 + (48 + d - 48) ≡ to * 10 + d = omega (arith, start) in
    rw (digit-is_digit d small, value) refl
read_digits-append (c ∷ s) from to d h small = elim (Bool-cases (is_digit c)) [
  | inl e ↦
      let more : read_digits (from * 10 + (c - 48)) s ≡ (to, []) = rw e at h in
      rw e (read_digits-append s _ to d more small)
  | inr e ↦
      let stopped : (from, c ∷ s) ≡ (to, []) = rw e at h in absurd (cc (ap (λ p. p.1) stopped))
]

pub read_digits-decimal : {s : Bytes} {v : ℕ} → IsDecimal s v → read_digits 0 s ≡ (v, [])
read_digits-decimal (one_digit d small) =
    read_digits-append [] 0 0 d (unfold read_digits in refl) small ∙ ap (λ x. (x, [])) (omega arith)
read_digits-decimal (one_more s v d h small) =
    read_digits-append s 0 v d (read_digits-decimal h) small

-- A string that starts with a digit.
abbrev pub StartsWithDigit : Bytes → Type 0
StartsWithDigit s = (c : ℕ) × (t : Bytes) × (s ≡ c ∷ t) × (is_digit c ≡ true)

pub decimal-StartsWithDigit : {s : Bytes} {v : ℕ} → IsDecimal s v → StartsWithDigit s
decimal-StartsWithDigit (one_digit d small) = (48 + d, [], refl, digit-is_digit d small)
decimal-StartsWithDigit (one_more s v d h small) =
    let (c, t, e, first) = decimal-StartsWithDigit h in
    (c, t ++ digit d, ap (λ x. x ++ digit d) e, first)

pub strtoul-digits :
    (c : ℕ) (t : Bytes) (v : ℕ)
    → is_digit c ≡ true
    → read_digits 0 (c ∷ t) ≡ (v, [])
    → strtoul (c ∷ t) ≡ (signed_value false v, [])
unfolding strtoul skip_space read_signed read_number
strtoul-digits c t v first h =
    let no_space : is_space c ≡ false = ground arith in
    let no_minus : (c == b'-') ≡ false = ground arith in
    let no_plus : (c == b'+') ≡ false = ground arith in
    rw (no_space, no_minus, no_plus, first, h) refl

-- A decimal number is accepted exactly if it is below 2^32, with its value.
pub parse_ttl-decimal :
    (s : Bytes) (v : ℕ) → IsDecimal s v → parse_ttl s ≡ (if ltb v u32_mod then some v else none)
unfolding parse_ttl is_end
parse_ttl-decimal s v h =
    let (c, t, e, first) = decimal-StartsWithDigit h in
    let digits : read_digits 0 (c ∷ t) ≡ (v, []) = rw (← e) (read_digits-decimal h) in
    rw (e, strtoul-digits c t v first digits) (unfold signed_value in ground arith)
