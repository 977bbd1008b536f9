-- ===== src/Table/View.antt =====
-- What a slot array holds, with no regard to where: the entry stored under a key.
use mem_sync.Base.{
  ℕ, zero, suc, ◌<◌, ◌≡◌, ◌≢◌, refl, sym, ap, ◌∙◌, inl, inr, true, false, Option, none, some, List,
  [], ◌∷◌, arith, length, get_or, set, get_or-set_self, get_or-set_ne, get_or_past, if◌then◌else◌,
  Bool-cases, Option-cases, ℕ_discrete, dec_lt,
}
use mem_sync.Layout.{occupied, CacheEntry, blank, is_occupied, matches}
use mem_sync.Text.{Bytes, read_cstr}
use mem_sync.Text.Laws.{eq_of_strcmp_eq}

abbrev pub slot : List CacheEntry → ℕ → CacheEntry
slot s i = get_or s i blank

-- The entry stored under a key.
unfoldable pub find_entry : Bytes → List CacheEntry → Option CacheEntry
find_entry q [] = none
find_entry q (e ∷ s) = if matches e q then some e else find_entry q s

-- No key is stored in two slots.
abbrev pub IsUnique : List CacheEntry → Type 0
IsUnique s =
    (q : Bytes) (i j : ℕ) → matches (slot s i) q ≡ true → matches (slot s j) q ≡ true → i ≡ j

pub matches-blank : (q : Bytes) → matches blank q ≡ false
unfolding matches
matches-blank q = refl

pub occupied_of_matches : (e : CacheEntry) (q : Bytes) → matches e q ≡ true → e.state ≡ occupied
unfolding matches
occupied_of_matches e q h = ground arith

pub is_occupied_of_matches :
    (e : CacheEntry) (q : Bytes) → matches e q ≡ true → is_occupied e ≡ true
unfolding matches
is_occupied_of_matches e q h = ground arith

pub key_of_matches : (e : CacheEntry) (q : Bytes) → matches e q ≡ true → read_cstr e.key ≡ q
unfolding matches
key_of_matches e q h = eq_of_strcmp_eq (read_cstr e.key) q (ground arith)

pub lt_of_matches :
    (s : List CacheEntry) (q : Bytes) (i : ℕ) → matches (slot s i) q ≡ true → i < length s
lt_of_matches s q i h = elim (dec_lt i (length s)) [
  | yes p ↦ p
  | no p ↦ absurd (ground (arith, matches-blank q, get_or_past s i blank (omega arith), h))
]

pub find_entry-none :
    (q : Bytes) (s : List CacheEntry)
    → find_entry q s ≡ none
    → (i : ℕ) → matches (slot s i) q ≡ false
unfolding find_entry get_or
find_entry-none q [] h i = matches-blank q
find_entry-none q (e ∷ s) h zero = ground arith
find_entry-none q (e ∷ s) h (suc i) = find_entry-none q s (ground arith) i

pub find_entry_of_absent :
    (q : Bytes) (s : List CacheEntry)
    → ((i : ℕ) → matches (slot s i) q ≡ false)
    → find_entry q s ≡ none
unfolding find_entry get_or
find_entry_of_absent q [] h = refl
find_entry_of_absent q (e ∷ s) h = rw (h 0) (find_entry_of_absent q s (λ i. h (suc i)))

pub find_entry-some :
    (q : Bytes) (s : List CacheEntry) (e : CacheEntry)
    → find_entry q s ≡ some e
    → (i : ℕ) × (slot s i ≡ e) × (matches (slot s i) q ≡ true)
unfolding find_entry get_or
find_entry-some q [] e h = cc
find_entry-some q (x ∷ s) e h = elim (Bool-cases (matches x q)) [
  | inl here ↦ (0, ground arith, here)
  | inr there ↦ let (i, same, found) = find_entry-some q s e (ground arith) in (suc i, same, found)
]

pub find_entry_of_matches :
    (q : Bytes) (s : List CacheEntry) (i : ℕ)
    → IsUnique s
    → matches (slot s i) q ≡ true
    → find_entry q s ≡ some (slot s i)
find_entry_of_matches q s i unique h = elim (Option-cases (find_entry q s)) [
  | inl absent ↦ absurd (ground (arith, find_entry-none q s absent i))
  | inr (e, found) ↦
      let (j, same, m) = find_entry-some q s e found in
      found ∙ ap some (sym same ∙ ap (slot s) (unique q j i m h))
]

-- No other slot than `x` stores the key of `e`.
abbrev pub IsFresh : List CacheEntry → ℕ → CacheEntry → Type 0
IsFresh s x e = (q : Bytes) (j : ℕ) → j ≢ x → matches e q ≡ true → matches (slot s j) q ≡ false

module _ (s : List CacheEntry) (x : ℕ) (e : CacheEntry) (inside : x < length s)
    (unique : IsUnique s) (fresh : IsFresh s x e) where
  at_self : slot (set s x e) x ≡ e
  at_self = get_or-set_self s x e blank inside

  at_other : (j : ℕ) → j ≢ x → slot (set s x e) j ≡ slot s j
  at_other j n = get_or-set_ne s x j e blank (λ p. n (sym p))

  pub set-IsUnique : IsUnique (set s x e)
  set-IsUnique q i j p r = elim (ℕ_discrete i x) [
    | yes a ↦ elim (ℕ_discrete j x) [
      | yes b ↦ a ∙ sym b
      | no b ↦ absurd (ground (arith, at_self, at_other j b, fresh q j b))
    ]
    | no a ↦ elim (ℕ_discrete j x) [
      | yes b ↦ absurd (ground (arith, at_self, at_other i a, fresh q i a))
      | no b ↦ unique q i j (rw (at_other i a) at p) (rw (at_other j b) at r)
    ]
  ]

  -- A write to one slot: the new entry under its key, nothing under the key that stood there.
  pub find_entry-set :
      (q : Bytes)
      → find_entry q (set s x e)
        ≡ (if matches e q then some e else if matches (slot s x) q then none else find_entry q s)
  find_entry-set q = elim (Bool-cases (matches e q)) [
    | inl new ↦
        rw new
          (find_entry_of_matches q (set s x e) x set-IsUnique (rw at_self new) ∙ ap some at_self)
    | inr old ↦ elim (Bool-cases (matches (slot s x) q)) [
      | inl gone ↦
          rw (old, gone)
            (find_entry_of_absent q (set s x e) (λ i. elim (ℕ_discrete i x) [
              | yes a ↦ rw (a, at_self) old
              | no a ↦ rw (at_other i a) (elim (Bool-cases (matches (slot s i) q)) [
                | inl p ↦ absurd (a (unique q i x p gone))
                | inr p ↦ p
              ])
            ]))
      | inr kept ↦
          rw (old, kept)
            (elim (Option-cases (find_entry q s)) [
              | inl absent ↦ rw absent (
                  find_entry_of_absent q (set s x e) (λ i. elim (ℕ_discrete i x) [
                    | yes a ↦ rw (a, at_self) old
                    | no a ↦ rw (at_other i a) (find_entry-none q s absent i)
                  ]))
              | inr (f, found) ↦
                  let (i, same, m) = find_entry-some q s f found in
                  let a : i ≢ x = λ p. absurd (ground (arith, rw p at m, kept)) in
                  find_entry_of_matches q (set s x e) i set-IsUnique (rw (at_other i a) m)
                  ∙ ap some (at_other i a ∙ same)
                  ∙ sym found
            ])
    ]
  ]
