-- ===== src/Table/Keys.antt =====
-- Keys as the indices of an abstract map.
use mathlib.Core.Path.{subst}
use mem_sync.Base.{
  ◌≡◌, sym, ap, ◌∙◌, inl, inr, Bool, true, false, Option, none, some, if◌then◌else◌, Bool-cases,
}
use mem_sync.Layout.{CacheEntry, matches}
use mem_sync.Table.View.{key_of_matches}
use mem_sync.Text.{Bytes, strcmp_eq}
use mem_sync.Text.Laws.{eq_of_strcmp_eq, strcmp_eq_self}

-- An entry that stores a key matches that key alone.
pub matches-eq-strcmp_eq :
    (e : CacheEntry) (key q : Bytes) → matches e key ≡ true → matches e q ≡ strcmp_eq key q
matches-eq-strcmp_eq e key q h = elim (Bool-cases (strcmp_eq key q)) [
  | inl same ↦ rw same (subst (λ k. matches e k ≡ true) (eq_of_strcmp_eq key q same) h)
  | inr other ↦ rw other (elim (Bool-cases (matches e q)) [
    | inr m ↦ m
    | inl m ↦
        let same : key ≡ q = sym (key_of_matches e key h) ∙ key_of_matches e q m in
        cc (sym other, ap (strcmp_eq key) (sym same), strcmp_eq_self key)
  ])
]

-- A map without a key.
abbrev pub without : Bytes → (Bytes → Option CacheEntry) → Bytes → Option CacheEntry
without key f q = if strcmp_eq key q then none else f q

pub without_absent :
    (key q : Bytes) (f : Bytes → Option CacheEntry) → f key ≡ none → f q ≡ without key f q
without_absent key q f h = elim (Bool-cases (strcmp_eq key q)) [
  | inl same ↦ rw same (subst (λ k. f k ≡ none) (eq_of_strcmp_eq key q same) h)
  | inr other ↦ rw other
]

abbrev pub is_some : Option CacheEntry → Bool
is_some none = false
is_some (some e) = true
