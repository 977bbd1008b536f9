-- ===== src/Table/Invariant.antt =====
-- When a region is well formed, and what a write to one slot must respect to keep it so.
use native.Mathlib.Nat.{mod-eq_of_lt, mod-eq-sub-mod}
use mem_sync.Base.{
  ℕ, zero, suc, ◌+◌, ◌-◌, ◌%◌, ◌^◌, ◌<◌, ◌≤◌, ◌≡◌, ◌≢◌, sym, ap, ◌∙◌, ◌⊎◌, inl, inr, Bool, true,
  false, List, [], ◌∷◌, arith, length, get_or, set, length-set, get_or-set_self, get_or-set_ne,
  ℕ_discrete, dec_lt,
}
use mem_sync.Hash.{hash_key}
use mem_sync.Hash.Polynomial.{hash_key-lt}
use mem_sync.Layout.{
  empty, occupied, CacheEntry, Region, blank, is_occupied, matches, max_key_len, max_val_len,
}
use mem_sync.Table.{probe}
use mem_sync.Table.View.{slot, IsUnique, IsFresh, set-IsUnique}
use mem_sync.Text.{Bytes, read_cstr}

-- How the probe sequence of a key goes round the table.
module _ (capacity : ℕ) (positive : 0 < capacity) (small : capacity < 2 ^ 31) (key : Bytes) where
  probe-eq : (i : ℕ) → i < capacity → probe capacity key i ≡ (hash_key key capacity + i) % capacity
  probe-eq i h = ap (λ (n : ℕ). n % capacity) (omega (arith, hash_key-lt key capacity positive))

  pub probe-lt : (i : ℕ) → probe capacity key i < capacity
  probe-lt i = omega arith

  -- The offset at which a slot stands on the sequence.
  pub probe_onto : (x : ℕ) → x < capacity → (d : ℕ) × (d < capacity) × (probe capacity key d ≡ x)
  probe_onto x h =
      let start = hash_key key capacity in
      let start_lt = hash_key-lt key capacity positive in
      elim (dec_lt x start) [
        | no p ↦ (
          x - start,
          omega arith,
          probe-eq (x - start) (omega arith)
              ∙ ap (λ (n : ℕ). n % capacity) (omega arith)
              ∙ mod-eq_of_lt h,
        )
        | yes p ↦ (
          x + capacity - start,
          omega arith,
          probe-eq (x + capacity - start) (omega arith)
              ∙ ap (λ (n : ℕ). n % capacity) (omega arith)
              ∙ mod-eq-sub-mod {n = x + capacity} {m = capacity} (omega arith)
              ∙ ap (λ (n : ℕ). n % capacity) (omega arith)
              ∙ mod-eq_of_lt h,
        )
      ]

  -- The sequence meets no slot twice.
  pub probe_injective :
      (i j : ℕ) → i < capacity → j < capacity → probe capacity key i ≡ probe capacity key j → i ≡ j
  probe_injective i j hi hj e =
      let start = hash_key key capacity in
      let start_lt = hash_key-lt key capacity positive in
      let e' : (start + i) % capacity ≡ (start + j) % capacity =
        sym (probe-eq i hi) ∙ e ∙ probe-eq j hj in
      let reduce = λ (n : ℕ) (p : n < capacity + capacity). reduced n p in
      omega (arith, reduce (start + i) (omega arith), reduce (start + j) (omega arith))
    where
      reduced :
          (n : ℕ)
          → n < capacity + capacity
          → ((n < capacity) × (n % capacity ≡ n)) ⊎ ((capacity ≤ n) × (n % capacity ≡ n - capacity))
      reduced n p = elim (dec_lt n capacity) [
        | yes a ↦ inl (a, mod-eq_of_lt a)
        | no a ↦ inr (
          omega arith,
          mod-eq-sub-mod {n = n} {m = capacity} (omega arith) ∙ mod-eq_of_lt (omega arith),
        )
      ]

abbrev pub to_nat : Bool → ℕ
to_nat true = 1
to_nat false = 0

unfoldable pub count_occupied : List CacheEntry → ℕ
count_occupied [] = 0
count_occupied (e ∷ s) = to_nat (is_occupied e) + count_occupied s

pub count_occupied-set :
    (s : List CacheEntry) (x : ℕ) (e : CacheEntry)
    → x < length s
    → count_occupied (set s x e) + to_nat (is_occupied (slot s x))
      ≡ count_occupied s + to_nat (is_occupied e)
unfolding count_occupied set get_or
count_occupied-set [] x e h = absurd (omega arith)
count_occupied-set (f ∷ s) zero e h = omega arith
count_occupied-set (f ∷ s) (suc x) e h = omega (arith, count_occupied-set s x e)

pub count_occupied-le-length : (s : List CacheEntry) → count_occupied s ≤ length s
unfolding count_occupied
count_occupied-le-length [] = omega arith
count_occupied-le-length (e ∷ s) = ground (arith, count_occupied-le-length s)

-- The buffers have their sizes and end in a NUL, and a stored key is not empty.
pub record IsEntry (e : CacheEntry) : Type 0 where
  pub key_size : length e.key ≡ max_key_len
  pub value_size : length e.value ≡ max_val_len
  pub key_end : get_or e.key 63 0 ≡ 0
  pub value_end : get_or e.value 255 0 ≡ 0
  pub named : e.state ≡ occupied → read_cstr e.key ≢ []

-- No slot on the way from the home of a stored key to its slot is empty.
abbrev pub IsChained : ℕ → List CacheEntry → Type 0
IsChained capacity s =
    (q : Bytes) (d m : ℕ)
    → d < capacity
    → matches (slot s (probe capacity q d)) q ≡ true
    → m < d
    → (slot s (probe capacity q m)).state ≢ empty

pub record IsTable (capacity : ℕ) (s : List CacheEntry) : Type 0 where
  pub sized : length s ≡ capacity
  pub positive : 0 < capacity
  pub small : capacity < 2 ^ 31
  pub unique : IsUnique s
  pub chained : IsChained capacity s
  pub entries : (i : ℕ) → IsEntry (slot s i)

pub record IsValid (r : Region) : Type 0 where
  pub table : IsTable r.header.capacity r.slots
  pub counted : count_occupied r.slots ≡ r.header.entry_count

-- What a slot `x` must be for the entry `e` to be put there.
pub record Fits (capacity : ℕ) (s : List CacheEntry) (x : ℕ) (e : CacheEntry) : Type 0 where
  pub inside : x < capacity
  pub not_empty : e.state ≢ empty
  pub fresh : IsFresh s x e
  pub entry : IsEntry e
  pub reachable :
      (q : Bytes) (d m : ℕ)
      → d < capacity
      → probe capacity q d ≡ x
      → matches e q ≡ true
      → m < d
      → (slot s (probe capacity q m)).state ≢ empty

module _ {capacity : ℕ} {s : List CacheEntry} {x : ℕ} {e : CacheEntry} (t : IsTable capacity s)
    (f : Fits capacity s x e) where
  pub slot-set_self : slot (set s x e) x ≡ e
  slot-set_self = get_or-set_self s x e blank (omega (arith, t.sized, f.inside))

  pub slot-set_ne : (j : ℕ) → j ≢ x → slot (set s x e) j ≡ slot s j
  slot-set_ne j n = get_or-set_ne s x j e blank (λ p. n (sym p))

  still_there : (j : ℕ) → (slot s j).state ≢ empty → (slot (set s x e) j).state ≢ empty
  still_there j h = elim (ℕ_discrete j x) [
    | yes a ↦ rw (a, slot-set_self) f.not_empty
    | no a ↦ rw (slot-set_ne j a) h
  ]

  set-IsChained : IsChained capacity (set s x e)
  set-IsChained q d m hd found hm =
      still_there (probe capacity q m) (elim (ℕ_discrete (probe capacity q d) x) [
        | yes a ↦ f.reachable q d m hd a (rw (a, slot-set_self) at found) hm
        | no a ↦ t.chained q d m hd (rw (slot-set_ne _ a) at found) hm
      ])

  -- A write that fits keeps the table well formed.
  pub set-IsTable : IsTable capacity (set s x e)
  set-IsTable = record {
    sized = length-set s x e ∙ t.sized;
    positive = t.positive;
    small = t.small;
    unique = set-IsUnique s x e (omega (arith, t.sized, f.inside)) t.unique f.fresh;
    chained = set-IsChained;
    entries = λ i. elim (ℕ_discrete i x) [
      | yes a ↦ rw (a, slot-set_self) f.entry
      | no a ↦ rw (slot-set_ne i a) (t.entries i)
    ];
  }
