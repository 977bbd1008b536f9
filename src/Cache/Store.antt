-- ===== src/Cache/Store.antt =====
-- The write that ends `cache_put_ttl`: the entry reads back as what was asked for, and no other key
-- is touched.
use mem_sync.Base.{
  ℕ, suc, ◌-◌, ◌<◌, ◌≤◌, ◌≡◌, ◌≢◌, sym, ap, ◌∙◌, inl, inr, true, false, some, List, arith, length,
  set, get_or, length-set, get_or-set_self, if◌then◌else◌, Bool-cases,
}
use mathlib.Core.Path.{subst}
use mem_sync.Layout.{empty, CacheEntry, Region, is_occupied, matches, at, max_key_len, max_val_len}
use mem_sync.Table.{probe}
use mem_sync.Table.View.{
  find_entry, find_entry-set, find_entry-none, key_of_matches, occupied_of_matches,
}
use mem_sync.Table.Invariant.{
  IsEntry, IsValid, Fits, set-IsTable, count_occupied-set, count_occupied-le-length,
  probe_injective, probe-lt,
}
use mem_sync.Table.Search.{IsPlace}
use mem_sync.Cache.{Item, stored, store, copy_string}
use mem_sync.Text.{Bytes, IsCString, read_cstr, strncpy, strcmp_eq}
use mem_sync.Text.Laws.{eq_of_strcmp_eq, strcmp_eq_self, length-strncpy, read_cstr-set-strncpy}

-- What the argument checks establish, of terminated strings.
pub record IsItem (item : Item) : Type 0 where
  pub named : 0 < length item.key
  pub key_short : length item.key < max_key_len
  pub value_short : length item.value < max_val_len
  pub key_string : IsCString item.key
  pub value_string : IsCString item.value

-- `copy_string` into a buffer of the given size, for a string that fits.
module _ (buf : List ℕ) (s : Bytes) (n : ℕ) (sized : length buf ≡ suc n) where
  pub length-copy_string : length (copy_string buf s (suc n)) ≡ suc n
  unfolding copy_string
  length-copy_string =
      length-set (strncpy buf s (suc n - 1)) (suc n - 1) 0
      ∙ length-strncpy buf s (suc n - 1)
      ∙ sized

  pub copy_string_end : get_or (copy_string buf s (suc n)) n 0 ≡ 0
  unfolding copy_string
  copy_string_end =
      let e : suc n - 1 ≡ n = omega arith in
      rw e (get_or-set_self (strncpy buf s n) n 0 0 (omega (arith, length-strncpy buf s n)))

  pub read_cstr-copy_string : length s ≤ n → IsCString s → read_cstr (copy_string buf s (suc n)) ≡ s
  unfolding copy_string
  read_cstr-copy_string fits ok =
      let e : suc n - 1 ≡ n = omega arith in
      rw e (read_cstr-set-strncpy buf s n fits (omega arith) ok)

module _ (old : CacheEntry) (item : Item) (now : ℕ) (e : IsEntry old) (ok : IsItem item) where
  pub key-stored : read_cstr (stored old item now).key ≡ item.key
  unfolding stored
  key-stored =
      read_cstr-copy_string old.key item.key 63 e.key_size (omega (arith, ok.key_short))
        ok.key_string

  pub value-stored : read_cstr (stored old item now).value ≡ item.value
  unfolding stored
  value-stored =
      read_cstr-copy_string old.value item.value 255 e.value_size (omega (arith, ok.value_short))
        ok.value_string

  pub matches-stored : (q : Bytes) → matches (stored old item now) q ≡ strcmp_eq item.key q
  unfolding matches stored
  matches-stored q = ap (λ k. strcmp_eq k q) key-stored

  stored-IsEntry : IsEntry (stored old item now)
  unfolding stored
  stored-IsEntry = record {
    key_size = length-copy_string old.key item.key 63 e.key_size;
    value_size = length-copy_string old.value item.value 255 e.value_size;
    key_end = copy_string_end old.key item.key 63 e.key_size;
    value_end = copy_string_end old.value item.value 255 e.value_size;
    named = λ _ p. ground (arith, ok.named, key-stored, p);
  }

module _ (r : Region) (x : ℕ) (item : Item) (now : ℕ) (v : IsValid r) (ok : IsItem item)
    (place : IsPlace r item.key x) where
  inside : x < r.header.capacity
  inside =
      subst (λ k. k < r.header.capacity) place.2
        (probe-lt r.header.capacity v.table.positive v.table.small item.key place.0)

  item_key : (q : Bytes) → matches (stored (at r x) item now) q ≡ true → item.key ≡ q
  item_key q h =
      eq_of_strcmp_eq item.key q
        (sym (matches-stored (at r x) item now (v.table.entries x) ok q) ∙ h)

  not_elsewhere : (j : ℕ) → j ≢ x → matches (at r j) item.key ≡ false
  not_elsewhere j n = elim place.4 [
    | inl here ↦ elim (Bool-cases (matches (at r j) item.key)) [
      | inl there ↦ absurd (n (v.table.unique item.key j x there here))
      | inr absent ↦ absent
    ]
    | inr (free, absent) ↦ find_entry-none item.key r.slots absent j
  ]

  stored-Fits : Fits r.header.capacity r.slots x (stored (at r x) item now)
  stored-Fits = record {
    inside = inside;
    not_empty = λ p. absurd (unfold stored in cc p);
    fresh = λ q j n h. subst (λ k. matches (at r j) k ≡ false) (item_key q h) (not_elsewhere j n);
    entry = stored-IsEntry (at r x) item now (v.table.entries x) ok;
    reachable = λ q d m hd e found hm.
        let same = item_key q found in
        let d_eq =
          probe_injective r.header.capacity v.table.positive v.table.small item.key d place.0 hd
            place.1 (ap (λ k. probe r.header.capacity k d) same ∙ e ∙ sym place.2) in
        subst (λ k. (at r (probe r.header.capacity k m)).state ≢ empty) same
          (place.3 m (omega (arith, d_eq)));
  }

  -- The region stays well formed.
  pub store-IsValid : IsValid (store r x item now)
  unfolding store stored is_occupied
  store-IsValid = record {
    table = set-IsTable v.table stored-Fits;
    counted =
        let e = stored (at r x) item now in
        ground (
          arith,
          v.counted,
          v.table.sized,
          v.table.small,
          count_occupied-set r.slots x e (omega (arith, v.table.sized, inside)),
          count_occupied-le-length (set r.slots x e),
          length-set r.slots x e,
        );
  }

  other_key : (q : Bytes) → strcmp_eq item.key q ≡ false → matches (at r x) q ≡ false
  other_key q other = elim (Bool-cases (matches (at r x) q)) [
    | inr absent ↦ absent
    | inl here ↦ elim place.4 [
      | inl key ↦
          let same : item.key ≡ q =
            sym (key_of_matches (at r x) item.key key) ∙ key_of_matches (at r x) q here in
          cc (sym other, ap (strcmp_eq item.key) (sym same), strcmp_eq_self item.key)
      | inr (free, _) ↦ absurd (free (occupied_of_matches (at r x) q here))
    ]
  ]

  -- The key has the new entry, and every other key what it had.
  pub find_entry-store :
      (q : Bytes)
      → find_entry q (store r x item now).slots
        ≡ (if strcmp_eq item.key q then some (stored (at r x) item now) else find_entry q r.slots)
  unfolding store
  find_entry-store q = ground (
    arith,
    find_entry-set r.slots x (stored (at r x) item now) (omega (arith, v.table.sized, inside))
        v.table.unique stored-Fits.fresh q,
    matches-stored (at r x) item now (v.table.entries x) ok q,
    other_key q,
  )
