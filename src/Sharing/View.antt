-- ===== src/Sharing/View.antt =====
-- The map of Spec that a region holds, and what a get shows of it.
use mem_sync.Base.{
  ℕ, ◌<◌, ◌≡◌, refl, ap, inl, inr, true, Option, none, some, List, arith, length, Bool-cases,
  Option-cases,
}
use mem_sync.Layout.{CacheEntry, Region, at, is_occupied, matches, max_val_len}
use mem_sync.Table.{cache_entry_expired}
use mem_sync.Table.View.{find_entry, find_entry-some, find_entry_of_matches, lt_of_matches}
use mem_sync.Table.Reclaim.{unexpired}
use mem_sync.Table.Invariant.{IsValid}
use mem_sync.Cache.{GetCalls, cache_get, valid_key_argument}
use mem_sync.Cache.Get.Finish.{Returns}
use mem_sync.Contract.Access.{cache_get-Returns}
use mem_sync.Spec.{Cell, Map, is_due, undue}
use mem_sync.Text.{Bytes, read_cstr}
use mem_sync.Text.Laws.{strcmp_eq_self}

abbrev pub cell : CacheEntry → Cell
cell e = record { value = read_cstr e.value; written = e.timestamp; ttl = e.ttl_seconds }

abbrev pub cell_of : Option CacheEntry → Option Cell
cell_of none = none
cell_of (some e) = some (cell e)

-- The map that a region holds.
abbrev pub view : Region → Map
view r q = cell_of (find_entry q r.slots)

pub is_due-cell : (e : CacheEntry) (now : ℕ) → is_due (cell e) now ≡ cache_entry_expired e now
unfolding is_due cache_entry_expired
is_due-cell e now = ground arith

pub undue-cell_of :
    (now : ℕ) (o : Option CacheEntry) → cell_of (unexpired now o) ≡ undue now (cell_of o)
unfolding undue
undue-cell_of now none = refl
undue-cell_of now (some e) = elim (Bool-cases (cache_entry_expired e now)) [
  | inl old ↦ rw (is_due-cell e now, old) refl
  | inr new ↦ rw (is_due-cell e now, new) refl
]

-- A stored cell stands in a slot.
pub cell-slot :
    (r : Region) (v : IsValid r) (q : Bytes) (c : Cell)
    → view r q ≡ some c
    → (j : ℕ) × (j < r.header.capacity) × (cell (at r j) ≡ c) × (matches (at r j) q ≡ true)
cell-slot r v q c h = elim (Option-cases (find_entry q r.slots)) [
  | inl absent ↦ cc (ap cell_of absent, h)
  | inr (e, found) ↦
      let (j, same, m) = find_entry-some q r.slots e found in
      (j, omega (arith, lt_of_matches r.slots q j m, v.table.sized), cc (ap cell_of found, h), m)
]

-- An occupied slot stores the cell of its key.
pub slot-cell :
    (r : Region) (v : IsValid r) (j : ℕ)
    → is_occupied (at r j) ≡ true
    → (matches (at r j) (read_cstr (at r j).key) ≡ true)
      × (view r (read_cstr (at r j).key) ≡ some (cell (at r j)))
slot-cell r v j occ =
    let key = read_cstr (at r j).key in
    let m : matches (at r j) key ≡ true = unfold matches in ground (arith, strcmp_eq_self key) in
    (m, ap cell_of (find_entry_of_matches key r.slots j v.table.unique m))

-- What a get returns, with its buffer read as a string, and what a map has to show for a cell.
abbrev pub shown : Option (List ℕ × ℕ) → Option (Bytes × ℕ)
shown none = none
shown (some (buf, time)) = some (read_cstr buf, time)

abbrev pub readable : Option Cell → Option (Bytes × ℕ)
readable none = none
readable (some c) = some (c.value, c.written)

shown-readable :
    (now : ℕ) (o : Option CacheEntry) (result : Option (List ℕ × ℕ))
    → Returns now o result
    → shown result ≡ readable (undue now (cell_of o))
unfolding undue
shown-readable now none result h = rw h refl
shown-readable now (some e) result (inl (old, h)) = rw (h, is_due-cell e now, old) refl
shown-readable now (some e) result (inr (new, (buf, h, same))) =
    rw (h, is_due-cell e now, new) (ap (λ (s : Bytes). some (s, e.timestamp)) same)

-- A get shows the cell of its key in the map that its first critical section sees, unless the cell is
-- due by then: its value, as a terminated string, and the time of its write.
pub cache_get-view :
    (r : Region) (key : Bytes) (out : List ℕ) (calls : GetCalls)
    → IsValid r
    → valid_key_argument (some key) ≡ true
    → calls.read_lock ≡ true
    → length out ≡ max_val_len
    → shown (cache_get (some r) (some key) (some out) calls).1
      ≡ readable (undue calls.read_time (view r key))
cache_get-view r key out calls v ok got sized =
    shown-readable calls.read_time (find_entry key r.slots) _
      (cache_get-Returns r key v ok out calls got sized)
