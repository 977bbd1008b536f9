-- ===== src/Contract/Reference.antt =====
-- One process alone on a table with room: the operations are those of a map.
use mathlib.Core.Path.{subst}
use mem_sync.Base.{
  ℕ, ◌+◌, ◌≤◌, ◌<◌, ◌≡◌, refl, ap, ◌∙◌, fun_ext, inl, inr, Bool, true, false, Option, none, some,
  arith, if◌then◌else◌, Bool-cases,
}
use mem_sync.Layout.{CacheEntry, Region}
use mem_sync.Table.View.{find_entry}
use mem_sync.Table.Keys.{is_some}
use mem_sync.Table.Invariant.{IsValid}
use mem_sync.Cache.{Item, PutCalls, GetCalls, cache_put_ttl}
use mem_sync.Cache.Put.{Holds, Stores}
use mem_sync.Cache.Store.{IsItem}
use mem_sync.Contract.Room.{cache_put_ttl-Keeps}
use mem_sync.Sharing.View.{cell, cell_of, view}
use mem_sync.Spec.{Cell, Map, undue}
use mem_sync.Text.{Bytes, strcmp_eq}
use mem_sync.Text.Laws.{eq_of_strcmp_eq}

-- A map with one key changed.
abbrev pub with_cell : Bytes → Option Cell → Map → Map
with_cell key o m q = if strcmp_eq key q then o else m q

abbrev pub item_cell : Item → ℕ → Cell
item_cell item now = record { value = item.value; written = now; ttl = item.ttl }

abbrev pub has_cell : Option Cell → Bool
has_cell none = false
has_cell (some c) = true

-- The region is well formed, has at most `n` entries in `capacity` slots, and holds the map.
pub record Represents (r : Region) (capacity n : ℕ) (m : Map) : Type 0 where
  pub valid : IsValid r
  pub slots : r.header.capacity ≡ capacity
  pub count : r.header.entry_count ≤ n
  pub cells : view r ≡ m

Holds-cell :
    (item : Item) (now : ℕ) (e : CacheEntry) → Holds item now e → cell e ≡ item_cell item now
Holds-cell item now e h i = record { value = h.value i; written = h.written i; ttl = h.ttl i }

pub put_cells :
    (r r' : Region) (item : Item) (now : ℕ) (m : Map)
    → view r ≡ m
    → Stores (λ q. find_entry q r.slots) item now r'
    → (q : Bytes) → view r' q ≡ with_cell item.key (some (item_cell item now)) m q
put_cells r r' item now m same s q = elim (Bool-cases (strcmp_eq item.key q)) [
  | inl here ↦
      let (e, found, holds) = s.entry in
      rw (here, ← eq_of_strcmp_eq item.key q here, found) (ap some (Holds-cell item now e holds))
  | inr other ↦ rw other (ap cell_of (s.others q other) ∙ ap (λ (f : Map). f q) same)
]

pub is_some-cell_of : (o : Option CacheEntry) → is_some o ≡ has_cell (cell_of o)
is_some-cell_of none = refl
is_some-cell_of (some e) = refl

-- A put with room: the item is stored, and nothing else changes.
pub put-Represents :
    (r : Region) (capacity n : ℕ) (m : Map) (item : Item) (calls : PutCalls)
    → Represents r capacity n m
    → n < capacity
    → IsItem item
    → calls.locked ≡ true
    → (r' : Region) × (cache_put_ttl (some r) (some item.key) (some item.value) item.ttl calls
        ≡ (some r', true))
      × Represents r' capacity
          (n + 1)
          (with_cell item.key (some (item_cell item calls.write_time)) m)
put-Represents r capacity n m item calls h room ok got =
    let (r', done, run, k) =
      cache_put_ttl-Keeps r item calls h.valid ok got (omega (arith, h.count, h.slots)) in
    let (e, found, holds) = k.stores.entry in
    (
      r',
      run ∙ ap (λ (b : Bool). (some r', b)) k.done,
      record {
        valid = k.stores.valid;
        slots = k.capacity ∙ h.slots;
        count = omega (arith, k.count, h.count);
        cells = fun_ext (λ q. put_cells r r' item calls.write_time m h.cells k.stores q);
      },
    )

-- What a get leaves of a cell: one that is due when it is read goes if it still is when it is removed.
abbrev pub after_read : Option Cell → Option Cell → Option Cell → Option Cell
after_read none left o = left
after_read (some c) left o = o

abbrev pub after_get : GetCalls → Option Cell → Option Cell
after_get calls o = after_read (undue calls.read_time o) (undue calls.remove_time o) o

-- To write back what stands under a key changes nothing.
pub with_cell_self :
    (key : Bytes) (o : Option Cell) (m : Map) (q : Bytes) → m key ≡ o → m q ≡ with_cell key o m q
with_cell_self key o m q h = elim (Bool-cases (strcmp_eq key q)) [
  | inl same ↦ rw same (subst (λ k. m k ≡ o) (eq_of_strcmp_eq key q same) h)
  | inr other ↦ rw other
]
