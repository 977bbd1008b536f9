-- ===== src/Cache/Put.antt =====
-- `cache_put_ttl`: it stores the item, and keeps the other keys as far as there is room.
pub mod Place
pub mod Evict
pub mod Sweep
pub mod Total
use mathlib.Core.Path.{subst}
use mem_sync.Base.{
  ℕ, zero, suc, ◌+◌, ◌-◌, ◌%◌, ◌^◌, ◌<◌, ◌≤◌, ◌≡◌, ◌≢◌, refl, sym, ap, ◌∙◌, ◌⊎◌, inl, inr, Bool,
  true, false, ◌&&◌, Option, none, some, List, [], ◌∷◌, arith, length, get_or-set_self,
  if◌then◌else◌, Bool-cases, Option-cases, ℕ_discrete, dec_lt, ltb,
}
use mem_sync.Layout.{
  SlotState, empty, occupied, deleted, CacheEntry, Region, blank, is_occupied, matches, at,
  max_key_len, max_val_len,
}
use mem_sync.Table.{
  probe, find_slot_internal, removed, remove_entry, evict_oldest_write, reclaim_expired,
}
use mem_sync.Table.View.{
  slot, find_entry, find_entry_of_matches, find_entry-some, lt_of_matches, is_occupied_of_matches,
}
use mem_sync.Table.Invariant.{IsValid, probe_onto, probe-lt}
use mem_sync.Table.Search.{IsPlace, HasNoPlace, Located, find_slot_internal-Located}
use mem_sync.Table.Reclaim.{
  is_stale, swept, unexpired, reclaim_expired-IsValid, capacity-reclaim_expired, at-reclaim_expired,
  find_entry-reclaim_expired,
}
use mem_sync.Table.Evict.{IsOldest, evict_oldest_write-IsOldest}
use mem_sync.Table.Remove.{remove_entry-IsValid, find_entry-remove_entry}
use mem_sync.Cache.{
  Item, PutCalls, stored, store, add_collisions, find_counted, put_evicted, put_reclaimed,
  put_locked, cache_put_ttl, valid_key_argument, valid_value_argument,
}
use mem_sync.Cache.Store.{IsItem, key-stored, value-stored, store-IsValid, find_entry-store}
use mem_sync.Text.{Bytes, IsCString, read_cstr, strcmp_eq}
use mem_sync.Text.Laws.{strcmp_eq_self}

-- The stored entry is the item, written at a time.
pub record Holds (item : Item) (now : ℕ) (e : CacheEntry) : Type 0 where
  pub key : read_cstr e.key ≡ item.key
  pub value : read_cstr e.value ≡ item.value
  pub written : e.timestamp ≡ now
  pub ttl : e.ttl_seconds ≡ item.ttl

-- The item is stored under its key, and every other key has what `base` gives it.
pub record Stores (base : Bytes → Option CacheEntry) (item : Item) (now : ℕ) (r : Region)
    : Type 0 where
  pub valid : IsValid r
  pub entry : (e : CacheEntry) × (find_entry item.key r.slots ≡ some e) × Holds item now e
  pub others : (q : Bytes) → strcmp_eq item.key q ≡ false → find_entry q r.slots ≡ base q

-- What a put does to the other keys: nothing if there is a place for the key; else it drops the
-- expired entries, and if there is none of those, the oldest entry.
pub data Kept (r : Region) (item : Item) (calls : PutCalls) (r' : Region) : Type 0 where
  in_place :
      (x : ℕ)
      → IsPlace r item.key x
      → Stores (λ q. find_entry q r.slots) item calls.write_time r'
      → Kept r item calls r'
  reclaimed :
      HasNoPlace r item.key
      → (j : ℕ) × (j < r.header.capacity) × (is_stale (at r j) calls.reclaim_time ≡ true)
      → Stores (λ q. unexpired calls.reclaim_time (find_entry q r.slots)) item calls.write_time r'
      → Kept r item calls r'
  evicted :
      HasNoPlace r item.key
      → ((j : ℕ) → j < r.header.capacity → is_stale (at r j) calls.reclaim_time ≡ false)
      → (x : ℕ) → IsOldest r.slots r.header.capacity x
      → Stores
          (λ q. if matches (at r x) q then none else find_entry q r.slots)
          item
          calls.write_time
          r'
      → Kept r item calls r'

-- A put that finds a place, and one that evicts: the result with the region.
abbrev pub Places : Region → Item → PutCalls → Region × Bool → Type 0
Places r item calls result =
    (x : ℕ) × IsPlace r item.key x
    × (result.1 ≡ true)
    × Stores (λ q. find_entry q r.slots) item calls.write_time result.0

abbrev pub Evicts : Region → Item → PutCalls → Region × Bool → Type 0
Evicts r item calls result =
    (x : ℕ) × IsOldest r.slots r.header.capacity x
    × (result.1 ≡ true)
    × Stores (λ q. if matches (at r x) q then none else find_entry q r.slots) item calls.write_time
        result.0

pub Stores-congr :
    {base base' : Bytes → Option CacheEntry} {item : Item} {now : ℕ} {r : Region}
    → ((q : Bytes) → base q ≡ base' q)
    → Stores base item now r
    → Stores base' item now r
Stores-congr h s = record { valid = s.valid; entry = s.entry; others = λ q p. s.others q p ∙ h q }
