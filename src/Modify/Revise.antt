-- ===== src/Modify/Revise.antt =====
-- What an update leaves, in terms of its arguments.
use mem_sync.Base.{
  ◌<◌, ◌≡◌, refl, sym, ap, ◌∙◌, ◌⊎◌, inl, inr, Bool, true, false, Option, none, some, length,
  Bool-cases, add64,
}
use mem_sync.Cache.Get.Finish.{found-IsEntry}
use mem_sync.Cache.Put.{Holds}
use mem_sync.Layout.{CacheEntry, Region, max_val_len}
use mem_sync.Modify.{UpdateCalls, refreshed}
use mem_sync.Modify.Update.{Updated, revised, refreshed_lem}
use mem_sync.Table.{cache_entry_expired}
use mem_sync.Table.Collisions.{extra_of}
use mem_sync.Table.Invariant.{IsEntry, IsValid}
use mem_sync.Table.Keys.{is_some}
use mem_sync.Table.View.{find_entry}
use mem_sync.Text.{Bytes, IsCString, read_cstr, strcmp_eq}
use mem_sync.Text.Laws.{strcmp_eq_self}

-- The entry under the key before and after: none stays none; an expired one goes; another one holds
-- the new value, the time of the write, and the key and the duration that it had.
abbrev pub Revises : Bytes → UpdateCalls → Option CacheEntry → Option CacheEntry → Type 0
Revises value calls none o = o ≡ none
Revises value calls (some e) o =
    ((cache_entry_expired e calls.check_time ≡ true) × (o ≡ none))
    ⊎ ((cache_entry_expired e calls.check_time ≡ false)
        × ((e' : CacheEntry) × (o ≡ some e')
            × Holds (record { key = read_cstr e.key; value = value; ttl = e.ttl_seconds })
                calls.write_time e'))

-- What an update of a key comes to: its entry is revised, the other keys have theirs, and it succeeds
-- exactly if the key is stored afterwards.
pub record Updates (r : Region) (key value : Bytes) (calls : UpdateCalls) (result : Region × Bool)
    : Type 0 where
  pub valid : IsValid result.0
  pub entry : Revises value calls (find_entry key r.slots) (find_entry key result.0.slots)
  pub others :
      (q : Bytes) → strcmp_eq key q ≡ false → find_entry q result.0.slots ≡ find_entry q r.slots
  pub done : result.1 ≡ is_some (find_entry key result.0.slots)
  pub collisions :
      result.0.header.total_collisions ≡ add64 r.header.total_collisions (extra_of r key)

revised-Revises :
    (value : Bytes) (calls : UpdateCalls) (o o' : Option CacheEntry)
    → length value < max_val_len
    → IsCString value
    → ((e : CacheEntry) → o ≡ some e → IsEntry e)
    → o' ≡ revised value calls o
    → Revises value calls o o'
revised-Revises value calls none o' short string ok h = h
revised-Revises value calls (some e) o' short string ok h =
    elim (Bool-cases (cache_entry_expired e calls.check_time)) [
      | inl old ↦ inl (old, h ∙ rw old refl)
      | inr new ↦
          let (v, k, w, t) = refreshed_lem e value calls.write_time (ok e refl) short string in
          inr (
            new,
            (
              refreshed e value calls.write_time,
              h ∙ rw new refl,
              record { key = k; value = v; written = w; ttl = t },
            ),
          )
    ]

pub Updated-Updates :
    (r : Region) (key value : Bytes) (calls : UpdateCalls) (result : Region × Bool)
    → IsValid r
    → length value < max_val_len
    → IsCString value
    → Updated r key value calls result
    → Updates r key value calls result
Updated-Updates r key value calls result v short string u =
    let after : find_entry key result.0.slots ≡ revised value calls (find_entry key r.slots) =
      u.entries key ∙ rw (strcmp_eq_self key) refl in
    record {
      valid = u.valid;
      entry =
          revised-Revises value calls (find_entry key r.slots) (find_entry key result.0.slots) short
            string (λ e h. found-IsEntry r key e v h) after;
      others = λ q other. u.entries q ∙ rw other refl;
      done = u.done ∙ ap is_some (sym after);
      collisions = u.collisions;
    }
