-- ===== src/Contract/Sequences.antt =====
-- One call after another.
use mathlib.Core.Path.{subst}
use mem_sync.Base.{
  ℕ, ◌+◌, ◌≤◌, ◌<◌, ◌≡◌, sym, ap, ◌∙◌, ◌⊎◌, inl, inr, true, false, none, some, List, arith, length,
}
use mem_sync.Layout.{CacheEntry, Region, max_val_len}
use mem_sync.Table.{cache_entry_expired}
use mem_sync.Table.View.{find_entry}
use mem_sync.Table.Invariant.{IsValid}
use mem_sync.Cache.{Item, PutCalls, GetCalls, valid_key_argument, cache_put_ttl, cache_get}
use mem_sync.Modify.{cache_delete}
use mem_sync.Cache.Store.{IsItem}
use mem_sync.Cache.Put.{Holds}
use mem_sync.Cache.Get.Finish.{Returns}
use mem_sync.Contract.Access.{
  key_accepted, cache_put_ttl-Kept, Kept-entry, cache_get-Returns, cache_delete-Deleted,
}
use mem_sync.Text.{Bytes, read_cstr}
use mem_sync.Text.Laws.{strcmp_eq_self}

-- An entry is expired exactly if it has a duration and at least that long has passed since it was
-- written; a clock that has gone back does not expire it.
pub cache_entry_expired_iff :
    (e : CacheEntry) (now : ℕ)
    → (cache_entry_expired e now ≡ true → (0 < e.ttl_seconds) × (e.timestamp + e.ttl_seconds ≤ now))
      × ((0 < e.ttl_seconds) × (e.timestamp + e.ttl_seconds ≤ now)
          → cache_entry_expired e now ≡ true)
unfolding cache_entry_expired
cache_entry_expired_iff e now = (λ h. ground arith, λ h. ground arith)

-- The item is readable at a time: it has no duration, or the duration has not passed.
abbrev pub IsReadable : Item → ℕ → ℕ → Type 0
IsReadable item written now = (item.ttl ≡ 0) ⊎ (now < written + item.ttl)

readable_not_expired :
    (e : CacheEntry) (item : Item) (written now : ℕ)
    → Holds item written e
    → IsReadable item written now
    → cache_entry_expired e now ≡ false
unfolding cache_entry_expired
readable_not_expired e item written now h ok = ground (arith, h.written, h.ttl)

-- With the lock of the put and the read lock of the get granted and a buffer of 256 bytes, a get that
-- follows a put of the same valid item into a well-formed region returns the value that was put and the time of the write,
-- up to the end of its duration, whatever the table held before the put and whatever other processes
-- do between the critical sections of the get.
pub cache_get_after_put :
    (r : Region) (item : Item) (put : PutCalls) (out : List ℕ) (get : GetCalls)
    → IsValid r
    → IsItem item
    → put.locked ≡ true
    → get.read_lock ≡ true
    → length out ≡ max_val_len
    → IsReadable item put.write_time get.read_time
    → (buf : List ℕ) × ((cache_get
          (cache_put_ttl (some r) (some item.key) (some item.value) item.ttl put).0
          (some item.key)
          (some out)
          get).1
        ≡ some (buf, put.write_time))
      × (read_cstr buf ≡ item.value)
cache_get_after_put r item put out get v ok got got' sized readable =
    let (r', run, kept) = cache_put_ttl-Kept r item put v ok got in
    let (w, (e, stored, holds)) = Kept-entry r item put r' kept in
    let returned = cache_get-Returns r' item.key w (key_accepted item ok) out get got' sized in
    rw run
      (elim (subst
        (λ o. Returns get.read_time o (cache_get (some r') (some item.key) (some out) get).1) stored
        returned) [
          | inl (old, _) ↦
              cc (sym old, readable_not_expired e item put.write_time get.read_time holds readable)
          | inr (_, (buf, result, value)) ↦
              (buf, result ∙ ap (λ (t : ℕ). some (buf, t)) holds.written, value ∙ holds.value)
        ])

-- With the lock of the delete and the read lock of the get granted and a buffer of 256 bytes, a get
-- that follows a delete of the same valid key in a well-formed region finds nothing.
pub cache_get_after_delete :
    (r : Region) (key : Bytes) (out : List ℕ) (get : GetCalls)
    → IsValid r
    → valid_key_argument (some key) ≡ true
    → get.read_lock ≡ true
    → length out ≡ max_val_len
    → (cache_get (cache_delete (some r) (some key) true).0 (some key) (some out) get).1 ≡ none
cache_get_after_delete r key out get v ok got sized =
    let (r', done, run, deleted) = cache_delete-Deleted r key v ok in
    let gone : find_entry key r'.slots ≡ none = deleted.entries key ∙ (rw (strcmp_eq_self key)) in
    rw run (
      subst (λ o. Returns get.read_time o (cache_get (some r') (some key) (some out) get).1) gone
        (cache_get-Returns r' key deleted.valid ok out get got sized))
