-- ===== src/Tests/Operations.antt =====
-- The theorems of the public operations at the table of two slots.
use mem_sync.Base.{
  ℕ, ◌≡◌, refl, inr, Bool, true, false, Option, none, some, List, arith, replicate,
  length-replicate,
}
use mem_sync.Layout.{Region, max_val_len}
use mem_sync.Table.View.{find_entry}
use mem_sync.Table.Search.{Located}
use mem_sync.Cache.{valid_key_argument, cache_put_ttl, cache_get, find_slot, read_locked}
use mem_sync.Modify.{cache_update, cache_delete}
use mem_sync.Cache.Put.{Kept}
use mem_sync.Cache.Get.Finish.{Returns, Finishes}
use mem_sync.Modify.Revise.{Updates}
use mem_sync.Modify.Delete.{Deleted}
use mem_sync.Contract.Access.{
  cache_put_ttl-Kept, cache_get-Returns, cache_get-Finishes, cache_update-Updates,
  cache_delete-Deleted, find_slot-Located, key_accepted,
}
use mem_sync.Contract.Rejects.{IsKeyed, IsValued, IsBuffered, refused_changes_nothing}
use mem_sync.Contract.Sequences.{cache_get_after_put, cache_get_after_delete}
use mem_sync.Text.{read_cstr}
use mem_sync.Tests.{
  item_a, item_d, item_a-IsItem, item_d-IsItem, put_at, get_at, update_time, two_entries,
  two_entries-IsValid,
}

abbrev out : List ℕ
out = replicate max_val_len 7

key_a : valid_key_argument (some item_a.key) ≡ true
key_a = key_accepted item_a item_a-IsItem

-- A third key in the full table, at a time when nothing is expired.
cache_put_ttl-Kept_example :
    (r' : Region) × (cache_put_ttl
        (some two_entries)
        (some item_d.key)
        (some item_d.value)
        item_d.ttl
        (put_at 104)
      ≡ (some r', true))
    × Kept two_entries item_d (put_at 104) r'
cache_put_ttl-Kept_example =
    cache_put_ttl-Kept two_entries item_d (put_at 104) two_entries-IsValid item_d-IsItem refl

cache_get_after_put_example :
    (buf : List ℕ) × ((cache_get
        (cache_put_ttl
          (some two_entries)
          (some item_a.key)
          (some item_a.value)
          item_a.ttl
          (put_at 110)).0
        (some item_a.key)
        (some out)
        (get_at 114)).1
      ≡ some (buf, 110))
    × (read_cstr buf ≡ item_a.value)
cache_get_after_put_example =
    cache_get_after_put two_entries item_a (put_at 110) out (get_at 114) two_entries-IsValid
      item_a-IsItem refl refl (length-replicate max_val_len 7) (inr (omega arith))

cache_get-Returns_example :
    Returns 105
      (find_entry item_a.key two_entries.slots)
      (cache_get (some two_entries) (some item_a.key) (some out) (get_at 105)).1
cache_get-Returns_example =
    cache_get-Returns two_entries item_a.key two_entries-IsValid key_a out (get_at 105) refl
      (length-replicate max_val_len 7)

cache_get-Finishes_example :
    (r' : Region) × ((cache_get (some two_entries) (some item_a.key) (some out) (get_at 105)).0
      ≡ some r')
    × Finishes two_entries item_a.key (read_locked two_entries item_a.key 105) (get_at 105) r'
cache_get-Finishes_example =
    cache_get-Finishes two_entries item_a.key two_entries-IsValid key_a out (get_at 105) refl
      two_entries-IsValid

cache_update-Updates_example :
    (r' : Region) × (done : Bool) × (cache_update
        (some two_entries)
        (some item_a.key)
        (some item_d.value)
        (update_time 104)
      ≡ (some r', done))
    × Updates two_entries item_a.key item_d.value (update_time 104) (r', done)
cache_update-Updates_example =
    cache_update-Updates two_entries item_a.key two_entries-IsValid key_a item_d.value
      (update_time 104) (omega arith) (omega arith) refl

cache_delete-Deleted_example :
    (r' : Region) × (done : Bool) × (cache_delete (some two_entries) (some item_a.key) true
      ≡ (some r', done))
    × Deleted two_entries item_a.key (r', done)
cache_delete-Deleted_example = cache_delete-Deleted two_entries item_a.key two_entries-IsValid key_a

find_slot-Located_example :
    Located two_entries item_a.key (find_slot (some two_entries) (some item_a.key) true)
find_slot-Located_example = find_slot-Located two_entries item_a.key two_entries-IsValid key_a

cache_get_after_delete_example :
    (cache_get
      (cache_delete (some two_entries) (some item_a.key) true).0
      (some item_a.key)
      (some out)
      (get_at 104)).1
    ≡ none
cache_get_after_delete_example =
    cache_get_after_delete two_entries item_a.key out (get_at 104) two_entries-IsValid key_a refl
      (length-replicate max_val_len 7)

abbrev no_value : Option (List ℕ)
no_value = none

not-IsValued : ¬ IsValued no_value
not-IsValued h = absurd (cc h.given)

not-IsBuffered : ¬ IsBuffered no_value
not-IsBuffered h = absurd (cc h.given)

not-IsKeyed : ¬ IsKeyed (some two_entries) (some item_a.key) false
not-IsKeyed h = absurd (cc h.granted)

-- No value, no buffer and a refused lock, in turn.
refused_changes_nothing_example :
    (cache_put_ttl (some two_entries) (some item_a.key) no_value 0 (put_at 104)
      ≡ (some two_entries, false))
    × (cache_update (some two_entries) (some item_a.key) no_value (update_time 104)
        ≡ (some two_entries, false))
    × (cache_get (some two_entries) (some item_a.key) no_value (get_at 104)
        ≡ (some two_entries, none))
    × (cache_delete (some two_entries) (some item_a.key) false ≡ (some two_entries, false))
    × (find_slot (some two_entries) (some item_a.key) false ≡ none)
refused_changes_nothing_example =
    refused_changes_nothing (some two_entries) (some item_a.key) no_value no_value 0 (put_at 104)
      (get_at 104) (update_time 104) false (λ h. not-IsValued h.1) (λ h. not-IsValued h.1)
      (λ h. not-IsBuffered h.1) not-IsKeyed
