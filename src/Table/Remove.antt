-- ===== src/Table/Remove.antt =====
-- `remove_entry`: the key leaves, every other key stays, and the table stays well formed.
use mem_sync.Base.{
  ℕ, ◌<◌, ◌≡◌, refl, ◌∙◌, true, false, none, arith, length-set, get_or-set_ne, if◌then◌else◌,
}
use mem_sync.Layout.{CacheEntry, Region, is_occupied, matches, at}
use mem_sync.Table.{removed, remove_entry}
use mem_sync.Table.View.{find_entry, find_entry-set}
use mem_sync.Table.Invariant.{IsEntry, IsValid, Fits, set-IsTable, count_occupied-set}
use mem_sync.Text.{Bytes}

pub matches-removed : (e : CacheEntry) (q : Bytes) → matches (removed e) q ≡ false
unfolding matches removed
matches-removed e q = refl

removed-IsEntry : (e : CacheEntry) → IsEntry e → IsEntry (removed e)
unfolding removed
removed-IsEntry e h = record {
  key_size = length-set e.key 0 0 ∙ h.key_size;
  value_size = length-set e.value 0 0 ∙ h.value_size;
  key_end = get_or-set_ne e.key 0 63 0 0 (omega arith) ∙ h.key_end;
  value_end = get_or-set_ne e.value 0 255 0 0 (omega arith) ∙ h.value_end;
  named = λ p. cc;
}

module _ (r : Region) (x : ℕ) (v : IsValid r) (inside : x < r.header.capacity) where
  removed-Fits : Fits r.header.capacity r.slots x (removed (at r x))
  unfolding removed
  removed-Fits = record {
    inside = inside;
    not_empty = λ p. cc;
    fresh = λ q j n m. absurd (ground (arith, matches-removed (at r x) q));
    entry = removed-IsEntry (at r x) (v.table.entries x);
    reachable = λ q d m hd e found. absurd (ground (arith, matches-removed (at r x) q));
  }

  -- Removing an occupied slot keeps the region well formed.
  pub remove_entry-IsValid : is_occupied (at r x) ≡ true → IsValid (remove_entry r x)
  unfolding remove_entry removed is_occupied
  remove_entry-IsValid occ = record {
    table = set-IsTable v.table removed-Fits;
    counted =
        ground
          (arith, v.counted, v.table.sized, count_occupied-set r.slots x (removed (at r x)), occ);
  }

  -- Only the key that the slot stores is forgotten.
  pub find_entry-remove_entry :
      (q : Bytes)
      → find_entry q (remove_entry r x).slots
        ≡ (if matches (at r x) q then none else find_entry q r.slots)
  unfolding remove_entry
  find_entry-remove_entry q = ground (
    arith,
    matches-removed (at r x) q,
    find_entry-set r.slots x (removed (at r x)) (omega (arith, v.table.sized, inside))
        v.table.unique removed-Fits.fresh q,
  )
