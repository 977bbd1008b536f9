-- ===== src/Tests/Tables.antt =====
-- The theorems of the table's internal functions at the table of two slots.
use mem_sync.Base.{ℕ, ◌%◌, ◌≡◌, refl, true, arith, u32_mod}
use mem_sync.Hash.{hash_key}
use mem_sync.Hash.Polynomial.{djb2, hash_key-eq-djb2}
use mem_sync.Layout.{at, is_occupied}
use mem_sync.Table.{find_slot_internal, remove_entry, evict_oldest_write, reclaim_expired}
use mem_sync.Table.View.{find_entry}
use mem_sync.Table.Collisions.{extra_of, find_slot_internal-extra}
use mem_sync.Table.Reclaim.{unexpired, find_entry-reclaim_expired}
use mem_sync.Table.Evict.{IsOldest, evict_oldest_write-IsOldest}
use mem_sync.Tests.Runs.{program}
use mem_sync.Tests.{item_a, item_c, two_entries, two_entries-IsValid}

hash_key-eq-djb2_example : hash_key item_a.key 2 ≡ djb2 5381 item_a.key % u32_mod % 2
hash_key-eq-djb2_example = hash_key-eq-djb2 item_a.key 2

find_slot_internal-extra_example :
    (find_slot_internal two_entries item_c.key).1 ≡ extra_of two_entries item_c.key
find_slot_internal-extra_example =
    find_slot_internal-extra two_entries item_c.key two_entries-IsValid

find_entry-reclaim_expired_example :
    find_entry item_a.key (reclaim_expired two_entries 105).slots
    ≡ unexpired 105 (find_entry item_a.key two_entries.slots)
find_entry-reclaim_expired_example =
    find_entry-reclaim_expired 105 two_entries two_entries-IsValid item_a.key

capacity_two : two_entries.header.capacity ≡ 2
unfolding program
capacity_two = refl

slot_in_use : is_occupied (at two_entries 1) ≡ true
unfolding program
slot_in_use = refl

evict_oldest_write-IsOldest_example :
    (x : ℕ) × IsOldest two_entries.slots two_entries.header.capacity x
    × (evict_oldest_write two_entries ≡ (remove_entry two_entries x, true))
evict_oldest_write-IsOldest_example =
    evict_oldest_write-IsOldest two_entries 1 (omega (arith, capacity_two)) slot_in_use
