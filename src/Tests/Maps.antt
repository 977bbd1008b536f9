-- ===== src/Tests/Maps.antt =====
-- The table against a map, on two slots.
use mem_sync.Base.{ℕ, ◌≡◌, refl, Bool, true, some, List, [], ◌∷◌, arith, replicate}
use mem_sync.Cache.{valid_key_argument, cache_put_ttl}
use mem_sync.Contract.Room.{Keeps, cache_put_ttl-Keeps}
use mem_sync.Contract.Scripts.{
  Call, put, get, delete, AreCalls, make_calls, reference_calls, make_calls-eq-reference,
}
use mem_sync.Layout.{Region, max_val_len}
use mem_sync.Sharing.{Step, Reach, here, next}
use mem_sync.Sharing.Refine.{actions_of, Reach-MapReach}
use mem_sync.Sharing.View.{view}
use mem_sync.Spec.{MapReach}
use mem_sync.Table.Invariant.{IsValid}
use mem_sync.Tests.{
  empty_region, empty_region-IsValid, item_a, item_a-IsItem, item_c, item_c-IsItem, put_at, get_at,
  one_entry, two_entries,
}

-- Two puts, one after the other.
abbrev two_puts : Reach empty_region two_entries
two_puts =
    next (next here (Step.put empty_region item_a (put_at 100) item_a-IsItem))
      (Step.put one_entry item_c (put_at 101) item_c-IsItem)

Reach-MapReach_example :
    IsValid two_entries × MapReach (view empty_region) (actions_of two_puts) (view two_entries)
Reach-MapReach_example = Reach-MapReach empty_region-IsValid two_puts

key_a : valid_key_argument (some item_a.key) ≡ true
unfolding valid_key_argument
key_a = refl

abbrev out : List ℕ
out = replicate max_val_len 7

-- A put, a get in time, a delete, another put, and a get.
abbrev calls : List Call
calls =
    put item_a (put_at 100)
    ∷ get item_a.key (get_at 104)
    ∷ delete item_a.key
    ∷ put item_c (put_at 105)
    ∷ get item_a.key (get_at 106)
    ∷ []

calls-AreCalls : AreCalls calls
calls-AreCalls = (
  (item_a-IsItem, refl),
  (
    (key_a, refl, refl, (λ r. refl)),
    (key_a, ((item_c-IsItem, refl), ((key_a, refl, refl, (λ r. refl)), _))),
  ),
)

make_calls-eq-reference_example :
    IsValid (make_calls empty_region calls).0
    × (view (make_calls empty_region calls).0 ≡ (reference_calls (view empty_region) calls).0)
    × ((make_calls empty_region calls).1 ≡ (reference_calls (view empty_region) calls).1)
make_calls-eq-reference_example =
    make_calls-eq-reference empty_region calls empty_region-IsValid calls-AreCalls (omega arith)

cache_put_ttl-Keeps_example :
    (r' : Region) × (done : Bool) × (cache_put_ttl
        (some empty_region)
        (some item_a.key)
        (some item_a.value)
        item_a.ttl
        (put_at 100)
      ≡ (some r', done))
    × Keeps empty_region item_a 100 (r', done)
cache_put_ttl-Keeps_example =
    cache_put_ttl-Keeps empty_region item_a (put_at 100) empty_region-IsValid item_a-IsItem refl
      (omega arith)
