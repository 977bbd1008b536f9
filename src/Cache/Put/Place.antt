-- ===== src/Cache/Put/Place.antt =====
-- A search that counts its collisions, and the write to the place that it found.
use mathlib.Core.Path.{subst}
use mem_sync.Base.{ℕ, ◌≡◌, refl, ◌∙◌, ◌⊎◌, inl, inr, Option, none, some}
use mem_sync.Layout.{Region, at}
use mem_sync.Table.{find_slot_internal}
use mem_sync.Table.View.{find_entry}
use mem_sync.Table.Invariant.{IsValid}
use mem_sync.Table.Search.{IsPlace, HasNoPlace, Located, find_slot_internal-Located}
use mem_sync.Cache.{Item, stored, store, add_collisions, find_counted}
use mem_sync.Cache.Store.{IsItem, key-stored, value-stored, store-IsValid, find_entry-store}
use mem_sync.Text.Laws.{strcmp_eq_self}
use mem_sync.Cache.Put.{Stores}

-- The counters are no part of the invariant.
pub add_collisions-IsValid : (r : Region) (n : ℕ) → IsValid r → IsValid (add_collisions r n)
unfolding add_collisions
add_collisions-IsValid r n v = record { table = v.table; counted = v.counted }

module _ (item : Item) (ok : IsItem item) where
  pub store-Stores :
      (r : Region) (x now : ℕ)
      → IsValid r
      → IsPlace r item.key x
      → Stores (λ q. find_entry q r.slots) item now (store r x item now)
  store-Stores r x now v place = record {
    valid = store-IsValid r x item now v ok place;
    entry = (
      stored (at r x) item now,
      find_entry-store r x item now v ok place item.key ∙ (rw (strcmp_eq_self item.key)),
      record {
        key = key-stored (at r x) item now (v.table.entries x) ok;
        value = value-stored (at r x) item now (v.table.entries x) ok;
        written = unfold stored in refl;
        ttl = unfold stored in refl;
      },
    );
    others = λ q p. find_entry-store r x item now v ok place q ∙ (rw p);
  }

  -- A search that counts its collisions, with what it found.
  pub find_counted-cases :
      (r : Region)
      → IsValid r
      → ((x : ℕ) × (find_counted r item.key ≡ (some x, (find_counted r item.key).1))
          × IsPlace r item.key x)
        ⊎ ((find_counted r item.key ≡ (none, (find_counted r item.key).1)) × HasNoPlace r item.key)
  unfolding find_counted
  find_counted-cases r v =
      found (find_slot_internal r item.key).0 refl (find_slot_internal-Located r item.key v.table)
    where
      found :
          (o : Option ℕ)
          → (find_slot_internal r item.key).0 ≡ o
          → Located r item.key (find_slot_internal r item.key).0
          → ((x : ℕ) × (find_counted r item.key ≡ (some x, (find_counted r item.key).1))
              × IsPlace r item.key x)
            ⊎ ((find_counted r item.key ≡ (none, (find_counted r item.key).1))
                × HasNoPlace r item.key)
      found none e l =
          inr ((λ i. (e i, (find_counted r item.key).1)), subst (Located r item.key) e l)
      found (some x) e l =
          inl (x, (λ i. (e i, (find_counted r item.key).1)), subst (Located r item.key) e l)

  pub counted-IsValid : (r : Region) → IsValid r → IsValid (find_counted r item.key).1
  unfolding find_counted
  counted-IsValid r v = add_collisions-IsValid r (find_slot_internal r item.key).1 v

  pub counted-Stores :
      (r : Region) (x now : ℕ)
      → IsValid r
      → IsPlace r item.key x
      → Stores (λ q. find_entry q r.slots) item now (store (find_counted r item.key).1 x item now)
  unfolding find_counted
  counted-Stores r x now v place =
      store-Stores (find_counted r item.key).1 x now
        (add_collisions-IsValid r (find_slot_internal r item.key).1 v) place

  pub counted-HasNoPlace :
      (r : Region) → HasNoPlace r item.key → HasNoPlace (find_counted r item.key).1 item.key
  unfolding find_counted
  counted-HasNoPlace r h = h
