-- ===== src/Benchmark/Shared.antt =====
-- The table answers every request of the benchmark as it should.
use mem_sync.Base.{ℕ, ◌+◌, ◌≤◌, ◌<◌, ◌≡◌, refl, ◌⊎◌, inl, true, none, some, arith, length}
use mem_sync.Benchmark.{bench_hit, bench_miss, bench_put, bench_update}
use mem_sync.Benchmark.Implementations.{PerformCalls, prepare_shared, shared_memory}
use mem_sync.Cache.{Item, PutCalls, cache_put}
use mem_sync.Cache.Store.{IsItem}
use mem_sync.Contract.Reference.{Represents, item_cell, put-Represents}
use mem_sync.Demo.Alone.{IsAlone}
use mem_sync.Demo.Reading.{IsLasting}
use mem_sync.Layout.{Region, max_val_len}
use mem_sync.Spec.{Cell, Map}
use mem_sync.Text.{Bytes, IsCString, strcmp_eq}

-- The locks are granted, and no other process comes between.
pub record AreGranted (calls : PerformCalls) : Type 0 where
  pub get : IsAlone calls.get
  pub put : calls.put.locked ≡ true
  pub update : calls.update.locked ≡ true

-- A payload that the cache accepts.
pub record IsPayload (payload : Bytes) : Type 0 where
  pub short : length payload < max_val_len
  pub terminated : IsCString payload

-- Room for three entries, and the key that is to be missed is not there.
pub record HasRoom (capacity : ℕ) (s : Region × ℕ) : Type 0 where
  pub entries : ℕ
  pub map : Map
  pub represents : Represents s.0 capacity entries map
  pub miss : map bench_miss ≡ none
  pub room : entries + 3 ≤ capacity

-- The payload is stored under the one key, something under the other, and there is room to put the
-- third if it is not there.
pub record IsGood (capacity : ℕ) (payload : Bytes) (s : Region × ℕ) : Type 0 where
  pub entries : ℕ
  pub map : Map
  pub represents : Represents s.0 capacity entries map
  pub hit : IsLasting map bench_hit
  pub hit_value : hit.cell.value ≡ payload
  pub update : IsLasting map bench_update
  pub miss : map bench_miss ≡ none
  pub room : (entries < capacity) ⊎ ((c : Cell) × (map bench_put ≡ some c))

abbrev pub entry : Bytes → Bytes → Item
entry key payload = record { key = key; value = payload; ttl = 0 }

module _ (payload : Bytes) (ok : IsPayload payload) where
  hit-IsItem : IsItem (entry bench_hit payload)
  hit-IsItem = record {
    named = omega arith;
    key_short = omega arith;
    value_short = ok.short;
    key_string = omega arith;
    value_string = ok.terminated;
  }

  update-IsItem : IsItem (entry bench_update payload)
  update-IsItem = record {
    named = omega arith;
    key_short = omega arith;
    value_short = ok.short;
    key_string = omega arith;
    value_string = ok.terminated;
  }

  pub put-IsItem : IsItem (entry bench_put payload)
  put-IsItem = record {
    named = omega arith;
    key_short = omega arith;
    value_short = ok.short;
    key_string = omega arith;
    value_string = ok.terminated;
  }

module _ (capacity : ℕ) (payload : Bytes) (ok : IsPayload payload) (first second : PutCalls)
    (calls : ℕ → PerformCalls) (one : first.locked ≡ true) (two : second.locked ≡ true)
    (granted : (n : ℕ) → AreGranted (calls n)) where
  pub prepares-shared :
      (s : Region × ℕ)
      → HasRoom capacity s
      → (s' : Region × ℕ) × ((shared_memory first second calls).prepare s payload ≡ some (s', true))
        × IsGood capacity payload s'
  unfolding prepare_shared cache_put
  prepares-shared s h =
      let (r1, e1, h1) =
        put-Represents s.0 capacity h.entries h.map (entry bench_hit payload) first h.represents
          (omega (arith, h.room)) (hit-IsItem payload ok) one in
      let (r2, e2, h2) =
        put-Represents r1 capacity (h.entries + 1) _ (entry bench_update payload) second h1
          (omega (arith, h.room)) (update-IsItem payload ok) two in
      (
        (r2, s.1),
        rw (e1, e2) refl,
        unfold strcmp_eq in
            record {
              entries = h.entries + 1 + 1;
              map = _;
              represents = h2;
              hit = record {
                cell = item_cell (entry bench_hit payload) first.write_time;
                stored = refl;
                no_ttl = refl;
              };
              hit_value = refl;
              update = record {
                cell = item_cell (entry bench_update payload) second.write_time;
                stored = refl;
                no_ttl = refl;
              };
              miss = h.miss;
              room = inl (omega (arith, h.room));
            },
      )
