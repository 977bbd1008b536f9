-- ===== src/Telemetry.antt =====
-- `cache_print_telemetry` of src/cache_engine.cpp. The arithmetic of `double` is an argument; its
-- values of natural numbers stand for `static_cast<double>` and for the literals.
pub mod Ratios
use mem_sync.Base.{ℕ, Bool, true, false, Option, none, some, ltb, if◌then◌else◌, add64}
use mem_sync.Layout.{CacheHeader, Region}

pub record Doubles (D : Type 0) : Type 0 where
  pub of_nat : ℕ → D
  pub div : D → D → D
  pub mul : D → D → D
  pub gt : D → D → Bool

-- What the report shows; `warned` is the line on the load factor.
pub record Report (D : Type 0) : Type 0 where
  pub capacity : ℕ
  pub active : ℕ
  pub load_factor : D
  pub warned : Bool
  pub hits : ℕ
  pub misses : ℕ
  pub hit_ratio : D
  pub collisions : ℕ

module _ {D : Type 0} (d : Doubles D) where
  -- `(static_cast<double>(part) / whole) * 100.0`
  unfoldable pub percentage : ℕ → ℕ → D
  percentage part whole =
      if ltb 0 whole
      then d.mul (d.div (d.of_nat part) (d.of_nat whole)) (d.of_nat 100)
      else d.of_nat 0

  unfoldable pub report : CacheHeader → Report D
  unfolding percentage
  report header =
      let load_factor = percentage header.entry_count header.capacity in
      record {
        capacity = header.capacity;
        active = header.entry_count;
        load_factor = load_factor;
        warned = d.gt load_factor (d.of_nat 70);
        hits = header.total_hits;
        misses = header.total_misses;
        hit_ratio = percentage header.total_hits (add64 header.total_hits header.total_misses);
        collisions = header.total_collisions;
      }

  -- `locked` is what `pthread_rwlock_rdlock` answers; `none` prints nothing.
  unfoldable pub cache_print_telemetry : Option Region → Bool → Option (Report D)
  unfolding report
  cache_print_telemetry none locked = none
  cache_print_telemetry (some r) locked = if locked then some (report r.header) else none
