-- ===== src/Telemetry/Ratios.antt =====
-- The report divides by no zero.
use mem_sync.Base.{
  ℕ, ◌<◌, ◌≡◌, refl, inl, inr, Bool, Option, none, some, ltb, Bool-cases, ltb→lt, add64,
}
use mem_sync.Layout.{Region}
use mem_sync.Telemetry.{Doubles, percentage, report, cache_print_telemetry}

-- The same arithmetic but for the quotients by zero.
pub record AgreesOffZero {D : Type 0} (d d' : Doubles D) : Type 0 where
  pub of_nat : (n : ℕ) → d.of_nat n ≡ d'.of_nat n
  pub div : (x : D) (n : ℕ) → 0 < n → d.div x (d.of_nat n) ≡ d'.div x (d'.of_nat n)
  pub mul : (x y : D) → d.mul x y ≡ d'.mul x y
  pub gt : (x y : D) → d.gt x y ≡ d'.gt x y

module _ {D : Type 0} (d d' : Doubles D) (same : AgreesOffZero d d') where
  percentage-agrees : (part whole : ℕ) → percentage d part whole ≡ percentage d' part whole
  unfolding percentage
  percentage-agrees part whole = elim (Bool-cases (ltb 0 whole)) [
    | inl positive ↦
        rw
          (
            positive,
            same.div (d.of_nat part) whole (ltb→lt 0 whole positive),
            same.of_nat part,
            same.of_nat 100,
            same.mul _ (d'.of_nat 100),
          )
          refl
    | inr zero ↦ rw zero (same.of_nat 0)
  ]

  -- The report is the same for two arithmetics that differ only in what a quotient by zero is: on no
  -- header, those with no slot or with counters that wrap around included, does it depend on one.
  pub cache_print_telemetry-agrees :
      (base : Option Region) (locked : Bool)
      → cache_print_telemetry d base locked ≡ cache_print_telemetry d' base locked
  unfolding cache_print_telemetry report
  cache_print_telemetry-agrees none locked = refl
  cache_print_telemetry-agrees (some r) locked =
      let h = r.header in
      rw
        (
          percentage-agrees h.entry_count h.capacity,
          percentage-agrees h.total_hits (add64 h.total_hits h.total_misses),
          same.of_nat 70,
          same.gt (percentage d' h.entry_count h.capacity) (d'.of_nat 70),
        )
        refl
