-- ===== src/Demo/Writing.antt =====
-- What src/writer.cpp stores when it runs alone.
use mathlib.Core.Path.{subst}
use mem_sync.Base.{
  ℕ, ◌+◌, ◌≤◌, ◌≡◌, refl, sym, ap, ◌∙◌, Bool, true, Option, some, List, [], ◌∷◌, map, arith, length,
}
use mem_sync.Cache.{Item, PutCalls, put_locked, cache_put, cache_put_ttl}
use mem_sync.Cache.Store.{IsItem}
use mem_sync.Contract.Access.{key_accepted, value_accepted}
use mem_sync.Contract.Reference.{Represents, with_cell, item_cell, put-Represents}
use mem_sync.Contract.Scripts.{Represents-mono}
use mem_sync.Demo.{region_of}
use mem_sync.Demo.Exchange.{WriterCalls, PutLine, write_from}
use mem_sync.Layout.{Region}
use mem_sync.Sharing.{Step, Reach, next}
use mem_sync.Spec.{Map}
use mem_sync.Text.{Bytes}

-- The locks are granted, and no other process comes between.
pub record IsWriterAlone (calls : WriterCalls) : Type 0 where
  pub put : (i : ℕ) → (calls.put i).locked ≡ true
  pub read_lock : (i : ℕ) → calls.read_lock i ≡ true
  pub others : (i : ℕ) (r : Region) → calls.others i r ≡ r
  pub others_after : (i : ℕ) (r : Region) → calls.others_after i r ≡ r

-- A put is a step of the shared region.
put-Reach :
    (r r₀ r' : Region) (item : Item) (calls : PutCalls)
    → IsItem item
    → calls.locked ≡ true
    → cache_put_ttl (some r) (some item.key) (some item.value) item.ttl calls ≡ (some r', true)
    → Reach r₀ r
    → Reach r₀ r'
unfolding cache_put_ttl
put-Reach r r₀ r' item calls ok locked run reach =
    let ran : (some (put_locked r item calls).0, (put_locked r item calls).1) ≡ (some r', true) =
      sym (simp (key_accepted item ok, value_accepted item ok, locked)) ∙ run in
    let same : (put_locked r item calls).0 ≡ r' =
      ap (λ (o : Option Region × Bool). region_of r o.0) ran in
    subst (Reach r₀) same (next reach (Step.put r item calls ok))

abbrev pub entry : Bytes × Bytes → Item
entry (key, value) = record { key = key; value = value; ttl = 0 }

abbrev pub AreItems : List (Bytes × Bytes) → Type 0
AreItems [] = Unit {0}
AreItems (p ∷ rest) = IsItem (entry p) × AreItems rest

-- The map after the writer's puts.
abbrev pub written : Map → List (Bytes × Bytes) → (ℕ → PutCalls) → ℕ → Map
written m [] puts i = m
written m (p ∷ rest) puts i =
    written (with_cell p.0 (some (item_cell (entry p) (puts i).write_time)) m) rest puts (i + 1)

-- The key of a line and whether its put succeeded.
abbrev pub result_of : PutLine → Bytes × Bool
result_of (key, done, count) = (key, done)

abbrev pub success_of : Bytes × Bytes → Bytes × Bool
success_of (key, value) = (key, true)

-- What a run of the writer's loop must come to.
pub record Writes (r₀ : Region) (capacity n : ℕ) (m : Map) (l : List (Bytes × Bytes))
    (out : Region × List PutLine × Bool) : Type 0 where
  pub represents : Represents out.0 capacity n m
  pub lines : map result_of out.1 ≡ map success_of l
  pub done : out.2 ≡ true
  pub reach : Reach r₀ out.0

-- A step of the loop in which the put succeeds.
write_from_step :
    (r r' : Region) (key value : Bytes) (rest : List (Bytes × Bytes)) (calls : WriterCalls) (i : ℕ)
    → IsWriterAlone calls
    → cache_put (some r) (some key) (some value) (calls.put i) ≡ (some r', true)
    → write_from r ((key, value) ∷ rest) calls i ≡ (
      (write_from r' rest calls (i + 1)).0,
      (key, true, r'.header.entry_count) ∷ (write_from r' rest calls (i + 1)).1,
      (write_from r' rest calls (i + 1)).2,
    )
unfolding write_from
write_from_step r r' key value rest calls i alone run =
    rw (alone.others i r, run, alone.others_after i r', alone.read_lock i) refl

pub write_from-Writes :
    (r₀ r : Region) (capacity n : ℕ) (m : Map) (l : List (Bytes × Bytes)) (calls : WriterCalls)
    (i : ℕ)
    → IsWriterAlone calls
    → AreItems l
    → n + length l ≤ capacity
    → Represents r capacity n m
    → Reach r₀ r
    → Writes r₀ capacity (n + length l) (written m l calls.put i) l (write_from r l calls i)
write_from-Writes r₀ r capacity n m [] calls i alone ok room h reach =
    unfold write_from in
    record {
      represents = Represents-mono (omega arith) h;
      lines = refl;
      done = refl;
      reach = reach;
    }
write_from-Writes r₀ r capacity n m ((key, value) ∷ rest) calls i alone ok room h reach =
    let item = entry (key, value) in
    let (r', run, h') =
      put-Represents r capacity n m item (calls.put i) h (omega arith) ok.0 (alone.put i) in
    let reach' = put-Reach r r₀ r' item (calls.put i) ok.0 (alone.put i) run reach in
    let w =
      write_from-Writes r₀ r' capacity (n + 1) _ rest calls (i + 1) alone ok.1 (omega arith) h'
        reach' in
    let put : cache_put (some r) (some key) (some value) (calls.put i) ≡ (some r', true) =
      unfold cache_put in run in
    let step = write_from_step r r' key value rest calls i alone put in
    rw step (record {
      represents = Represents-mono (omega arith) w.represents;
      lines = ap (λ (l : List (Bytes × Bool)). (key, true) ∷ l) w.lines;
      done = w.done;
      reach = w.reach;
    })
