-- ===== src/Contract/Scripts.antt =====
-- Any sequence of calls of one process against the same calls on a map.
use mem_sync.Base.{
  ℕ, ◌+◌, ◌≤◌, ◌<◌, ◌≡◌, refl, ap, Bool, true, Option, none, some, List, [], ◌∷◌, arith, length,
  replicate, length-replicate,
}
use mem_sync.Cache.{Item, PutCalls, GetCalls, cache_put_ttl, cache_get, valid_key_argument}
use mem_sync.Cache.Store.{IsItem}
use mem_sync.Contract.Reference.{
  Represents, with_cell, item_cell, has_cell, after_get, put-Represents,
}
use mem_sync.Contract.Reads.{get-Represents}
use mem_sync.Contract.Writes.{update-Represents, delete-Represents}
use mem_sync.Layout.{Region, max_val_len}
use mem_sync.Modify.{UpdateCalls, cache_update, cache_delete}
use mem_sync.Sharing.View.{view, shown, readable}
use mem_sync.Spec.{Map, undue, rewritten}
use mem_sync.Table.Invariant.{IsValid}
use mem_sync.Text.{Bytes, IsCString}

pub data Call : Type 0 where
  put : Item → PutCalls → Call
  get : Bytes → GetCalls → Call
  update : Bytes → Bytes → UpdateCalls → Call
  delete : Bytes → Call

-- What a call tells its caller.
pub data Answer : Type 0 where
  done : Bool → Answer
  read : Option (Bytes × ℕ) → Answer

abbrev pub region_after : Region → Option Region → Region
region_after r none = r
region_after r (some r') = r'

abbrev pub did : Region → Option Region × Bool → Region × Answer
did r (o, b) = (region_after r o, done b)

abbrev pub did_read : Region → Option Region × Option (List ℕ × ℕ) → Region × Answer
did_read r (o, result) = (region_after r o, read (shown result))

-- The call on the region.
unfoldable pub make_call : Region → Call → Region × Answer
make_call r (put item calls) =
    did r (cache_put_ttl (some r) (some item.key) (some item.value) item.ttl calls)
make_call r (get key calls) =
    did_read r (cache_get (some r) (some key) (some (replicate max_val_len 0)) calls)
make_call r (update key value calls) = did r (cache_update (some r) (some key) (some value) calls)
make_call r (delete key) = did r (cache_delete (some r) (some key) true)

-- The call on the map.
unfoldable pub reference_call : Map → Call → Map × Answer
reference_call m (put item calls) =
    (with_cell item.key (some (item_cell item calls.write_time)) m, done true)
reference_call m (get key calls) =
    (with_cell key (after_get calls (m key)) m, read (readable (undue calls.read_time (m key))))
reference_call m (update key value calls) =
    let o = rewritten value calls.check_time calls.write_time (m key) in
    (with_cell key o m, done (has_cell o))
reference_call m (delete key) = (with_cell key none m, done (has_cell (m key)))

unfoldable pub make_calls : Region → List Call → Region × List Answer
make_calls r [] = (r, [])
make_calls r (c ∷ cs) =
    let (r', answer) = make_call r c in
    let (r'', answers) = make_calls r' cs in (r'', answer ∷ answers)

unfoldable pub reference_calls : Map → List Call → Map × List Answer
reference_calls m [] = (m, [])
reference_calls m (c ∷ cs) =
    let (m', answer) = reference_call m c in
    let (m'', answers) = reference_calls m' cs in (m'', answer ∷ answers)

-- Valid arguments, the locks granted, and no other process in between.
abbrev pub IsCall : Call → Type 0
IsCall (put item calls) = IsItem item × (calls.locked ≡ true)
IsCall (get key calls) =
    (valid_key_argument (some key) ≡ true)
    × (calls.read_lock ≡ true)
    × (calls.write_lock ≡ true)
    × ((r : Region) → calls.between r ≡ r)
IsCall (update key value calls) =
    (valid_key_argument (some key) ≡ true)
    × (length value < max_val_len)
    × IsCString value
    × (calls.locked ≡ true)
IsCall (delete key) = valid_key_argument (some key) ≡ true

abbrev pub AreCalls : List Call → Type 0
AreCalls [] = Unit {0}
AreCalls (c ∷ cs) = IsCall c × AreCalls cs

-- How many of the calls are puts.
abbrev pub puts_of : Call → ℕ
puts_of (put item calls) = 1
puts_of (get key calls) = 0
puts_of (update key value calls) = 0
puts_of (delete key) = 0

abbrev pub puts : List Call → ℕ
puts [] = 0
puts (c ∷ cs) = puts_of c + puts cs

pub Represents-mono :
    {r : Region} {capacity n k : ℕ} {m : Map}
    → n ≤ k
    → Represents r capacity n m
    → Represents r capacity k m
Represents-mono le h = record {
  valid = h.valid;
  slots = h.slots;
  count = omega (arith, h.count);
  cells = h.cells;
}

make_call-agrees :
    (capacity n : ℕ) (m : Map) (r : Region) (c : Call)
    → IsCall c
    → n + puts_of c ≤ capacity
    → Represents r capacity n m
    → (r' : Region) × (make_call r c ≡ (r', (reference_call m c).1))
      × Represents r' capacity (n + puts_of c) (reference_call m c).0
unfolding make_call reference_call
make_call-agrees capacity n m r (put item calls) ok room h =
    let (r', run, h') = put-Represents r capacity n m item calls h (omega arith) ok.0 ok.1 in
    (r', rw run refl, h')
make_call-agrees capacity n m r (get key calls) ok room h =
    let (r', result, run, seen, h') =
      get-Represents r capacity n m key (replicate max_val_len 0) calls h ok.0 ok.1 ok.2 (ok.3 r)
        (length-replicate max_val_len 0) in
    (
      r',
      rw run (ap (λ (x : Option (Bytes × ℕ)). (r', read x)) seen),
      Represents-mono (omega arith) h',
    )
make_call-agrees capacity n m r (update key value calls) ok room h =
    let (r', run, h') = update-Represents r capacity n m key value calls h ok.0 ok.1 ok.2 ok.3 in
    (r', rw run refl, Represents-mono (omega arith) h')
make_call-agrees capacity n m r (delete key) ok room h =
    let (r', run, h') = delete-Represents r capacity n m key h ok in
    (r', rw run refl, Represents-mono (omega arith) h')

make_calls-agree :
    (capacity n : ℕ) (m : Map) (r : Region) (cs : List Call)
    → AreCalls cs
    → n + puts cs ≤ capacity
    → Represents r capacity n m
    → Represents (make_calls r cs).0 capacity (n + puts cs) (reference_calls m cs).0
      × ((make_calls r cs).1 ≡ (reference_calls m cs).1)
unfolding make_calls reference_calls
make_calls-agree capacity n m r [] ok room h = (Represents-mono (omega arith) h, refl)
make_calls-agree capacity n m r (c ∷ cs) ok room h =
    let (r', run, h') = make_call-agrees capacity n m r c ok.0 (omega arith) h in
    let (w, same) =
      make_calls-agree capacity (n + puts_of c) (reference_call m c).0 r' cs ok.1 (omega arith)
        h' in
    rw run
      (Represents-mono (omega arith) w, ap (λ (l : List Answer). (reference_call m c).1 ∷ l) same)

-- A process that is alone on a well-formed table, whose calls have valid arguments and get their
-- locks, and make no more puts than there are slots without an entry, gets from any sequence of calls
-- the answers that a map gives, and leaves a well-formed table that holds what the map holds.
pub make_calls-eq-reference :
    (r : Region) (cs : List Call)
    → IsValid r
    → AreCalls cs
    → r.header.entry_count + puts cs ≤ r.header.capacity
    → IsValid (make_calls r cs).0
      × (view (make_calls r cs).0 ≡ (reference_calls (view r) cs).0)
      × ((make_calls r cs).1 ≡ (reference_calls (view r) cs).1)
make_calls-eq-reference r cs v ok room =
    let start : Represents r r.header.capacity r.header.entry_count (view r) = record {
      valid = v;
      slots = refl;
      count = omega arith;
      cells = refl;
    } in
    let (h, same) =
      make_calls-agree r.header.capacity r.header.entry_count (view r) r cs ok room start in
    (h.valid, h.cells, same)
