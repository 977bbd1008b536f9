-- ===== src/Sharing/Refine.antt =====
-- The shared region refines the map of Spec: each step of a process is a change of the map.
use mathlib.Core.Path.{subst}
use mem_sync.Base.{
  ◌<◌, ◌≤◌, ◌≡◌, refl, ap, ◌∙◌, inl, inr, Bool, true, false, ◌&&◌, Option, none, some, List, [],
  ◌∷◌, arith, length, if◌then◌else◌, Bool-cases,
}
use mem_sync.Layout.{CacheEntry, Region, at, is_occupied, matches, max_val_len}
use mem_sync.Table.{cache_entry_expired}
use mem_sync.Table.View.{find_entry, is_occupied_of_matches}
use mem_sync.Table.Keys.{matches-eq-strcmp_eq}
use mem_sync.Table.Reclaim.{unexpired}
use mem_sync.Table.Invariant.{IsEntry, IsValid}
use mem_sync.Cache.{Item, PutCalls}
use mem_sync.Cache.Put.{Kept, in_place, reclaimed, evicted}
use mem_sync.Cache.Put.Total.{put_locked-Kept}
use mem_sync.Cache.Get.Finish.{found-IsEntry, is_expired, get_finish-Finishes}
use mem_sync.Cache.Store.{IsItem}
use mem_sync.Modify.{UpdateCalls}
use mem_sync.Modify.Update.{revised, refreshed_lem, update_locked-Updated}
use mem_sync.Modify.Delete.{delete_locked-Deleted}
use mem_sync.Contract.Access.{Kept-entry}
use mem_sync.Sharing.{Step, Reach, here, next}
use mem_sync.Spec.{Cell, is_due, rewritten, Displaces, none_lost, due_lost, first_lost}
use mem_sync.Spec.{Action, MapStep, MapReach, put, update, delete, expire, skip}
use mem_sync.Text.{Bytes, IsCString, read_cstr, strcmp_eq}
use mem_sync.Sharing.View.{cell, cell_of, view, is_due-cell, undue-cell_of, cell-slot, slot-cell}

abbrev pub put_cell : Item → PutCalls → Cell
put_cell item calls = record { value = item.value; written = calls.write_time; ttl = item.ttl }

abbrev pub put_action : Item → PutCalls → Action
put_action item calls = put item.key (put_cell item calls) calls.reclaim_time

-- What a critical section does, from the arguments of its operation alone: the second one of a get
-- removes its key if the first one read it as expired and the lock is granted, and if it is due still.
abbrev pub action_of : {r r' : Region} → Step r r' → Action
action_of (Step.put r item calls ok) = put_action item calls
action_of (Step.update r key value calls short string) =
    update key value calls.check_time calls.write_time
action_of (Step.delete r key) = delete key
action_of (Step.finish r key out read calls) =
    if is_expired read && calls.write_lock then expire key calls.remove_time else skip

-- The last one first.
abbrev pub actions_of : {r r' : Region} → Reach r r' → List Action
actions_of here = []
actions_of (next reach step) = action_of step ∷ actions_of reach

module _ (r r' : Region) (item : Item) (calls : PutCalls) (v : IsValid r) where
  -- A key that found no place was not stored.
  Kept-Displaces : Kept r item calls r' → Displaces item.key calls.reclaim_time (view r) (view r')
  Kept-Displaces (in_place x p s) = none_lost (λ q other. ap cell_of (s.others q other))
  Kept-Displaces (reclaimed n (j, lt, old) s) =
      let occ : is_occupied (at r j) ≡ true = ground arith in
      let exp : cache_entry_expired (at r j) calls.reclaim_time ≡ true = ground arith in
      let (m, stands) = slot-cell r v j occ in
      due_lost (ap cell_of n.0)
        (
          read_cstr (at r j).key,
          cell (at r j),
          stands,
          is_due-cell (at r j) calls.reclaim_time ∙ exp,
        )
        (λ q other.
          ap cell_of (s.others q other) ∙ undue-cell_of calls.reclaim_time (find_entry q r.slots))
  Kept-Displaces (evicted n fresh x o s) =
      let (m, stands) = slot-cell r v x o.stored in
      let key = read_cstr (at r x).key in
      first_lost (ap cell_of n.0) (λ q c h. not_due q c h) key (cell (at r x)) stands
        (λ q c h. first q c h) (λ q other. ap cell_of (s.others q other) ∙ rest key m q)
    where
      not_due : (q : Bytes) (c : Cell) → view r q ≡ some c → is_due c calls.reclaim_time ≡ false
      not_due q c h =
          let (j, lt, same, m) = cell-slot r v q c h in
          let occ = is_occupied_of_matches (at r j) q m in
          let new : cache_entry_expired (at r j) calls.reclaim_time ≡ false =
            ground (arith, fresh j lt, occ) in
          subst (λ d. is_due d calls.reclaim_time ≡ false) same
            (is_due-cell (at r j) calls.reclaim_time ∙ new)

      first : (q : Bytes) (c : Cell) → view r q ≡ some c → (at r x).timestamp ≤ c.written
      first q c h =
          let (j, lt, same, m) = cell-slot r v q c h in
          let occ = is_occupied_of_matches (at r j) q m in
          subst (λ (d : Cell). (at r x).timestamp ≤ d.written) same (o.oldest j lt occ).0

      rest :
          (key : Bytes)
          → matches (at r x) key ≡ true
          → (q : Bytes)
          → cell_of (if matches (at r x) q then none else find_entry q r.slots)
            ≡ (if strcmp_eq key q then none else view r q)
      rest key m q = elim (Bool-cases (strcmp_eq key q)) [
        | inl same ↦ rw (matches-eq-strcmp_eq (at r x) key q m, same) refl
        | inr other ↦ rw (matches-eq-strcmp_eq (at r x) key q m, other) refl
      ]

  -- The cell of the item.
  Kept-put : IsItem item → Kept r item calls r' → MapStep (put_action item calls) (view r) (view r')
  Kept-put ok k =
      let (w, (e, found, holds)) = Kept-entry r item calls r' k in
      let same : cell e ≡ put_cell item calls =
        λ i. record { value = holds.value i; written = holds.written i; ttl = holds.ttl i } in
      (ap cell_of found ∙ ap some same, Kept-Displaces k)

-- The entry after an update, as a cell.
pub revised-cell_of :
    (value : Bytes) (calls : UpdateCalls) (o : Option CacheEntry)
    → length value < max_val_len
    → IsCString value
    → ((e : CacheEntry) → o ≡ some e → IsEntry e)
    → cell_of (revised value calls o)
      ≡ rewritten value calls.check_time calls.write_time (cell_of o)
unfolding rewritten
revised-cell_of value calls none short string ok = refl
revised-cell_of value calls (some e) short string ok =
    elim (Bool-cases (cache_entry_expired e calls.check_time)) [
      | inl old ↦ rw (is_due-cell e calls.check_time, old) refl
      | inr new ↦
          let (v, k, w, t) = refreshed_lem e value calls.write_time (ok e refl) short string in
          rw (is_due-cell e calls.check_time, new)
            (λ i. some (record { value = v i; written = w i; ttl = t i }))
    ]

-- A choice between two entries under a key, as cells.
pub cell_of-if :
    (b : Bool) (o p : Option CacheEntry)
    → cell_of (if b then o else p) ≡ (if b then cell_of o else cell_of p)
cell_of-if true o p = refl
cell_of-if false o p = refl

-- Each step of the shared region makes the change of its action.
Step-MapStep :
    {r r' : Region} (step : Step r r') → IsValid r → MapStep (action_of step) (view r) (view r')
Step-MapStep (Step.put r item calls ok) v =
    Kept-put r _ item calls v ok (put_locked-Kept item ok r calls v).1
Step-MapStep (Step.update r key value calls short string) v =
    let u = update_locked-Updated r key value calls v in
    let o = find_entry key r.slots in
    let entry = revised-cell_of value calls o short string (λ e h. found-IsEntry r key e v h) in
    λ q.
      ap cell_of (u.entries q)
      ∙ cell_of-if (strcmp_eq key q) (revised value calls o) (find_entry q r.slots)
      ∙ ap (λ (p : Option Cell). if strcmp_eq key q then p else view r q) entry
Step-MapStep (Step.delete r key) v =
    let d = delete_locked-Deleted r key v in
    λ q. ap cell_of (d.entries q) ∙ cell_of-if (strcmp_eq key q) none (find_entry q r.slots)
Step-MapStep (Step.finish r key out read calls) v =
    let f = get_finish-Finishes r key out read calls v in
    elim (Bool-cases (is_expired read && calls.write_lock)) [
      | inl cleans ↦ rw cleans (λ q.
          ap cell_of (f.entries q ∙ rw cleans refl)
          ∙ cell_of-if (strcmp_eq key q) (unexpired calls.remove_time (find_entry key r.slots))
              (find_entry q r.slots)
          ∙ ap (λ (p : Option Cell). if strcmp_eq key q then p else view r q)
              (undue-cell_of calls.remove_time (find_entry key r.slots)))
      | inr keeps ↦ rw keeps (λ q. ap cell_of (f.entries q ∙ rw keeps refl))
    ]

Step-IsValid : {r r' : Region} → Step r r' → IsValid r → IsValid r'
Step-IsValid (Step.put r item calls ok) v =
    (Kept-entry r item calls _ (put_locked-Kept item ok r calls v).1).0
Step-IsValid (Step.update r key value calls short string) v =
    (update_locked-Updated r key value calls v).valid
Step-IsValid (Step.delete r key) v = (delete_locked-Deleted r key v).valid
Step-IsValid (Step.finish r key out read calls) v =
    (get_finish-Finishes r key out read calls v).valid

-- What any processes do to a shared well-formed region, in any order of their critical sections, does
-- to its map exactly what their actions do one after the other: each put stores the cell of its item,
-- with the time of its write, and displaces nothing, else the due cells, else one that was written
-- first; each update, delete and clean-up changes its key alone. The region stays well formed.
pub Reach-MapReach :
    {r r' : Region}
    → IsValid r
    → (reach : Reach r r') → IsValid r' × MapReach (view r) (actions_of reach) (view r')
Reach-MapReach v here = (v, MapReach.here)
Reach-MapReach v (next reach step) =
    let (w, before) = Reach-MapReach v reach in
    (Step-IsValid step w, MapReach.next before (Step-MapStep step w))
