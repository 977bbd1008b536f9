-- ===== src/Contract/Reads.antt =====
-- A get of a process that is alone, on a region that represents a map.
use mem_sync.Base.{
  ℕ, ◌≡◌, refl, sym, ap, ◌∙◌, fun_ext, inl, inr, Bool, true, false, ◌&&◌, Option, none, some, List,
  arith, length, if◌then◌else◌, Bool-cases,
}
use mem_sync.Layout.{CacheEntry, Region, max_val_len}
use mem_sync.Table.{cache_entry_expired}
use mem_sync.Table.View.{find_entry}
use mem_sync.Table.Reclaim.{unexpired}
use mem_sync.Cache.Get.Remove.{cleaned}
use mem_sync.Table.Invariant.{IsValid}
use mem_sync.Table.Collisions.{extra_of}
use mem_sync.Cache.{GetCalls, valid_key_argument, read_locked, get_finish, cache_get}
use mem_sync.Cache.Get.{reading, read_locked-reading}
use mem_sync.Cache.Get.Finish.{is_expired, get_finish-Finishes}
use mem_sync.Contract.Counts.{get_finish-HasNoMore}
use mem_sync.Sharing.View.{cell, cell_of, view, undue-cell_of, shown, readable}
use mem_sync.Sharing.View.{cache_get-view}
use mem_sync.Sharing.Refine.{cell_of-if}
use mem_sync.Spec.{Cell, Map, undue}
use mem_sync.Text.{Bytes, strcmp_eq}
use mem_sync.Contract.Reference.{Represents, with_cell, with_cell_self, after_get}

-- The cell is due exactly if the first critical section read it as expired.
is_expired-read :
    (r : Region) (key : Bytes) (now : ℕ)
    → IsValid r
    → is_expired (read_locked r key now) ≡ (elim (find_entry key r.slots) as (λ _. Bool) [
      | none ↦ false
      | some e ↦ cache_entry_expired e now
    ])
is_expired-read r key now v =
    rw (read_locked-reading r key now v) (of_entry (find_entry key r.slots))
  where
    of_entry :
        (o : Option CacheEntry)
        → is_expired (reading now (extra_of r key) o)
          ≡ (elim o as (λ _. Bool) [ none ↦ false | some e ↦ cache_entry_expired e now ])
    of_entry none = refl
    of_entry (some e) = elim (Bool-cases (cache_entry_expired e now)) [
      | inl old ↦ rw old refl
      | inr new ↦ rw new refl
    ]

get_cells :
    (r : Region) (key : Bytes) (calls : GetCalls) (o : Option CacheEntry)
    → find_entry key r.slots ≡ o
    → IsValid r
    → calls.write_lock ≡ true
    → (q : Bytes)
    → cell_of (
        if is_expired (read_locked r key calls.read_time) && calls.write_lock
        then cleaned key calls.remove_time (λ k. find_entry k r.slots) q
        else find_entry q r.slots)
      ≡ with_cell key (after_get calls (cell_of o)) (view r) q
get_cells r key calls none e v locked q =
    let flag : is_expired (read_locked r key calls.read_time) ≡ false =
      is_expired-read r key calls.read_time v ∙ rw e refl in
    rw flag (unfold undue in with_cell_self key none (view r) q (ap cell_of e))
get_cells r key calls (some f) e v locked q =
    elim (Bool-cases (cache_entry_expired f calls.read_time)) [
      | inl old ↦
          let flag : is_expired (read_locked r key calls.read_time) ≡ true =
            is_expired-read r key calls.read_time v ∙ rw e old in
          let due : undue calls.read_time (cell_of (some f)) ≡ none =
            sym (undue-cell_of calls.read_time (some f)) ∙ rw old refl in
          rw (flag, due)
            (simp (locked) (
              cell_of-if (strcmp_eq key q) (unexpired calls.remove_time (find_entry key r.slots))
                (find_entry q r.slots)
              ∙ ap (λ (x : Option Cell). if strcmp_eq key q then x else view r q)
                  (ap (λ (x : Option CacheEntry). cell_of (unexpired calls.remove_time x)) e
                    ∙ undue-cell_of calls.remove_time (some f))))
      | inr new ↦
          let flag : is_expired (read_locked r key calls.read_time) ≡ false =
            is_expired-read r key calls.read_time v ∙ rw e new in
          let fresh : undue calls.read_time (cell_of (some f)) ≡ some (cell f) =
            sym (undue-cell_of calls.read_time (some f)) ∙ rw new refl in
          rw (flag, fresh) (with_cell_self key (some (cell f)) (view r) q (ap cell_of e))
    ]

-- A get returns what the map holds under the key, unless it is due.
pub get-Represents :
    (r : Region) (capacity n : ℕ) (m : Map) (key : Bytes) (out : List ℕ) (calls : GetCalls)
    → Represents r capacity n m
    → valid_key_argument (some key) ≡ true
    → calls.read_lock ≡ true
    → calls.write_lock ≡ true
    → calls.between r ≡ r
    → length out ≡ max_val_len
    → (r' : Region) × (result : Option (List ℕ × ℕ)) × (cache_get
          (some r)
          (some key)
          (some out)
          calls
        ≡ (some r', result))
      × (shown result ≡ readable (undue calls.read_time (m key)))
      × Represents r' capacity n (with_cell key (after_get calls (m key)) m)
unfolding cache_get
get-Represents r capacity n m key out calls h ok got got' alone sized =
    let read = read_locked r key calls.read_time in
    let p = get_finish r key out read calls in
    let f = get_finish-Finishes r key out read calls h.valid in
    let less = get_finish-HasNoMore r key out read calls in
    let run : cache_get (some r) (some key) (some out) calls ≡ (some p.0, p.1) =
      simp (ok, got, alone) in
    let seen = cache_get-view r key out calls h.valid ok got sized in
    (
      p.0,
      p.1,
      run,
      sym (ap (λ (x : Option Region × Option (List ℕ × ℕ)). shown x.1) run)
          ∙ seen
          ∙ ap (λ (f : Map). readable (undue calls.read_time (f key))) h.cells,
      record {
        valid = f.valid;
        slots = less.capacity ∙ h.slots;
        count = omega (arith, less.count, h.count);
        cells = fun_ext (λ q.
            ap cell_of (f.entries q)
            ∙ get_cells r key calls (find_entry key r.slots) refl h.valid got' q
            ∙ ap (λ (f : Map). with_cell key (after_get calls (f key)) f q) h.cells);
      },
    )
