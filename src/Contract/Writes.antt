-- ===== src/Contract/Writes.antt =====
-- An update and a delete of a process that is alone, on a region that represents a map.
use mem_sync.Base.{
  ℕ, ◌<◌, ◌≡◌, refl, ap, ◌∙◌, fun_ext, Bool, true, Option, none, some, arith, length, if◌then◌else◌,
  lt→ltb,
}
use mem_sync.Layout.{Region, max_val_len}
use mem_sync.Table.View.{find_entry}
use mem_sync.Cache.{valid_key_argument, valid_value_argument}
use mem_sync.Cache.Get.Finish.{found-IsEntry}
use mem_sync.Contract.Counts.{update_locked-HasNoMore, delete_locked-HasNoMore}
use mem_sync.Modify.{UpdateCalls, update_locked, delete_locked, cache_update, cache_delete}
use mem_sync.Modify.Update.{revised, update_locked-Updated}
use mem_sync.Modify.Delete.{delete_locked-Deleted}
use mem_sync.Sharing.View.{cell_of, view}
use mem_sync.Sharing.Refine.{revised-cell_of, cell_of-if}
use mem_sync.Spec.{Cell, Map, rewritten}
use mem_sync.Text.{Bytes, IsCString, strcmp_eq}
use mem_sync.Contract.Reference.{Represents, with_cell, has_cell, is_some-cell_of}

-- An update rewrites the cell of its key, if there is one that is not due.
pub update-Represents :
    (r : Region) (capacity n : ℕ) (m : Map) (key value : Bytes) (calls : UpdateCalls)
    → Represents r capacity n m
    → valid_key_argument (some key) ≡ true
    → length value < max_val_len
    → IsCString value
    → calls.locked ≡ true
    → let o = rewritten value calls.check_time calls.write_time (m key) in
      (r' : Region) × (cache_update (some r) (some key) (some value) calls ≡ (some r', has_cell o))
      × Represents r' capacity n (with_cell key o m)
unfolding cache_update
update-Represents r capacity n m key value calls h ok short string got =
    let u = update_locked-Updated r key value calls h.valid in
    let less = update_locked-HasNoMore r key value calls in
    let o = find_entry key r.slots in
    let entry =
      revised-cell_of value calls o short string (λ e p. found-IsEntry r key e h.valid p) in
    let write = λ (f : Map). rewritten value calls.check_time calls.write_time (f key) in
    let p = update_locked r key value calls in
    let value_ok : valid_value_argument (some value) ≡ true =
      unfold valid_value_argument in lt→ltb (length value) 256 short in
    let run : cache_update (some r) (some key) (some value) calls ≡ (some p.0, p.1) =
      simp (ok, value_ok, got) in
    let done : p.1 ≡ has_cell (write m) =
      u.done ∙ is_some-cell_of (revised value calls o) ∙ ap has_cell (entry ∙ ap write h.cells) in
    (
      p.0,
      run ∙ ap (λ (b : Bool). (some p.0, b)) done,
      record {
        valid = u.valid;
        slots = less.capacity ∙ h.slots;
        count = omega (arith, less.count, h.count);
        cells = fun_ext (λ q.
            ap cell_of (u.entries q)
            ∙ cell_of-if (strcmp_eq key q) (revised value calls o) (find_entry q r.slots)
            ∙ ap (λ (x : Option Cell). if strcmp_eq key q then x else view r q) entry
            ∙ ap (λ (f : Map). with_cell key (write f) f q) h.cells);
      },
    )

-- A delete takes the cell of its key away, due or not, and says if there was one.
pub delete-Represents :
    (r : Region) (capacity n : ℕ) (m : Map) (key : Bytes)
    → Represents r capacity n m
    → valid_key_argument (some key) ≡ true
    → (r' : Region) × (cache_delete (some r) (some key) true ≡ (some r', has_cell (m key)))
      × Represents r' capacity n (with_cell key none m)
unfolding cache_delete
delete-Represents r capacity n m key h ok =
    let d = delete_locked-Deleted r key h.valid in
    let less = delete_locked-HasNoMore r key in
    let p = delete_locked r key in
    let run : cache_delete (some r) (some key) true ≡ (some p.0, p.1) = rw ok refl in
    let done : p.1 ≡ has_cell (m key) =
      d.found
      ∙ is_some-cell_of (find_entry key r.slots)
      ∙ ap (λ (f : Map). has_cell (f key)) h.cells in
    (
      p.0,
      run ∙ ap (λ (b : Bool). (some p.0, b)) done,
      record {
        valid = d.valid;
        slots = less.capacity ∙ h.slots;
        count = omega (arith, less.count, h.count);
        cells = fun_ext (λ q.
            ap cell_of (d.entries q)
            ∙ cell_of-if (strcmp_eq key q) none (find_entry q r.slots)
            ∙ ap (λ (f : Map). with_cell key none f q) h.cells);
      },
    )
