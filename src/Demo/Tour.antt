-- ===== src/Demo/Tour.antt =====
-- What src/main.cpp prints when nothing fails it.
use mem_sync.Base.{
  ℕ, ◌+◌, ◌≤◌, ◌<◌, ◌≡◌, refl, ap, ◌∙◌, Bool, true, none, some, List, [], ◌∷◌, arith, length,
  replicate, length-replicate,
}
use mem_sync.Cache.{Item, cache_put, valid_key_argument}
use mem_sync.Cache.Store.{IsItem}
use mem_sync.Contract.Reference.{Represents, item_cell, after_read, put-Represents}
use mem_sync.Contract.Writes.{delete-Represents}
use mem_sync.Demo.{buffer_of}
use mem_sync.Demo.Standalone.{
  TourCalls, Line, inserted, found, deleted, absent, found_early, removed_late, telemetry,
  print_report, tour_lines, user_101, lead, user_102, dev, session, token, tour,
}
use mem_sync.Layout.{Region, max_val_len}
use mem_sync.Modify.{cache_delete}
use mem_sync.Sharing.View.{shown, readable}
use mem_sync.Spec.{Cell, Map, is_due, undue}
use mem_sync.Telemetry.{Doubles, Report, report, cache_print_telemetry}
use mem_sync.Text.{Bytes, strcmp_eq}
use mem_sync.Demo.Alone.{IsAlone, got_some, got_none, get-alone}

-- The locks are granted, and the session is read before its two seconds have passed and after.
pub record IsGranted (calls : TourCalls) : Type 0 where
  pub put_lead : calls.put_lead.locked ≡ true
  pub get_lead : IsAlone calls.get_lead
  pub delete_lock : calls.delete_lock ≡ true
  pub get_deleted : IsAlone calls.get_deleted
  pub put_dev : calls.put_dev.locked ≡ true
  pub put_session : calls.put_session.locked ≡ true
  pub get_early : IsAlone calls.get_early
  pub get_late : IsAlone calls.get_late
  pub telemetry_lock : calls.telemetry_lock ≡ true
  pub in_time : calls.get_early.read_time < calls.put_session.write_time + 2
  pub too_late : calls.put_session.write_time + 2 ≤ calls.get_late.read_time

abbrev item : Bytes → Bytes → ℕ → Item
item key value ttl = record { key = key; value = value; ttl = ttl }

lead-IsItem : IsItem (item user_101 lead 0)
lead-IsItem = omega arith

dev-IsItem : IsItem (item user_102 dev 0)
dev-IsItem = omega arith

session-IsItem : IsItem (item session token 2)
session-IsItem = omega arith

abbrev session_cell : ℕ → Cell
session_cell written = item_cell (item session token 2) written

session_early :
    (written now : ℕ)
    → now < written + 2
    → undue now (some (session_cell written)) ≡ some (session_cell written)
unfolding undue is_due
session_early written now h = ground arith

session_late :
    (written now : ℕ) → written + 2 ≤ now → undue now (some (session_cell written)) ≡ none
unfolding undue is_due
session_late written now h = ground arith

module _ {D : Type 0} (d : Doubles D) where
  abbrev pub expected : Report D → List (Line D)
  expected last =
      inserted user_101 true
      ∷ found user_101 lead
      ∷ deleted true
      ∷ absent
      ∷ inserted user_102 true
      ∷ found_early token
      ∷ removed_late
      ∷ telemetry last
      ∷ []

  -- The tour on a table with room for three entries.
  pub tour-expected :
      (r : Region) (capacity n : ℕ) (m : Map) (calls : TourCalls)
      → Represents r capacity n m
      → n + 3 ≤ capacity
      → IsGranted calls
      → (r' : Region) × (k : ℕ) × (m' : Map) × Represents r' capacity k m'
        × (tour d r calls ≡ expected (report d r'.header))
  unfolding tour cache_put cache_print_telemetry
  tour-expected r capacity n m calls h room ok =
      let value : List ℕ = replicate max_val_len 0 in
      let sized : length value ≡ max_val_len = length-replicate max_val_len 0 in
      let key : valid_key_argument (some user_101) ≡ true = unfold valid_key_argument in refl in
      let key' : valid_key_argument (some session) ≡ true = unfold valid_key_argument in refl in
      let w = calls.put_session.write_time in
      let (r1, e1, h1) =
        put-Represents r capacity n m (item user_101 lead 0) calls.put_lead h (omega arith)
          lead-IsItem ok.put_lead in
      let (r2, got, e2, s2, h2, sized2) =
        get-alone r1 capacity (n + 1) _ user_101 value calls.get_lead h1 key ok.get_lead sized in
      let (r3, e3, h3) = delete-Represents r2 capacity (n + 1) _ user_101 h2 key in
      let value2 = buffer_of value got in
      let (r4, after, e4, s4, h4, sized4) =
        get-alone r3 capacity (n + 1) _ user_101 value2 calls.get_deleted h3 key ok.get_deleted
          sized2 in
      let (r5, e5, h5) =
        put-Represents r4 capacity (n + 1) _ (item user_102 dev 0) calls.put_dev h4 (omega arith)
          dev-IsItem ok.put_dev in
      let (r6, e6, h6) =
        put-Represents r5 capacity (n + 1 + 1) _ (item session token 2) calls.put_session h5
          (omega arith) session-IsItem ok.put_session in
      let value4 = buffer_of value2 after in
      let (r7, early, e7, s7, h7, sized7) =
        get-alone r6 capacity (n + 1 + 1 + 1) _ session value4 calls.get_early h6 key' ok.get_early
          sized4 in
      let value7 = buffer_of value4 early in
      let (r8, late, e8, s8, h8, sized8) =
        get-alone r7 capacity (n + 1 + 1 + 1) _ session value7 calls.get_late h7 key' ok.get_late
          sized7 in
      let shown2 : shown got ≡ some (lead, calls.put_lead.write_time) =
        unfold strcmp_eq undue is_due in s2 in
      let shown4 : shown after ≡ none = unfold strcmp_eq undue in s4 in
      let cell = some (session_cell w) in
      let t7 = calls.get_early.read_time in
      let t8 = calls.get_late.read_time in
      let in_time = session_early w t7 ok.in_time in
      let seen7 : shown early ≡ readable (undue t7 cell) = unfold strcmp_eq in s7 in
      let seen8 : shown late
          ≡ readable (
              undue t8 (after_read (undue t7 cell) (undue calls.get_early.remove_time cell) cell)) =
        unfold strcmp_eq in s8 in
      let shown7 : shown early ≡ some (token, w) = seen7 ∙ ap readable in_time in
      let shown8 : shown late ≡ none =
        (rw in_time at seen8) ∙ ap readable (session_late w t8 ok.too_late) in
      let deletes : cache_delete (some r2) (some user_101) true ≡ (some r3, true) =
        unfold strcmp_eq undue is_due in e3 in
      let lock3 : cache_delete (some r2) (some user_101) calls.delete_lock ≡ (some r3, true) =
        ap (λ (b : Bool). cache_delete (some r2) (some user_101) b) ok.delete_lock ∙ deletes in
      let (found2, text2) = got_some value got lead calls.put_lead.write_time shown2 in
      let (found7, text7) = got_some value4 early token w shown7 in
      let found4 = got_none value2 after shown4 in
      let found8 = got_none value7 late shown8 in
      (
        r8,
        n + 1 + 1 + 1,
        _,
        h8,
        rw (e1, e2, lock3, e4, e5, e6, e7, e8)
            (λ i.
              tour_lines true (found2 i) (text2 i) true (found4 i) true (found7 i) (text7 i)
                (found8 i)
                (print_report (cache_print_telemetry d (some r8) (ok.telemetry_lock i)))),
      )
