-- ===== src/Demo/Standalone.antt =====
-- src/main.cpp. It removes the named object, creates it anew, makes a fixed sequence of calls, and
-- removes it again. What it prints is a list of lines.
use mem_sync.Base.{
  ℕ, Bool, true, false, ◌&&◌, Option, none, some, List, [], ◌∷◌, ◌++◌, replicate, not,
  if◌then◌else◌,
}
use mem_sync.Cache.{PutCalls, GetCalls, cache_put, cache_put_ttl, cache_get}
use mem_sync.Demo.{
  Unlink, gone, no_entry, unlink_failed, region_of, buffer_of, was_found, region_at,
}
use mem_sync.Layout.{Region, max_val_len}
use mem_sync.Lifecycle.{
  CacheMapping, Event, unlinked, OpenCalls, unopened, cache_shared_memory_name, cache_open_shared,
  cache_close_shared,
}
use mem_sync.Modify.{cache_delete}
use mem_sync.Telemetry.{Doubles, Report, cache_print_telemetry}
use mem_sync.Text.{Bytes, read_cstr}

-- "user:101"
abbrev pub user_101 : Bytes
user_101 = b'u' ∷ b's' ∷ b'e' ∷ b'r' ∷ b':' ∷ b'1' ∷ b'0' ∷ b'1' ∷ []

-- "Sarbesh Chatterjee - Lead"
abbrev pub lead : Bytes
lead =
    b'S' ∷ b'a' ∷ b'r' ∷ b'b' ∷ b'e' ∷ b's' ∷ b'h' ∷ 32 ∷ b'C' ∷ b'h' ∷ b'a' ∷ b't' ∷ b't' ∷ b'e'
    ∷ b'r' ∷ b'j' ∷ b'e' ∷ b'e' ∷ 32 ∷ b'-' ∷ 32 ∷ b'L' ∷ b'e' ∷ b'a' ∷ b'd' ∷ []

-- "user:102"
abbrev pub user_102 : Bytes
user_102 = b'u' ∷ b's' ∷ b'e' ∷ b'r' ∷ b':' ∷ b'1' ∷ b'0' ∷ b'2' ∷ []

-- "Alex Vance - Dev"
abbrev pub dev : Bytes
dev =
    b'A' ∷ b'l' ∷ b'e' ∷ b'x' ∷ 32 ∷ b'V' ∷ b'a' ∷ b'n' ∷ b'c' ∷ b'e' ∷ 32 ∷ b'-' ∷ 32 ∷ b'D' ∷ b'e'
    ∷ b'v' ∷ []

-- "session:temp"
abbrev pub session : Bytes
session = b's' ∷ b'e' ∷ b's' ∷ b's' ∷ b'i' ∷ b'o' ∷ b'n' ∷ b':' ∷ b't' ∷ b'e' ∷ b'm' ∷ b'p' ∷ []

-- "short_lived_token"
abbrev pub token : Bytes
token =
    b's' ∷ b'h' ∷ b'o' ∷ b'r' ∷ b't' ∷ b'_' ∷ b'l' ∷ b'i' ∷ b'v' ∷ b'e' ∷ b'd' ∷ b'_' ∷ b't' ∷ b'o'
    ∷ b'k' ∷ b'e' ∷ b'n' ∷ []

-- What the environment answers, call by call.
pub record TourCalls : Type 0 where
  pub reset : Unlink
  pub open_calls : OpenCalls
  pub put_lead : PutCalls
  pub get_lead : GetCalls
  pub delete_lock : Bool
  pub get_deleted : GetCalls
  pub put_dev : PutCalls
  pub put_session : PutCalls
  pub get_early : GetCalls
  pub get_late : GetCalls
  pub telemetry_lock : Bool
  pub final : Unlink

-- The lines with a result in them.
pub data Line (D : Type 0) : Type 0 where
  inserted : Bytes → Bool → Line D
  found : Bytes → Bytes → Line D
  deleted : Bool → Line D
  absent : Line D
  found_early : Bytes → Line D
  removed_late : Line D
  telemetry : Report D → Line D

pub record Outcome (D : Type 0) : Type 0 where
  pub code : ℕ
  pub lines : List (Line D)
  pub events : List Event

abbrev pub line_if : {D : Type 0} → Bool → Line D → List (Line D) → List (Line D)
line_if b line rest = if b then line ∷ rest else rest

abbrev pub print_report : {D : Type 0} → Option (Report D) → List (Line D)
print_report none = []
print_report (some r) = telemetry r ∷ []

-- The lines, from the results of the calls and what the buffer holds when it is printed.
abbrev pub tour_lines :
    {D : Type 0}
    → Bool
    → Bool
    → Bytes
    → Bool
    → Bool
    → Bool
    → Bool
    → Bytes
    → Bool
    → List (Line D)
    → List (Line D)
tour_lines put_ok get_ok text delete_ok get_after reinsert_ok early text_early late rest =
    inserted user_101 put_ok
    ∷ line_if get_ok (found user_101 text) (
        deleted delete_ok
        ∷ line_if (not get_after) absent (
            inserted user_102 reinsert_ok
            ∷ line_if early (found_early text_early) (line_if (not late) removed_late rest)))

-- The exit code, once the last `shm_unlink` has answered.
unfoldable pub final_code : Unlink → ℕ
final_code gone = 0
final_code no_entry = 1
final_code unlink_failed = 1

unfoldable pub reset_refused : Unlink → Bool
reset_refused gone = false
reset_refused no_entry = false
reset_refused unlink_failed = true

module _ {D : Type 0} (d : Doubles D) where
  -- From the first `cache_put` to `cache_print_telemetry`.
  unfoldable pub tour : Region → TourCalls → List (Line D)
  tour r calls =
      let (o1, put_ok) = cache_put (some r) (some user_101) (some lead) calls.put_lead in
      let r1 = region_of r o1 in
      let value = replicate max_val_len 0 in
      let (o2, got) = cache_get (some r1) (some user_101) (some value) calls.get_lead in
      let r2 = region_of r1 o2 in
      let value2 = buffer_of value got in
      let (o3, delete_ok) = cache_delete (some r2) (some user_101) calls.delete_lock in
      let r3 = region_of r2 o3 in
      let (o4, after) = cache_get (some r3) (some user_101) (some value2) calls.get_deleted in
      let r4 = region_of r3 o4 in
      let value4 = buffer_of value2 after in
      let (o5, reinsert_ok) = cache_put (some r4) (some user_102) (some dev) calls.put_dev in
      let r5 = region_of r4 o5 in
      let (o6, ttl_ok) = cache_put_ttl (some r5) (some session) (some token) 2 calls.put_session in
      let r6 = region_of r5 o6 in
      let (o7, early) = cache_get (some r6) (some session) (some value4) calls.get_early in
      let r7 = region_of r6 o7 in
      let value7 = buffer_of value4 early in
      let (o8, late) = cache_get (some r7) (some session) (some value7) calls.get_late in
      let r8 = region_of r7 o8 in
      tour_lines put_ok (was_found got) (read_cstr value2) delete_ok (was_found after) reinsert_ok
        (ttl_ok && was_found early) (read_cstr value7) (was_found late)
        (print_report (cache_print_telemetry d (some r8) calls.telemetry_lock))

  unfoldable pub take_tour : List Event → CacheMapping → TourCalls → Option Region → Outcome D
  unfolding tour final_code
  take_tour events m calls none = record { code = 1; lines = []; events = events }
  take_tour events m calls (some r) = record {
    code = final_code calls.final;
    lines = tour r calls;
    events = events ++ ((cache_close_shared (some m)).1 ++ unlinked cache_shared_memory_name ∷ []);
  }

  -- From the result of the opening on; a mapping that was opened has a region.
  unfoldable pub tour_opened : TourCalls → Option CacheMapping × Bool × List Event → Outcome D
  unfolding take_tour
  tour_opened calls (some m, true, events) =
      take_tour (unlinked cache_shared_memory_name ∷ events) m calls (region_at m.base)
  tour_opened calls (_, _, events) = record {
    code = 1;
    lines = [];
    events = unlinked cache_shared_memory_name ∷ events;
  }

  unfoldable pub standalone_main : ℕ → TourCalls → Outcome D
  unfolding reset_refused tour_opened
  standalone_main lock_size calls =
      if reset_refused calls.reset
      then record { code = 1; lines = []; events = unlinked cache_shared_memory_name ∷ [] }
      else tour_opened calls
          (cache_open_shared lock_size (some unopened) true none calls.open_calls)
