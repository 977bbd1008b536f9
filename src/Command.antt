-- ===== src/Command.antt =====
-- `run_command` of src/ui_bridge.cpp with `main`: one command line is one opening of the shared
-- cache, at most one operation on it, and its closing. Replies are values here: the fields that a
-- line of JSON shows, with strings as `print_json_string` prints them.
pub mod Release
pub mod Stored
use mem_sync.Base.{
  ℕ, zero, suc, ◌+◌, Bool, true, false, ◌&&◌, Option, none, some, List, [], ◌∷◌, ◌++◌, replicate,
  if◌then◌else◌,
}
use mem_sync.Bridge.{print_json_string, valid_key, valid_value, parse_ttl}
use mem_sync.Cache.{PutCalls, GetCalls, cache_put_ttl, cache_get}
use mem_sync.Modify.{UpdateCalls, cache_update, cache_delete}
use mem_sync.Layout.{CacheHeader, CacheEntry, Region, at, is_occupied, max_val_len}
use mem_sync.Lifecycle.{
  CacheMapping, Pointer, null, map_failed, mapped, Event, OpenCalls, unopened, cache_open_shared,
  cache_close_shared,
}
use mem_sync.Table.{cache_entry_expired}
use mem_sync.Text.{Bytes, read_cstr, strcmp_eq}

-- What `print_stats` shows.
pub record Stats : Type 0 where
  pub capacity : ℕ
  pub entries : ℕ
  pub hits : ℕ
  pub misses : ℕ
  pub collisions : ℕ

-- One object of the list that `list` prints.
pub record ListedItem : Type 0 where
  pub key : List ℕ
  pub value : List ℕ
  pub timestamp : ℕ
  pub ttl_seconds : ℕ
  pub expired : Bool

-- What goes to the standard output.
pub data Reply : Type 0 where
  nothing : Reply
  initialized : Bool → Reply
  stats : Stats → Reply
  items : List ListedItem → Stats → Reply
  found : List ℕ → ℕ → Reply
  not_found : Reply
  ok : Reply

-- What the environment answers: to the opening, to the bridge's own read lock, the time that is
-- read for each slot of a listing, and to the operations.
pub record CommandCalls : Type 0 where
  pub open_calls : OpenCalls
  pub read_lock : Bool
  pub now : ℕ → ℕ
  pub put : PutCalls
  pub get : GetCalls
  pub update : UpdateCalls
  pub delete_lock : Bool

-- "init" and the other commands.
unfoldable pub is_init : Bytes → Bool
is_init command = strcmp_eq command (b'i' ∷ b'n' ∷ b'i' ∷ b't' ∷ [])

unfoldable pub is_stats : Bytes → Bool
is_stats command = strcmp_eq command (b's' ∷ b't' ∷ b'a' ∷ b't' ∷ b's' ∷ [])

unfoldable pub is_list : Bytes → Bool
is_list command = strcmp_eq command (b'l' ∷ b'i' ∷ b's' ∷ b't' ∷ [])

unfoldable pub is_get : Bytes → Bool
is_get command = strcmp_eq command (b'g' ∷ b'e' ∷ b't' ∷ [])

unfoldable pub is_put : Bytes → Bool
is_put command = strcmp_eq command (b'p' ∷ b'u' ∷ b't' ∷ [])

unfoldable pub is_update : Bytes → Bool
is_update command = strcmp_eq command (b'u' ∷ b'p' ∷ b'd' ∷ b'a' ∷ b't' ∷ b'e' ∷ [])

unfoldable pub is_delete : Bytes → Bool
is_delete command = strcmp_eq command (b'd' ∷ b'e' ∷ b'l' ∷ b'e' ∷ b't' ∷ b'e' ∷ [])

unfoldable pub print_stats : CacheHeader → Stats
print_stats header = record {
  capacity = header.capacity;
  entries = header.entry_count;
  hits = header.total_hits;
  misses = header.total_misses;
  collisions = header.total_collisions;
}

unfoldable pub listed : CacheEntry → ℕ → ListedItem
listed entry now = record {
  key = print_json_string (read_cstr entry.key);
  value = print_json_string (read_cstr entry.value);
  timestamp = entry.timestamp;
  ttl_seconds = entry.ttl_seconds;
  expired = cache_entry_expired entry now;
}

-- The loop of `list` from slot `i` on.
unfoldable pub list_from : Region → (ℕ → ℕ) → ℕ → ℕ → List ListedItem
list_from r now zero i = []
list_from r now (suc n) i =
    let rest = list_from r now n (i + 1) in
    if is_occupied (at r i) then listed (at r i) (now i) ∷ rest else rest

-- The region that an operation on a region that is there returns.
abbrev pub region_of : Region → Option Region → Region
region_of r none = r
region_of r (some r') = r'

-- `result`, the reply, and the region after the operation.
abbrev pub Done : Type 0
Done = ℕ × Reply × Region

abbrev pub invalid : Region → Done
invalid r = (2, nothing, r)

-- The reply and result of an operation that returned a bool.
unfoldable pub answer : Region → Option Region × Bool → Done
answer r (r', true) = (0, ok, region_of r r')
answer r (r', false) = (1, nothing, region_of r r')

unfoldable pub answer_get : Region → Option Region × Option (List ℕ × ℕ) → Done
answer_get r (r', none) = (0, not_found, region_of r r')
answer_get r (r', some (value, timestamp)) =
    (0, found (print_json_string (read_cstr value)) timestamp, region_of r r')

unfoldable pub run_stats : Region → CommandCalls → Done
run_stats r calls =
    if calls.read_lock then (0, stats (print_stats r.header), r) else (1, nothing, r)

unfoldable pub run_list : Region → CommandCalls → Done
run_list r calls =
    if calls.read_lock
    then (0, items (list_from r calls.now r.header.capacity 0) (print_stats r.header), r)
    else (1, nothing, r)

unfoldable pub run_get : Region → Bytes → CommandCalls → Done
run_get r key calls =
    answer_get r (cache_get (some r) (some key) (some (replicate max_val_len 0)) calls.get)

unfoldable pub run_put : Region → Bytes → Bytes → Option ℕ → CommandCalls → Done
run_put r key value none calls = (1, nothing, r)
run_put r key value (some ttl) calls =
    answer r (cache_put_ttl (some r) (some key) (some value) ttl calls.put)

-- The arguments behind the command: the chain of conditions, by their number.
unfoldable pub dispatch : Region → Bytes → List Bytes → CommandCalls → Done
unfolding run_stats run_list run_get run_put
dispatch r command [] calls =
    if is_stats command
    then run_stats r calls
    else if is_list command
    then run_list r calls
    else invalid r
dispatch r command (key ∷ []) calls =
    if is_get command && valid_key (some key)
    then run_get r key calls
    else if is_delete command && valid_key (some key)
    then answer r (cache_delete (some r) (some key) calls.delete_lock)
    else invalid r
dispatch r command (key ∷ value ∷ []) calls =
    if is_put command && valid_key (some key) && valid_value (some value)
    then run_put r key value (some 0) calls
    else if is_update command && valid_key (some key) && valid_value (some value)
    then answer r (cache_update (some r) (some key) (some value) calls.update)
    else invalid r
dispatch r command (key ∷ value ∷ ttl ∷ []) calls =
    if is_put command && valid_key (some key) && valid_value (some value)
    then run_put r key value (parse_ttl ttl) calls
    else invalid r
dispatch r command (key ∷ value ∷ ttl ∷ more ∷ rest) calls = invalid r

-- The exit code, the reply, the region that was left if one was mapped, and the calls made to the
-- operating system.
pub record Outcome : Type 0 where
  pub code : ℕ
  pub reply : Reply
  pub region : Option Region
  pub events : List Event

abbrev pub mapped_region : Pointer → Option Region
mapped_region null = none
mapped_region map_failed = none
mapped_region (mapped r) = some r

-- `initialize_cache`, from the result of the opening on.
unfoldable pub initialize_with : Option CacheMapping × Bool × List Event → Outcome
initialize_with (some m, true, events) = record {
  code = 0;
  reply = initialized m.created;
  region = mapped_region m.base;
  events = events ++ (cache_close_shared (some m)).1;
}
initialize_with (_, _, events) = record {
  code = 1;
  reply = nothing;
  region = none;
  events = events;
}

unfoldable pub initialize_cache : ℕ → OpenCalls → Outcome
initialize_cache lock_size calls =
    initialize_with (cache_open_shared lock_size (some unopened) true none calls)

abbrev pub outcome_of : List Event → Done → Outcome
outcome_of events (code, reply, r) = record {
  code = code;
  reply = reply;
  region = some r;
  events = events;
}

-- The operation and the closing, on the region of an opened mapping, which is always there.
unfoldable pub operate_on : Bytes → List Bytes → CommandCalls → List Event → Option Region → Outcome
operate_on command args calls events none = record {
  code = 1;
  reply = nothing;
  region = none;
  events = events;
}
operate_on command args calls events (some r) = outcome_of events (dispatch r command args calls)

-- The other commands, from the result of the opening on.
unfoldable pub operate :
    Bytes → List Bytes → CommandCalls → Option CacheMapping × Bool × List Event → Outcome
unfolding operate_on
operate command args calls (some m, true, events) =
    operate_on command args calls (events ++ (cache_close_shared (some m)).1) (mapped_region m.base)
operate command args calls (_, _, events) = record {
  code = 1;
  reply = nothing;
  region = none;
  events = events;
}

unfoldable pub run_command : ℕ → Bytes → List Bytes → CommandCalls → Outcome
unfolding initialize_cache initialize_with operate
run_command lock_size command args calls =
    if is_init command
    then initialize_cache lock_size calls.open_calls
    else operate command args calls
        (cache_open_shared lock_size (some unopened) false none calls.open_calls)

-- `main`, with the arguments behind the program's name.
unfoldable pub main : ℕ → List Bytes → CommandCalls → Outcome
unfolding run_command
main lock_size [] calls = record { code = 2; reply = nothing; region = none; events = [] }
main lock_size (command ∷ args) calls = run_command lock_size command args calls
