-- ===== src/Demo/Exchange.antt =====
-- src/writer.cpp and src/reader.cpp: one process stores three items in the shared object, another one
-- reads them in five rounds. Between two calls of a process, `others` is what the other processes make
-- of the region.
use mem_sync.Base.{
  ℕ, zero, suc, ◌+◌, Bool, true, false, Option, none, some, List, [], ◌∷◌, ◌++◌, if◌then◌else◌,
}
use mem_sync.Cache.{PutCalls, GetCalls, cache_put, cache_get}
use mem_sync.Demo.{region_of, buffer_of, region_at}
use mem_sync.Layout.{Region}
use mem_sync.Lifecycle.{
  CacheMapping, Event, OpenCalls, unopened, cache_open_shared, cache_close_shared,
}
use mem_sync.Telemetry.{Doubles, Report, cache_print_telemetry}
use mem_sync.Text.{Bytes, read_cstr}

-- "db:user:1"
abbrev pub user_1 : Bytes
user_1 = b'd' ∷ b'b' ∷ b':' ∷ b'u' ∷ b's' ∷ b'e' ∷ b'r' ∷ b':' ∷ b'1' ∷ []

-- "Alice_Admin"
abbrev pub alice : Bytes
alice = b'A' ∷ b'l' ∷ b'i' ∷ b'c' ∷ b'e' ∷ b'_' ∷ b'A' ∷ b'd' ∷ b'm' ∷ b'i' ∷ b'n' ∷ []

-- "db:user:2"
abbrev pub user_2 : Bytes
user_2 = b'd' ∷ b'b' ∷ b':' ∷ b'u' ∷ b's' ∷ b'e' ∷ b'r' ∷ b':' ∷ b'2' ∷ []

-- "Bob_Operator"
abbrev pub bob : Bytes
bob = b'B' ∷ b'o' ∷ b'b' ∷ b'_' ∷ b'O' ∷ b'p' ∷ b'e' ∷ b'r' ∷ b'a' ∷ b't' ∷ b'o' ∷ b'r' ∷ []

-- "db:status"
abbrev pub status : Bytes
status = b'd' ∷ b'b' ∷ b':' ∷ b's' ∷ b't' ∷ b'a' ∷ b't' ∷ b'u' ∷ b's' ∷ []

-- "ACTIVE"
abbrev pub active : Bytes
active = b'A' ∷ b'C' ∷ b'T' ∷ b'I' ∷ b'V' ∷ b'E' ∷ []

abbrev pub keys : List Bytes
keys = user_1 ∷ user_2 ∷ status ∷ []

-- `keys` with `values`.
abbrev pub records : List (Bytes × Bytes)
records = (user_1, alice) ∷ (user_2, bob) ∷ (status, active) ∷ []

-- The answers to the `i`-th put and to the read lock behind it.
pub record WriterCalls : Type 0 where
  pub open_calls : OpenCalls
  pub others : ℕ → Region → Region
  pub put : ℕ → PutCalls
  pub others_after : ℕ → Region → Region
  pub read_lock : ℕ → Bool

-- A line of the writer: the key, whether the put succeeded, and the number of entries.
abbrev pub PutLine : Type 0
PutLine = Bytes × Bool × ℕ

-- The loop from put `i` on: the lines, and whether every read lock was granted.
unfoldable pub write_from :
    Region → List (Bytes × Bytes) → WriterCalls → ℕ → Region × List PutLine × Bool
write_from r [] calls i = (r, [], true)
write_from r ((key, value) ∷ rest) calls i =
    let before = calls.others i r in
    let (o, done) = cache_put (some before) (some key) (some value) (calls.put i) in
    let after = calls.others_after i (region_of before o) in
    let (r', lines, ok) = write_from after rest calls (i + 1) in
    if calls.read_lock i
    then (r', (key, done, after.header.entry_count) ∷ lines, ok)
    else (after, [], false)

-- `attached` is the first line: `mapping.created` with the capacity.
pub record WriterOutcome : Type 0 where
  pub code : ℕ
  pub attached : Option (Bool × ℕ)
  pub lines : List PutLine
  pub region : Option Region
  pub events : List Event

unfoldable pub write_all : List Event → CacheMapping → WriterCalls → Option Region → WriterOutcome
unfolding write_from
write_all events m calls none = record {
  code = 1;
  attached = none;
  lines = [];
  region = none;
  events = events;
}
write_all events m calls (some r) =
    let (r', lines, ok) = write_from r records calls 0 in
    record {
      code = if ok then 0 else 1;
      attached = some (m.created, r.header.capacity);
      lines = lines;
      region = some r';
      events = events ++ (cache_close_shared (some m)).1;
    }

-- From the result of the opening on.
unfoldable pub write_opened : WriterCalls → Option CacheMapping × Bool × List Event → WriterOutcome
unfolding write_all
write_opened calls (some m, true, events) = write_all events m calls (region_at m.base)
write_opened calls (_, _, events) = record {
  code = 1;
  attached = none;
  lines = [];
  region = none;
  events = events;
}

unfoldable pub writer_main : ℕ → WriterCalls → WriterOutcome
unfolding write_opened
writer_main lock_size calls =
    write_opened calls (cache_open_shared lock_size (some unopened) true none calls.open_calls)

-- The answers to the `i`-th get of a round, and to the report behind the round. `garbage` is what the
-- buffer `value` holds before the first get.
pub record ReaderCalls : Type 0 where
  pub open_calls : OpenCalls
  pub garbage : List ℕ
  pub others : ℕ → ℕ → Region → Region
  pub get : ℕ → ℕ → GetCalls
  pub telemetry_lock : ℕ → Bool

-- A line of the reader: the key, with the value and its time, or a miss.
abbrev pub GetLine : Type 0
GetLine = Bytes × Option (Bytes × ℕ)

abbrev pub get_line : Bytes → Option (List ℕ × ℕ) → GetLine
get_line key none = (key, none)
get_line key (some (value, timestamp)) = (key, some (read_cstr value, timestamp))

-- The gets of a round from get `i` on: the lines, the region, and the buffer.
unfoldable pub read_keys :
    Region → List ℕ → List Bytes → ReaderCalls → ℕ → ℕ → Region × List ℕ × List GetLine
read_keys r value [] calls tick i = (r, value, [])
read_keys r value (key ∷ rest) calls tick i =
    let before = calls.others tick i r in
    let (o, result) = cache_get (some before) (some key) (some value) (calls.get tick i) in
    let (r', value', lines) =
      read_keys (region_of before o) (buffer_of value result) rest calls tick (i + 1) in
    (r', value', get_line key result ∷ lines)

module _ {D : Type 0} (d : Doubles D) where
  -- The rounds that are left: the lines of each with its report.
  unfoldable pub read_ticks :
      Region → List ℕ → ReaderCalls → ℕ → ℕ → Region × List (List GetLine × Option (Report D))
  unfolding read_keys
  read_ticks r value calls zero tick = (r, [])
  read_ticks r value calls (suc n) tick =
      let (r', value', lines) = read_keys r value keys calls tick 0 in
      let report = cache_print_telemetry d (some r') (calls.telemetry_lock tick) in
      let (r'', ticks) = read_ticks r' value' calls n (tick + 1) in (r'', (lines, report) ∷ ticks)

  pub record ReaderOutcome : Type 0 where
    pub code : ℕ
    pub ticks : List (List GetLine × Option (Report D))
    pub events : List Event

  unfoldable pub read_all : List Event → CacheMapping → ReaderCalls → Option Region → ReaderOutcome
  unfolding read_ticks
  read_all events m calls none = record { code = 1; ticks = []; events = events }
  read_all events m calls (some r) =
      let (r', ticks) = read_ticks r calls.garbage calls 5 0 in
      record { code = 0; ticks = ticks; events = events ++ (cache_close_shared (some m)).1 }

  -- From the result of the opening on.
  unfoldable pub read_opened : ReaderCalls → Option CacheMapping × Bool × List Event → ReaderOutcome
  unfolding read_all
  read_opened calls (some m, true, events) = read_all events m calls (region_at m.base)
  read_opened calls (_, _, events) = record { code = 1; ticks = []; events = events }

  unfoldable pub reader_main : ℕ → ReaderCalls → ReaderOutcome
  unfolding read_opened
  reader_main lock_size calls =
      read_opened calls (cache_open_shared lock_size (some unopened) false none calls.open_calls)
