-- ===== src/Spec.antt =====
-- What the cache promises, with no table: a map from keys to cells that expire, and the changes that
-- one action of one process makes to it.
use mem_sync.Base.{
  ℕ, ◌+◌, ◌≤◌, ◌≡◌, Bool, true, false, ◌&&◌, Option, none, some, List, [], ◌∷◌, ltb, leb,
  if◌then◌else◌,
}
use mem_sync.Text.{Bytes, strcmp_eq}

pub record Cell : Type 0 where
  pub value : Bytes
  pub written : ℕ
  pub ttl : ℕ

abbrev pub Map : Type 0
Map = Bytes → Option Cell

-- A cell with a duration is due once that long has passed since it was written.
unfoldable pub is_due : Cell → ℕ → Bool
is_due c now = ltb 0 c.ttl && leb (c.written + c.ttl) now

unfoldable pub undue : ℕ → Option Cell → Option Cell
undue now none = none
undue now (some c) = if is_due c now then none else some c

-- An update at `check_time`: a cell that is due goes, another one has the value and the time of the
-- write, and keeps its duration.
unfoldable pub rewritten : Bytes → ℕ → ℕ → Option Cell → Option Cell
rewritten value check_time write_time none = none
rewritten value check_time write_time (some c) =
    if is_due c check_time then none else some (record c { value = value; written = write_time })

-- What becomes of the other keys when `key` is stored: all stay; or all but those that are due, if
-- there are any; or, with none that is due, all but one that was written first. Only a key that was
-- not stored displaces others.
pub data Displaces (key : Bytes) (reclaim_time : ℕ) (m m' : Map) : Type 0 where
  none_lost : ((q : Bytes) → strcmp_eq key q ≡ false → m' q ≡ m q) → Displaces key reclaim_time m m'
  due_lost :
      m key ≡ none
      → (q : Bytes) × (c : Cell) × (m q ≡ some c) × (is_due c reclaim_time ≡ true)
      → ((q : Bytes) → strcmp_eq key q ≡ false → m' q ≡ undue reclaim_time (m q))
      → Displaces key reclaim_time m m'
  first_lost :
      m key ≡ none
      → ((q : Bytes) (c : Cell) → m q ≡ some c → is_due c reclaim_time ≡ false)
      → (victim : Bytes) (v : Cell) → m victim ≡ some v
      → ((q : Bytes) (c : Cell) → m q ≡ some c → v.written ≤ c.written)
      → ((q : Bytes) → strcmp_eq key q ≡ false → m' q ≡ (if strcmp_eq victim q then none else m q))
      → Displaces key reclaim_time m m'

-- What a process does to the map in one step: a put of a cell, with the time at which it looks for
-- cells that are due; an update, with the times of its check and of its write; a delete; the removal of
-- a cell that is due; or nothing.
pub data Action : Type 0 where
  put : Bytes → Cell → ℕ → Action
  update : Bytes → Bytes → ℕ → ℕ → Action
  delete : Bytes → Action
  expire : Bytes → ℕ → Action
  skip : Action

-- The change that an action makes. Only a put leaves a choice, between cells that are as old.
abbrev pub MapStep : Action → Map → Map → Type 0
MapStep (put key c reclaim_time) m m' = (m' key ≡ some c) × Displaces key reclaim_time m m'
MapStep (update key value check_time write_time) m m' =
    (q : Bytes)
    → m' q ≡ (if strcmp_eq key q then rewritten value check_time write_time (m key) else m q)
MapStep (delete key) m m' = (q : Bytes) → m' q ≡ (if strcmp_eq key q then none else m q)
MapStep (expire key now) m m' =
    (q : Bytes) → m' q ≡ (if strcmp_eq key q then undue now (m key) else m q)
MapStep skip m m' = (q : Bytes) → m' q ≡ m q

-- The changes of a list of actions, the last one first.
pub data MapReach (m : Map) : List Action → Map → Type 0 where
  here : MapReach m [] m
  next :
      {actions : List Action} {m' m'' : Map} {action : Action}
      → MapReach m actions m'
      → MapStep action m' m''
      → MapReach m (action ∷ actions) m''
