-- ===== src/Sharing.antt =====
-- The region as its processes share it: the exclusive lock makes each critical section that writes
-- one step, and the steps of the processes interleave in any order. Sections under the shared lock
-- change nothing and are no steps.
pub mod Kept
pub mod Reachable
pub mod View
pub mod Refine
use mem_sync.Base.{ℕ, ◌≡◌, ◌<◌, length, List, Bool, Option}
use mem_sync.Layout.{Region, max_val_len}
use mem_sync.Cache.{Item, PutCalls, GetCalls, ReadResult, put_locked, get_finish}
use mem_sync.Modify.{UpdateCalls, update_locked, delete_locked}
use mem_sync.Cache.Store.{IsItem}
use mem_sync.Text.{Bytes, IsCString}

-- A put and an update run with arguments that passed their checks. A get's second section acts on the result of a first one that ran at some earlier region, so any
-- result may come with it.
pub data Step : Region → Region → Type 0 where
  put :
      (r : Region) (item : Item) (calls : PutCalls)
      → IsItem item
      → Step r (put_locked r item calls).0
  update :
      (r : Region) (key value : Bytes) (calls : UpdateCalls)
      → length value < max_val_len
      → IsCString value
      → Step r (update_locked r key value calls).0
  delete : (r : Region) (key : Bytes) → Step r (delete_locked r key).0
  finish :
      (r : Region) (key : Bytes) (out : List ℕ) (read : ReadResult) (calls : GetCalls)
      → Step r (get_finish r key out read calls).0

pub data Reach (r : Region) : Region → Type 0 where
  here : Reach r r
  next : {s t : Region} → Reach r s → Step s t → Reach r t
