-- ===== src/Demo/Alone.antt =====
-- A `cache_get` that no other process comes between, with the caller's buffer.
use mathlib.Core.Path.{subst}
use mem_sync.Base.{
  ℕ, ◌≡◌, refl, true, false, ◌&&◌, Option, none, some, List, length, inl, inr, Bool-cases,
}
use mem_sync.Cache.{
  GetCalls, cache_get, valid_key_argument, ReadResult, miss, live, expired, read_locked, get_finish,
}
use mem_sync.Cache.Store.{length-copy_string}
use mem_sync.Contract.Reference.{Represents, with_cell, after_get}
use mem_sync.Contract.Reads.{get-Represents}
use mem_sync.Demo.{buffer_of, was_found}
use mem_sync.Layout.{Region, max_val_len}
use mem_sync.Sharing.View.{shown, readable}
use mem_sync.Spec.{Map, undue}
use mem_sync.Text.{Bytes, read_cstr}

-- A get that no other process comes between, with both locks.
pub record IsAlone (calls : GetCalls) : Type 0 where
  pub read_lock : calls.read_lock ≡ true
  pub write_lock : calls.write_lock ≡ true
  pub between : (r : Region) → calls.between r ≡ r

-- A get whose answer the map knows: what was found, and the text in the buffer.
pub got_some :
    (out : List ℕ) (result : Option (List ℕ × ℕ)) (s : Bytes) (t : ℕ)
    → shown result ≡ some (s, t)
    → (was_found result ≡ true) × (read_cstr (buffer_of out result) ≡ s)
got_some out none s t h = cc
got_some out (some (buf, time)) s t h = (refl, cc)

pub got_none :
    (out : List ℕ) (result : Option (List ℕ × ℕ)) → shown result ≡ none → was_found result ≡ false
got_none out none h = refl
got_none out (some (buf, time)) h = cc

finish_length :
    (r : Region) (key : Bytes) (out : List ℕ) (read : ReadResult) (calls : GetCalls)
    → length out ≡ max_val_len
    → length (buffer_of out (get_finish r key out read calls).1) ≡ max_val_len
unfolding get_finish
finish_length r key out (miss n) calls h = h
finish_length r key out (expired n) calls h = h
finish_length r key out (live value ts n) calls h = length-copy_string out (read_cstr value) 255 h

-- The caller's buffer keeps its size.
pub length-buffer_of :
    (r : Region) (key : Bytes) (out : List ℕ) (calls : GetCalls)
    → length out ≡ max_val_len
    → length (buffer_of out (cache_get (some r) (some key) (some out) calls).1) ≡ max_val_len
unfolding cache_get
length-buffer_of r key out calls h =
    elim (Bool-cases (valid_key_argument (some key) && calls.read_lock)) [
      | inl go ↦
          rw go
            (finish_length (calls.between r) key out (read_locked r key calls.read_time) calls h)
      | inr stop ↦ rw stop h
    ]

-- A get that is alone, on a region that represents a map.
pub get-alone :
    (r : Region) (capacity n : ℕ) (m : Map) (key : Bytes) (out : List ℕ) (calls : GetCalls)
    → Represents r capacity n m
    → valid_key_argument (some key) ≡ true
    → IsAlone calls
    → length out ≡ max_val_len
    → (r' : Region) × (result : Option (List ℕ × ℕ)) × (cache_get
          (some r)
          (some key)
          (some out)
          calls
        ≡ (some r', result))
      × (shown result ≡ readable (undue calls.read_time (m key)))
      × Represents r' capacity n (with_cell key (after_get calls (m key)) m)
      × (length (buffer_of out result) ≡ max_val_len)
get-alone r capacity n m key out calls h ok alone sized =
    let (r', result, run, seen, h') =
      get-Represents r capacity n m key out calls h ok alone.read_lock alone.write_lock
        (alone.between r) sized in
    let kept =
      subst (λ (p : Option Region × Option (List ℕ × ℕ)). length (buffer_of out p.1) ≡ max_val_len)
        run (length-buffer_of r key out calls sized) in
    (r', result, run, seen, h', kept)
