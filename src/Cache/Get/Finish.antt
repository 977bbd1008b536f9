-- ===== src/Cache/Get/Finish.antt =====
-- The whole of a `cache_get` with valid arguments.
use mathlib.Core.Path.{subst}
use mem_sync.Base.{
  ℕ, ◌≡◌, refl, sym, ap, ◌∙◌, ◌⊎◌, inl, inr, Bool, true, false, ◌&&◌, Option, none, some, List,
  arith, length, replicate, length-replicate, if◌then◌else◌, Bool-cases, add64,
}
use mem_sync.Layout.{CacheEntry, Region, max_val_len}
use mem_sync.Table.{remove_entry, cache_entry_expired, add_get_metrics, add_telemetry}
use mem_sync.Table.View.{find_entry, find_entry-some}
use mem_sync.Table.Invariant.{IsEntry, IsValid}
use mem_sync.Table.Collisions.{extra_of}
use mem_sync.Cache.{
  GetCalls, ReadResult, miss, live, expired, value_copy, read_locked, remove_if_expired,
  remove_expired, get_finish, copy_string,
}
use mem_sync.Cache.Store.{read_cstr-copy_string}
use mem_sync.Text.{Bytes, read_cstr}
use mem_sync.Text.Laws.{length-read_cstr_of_nul, read_cstr-IsCString}
use mem_sync.Cache.Get.{reading, read_locked-reading}
use mem_sync.Cache.Get.Remove.{cleaned, remove_if_expired-Cleans}

abbrev pub is_live : ReadResult → Bool
is_live (miss n) = false
is_live (live value ts n) = true
is_live (expired n) = false

abbrev pub is_expired : ReadResult → Bool
is_expired (miss n) = false
is_expired (live value ts n) = false
is_expired (expired n) = true

abbrev pub collisions_of : ReadResult → ℕ
collisions_of (miss n) = n
collisions_of (live value ts n) = n
collisions_of (expired n) = n

-- What a call returns for the entry that is stored under the key: nothing without one or for an
-- expired one; else its value, as a terminated string, and its time.
abbrev pub Returns : ℕ → Option CacheEntry → Option (List ℕ × ℕ) → Type 0
Returns now none result = result ≡ none
Returns now (some e) result =
    ((cache_entry_expired e now ≡ true) × (result ≡ none))
    ⊎ ((cache_entry_expired e now ≡ false)
        × ((buf : List ℕ) × (result ≡ some (buf, e.timestamp))
            × (read_cstr buf ≡ read_cstr e.value)))

-- The value goes through two buffers unharmed.
pub value_copy_lem :
    (e : CacheEntry) (out : List ℕ)
    → IsEntry e
    → length out ≡ max_val_len
    → read_cstr (copy_string out (read_cstr (value_copy e)) max_val_len) ≡ read_cstr e.value
unfolding value_copy
value_copy_lem e out ok sized =
    let short = length-read_cstr_of_nul e.value 255 ok.value_end in
    let string = read_cstr-IsCString e.value in
    let first =
      read_cstr-copy_string (replicate max_val_len 0) (read_cstr e.value) 255
        (length-replicate max_val_len 0) short string in
    rw first (read_cstr-copy_string out (read_cstr e.value) 255 sized short string)

-- The telemetry that a call leaves: one hit or one miss, and its collisions.
pub record Counts (r r' : Region) (found : Bool) (n : ℕ) : Type 0 where
  pub hits :
      r'.header.total_hits ≡ (if found then add64 r.header.total_hits 1 else r.header.total_hits)
  pub misses :
      r'.header.total_misses
      ≡ (if found then r.header.total_misses else add64 r.header.total_misses 1)
  pub collisions : r'.header.total_collisions ≡ add64 r.header.total_collisions n

metrics-IsValid :
    (r : Region) (found : Bool) (n : ℕ) (locked : Bool)
    → IsValid r
    → IsValid (add_get_metrics r found n locked).0
unfolding add_get_metrics
metrics-IsValid r found n true v = counted found
  where
    counted : (b : Bool) → IsValid (add_telemetry r b n)
    counted true = record { table = v.table; counted = v.counted }
    counted false = record { table = v.table; counted = v.counted }
metrics-IsValid r found n false v = v

metrics-slots :
    (r : Region) (found : Bool) (n : ℕ) (locked : Bool)
    → (add_get_metrics r found n locked).0.slots ≡ r.slots
unfolding add_get_metrics
metrics-slots r found n true = refl
metrics-slots r found n false = refl

metrics-Counts :
    (r : Region) (found : Bool) (n : ℕ) → Counts r (add_get_metrics r found n true).0 found n
unfolding add_get_metrics
metrics-Counts r true n = record { hits = refl; misses = refl; collisions = refl }
metrics-Counts r false n = record { hits = refl; misses = refl; collisions = refl }

remove_if_expired-counters :
    (r : Region) (key : Bytes) (now : ℕ)
    → ((remove_if_expired r key now).header.total_hits ≡ r.header.total_hits)
      × ((remove_if_expired r key now).header.total_misses ≡ r.header.total_misses)
      × ((remove_if_expired r key now).header.total_collisions ≡ r.header.total_collisions)
unfolding remove_if_expired remove_entry
remove_if_expired-counters r key now = ground arith

-- The second critical section, on the region `r` as other processes left it and with any result of
-- the first. After an expired read it
-- removes the entry of the key if that is expired still; in each case it counts the call.
pub record Finishes (r : Region) (key : Bytes) (read : ReadResult) (calls : GetCalls) (r' : Region)
    : Type 0 where
  pub valid : IsValid r'
  pub entries :
      (q : Bytes)
      → find_entry q r'.slots ≡ (
          if is_expired read && calls.write_lock
          then cleaned key calls.remove_time (λ k. find_entry k r.slots) q
          else find_entry q r.slots)
  pub counts : calls.write_lock ≡ true → Counts r r' (is_live read) (collisions_of read)

remove_expired-Finishes :
    (r : Region) (key : Bytes) (n : ℕ) (calls : GetCalls)
    → calls.write_lock ≡ true
    → IsValid r
    → Finishes r key (expired n) calls (remove_expired r key n calls.remove_time)
unfolding remove_expired
remove_expired-Finishes r key n calls got v =
    let (valid, entries) = remove_if_expired-Cleans r key calls.remove_time v in
    let (hits, misses, collisions) = remove_if_expired-counters r key calls.remove_time in
    record {
      valid = record { table = valid.table; counted = valid.counted };
      entries = λ q. entries q ∙ (rw got);
      counts = λ h. record {
        hits = hits;
        misses = ap (λ k. add64 k 1) misses;
        collisions = ap (λ k. add64 k n) collisions;
      };
    }

pub get_finish-Finishes :
    (r : Region) (key : Bytes) (out : List ℕ) (read : ReadResult) (calls : GetCalls)
    → IsValid r
    → Finishes r key read calls (get_finish r key out read calls).0
unfolding get_finish
get_finish-Finishes r key out (miss n) calls v = record {
  valid = metrics-IsValid r false n calls.write_lock v;
  entries = λ q. ap (find_entry q) (metrics-slots r false n calls.write_lock);
  counts = λ h. rw h (metrics-Counts r false n);
}
get_finish-Finishes r key out (live value ts n) calls v = record {
  valid = metrics-IsValid r true n calls.write_lock v;
  entries = λ q. ap (find_entry q) (metrics-slots r true n calls.write_lock);
  counts = λ h. rw h (metrics-Counts r true n);
}
get_finish-Finishes r key out (expired n) calls v =
    let chosen = λ (b : Bool). if b then remove_expired r key n calls.remove_time else r in
    elim (Bool-cases calls.write_lock) [
      | inl got ↦
          subst (λ b. Finishes r key (expired n) calls (chosen b)) (sym got)
            (remove_expired-Finishes r key n calls got v)
      | inr failed ↦
          subst (λ b. Finishes r key (expired n) calls (chosen b)) (sym failed)
            (record { valid = v; entries = λ q. (rw failed); counts = λ h. cc (sym h, failed) })
    ]

-- A stored entry has well-formed buffers.
pub found-IsEntry :
    (r : Region) (key : Bytes) (e : CacheEntry)
    → IsValid r
    → find_entry key r.slots ≡ some e
    → IsEntry e
found-IsEntry r key e v h =
    let (i, same, m) = find_entry-some key r.slots e h in subst IsEntry same (v.table.entries i)

-- The result depends on the first critical section alone.
pub get_finish-Returns :
    (r r' : Region) (key : Bytes) (out : List ℕ) (calls : GetCalls)
    → IsValid r
    → length out ≡ max_val_len
    → Returns calls.read_time
        (find_entry key r.slots)
        (get_finish r' key out (read_locked r key calls.read_time) calls).1
unfolding get_finish
get_finish-Returns r r' key out calls v sized =
    rw (read_locked-reading r key calls.read_time v) (answer (find_entry key r.slots) refl)
  where
    answer :
        (o : Option CacheEntry)
        → find_entry key r.slots ≡ o
        → Returns calls.read_time o
            (get_finish r' key out (reading calls.read_time (extra_of r key) o) calls).1
    answer none e = refl
    answer (some f) e = elim (Bool-cases (cache_entry_expired f calls.read_time)) [
      | inl old ↦ inl (old, (rw (old, reading)))
      | inr new ↦
          inr (
            new,
            (_, rw (new, reading) refl, value_copy_lem f out (found-IsEntry r key f v e) sized),
          )
    ]
