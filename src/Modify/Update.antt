-- ===== src/Modify/Update.antt =====
-- `cache_update` on every branch.
use mem_sync.Base.{
  ℕ, zero, suc, ◌+◌, ◌<◌, ◌≡◌, refl, sym, ap, ◌∙◌, inl, inr, Bool, true, false, Option, none, some,
  arith, length, set, if◌then◌else◌, Bool-cases, add64,
}
use mem_sync.Layout.{CacheEntry, Region, matches, at, is_occupied, max_val_len}
use mem_sync.Table.{probe, remove_entry, cache_entry_expired}
use mem_sync.Table.View.{find_entry, find_entry-set, is_occupied_of_matches, occupied_of_matches}
use mem_sync.Table.Keys.{matches-eq-strcmp_eq, without_absent, is_some}
use mem_sync.Table.Invariant.{IsEntry, IsValid, Fits, set-IsTable, count_occupied-set, probe-lt}
use mem_sync.Table.Walk.{
  Outcome, hit, gap, full, walk, seen, Ends, Answers, full_walk-Ends, Ends-Answers,
}
use mem_sync.Table.Search.{state_cases}
use mem_sync.Table.Collisions.{extra_of, walk_of}
use mem_sync.Table.Remove.{remove_entry-IsValid}
use mem_sync.Cache.{add_collisions}
use mem_sync.Modify.{UpdateCalls, refreshed, update_found, update_from, update_locked, last_round}
use mem_sync.Modify.Delete.{remove_found-entries}
use mem_sync.Cache.Put.Place.{add_collisions-IsValid}
use mem_sync.Cache.Store.{read_cstr-copy_string, length-copy_string, copy_string_end}
use mem_sync.Text.{Bytes, IsCString, read_cstr, strcmp_eq}

-- The entry under the key after an update: an expired one goes, a live one has the new value.
abbrev pub revised : Bytes → UpdateCalls → Option CacheEntry → Option CacheEntry
revised value calls none = none
revised value calls (some e) =
    if cache_entry_expired e calls.check_time
    then none
    else some (refreshed e value calls.write_time)

matches-refreshed :
    (e : CacheEntry) (value q : Bytes) (now : ℕ) → matches (refreshed e value now) q ≡ matches e q
unfolding matches refreshed
matches-refreshed e value q now = refl

is_occupied-refreshed :
    (e : CacheEntry) (value : Bytes) (now : ℕ) → is_occupied (refreshed e value now) ≡ is_occupied e
unfolding is_occupied refreshed
is_occupied-refreshed e value now = refl

-- A refreshed entry has the new value and time, and the key and duration that it had.
pub refreshed_lem :
    (e : CacheEntry) (value : Bytes) (now : ℕ)
    → IsEntry e
    → length value < max_val_len
    → IsCString value
    → (read_cstr (refreshed e value now).value ≡ value)
      × (read_cstr (refreshed e value now).key ≡ read_cstr e.key)
      × ((refreshed e value now).timestamp ≡ now)
      × ((refreshed e value now).ttl_seconds ≡ e.ttl_seconds)
unfolding refreshed
refreshed_lem e value now ok short string =
    (read_cstr-copy_string e.value value 255 ok.value_size (omega arith) string, refl, refl, refl)

refreshed-IsEntry :
    (e : CacheEntry) (value : Bytes) (now : ℕ) → IsEntry e → IsEntry (refreshed e value now)
unfolding refreshed
refreshed-IsEntry e value now ok = record {
  key_size = ok.key_size;
  value_size = length-copy_string e.value value 255 ok.value_size;
  key_end = ok.key_end;
  value_end = copy_string_end e.value value 255 ok.value_size;
  named = ok.named;
}

module _ (r : Region) (key value : Bytes) (calls : UpdateCalls) where
  abbrev update_at : Outcome → Region × Bool
  update_at (hit j) = update_found (add_collisions r j) (probe r.header.capacity key j) value calls
  update_at (gap j) = (add_collisions r j, false)
  update_at full = (add_collisions r (last_round r), false)

  update_from-walk :
      (n i : ℕ)
      → update_from r key value calls n i ≡ update_at (walk r.header.capacity r.slots key n i)
  unfolding update_from walk
  update_from-walk zero i = refl
  update_from-walk (suc n) i = elim (state_cases (seen r.header.capacity r.slots key i).state) [
    | inl (inl p) ↦ rw (p, update_from, walk)
    | inl (inr p) ↦ elim (Bool-cases (matches (seen r.header.capacity r.slots key i) key)) [
      | inl m ↦ rw (p, m, update_from, walk)
      | inr m ↦ rw (p, m, update_from, walk) (update_from-walk n (i + 1))
    ]
    | inr p ↦ elim (Bool-cases (matches (seen r.header.capacity r.slots key i) key)) [
      | inl m ↦ rw (p, m, update_from, walk)
      | inr m ↦ rw (p, m, update_from, walk) (update_from-walk n (i + 1))
    ]
  ]

  -- What an update must come to.
  pub record Updated (result : Region × Bool) : Type 0 where
    pub valid : IsValid result.0
    pub done : result.1 ≡ is_some (revised value calls (find_entry key r.slots))
    pub entries :
        (q : Bytes)
        → find_entry q result.0.slots ≡ (
            if strcmp_eq key q
            then revised value calls (find_entry key r.slots)
            else find_entry q r.slots)
    pub collisions :
        result.0.header.total_collisions ≡ add64 r.header.total_collisions (extra_of r key)

  module _ (v : IsValid r) where
    module _ (x : ℕ) (h : x < r.header.capacity) (m : matches (at r x) key ≡ true) where
      abbrev fresh_entry : CacheEntry
      fresh_entry = refreshed (at r x) value calls.write_time

      refreshed-Fits : Fits r.header.capacity r.slots x fresh_entry
      refreshed-Fits = record {
        inside = h;
        not_empty = λ p. absurd (
            ground (
              arith,
              occupied_of_matches fresh_entry key
                  (matches-refreshed (at r x) value key calls.write_time ∙ m),
              p,
            ));
        fresh = λ q j n found. elim (Bool-cases (matches (at r j) q)) [
          | inr absent ↦ absent
          | inl there ↦ absurd (
              n (
                v.table.unique q j x there
                  (sym (matches-refreshed (at r x) value q calls.write_time) ∙ found)))
        ];
        entry = refreshed-IsEntry (at r x) value calls.write_time (v.table.entries x);
        reachable = λ q d k hd e found hk.
            v.table.chained q d k hd
              (rw e (sym (matches-refreshed (at r x) value q calls.write_time) ∙ found)) hk;
      }

      x_lt : x < length r.slots
      x_lt = omega (arith, v.table.sized)

      refreshed-entries :
          (q : Bytes)
          → find_entry q (set r.slots x fresh_entry)
            ≡ (if strcmp_eq key q then some fresh_entry else find_entry q r.slots)
      refreshed-entries q = ground (
        arith,
        find_entry-set r.slots x fresh_entry x_lt v.table.unique refreshed-Fits.fresh q,
        matches-refreshed (at r x) value q calls.write_time,
        matches-eq-strcmp_eq (at r x) key q m,
      )

      refreshed-IsValid : IsValid (record r { slots = set r.slots x fresh_entry })
      refreshed-IsValid = record {
        table = set-IsTable v.table refreshed-Fits;
        counted =
            let same = is_occupied-refreshed (at r x) value calls.write_time in
            omega (arith, v.counted, rw same at (count_occupied-set r.slots x fresh_entry x_lt));
      }

    -- The slot `x` stores the key: both outcomes of the expiry test.
    found-Updated :
        (j : ℕ)
        → (h : probe r.header.capacity key j < r.header.capacity)
        → (m : matches (seen r.header.capacity r.slots key j) key ≡ true)
        → find_entry key r.slots ≡ some (seen r.header.capacity r.slots key j)
        → extra_of r key ≡ j
        → Updated (update_found (add_collisions r j) (probe r.header.capacity key j) value calls)
    unfolding update_found add_collisions remove_entry
    found-Updated j h m stored count =
        let x = probe r.header.capacity key j in
        elim (Bool-cases (cache_entry_expired (at r x) calls.check_time)) [
          | inl old ↦ rw old (record {
            valid =
                remove_entry-IsValid (add_collisions r j) x (add_collisions-IsValid r j v) h
                  (is_occupied_of_matches _ key m);
            done = rw (stored, revised, old);
            entries = λ q. remove_found-entries r key v x h m q ∙ (rw (stored, revised, old));
            collisions = rw count;
          })
          | inr new ↦ rw new (record {
            valid = record {
              table = (refreshed-IsValid x h m).table;
              counted = (refreshed-IsValid x h m).counted;
            };
            done = rw (stored, revised, new);
            entries = λ q. refreshed-entries x h m q ∙ (rw (stored, revised, new));
            collisions = rw count;
          })
        ]

    kept :
        (q : Bytes)
        → find_entry key r.slots ≡ none
        → find_entry q r.slots ≡ (
            if strcmp_eq key q
            then revised value calls (find_entry key r.slots)
            else find_entry q r.slots)
    kept q absent = without_absent key q (λ k. find_entry k r.slots) absent ∙ (rw absent)

    update_at-Updated :
        (o : Outcome)
        → walk_of r key ≡ o
        → Ends r.header.capacity r.slots key o
        → Answers r.header.capacity r.slots key v.table o
        → Updated (update_at o)
    unfolding add_collisions extra_of
    update_at-Updated (hit j) e ends a =
        found-Updated j (probe-lt r.header.capacity v.table.positive v.table.small key j) ends.1 a
          (rw e)
    update_at-Updated (gap j) e ends a = record {
      valid = add_collisions-IsValid r j v;
      done = rw a;
      entries = λ q. kept q a;
      collisions = rw e;
    }
    update_at-Updated full e ends a = record {
      valid = add_collisions-IsValid r (last_round r) v;
      done = rw a;
      entries = λ q. kept q a;
      collisions =
          rw e
            (ap (add64 r.header.total_collisions) (omega (arith, v.table.small, v.table.positive)));
    }

    -- An update under the lock changes the entry under the key and nothing else: a live one is
    -- refreshed, an expired one removed, and the result says if it was refreshed.
    pub update_locked-Updated : Updated (update_locked r key value calls)
    unfolding update_locked
    update_locked-Updated = rw (update_from-walk r.header.capacity 0) (
        update_at-Updated (walk_of r key) refl (full_walk-Ends r.header.capacity r.slots key) (
          Ends-Answers r.header.capacity r.slots key v.table (walk_of r key)
            (full_walk-Ends r.header.capacity r.slots key)))
