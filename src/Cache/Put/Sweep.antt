-- ===== src/Cache/Put/Sweep.antt =====
-- A put after `reclaim_expired`, told of the region before it.
use mathlib.Core.Path.{subst}
use mem_sync.Base.{
  ℕ, ◌<◌, ◌≡◌, ◌≢◌, refl, ap, ◌∙◌, inl, inr, true, false, Option, none, some, arith, if◌then◌else◌,
  Bool-cases,
}
use mem_sync.Layout.{occupied, CacheEntry, Region, matches, at}
use mem_sync.Table.{reclaim_expired}
use mem_sync.Table.View.{
  find_entry, find_entry_of_matches, find_entry-some, lt_of_matches, is_occupied_of_matches,
}
use mem_sync.Table.Invariant.{IsValid, probe-lt}
use mem_sync.Table.Search.{IsPlace, HasNoPlace}
use mem_sync.Table.Reclaim.{
  is_stale, swept, unexpired, reclaim_expired-IsValid, capacity-reclaim_expired, at-reclaim_expired,
  find_entry-reclaim_expired,
}
use mem_sync.Table.Evict.{IsOldest}
use mem_sync.Cache.{Item, PutCalls, put_reclaimed}
use mem_sync.Cache.Store.{IsItem}
use mem_sync.Text.{Bytes}
use mem_sync.Cache.Put.{Kept, reclaimed, evicted, Stores-congr}
use mem_sync.Cache.Put.Evict.{all_occupied, put_reclaimed-Stores, state-removed}

module _ (item : Item) (ok : IsItem item) where
  -- The region after `reclaim_expired`, told of the region before.
  module _ (r : Region) (calls : PutCalls) (v : IsValid r) (none_left : HasNoPlace r item.key) where
    not_stale :
        (j : ℕ)
        → j < r.header.capacity
        → (at (reclaim_expired r calls.reclaim_time) j).state ≡ occupied
        → is_stale (at r j) calls.reclaim_time ≡ false
    not_stale j h occ = elim (Bool-cases (is_stale (at r j) calls.reclaim_time)) [
      | inr fresh ↦ fresh
      | inl old ↦
          absurd
            (ground (arith, at-reclaim_expired calls.reclaim_time r v j h, state-removed (at r j)))
    ]

    unchanged :
        (j : ℕ)
        → j < r.header.capacity
        → is_stale (at r j) calls.reclaim_time ≡ false
        → at (reclaim_expired r calls.reclaim_time) j ≡ at r j
    unchanged j h fresh =
        let same : swept calls.reclaim_time (at r j) ≡ at r j = rw fresh in
        at-reclaim_expired calls.reclaim_time r v j h ∙ same

    stale_of_free :
        (j : ℕ)
        → j < r.header.capacity
        → (at (reclaim_expired r calls.reclaim_time) j).state ≢ occupied
        → is_stale (at r j) calls.reclaim_time ≡ true
    stale_of_free j h free = elim (Bool-cases (is_stale (at r j) calls.reclaim_time)) [
      | inl old ↦ old
      | inr fresh ↦ absurd (
          free (
            ap (λ (e : CacheEntry). e.state) (unchanged j h fresh)
            ∙ all_occupied item ok r v none_left j h))
    ]

    -- What was not stored is not stored after the sweep, and a place found then is a freed slot.
    freed :
        (x : ℕ)
        → IsPlace (reclaim_expired r calls.reclaim_time) item.key x
        → (j : ℕ) × (j < r.header.capacity) × (is_stale (at r j) calls.reclaim_time ≡ true)
    freed x place =
        let t = calls.reclaim_time in
        let cap = capacity-reclaim_expired t r v in
        let w = reclaim_expired-IsValid t r v in
        let x_lt : x < (reclaim_expired r t).header.capacity =
          subst (λ k. k < (reclaim_expired r t).header.capacity) place.2
            (probe-lt (reclaim_expired r t).header.capacity w.table.positive w.table.small item.key
              place.0) in
        elim place.4 [
          | inl here ↦ cc (
            find_entry_of_matches item.key (reclaim_expired r t).slots x w.table.unique here,
            find_entry-reclaim_expired t r v item.key,
            ap (unexpired t) none_left.0,
          )
          | inr (free, _) ↦ (x, omega arith, stale_of_free x (omega arith) free)
        ]

    module _
        (fresh : (j : ℕ)
          → j < r.header.capacity
          → is_stale (at r j) calls.reclaim_time ≡ false) where
      IsOldest-before :
          (x : ℕ)
          → IsOldest (reclaim_expired r calls.reclaim_time).slots r.header.capacity x
          → IsOldest r.slots r.header.capacity x
      IsOldest-before x o =
          let here = λ (j : ℕ) (h : j < r.header.capacity). unchanged j h (fresh j h) in
          record {
            below = o.below;
            stored = rw (here x o.below) at o.stored;
            oldest = λ j h occ. rw (here x o.below, here j h) at (o.oldest j h (rw (here j h) occ));
          }

      entries_before :
          (q : Bytes)
          → find_entry q (reclaim_expired r calls.reclaim_time).slots ≡ find_entry q r.slots
      entries_before q =
          find_entry-reclaim_expired calls.reclaim_time r v q ∙ kept (find_entry q r.slots) refl
        where
          kept :
              (o : Option CacheEntry)
              → find_entry q r.slots ≡ o
              → unexpired calls.reclaim_time o ≡ o
          kept none e = refl
          kept (some f) e =
              let (j, same, m) = find_entry-some q r.slots f e in
              let j_lt = lt_of_matches r.slots q j m in
              ground (
                arith,
                same,
                is_occupied_of_matches (at r j) q m,
                fresh j (omega (arith, v.table.sized)),
              )

      others_before :
          (x : ℕ)
          → x < r.header.capacity
          → (q : Bytes)
          → (if matches (at (reclaim_expired r calls.reclaim_time) x) q
              then none
              else find_entry q (reclaim_expired r calls.reclaim_time).slots)
            ≡ (if matches (at r x) q then none else find_entry q r.slots)
      others_before x h q = rw (unchanged x h (fresh x h), entries_before q)

    pub after_sweep :
        ((put_reclaimed (reclaim_expired r calls.reclaim_time) item calls).1 ≡ true)
        × Kept r item calls (put_reclaimed (reclaim_expired r calls.reclaim_time) item calls).0
    after_sweep =
        let t = calls.reclaim_time in
        let cap = capacity-reclaim_expired t r v in
        let w = reclaim_expired-IsValid t r v in
        elim (put_reclaimed-Stores item ok (reclaim_expired r t) calls w) [
          | inl (x, place, done, s) ↦ (
            done,
            reclaimed none_left (freed x place) (Stores-congr (find_entry-reclaim_expired t r v) s),
          )
          | inr (full, (x, oldest, done, s)) ↦
              let fresh = λ (j : ℕ) (h : j < r.header.capacity).
                not_stale j h (all_occupied item ok (reclaim_expired r t) w full j (omega arith)) in
              (
                done,
                evicted none_left fresh x (IsOldest-before fresh x (rw cap at oldest))
                    (Stores-congr (others_before fresh x (omega (arith, oldest.below, cap))) s),
              )
        ]
