-- ===== src/Benchmark/SharedRequests.antt =====
-- The reads of the benchmark to the table.
use mathlib.Core.Path.{subst}
use mem_sync.Base.{
  ℕ, ◌+◌, ◌≡◌, refl, sym, ap, ◌∙◌, fun_ext, Bool, true, Option, none, some, List, replicate,
  length-replicate,
}
use mem_sync.Benchmark.{bench_hit, bench_miss}
use mem_sync.Benchmark.Implementations.{PerformCalls, perform_shared}
use mem_sync.Benchmark.Measurement.{should_succeed}
use mem_sync.Benchmark.Sound.{Performs}
use mem_sync.Cache.{GetCalls, valid_key_argument}
use mem_sync.Contract.Reference.{Represents, with_cell, with_cell_self, after_get}
use mem_sync.Demo.{buffer_of}
use mem_sync.Demo.Alone.{got_some, got_none, get-alone}
use mem_sync.Demo.Reading.{lasting-undue, after_get-lasting}
use mem_sync.Layout.{Region, max_val_len}
use mem_sync.Sharing.View.{shown, readable}
use mem_sync.Spec.{Map, undue}
use mem_sync.Text.{Bytes, strcmp_eq}
use mem_sync.Benchmark.Shared.{AreGranted, IsPayload, IsGood}

-- A read that finds what is stored leaves the map.
same-after_get :
    (m : Map) (key : Bytes) (calls : GetCalls)
    → after_get calls (m key) ≡ m key
    → with_cell key (after_get calls (m key)) m ≡ m
same-after_get m key calls h = fun_ext (λ q. sym (with_cell_self key _ m q (sym h)))

module _ (capacity : ℕ) (payload : Bytes) (ok : IsPayload payload) (s : Region × ℕ)
    (good : IsGood capacity payload s) (calls : PerformCalls) (granted : AreGranted calls) where
  abbrev pub out₀ : List ℕ
  out₀ = replicate max_val_len 0

  -- The result of `perform` from that of `perform_shared`.
  abbrev pub counted : Region × Bool × List ℕ → Option ((Region × ℕ) × Bool × Bool × List ℕ)
  counted (r', done, out') = some ((r', s.1 + 1), true, done, out')

  pub hit-Performs :
      Performs
        (IsGood capacity payload)
        payload
        (b'G', bench_hit)
        (counted (perform_shared s.0 b'G' bench_hit payload out₀ calls))
  unfolding perform_shared should_succeed
  hit-Performs =
      let key : valid_key_argument (some bench_hit) ≡ true = unfold valid_key_argument in refl in
      let (r', result, run, seen, h', sized) =
        get-alone s.0 capacity good.entries good.map bench_hit out₀ calls.get good.represents key
          granted.get (length-replicate max_val_len 0) in
      let shows : shown result ≡ some (payload, good.hit.cell.written) =
        seen
        ∙ ap readable
            (lasting-undue good.map bench_hit calls.get.read_time good.hit ∙ good.hit.stored)
        ∙ ap (λ (v : Bytes). some (v, good.hit.cell.written)) good.hit_value in
      let (found, text) = got_some out₀ result payload good.hit.cell.written shows in
      let same =
        same-after_get good.map bench_hit calls.get
          (after_get-lasting good.map bench_hit calls.get good.hit) in
      record {
        state = (r', s.1 + 1);
        out = buffer_of out₀ result;
        answers =
            unfold strcmp_eq in
            rw run (ap (λ (b : Bool). some ((r', s.1 + 1), true, b, buffer_of out₀ result)) found);
        good = record {
          entries = good.entries;
          map = good.map;
          represents = subst (Represents r' capacity good.entries) same h';
          hit = good.hit;
          hit_value = good.hit_value;
          update = good.update;
          miss = good.miss;
          room = good.room;
        };
        shows = λ e. text;
      }

  pub miss-Performs :
      Performs
        (IsGood capacity payload)
        payload
        (b'G', bench_miss)
        (counted (perform_shared s.0 b'G' bench_miss payload out₀ calls))
  unfolding perform_shared should_succeed
  miss-Performs =
      let key : valid_key_argument (some bench_miss) ≡ true = unfold valid_key_argument in refl in
      let (r', result, run, seen, h', sized) =
        get-alone s.0 capacity good.entries good.map bench_miss out₀ calls.get good.represents key
          granted.get (length-replicate max_val_len 0) in
      let none_seen : shown result ≡ none = seen ∙ (unfold undue in (rw good.miss refl)) in
      let found = got_none out₀ result none_seen in
      let stays : after_get calls.get (good.map bench_miss) ≡ good.map bench_miss =
        unfold undue in (rw good.miss refl) in
      let same = same-after_get good.map bench_miss calls.get stays in
      record {
        state = (r', s.1 + 1);
        out = buffer_of out₀ result;
        answers =
            unfold strcmp_eq in
            rw run (ap (λ (b : Bool). some ((r', s.1 + 1), true, b, buffer_of out₀ result)) found);
        good = record {
          entries = good.entries;
          map = good.map;
          represents = subst (Represents r' capacity good.entries) same h';
          hit = good.hit;
          hit_value = good.hit_value;
          update = good.update;
          miss = good.miss;
          room = good.room;
        };
        shows = λ e. absurd (unfold strcmp_eq in cc);
      }
