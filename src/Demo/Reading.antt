-- ===== src/Demo/Reading.antt =====
-- What src/reader.cpp shows when it runs alone.
use mathlib.Core.Path.{subst}
use mem_sync.Base.{
  ℕ, zero, suc, ◌+◌, ◌≡◌, refl, sym, ap, ◌∙◌, fun_ext, true, Option, none, some, List, [], ◌∷◌, map,
  length, replicate,
}
use mem_sync.Cache.{GetCalls}
use mem_sync.Cache.{valid_key_argument}
use mem_sync.Contract.Reference.{Represents, with_cell, with_cell_self, after_get}
use mem_sync.Demo.{buffer_of}
use mem_sync.Demo.Alone.{IsAlone, get-alone}
use mem_sync.Demo.Exchange.{keys, ReaderCalls, GetLine, get_line, read_keys, read_ticks}
use mem_sync.Layout.{Region, max_val_len}
use mem_sync.Sharing.View.{shown, readable}
use mem_sync.Spec.{Cell, Map, is_due, undue}
use mem_sync.Telemetry.{Doubles, Report}
use mem_sync.Text.{Bytes}

pub record IsReaderAlone (calls : ReaderCalls) : Type 0 where
  pub get : (tick i : ℕ) → IsAlone (calls.get tick i)
  pub others : (tick i : ℕ) (r : Region) → calls.others tick i r ≡ r

-- A stored value that never expires.
pub record IsLasting (m : Map) (key : Bytes) : Type 0 where
  pub cell : Cell
  pub stored : m key ≡ some cell
  pub no_ttl : cell.ttl ≡ 0

abbrev pub AreLasting : Map → List Bytes → Type 0
AreLasting m [] = Unit {0}
AreLasting m (key ∷ rest) =
    (valid_key_argument (some key) ≡ true) × IsLasting m key × AreLasting m rest

pub undue-lasting : (now : ℕ) (c : Cell) → c.ttl ≡ 0 → undue now (some c) ≡ some c
unfolding undue is_due
undue-lasting now c h = rw h refl

-- A get of it shows it and changes nothing.
pub lasting-undue : (m : Map) (key : Bytes) (now : ℕ) → IsLasting m key → undue now (m key) ≡ m key
lasting-undue m key now l = rw (l.stored) (undue-lasting now l.cell l.no_ttl)

pub after_get-lasting :
    (m : Map) (key : Bytes) (calls : GetCalls) → IsLasting m key → after_get calls (m key) ≡ m key
after_get-lasting m key calls l = rw (l.stored, undue-lasting calls.read_time l.cell l.no_ttl) refl

get_line-shown :
    (key : Bytes) (result : Option (List ℕ × ℕ)) → get_line key result ≡ (key, shown result)
get_line-shown key none = refl
get_line-shown key (some (value, timestamp)) = refl

abbrev pub line_of : Map → Bytes → GetLine
line_of m key = (key, readable (m key))

-- What a round of the reader must come to.
record Reads (capacity n : ℕ) (m : Map) (l : List Bytes) (out : Region × List ℕ × List GetLine)
    : Type 0 where
  represents : Represents out.0 capacity n m
  sized : length out.1 ≡ max_val_len
  lines : out.2 ≡ map (line_of m) l

read_keys-Reads :
    (r : Region) (capacity n : ℕ) (m : Map) (value : List ℕ) (l : List Bytes) (calls : ReaderCalls)
    (tick i : ℕ)
    → IsReaderAlone calls
    → AreLasting m l
    → Represents r capacity n m
    → length value ≡ max_val_len
    → Reads capacity n m l (read_keys r value l calls tick i)
unfolding read_keys
read_keys-Reads r capacity n m value [] calls tick i alone ok h sized = record {
  represents = h;
  sized = sized;
  lines = refl;
}
read_keys-Reads r capacity n m value (key ∷ rest) calls tick i alone ok h sized =
    let (r', result, run, seen, h', sized') =
      get-alone r capacity n m key value (calls.get tick i) h ok.0 (alone.get tick i) sized in
    let same : with_cell key (after_get (calls.get tick i) (m key)) m ≡ m = fun_ext (λ q.
      sym (with_cell_self key _ m q (sym (after_get-lasting m key (calls.get tick i) ok.1)))) in
    let w =
      read_keys-Reads r' capacity n m (buffer_of value result) rest calls tick (i + 1) alone ok.2
        (subst (Represents r' capacity n) same h') sized' in
    let line : get_line key result ≡ line_of m key =
      get_line-shown key result
      ∙ ap (λ (o : Option (Bytes × ℕ)). (key, o))
          (seen ∙ ap readable (lasting-undue m key (calls.get tick i).read_time ok.1)) in
    rw (alone.others tick i r, run)
      (record { represents = w.represents; sized = w.sized; lines = λ k. line k ∷ w.lines k })

-- The rounds without their reports.
abbrev pub lines_of : {D : Type 0} → List (List GetLine × Option (Report D)) → List (List GetLine)
lines_of ticks = map (λ p. p.0) ticks

module _ {D : Type 0} (d : Doubles D) where
  pub read_ticks-lines :
      (r : Region) (capacity n : ℕ) (m : Map) (value : List ℕ) (calls : ReaderCalls) (k tick : ℕ)
      → IsReaderAlone calls
      → AreLasting m keys
      → Represents r capacity n m
      → length value ≡ max_val_len
      → lines_of (read_ticks d r value calls k tick).1 ≡ replicate k (map (line_of m) keys)
  unfolding read_ticks replicate
  read_ticks-lines r capacity n m value calls zero tick alone ok h sized = refl
  read_ticks-lines r capacity n m value calls (suc k) tick alone ok h sized =
      let w = read_keys-Reads r capacity n m value keys calls tick 0 alone ok h sized in
      let rest =
        read_ticks-lines (read_keys r value keys calls tick 0).0 capacity n m
          (read_keys r value keys calls tick 0).1 calls k (tick + 1) alone ok w.represents
          w.sized in
      λ i. w.lines i ∷ rest i
