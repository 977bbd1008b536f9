-- ===== src/Contract/Rejects.antt =====
-- Null pointers, keys and values out of range, and a refused lock.
use mem_sync.Base.{
  ℕ, ◌<◌, ◌≡◌, refl, inl, inr, Bool-cases, Bool, true, false, ◌&&◌, Option, none, some, List, arith,
  length,
}
use mem_sync.Layout.{Region, max_key_len, max_val_len}
use mem_sync.Cache.{
  PutCalls, GetCalls, valid_key_argument, valid_value_argument, cache_put_ttl, cache_get, find_slot,
}
use mem_sync.Modify.{UpdateCalls, cache_update, cache_delete}
use mem_sync.Text.{Bytes}

-- The key argument passes the test exactly if it is a string of 1 to 63 bytes.
pub valid_key_argument_iff :
    (key : Bytes)
    → (valid_key_argument (some key) ≡ true → (0 < length key) × (length key < max_key_len))
      × ((0 < length key) × (length key < max_key_len) → valid_key_argument (some key) ≡ true)
unfolding valid_key_argument
valid_key_argument_iff key = (λ h. ground arith, λ h. ground arith)

-- What each operation asks for: pointers that are not null, a key of 1 to 63 bytes, a value of at most
-- 255, and the lock.
pub record IsKeyed (base : Option Region) (key : Option Bytes) (locked : Bool) : Type 0 where
  pub region : Region
  pub mapped : base ≡ some region
  pub name : Bytes
  pub named : key ≡ some name
  pub not_empty : 0 < length name
  pub short : length name < max_key_len
  pub granted : locked ≡ true

pub record IsValued (value : Option Bytes) : Type 0 where
  pub text : Bytes
  pub given : value ≡ some text
  pub short : length text < max_val_len

pub record IsBuffered (out : Option (List ℕ)) : Type 0 where
  pub buffer : List ℕ
  pub given : out ≡ some buffer

IsKeyed-of :
    (r : Region) (key : Bytes) (locked : Bool)
    → (valid_key_argument (some key) && locked) ≡ true
    → IsKeyed (some r) (some key) locked
unfolding valid_key_argument
IsKeyed-of r key locked h = record {
  region = r;
  mapped = refl;
  name = key;
  named = refl;
  not_empty = ground arith;
  short = ground arith;
  granted = ground arith;
}

IsValued-of : (value : Bytes) → valid_value_argument (some value) ≡ true → IsValued (some value)
unfolding valid_value_argument
IsValued-of value h = record { text = value; given = refl; short = ground arith }

put-refused :
    (base : Option Region) (key value : Option Bytes) (ttl : ℕ) (calls : PutCalls)
    → ¬ (IsKeyed base key calls.locked × IsValued value)
    → cache_put_ttl base key value ttl calls ≡ (base, false)
unfolding cache_put_ttl
put-refused none key value ttl calls h = refl
put-refused (some r) none value ttl calls h = refl
put-refused (some r) (some k) none ttl calls h = refl
put-refused (some r) (some k) (some v) ttl calls h =
    elim (Bool-cases
      (valid_key_argument (some k) && valid_value_argument (some v) && calls.locked)) [
        | inl go ↦
            absurd (h (IsKeyed-of r k calls.locked (ground arith), IsValued-of v (ground arith)))
        | inr stop ↦ rw stop
      ]

update-refused :
    (base : Option Region) (key value : Option Bytes) (calls : UpdateCalls)
    → ¬ (IsKeyed base key calls.locked × IsValued value)
    → cache_update base key value calls ≡ (base, false)
unfolding cache_update
update-refused none key value calls h = refl
update-refused (some r) none value calls h = refl
update-refused (some r) (some k) none calls h = refl
update-refused (some r) (some k) (some v) calls h =
    elim (Bool-cases
      (valid_key_argument (some k) && valid_value_argument (some v) && calls.locked)) [
        | inl go ↦
            absurd (h (IsKeyed-of r k calls.locked (ground arith), IsValued-of v (ground arith)))
        | inr stop ↦ rw stop
      ]

get-refused :
    (base : Option Region) (key : Option Bytes) (out : Option (List ℕ)) (calls : GetCalls)
    → ¬ (IsKeyed base key calls.read_lock × IsBuffered out)
    → cache_get base key out calls ≡ (base, none)
unfolding cache_get
get-refused none key out calls h = refl
get-refused (some r) none out calls h = refl
get-refused (some r) (some k) none calls h = refl
get-refused (some r) (some k) (some o) calls h =
    elim (Bool-cases (valid_key_argument (some k) && calls.read_lock)) [
      | inl go ↦ absurd (h (IsKeyed-of r k calls.read_lock go, record { buffer = o; given = refl }))
      | inr stop ↦ rw stop
    ]

delete-refused :
    (base : Option Region) (key : Option Bytes) (locked : Bool)
    → ¬ IsKeyed base key locked
    → cache_delete base key locked ≡ (base, false)
unfolding cache_delete
delete-refused none key locked h = refl
delete-refused (some r) none locked h = refl
delete-refused (some r) (some k) locked h =
    elim (Bool-cases (valid_key_argument (some k) && locked)) [
      | inl go ↦ absurd (h (IsKeyed-of r k locked go))
      | inr stop ↦ rw stop
    ]

find_slot-refused :
    (base : Option Region) (key : Option Bytes) (locked : Bool)
    → ¬ IsKeyed base key locked
    → find_slot base key locked ≡ none
unfolding find_slot
find_slot-refused none key locked h = refl
find_slot-refused (some r) none locked h = refl
find_slot-refused (some r) (some k) locked h =
    elim (Bool-cases (valid_key_argument (some k) && locked)) [
      | inl go ↦ absurd (h (IsKeyed-of r k locked go))
      | inr stop ↦ rw stop
    ]

-- An operation that lacks any of what it asks for returns failure and leaves the region as it was: a
-- put or an update whose region, key or value is null, whose key is empty or has more than 63
-- bytes, whose value has more than 255, or whose lock is refused; a get whose region, key or buffer is
-- null, whose key is out of range, or whose first lock is refused; a delete and a slot lookup likewise.
pub refused_changes_nothing :
    (base : Option Region) (key value : Option Bytes) (out : Option (List ℕ)) (ttl : ℕ)
    (put : PutCalls) (get : GetCalls) (update : UpdateCalls) (locked : Bool)
    → ¬ (IsKeyed base key put.locked × IsValued value)
    → ¬ (IsKeyed base key update.locked × IsValued value)
    → ¬ (IsKeyed base key get.read_lock × IsBuffered out)
    → ¬ IsKeyed base key locked
    → (cache_put_ttl base key value ttl put ≡ (base, false))
      × (cache_update base key value update ≡ (base, false))
      × (cache_get base key out get ≡ (base, none))
      × (cache_delete base key locked ≡ (base, false))
      × (find_slot base key locked ≡ none)
refused_changes_nothing base key value out ttl put get update locked p u g d = (
  put-refused base key value ttl put p,
  update-refused base key value update u,
  get-refused base key out get g,
  delete-refused base key locked d,
  find_slot-refused base key locked d,
)
