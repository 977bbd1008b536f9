-- ===== src/Command/Stored.antt =====
-- The commands `put` and `get` on an object that could be opened.
use mem_sync.Base.{
  ℕ, ◌≡◌, ◌<◌, ◌⊎◌, length-replicate, refl, ap, ◌∙◌, true, false, Option, none, some, List, [], ◌∷◌,
  ◌++◌, arith, length, replicate, lt→ltb, u32_mod, inl, inr, if◌then◌else◌,
}
use mem_sync.Bridge.{print_json_string, valid_key, valid_value, parse_ttl}
use mem_sync.Bridge.Decimal.{IsDecimal, parse_ttl-decimal}
use mem_sync.Cache.{Item, cache_put_ttl, cache_get, valid_key_argument, valid_value_argument}
use mem_sync.Bridge.Json.{parse_json, parse_json-print_json_string}
use mem_sync.Bridge.Utf8.{is_utf8}
use mem_sync.Cache.Get.Finish.{Returns}
use mem_sync.Cache.Put.{Kept}
use mem_sync.Cache.Store.{IsItem}
use mem_sync.Command.{
  CommandCalls, Outcome, Reply, ok, found, not_found, is_init, is_get, is_put, answer, answer_get,
  run_get, run_put, dispatch, outcome_of, operate_on, operate, run_command, main,
}
use mem_sync.Contract.Access.{cache_put_ttl-Kept, cache_get-Returns, key_accepted}
use mem_sync.Layout.{CacheEntry, Region, max_val_len}
use mem_sync.Table.{cache_entry_expired}
use mem_sync.Table.View.{find_entry}
use mem_sync.Lifecycle.{Event, unopened, cache_open_shared, cache_close_shared}
use mem_sync.Lifecycle.Handover.{mapping_of}
use mem_sync.Table.Invariant.{IsValid}
use mem_sync.Text.{Bytes, read_cstr, strcmp_eq}

-- The bridge refuses the keys and values that the engine refuses.
pub valid_key_lem : (key : Option Bytes) → valid_key key ≡ valid_key_argument key
unfolding valid_key valid_key_argument
valid_key_lem none = refl
valid_key_lem (some []) = refl
valid_key_lem (some (c ∷ s)) = ground arith

pub valid_value_lem : (value : Option Bytes) → valid_value value ≡ valid_value_argument value
unfolding valid_value valid_value_argument
valid_value_lem none = refl
valid_value_lem (some value) = ground arith

item_key : (item : Item) → IsItem item → valid_key (some item.key) ≡ true
item_key item h = valid_key_lem (some item.key) ∙ key_accepted item h

item_value : (item : Item) → IsItem item → valid_value (some item.value) ≡ true
item_value item h =
    valid_value_lem (some item.value)
    ∙ (unfold valid_value_argument in lt→ltb (length item.value) 256 h.value_short)

abbrev pub put_word : Bytes
put_word = b'p' ∷ b'u' ∷ b't' ∷ []

abbrev pub get_word : Bytes
get_word = b'g' ∷ b'e' ∷ b't' ∷ []

dispatch-put :
    (r r' : Region) (item : Item) (s : Bytes) (calls : CommandCalls)
    → IsItem item
    → parse_ttl s ≡ some item.ttl
    → cache_put_ttl (some r) (some item.key) (some item.value) item.ttl calls.put ≡ (some r', true)
    → dispatch r put_word (item.key ∷ item.value ∷ s ∷ []) calls ≡ (0, ok, r')
unfolding dispatch is_put strcmp_eq run_put answer
dispatch-put r r' item s calls h ttl run = rw (item_key item h, item_value item h, ttl, run) refl

-- A command other than `init` on an object that was opened with the region `r`.
main-dispatch :
    (lock_size fd : ℕ) (r : Region) (events : List Event) (command : Bytes) (args : List Bytes)
    (calls : CommandCalls)
    → is_init command ≡ false
    → cache_open_shared lock_size (some unopened) false none calls.open_calls
      ≡ (some (mapping_of fd r false), true, events)
    → main lock_size (command ∷ args) calls
      ≡ outcome_of
          (events ++ (cache_close_shared (some (mapping_of fd r false))).1)
          (dispatch r command args calls)
unfolding main run_command operate operate_on
main-dispatch lock_size fd r events command args calls word opened = rw (word, opened) refl

-- On an object that is opened with a well-formed table, `put KEY VALUE TTL` with a valid key and value,
-- a decimal duration below 2^32 and the lock granted exits with 0, reports success, and leaves the region that the
-- engine's put leaves: the item is stored, and other keys are lost as the capacity policy says.
pub main-put-Kept :
    (lock_size fd : ℕ) (r : Region) (events : List Event) (item : Item) (s : Bytes)
    (calls : CommandCalls)
    → cache_open_shared lock_size (some unopened) false none calls.open_calls
      ≡ (some (mapping_of fd r false), true, events)
    → IsValid r
    → IsItem item
    → IsDecimal s item.ttl
    → item.ttl < u32_mod
    → calls.put.locked ≡ true
    → (r' : Region) × (out : Outcome) × (main lock_size
          (put_word ∷ item.key ∷ item.value ∷ s ∷ [])
          calls
        ≡ out)
      × (out.code ≡ 0)
      × (out.reply ≡ ok)
      × (out.region ≡ some r')
      × Kept r item calls.put r'
main-put-Kept lock_size fd r events item s calls opened valid h decimal small locked =
    let (r', run, kept) = cache_put_ttl-Kept r item calls.put valid h locked in
    let ttl : parse_ttl s ≡ some item.ttl =
      parse_ttl-decimal s item.ttl decimal ∙ rw (lt→ltb item.ttl u32_mod small) refl in
    let args : List Bytes = item.key ∷ item.value ∷ s ∷ [] in
    let command : is_init put_word ≡ false = unfold is_init strcmp_eq in refl in
    let started = main-dispatch lock_size fd r events put_word args calls command opened in
    let done = dispatch-put r r' item s calls h ttl run in
    (r', _, started ∙ ap (outcome_of _) done, refl, refl, refl, kept)

-- What `get` shows for the entry that is stored under the key: nothing without one or for an expired
-- one; else the entry's time and a text, which for a value that is UTF-8 is a JSON text that reads back
-- as the value, and for another one is none.
abbrev pub Shows : ℕ → Option CacheEntry → Reply → Type 0
Shows now none reply = reply ≡ not_found
Shows now (some e) reply =
    ((cache_entry_expired e now ≡ true) × (reply ≡ not_found))
    ⊎ ((cache_entry_expired e now ≡ false)
        × ((text : List ℕ) × (reply ≡ found text e.timestamp)
            × (parse_json text
                ≡ (if is_utf8 (read_cstr e.value) then some (read_cstr e.value) else none))))

answer_get-Shows :
    (r : Region) (r' : Option Region) (now : ℕ) (o : Option CacheEntry)
    (result : Option (List ℕ × ℕ))
    → Returns now o result
    → Shows now o (answer_get r (r', result)).1
unfolding answer_get
answer_get-Shows r r' now none result h = rw h refl
answer_get-Shows r r' now (some e) result (inl (old, h)) = inl (old, rw h refl)
answer_get-Shows r r' now (some e) result (inr (new, (buf, h, same))) = inr (
  new,
  (
    print_json_string (read_cstr buf),
    rw h refl,
    parse_json-print_json_string (read_cstr buf)
        ∙ ap (λ (v : Bytes). if is_utf8 v then some v else none) same,
  ),
)

answer_get-code :
    (r : Region) (r' : Option Region) (result : Option (List ℕ × ℕ))
    → (answer_get r (r', result)).0 ≡ 0
unfolding answer_get
answer_get-code r r' none = refl
answer_get-code r r' (some p) = refl

dispatch-get :
    (r : Region) (key : Bytes) (calls : CommandCalls)
    → valid_key_argument (some key) ≡ true
    → dispatch r get_word (key ∷ []) calls
      ≡ answer_get r (cache_get (some r) (some key) (some (replicate max_val_len 0)) calls.get)
unfolding dispatch is_get strcmp_eq run_get
dispatch-get r key calls accepted = rw (valid_key_lem (some key) ∙ accepted) refl

-- On an object that is opened with a well-formed table, `get KEY` with a valid key and the read lock
-- granted exits with 0 and shows what is stored under the key and not expired at the time of the read:
-- for a value that is UTF-8 a JSON text that reads back as the value, and for another one a text that
-- is not JSON.
pub main-get-Shows :
    (lock_size fd : ℕ) (r : Region) (events : List Event) (key : Bytes) (calls : CommandCalls)
    → cache_open_shared lock_size (some unopened) false none calls.open_calls
      ≡ (some (mapping_of fd r false), true, events)
    → IsValid r
    → valid_key_argument (some key) ≡ true
    → calls.get.read_lock ≡ true
    → (out : Outcome) × (main lock_size (get_word ∷ key ∷ []) calls ≡ out)
      × (out.code ≡ 0)
      × Shows calls.get.read_time (find_entry key r.slots) out.reply
main-get-Shows lock_size fd r events key calls opened valid accepted locked =
    let got = cache_get (some r) (some key) (some (replicate max_val_len 0)) calls.get in
    let args : List Bytes = key ∷ [] in
    let command : is_init get_word ≡ false = unfold is_init strcmp_eq in refl in
    let started = main-dispatch lock_size fd r events get_word args calls command opened in
    let returned =
      cache_get-Returns r key valid accepted (replicate max_val_len 0) calls.get locked
        (length-replicate max_val_len 0) in
    (
      _,
      started ∙ ap (outcome_of _) (dispatch-get r key calls accepted),
      answer_get-code r got.0 got.1,
      answer_get-Shows r got.0 calls.get.read_time (find_entry key r.slots) got.1 returned,
    )
