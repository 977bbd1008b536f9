-- ===== src/Tests/Commands.antt =====
-- The bridge: its strings, its numbers and its command lines.
use mem_sync.Base.{
  ◌≡◌, refl, true, false, none, some, List, [], ◌∷◌, if◌then◌else◌, ltb, u32_mod, arith,
}
use mem_sync.Bridge.{
  hex, short_escape, long_escape, escape_as, escape, escape_all, print_json_string, read_digits,
  signed_value, read_number, read_signed, skip_space, strtoul, is_end, parse_ttl,
}
use mem_sync.Bridge.Json.{parse_json, parse_json-print_json_string}
use mem_sync.Bridge.Utf8.{is_utf8}
use mem_sync.Bridge.Decimal.{IsDecimal, one_digit, one_more, parse_ttl-decimal}
use mem_sync.Cache.{valid_key_argument}
use mem_sync.Cache.Put.{Kept}
use mem_sync.Command.{CommandCalls, Outcome, ok, main}
use mem_sync.Command.Release.{IsReleased, main-IsReleased}
use mem_sync.Command.Stored.{put_word, get_word, Shows, main-put-Kept, main-get-Shows}
use mem_sync.Layout.{Region}
use mem_sync.Lifecycle.{Event, unopened, cache_open_shared, cache_shared_memory_name}
use mem_sync.Lifecycle.{opened_object, mapped_memory}
use mem_sync.Lifecycle.Handover.{attaching, mapping_of}
use mem_sync.Layout.{cache_shared_memory_size}
use mem_sync.Table.View.{find_entry}
use mem_sync.Text.{Bytes}
use mem_sync.Tests.Lifecycle.{opening}
use mem_sync.Tests.Runs.{program}
use mem_sync.Tests.{
  lock_size, empty_region, empty_region-IsValid, one_entry, one_entry-IsValid, lock_works, item_a,
  item_a-IsItem, put_at, get_at,
}

unfoldable bridge : Unit {0}
unfolding hex short_escape long_escape escape_as escape escape_all print_json_string read_digits
    signed_value read_number read_signed skip_space strtoul is_end parse_ttl
bridge = tt

-- A quote, a line feed, a control character and a letter.
abbrev sample : Bytes
sample = 34 ∷ 10 ∷ 31 ∷ b'x' ∷ []

printed :
    print_json_string sample
    ≡ 34 ∷ 92 ∷ 34 ∷ 92 ∷ b'n' ∷ 92 ∷ b'u' ∷ b'0' ∷ b'0' ∷ b'1' ∷ b'f' ∷ b'x' ∷ 34 ∷ []
unfolding program bridge
printed = refl

-- "" is taken for 0.
no_digits : parse_ttl [] ≡ some 0
unfolding bridge
no_digits = refl

-- "-18446744073709551615" is taken for 1.
negated :
    parse_ttl (
      b'-' ∷ b'1' ∷ b'8' ∷ b'4' ∷ b'4' ∷ b'6' ∷ b'7' ∷ b'4' ∷ b'4' ∷ b'0' ∷ b'7' ∷ b'3' ∷ b'7'
      ∷ b'0' ∷ b'9' ∷ b'5' ∷ b'5' ∷ b'1' ∷ b'6' ∷ b'1' ∷ b'5' ∷ [])
    ≡ some 1
unfolding bridge
negated = refl

parse_json-print_json_string_example :
    parse_json (print_json_string sample) ≡ (if is_utf8 sample then some sample else none)
parse_json-print_json_string_example = parse_json-print_json_string sample

-- The letter e with an acute accent.
accented : is_utf8 (195 ∷ 169 ∷ []) ≡ true
unfolding is_utf8
accented = refl

-- A byte 255 is a key that is accepted, and what is printed for it is no JSON text.
not_text : valid_key_argument (some (255 ∷ [])) ≡ true
unfolding program
not_text = refl

not_json : parse_json (print_json_string (255 ∷ [])) ≡ none
unfolding program bridge parse_json
not_json = refl

forty_two : IsDecimal (b'4' ∷ b'2' ∷ []) 42
forty_two = one_more _ 4 2 (one_digit 4 (omega arith)) (omega arith)

parse_ttl-decimal_example :
    parse_ttl (b'4' ∷ b'2' ∷ []) ≡ (if ltb 42 u32_mod then some 42 else none)
parse_ttl-decimal_example = parse_ttl-decimal (b'4' ∷ b'2' ∷ []) 42 forty_two

-- The answers to a process that finds the object with a region.
abbrev answers : Region → CommandCalls
answers r = record {
  open_calls = attaching 3 r lock_works;
  read_lock = true;
  now = λ i. 103;
  put = put_at 100;
  get = get_at 103;
  update = record { locked = true; check_time = 103; write_time = 103 };
  delete_lock = true;
}

abbrev opens_events : List Event
opens_events =
    opened_object cache_shared_memory_name 3 ∷ mapped_memory cache_shared_memory_size ∷ []

opens_empty :
    cache_open_shared lock_size (some unopened) false none (attaching 3 empty_region lock_works)
    ≡ (some (mapping_of 3 empty_region false), true, opens_events)
unfolding program opening
opens_empty = refl

opens_one :
    cache_open_shared lock_size (some unopened) false none (attaching 3 one_entry lock_works)
    ≡ (some (mapping_of 3 one_entry false), true, opens_events)
unfolding program opening
opens_one = refl

a_accepted : valid_key_argument (some item_a.key) ≡ true
unfolding program
a_accepted = refl

main-IsReleased_example :
    IsReleased
      (main lock_size (put_word ∷ item_a.key ∷ item_a.value ∷ []) (answers empty_region)).events
main-IsReleased_example =
    main-IsReleased lock_size (put_word ∷ item_a.key ∷ item_a.value ∷ []) (answers empty_region)

main-put-Kept_example :
    (r' : Region) × (out : Outcome) × (main lock_size
        (put_word ∷ item_a.key ∷ item_a.value ∷ (b'5' ∷ []) ∷ [])
        (answers empty_region)
      ≡ out)
    × (out.code ≡ 0)
    × (out.reply ≡ ok)
    × (out.region ≡ some r')
    × Kept empty_region item_a (put_at 100) r'
main-put-Kept_example =
    main-put-Kept lock_size 3 empty_region opens_events item_a (b'5' ∷ []) (answers empty_region)
      opens_empty empty_region-IsValid item_a-IsItem (one_digit 5 (omega arith)) (omega arith) refl

main-get-Shows_example :
    (out : Outcome) × (main lock_size (get_word ∷ item_a.key ∷ []) (answers one_entry) ≡ out)
    × (out.code ≡ 0)
    × Shows 103 (find_entry item_a.key one_entry.slots) out.reply
main-get-Shows_example =
    main-get-Shows lock_size 3 one_entry opens_events item_a.key (answers one_entry) opens_one
      one_entry-IsValid a_accepted refl
