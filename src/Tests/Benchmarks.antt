-- ===== src/Tests/Benchmarks.antt =====
-- The benchmark's strings and requests.
use mem_sync.Benchmark.CpuModel.{
  cpu_model, cpu_model-first, named, begins, behind_colon, model_name, out_of_range,
}
use mem_sync.Benchmark.Counting.{parse_options-counts}
use mem_sync.Benchmark.Options.{
  number_overflows, signed_overflows, sets_errno, parse_positive, parse_options, operations_option,
  trials_option,
}
use mem_sync.Bridge.{
  strtoul, read_signed, read_number, read_digits, signed_value, skip_space, is_end,
}
use mem_sync.Bridge.Decimal.{one_digit, one_more}
use mem_sync.Text.{Bytes}
use mem_sync.Base.{◌≡◌, false, refl, arith, some, [], ◌∷◌, ◌++◌}
use mem_sync.Benchmark.{csv_quote}
use mem_sync.Benchmark.Quoting.{parse_csv_field, parse_csv_field-csv_quote}

parse_csv_field-csv_quote_example :
    parse_csv_field (csv_quote (b'a' ∷ b'"' ∷ b',' ∷ [])) ≡ some (b'a' ∷ b'"' ∷ b',' ∷ [])
parse_csv_field-csv_quote_example = parse_csv_field-csv_quote (b'a' ∷ b'"' ∷ b',' ∷ [])

-- A line that ends with the colon.
cut_off : cpu_model ((model_name ++ b':' ∷ []) ∷ []) ≡ out_of_range
unfolding cpu_model begins behind_colon
cut_off = refl

-- A number that `strtoul` negates: -18446744073709551615 counts as 1.
abbrev negated : Bytes
negated =
    b'-' ∷ b'1' ∷ b'8' ∷ b'4' ∷ b'4' ∷ b'6' ∷ b'7' ∷ b'4' ∷ b'4' ∷ b'0' ∷ b'7' ∷ b'3' ∷ b'7' ∷ b'0'
    ∷ b'9' ∷ b'5' ∷ b'5' ∷ b'1' ∷ b'6' ∷ b'1' ∷ b'5' ∷ []

negated_count : parse_positive negated ≡ some 1
unfolding parse_positive sets_errno signed_overflows number_overflows strtoul read_signed
    read_number read_digits signed_value skip_space is_end
negated_count = refl

-- "12" and "3".
abbrev twelve : Bytes
twelve = b'1' ∷ b'2' ∷ []

abbrev three : Bytes
three = b'3' ∷ []

parse_options-counts_example :
    (parse_options (operations_option ∷ twelve ∷ trials_option ∷ three ∷ []) 2000 3 ≡ some (12, 3))
    × (parse_options (trials_option ∷ three ∷ operations_option ∷ twelve ∷ []) 2000 3
        ≡ some (12, 3))
    × (parse_options (operations_option ∷ twelve ∷ []) 2000 3 ≡ some (12, 3))
    × (parse_options (trials_option ∷ three ∷ []) 2000 3 ≡ some (2000, 3))
    × (parse_options (operations_option ∷ twelve ∷ operations_option ∷ three ∷ []) 2000 3
        ≡ some (3, 3))
    × (parse_options (trials_option ∷ twelve ∷ trials_option ∷ three ∷ []) 2000 3 ≡ some (2000, 3))
parse_options-counts_example =
    parse_options-counts twelve three 12 3 2000 3
      (one_more (b'1' ∷ []) 1 2 (one_digit 1 (omega arith)) (omega arith))
      (one_digit 3 (omega arith)) (omega arith) (omega arith) (omega arith) (omega arith)

other : begins (b'f' ∷ b':' ∷ 32 ∷ b'y' ∷ []) model_name ≡ false
unfolding begins
other = refl

-- "f: y", "model name : x y", and a line behind it.
cpu_model-first_example :
    cpu_model
      ((b'f' ∷ b':' ∷ 32 ∷ b'y' ∷ []) ∷ (model_name ++ (32 ∷ b':' ∷ 32 ∷ b'x' ∷ [])) ∷ [] ∷ [])
    ≡ named (b'x' ∷ [])
cpu_model-first_example =
    cpu_model-first ((b'f' ∷ b':' ∷ 32 ∷ b'y' ∷ []) ∷ []) ([] ∷ []) (32 ∷ []) (b'x' ∷ []) 32
      (other, tt) (refl, tt)
