-- ===== src/Benchmark/CpuModel.antt =====
-- `cpu_model` of bench/benchmark_reporting.cpp, over the lines of /proc/cpuinfo; there are none if the
-- file cannot be read.
use mem_sync.Base.{
  ℕ, ◌≡◌, refl, Bool, true, false, ◌&&◌, Option, none, some, List, [], ◌∷◌, ◌++◌, ◌==◌,
  if◌then◌else◌,
}
use mem_sync.Text.{Bytes}

-- The string that is returned, or the exception of `substr`.
pub data CpuName : Type 0 where
  named : Bytes → CpuName
  out_of_range : CpuName

-- "model name"
abbrev pub model_name : Bytes
model_name = b'm' ∷ b'o' ∷ b'd' ∷ b'e' ∷ b'l' ∷ 32 ∷ b'n' ∷ b'a' ∷ b'm' ∷ b'e' ∷ []

-- "unknown"
abbrev pub unknown : Bytes
unknown = b'u' ∷ b'n' ∷ b'k' ∷ b'n' ∷ b'o' ∷ b'w' ∷ b'n' ∷ []

-- `line.compare(0, key.size(), key) == 0`
unfoldable pub begins : Bytes → Bytes → Bool
begins line [] = true
begins [] (k ∷ key) = false
begins (c ∷ line) (k ∷ key) = c == k && begins line key

-- What is behind the colon that `find` finds.
unfoldable pub behind_colon : Bytes → Option Bytes
behind_colon [] = none
behind_colon (c ∷ line) = let rest = behind_colon line in if c == b':' then some line else rest

-- `line.substr(colon + 2)`, from what is behind the colon.
abbrev pub skip_one : Bytes → CpuName
skip_one [] = out_of_range
skip_one (c ∷ s) = named s

-- A line that begins with the key: what it names, or what the lines behind it do.
abbrev pub name_or : CpuName → Option Bytes → CpuName
name_or rest none = rest
name_or rest (some s) = skip_one s

unfoldable pub cpu_model : List Bytes → CpuName
unfolding begins behind_colon
cpu_model [] = named unknown
cpu_model (line ∷ lines) =
    let rest = cpu_model lines in
    if begins line model_name then name_or rest (behind_colon line) else rest

-- A line that does not begin with the key.
abbrev pub AreOther : List Bytes → Type 0
AreOther [] = Unit {0}
AreOther (line ∷ lines) = (begins line model_name ≡ false) × AreOther lines

abbrev pub HasNoColon : Bytes → Type 0
HasNoColon [] = Unit {0}
HasNoColon (c ∷ s) = ((c == b':') ≡ false) × HasNoColon s

behind_colon-append : (pad s : Bytes) → HasNoColon pad → behind_colon (pad ++ b':' ∷ s) ≡ some s
unfolding behind_colon
behind_colon-append [] s ok = refl
behind_colon-append (c ∷ pad) s ok = rw (ok.0, behind_colon-append pad s ok.1) refl

-- The first line that begins with "model name" names the processor, if it has a colon and a byte
-- behind it: the name is what is behind that byte of the line's first colon, whatever stands between
-- the key and the colon.
pub cpu_model-first :
    (lines later : List Bytes) (pad s : Bytes) (c : ℕ)
    → AreOther lines
    → HasNoColon pad
    → cpu_model (lines ++ (model_name ++ (pad ++ b':' ∷ c ∷ s)) ∷ later) ≡ named s
unfolding cpu_model
cpu_model-first [] later pad s c ok no_colon = rw (behind_colon-append pad (c ∷ s) no_colon) refl
cpu_model-first (line ∷ lines) later pad s c ok no_colon =
    rw ok.0 (cpu_model-first lines later pad s c ok.1 no_colon)
