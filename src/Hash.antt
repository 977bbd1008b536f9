-- ===== src/Hash.antt =====
-- `hash_key` of src/cache_engine.cpp.
pub mod Polynomial
use mem_sync.Base.{ℕ, ◌+◌, ◌-◌, ◌*◌, ◌%◌, ◌^◌, List, [], ◌∷◌, ltb, if◌then◌else◌, u32_mod, add32}
use mem_sync.Text.{Bytes}

-- `char` is signed: a byte from 128 on is promoted to a negative `int`, which the addition to a
-- uint32_t reads modulo 2 ^ 32.
unfoldable pub promote : ℕ → ℕ
promote c = if ltb c 128 then c else u32_mod + c - 256

unfoldable pub hash_from : ℕ → Bytes → ℕ
unfolding promote
hash_from hash [] = hash
hash_from hash (c ∷ key) = hash_from (add32 (add32 (hash * 2 ^ 5 % u32_mod) hash) (promote c)) key

-- With a capacity of 0 the program faults; the table's invariant excludes it.
unfoldable pub hash_key : Bytes → ℕ → ℕ
unfolding hash_from
hash_key key capacity = hash_from 5381 key % capacity
