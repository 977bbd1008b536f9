-- ===== src/Hash/Polynomial.antt =====
-- The hash without the wrap-around: a polynomial in 33 over the promoted bytes.
use mem_sync.Base.{ℕ, ◌+◌, ◌*◌, ◌%◌, ◌<◌, ◌≡◌, refl, [], ◌∷◌, arith, u32_mod}
use mem_sync.Hash.{promote, hash_from, hash_key}
use mem_sync.Text.{Bytes}

-- djb2 on unbounded numbers: multiply by 33 and add the byte.
abbrev pub djb2 : ℕ → Bytes → ℕ
djb2 hash [] = hash
djb2 hash (c ∷ key) = djb2 (hash * 33 + promote c) key

-- Wrapping at every step or once at the end is the same.
hash_from-mod :
    (key : Bytes) (hash wide : ℕ)
    → hash ≡ wide % u32_mod
    → hash_from hash key ≡ djb2 wide key % u32_mod
unfolding hash_from
hash_from-mod [] hash wide h = h
hash_from-mod (c ∷ key) hash wide h = hash_from-mod key _ (wide * 33 + promote c) (omega arith)

-- The hash is that of unbounded numbers, reduced to 32 bits once at the end and then to the capacity.
pub hash_key-eq-djb2 :
    (key : Bytes) (capacity : ℕ) → hash_key key capacity ≡ djb2 5381 key % u32_mod % capacity
unfolding hash_key
hash_key-eq-djb2 key capacity = rw (hash_from-mod key 5381 5381 refl)

pub hash_key-lt : (key : Bytes) (capacity : ℕ) → 0 < capacity → hash_key key capacity < capacity
unfolding hash_key
hash_key-lt key capacity h = omega arith
