-- ===== src/Text/Laws.antt =====
-- Comparison decides equality, and a copied string reads back.
use mem_sync.Base.{ℕ, zero, suc, ◌≤◌, ◌<◌, ◌≡◌, refl, ap, true, [], ◌∷◌, arith, length, get_or, set}
use mem_sync.Text.{Bytes, IsCString, read_cstr, strncpy, strcmp_eq}

pub eq_of_strcmp_eq : (a b : Bytes) → strcmp_eq a b ≡ true → a ≡ b
unfolding strcmp_eq
eq_of_strcmp_eq [] [] h = refl
eq_of_strcmp_eq [] (d ∷ t) h = cc
eq_of_strcmp_eq (c ∷ s) [] h = cc
eq_of_strcmp_eq (c ∷ s) (d ∷ t) h = ground (arith, eq_of_strcmp_eq s t)

pub strcmp_eq_self : (a : Bytes) → strcmp_eq a a ≡ true
unfolding strcmp_eq
strcmp_eq_self [] = refl
strcmp_eq_self (c ∷ s) = ground (arith, strcmp_eq_self s)

pub length-strncpy : (buf s : Bytes) (n : ℕ) → length (strncpy buf s n) ≡ length buf
unfolding strncpy
length-strncpy buf s zero = refl
length-strncpy [] s (suc n) = refl
length-strncpy (b ∷ buf) [] (suc n) = ap suc (length-strncpy buf [] n)
length-strncpy (b ∷ buf) (c ∷ s) (suc n) = ap suc (length-strncpy buf s n)

-- A string that fits before the last byte of a buffer is read back from it.
pub read_cstr-set-strncpy :
    (buf s : Bytes) (n : ℕ)
    → length s ≤ n
    → n < length buf
    → IsCString s
    → read_cstr (set (strncpy buf s n) n 0) ≡ s
unfolding read_cstr strncpy set
read_cstr-set-strncpy [] s n fits room ok = absurd (omega arith)
read_cstr-set-strncpy (b ∷ buf) [] zero fits room ok = refl
read_cstr-set-strncpy (b ∷ buf) (c ∷ s) zero fits room ok = absurd (omega arith)
read_cstr-set-strncpy (b ∷ buf) [] (suc n) fits room ok = refl
read_cstr-set-strncpy (b ∷ buf) (c ∷ s) (suc n) fits room ok =
    ground (arith, read_cstr-set-strncpy buf s n)

pub length-read_cstr-le : (buf : Bytes) → length (read_cstr buf) ≤ length buf
unfolding read_cstr
length-read_cstr-le [] = omega arith
length-read_cstr-le (c ∷ buf) = ground (arith, length-read_cstr-le buf)

-- A buffer with a NUL at an index holds a string no longer than the index.
pub length-read_cstr_of_nul :
    (buf : Bytes) (n : ℕ) → get_or buf n 0 ≡ 0 → length (read_cstr buf) ≤ n
unfolding read_cstr get_or
length-read_cstr_of_nul [] n h = omega arith
length-read_cstr_of_nul (c ∷ buf) zero h = ground arith
length-read_cstr_of_nul (c ∷ buf) (suc n) h = ground (arith, length-read_cstr_of_nul buf n h)

pub read_cstr-IsCString : (buf : Bytes) → IsCString (read_cstr buf)
unfolding read_cstr
read_cstr-IsCString [] = tt
read_cstr-IsCString (c ∷ buf) = ground (arith, read_cstr-IsCString buf)
