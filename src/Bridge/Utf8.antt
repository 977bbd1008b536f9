-- ===== src/Bridge/Utf8.antt =====
-- Well-formed UTF-8, by the table of RFC 3629, section 4.
use mem_sync.Base.{
  ℕ, ◌≤◌, ◌<◌, ◌≡◌, refl, ap, ◌∙◌, Bool, true, false, ◌&&◌, List, [], ◌∷◌, ◌++◌, ltb, leb, ◌==◌,
  arith, if◌then◌else◌,
}
use mem_sync.Text.{Bytes}

-- The bounds of a byte.
abbrev pub Bounds : Type 0
Bounds = ℕ × ℕ

abbrev tail : Bounds
tail = (128, 191)

-- The bounds of the bytes behind a first byte; no byte is within the last ones.
unfoldable pub tail_of : ℕ → List Bounds
tail_of c =
    if ltb c 128
    then []
    else if leb 194 c && leb c 223
    then tail ∷ []
    else if c == 224
    then (160, 191) ∷ tail ∷ []
    else if c == 237
    then (128, 159) ∷ tail ∷ []
    else if leb 225 c && leb c 239
    then tail ∷ tail ∷ []
    else if c == 240
    then (144, 191) ∷ tail ∷ tail ∷ []
    else if leb 241 c && leb c 243
    then tail ∷ tail ∷ tail ∷ []
    else if c == 244
    then (128, 143) ∷ tail ∷ tail ∷ []
    else (128, 0) ∷ []

-- The bytes are those that are awaited, and then whole characters.
unfoldable pub utf8_from : List Bounds → Bytes → Bool
unfolding tail_of
utf8_from [] [] = true
utf8_from (b ∷ bs) [] = false
utf8_from [] (c ∷ s) = utf8_from (tail_of c) s
utf8_from ((low, high) ∷ bs) (c ∷ s) = let rest = utf8_from bs s in leb low c && leb c high && rest

unfoldable pub is_utf8 : Bytes → Bool
unfolding utf8_from
is_utf8 s = utf8_from [] s

-- No byte of ASCII is within the bounds.
abbrev pub AreHigh : List Bounds → Type 0
AreHigh [] = Unit {0}
AreHigh (b ∷ bs) = (128 ≤ b.0) × AreHigh bs

if-AreHigh : (b : Bool) (x y : List Bounds) → AreHigh x → AreHigh y → AreHigh (if b then x else y)
if-AreHigh true x y h k = h
if-AreHigh false x y h k = k

pub tail_of-AreHigh : (c : ℕ) → AreHigh (tail_of c)
unfolding tail_of
tail_of-AreHigh c = if-AreHigh (ltb c 128) _ _ (omega arith) (
    if-AreHigh (leb 194 c && leb c 223) _ _ (omega arith) (
      if-AreHigh (c == 224) _ _ (omega arith) (
        if-AreHigh (c == 237) _ _ (omega arith) (
          if-AreHigh (leb 225 c && leb c 239) _ _ (omega arith) (
            if-AreHigh (c == 240) _ _ (omega arith) (
              if-AreHigh (leb 241 c && leb c 243) _ _ (omega arith)
                (if-AreHigh (c == 244) _ _ (omega arith) (omega arith))))))))

pub tail_of-ascii : (c : ℕ) → c < 128 → tail_of c ≡ []
unfolding tail_of
tail_of-ascii c h = ground arith

abbrev pub AreAscii : Bytes → Type 0
AreAscii [] = Unit {0}
AreAscii (c ∷ s) = (c < 128) × AreAscii s

-- Bytes of ASCII are whole characters.
pub utf8_from-ascii : (s t : Bytes) → AreAscii s → utf8_from [] (s ++ t) ≡ utf8_from [] t
unfolding utf8_from
utf8_from-ascii [] t h = refl
utf8_from-ascii (c ∷ s) t h =
    ap (λ b. utf8_from b (s ++ t)) (tail_of-ascii c h.0) ∙ utf8_from-ascii s t h.1

pub utf8_from-broken :
    (b : Bounds) (bs : List Bounds) (c : ℕ) (s : Bytes)
    → AreHigh (b ∷ bs)
    → c < 128
    → utf8_from (b ∷ bs) (c ∷ s) ≡ false
unfolding utf8_from
utf8_from-broken (low, high) bs c s h small =
    let below : leb low c ≡ false = ground (arith, h.0) in rw below refl
