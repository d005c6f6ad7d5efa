-- ===== src/Std/Utf8.antt =====
-- `String::from_utf8` and `from_utf8_lossy`: which byte sequences are UTF-8, and what is made of others.
use sse_gateway.Prelude.{
  ℕ, zero, suc, ◌≡◌, refl, sym, ap, ◌∙◌, ◌++◌, append-nil, append_assoc, Option-cases, Bool-cases,
  arith, inl, inr, Text, codes, Option, none, some, Bool, true, false, ◌&&◌, [], ◌∷◌, leb, eqb, ltb,
  if◌then◌else◌,
}

-- A lead byte: how many bytes follow, and the range of the first of them.
lead : ℕ → Option (ℕ × ℕ × ℕ)
lead c =
    if ltb c 128
    then some (0, 0, 0)
    else if ltb c 194
    then none
    else if ltb c 224
    then some (1, 128, 191)
    else if eqb c 224
    then some (2, 160, 191)
    else if eqb c 237
    then some (2, 128, 159)
    else if ltb c 240
    then some (2, 128, 191)
    else if eqb c 240
    then some (3, 144, 191)
    else if ltb c 244
    then some (3, 128, 191)
    else if eqb c 244
    then some (3, 128, 143)
    else none

utf8_from : Text → ℕ → ℕ → ℕ → Bool
unfolding lead
utf8_from [] n lo hi = eqb n 0
utf8_from (c ∷ s) zero lo hi = elim (lead c) [ none ↦ false | some (n, l, h) ↦ utf8_from s n l h ]
utf8_from (c ∷ s) (suc n) lo hi =
    let rest = utf8_from s n 128 191 in if leb lo c && leb c hi then rest else false

unfoldable pub is_utf8 : Text → Bool
unfolding utf8_from
is_utf8 s = utf8_from s 0 0 0

unfoldable pub from_utf8 : Text → Option Text
from_utf8 s = if is_utf8 s then some s else none

-- The bytes of `U+FFFD`, which stands for bytes that are no character.
abbrev replacement : Text
replacement = 0xef ∷ 0xbf ∷ 0xbd ∷ []

-- What is left to read, the bytes of the character so far, and how many of it are to come, with the
-- range of the next.
lossy_from : Text → Text → ℕ → ℕ → ℕ → Text
unfolding lead
lossy_from [] begun zero lo hi = begun
lossy_from [] begun (suc n) lo hi = replacement
lossy_from (c ∷ s) begun zero lo hi = begun ++ elim (lead c) [
  | none ↦ replacement ++ lossy_from s [] 0 0 0
  | some (n, l, h) ↦ lossy_from s (c ∷ []) n l h
]
lossy_from (c ∷ s) begun (suc n) lo hi =
    if leb lo c && leb c hi
    then lossy_from s (begun ++ c ∷ []) n 128 191
    else replacement ++ elim (lead c) [
      | none ↦ replacement ++ lossy_from s [] 0 0 0
      | some (m, l, h) ↦ lossy_from s (c ∷ []) m l h
    ]

-- `String::from_utf8_lossy`: each longest part that could begin a character is replaced once.
unfoldable pub from_utf8_lossy : Text → Text
unfolding lossy_from
from_utf8_lossy s = lossy_from s [] 0 0 0

lossy-utf8_from :
    (s begun : Text) (n lo hi : ℕ)
    → utf8_from s n lo hi ≡ true
    → lossy_from s begun n lo hi ≡ begun ++ s
unfolding utf8_from lossy_from
lossy-utf8_from [] begun zero lo hi h = sym (append-nil begun)
lossy-utf8_from [] begun (suc n) lo hi h = absurd (ground (arith, h))
lossy-utf8_from (c ∷ s) begun zero lo hi h = elim (Option-cases (lead c)) [
  | inl e ↦ absurd (ground (arith, h, e))
  | inr ((n, l, u), e) ↦
      rw (lossy_from, e)
        (ap (λ l. begun ++ l) (lossy-utf8_from s (c ∷ []) n l u (ground (arith, h, e))))
]
lossy-utf8_from (c ∷ s) begun (suc n) lo hi h = elim (Bool-cases (leb lo c && leb c hi)) [
  | inl e ↦ rw e (
      lossy-utf8_from s (begun ++ c ∷ []) n 128 191 (ground (arith, h, e))
      ∙ append_assoc begun (c ∷ []) s)
  | inr e ↦ absurd (ground (arith, h, e))
]

-- UTF-8 is left as it is.
pub from_utf8_lossy-is_utf8 : (s : Text) → is_utf8 s ≡ true → from_utf8_lossy s ≡ s
unfolding is_utf8 from_utf8_lossy
from_utf8_lossy-is_utf8 s h = lossy-utf8_from s [] 0 0 0 h

samples :
    (is_utf8 (codes "ascii") ≡ true)
    × (is_utf8 (0xe4 ∷ 0xbc ∷ 0x98 ∷ []) ≡ true)
    × (is_utf8 (0xed ∷ 0xa0 ∷ 0x80 ∷ []) ≡ false)
    × (is_utf8 (0xc3 ∷ []) ≡ false)
    × (from_utf8_lossy (b'a' ∷ 0xe4 ∷ 0xbc ∷ b'b' ∷ []) ≡ b'a' ∷ 0xef ∷ 0xbf ∷ 0xbd ∷ b'b' ∷ [])
unfolding is_utf8 from_utf8_lossy
samples = (refl, refl, refl, refl, refl)
