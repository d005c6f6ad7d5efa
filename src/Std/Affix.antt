-- ===== src/Std/Affix.antt =====
-- `strip_prefix`, `strip_suffix` and `trim`.
use mathlib.Core.List.{reverse, reverse-append, reverse-reverse}
use mathlib.Core.Option
use sse_gateway.Prelude.{
  ℕ, ◌≡◌, refl, ap, sym, ◌∙◌, Text, Option, none, some, Bool, [], ◌∷◌, ◌++◌, if◌then◌else◌, eqb,
  arith, leb, ◌&&◌, ◌||◌,
}

unfoldable pub strip_prefix : Text → Text → Option Text
strip_prefix [] s = some s
strip_prefix (p ∷ ps) [] = none
strip_prefix (p ∷ ps) (c ∷ s) = let rest = strip_prefix ps s in if eqb p c then rest else none

unfoldable pub strip_suffix : Text → Text → Option Text
unfolding strip_prefix
strip_suffix p s = Option.map reverse (strip_prefix (reverse p) (reverse s))

abbrev is_space : ℕ → Bool
is_space c = eqb c 32 || leb 9 c && leb c 13

trim_start : Text → Text
trim_start [] = []
trim_start (c ∷ s) = let rest = trim_start s in if is_space c then rest else c ∷ s

-- Of the text of a header, which is visible ASCII, blanks and tabs.
unfoldable pub trim : Text → Text
unfolding trim_start
trim s = reverse (trim_start (reverse (trim_start s)))

pub strip_prefix-append : (p s : Text) → strip_prefix p (p ++ s) ≡ some s
unfolding strip_prefix
strip_prefix-append [] s = refl
strip_prefix-append (c ∷ p) s = ground (arith, strip_prefix-append p s)

-- A prefix that is stripped stood there.
pub strip_prefix_sound : (p s : Text) {r : Text} → strip_prefix p s ≡ some r → s ≡ p ++ r
unfolding strip_prefix
strip_prefix_sound [] s h = ground arith
strip_prefix_sound (c ∷ p) [] h = cc
strip_prefix_sound (c ∷ p) (d ∷ s) {r} h = ground (arith, strip_prefix_sound p s {r = r})

pub strip_suffix-append : (p s : Text) → strip_suffix p (s ++ p) ≡ some s
unfolding strip_suffix
strip_suffix-append p s =
    rw (reverse-append s p, strip_prefix-append (reverse p) (reverse s))
      (ap some (reverse-reverse s))

-- A suffix that is stripped stood there.
pub strip_suffix_sound : (p s : Text) {r : Text} → strip_suffix p s ≡ some r → s ≡ r ++ p
unfolding strip_suffix
strip_suffix_sound p s {r} h =
    let (t, e, back) =
      (Option.map-eq-some_iff reverse (strip_prefix (reverse p) (reverse s))).0 h in
    sym (reverse-reverse s)
    ∙ ap reverse (strip_prefix_sound (reverse p) (reverse s) e)
    ∙ reverse-append (reverse p) t
    ∙ ap (λ u. reverse t ++ u) (reverse-reverse p)
    ∙ ap (λ u. u ++ p) back
