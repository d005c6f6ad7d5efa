-- ===== src/Std/Decimal.antt =====
-- `Display` and `FromStr` of the integer types.
use mathlib.Core.List.{cons-ne-nil}
use sse_gateway.Prelude.{
  ℕ, zero, suc, ◌+◌, ◌-◌, ◌*◌, ◌/◌, ◌%◌, ◌^◌, ◌≤◌, ◌<◌, ◌≡◌, ◌≢◌, refl, ◌∙◌, Text, codes, Option,
  none, some, Bool, ◌&&◌, [], ◌∷◌, if◌then◌else◌, ltb, leb, eqb, is_empty, arith, All,
}

abbrev pub max_u64 : ℕ
max_u64 = 2 ^ 64 - 1

-- An `i64`: `negsuc n` is -(n + 1).
pub data ℤ : Type 0 where
  pos : ℕ → ℤ
  negsuc : ℕ → ℤ

-- The digits of `n` before `out`. Each round takes a digit off, so `n + 1` rounds are enough.
digits : ℕ → ℕ → Text → Text
digits zero n out = out
digits (suc fuel) n out =
    let rest = digits fuel (n / 10) ((b'0' + n % 10) ∷ out) in
    if ltb n 10 then (b'0' + n) ∷ out else rest

unfoldable pub show : ℕ → Text
unfolding digits
show n = digits (suc n) n []

unfoldable pub show_i64 : ℤ → Text
show_i64 (pos n) = show n
show_i64 (negsuc n) = b'-' ∷ show (suc n)

abbrev is_digit : ℕ → Bool
is_digit c = leb b'0' c && leb c b'9'

-- `checked_mul` and `checked_add`
scan : Text → ℕ → Option ℕ
scan [] n = some n
scan (c ∷ s) n =
    let m = n * 10 + (c - b'0') in
    let rest = scan s m in if is_digit c then (if leb m max_u64 then rest else none) else none

-- `parse::<u64>`: one leading plus sign is accepted before digits.
unfoldable pub parse_u64 : Text → Option ℕ
unfolding scan
parse_u64 [] = none
parse_u64 (c ∷ s) = if eqb c b'+' then (if is_empty s then none else scan s 0) else scan (c ∷ s) 0

show_runs : show 1203 ≡ codes "1203"
unfolding show
show_runs = refl

parse_runs :
    (parse_u64 (codes "18446744073709551615") ≡ some max_u64)
    × (parse_u64 (codes "18446744073709551616") ≡ none)
    × (parse_u64 (codes "+") ≡ none)
    × (parse_u64 (codes "-1") ≡ none)
unfolding parse_u64
parse_runs = (refl, refl, refl, refl)

-- reading the last digit of `n` after the digits before it gives `n`
scan_last : (n : ℕ) (out : Text) → n ≤ max_u64 → scan ((b'0' + n % 10) ∷ out) (n / 10) ≡ scan out n
unfolding scan
scan_last n out h = ground arith

scan_digit : (n : ℕ) (out : Text) → n < 10 → scan ((b'0' + n) ∷ out) 0 ≡ scan out n
unfolding scan
scan_digit n out h = ground arith

scan-digits :
    (fuel n : ℕ) (out : Text) → n < fuel → n ≤ max_u64 → scan (digits fuel n out) 0 ≡ scan out n
unfolding digits
scan-digits zero n out h fits = absurd (omega arith)
scan-digits (suc fuel) n out h fits = ground (
  arith,
  scan_digit n out,
  scan_last n out fits,
  scan-digits fuel (n / 10) ((b'0' + n % 10) ∷ out),
)

-- A digit is no plus, no minus.
abbrev pub IsDigit : ℕ → Type 0
IsDigit c = (b'0' ≤ c) × (c ≤ b'9')

digits-IsDigit : (fuel n : ℕ) (out : Text) → All IsDigit out → All IsDigit (digits fuel n out)
unfolding digits
digits-IsDigit zero n out h = h
digits-IsDigit (suc fuel) n out h =
    ground (arith, digits-IsDigit fuel (n / 10) ((b'0' + n % 10) ∷ out))

digits-ne-nil : (fuel n : ℕ) (out : Text) → out ≢ [] → digits fuel n out ≢ []
unfolding digits
digits-ne-nil zero n out h = h
digits-ne-nil (suc fuel) n out h =
    ground (arith, digits-ne-nil fuel (n / 10) ((b'0' + n % 10) ∷ out) (cons-ne-nil _ out))

pub show-IsDigit : (n : ℕ) → All IsDigit (show n)
unfolding show
show-IsDigit n = digits-IsDigit (suc n) n [] tt

pub show-ne-nil : (n : ℕ) → show n ≢ []
unfolding show digits
show-ne-nil n = ground (arith, digits-ne-nil n (n / 10) ((b'0' + n % 10) ∷ []) (cons-ne-nil _ []))

parse-scan : (s : Text) → s ≢ [] → All IsDigit s → parse_u64 s ≡ scan s 0
unfolding parse_u64
parse-scan [] h d = absurd (h refl)
parse-scan (c ∷ s) h d = ground arith

-- Every `u64` is read back from its decimal print.
pub parse-show : (n : ℕ) → n ≤ max_u64 → parse_u64 (show n) ≡ some n
parse-show n h =
    parse-scan (show n) (show-ne-nil n) (show-IsDigit n)
    ∙ (unfold show scan in scan-digits (suc n) n [] (omega arith) h)
