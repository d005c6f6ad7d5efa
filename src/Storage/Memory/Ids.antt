-- ===== src/Storage/Memory/Ids.antt =====
-- The stream ids that a storage generates differ.
use sse_gateway.Prelude.{
  length, is_empty, contains, Distinct, false, ℕ, suc, ◌+◌, ◌^◌, ◌≤◌, ◌<◌, ◌≡◌, ◌≢◌, refl, sym, ap,
  ◌∙◌, Text, List, [], ◌∷◌, ◌++◌, All, arith,
}
use sse_gateway.Extern.Json.{Json}
use sse_gateway.Extern.DashMap.{DashMap}
use sse_gateway.Std.Decimal.{
  ℤ, pos, negsuc, show, show_i64, parse-show, max_u64, IsDigit, show-IsDigit,
}
use sse_gateway.Std.Split.{split, split-append, split_whole, split_at_sep, Lacks}
use sse_gateway.Storage.Memory.{MemoryStorage, stream_id_text, generate_id}

digits_lack_dash : (s : Text) → All IsDigit s → Lacks b'-' s
digits_lack_dash [] h = tt
digits_lack_dash (c ∷ s) h = ground (arith, digits_lack_dash s h.1)

pub show-Lacks_dash : (n : ℕ) → Lacks b'-' (show n)
show-Lacks_dash n = digits_lack_dash (show n) (show-IsDigit n)

split-stream_id_pos : (n seq : ℕ) → split b'-' (show n ++ b'-' ∷ show seq) ≡ show n ∷ show seq ∷ []
split-stream_id_pos n seq =
    split-append b'-' (show n) (show seq) (show-Lacks_dash n)
    ∙ ap (λ r. show n ∷ r) (split_whole b'-' (show seq) (show-Lacks_dash seq))

-- An id of a time after the epoch has two parts, the time and the counter.
pub split-stream_id :
    (ts seq : ℕ) → split b'-' (stream_id_text (pos ts) seq) ≡ show ts ∷ show seq ∷ []
unfolding stream_id_text show_i64
split-stream_id ts seq = split-stream_id_pos ts seq

-- Before the epoch it has three.
pub split-stream_id_neg :
    (n seq : ℕ) → split b'-' (stream_id_text (negsuc n) seq) ≡ [] ∷ show (suc n) ∷ show seq ∷ []
unfolding stream_id_text show_i64
split-stream_id_neg n seq =
    split_at_sep b'-' (show (suc n) ++ b'-' ∷ show seq)
    ∙ ap (λ r. [] ∷ r) (split-stream_id_pos (suc n) seq)

last_part : List Text → Text
last_part [] = []
last_part (p ∷ []) = p
last_part (p ∷ q ∷ ps) = last_part (q ∷ ps)

last_part_lem : (ts : ℤ) (seq : ℕ) → last_part (split b'-' (stream_id_text ts seq)) ≡ show seq
unfolding last_part
last_part_lem (pos ts) seq = rw (split-stream_id ts seq)
last_part_lem (negsuc n) seq = rw (split-stream_id_neg n seq)

show_injective : (a b : ℕ) → a ≤ max_u64 → b ≤ max_u64 → show a ≡ show b → a ≡ b
show_injective a b ha hb e = cc (parse-show a ha, parse-show b hb)

-- Ids with different counters differ, whatever the clock said.
pub stream_id_injective :
    (ts ts' : ℤ) (a b : ℕ)
    → a ≤ max_u64
    → b ≤ max_u64
    → stream_id_text ts a ≡ stream_id_text ts' b
    → a ≡ b
stream_id_injective ts ts' a b ha hb e =
    show_injective a b ha hb
      (sym (last_part_lem ts a) ∙ ap (λ s. last_part (split b'-' s)) e ∙ last_part_lem ts' b)

pub stream_id_ne :
    (ts ts' : ℤ) (a b : ℕ) → a < b → b < 2 ^ 64 → stream_id_text ts a ≢ stream_id_text ts' b
stream_id_ne ts ts' a b h fits e =
    let same : a ≡ b = stream_id_injective ts ts' a b (omega arith) (omega arith) e in omega arith

module _ ⦃J : Json⦄ ⦃D : DashMap⦄ where
  -- the ids of successive calls, at the clock readings of a list
  pub generate_all : List ℤ → MemoryStorage → List Text
  generate_all [] s = []
  generate_all (ts ∷ clock) s = let (id, s') = generate_id ts s in id ∷ generate_all clock s'

  fresh_later :
      (ts : ℤ) (a : ℕ) (clock : List ℤ) (s : MemoryStorage)
      → a < s.counter
      → s.counter + length clock ≤ 2 ^ 64
      → contains (stream_id_text ts a) (generate_all clock s) ≡ false
  unfolding generate_all generate_id
  fresh_later ts a [] s h fits = refl
  fresh_later ts a (t ∷ []) s h fits = ground (arith, stream_id_ne ts t a s.counter h (omega arith))
  fresh_later ts a (t ∷ u ∷ clock) s h fits = ground (
    arith,
    stream_id_ne ts t a s.counter h (omega arith),
    fresh_later ts a (u ∷ clock) (generate_id t s).1 (omega arith) (omega arith),
  )

  -- As long as the 64-bit counter does not wrap, no id is generated twice, whatever the clock
  -- says.
  pub generate_all-Distinct :
      (clock : List ℤ) (s : MemoryStorage)
      → s.counter + length clock ≤ 2 ^ 64
      → Distinct (generate_all clock s)
  unfolding generate_all generate_id
  generate_all-Distinct [] s fits = tt
  generate_all-Distinct (t ∷ []) s fits = (refl, tt)
  generate_all-Distinct (t ∷ u ∷ clock) s fits = (
    fresh_later t s.counter (u ∷ clock) (generate_id t s).1 (omega arith) (omega arith),
    generate_all-Distinct (u ∷ clock) (generate_id t s).1 (omega arith),
  )

is_empty-append : (s t : Text) (c : ℕ) → is_empty (s ++ c ∷ t) ≡ false
is_empty-append [] t c = refl
is_empty-append (x ∷ s) t c = refl

pub stream_id_present : (ts : ℤ) (a : ℕ) → is_empty (stream_id_text ts a) ≡ false
unfolding stream_id_text
stream_id_present ts a = is_empty-append (show_i64 ts) (show a) b'-'
