-- ===== src/Prelude/Lists.antt =====
-- Lists over the native numbers, and sets of texts as lists without repetition.
use Prim.Native.Nat.{ℕ, zero, suc, ◌+◌}
use mathlib.Core.Path.{◌≡◌, refl}
use mathlib.Core.Bool.{Bool, true, false, not, ◌||◌}
use mathlib.Core.Option.{Option, none, some}
use mathlib.Core.List.{List, [], ◌∷◌, ◌++◌}
use native.Mathlib.Omega.{arith}
use sse_gateway.Prelude.Texts.{Text, ◌==◌, ==_sym, if◌then◌else◌}

module _ {ℓ} {A : Type ℓ} where
  abbrev pub length : List A → ℕ
  length [] = 0
  length (x ∷ xs) = suc (length xs)

  pub length-append : (xs ys : List A) → length (xs ++ ys) ≡ length xs + length ys
  length-append [] ys = omega arith
  length-append (x ∷ xs) ys = omega (arith, length-append xs ys)

  abbrev pub drop : ℕ → List A → List A
  drop zero xs = xs
  drop (suc n) [] = []
  drop (suc n) (x ∷ xs) = drop n xs

  -- `Vec::retain`, and the `filter` of an iterator
  abbrev pub retain : (A → Bool) → List A → List A
  retain keep [] = []
  retain keep (x ∷ xs) = let rest = retain keep xs in if keep x then x ∷ rest else rest

abbrev pub is_some {ℓ} : {A : Type ℓ} → Option A → Bool
is_some none = false
is_some (some a) = true

-- `Vec::contains`
abbrev pub contains : Text → List Text → Bool
contains a [] = false
contains a (x ∷ xs) = a == x || contains a xs

-- No text stands twice in the list.
abbrev pub Distinct : List Text → Type 0
Distinct [] = Unit
Distinct (x ∷ xs) = (contains x xs ≡ false) × Distinct xs

-- Association lists: what a map's iterator yields.
module _ {ℓ} {V : Type ℓ} where
  abbrev pub lookup : Text → List (Text × V) → Option V
  lookup k [] = none
  lookup k ((j, v) ∷ m) = if k == j then some v else lookup k m

  abbrev pub keys : List (Text × V) → List Text
  keys [] = []
  keys ((k, v) ∷ m) = k ∷ keys m

pub contains-append :
    (a : Text) (xs ys : List Text) → contains a (xs ++ ys) ≡ (contains a xs || contains a ys)
contains-append a [] ys = refl
contains-append a (x ∷ xs) ys = ground (arith, contains-append a xs ys)

-- `retain` by inequality takes out one text.
pub contains-retain_ne :
    (a b : Text) (xs : List Text)
    → contains a (retain (λ x. not (x == b)) xs) ≡ (if a == b then false else contains a xs)
contains-retain_ne a b [] = ground arith
contains-retain_ne a b (x ∷ xs) = ground (arith, contains-retain_ne a b xs)

pub retain_ne-Distinct :
    (b : Text) (xs : List Text) → Distinct xs → Distinct (retain (λ x. not (x == b)) xs)
retain_ne-Distinct b [] h = tt
retain_ne-Distinct b (x ∷ xs) h =
    ground (arith, retain_ne-Distinct b xs h.1, contains-retain_ne x b xs)

pub concat-Distinct :
    (a : Text) (xs : List Text) → Distinct xs → contains a xs ≡ false → Distinct (xs ++ a ∷ [])
concat-Distinct a [] h n = (refl, tt)
concat-Distinct a (x ∷ xs) h n =
    ground (arith, concat-Distinct a xs h.1, contains-append x xs (a ∷ []))

-- An entry of a map's iteration is what a search for its key finds.
abbrev pub All {ℓ κ} : {A : Type ℓ} → (A → Type κ) → List A → Type κ
All P [] = Unit
All P (x ∷ xs) = P x × All P xs

module _ {ℓ} {V : Type ℓ} (f : Text → Option V) where
  pub All-lookup :
      (l : List (Text × V))
      → Distinct (keys l)
      → ((k : Text) → contains k (keys l) ≡ true → f k ≡ lookup k l)
      → All (λ ((k, v) : Text × V). f k ≡ some v) l
  All-lookup [] d h = tt
  All-lookup ((k, v) ∷ l) d h = (ground (arith, h k), All-lookup l d.1 λ j c. ground (arith, h j))

module _ {ℓ} {V : Type ℓ} where
  pub contains-keys : (k : Text) (l : List (Text × V)) → contains k (keys l) ≡ is_some (lookup k l)
  contains-keys k [] = refl
  contains-keys k ((j, v) ∷ l) = ground (arith, contains-keys k l)

-- Two lists without repetition that hold the same texts are equally long.
retain_ne_absent :
    (a : Text) (xs : List Text) → contains a xs ≡ false → retain (λ x. not (x == a)) xs ≡ xs
retain_ne_absent a [] c = refl
retain_ne_absent a (x ∷ xs) c = ground (arith, retain_ne_absent a xs)

pub length-retain_ne :
    (a : Text) (xs : List Text)
    → Distinct xs
    → contains a xs ≡ true
    → length xs ≡ suc (length (retain (λ x. not (x == a)) xs))
length-retain_ne a [] d c = cc
length-retain_ne a (x ∷ xs) d c = ground (arith, length-retain_ne a xs d.1, retain_ne_absent a xs)

pub length_of_same :
    (xs ys : List Text)
    → Distinct xs
    → Distinct ys
    → ((a : Text) → contains a xs ≡ contains a ys)
    → length xs ≡ length ys
length_of_same [] [] d e h = refl
length_of_same [] (y ∷ ys) d e h = ground (arith, h y)
length_of_same (x ∷ xs) ys d e h =
    let there : contains x ys ≡ true = ground (arith, h x) in
    let same : (a : Text) → contains a xs ≡ contains a (retain (λ y. not (y == x)) ys) =
      λ a. ground (arith, contains-retain_ne a x ys, h a) in
    omega (
      arith,
      length-retain_ne x ys e there,
      length_of_same xs _ d.1 (retain_ne-Distinct x ys e) same,
    )

-- Taking an item out of the middle of a list.
module _ {ℓ κ} {A : Type ℓ} (P : A → Type κ) where
  pub All-append : (xs ys : List A) → All P xs → All P ys → All P (xs ++ ys)
  All-append [] ys h k = k
  All-append (x ∷ xs) ys h k = (h.0, All-append xs ys h.1 k)

  pub All-middle : (xs : List A) (y : A) (ys : List A) → All P (xs ++ y ∷ ys) → P y
  All-middle [] y ys h = h.0
  All-middle (x ∷ xs) y ys h = All-middle xs y ys h.1

  pub All-without : (xs : List A) (y : A) (ys : List A) → All P (xs ++ y ∷ ys) → All P (xs ++ ys)
  All-without [] y ys h = h.1
  All-without (x ∷ xs) y ys h = (h.0, All-without xs y ys h.1)

  pub All-put : (xs : List A) (y : A) (ys : List A) → P y → All P (xs ++ ys) → All P (xs ++ y ∷ ys)
  All-put [] y ys p h = (p, h)
  All-put (x ∷ xs) y ys p h = (h.0, All-put xs y ys p h.1)

pub All-map {ℓ κ μ} :
    {A : Type ℓ} {P : A → Type κ} {Q : A → Type μ}
    → ((a : A) → P a → Q a)
    → (xs : List A) → All P xs
    → All Q xs
All-map f [] h = tt
All-map f (x ∷ xs) h = (f x h.0, All-map f xs h.1)

pub contains-middle :
    (a y : Text) (xs ys : List Text) → contains a (xs ++ y ∷ ys) ≡ (a == y || contains a (xs ++ ys))
contains-middle a y [] ys = refl
contains-middle a y (x ∷ xs) ys = ground (arith, contains-middle a y xs ys)

pub Distinct-middle :
    (y : Text) (xs ys : List Text)
    → Distinct (xs ++ y ∷ ys)
    → Distinct (xs ++ ys) × (contains y (xs ++ ys) ≡ false)
Distinct-middle y [] ys d = (d.1, d.0)
Distinct-middle y (x ∷ xs) ys d =
    ground (arith, Distinct-middle y xs ys d.1, contains-middle x y xs ys, ==_sym x y)
