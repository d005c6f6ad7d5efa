-- ===== src/Prelude/Members.antt =====
-- Some item of a list has a property.
use mathlib.Core.Logic.{◌⊎◌, inl, inr}
use mathlib.Core.List.{List, [], ◌∷◌, ◌++◌}
use sse_gateway.Prelude.Lists.{All}

-- Some item of a list.
abbrev pub Any {ℓ} : {A : Type ℓ} → (A → Type 0) → List A → Type 0
Any P [] = ⊥
Any P (x ∷ l) = P x ⊎ Any P l

module _ {ℓ} {A : Type ℓ} (P : A → Type 0) where
  pub Any-left : (l r : List A) → Any P l → Any P (l ++ r)
  Any-left [] r h = absurd h
  Any-left (x ∷ l) r (inl p) = inl p
  Any-left (x ∷ l) r (inr h) = inr (Any-left l r h)

  -- another item in the place of one
  pub Any-put :
      (before : List A) (x y : A) (after : List A)
      → (P x → P y)
      → Any P (before ++ x ∷ after)
      → Any P (before ++ y ∷ after)
  Any-put [] x y after f (inl p) = inl (f p)
  Any-put [] x y after f (inr h) = inr h
  Any-put (z ∷ l) x y after f (inl p) = inl p
  Any-put (z ∷ l) x y after f (inr h) = inr (Any-put l x y after f h)

  pub Any-without :
      (before : List A) (x : A) (after : List A)
      → (P x → ⊥)
      → Any P (before ++ x ∷ after)
      → Any P (before ++ after)
  Any-without [] x after f (inl p) = absurd (f p)
  Any-without [] x after f (inr h) = h
  Any-without (z ∷ l) x after f (inl p) = inl p
  Any-without (z ∷ l) x after f (inr h) = inr (Any-without l x after f h)

  pub Any-there : (before : List A) (x : A) (after : List A) → P x → Any P (before ++ x ∷ after)
  Any-there [] x after p = inl p
  Any-there (z ∷ l) x after p = inr (Any-there l x after p)

  -- an item of a list of which all have another property
  pub Any-All : {Q : A → Type 0} (l : List A) → Any P l → All Q l → (x : A) × P x × Q x
  Any-All [] h k = absurd h
  Any-All (x ∷ l) (inl p) k = (x, p, k.0)
  Any-All (x ∷ l) (inr h) k = Any-All l h k.1
