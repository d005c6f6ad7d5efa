-- ===== src/Bench/Sort.antt =====
-- `sort` of a vector of numbers: the ascending list of its items.
use mathlib.Core.List.{Perm, Permᴰ}
use mathlib.Core.Logic.{∥∥₁_elim}
use sse_gateway.Prelude.{
  ℕ, ◌+◌, ◌≤◌, ◌≡◌, refl, ap, ◌∙◌, List, [], ◌∷◌, leb, length, All, Bool-cases, inl, inr, arith,
  if◌then◌else◌,
}

unfoldable pub insert : ℕ → List ℕ → List ℕ
insert x [] = x ∷ []
insert x (y ∷ l) = let rest = insert x l in if leb x y then x ∷ y ∷ l else y ∷ rest

unfoldable pub sort : List ℕ → List ℕ
unfolding insert
sort [] = []
sort (x ∷ l) = insert x (sort l)

abbrev pub sum : List ℕ → ℕ
sum [] = 0
sum (x ∷ l) = x + sum l

abbrev pub IsSorted : List ℕ → Type 0
IsSorted [] = Unit
IsSorted (x ∷ l) = All (λ y. x ≤ y) l × IsSorted l

length-insert : (x : ℕ) (l : List ℕ) → length (insert x l) ≡ length l + 1
unfolding insert
length-insert x [] = refl
length-insert x (y ∷ l) = ground (arith, length-insert x l)

pub length-sort : (l : List ℕ) → length (sort l) ≡ length l
unfolding sort
length-sort [] = refl
length-sort (x ∷ l) = omega (arith, length-insert x (sort l), length-sort l)

sum-insert : (x : ℕ) (l : List ℕ) → sum (insert x l) ≡ x + sum l
unfolding insert
sum-insert x [] = refl
sum-insert x (y ∷ l) = ground (arith, sum-insert x l)

pub sum-sort : (l : List ℕ) → sum (sort l) ≡ sum l
unfolding sort
sum-sort [] = refl
sum-sort (x ∷ l) = omega (arith, sum-insert x (sort l), sum-sort l)

module _ {ℓ} (P : ℕ → Type ℓ) where
  All-insert : (x : ℕ) (l : List ℕ) → P x → All P l → All P (insert x l)
  unfolding insert
  All-insert x [] p h = (p, h)
  All-insert x (y ∷ l) p h = elim (Bool-cases (leb x y)) [
    | inl e ↦ rw e (p, h)
    | inr e ↦ rw e (h.0, All-insert x l p h.1)
  ]

All-more : (x y : ℕ) (l : List ℕ) → x ≤ y → All (λ z. y ≤ z) l → All (λ z. x ≤ z) l
All-more x y [] p h = tt
All-more x y (z ∷ l) p h = (omega (arith, h.0), All-more x y l p h.1)

insert-IsSorted : (x : ℕ) (l : List ℕ) → IsSorted l → IsSorted (insert x l)
unfolding insert
insert-IsSorted x [] h = (tt, tt)
insert-IsSorted x (y ∷ l) h = elim (Bool-cases (leb x y)) [
  | inl e ↦ rw e ((ground arith, All-more x y l (ground arith) h.0), h)
  | inr e ↦ rw e (All-insert (λ z. y ≤ z) x l (ground arith) h.0, insert-IsSorted x l h.1)
]

pub sort-IsSorted : (l : List ℕ) → IsSorted (sort l)
unfolding sort
sort-IsSorted [] = tt
sort-IsSorted (x ∷ l) = insert-IsSorted x (sort l) (sort-IsSorted l)

insert_comm : (x y : ℕ) (l : List ℕ) → insert x (insert y l) ≡ insert y (insert x l)
unfolding insert
insert_comm x y [] = ground arith
insert_comm x y (z ∷ l) = ground (arith, insert_comm x y l)

sort_moved : {l r : List ℕ} → Permᴰ l r → sort l ≡ sort r
unfolding sort
sort_moved Permᴰ.nil = refl
sort_moved (Permᴰ.cons {a} {b} {l₁ = l} e p) =
    ap (λ x. insert x (sort l)) e ∙ ap (insert b) (sort_moved p)
sort_moved (Permᴰ.swap {a} {b} {a' = c} {l} e f) =
    insert_comm a b (sort l)
    ∙ ap (λ x. insert x (insert a (sort l))) f
    ∙ ap (λ x. insert c (insert x (sort l))) e
sort_moved (Permᴰ.trans p q) = sort_moved p ∙ sort_moved q

-- The order in which the items come does not matter.
pub sort_perm : {l r : List ℕ} → Perm l r → sort l ≡ sort r
sort_perm p = ∥∥₁_elim p (hlevel) sort_moved
