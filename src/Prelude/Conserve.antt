-- ===== src/Prelude/Conserve.antt =====
-- What goes in and what comes out over a run, up to the order.
use mathlib.Core.Path.{◌≡◌, subst}
use mathlib.Core.List.{List, [], ◌∷◌, ◌++◌, Perm, perm_middle, append-nil, append_assoc}
use mathlib.Core.List.Perm

module _ {ℓ} {A : Type ℓ} where
  pub Perm-kept : (l : List A) → Perm l (l ++ [])
  Perm-kept l = rw append-nil (Perm.refl l)

  -- one item comes out
  pub Perm-taken :
      {l : List A} (before : List A) (x : A) (after : List A)
      → l ≡ before ++ x ∷ after
      → Perm (x ∷ before ++ after) (l ++ [])
  Perm-taken before x after e = rw (append-nil, e) (Perm.symm (perm_middle before after))

  -- one item goes in and comes out
  pub Perm-through : (x : A) (l : List A) → Perm (x ∷ l) (l ++ x ∷ [])
  Perm-through x l =
      subst (λ r. Perm (x ∷ r) (l ++ x ∷ [])) (append-nil l) (Perm.symm (perm_middle l []))

  -- one part of a run and then another
  pub Perm-then :
      (l0 l1 l2 o1 i1 o2 i2 : List A)
      → Perm (o1 ++ l1) (l0 ++ i1)
      → Perm (o2 ++ l2) (l1 ++ i2)
      → Perm ((o1 ++ o2) ++ l2) (l0 ++ (i1 ++ i2))
  Perm-then l0 l1 l2 o1 i1 o2 i2 p q =
      rw (append_assoc o1 o2 l2, ← append_assoc l0 i1 i2)
        (Perm.trans (Perm.append_left o1 q) (rw (← append_assoc o1 l1 i2) (Perm.append_right i2 p)))
