-- ===== src/Base/Permuted.antt =====
-- Permutations of lists: what an insertion sort keeps, also under a filter.

use mathlib.Core.List.Perm
use botfam.Base.{Perm, Bool, true, false, List, ◌∷◌, if◌then◌else◌, Bool-cases, inl, inr}
use botfam.Base.Lists.{filter}

module _ {A : Type 0} where
  -- `rest` is what the insertion of `x` into `xs` gives
  pub insert-perm :
      (b : Bool) (x y : A) (xs rest : List A)
      → Perm rest (x ∷ xs)
      → Perm (if b then x ∷ y ∷ xs else y ∷ rest) (x ∷ y ∷ xs)
  insert-perm true x y xs rest h = Perm.rfl
  insert-perm false x y xs rest h = Perm.trans (Perm.cons y h) (Perm.swap x y xs)

  module _ (p : A → Bool) where
    pub filter-cons-perm :
        (x : A) (xs ys : List A)
        → Perm (filter p xs) (filter p ys)
        → Perm (filter p (x ∷ xs)) (filter p (x ∷ ys))
    unfolding filter
    filter-cons-perm x xs ys h = elim (Bool-cases (p x)) [
      | inl e ↦ rw e (Perm.cons x h)
      | inr e ↦ rw e h
    ]

    filter-swap-perm :
        (x y : A) (xs : List A) → Perm (filter p (y ∷ x ∷ xs)) (filter p (x ∷ y ∷ xs))
    unfolding filter
    filter-swap-perm x y xs = elim (Bool-cases (p x)) [
      | inl e ↦ elim (Bool-cases (p y)) [
        | inl f ↦ rw (e, f) (Perm.swap x y (filter p xs))
        | inr f ↦ rw (e, f) Perm.rfl
      ]
      | inr e ↦ elim (Bool-cases (p y)) [ inl f ↦ rw (e, f) Perm.rfl | inr f ↦ rw (e, f) Perm.rfl ]
    ]

    pub filter-insert-perm :
        (b : Bool) (x y : A) (xs rest : List A)
        → Perm (filter p rest) (filter p (x ∷ xs))
        → Perm (filter p (if b then y ∷ rest else x ∷ y ∷ xs)) (filter p (x ∷ y ∷ xs))
    filter-insert-perm true x y xs rest h =
        Perm.trans (filter-cons-perm y rest (x ∷ xs) h) (filter-swap-perm x y xs)
    filter-insert-perm false x y xs rest h = Perm.rfl
