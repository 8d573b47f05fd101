-- ===== src/Prelude/SortUnique.antt =====
-- Sorting by an order that tells all elements apart has one result, so that an unstable sort gives it
-- as well.
use mathlib.Core.Path.{◌≡◌, refl, sym, ap₂, subst, ◌∙◌}
use mathlib.Core.Logic.{∥∥₁_elim, inl, inr}
use mathlib.Core.Bool.{Bool, true, Bool-set}
use mathlib.Core.List.{List, [], ◌∷◌, Perm, Permᴰ}
use mathlib.Core.List.Perm
use native.Mathlib.Omega.{arith}
use rpc_plus_plus.Prelude.Tests.{Bool-cases}
use rpc_plus_plus.Prelude.Lists.{All, all}
use rpc_plus_plus.Prelude.Perms.{length-perm}
use rpc_plus_plus.Prelude.Sort.{IsPreorder, IsSortedBy}

module _ {ℓ} {A : Type ℓ} (test : A → Bool) where
  all-permᴰ : {xs ys : List A} → Permᴰ xs ys → all test xs ≡ all test ys
  all-permᴰ Permᴰ.nil = refl
  all-permᴰ (Permᴰ.cons x p) = ground (arith, all-permᴰ p)
  all-permᴰ (Permᴰ.swap x y) = ground arith
  all-permᴰ (Permᴰ.trans p q) = all-permᴰ p ∙ all-permᴰ q

  all-perm : {xs ys : List A} → Perm xs ys → all test xs ≡ all test ys
  all-perm p = ∥∥₁_elim p (Bool-set _ _) all-permᴰ

  All-all : (xs : List A) → All (λ x. test x ≡ true) xs → all test xs ≡ true
  All-all [] h = refl
  All-all (x ∷ xs) h = ground (arith, h.0, All-all xs h.1)

module _ {ℓ} {A : Type ℓ} (le : A → A → Bool) (order : IsPreorder le) where
  le_self : (a : A) → le a a ≡ true
  le_self a = elim (Bool-cases (le a a)) [ inl y ↦ y | inr n ↦ order.total a a n ]

  -- The head of a sorted list is below every head of an arrangement of it.
  head_le :
      (x y : A) (xs ys : List A) → Perm (x ∷ xs) (y ∷ ys) → IsSortedBy le (x ∷ xs) → le x y ≡ true
  head_le x y xs ys p sorted =
      let here : all (le x) (x ∷ xs) ≡ true = All-all (le x) (x ∷ xs) (le_self x, sorted.0) in
      let there : all (le x) (y ∷ ys) ≡ true = sym (all-perm (le x) p) ∙ here in ground arith

  pub sorted_unique :
      ((a b : A) → le a b ≡ true → le b a ≡ true → a ≡ b)
      → (xs ys : List A) → Perm xs ys
      → IsSortedBy le xs
      → IsSortedBy le ys
      → xs ≡ ys
  sorted_unique anti [] [] p h k = refl
  sorted_unique anti [] (y ∷ ys) p h k = absurd (omega (arith, length-perm p))
  sorted_unique anti (x ∷ xs) [] p h k = absurd (omega (arith, length-perm p))
  sorted_unique anti (x ∷ xs) (y ∷ ys) p h k =
      let same : x ≡ y = anti x y (head_le x y xs ys p h) (head_le y x ys xs (Perm.symm p) k) in
      let rest : Perm xs ys = Perm.cons_inv (subst (λ z. Perm (x ∷ xs) (z ∷ ys)) (sym same) p) in
      ap₂ (λ z zs. z ∷ zs) same (sorted_unique anti xs ys rest h.1 k.1)
