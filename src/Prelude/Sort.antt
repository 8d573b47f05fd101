-- ===== src/Prelude/Sort.antt =====
-- The stable sort of the standard library (`slice::sort_by`), as insertion sort by a Boolean order.
-- On values that the order tells apart `sort_unstable_by` is the same function.
use mathlib.Core.Path.{◌≡◌, refl, ap, ◌∙◌}
use mathlib.Core.Logic.{inl, inr, ◌⊎◌}
use mathlib.Core.Bool.{Bool, true, false, ◌&&◌}
use mathlib.Core.List.{List, [], ◌∷◌, map, Perm}
use mathlib.Core.List.Perm
use native.Mathlib.Omega.{arith}
use rpc_plus_plus.Prelude.Tests.{if◌then◌else◌, Bool-cases}
use rpc_plus_plus.Prelude.Lists.{All}

module _ {ℓ} {A : Type ℓ} (le : A → A → Bool) where
  unfoldable pub insert_by : A → List A → List A
  insert_by x [] = x ∷ []
  insert_by x (y ∷ ys) = if le x y then x ∷ y ∷ ys else y ∷ insert_by x ys

  unfoldable pub sort_by : List A → List A
  unfolding insert_by
  sort_by [] = []
  sort_by (x ∷ xs) = insert_by x (sort_by xs)

  pub record IsPreorder : Type ℓ where
    pub total : (a b : A) → le a b ≡ false → le b a ≡ true
    pub trans : (a b c : A) → le a b ≡ true → le b c ≡ true → le a c ≡ true

  abbrev pub IsSortedBy : List A → Type 0
  IsSortedBy [] = Unit {0}
  IsSortedBy (x ∷ xs) = All (λ y. le x y ≡ true) xs × IsSortedBy xs

  insert_by-perm : (x : A) (ys : List A) → Perm (insert_by x ys) (x ∷ ys)
  unfolding insert_by
  insert_by-perm x [] = Perm.refl _
  insert_by-perm x (y ∷ ys) = elim (Bool-cases (le x y)) [
    | inl e ↦ rw e (Perm.refl _)
    | inr e ↦ rw e (Perm.trans (Perm.cons y (insert_by-perm x ys)) (Perm.swap x y ys))
  ]

  -- A sort keeps the elements.
  pub sort_by-perm : (xs : List A) → Perm (sort_by xs) xs
  unfolding sort_by
  sort_by-perm [] = Perm.refl _
  sort_by-perm (x ∷ xs) = Perm.trans (insert_by-perm x (sort_by xs)) (Perm.cons x (sort_by-perm xs))

  All-insert_by :
      (z x : A) (ys : List A)
      → le z x ≡ true
      → All (λ y. le z y ≡ true) ys
      → All (λ y. le z y ≡ true) (insert_by x ys)
  unfolding insert_by
  All-insert_by z x [] h a = (h, tt)
  All-insert_by z x (y ∷ ys) h a = elim (Bool-cases (le x y)) [
    | inl e ↦ rw e (h, a)
    | inr e ↦ rw e (a.0, All-insert_by z x ys h a.1)
  ]

  All-trans :
      (x y : A) (ys : List A)
      → IsPreorder
      → le x y ≡ true
      → All (λ z. le y z ≡ true) ys
      → All (λ z. le x z ≡ true) ys
  All-trans x y [] o h a = tt
  All-trans x y (z ∷ ys) o h a = (o.trans x y z h a.0, All-trans x y ys o h a.1)

  insert_by-IsSortedBy :
      (x : A) (ys : List A) → IsPreorder → IsSortedBy ys → IsSortedBy (insert_by x ys)
  unfolding insert_by
  insert_by-IsSortedBy x [] o s = (tt, tt)
  insert_by-IsSortedBy x (y ∷ ys) o s = elim (Bool-cases (le x y)) [
    | inl e ↦ rw e ((e, All-trans x y ys o e s.0), s)
    | inr e ↦ rw e (All-insert_by y x ys (o.total x y e) s.0, insert_by-IsSortedBy x ys o s.1)
  ]

  pub sort_by-IsSortedBy : (xs : List A) → IsPreorder → IsSortedBy (sort_by xs)
  unfolding sort_by
  sort_by-IsSortedBy [] o = tt
  sort_by-IsSortedBy (x ∷ xs) o = insert_by-IsSortedBy x (sort_by xs) o (sort_by-IsSortedBy xs o)

  -- The elements that are level with `k`, in their order.
  unfoldable pub level : A → List A → List A
  level k [] = []
  level k (x ∷ xs) = let rest = level k xs in if le x k && le k x then x ∷ rest else rest

  level-insert_by :
      (k x : A) (ys : List A) → IsPreorder → level k (insert_by x ys) ≡ level k (x ∷ ys)
  unfolding insert_by level
  level-insert_by k x [] o = refl
  level-insert_by k x (y ∷ ys) o = elim (Bool-cases (le x y)) [
    | inl e ↦ rw e
    | inr e ↦ rw e (ground (arith, level-insert_by k x ys o, o.trans x k y))
  ]

  -- The sort is stable: elements that the order does not tell apart keep their order.
  pub level-sort_by : (k : A) (xs : List A) → IsPreorder → level k (sort_by xs) ≡ level k xs
  unfolding sort_by level
  level-sort_by k [] o = refl
  level-sort_by k (x ∷ xs) o =
      level-insert_by k x (sort_by xs) o ∙ ground (arith, level-sort_by k xs o)

  -- The head of a sorted list is the head of the given one, unless something is strictly before it.
  pub sort_by-head :
      (x : A) (xs : List A)
      → (y : A) × (ys : List A) × (sort_by (x ∷ xs) ≡ y ∷ ys) × ((y ≡ x) ⊎ (le x y ≡ false))
  unfolding sort_by
  sort_by-head x xs = of_sorted (sort_by xs)
    where
      of_sorted :
          (zs : List A)
          → (y : A) × (ys : List A) × (insert_by x zs ≡ y ∷ ys) × ((y ≡ x) ⊎ (le x y ≡ false))
      of_sorted [] = (x, [], refl, inl refl)
      of_sorted (z ∷ zs) = elim (Bool-cases (le x z)) [
        | inl e ↦ (x, z ∷ zs, rw e, inl refl)
        | inr e ↦ (z, insert_by x zs, rw e, inr e)
      ]

  module _ {κ} (P : A → Type κ) where
    All-insert : (x : A) (ys : List A) → P x → All P ys → All P (insert_by x ys)
    unfolding insert_by
    All-insert x [] h a = (h, tt)
    All-insert x (y ∷ ys) h a = elim (Bool-cases (le x y)) [
      | inl e ↦ rw e (h, a)
      | inr e ↦ rw e (a.0, All-insert x ys h a.1)
    ]

    pub All-sort_by : (xs : List A) → All P xs → All P (sort_by xs)
    unfolding sort_by
    All-sort_by [] a = tt
    All-sort_by (x ∷ xs) a = All-insert x (sort_by xs) a.0 (All-sort_by xs a.1)

-- An injection of the order: sorting the images is taking the images of the sorted list.
module _ {ℓ κ} {A : Type ℓ} {B : Type κ} (le : A → A → Bool) (le' : B → B → Bool) (f : A → B) where
  map-insert_by :
      ((a b : A) → le' (f a) (f b) ≡ le a b)
      → (x : A) (ys : List A) → insert_by le' (f x) (map f ys) ≡ map f (insert_by le x ys)
  unfolding insert_by
  map-insert_by agree x [] = refl
  map-insert_by agree x (y ∷ ys) = elim (Bool-cases (le x y)) [
    | inl e ↦ rw (agree x y, e) refl
    | inr e ↦ rw (agree x y, e) (ap (◌∷◌ (f y)) (map-insert_by agree x ys))
  ]

  pub map-sort_by :
      ((a b : A) → le' (f a) (f b) ≡ le a b)
      → (xs : List A) → sort_by le' (map f xs) ≡ map f (sort_by le xs)
  unfolding sort_by
  map-sort_by agree [] = refl
  map-sort_by agree (x ∷ xs) =
      ap (insert_by le' (f x)) (map-sort_by agree xs) ∙ map-insert_by agree x (sort_by le xs)
