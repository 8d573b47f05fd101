-- ===== src/Prelude/AssocLaws.antt =====
-- Reading an association list back: what a lookup that finds something says of the list before.
use mathlib.Core.Path.{◌≡◌, refl, sym, ◌∙◌}
use mathlib.Core.Logic.{◌⊎◌, inl, inr}
use mathlib.Core.Bool.{false}
use mathlib.Core.Option
use mathlib.Core.Option.{Option, none, some}
use mathlib.Core.List.{List, ◌∷◌}
use native.Mathlib.Omega.{arith}
use rpc_plus_plus.Prelude.Tests.{Bool-cases, Option-cases}
use rpc_plus_plus.Prelude.Options.{some_inj}
use rpc_plus_plus.Prelude.Assoc.{
  Eq, beq_self, lookup, insert, remove, update, lookup-insert, lookup-remove, lookup-update,
}

pub beq-cases {ℓ} : {K : Type ℓ} ⦃e : Eq K⦄ (k j : K) → (k ≡ j) ⊎ (e.beq k j ≡ false)
beq-cases ⦃e⦄ k j = elim (Bool-cases (e.beq k j)) [
  | inl y ↦ inl ((e.beq_iff k j).0 y)
  | inr n ↦ inr n
]

module _ {ℓ κ} {K : Type ℓ} {V : Type κ} ⦃e : Eq K⦄ where
  pub insert-same : (k : K) (v : V) (m : List (K × V)) → lookup k (insert k v m) ≡ some v
  insert-same k v m = lookup-insert k k v m ∙ rw (beq_self k) refl

  pub insert-other :
      (k j : K) (v : V) (m : List (K × V))
      → e.beq k j ≡ false
      → lookup j (insert k v m) ≡ lookup j m
  insert-other k j v m h = lookup-insert k j v m ∙ rw h refl

  pub insert-some :
      (k j : K) (v w : V) (m : List (K × V))
      → lookup j (insert k v m) ≡ some w
      → ((k ≡ j) × (v ≡ w)) ⊎ ((e.beq k j ≡ false) × (lookup j m ≡ some w))
  insert-some k j v w m h = elim (Bool-cases (e.beq k j)) [
    | inl y ↦ inl ((e.beq_iff k j).0 y, some_inj (sym (lookup-insert k j v m ∙ rw y refl) ∙ h))
    | inr n ↦ inr (n, sym (insert-other k j v m n) ∙ h)
  ]

  pub cons-same : (k : K) (v : V) (m : List (K × V)) → lookup k ((k, v) ∷ m) ≡ some v
  unfolding lookup
  cons-same k v m = rw (beq_self k, lookup) refl

  pub cons-other :
      (k j : K) (v : V) (m : List (K × V)) → e.beq k j ≡ false → lookup j ((k, v) ∷ m) ≡ lookup j m
  unfolding lookup
  cons-other k j v m h = rw (h, lookup) refl

  pub cons-some :
      (k j : K) (v w : V) (m : List (K × V))
      → lookup j ((k, v) ∷ m) ≡ some w
      → ((k ≡ j) × (v ≡ w)) ⊎ ((e.beq k j ≡ false) × (lookup j m ≡ some w))
  unfolding lookup
  cons-some k j v w m h = elim (Bool-cases (e.beq k j)) [
    | inl y ↦ ground (arith, e.beq_iff k j)
    | inr n ↦ inr (n, sym (cons-other k j v m n) ∙ h)
  ]

  pub remove-other :
      (k j : K) (m : List (K × V)) → e.beq k j ≡ false → lookup j (remove k m) ≡ lookup j m
  remove-other k j m h = lookup-remove k j m ∙ rw h refl

  pub remove-some :
      (k j : K) (w : V) (m : List (K × V))
      → lookup j (remove k m) ≡ some w
      → (e.beq k j ≡ false) × (lookup j m ≡ some w)
  remove-some k j w m h = elim (Bool-cases (e.beq k j)) [
    | inl y ↦
        let gone : lookup j (remove k m) ≡ none = lookup-remove k j m ∙ rw y refl in ground arith
    | inr n ↦ (n, sym (remove-other k j m n) ∙ h)
  ]

  pub update-same :
      (k : K) (f : V → V) (v : V) (m : List (K × V))
      → lookup k m ≡ some v
      → lookup k (update k f m) ≡ some (f v)
  update-same k f v m h = lookup-update k k f m ∙ rw (beq_self k, h) refl

  pub update-other :
      (k j : K) (f : V → V) (m : List (K × V))
      → e.beq k j ≡ false
      → lookup j (update k f m) ≡ lookup j m
  update-other k j f m h = lookup-update k j f m ∙ rw h refl

  pub update-some :
      (k j : K) (f : V → V) (w : V) (m : List (K × V))
      → lookup j (update k f m) ≡ some w
      → ((k ≡ j) × (v : V) × (lookup j m ≡ some v) × (f v ≡ w))
        ⊎ ((e.beq k j ≡ false) × (lookup j m ≡ some w))
  update-some k j f w m h = elim (Bool-cases (e.beq k j)) [
    | inl y ↦
        let mapped : lookup j (update k f m) ≡ Option.map f (lookup j m) =
          lookup-update k j f m ∙ rw y refl in
        elim (Option-cases (lookup j m)) [
          | inl absent ↦
              let gone : lookup j (update k f m) ≡ none = mapped ∙ rw absent refl in ground arith
          | inr (v, found) ↦
              let kept : lookup j (update k f m) ≡ some (f v) = mapped ∙ rw found refl in
              inl ((e.beq_iff k j).0 y, v, found, some_inj (sym kept ∙ h))
        ]
    | inr n ↦ inr (n, sym (update-other k j f m n) ∙ h)
  ]
