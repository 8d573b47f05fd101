-- ===== src/Prelude/AssocKeys.antt =====
-- Association lists whose keys differ: such a list is its keys, each with what a lookup finds.
use rpc_plus_plus.Prelude.Options.{is_some}
use rpc_plus_plus.Prelude.Assoc.{Eq, lookup, insert, keys}
use rpc_plus_plus.Prelude.AssocLaws.{beq-cases, cons-same, cons-other, insert-some}
use rpc_plus_plus.Prelude.{
  ◌≡◌, refl, sym, ap₂, subst, ◌∙◌, inl, inr, Bool, true, false, not, ◌&&◌, ◌||◌, none, some, List,
  [], ◌∷◌, map, arith, Bool-cases,
}

module _ {ℓ} {K : Type ℓ} ⦃e : Eq K⦄ where
  unfoldable pub has : K → List K → Bool
  has k [] = false
  has k (j ∷ js) = e.beq j k || has k js

  abbrev pub IsDistinct : List K → Type 0
  IsDistinct [] = Unit {0}
  IsDistinct (k ∷ ks) = (has k ks ≡ false) × IsDistinct ks

  -- The same as a test.
  unfoldable pub distinct : List K → Bool
  unfolding has
  distinct [] = true
  distinct (k ∷ ks) = not (has k ks) && distinct ks

  pub distinct→IsDistinct : (ks : List K) → distinct ks ≡ true → IsDistinct ks
  unfolding distinct
  distinct→IsDistinct [] h = tt
  distinct→IsDistinct (k ∷ ks) h = (ground arith, distinct→IsDistinct ks (ground arith))

module _ {ℓ κ} {K : Type ℓ} {V : Type κ} ⦃e : Eq K⦄ where
  pub lookup-has : (k : K) (m : List (K × V)) → has k (keys m) ≡ false → lookup k m ≡ none
  unfolding lookup has
  lookup-has k [] h = refl
  lookup-has k ((j, v) ∷ m) h = ground (arith, lookup-has k m)

  pub has-lookup : (k : K) (m : List (K × V)) (v : V) → lookup k m ≡ some v → has k (keys m) ≡ true
  unfolding lookup has
  has-lookup k [] v h = absurd (ground arith)
  has-lookup k ((j, w) ∷ m) v h = elim (Bool-cases (e.beq j k)) [
    | inl y ↦ rw y refl
    | inr n ↦ rw n (has-lookup k m v (rw n at h))
  ]

  pub is_some-has : (k : K) (m : List (K × V)) → is_some (lookup k m) ≡ has k (keys m)
  unfolding lookup has
  is_some-has k [] = refl
  is_some-has k ((j, v) ∷ m) = ground (arith, is_some-has k m)

  -- The list again, from its keys and what stands under each.
  pub map-keys :
      (f : K → V) (m : List (K × V))
      → IsDistinct (keys m)
      → ((k : K) (v : V) → lookup k m ≡ some v → v ≡ f k)
      → m ≡ map (λ k. (k, f k)) (keys m)
  map-keys f [] d h = refl
  map-keys f ((j, w) ∷ m) d h =
      let head : w ≡ f j = h j w (cons-same j w m) in
      let tail : m ≡ map (λ k. (k, f k)) (keys m) = map-keys f m d.1 (λ k v found.
        elim (beq-cases j k) [
          | inl same ↦
              let absent : lookup j m ≡ none = lookup-has j m d.0 in
              let there : lookup j m ≡ some v = subst (λ x. lookup x m ≡ some v) (sym same) found in
              absurd (ground arith)
          | inr other ↦ h k v (cons-other j k w m other ∙ found)
        ]) in
      ap₂ (λ x xs. (j, x) ∷ xs) head tail

  has-insert_other :
      (j k : K) (v : V) (m : List (K × V))
      → e.beq k j ≡ false
      → has j (keys m) ≡ false
      → has j (keys (insert k v m)) ≡ false
  unfolding has insert
  has-insert_other j k v [] n h = rw n refl
  has-insert_other j k v ((i, w) ∷ m) n h =
      ground (arith, has-insert_other j k v m n, e.beq_iff i k)

  pub insert-IsDistinct :
      (k : K) (v : V) (m : List (K × V)) → IsDistinct (keys m) → IsDistinct (keys (insert k v m))
  unfolding insert
  insert-IsDistinct k v [] d = unfold has in (refl, tt)
  insert-IsDistinct k v ((i, w) ∷ m) d = elim (beq-cases i k) [
    | inl same ↦
        let level : e.beq i k ≡ true = (e.beq_iff i k).1 same in
        rw level (subst (λ x. has x (keys m) ≡ false) same d.0, d.1)
    | inr other ↦
        let back : e.beq k i ≡ false = ground (arith, e.beq_iff i k, e.beq_iff k i) in
        rw other (has-insert_other i k v m back d.0, insert-IsDistinct k v m d.1)
  ]

  -- What holds of every value holds after an insertion of such a value.
  pub lookup-insert_all :
      (P : V → Type κ) (k : K) (v : V) (m : List (K × V))
      → P v
      → ((j : K) (w : V) → lookup j m ≡ some w → P w)
      → (j : K) (w : V) → lookup j (insert k v m) ≡ some w
      → P w
  lookup-insert_all P k v m p h j w found = elim (insert-some k j v w m found) [
    | inl (same, same_value) ↦ subst P same_value p
    | inr (other, there) ↦ h j w there
  ]
