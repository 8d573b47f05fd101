-- ===== src/Prelude/AssocLog.antt =====
-- A sequence of updates of an association list, each at a key: what it does to one entry, and to the
-- whole list.
use mathlib.Core.Option
use rpc_plus_plus.Prelude.Options.{some_inj}
use rpc_plus_plus.Prelude.Assoc.{Eq, lookup, insert, update, keys, lookup-update, keys-update}
use rpc_plus_plus.Prelude.AssocKeys.{has, IsDistinct, map-keys}
use rpc_plus_plus.Prelude.{
  ◌≡◌, refl, sym, ap, ◌∙◌, inl, inr, false, Option, none, some, List, [], ◌∷◌, ◌++◌, map, arith,
  if◌then◌else◌, Bool-cases, Option-cases,
}

module _ {ℓ κ} {K : Type ℓ} {V : Type κ} ⦃e : Eq K⦄ where
  unfoldable pub apply : List (K × (V → V)) → List (K × V) → List (K × V)
  apply [] m = m
  apply ((k, g) ∷ log) m = apply log (update k g m)

  -- The updates at the key, one after another.
  abbrev pub act : K → List (K × (V → V)) → V → V
  act k [] v = v
  act k ((j, g) ∷ log) v = act k log (if e.beq j k then g v else v)

  act-cons :
      (k j : K) (g : V → V) (log : List (K × (V → V))) (o : Option V)
      → Option.map (act k log) (if e.beq j k then Option.map g o else o)
        ≡ Option.map (act k ((j, g) ∷ log)) o
  act-cons k j g log none = elim (Bool-cases (e.beq j k)) [ inl y ↦ rw y refl | inr n ↦ rw n refl ]
  act-cons k j g log (some v) = elim (Bool-cases (e.beq j k)) [
    | inl y ↦ rw y refl
    | inr n ↦ rw n refl
  ]

  map-nothing : (k : K) (o : Option V) → Option.map (act k []) o ≡ o
  map-nothing k none = refl
  map-nothing k (some v) = refl

  pub lookup-apply :
      (k : K) (log : List (K × (V → V))) (m : List (K × V))
      → lookup k (apply log m) ≡ Option.map (act k log) (lookup k m)
  unfolding apply
  lookup-apply k [] m = sym (map-nothing k (lookup k m))
  lookup-apply k ((j, g) ∷ log) m =
      lookup-apply k log (update j g m)
      ∙ (ap (Option.map (act k log)) (lookup-update j k g m) ∙ act-cons k j g log (lookup k m))

  pub keys-apply : (log : List (K × (V → V))) (m : List (K × V)) → keys (apply log m) ≡ keys m
  unfolding apply
  keys-apply [] m = refl
  keys-apply ((j, g) ∷ log) m = keys-apply log (update j g m) ∙ keys-update j g m

  -- The whole list after the updates, where all entries started alike and no key stands twice.
  pub apply-table :
      (v : V) (log : List (K × (V → V))) (m : List (K × V))
      → IsDistinct (keys m)
      → ((k : K) (w : V) → lookup k m ≡ some w → w ≡ v)
      → apply log m ≡ map (λ k. (k, act k log v)) (keys m)
  apply-table v log m d alike =
      map-keys (λ k. act k log v) (apply log m) (rw (keys-apply log m) d)
        (λ k w found. elim (Option-cases (lookup k m)) [
          | inl absent ↦
              let gone : lookup k (apply log m) ≡ none = lookup-apply k log m ∙ rw absent refl in
              absurd (ground arith)
          | inr (u, there) ↦
              let kept : lookup k (apply log m) ≡ some (act k log u) =
                lookup-apply k log m ∙ rw there refl in
              some_inj (sym found ∙ kept) ∙ ap (act k log) (alike k u there)
        ])
      ∙ rw (keys-apply log m) refl

  -- A new key goes to the end.
  pub keys-insert_fresh :
      (k : K) (v : V) (m : List (K × V))
      → has k (keys m) ≡ false
      → keys (insert k v m) ≡ keys m ++ k ∷ []
  unfolding insert has
  keys-insert_fresh k v [] h = refl
  keys-insert_fresh k v ((j, w) ∷ m) h = ground (arith, keys-insert_fresh k v m)
