-- ===== src/Observer/Ordered.antt =====
-- The order of the sorted views of src/observer/mod.rs: by label, and the only one there is.
use mathlib.Core.List.{Perm}
use mathlib.Core.List.Perm
use rpc_plus_plus.Prelude.Text.{Text, text_eq, text_eq_iff, text_leb}
use rpc_plus_plus.Prelude.TextOrder.{text_leb_total, text_leb_trans, text_leb_antisym}
use rpc_plus_plus.Prelude.Sort.{sort_by, sort_by-perm, sort_by-IsSortedBy, IsPreorder, IsSortedBy}
use rpc_plus_plus.Prelude.SortUnique.{sorted_unique}
use rpc_plus_plus.Jsonrpc.Method.{method_labels}
use rpc_plus_plus.Upstream.Build.{UpstreamId}
use rpc_plus_plus.Observer.Metrics.{Pair, new, Observed, observe_all}
use rpc_plus_plus.Observer.Views.{id_le, pair_le, snapshots, hedge_snapshots, failovers, requests}
use rpc_plus_plus.Observer.Tables.{tracked, tracked_pairs}
use rpc_plus_plus.Observer.Seen.{
  snapshots_seen, hedge_snapshots_seen, failovers_seen, requests_seen,
}
use rpc_plus_plus.Prelude.{
  ◌≡◌, refl, sym, ap, ap₂, subst, ◌∙◌, ◌↔◌, inl, inr, Bool, true, false, List, [], ◌∷◌, map, arith,
  Bool-cases,
}

-- The view has exactly these keys, as often as they are given and in the order, and
-- no other arrangement of them is in the order.
pub record IsInOrder {K V : Type 0} (le : K → K → Bool) (ks : List K) (view : List (K × V))
    : Type 0 where
  pub sorted : IsSortedBy le (map (λ e. e.0) view)
  pub complete : Perm (map (λ e. e.0) view) ks
  pub only : (js : List K) → Perm js ks → IsSortedBy le js → js ≡ map (λ e. e.0) view

first_entries :
    {K V : Type 0} (value : K → V) (ks : List K)
    → map (λ (e : K × V). e.0) (map (λ k. (k, value k)) ks) ≡ ks
first_entries value [] = refl
first_entries value (k ∷ ks) = ap (◌∷◌ k) (first_entries value ks)

sorted-IsInOrder :
    {K V : Type 0} (le : K → K → Bool) (ks : List K) (value : K → V)
    → IsPreorder le
    → ((a b : K) → le a b ≡ true → le b a ≡ true → a ≡ b)
    → IsInOrder le ks (map (λ k. (k, value k)) (sort_by le ks))
sorted-IsInOrder le ks value order anti =
    let keys = first_entries value (sort_by le ks) in
    record {
      sorted = subst (IsSortedBy le) (sym keys) (sort_by-IsSortedBy le ks order);
      complete = subst (λ x. Perm x ks) (sym keys) (sort_by-perm le ks);
      only = λ js p h.
          sorted_unique le order anti js (sort_by le ks)
            (Perm.trans p (Perm.symm (sort_by-perm le ks))) h (sort_by-IsSortedBy le ks order)
          ∙ sym keys;
    }

text_leb-IsPreorder : IsPreorder text_leb
text_leb-IsPreorder = record { total = text_leb_total; trans = text_leb_trans }

id_le-IsPreorder : IsPreorder id_le
id_le-IsPreorder = record {
  total = λ a b. text_leb_total a.label b.label;
  trans = λ a b c. text_leb_trans a.label b.label c.label;
}

id_le_antisym : (a b : UpstreamId) → id_le a b ≡ true → id_le b a ≡ true → a ≡ b
id_le_antisym a b h k = ap (λ l. record { label = l }) (text_leb_antisym a.label b.label h k)

-- One pair before another: by the first label, and by the second where the first are the same.
abbrev IsBefore : Pair → Pair → Type 0
IsBefore p q =
    (text_leb p.overtaken.label q.overtaken.label ≡ true)
    × (p.overtaken.label ≡ q.overtaken.label → text_leb p.to.label q.to.label ≡ true)

text_leb_self : (s : Text) → text_leb s s ≡ true
text_leb_self s = elim (Bool-cases (text_leb s s)) [ inl y ↦ y | inr n ↦ text_leb_total s s n ]

pair_le_iff : (p q : Pair) → (pair_le p q ≡ true) ↔ IsBefore p q
pair_le_iff p q = elim (Bool-cases (text_eq p.overtaken.label q.overtaken.label)) [
  | inl y ↦
      let same = (text_eq_iff p.overtaken.label q.overtaken.label).0 y in
      (
        λ h. (
          subst (λ x. text_leb p.overtaken.label x ≡ true) same (text_leb_self p.overtaken.label),
          λ e. rw y at h,
        ),
        λ b. rw y (b.1 same),
      )
  | inr n ↦ (
    λ h. (
      rw n at h,
      λ e.
          let equal = (text_eq_iff p.overtaken.label q.overtaken.label).1 e in
          absurd (ground arith),
    ),
    λ b. rw n b.0,
  )
]

pair_le_antisym : (p q : Pair) → pair_le p q ≡ true → pair_le q p ≡ true → p ≡ q
pair_le_antisym p q h k =
    let b = (pair_le_iff p q).0 h in
    let c = (pair_le_iff q p).0 k in
    let first = text_leb_antisym p.overtaken.label q.overtaken.label b.0 c.0 in
    let second = text_leb_antisym p.to.label q.to.label (b.1 first) (c.1 (sym first)) in
    ap₂ (λ o t. record { overtaken = record { label = o }; to = record { label = t } }) first second

pair_le_total : (p q : Pair) → pair_le p q ≡ false → pair_le q p ≡ true
pair_le_total p q h = elim (Bool-cases (text_eq p.overtaken.label q.overtaken.label)) [
  | inl y ↦
      let same = (text_eq_iff p.overtaken.label q.overtaken.label).0 y in
      (pair_le_iff q p).1 (
        subst (λ x. text_leb x p.overtaken.label ≡ true) same (text_leb_self p.overtaken.label),
        λ e. text_leb_total p.to.label q.to.label (rw y at h),
      )
  | inr n ↦ (pair_le_iff q p).1 (
    text_leb_total p.overtaken.label q.overtaken.label (rw n at h),
    λ e.
        let equal = (text_eq_iff p.overtaken.label q.overtaken.label).1 (sym e) in
        absurd (ground arith),
  )
]

pair_le_trans : (p q r : Pair) → pair_le p q ≡ true → pair_le q r ≡ true → pair_le p r ≡ true
pair_le_trans p q r h k =
    let b = (pair_le_iff p q).0 h in
    let c = (pair_le_iff q r).0 k in
    (pair_le_iff p r).1 (
      text_leb_trans p.overtaken.label q.overtaken.label r.overtaken.label b.0 c.0,
      λ e.
          let back : text_leb q.overtaken.label p.overtaken.label ≡ true =
            subst (λ x. text_leb q.overtaken.label x ≡ true) (sym e) c.0 in
          let first = text_leb_antisym p.overtaken.label q.overtaken.label b.0 back in
          text_leb_trans p.to.label q.to.label r.to.label (b.1 first) (c.1 (sym first ∙ e)),
    )

pair_le-IsPreorder : IsPreorder pair_le
pair_le-IsPreorder = record { total = pair_le_total; trans = pair_le_trans }

-- After any calls, the four sorted views list exactly what the observer was built for (its upstreams,
-- their pairs, the labels of methods), ordered by label, and that order is the only one: a sort that
-- is not stable gives the same.
pub views-IsInOrder :
    (ids : List UpstreamId) (es : List Observed)
    → let o = observe_all (new ids) es in
      IsInOrder id_le (tracked ids) (snapshots o)
      × IsInOrder pair_le (tracked_pairs ids) (hedge_snapshots o)
      × IsInOrder id_le (tracked ids) (failovers o)
      × IsInOrder text_leb method_labels (requests o)
views-IsInOrder ids es = (
  subst (IsInOrder id_le (tracked ids)) (sym (snapshots_seen ids es))
      (sorted-IsInOrder id_le (tracked ids) _ id_le-IsPreorder id_le_antisym),
  subst (IsInOrder pair_le (tracked_pairs ids)) (sym (hedge_snapshots_seen ids es))
      (sorted-IsInOrder pair_le (tracked_pairs ids) _ pair_le-IsPreorder pair_le_antisym),
  subst (IsInOrder id_le (tracked ids)) (sym (failovers_seen ids es))
      (sorted-IsInOrder id_le (tracked ids) _ id_le-IsPreorder id_le_antisym),
  subst (IsInOrder text_leb method_labels) (sym (requests_seen ids es))
      (sorted-IsInOrder text_leb method_labels _ text_leb-IsPreorder text_leb_antisym),
)
