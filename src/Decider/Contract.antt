-- ===== src/Decider/Contract.antt =====
-- The trait `Decider` of src/decider.rs as an interface, with the contract that its comment states.
use mathlib.Core.List.{Perm, Nodup, Sublist, sublist-append_left}
use mathlib.Core.List.Perm
use mathlib.Core.List.Nodup
use rpc_plus_plus.Prelude.Perms.{length-perm}
use rpc_plus_plus.Upstream.Build.{Upstream}
use rpc_plus_plus.Prelude.{
  ℕ, min, ◌≡◌, ap, subst, ◌∙◌, Bool, true, Option, some, List, length, take, length-take,
  take-append-drop,
}

-- `decide` returns the chain and the decider after it; `none` would be a panic (an index out of
-- range).
pub record Decider : Type 1 where
  pub State : Type 0
  pub decide : State → ℕ → Option (List Upstream × State)
  pub upstream_len : State → ℕ
  pub ready : State → Bool

-- The default of the trait.
abbrev pub always_ready {ℓ} : {S : Type ℓ} → S → Bool
always_ready s = true

-- The head of length `max` of some arrangement of the pool.
abbrev pub IsChain : ℕ → List Upstream → List Upstream → Type 0
IsChain max pool chain = (order : List Upstream) × Perm order pool × (chain ≡ take max order)

-- The contract: every decision succeeds with a chain, and the pool only changes its order.
pub record IsDecider (d : Decider) : Type 0 where
  pub pool : d.State → List Upstream
  pub decides :
      (s : d.State) (max : ℕ)
      → (chain : List Upstream) × (s' : d.State) × (d.decide s max ≡ some (chain, s'))
        × IsChain max (pool s) chain
        × Perm (pool s') (pool s)
  pub counts : (s : d.State) → d.upstream_len s ≡ length (pool s)

pub IsChain-length :
    (max : ℕ) (pool chain : List Upstream)
    → IsChain max pool chain
    → length chain ≡ min max (length pool)
IsChain-length max pool chain (order, p, e) =
    rw e (length-take max order ∙ ap (min max) (length-perm p))

-- A chain has no upstream twice if the pool has none twice.
pub IsChain-Nodup :
    (max : ℕ) (pool chain : List Upstream) → IsChain max pool chain → Nodup pool → Nodup chain
IsChain-Nodup max pool chain (order, p, e) h = rw e (
    Nodup.sublist
      (subst (λ l. Sublist (take max order) l) (take-append-drop max order)
        (sublist-append_left _ _))
      (Perm.nodup (Perm.symm p) h))
