-- ===== src/Jsonrpc/FaultText.antt =====
-- Which bodies carry a fault and which faults are retryable (src/jsonrpc/mod.rs), in terms of the
-- texts that occur in them.
use rpc_plus_plus.Prelude.Text.{Text, codes, starts_with, find, contains}
use rpc_plus_plus.Prelude.Int.{ℤ, pos, negsuc, neg, ◌==ℤ◌}
use rpc_plus_plus.Prelude.Options.{>>=-eq-some, some_inj, is_some}
use rpc_plus_plus.Jsonrpc.Libs.{Memchr, IsMemchr, Libs, ErrorObject}
use rpc_plus_plus.Jsonrpc.Fault.{
  error_key, RpcFault, is_retryable, rpc_fault_in, is_transient, is_retryable-contains,
  rpc_fault_in-contains,
}
use rpc_plus_plus.Prelude.{
  ◌≡◌, refl, sym, ap, subst, ap₂, ◌∙◌, ◌↔◌, ◌⊎◌, inl, inr, Bool, true, false, not, ◌&&◌, ◌||◌, some,
  [], ◌∷◌, ◌++◌, arith, Bool-cases, Option-cases,
}

-- The text occurs in `s`.
abbrev pub Occurs : Text → Text → Type 0
Occurs t s = (before : Text) × (after : Text) × (s ≡ before ++ (t ++ after))

starts_with-append : (t after : Text) → starts_with t (t ++ after) ≡ true
unfolding starts_with
starts_with-append [] after = refl
starts_with-append (c ∷ t) after = ground (arith, starts_with-append t after)

starts_with-split : (t s : Text) → starts_with t s ≡ true → (after : Text) × (s ≡ t ++ after)
unfolding starts_with
starts_with-split [] s h = (s, refl)
starts_with-split (c ∷ t) [] h = absurd (ground arith)
starts_with-split (c ∷ t) (d ∷ s) h =
    let (after, same) = starts_with-split t s (ground arith) in
    (after, ap₂ (λ x y. x ∷ y) (ground arith) same)

contains-Occurs : (t s : Text) → contains t s ≡ true → Occurs t s
unfolding contains find
contains-Occurs [] [] h = ([], [], refl)
contains-Occurs (c ∷ t) [] h = absurd (ground arith)
contains-Occurs t (d ∷ s) h = elim (Bool-cases (starts_with t (d ∷ s))) [
  | inl here ↦ let (after, same) = starts_with-split t (d ∷ s) here in ([], after, same)
  | inr later ↦ elim (Option-cases (find t s)) [
    | inl gone ↦ absurd (ground arith)
    | inr (k, found) ↦
        let (before, after, same) = contains-Occurs t s (rw found refl) in
        (d ∷ before, after, ap (λ x. d ∷ x) same)
  ]
]

contains-append : (t before after : Text) → contains t (before ++ (t ++ after)) ≡ true
unfolding contains find
contains-append [] [] [] = refl
contains-append [] [] (c ∷ after) = unfold starts_with in refl
contains-append (c ∷ t) [] after = rw (starts_with-append (c ∷ t) after) refl
contains-append t (d ∷ before) after = ground (arith, contains-append t before after)

pub contains_iff : (t s : Text) → (contains t s ≡ true) ↔ Occurs t s
contains_iff t s = (
  contains-Occurs t s,
  λ (before, after, same). ap (contains t) same ∙ contains-append t before after,
)

eq→≡ : (a b : ℤ) → (a ==ℤ b) ≡ true → a ≡ b
eq→≡ (pos a) (pos b) h = ap pos (ground arith)
eq→≡ (negsuc a) (negsuc b) h = ap negsuc (ground arith)
eq→≡ (pos a) (negsuc b) h = absurd (ground arith)
eq→≡ (negsuc a) (pos b) h = absurd (ground arith)

-- The faults that another attempt may cure: by their code alone, or geth's catch-all without the
-- text of a revert.
abbrev pub IsCurable : ℤ → Text → Type 0
IsCurable code message =
    (code ≡ neg 32005)
    ⊎ ((code ≡ neg 32002)
        ⊎ ((code ≡ neg 32603)
            ⊎ ((code ≡ neg 32000) × ¬ Occurs (codes "execution reverted") message)))

retryable-IsCurable :
    (m : Memchr) (code : ℤ) (message : Text)
    → IsMemchr m
    → is_retryable m code message ≡ true
    → IsCurable code message
retryable-IsCurable m code message law h =
    let told = sym (is_retryable-contains m code message law) ∙ h in
    elim (Bool-cases (code ==ℤ neg 32005)) [
      | inl a ↦ inl (eq→≡ code (neg 32005) a)
      | inr a ↦ elim (Bool-cases (code ==ℤ neg 32002)) [
        | inl b ↦ inr (inl (eq→≡ code (neg 32002) b))
        | inr b ↦ elim (Bool-cases (code ==ℤ neg 32603)) [
          | inl c ↦ inr (inr (inl (eq→≡ code (neg 32603) c)))
          | inr c ↦ elim (Bool-cases (code ==ℤ neg 32000)) [
            | inl d ↦ elim (Bool-cases (contains (codes "execution reverted") message)) [
              | inl there ↦ absurd (ground arith)
              | inr out ↦ inr (
                  inr (
                    inr (
                      eq→≡ code (neg 32000) d,
                      λ occurs.
                          let there =
                            (contains_iff (codes "execution reverted") message).1 occurs in
                          ground arith,
                    )))
            ]
            | inr d ↦ absurd (ground arith)
          ]
        ]
      ]
    ]

IsCurable-retryable :
    (m : Memchr) (code : ℤ) (message : Text)
    → IsMemchr m
    → IsCurable code message
    → is_retryable m code message ≡ true
IsCurable-retryable m code message law curable =
    is_retryable-contains m code message law ∙ of_cause curable
  where
    of_cause :
        IsCurable code message
        → (is_transient code
            || ((code ==ℤ neg 32000) && not (contains (codes "execution reverted") message)))
          ≡ true
    of_cause (inl e) = rw e refl
    of_cause (inr (inl e)) = rw e refl
    of_cause (inr (inr (inl e))) = rw e refl
    of_cause (inr (inr (inr (e, out)))) =
        elim (Bool-cases (contains (codes "execution reverted") message)) [
          | inl there ↦ absurd (out (contains-Occurs (codes "execution reverted") message there))
          | inr gone ↦ rw (e, gone) refl
        ]

-- A fault is retryable exactly if its code is -32005, -32002 or -32603, or it is -32000 and the text
-- `execution reverted` occurs nowhere in its message.
pub is_retryable_iff :
    (m : Memchr) (code : ℤ) (message : Text)
    → IsMemchr m
    → (is_retryable m code message ≡ true) ↔ IsCurable code message
is_retryable_iff m code message law =
    (retryable-IsCurable m code message law, IsCurable-retryable m code message law)

-- What a body says of its fault.
abbrev pub Carries : Libs → Text → RpcFault → Type 0
Carries libs body fault =
    Occurs (codes "\"error\"") body
    × (e : ErrorObject) × (libs.serde.error_envelope body ≡ some (some e))
    × (fault.code ≡ e.code)
    × ((fault.retryable ≡ true) ↔ IsCurable e.code e.message)

fault-Carries :
    (libs : Libs) (body : Text) (fault : RpcFault)
    → IsMemchr libs.memchr
    → rpc_fault_in libs body ≡ some fault
    → Carries libs body fault
unfolding rpc_fault_in
fault-Carries libs body fault law h =
    let (k, found, rest) = >>=-eq-some (libs.memchr.memmem error_key body) _ h in
    let (envelope, read, inner) = >>=-eq-some (libs.serde.error_envelope body) _ rest in
    let (e, is_there, made) = >>=-eq-some envelope _ inner in
    let same = some_inj made in
    let there : contains (codes "\"error\"") body ≡ true =
      unfold contains in ap is_some (sym (law.memmem_first error_key body) ∙ found) in
    (
      contains-Occurs (codes "\"error\"") body there,
      e,
      read ∙ ap some is_there,
      ap (λ (x : RpcFault). x.code) (sym same),
      subst (λ b. (b ≡ true) ↔ IsCurable e.code e.message) (ap (λ (x : RpcFault). x.retryable) same)
          (is_retryable_iff libs.memchr e.code e.message law),
    )

same_truth : (a b : Bool) → (a ≡ true → b ≡ true) → (b ≡ true → a ≡ true) → a ≡ b
same_truth true true h k = refl
same_truth true false h k = sym (h refl)
same_truth false true h k = k refl
same_truth false false h k = refl

Carries-fault :
    (libs : Libs) (body : Text) (fault : RpcFault)
    → IsMemchr libs.memchr
    → Carries libs body fault
    → rpc_fault_in libs body ≡ some fault
Carries-fault libs body fault law (occurs, e, read, code, (only, all)) =
    let curable = is_retryable_iff libs.memchr e.code e.message law in
    let retryable : is_retryable libs.memchr e.code e.message ≡ fault.retryable =
      same_truth _ _ (λ h. all (curable.0 h)) (λ h. curable.1 (only h)) in
    rpc_fault_in-contains libs body law
    ∙ (rw ((contains_iff (codes "\"error\"") body).1 occurs, read)
        (ap₂ (λ c b. some (record { code = c; retryable = b })) (sym code) retryable))

-- A body carries a fault exactly if the text `"error"` occurs in it and the reader finds an error
-- object in it: a fault of that object's code, retryable exactly if the code is -32005, -32002 or
-- -32603, or is -32000 and the text `execution reverted` occurs nowhere in the object's message.
pub rpc_fault_in_iff :
    (libs : Libs) (body : Text) (fault : RpcFault)
    → IsMemchr libs.memchr
    → (rpc_fault_in libs body ≡ some fault) ↔ Carries libs body fault
rpc_fault_in_iff libs body fault law =
    (fault-Carries libs body fault law, Carries-fault libs body fault law)
