-- ===== src/Jsonrpc/Method.antt =====
-- The methods of src/jsonrpc/mod.rs: which are idempotent reads, and the label a metric gets.
use rpc_plus_plus.Prelude.Text.{Text, codes, text_eq, text_eq_iff, text_eq_self, mem_text}
use rpc_plus_plus.Jsonrpc.Libs.{Serde}
use rpc_plus_plus.Prelude.{
  ◌≡◌, refl, inl, inr, Bool, true, false, not, ◌||◌, Option, none, some, List, [], ◌∷◌, ◌++◌, arith,
  if◌then◌else◌, Bool-cases, Option-cases,
}

abbrev pub other_method : Text
other_method = codes "other"

abbrev pub sends : List Text
sends =
    codes "eth_sendRawTransaction"
    ∷ codes "eth_sendTransaction"
    ∷ codes "eth_sendRawTransactionConditional"
    ∷ codes "eth_sendBundle"
    ∷ codes "eth_sendPrivateTransaction"
    ∷ []

unfoldable pub idempotent_reads : List Text
idempotent_reads =
    codes "eth_blockNumber"
    ∷ codes "eth_call"
    ∷ codes "eth_chainId"
    ∷ codes "eth_estimateGas"
    ∷ codes "eth_createAccessList"
    ∷ codes "eth_feeHistory"
    ∷ codes "eth_gasPrice"
    ∷ codes "eth_maxPriorityFeePerGas"
    ∷ codes "eth_blobBaseFee"
    ∷ codes "eth_getBalance"
    ∷ codes "eth_getCode"
    ∷ codes "eth_getStorageAt"
    ∷ codes "eth_getProof"
    ∷ codes "eth_getTransactionCount"
    ∷ codes "eth_getLogs"
    ∷ codes "eth_getBlockByHash"
    ∷ codes "eth_getBlockByNumber"
    ∷ codes "eth_getBlockReceipts"
    ∷ codes "eth_getBlockTransactionCountByHash"
    ∷ codes "eth_getBlockTransactionCountByNumber"
    ∷ codes "eth_getTransactionByHash"
    ∷ codes "eth_getTransactionByBlockHashAndIndex"
    ∷ codes "eth_getTransactionByBlockNumberAndIndex"
    ∷ codes "eth_getTransactionReceipt"
    ∷ codes "eth_getUncleCountByBlockHash"
    ∷ codes "eth_getUncleCountByBlockNumber"
    ∷ codes "eth_getUncleByBlockHashAndIndex"
    ∷ codes "eth_getUncleByBlockNumberAndIndex"
    ∷ codes "eth_syncing"
    ∷ codes "eth_protocolVersion"
    ∷ codes "net_version"
    ∷ codes "net_listening"
    ∷ codes "net_peerCount"
    ∷ codes "web3_clientVersion"
    ∷ codes "web3_sha3"
    ∷ []

unfoldable pub is_idempotent_read : Text → Bool
is_idempotent_read method = mem_text method idempotent_reads

unfoldable pub is_write_method : Text → Bool
is_write_method method = not (is_idempotent_read method)

unfoldable pub method_labels : List Text
unfolding idempotent_reads
method_labels = idempotent_reads ++ (sends ++ (other_method ∷ []))

-- `Iterator::find(|label| *label == method)`.
unfoldable pub find_label : Text → List Text → Option Text
find_label method [] = none
find_label method (l ∷ ls) = if text_eq l method then some l else find_label method ls

-- `method_labels().find(…).unwrap_or(OTHER_METHOD)`.
unfoldable pub label_of : Text → Text
unfolding find_label
label_of method = elim (find_label method method_labels) [ none ↦ other_method | some l ↦ l ]

-- A body without a readable method is labelled `other`.
unfoldable pub method_label : Serde → Text → Text
method_label serde body = elim (serde.method_envelope body) [
  | none ↦ other_method
  | some method ↦ label_of method
]

mem_text-append :
    (t : Text) (xs ys : List Text) → mem_text t (xs ++ ys) ≡ (mem_text t xs || mem_text t ys)
unfolding mem_text
mem_text-append t [] ys = refl
mem_text-append t (x ∷ xs) ys = ground (arith, mem_text-append t xs ys)

find_label-mem :
    (method : Text) (ls : List Text)
    → find_label method ls ≡ (if mem_text method ls then some method else none)
unfolding find_label mem_text
find_label-mem method [] = refl
find_label-mem method (l ∷ ls) = ground (
  arith,
  find_label-mem method ls,
  text_eq_iff l method,
  text_eq_iff method l,
  text_eq_self method,
)

-- A method that is on the list of labels keeps its name as its label, and any other is `other`.
pub label_of-mem :
    (method : Text)
    → label_of method ≡ (if mem_text method method_labels then method else other_method)
unfolding label_of
label_of-mem method = elim (Bool-cases (mem_text method method_labels)) [
  | inl e ↦ rw e (rw (find_label-mem method method_labels, e, label_of))
  | inr e ↦ rw e (rw (find_label-mem method method_labels, e, label_of))
]

other_method_is_no_read : is_idempotent_read other_method ≡ false
unfolding is_idempotent_read mem_text idempotent_reads text_eq
other_method_is_no_read = refl

read_is_label :
    (method : Text) → is_idempotent_read method ≡ true → mem_text method method_labels ≡ true
unfolding is_idempotent_read method_labels
read_is_label method h =
    rw (mem_text-append method idempotent_reads (sends ++ (other_method ∷ []))) (rw h refl)

is_idempotent_read-label_of :
    (method : Text) → is_idempotent_read (label_of method) ≡ is_idempotent_read method
is_idempotent_read-label_of method =
    rw (label_of-mem method) (elim (Bool-cases (mem_text method method_labels)) [
      | inl e ↦ rw e
      | inr e ↦ elim (Bool-cases (is_idempotent_read method)) [
        | inl r ↦ absurd (ground (arith, read_is_label method r))
        | inr r ↦ rw (e, r) other_method_is_no_read
      ]
    ])

-- What the dispatcher asks of the label it could as well ask of the method: a request counts as a
-- write exactly when its method cannot be read from the body or is not an idempotent read.
pub is_write_method-method_label :
    (serde : Serde) (body : Text)
    → is_write_method (method_label serde body) ≡ (elim (serde.method_envelope body) [
      | none ↦ true
      | some method ↦ not (is_idempotent_read method)
    ])
unfolding is_write_method method_label
is_write_method-method_label serde body = elim (Option-cases (serde.method_envelope body)) [
  | inl e ↦ rw (e, method_label) (rw other_method_is_no_read refl)
  | inr (method, e) ↦ rw (e, method_label) (rw (is_idempotent_read-label_of method))
]
