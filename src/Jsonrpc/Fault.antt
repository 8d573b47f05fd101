-- ===== src/Jsonrpc/Fault.antt =====
-- `rpc_fault_in` of src/jsonrpc/mod.rs: the JSON-RPC error that a response body carries, if any.
use rpc_plus_plus.Prelude.Text.{Text, codes, contains}
use rpc_plus_plus.Prelude.Int.{ℤ, pos, negsuc, neg, ◌==ℤ◌}
use rpc_plus_plus.Prelude.Options.{◌>>=◌, is_some}
use rpc_plus_plus.Jsonrpc.Libs.{Memchr, IsMemchr, Libs}
use rpc_plus_plus.Prelude.{
  ◌≡◌, refl, Bool, true, false, not, ◌&&◌, ◌||◌, Option, none, some, arith, if◌then◌else◌,
}

abbrev pub jsonrpc_internal_error : ℤ
jsonrpc_internal_error = neg 32603

abbrev pub limit_exceeded : ℤ
limit_exceeded = neg 32005

abbrev pub resource_unavailable : ℤ
resource_unavailable = neg 32002

abbrev pub geth_server_error : ℤ
geth_server_error = neg 32000

abbrev pub error_key : Text
error_key = codes "\"error\""

abbrev pub reverted : Text
reverted = codes "execution reverted"

pub record RpcFault : Type 0 where
  pub code : ℤ
  pub retryable : Bool

unfoldable pub is_retryable : Memchr → ℤ → Text → Bool
is_retryable m code message =
    if (code ==ℤ limit_exceeded)
      || (code ==ℤ resource_unavailable)
      || (code ==ℤ jsonrpc_internal_error)
    then true
    else if code ==ℤ geth_server_error
    then not (is_some (m.memmem reverted message))
    else false

unfoldable pub rpc_fault_in : Libs → Text → Option RpcFault
rpc_fault_in libs body = do
  _ ← libs.memchr.memmem error_key body
  envelope ← libs.serde.error_envelope body
  error ← envelope
  some (record { code = error.code; retryable = is_retryable libs.memchr error.code error.message })

-- The codes that a retry may cure, whatever the message says.
abbrev pub is_transient : ℤ → Bool
is_transient code = (code ==ℤ neg 32005) || (code ==ℤ neg 32002) || (code ==ℤ neg 32603)

-- A fault is retryable exactly when its code is one of the three transient ones, or geth's
-- catch-all -32000 with a message that nowhere says `execution reverted`.
pub is_retryable-contains :
    (m : Memchr) (code : ℤ) (message : Text)
    → IsMemchr m
    → is_retryable m code message
      ≡ (is_transient code || ((code ==ℤ neg 32000) && not (contains reverted message)))
unfolding is_retryable contains
is_retryable-contains m (pos n) message law = refl
is_retryable-contains m (negsuc n) message law =
    rw (law.memmem_first reverted message) (ground arith)

-- A body with no `"error"` in it is never parsed and carries no fault; otherwise the fault is that
-- of the envelope's error object, code and retryability, and none where the reader finds no object.
pub rpc_fault_in-contains :
    (libs : Libs) (body : Text)
    → IsMemchr libs.memchr
    → rpc_fault_in libs body ≡ (
        if contains error_key body
        then elim (libs.serde.error_envelope body) [
          | some (some e) ↦
              some (record { code = e.code; retryable = is_retryable libs.memchr e.code e.message })
          | _ ↦ none
        ]
        else none)
unfolding rpc_fault_in contains
rpc_fault_in-contains libs body law = rw (law.memmem_first error_key body) (ground arith)
