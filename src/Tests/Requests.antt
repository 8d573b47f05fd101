-- ===== src/Tests/Requests.antt =====
-- The theorems on requests and replies (src/jsonrpc), at concrete bodies.
use rpc_plus_plus.Prelude.Text.{Text, codes, text_eq, text_leb}
use rpc_plus_plus.Prelude.Int.{neg}
use rpc_plus_plus.Jsonrpc.Libs.{Value, Fields}
use rpc_plus_plus.Jsonrpc.Shape.{shape, shape_of_first, skip_whitespace, shape-skip_whitespace}
use rpc_plus_plus.Jsonrpc.Method.{is_idempotent_read, idempotent_reads}
use rpc_plus_plus.Prelude.Text.{mem_text}
use rpc_plus_plus.Jsonrpc.Fault
use rpc_plus_plus.Jsonrpc.Fault.{RpcFault, rpc_fault_in}
use rpc_plus_plus.Jsonrpc.FaultText.{IsCurable, Carries, is_retryable_iff, rpc_fault_in_iff}
use rpc_plus_plus.Jsonrpc.Dedup.{
  DedupKey, get, remove, params_or_empty, key_of, dedup_key, dedup_key-eq, dedup_key-read,
}
use rpc_plus_plus.Jsonrpc.Request
use rpc_plus_plus.Jsonrpc.Request.{RawMap, lookup, readdress, readdress-lookup}
use rpc_plus_plus.Tests.Fixtures.{
  memchr0, memchr0-IsMemchr, serde0, serde0-IsRawMapCodec, AnyText, libs0, reading, reading_too,
  reply0, encode_map,
}
use rpc_plus_plus.Prelude.{◌≡◌, ◌↔◌, refl, ◌≢◌, true, some, [], ◌∷◌}

abbrev batch_body : Text
batch_body = codes " [{}]"

shape-skip_whitespace_example :
    shape memchr0 batch_body ≡ shape_of_first (skip_whitespace batch_body)
shape-skip_whitespace_example = shape-skip_whitespace memchr0 memchr0-IsMemchr batch_body

is_retryable_iff_example :
    (Fault.is_retryable memchr0 (neg 32000) (codes "execution reverted") ≡ true)
    ↔ IsCurable (neg 32000) (codes "execution reverted")
is_retryable_iff_example =
    is_retryable_iff memchr0 (neg 32000) (codes "execution reverted") memchr0-IsMemchr

abbrev failed_body : Text
failed_body = codes "{\"error\":{}}"

abbrev fault0 : RpcFault
fault0 = record { code = neg 32005; retryable = true }

rpc_fault_in_iff_example :
    (rpc_fault_in libs0 failed_body ≡ some fault0) ↔ Carries libs0 failed_body fault0
rpc_fault_in_iff_example = rpc_fault_in_iff libs0 failed_body fault0 memchr0-IsMemchr

abbrev fields_of : Value → Fields
fields_of (Value.object fs) = fs
fields_of _ = Fields.end

dedup_key-eq_example : dedup_key serde0 (codes "x") ≡ dedup_key serde0 []
unfolding get params_or_empty text_eq
dedup_key-eq_example =
    dedup_key-eq serde0 (codes "x") [] (fields_of reading) (fields_of reading_too) refl refl refl
      refl

abbrev key0 : DedupKey
key0 = record { hash = 0 }

dedup_key-read_example :
    (fs : Fields) × (method : Text) × (serde0.value [] ≡ some (Value.object fs))
    × (get (codes "method") fs ≡ some (Value.string method))
    × (is_idempotent_read method ≡ true)
    × (key0 ≡ key_of serde0 method (params_or_empty (get (codes "params") fs)))
unfolding dedup_key get remove text_eq is_idempotent_read mem_text idempotent_reads key_of
dedup_key-read_example = dedup_key-read serde0 [] key0 refl

abbrev map0 : RawMap
map0 = (codes "id", codes "1") ∷ (codes "result", codes "0x10") ∷ []

abbrev readdressed : Text
readdressed = encode_map ((codes "id", codes "7") ∷ (codes "result", codes "0x10") ∷ [])

readdress-lookup_example :
    (m' : RawMap) × (serde0.raw_map readdressed ≡ some m')
    × (lookup (codes "id") m' ≡ some (codes "7"))
    × ((k : Text) → k ≢ codes "id" → lookup k m' ≡ lookup k map0)
unfolding readdress text_leb text_eq Request.has_plain_keys
readdress-lookup_example =
    readdress-lookup serde0 AnyText reply0.body readdressed (codes "7") map0 serde0-IsRawMapCodec tt
      refl refl
