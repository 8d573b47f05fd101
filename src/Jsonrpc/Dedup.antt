-- ===== src/Jsonrpc/Dedup.antt =====
-- `dedup_key` of src/jsonrpc/mod.rs: the key under which equal concurrent reads share one call.
use rpc_plus_plus.Prelude.Text.{Text, codes, text_eq, text_eq_iff, text_eq_self}
use rpc_plus_plus.Jsonrpc.Libs.{Serde, Value, Fields, Items}
use rpc_plus_plus.Jsonrpc.Method.{is_idempotent_read}
use rpc_plus_plus.Prelude.{
  ℕ, ◌≡◌, refl, sym, ◌∙◌, true, false, not, Option, none, some, [], ◌++◌, arith, if◌then◌else◌,
}

pub record DedupKey : Type 0 where
  pub hash : ℕ

-- `Map::get` and what `Map::remove` leaves.
unfoldable pub get : Text → Fields → Option Value
get k Fields.end = none
get k (Fields.field j v fs) = if text_eq j k then some v else get k fs

unfoldable pub remove : Text → Fields → Fields
remove k Fields.end = Fields.end
remove k (Fields.field j v fs) = if text_eq j k then fs else Fields.field j v (remove k fs)

-- `Xxh3Writer`: what was written so far, to be hashed in one piece.
pub record Xxh3Writer : Type 0 where
  pub written : Text

unfoldable pub write : Xxh3Writer → Text → Xxh3Writer
write w buf = record { written = w.written ++ buf }

-- The hasher over the method, then the parameters.
unfoldable pub key_of : Serde → Text → Value → DedupKey
unfolding write
key_of serde method params =
    let hasher = write (record { written = [] }) (serde.to_text (Value.string method)) in
    let hasher' = write hasher (serde.to_text params) in
    record { hash = serde.digest128 hasher'.written }

-- The rest of the function, once the `method` entry of the request has been read.
unfoldable pub key_for : Serde → Option Value → Value → Option DedupKey
key_for serde (some (Value.string method)) params =
    if not (is_idempotent_read method) then none else some (key_of serde method params)
key_for serde _ params = none

unfoldable pub params_or_empty : Option Value → Value
params_or_empty none = Value.array Items.nil
params_or_empty (some v) = v

unfoldable pub key_of_value : Serde → Option Value → Option DedupKey
unfolding key_for params_or_empty
key_of_value serde (some (Value.object request)) =
    let params = params_or_empty (get (codes "params") request) in
    let request' = remove (codes "params") request in
    key_for serde (get (codes "method") request') params
key_of_value serde _ = none

unfoldable pub dedup_key : Serde → Text → Option DedupKey
unfolding key_of_value
dedup_key serde body = key_of_value serde (serde.value body)

get-remove : (j k : Text) (fs : Fields) → text_eq j k ≡ false → get k (remove j fs) ≡ get k fs
unfolding get remove
get-remove j k Fields.end h = refl
get-remove j k (Fields.field i v fs) h =
    ground (arith, text_eq_iff i j, text_eq_iff i k, text_eq_self j, get-remove j k fs h)

method_after_params :
    (fs : Fields) → get (codes "method") (remove (codes "params") fs) ≡ get (codes "method") fs
method_after_params fs = get-remove (codes "params") (codes "method") fs (unfold text_eq in refl)

-- The key depends on the method and the parameters alone, absent parameters counting as `[]`: two
-- request objects that agree on these have one key, whatever their ids and their other entries.
pub dedup_key-eq :
    (serde : Serde) (a b : Text) (fa fb : Fields)
    → serde.value a ≡ some (Value.object fa)
    → serde.value b ≡ some (Value.object fb)
    → get (codes "method") fa ≡ get (codes "method") fb
    → params_or_empty (get (codes "params") fa) ≡ params_or_empty (get (codes "params") fb)
    → dedup_key serde a ≡ dedup_key serde b
unfolding dedup_key key_of_value
dedup_key-eq serde a b fa fb ha hb hm hp =
    rw (ha, hb, method_after_params fa, method_after_params fb, hm, hp)

key_for-read :
    (serde : Serde) (m : Option Value) (params : Value) (k : DedupKey)
    → key_for serde m params ≡ some k
    → (method : Text) × (m ≡ some (Value.string method))
      × (is_idempotent_read method ≡ true)
      × (k ≡ key_of serde method params)
unfolding key_for
key_for-read serde none params k h = cc
key_for-read serde (some (Value.string method)) params k h =
    (method, refl, ground arith, ground arith)
key_for-read serde (some _) params k h = cc

-- Only an idempotent read is ever coalesced: a body that has a key is an object whose `method` is a
-- string on the list of reads, and the key hashes that method and its parameters.
pub dedup_key-read :
    (serde : Serde) (body : Text) (k : DedupKey)
    → dedup_key serde body ≡ some k
    → (fs : Fields) × (method : Text) × (serde.value body ≡ some (Value.object fs))
      × (get (codes "method") fs ≡ some (Value.string method))
      × (is_idempotent_read method ≡ true)
      × (k ≡ key_of serde method (params_or_empty (get (codes "params") fs)))
unfolding dedup_key
dedup_key-read serde body k h = of_value (serde.value body) h
  where
    of_value :
        (v : Option Value)
        → key_of_value serde v ≡ some k
        → (fs : Fields) × (method : Text) × (v ≡ some (Value.object fs))
          × (get (codes "method") fs ≡ some (Value.string method))
          × (is_idempotent_read method ≡ true)
          × (k ≡ key_of serde method (params_or_empty (get (codes "params") fs)))
    of_value none e = cc
    of_value (some (Value.object fs)) e =
        let (method, em, r, ek) = key_for-read serde _ _ k e in
        (fs, method, refl, sym (method_after_params fs) ∙ em, r, ek)
    of_value (some _) e = cc
