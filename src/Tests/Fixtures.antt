-- ===== src/Tests/Fixtures.antt =====
-- Concrete stand-ins for the crates, and small inputs: what the tests of the other modules run on.
use rpc_plus_plus.Prelude.Text.{Text, codes, find, position, text_leb}
use mathlib.Core.List.{append-nil, append_assoc}
use rpc_plus_plus.Prelude.Options.{some_inj}
use rpc_plus_plus.Prelude.Int.{neg}
use rpc_plus_plus.Jsonrpc.Libs.{Memchr, IsMemchr, Serde, Libs, Value, Fields, Items, RawValue}
use rpc_plus_plus.Jsonrpc.Request.{RawMap, IsSorted, Above, AllJson, IsRawMapCodec, has_plain_keys}
use rpc_plus_plus.Upstream.Call.{CallError, error_status}
use rpc_plus_plus.Upstream.Build.{Upstream}
use rpc_plus_plus.Proxy.Reply.{Reply}
use rpc_plus_plus.Prelude.Float.{Float}
use Prim.Native.Nat.{compare}
use rpc_plus_plus.Prelude.{
  ℕ, ◌-◌, ◌*◌, ◌/◌, zero, suc, ◌≡◌, refl, subst, ◌∙◌, ◌↔◌, inl, inr, Bool, true, false, not, ◌&&◌,
  ◌||◌, Option, none, some, List, [], ◌∷◌, ◌++◌, arith, ◌==◌, if◌then◌else◌, Bool-cases, length,
  is_empty,
}

abbrev pub memchr0 : Memchr
memchr0 = record { memchr2 = λ a b s. position (λ c. (c == a) || (c == b)) s; memmem = find }

pub memchr0-IsMemchr : IsMemchr memchr0
memchr0-IsMemchr = record { memchr2_first = λ a b s. refl; memmem_first = λ needle s. refl }

-- A coding of maps: each text shifted up by one and ended by 0.
abbrev encode_text : Text → Text → Text
encode_text [] rest = 0 ∷ rest
encode_text (c ∷ s) rest = suc c ∷ encode_text s rest

abbrev pub encode_map : RawMap → Text
encode_map [] = []
encode_map ((k, v) ∷ m) = encode_text k (encode_text v (encode_map m))

abbrev decode_texts : Text → Text → List Text
decode_texts acc [] = []
decode_texts acc (zero ∷ s) = acc ∷ decode_texts [] s
decode_texts acc (suc c ∷ s) = decode_texts (acc ++ (c ∷ [])) s

abbrev in_pairs : List Text → RawMap
in_pairs [] = []
in_pairs (k ∷ []) = []
in_pairs (k ∷ v ∷ ts) = (k, v) ∷ in_pairs ts

abbrev is_above : Text → RawMap → Bool
is_above k [] = true
is_above k ((j, v) ∷ m) = not (text_leb j k) && is_above k m

abbrev is_sorted : RawMap → Bool
is_sorted [] = true
is_sorted ((k, v) ∷ m) = is_above k m && is_sorted m

abbrev pub decode_map : Text → Option RawMap
decode_map s =
    let m = in_pairs (decode_texts [] s) in
    if is_sorted m then (if has_plain_keys m then some m else none) else none

and-true : (a b : Bool) → (a && b) ≡ true → (a ≡ true) × (b ≡ true)
and-true true b h = (refl, h)
and-true false b h = ground arith

is_above_iff : (k : Text) (m : RawMap) → (is_above k m ≡ true) ↔ Above k m
is_above_iff k [] = (λ h. tt, λ a. refl)
is_above_iff k ((j, v) ∷ m) = (
  λ h.
      let (a, b) = and-true (not (text_leb j k)) (is_above k m) h in
      (ground arith, (is_above_iff k m).0 b),
  λ a. rw (a.0, (is_above_iff k m).1 a.1) refl,
)

is_sorted_iff : (m : RawMap) → (is_sorted m ≡ true) ↔ IsSorted m
is_sorted_iff [] = (λ h. tt, λ a. refl)
is_sorted_iff ((k, v) ∷ m) = (
  λ h.
      let (a, b) = and-true (is_above k m) (is_sorted m) h in
      ((is_above_iff k m).0 a, (is_sorted_iff m).0 b),
  λ a. rw ((is_above_iff k m).1 a.0, (is_sorted_iff m).1 a.1) refl,
)

decode-encode_text :
    (acc t rest : Text) → decode_texts acc (encode_text t rest) ≡ (acc ++ t) ∷ decode_texts [] rest
decode-encode_text acc [] rest = rw (append-nil acc) refl
decode-encode_text acc (c ∷ t) rest =
    decode-encode_text (acc ++ (c ∷ [])) t rest ∙ rw (append_assoc acc (c ∷ []) t) refl

in_pairs-encode_map : (m : RawMap) → in_pairs (decode_texts [] (encode_map m)) ≡ m
in_pairs-encode_map [] = refl
in_pairs-encode_map ((k, v) ∷ m) =
    rw
      (
        decode-encode_text [] k (encode_text v (encode_map m)),
        decode-encode_text [] v (encode_map m),
        in_pairs-encode_map m,
      )
      refl

abbrev pub AnyText : RawValue → Type 0
AnyText v = Unit

any-AllJson : (m : RawMap) → AllJson AnyText m
any-AllJson [] = tt
any-AllJson ((k, v) ∷ m) = (tt, any-AllJson m)

abbrev pub reading : Value
reading = Value.object (
    Fields.field (codes "id") (Value.string (codes "7"))
      (Fields.field (codes "method") (Value.string (codes "eth_call")) Fields.end))

abbrev pub reading_too : Value
reading_too = Value.object (
    Fields.field (codes "method") (Value.string (codes "eth_call"))
      (Fields.field (codes "params") (Value.array Items.nil) Fields.end))

-- Reads every body as a call of `eth_call`, and writes nothing.
abbrev pub serde0 : Serde
serde0 = record {
  error_envelope = λ t. some (some (record { code = neg 32000; message = codes "busy" }));
  method_envelope = λ t. some (codes "eth_call");
  id_envelope = λ t. some (some (codes "7"));
  value = λ t. if is_empty t then some reading_too else some reading;
  raw_map = decode_map;
  to_text = λ v. [];
  raw_map_to_vec = encode_map;
  digest128 = λ t. length t;
}

none-some : {m : RawMap} → none ≡ some m → ⊥
none-some h = ground arith

decoded :
    (read m : RawMap)
    → (if is_sorted read then (if has_plain_keys read then some read else none) else none) ≡ some m
    → (is_sorted m ≡ true) × (has_plain_keys m ≡ true)
decoded read m e = elim (Bool-cases (is_sorted read)) [
  | inl y ↦ elim (Bool-cases (has_plain_keys read)) [
    | inl p ↦
        let same : read ≡ m = some_inj (rw (y, p) at e) in
        (subst (λ x. is_sorted x ≡ true) same y, subst (λ x. has_plain_keys x ≡ true) same p)
    | inr n ↦ elim (none-some (rw (y, n) at e)) [ ]
  ]
  | inr n ↦ elim (none-some (rw n at e)) [ ]
]

pub serde0-IsRawMapCodec : IsRawMapCodec serde0 AnyText
serde0-IsRawMapCodec = record {
  reads_back = λ m s p j. rw (in_pairs-encode_map m, (is_sorted_iff m).1 s, p) refl;
  reads_sorted = λ body m e. (is_sorted_iff m).0 (decoded (in_pairs (decode_texts [] body)) m e).0;
  reads_plain = λ body m e. (decoded (in_pairs (decode_texts [] body)) m e).1;
  reads_json = λ body m e. any-AllJson m;
}

abbrev pub libs0 : Libs
libs0 = record { memchr = memchr0; serde = serde0 }

-- Whole numbers in place of floating point.
abbrev pub whole : Float
whole = record {
  F64 = ℕ;
  of_u64 = λ n. n;
  sub = λ a b. a - b;
  mul = λ a b. a * b;
  div = λ a b. a / b;
  total_cmp = λ a b. compare a b;
  mul_f64 = λ d x. d * x;
}

abbrev pub upstream_of : Text → Upstream
upstream_of label = record {
  url = label;
  id = record { label = label };
  timeout = 3000000000;
  hedge_after = 250000000;
  max_response_bytes = 100;
}

abbrev pub alpha : Upstream
alpha = upstream_of (codes "alpha")

abbrev pub beta : Upstream
beta = upstream_of (codes "beta")

abbrev pub gamma : Upstream
gamma = upstream_of (codes "gamma")

abbrev pub pool0 : List Upstream
pool0 = alpha ∷ beta ∷ gamma ∷ []

abbrev pub busy : CallError
busy = error_status 503

abbrev pub reply0 : Reply
reply0 = record {
  http_status = 200;
  body = encode_map ((codes "id", codes "1") ∷ (codes "result", codes "0x10") ∷ []);
}
