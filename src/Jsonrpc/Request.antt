-- ===== src/Jsonrpc/Request.antt =====
-- Ids in src/jsonrpc/mod.rs: `request_id` reads a request's, `readdress` writes it into a reply that
-- another request earned, and `rpc_error_body` is the proxy's own error reply.
use rpc_plus_plus.Prelude.Text.{Text, codes, text_eq, text_eq_iff, text_eq_self, text_leb}
use rpc_plus_plus.Prelude.Int.{ℤ}
use rpc_plus_plus.Prelude.Options.{◌>>=◌}
use rpc_plus_plus.Jsonrpc.Libs.{Serde, Libs, Value, Fields, RawValue}
use rpc_plus_plus.Jsonrpc.Shape.{Shape, shape}
use rpc_plus_plus.Prelude.{
  ◌≡◌, refl, ◌≢◌, inl, inr, Bool, true, false, not, Option, none, some, List, [], ◌∷◌, arith,
  if◌then◌else◌, Bool-cases, ℕ, ◌&&◌, ◌==◌, leb, all,
}

-- `json!({ "jsonrpc": "2.0", "error": …, "id": null }).to_string()`, its keys in order.
unfoldable pub rpc_error_body : Serde → ℤ → Text → Text
rpc_error_body serde code msg = serde.to_text (
    Value.object (
      Fields.field (codes "error")
        (Value.object (
          Fields.field (codes "code") (Value.number code)
            (Fields.field (codes "message") (Value.string msg) Fields.end)))
        (Fields.field (codes "id") Value.null
          (Fields.field (codes "jsonrpc") (Value.string (codes "2.0")) Fields.end))))

abbrev is_single : Shape → Bool
is_single Shape.single = true
is_single _ = false

unfoldable pub request_id : Libs → Text → Option RawValue
request_id libs body =
    if not (is_single (shape libs.memchr body))
    then none
    else (do envelope ← libs.serde.id_envelope body; envelope)

-- `BTreeMap<&str, &RawValue>`: its entries in the order of their keys.
abbrev pub RawMap : Type 0
RawMap = List (Text × RawValue)

unfoldable pub lookup : Text → RawMap → Option RawValue
lookup k [] = none
lookup k ((j, v) ∷ m) = if text_eq j k then some v else lookup k m

unfoldable pub insert : Text → RawValue → RawMap → RawMap
insert k v [] = (k, v) ∷ []
insert k v ((j, w) ∷ m) =
    if text_eq j k
    then (k, v) ∷ m
    else if text_leb k j
    then (k, v) ∷ (j, w) ∷ m
    else (j, w) ∷ insert k v m

unfoldable pub readdress : Serde → Text → RawValue → Option Text
unfolding insert
readdress serde body id = do
  envelope ← serde.raw_map body
  some (serde.raw_map_to_vec (insert (codes "id") id envelope))

-- The keys of a map ascend strictly, so none stands twice.
abbrev pub Above : Text → RawMap → Type 0
Above k [] = Unit {0}
Above k ((j, v) ∷ m) = (text_leb j k ≡ false) × Above k m

abbrev pub IsSorted : RawMap → Type 0
IsSorted [] = Unit {0}
IsSorted ((k, v) ∷ m) = Above k m × IsSorted m

text_leb_self : (s : Text) → text_leb s s ≡ true
unfolding text_leb
text_leb_self [] = refl
text_leb_self (a ∷ s) = ground (arith, text_leb_self s)

text_leb_trans : (r s t : Text) → text_leb r s ≡ true → text_leb s t ≡ true → text_leb r t ≡ true
unfolding text_leb
text_leb_trans [] s t h k = refl
text_leb_trans (a ∷ r) [] t h k = cc
text_leb_trans (a ∷ r) (b ∷ s) [] h k = cc
text_leb_trans (a ∷ r) (b ∷ s) (c ∷ t) h k = ground (arith, text_leb_trans r s t)

lookup-insert :
    (k j : Text) (v : RawValue) (m : RawMap)
    → lookup j (insert k v m) ≡ (if text_eq k j then some v else lookup j m)
unfolding lookup insert
lookup-insert k j v [] = refl
lookup-insert k j v ((i, w) ∷ m) = ground (
  arith,
  text_eq_iff k j,
  text_eq_iff i k,
  text_eq_iff i j,
  text_eq_self j,
  lookup-insert k j v m,
)

-- Every value of the map is the text of a JSON value, as a `RawValue` always is.
abbrev pub AllJson : (RawValue → Type 0) → RawMap → Type 0
AllJson IsJson [] = Unit {0}
AllJson IsJson ((k, v) ∷ m) = IsJson v × AllJson IsJson m

-- A character that JSON writes as it stands: no quote, no backslash and no control character.
abbrev pub is_plain : ℕ → Bool
is_plain c = not (c == 34) && (not (c == 92) && leb 32 c)

-- No key of the map needs an escape. A key that is read into a `&str` has none, since it is borrowed
-- from the body.
unfoldable pub has_plain_keys : RawMap → Bool
has_plain_keys [] = true
has_plain_keys ((k, v) ∷ m) = all is_plain k && has_plain_keys m

-- What serde_json promises of maps: one that was read has ascending keys without escapes and JSON
-- values, and one of this kind that is written is read back as it was.
pub record IsRawMapCodec (serde : Serde) (IsJson : RawValue → Type 0) : Type 0 where
  pub reads_back :
      (m : RawMap)
      → IsSorted m
      → has_plain_keys m ≡ true
      → AllJson IsJson m
      → serde.raw_map (serde.raw_map_to_vec m) ≡ some m
  pub reads_sorted : (body : Text) (m : RawMap) → serde.raw_map body ≡ some m → IsSorted m
  pub reads_plain :
      (body : Text) (m : RawMap) → serde.raw_map body ≡ some m → has_plain_keys m ≡ true
  pub reads_json : (body : Text) (m : RawMap) → serde.raw_map body ≡ some m → AllJson IsJson m

text_leb_total : (s t : Text) → text_leb s t ≡ false → text_leb t s ≡ true
unfolding text_leb
text_leb_total [] t h = cc
text_leb_total (a ∷ s) [] h = refl
text_leb_total (a ∷ s) (b ∷ t) h = ground (arith, text_leb_total s t)

text_leb_antisymm : (s t : Text) → text_leb s t ≡ true → text_leb t s ≡ true → s ≡ t
unfolding text_leb
text_leb_antisymm [] [] h k = refl
text_leb_antisymm [] (b ∷ t) h k = cc
text_leb_antisymm (a ∷ s) [] h k = cc
text_leb_antisymm (a ∷ s) (b ∷ t) h k = ground (arith, text_leb_antisymm s t)

Above-trans : (j k : Text) (m : RawMap) → text_leb k j ≡ false → Above k m → Above j m
Above-trans j k [] h a = tt
Above-trans j k ((i, w) ∷ m) h a =
    (ground (arith, text_leb_trans i j k, text_leb_total k j h), Above-trans j k m h a.1)

insert-Above :
    (i k : Text) (v : RawValue) (m : RawMap)
    → text_leb k i ≡ false
    → Above i m
    → Above i (insert k v m)
unfolding insert
insert-Above i k v [] h a = (h, tt)
insert-Above i k v ((j, w) ∷ m) h a = ground (arith, insert-Above i k v m h a.1)

insert-IsSorted : (k : Text) (v : RawValue) (m : RawMap) → IsSorted m → IsSorted (insert k v m)
unfolding insert
insert-IsSorted k v [] s = (tt, tt)
insert-IsSorted k v ((j, w) ∷ m) s = elim (Bool-cases (text_eq j k)) [
  | inl e ↦ rw e (ground (arith, text_eq_iff j k))
  | inr e ↦ elim (Bool-cases (text_leb k j)) [
    | inl l ↦
        let below : text_leb j k ≡ false = ground (arith, text_leb_antisymm j k, text_eq_iff j k) in
        rw (e, l) ((below, Above-trans k j m below s.0), s)
    | inr g ↦ rw (e, g) (insert-Above j k v m g s.0, insert-IsSorted k v m s.1)
  ]
]

insert-AllJson :
    (IsJson : RawValue → Type 0) (k : Text) (v : RawValue) (m : RawMap)
    → IsJson v
    → AllJson IsJson m
    → AllJson IsJson (insert k v m)
unfolding insert
insert-AllJson IsJson k v [] h a = (h, tt)
insert-AllJson IsJson k v ((j, w) ∷ m) h a = elim (Bool-cases (text_eq j k)) [
  | inl e ↦ rw e (h, a.1)
  | inr e ↦ elim (Bool-cases (text_leb k j)) [
    | inl l ↦ rw (e, l) (h, a)
    | inr g ↦ rw (e, g) (a.0, insert-AllJson IsJson k v m h a.1)
  ]
]

insert-has_plain_keys :
    (k : Text) (v : RawValue) (m : RawMap)
    → all is_plain k ≡ true
    → has_plain_keys m ≡ true
    → has_plain_keys (insert k v m) ≡ true
unfolding insert has_plain_keys
insert-has_plain_keys k v [] h a = rw h refl
insert-has_plain_keys k v ((j, w) ∷ m) h a = elim (Bool-cases (text_eq j k)) [
  | inl e ↦ rw (e, h) (ground arith)
  | inr e ↦ elim (Bool-cases (text_leb k j)) [
    | inl l ↦ rw (e, l, h) a
    | inr g ↦ rw (e, g) (ground (arith, insert-has_plain_keys k v m h))
  ]
]

-- A follower's reply, as a client reads it: every entry of the leader's reply, except that `id` is
-- the follower's own, whether or not the leader's reply had one.
pub readdress-lookup :
    (serde : Serde) (IsJson : RawValue → Type 0) (body reply : Text) (id : RawValue) (m : RawMap)
    → IsRawMapCodec serde IsJson
    → IsJson id
    → serde.raw_map body ≡ some m
    → readdress serde body id ≡ some reply
    → (m' : RawMap) × (serde.raw_map reply ≡ some m')
      × (lookup (codes "id") m' ≡ some id)
      × ((k : Text) → k ≢ codes "id" → lookup k m' ≡ lookup k m)
unfolding readdress
readdress-lookup serde IsJson body reply id m codec j e h =
    let m' : RawMap = insert (codes "id") id m in
    let back : serde.raw_map (serde.raw_map_to_vec m') ≡ some m' =
      codec.reads_back m' (insert-IsSorted (codes "id") id m (codec.reads_sorted body m e))
        (insert-has_plain_keys (codes "id") id m refl (codec.reads_plain body m e))
        (insert-AllJson IsJson (codes "id") id m j (codec.reads_json body m e)) in
    (
      m',
      ground (arith, back),
      rw (lookup-insert (codes "id") (codes "id") id m) (rw (text_eq_self (codes "id"))),
      λ k ne. rw (lookup-insert (codes "id") k id m) (ground (arith, text_eq_iff (codes "id") k)),
    )
