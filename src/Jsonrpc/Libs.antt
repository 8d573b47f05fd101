-- ===== src/Jsonrpc/Libs.antt =====
-- What src/jsonrpc/mod.rs takes from crates: memchr, serde_json and xxh3, as parameters of the model.
use rpc_plus_plus.Prelude.Text.{Text, find, position}
use rpc_plus_plus.Prelude.Int.{ℤ}
use rpc_plus_plus.Prelude.{ℕ, ◌≡◌, Bool, ◌||◌, Option, List, ◌==◌}

-- `memchr2(a, b, body)` and `memmem::Finder::new(needle).find(body)`.
pub record Memchr : Type 0 where
  pub memchr2 : ℕ → ℕ → Text → Option ℕ
  pub memmem : Text → Text → Option ℕ

-- Their documentation: the first occurrence.
pub record IsMemchr (m : Memchr) : Type 0 where
  pub memchr2_first :
      (a b : ℕ) (s : Text) → m.memchr2 a b s ≡ position (λ c. (c == a) || (c == b)) s
  pub memmem_first : (needle s : Text) → m.memmem needle s ≡ find needle s

-- `serde_json::Value`; an object is sorted by key, as `Map` is a `BTreeMap`.
mutual
  pub data Value : Type 0 where
    null : Value
    bool : Bool → Value
    number : ℤ → Value
    string : Text → Value
    array : Items → Value
    object : Fields → Value

  pub data Items : Type 0 where
    nil : Items
    cons : Value → Items → Items

  pub data Fields : Type 0 where
    end : Fields
    field : Text → Value → Fields → Fields

-- `Box<RawValue>`: the text of a JSON value as it was sent.
abbrev pub RawValue : Type 0
RawValue = Text

pub record ErrorObject : Type 0 where
  pub code : ℤ
  pub message : Text

-- The readers that serde derives from the envelope types, `none` where they fail, and the writers.
-- `raw_map` reads into a `BTreeMap<&str, &RawValue>`; `digest128` is xxh3 of all that was written.
pub record Serde : Type 0 where
  pub error_envelope : Text → Option (Option ErrorObject)
  pub method_envelope : Text → Option Text
  pub id_envelope : Text → Option (Option RawValue)
  pub value : Text → Option Value
  pub raw_map : Text → Option (List (Text × RawValue))
  pub to_text : Value → Text
  pub raw_map_to_vec : List (Text × RawValue) → Text
  pub digest128 : Text → ℕ

pub record Libs : Type 0 where
  pub memchr : Memchr
  pub serde : Serde
