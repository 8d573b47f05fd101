-- ===== src/Config/Expand.antt =====
-- `expand_str` and `expand_env` of src/config.rs: `${NAME}` by the environment.
use rpc_plus_plus.Prelude.Results.{Result, ok, err, ◌>>=◌, Result-cases}
use rpc_plus_plus.Prelude.Text.{Text, codes, find, contains, trim}
use rpc_plus_plus.Upstream.Build.{UpstreamSettings}
use rpc_plus_plus.Config.Settings.{Settings, SettingsError, unset_env_var}
use rpc_plus_plus.Prelude.{
  ℕ, zero, suc, ◌+◌, ◌<◌, ◌≡◌, refl, inl, inr, false, Option, none, some, List, [], ◌∷◌, ◌++◌,
  arith, if◌then◌else◌, Option-cases, length, take, drop, is_empty, length-drop,
}

abbrev pub opening : Text
opening = codes "${"

abbrev pub Environment : Type 0
Environment = Text → Option Text

-- What stands for `marker`, whose name ends at `end` in what follows the opening.
unfoldable pub expand_marker : Environment → Text → ℕ → Result Text SettingsError
expand_marker get marker end =
    let name = take end (drop 2 marker) in
    if is_empty (trim name) then ok (take (end + 3) marker) else (elim (get name) [
      | none ↦ err (unset_env_var name)
      | some value ↦ if is_empty value then err (unset_env_var name) else ok value
    ])

-- The loop, on fuel; it ends by itself within one turn more than the text is long.
unfoldable pub expand_from : ℕ → Environment → Text → Text → Result Text SettingsError
unfolding expand_marker
expand_from zero get out rest = ok (out ++ rest)
expand_from (suc fuel) get out rest = elim (find opening rest) [
  | none ↦ ok (out ++ rest)
  | some start ↦
      let marker = drop start rest in
      elim (find (codes "}") (drop 2 marker)) [
        | none ↦ ok (out ++ rest)
        | some end ↦ expand_marker get marker end >>= λ piece.
            expand_from fuel get (out ++ (take start rest ++ piece))
              (drop (suc end) (drop 2 marker))
      ]
]

unfoldable pub expand_str : Environment → Text → Result Text SettingsError
unfolding expand_from
expand_str get raw = expand_from (suc (length raw)) get [] raw

unfoldable pub expand_upstreams :
    Environment → List UpstreamSettings → Result (List UpstreamSettings) SettingsError
expand_upstreams get [] = ok []
expand_upstreams get (rpc ∷ rpcs) = do
  label ← expand_str get rpc.label
  url ← expand_str get rpc.url
  rest ← expand_upstreams get rpcs
  ok (record rpc { label = label; url = url } ∷ rest)

unfoldable pub expand_origins : Environment → List Text → Result (List Text) SettingsError
expand_origins get [] = ok []
expand_origins get (raw ∷ raws) = do
  origin ← expand_str get raw
  rest ← expand_origins get raws
  ok (origin ∷ rest)

unfoldable pub expand_env : Environment → Settings → Result Settings SettingsError
unfolding expand_upstreams expand_origins
expand_env get s = do
  host ← expand_str get s.application.host
  upstreams ← expand_upstreams get s.upstreams
  origins ← expand_origins get s.application.cors.allowed_origins
  ok (record s {
    application = record s.application { host = host; cors = record { allowed_origins = origins } };
    upstreams = upstreams;
  })

find-nil : find opening [] ≡ none
unfolding find
find-nil = refl

-- The fuel is enough: any two amounts above the length of what is left give the same.
expand_from-enough :
    (k n : ℕ) (get : Environment) (out rest : Text)
    → length rest < k
    → length rest < n
    → expand_from k get out rest ≡ expand_from n get out rest
unfolding expand_from
expand_from-enough zero n get out rest h g = ground arith
expand_from-enough (suc k) zero get out rest h g = ground arith
expand_from-enough (suc k) (suc n) get out [] h g = rw (find-nil, expand_from) refl
expand_from-enough (suc k) (suc n) get out (c ∷ s) h g =
    elim (Option-cases (find opening (c ∷ s))) [
      | inl gone ↦ rw (gone, expand_from) refl
      | inr (start, at) ↦ elim (Option-cases (find (codes "}") (drop 2 (drop start (c ∷ s))))) [
        | inl unclosed ↦ rw (at, unclosed, expand_from) refl
        | inr (end, closed) ↦ elim (Result-cases (expand_marker get (drop start (c ∷ s)) end)) [
          | inl (piece, e) ↦
              let left = drop (suc end) (drop 2 (drop start (c ∷ s))) in
              let shorter : length left < length (c ∷ s) = omega (
                arith,
                length-drop (suc end) (drop 2 (drop start (c ∷ s))),
                length-drop 2 (drop start (c ∷ s)),
                length-drop start (c ∷ s),
              ) in
              rw (at, closed, e, expand_from)
                (expand_from-enough k n get (out ++ (take start (c ∷ s) ++ piece)) left
                  (omega arith) (omega arith))
          | inr (failure, e) ↦ rw (at, closed, e, expand_from) refl
        ]
      ]
    ]

-- The loop of `expand_str` ends by itself: whatever fuel above the text's length it is given, it
-- comes to the same. A text without an opening of a placeholder is left as it is.
pub expand_str-ends :
    (get : Environment) (raw : Text) (fuel : ℕ)
    → length raw < fuel
    → (expand_from fuel get [] raw ≡ expand_str get raw)
      × (contains opening raw ≡ false → expand_str get raw ≡ ok raw)
unfolding expand_str contains
expand_str-ends get raw fuel h = (
  expand_from-enough fuel (suc (length raw)) get [] raw h (omega arith),
  λ plain. elim (Option-cases (find opening raw)) [
    | inl gone ↦ rw (gone, expand_from) refl
    | inr (i, at) ↦ ground arith
  ],
)
