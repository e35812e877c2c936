-- ===== src/Watcher/Fetch.antt =====
-- Trace bundles fetched and decoded (watcher/src/trace_fetch.rs). CBOR is the `ciborium` crate's and
-- HTTP the `reqwest` crate's: both are parameters. A `HashMap` is a list of entries, one per key; a text
-- is the list of its bytes.
pub mod Manifest
pub mod Gateway
use proof_of_thought.Prelude.{ℕ, List, [], ◌∷◌, ◌++◌, Option, none, some, Bool, if◌then◌else◌}
use proof_of_thought.Watcher.Types.{Bytes, same_bytes, TraceBundle}

-- What the watcher uses of `ciborium` and its `Value`.
pub record Ciborium (V : Type 0) : Type 0 where
  pub from_reader : Bytes → Option V
  pub as_map : V → Option (List (V × V))
  pub as_text : V → Option Bytes
  pub as_bytes : V → Option Bytes
  pub null : V
  pub same_value : V → V → Bool

-- The texts of `BadManifest`.
pub data BadManifest : Type 0 where
  cbor_decode not_a_map non_string_key missing_canonical_input missing_canonical_output :
      BadManifest

pub data FetchError : Type 0 where
  http : Bytes → FetchError
  bad_manifest : BadManifest → FetchError
  uri_hash_mismatch : ℕ → ℕ → FetchError
  unsupported_scheme not_found : Bytes → FetchError

-- `Result<T, FetchError>`
pub data Fetched {ℓ} (T : Type ℓ) : Type ℓ where
  fetched : T → Fetched T
  failed : FetchError → Fetched T

-- `?`
abbrev pub bind {ℓ κ} : {A : Type ℓ} {B : Type κ} → Fetched A → (A → Fetched B) → Fetched B
bind (fetched a) k = k a
bind (failed e) k = failed e

-- `.ok_or(e)`
abbrev pub ok_or {ℓ} : {A : Type ℓ} → Option A → FetchError → Fetched A
ok_or none e = failed e
ok_or (some a) e = fetched a

abbrev pub and_then {ℓ κ} : {A : Type ℓ} {B : Type κ} → Option A → (A → Option B) → Option B
and_then none k = none
and_then (some a) k = k a

abbrev pub unwrap_or {ℓ} : {A : Type ℓ} → Option A → A → A
unwrap_or none d = d
unwrap_or (some a) d = a

-- `HashMap::get` and `HashMap::insert`
unfoldable pub get {ℓ} : {V : Type ℓ} → Bytes → List (Bytes × V) → Option V
get key [] = none
get key ((k, v) ∷ fields) = if same_bytes k key then some v else get key fields

unfoldable pub insert {ℓ} : {V : Type ℓ} → Bytes → V → List (Bytes × V) → List (Bytes × V)
insert key v [] = (key, v) ∷ []
insert key v ((k, u) ∷ fields) =
    if same_bytes k key then (k, v) ∷ fields else (k, u) ∷ insert key v fields

abbrev pub canonical_input : Bytes
canonical_input =
    99 ∷ 97 ∷ 110 ∷ 111 ∷ 110 ∷ 105 ∷ 99 ∷ 97 ∷ 108 ∷ 95 ∷ 105 ∷ 110 ∷ 112 ∷ 117 ∷ 116 ∷ []

abbrev pub canonical_output : Bytes
canonical_output =
    99 ∷ 97 ∷ 110 ∷ 111 ∷ 110 ∷ 105 ∷ 99 ∷ 97 ∷ 108 ∷ 95 ∷ 111 ∷ 117 ∷ 116 ∷ 112 ∷ 117 ∷ 116 ∷ []

abbrev pub attestation : Bytes
attestation = 97 ∷ 116 ∷ 116 ∷ 101 ∷ 115 ∷ 116 ∷ 97 ∷ 116 ∷ 105 ∷ 111 ∷ 110 ∷ []

module _ {V : Type 0} (cbor : Ciborium V) where
  -- `for (k, v) in map.iter()`
  unfoldable pub collect : List (V × V) → List (Bytes × V) → Fetched (List (Bytes × V))
  collect [] fields = fetched fields
  collect ((k, v) ∷ map) fields =
      bind (ok_or (cbor.as_text k) (bad_manifest non_string_key))
        λ key. collect map (insert key v fields)

  -- `fields.get(key).and_then(|v| v.as_bytes())`
  abbrev pub bytes_field : Bytes → List (Bytes × V) → Option Bytes
  bytes_field key fields = and_then (get key fields) cbor.as_bytes

  abbrev pub bundle_of : List (Bytes × V) → Fetched (TraceBundle V)
  bundle_of fields =
      bind (ok_or (bytes_field canonical_input fields) (bad_manifest missing_canonical_input)) λ i.
        bind (ok_or (bytes_field canonical_output fields) (bad_manifest missing_canonical_output))
          λ o. fetched (record {
            raw_canonical_output = o;
            raw_canonical_input = i;
            attestation = bytes_field attestation fields;
            manifest = unwrap_or (cbor.from_reader o) cbor.null;
          })

  unfoldable pub decode_manifest : Bytes → Fetched (TraceBundle V)
  decode_manifest bytes = bind (ok_or (cbor.from_reader bytes) (bad_manifest cbor_decode)) λ value.
      bind (ok_or (cbor.as_map value) (bad_manifest not_a_map))
        λ map. bind (collect map []) bundle_of
