-- ===== src/Watcher/Fetch/Manifest.antt =====
-- The manifest's decoder against a description of the map it reads, without the hash map.
use proof_of_thought.Prelude.{
  ◌≡◌, ◌↔◌, refl, List, [], ◌∷◌, Option, none, some, Bool, true, false, if◌then◌else◌, Bool-cases,
  Option-cases, ◌⊎◌, inl, inr, arith, ap, ◌∙◌, sym,
}
use proof_of_thought.Watcher.Types.{
  Bytes, same_bytes, same_bytes_refl, same_bytes_sound, TraceBundle,
}
use proof_of_thought.Watcher.Fetch.{
  Ciborium, FetchError, Fetched, fetched, failed, get, insert, and_then, unwrap_or, collect,
  bytes_field, bundle_of, decode_manifest, canonical_input, canonical_output, attestation,
}

same_bytes_both :
    (j k key : Bytes) → same_bytes j k ≡ false → same_bytes j key ≡ true → same_bytes k key ≡ false
same_bytes_both j k key other h = elim (Bool-cases (same_bytes k key)) [
  | inl both ↦
      let e : j ≡ k = same_bytes_sound j key h ∙ sym (same_bytes_sound k key both) in
      let same : same_bytes k k ≡ true = same_bytes_refl k in absurd (cc)
  | inr differs ↦ differs
]

if_same {ℓ} :
    {A : Type ℓ} (b : Bool) (x y z : A)
    → (if b then x else z) ≡ (if b then x else if b then y else z)
if_same true x y z = refl
if_same false x y z = refl

if_swap {ℓ} :
    {A : Type ℓ} (x y z : A) (b c : Bool)
    → (b ≡ true → c ≡ false)
    → (if b then x else if c then y else z) ≡ (if c then y else if b then x else z)
if_swap x y z true c h = rw (h refl) refl
if_swap x y z false c h = refl

-- What is found after a write, at any key.
pub get-insert :
    {V : Type 0} (key k : Bytes) (v : V) (fields : List (Bytes × V))
    → get key (insert k v fields) ≡ (if same_bytes k key then some v else get key fields)
unfolding get insert
get-insert key k v [] = refl
get-insert key k v ((j, u) ∷ fields) = elim (Bool-cases (same_bytes j k)) [
  | inl same ↦
      let e : k ≡ j = sym (same_bytes_sound j k same) in
      let again : same_bytes j j ≡ true = same_bytes_refl j in
      rw (e, again) (if_same (same_bytes j key) (some v) _ _)
  | inr other ↦
      rw (other, get-insert key k v fields)
        (if_swap _ _ _ (same_bytes j key) (same_bytes k key) (same_bytes_both j k key other))
]

Fetched-cases {ℓ} :
    {T : Type ℓ} (r : Fetched T) → ((e : FetchError) × (r ≡ failed e)) ⊎ ((t : T) × (r ≡ fetched t))
Fetched-cases (failed e) = inl (e, refl)
Fetched-cases (fetched t) = inr (t, refl)

fetched_injective {ℓ} : {T : Type ℓ} (s t : T) → fetched s ≡ fetched t → s ≡ t
fetched_injective s t h = cc

-- The last of two values that is there.
abbrev later {ℓ} : {A : Type ℓ} → Option A → Option A → Option A
later none earlier = earlier
later (some a) earlier = some a

later_assoc {ℓ} :
    {A : Type ℓ} (o : Option A) (b : Bool) (v : A) (e : Option A)
    → later o (if b then some v else e) ≡ later (later o (if b then some v else none)) e
later_assoc none true v e = refl
later_assoc none false v e = refl
later_assoc (some a) b v e = refl

module _ {V : Type 0} (cbor : Ciborium V) where
  -- Every key is a text.
  abbrev HasTextKeys : List (V × V) → Type 0
  HasTextKeys [] = Unit
  HasTextKeys ((k, v) ∷ map) = ((key : Bytes) × (cbor.as_text k ≡ some key)) × HasTextKeys map

  -- The value of the last entry under a key.
  abbrev last_value : Bytes → List (V × V) → Option V
  last_value key [] = none
  last_value key ((k, v) ∷ map) =
      later (last_value key map)
        (and_then (cbor.as_text k) λ name. if same_bytes name key then some v else none)

  get-collect :
      (key : Bytes) (map : List (V × V)) (fields out : List (Bytes × V))
      → collect cbor map fields ≡ fetched out
      → get key out ≡ later (last_value key map) (get key fields)
  unfolding collect
  get-collect key [] fields out h = cc
  get-collect key ((k, v) ∷ map) fields out h = elim (Option-cases (cbor.as_text k)) [
    | inl missing ↦ absurd (ground arith)
    | inr (name, text) ↦
        let rest : collect cbor map (insert name v fields) ≡ fetched out = rw text at h in
        rw (get-collect key map (insert name v fields) out rest, get-insert key name v fields, text)
          (later_assoc (last_value key map) (same_bytes name key) v (get key fields))
  ]

  collect-HasTextKeys :
      (map : List (V × V)) (fields out : List (Bytes × V))
      → collect cbor map fields ≡ fetched out
      → HasTextKeys map
  unfolding collect
  collect-HasTextKeys [] fields out h = tt
  collect-HasTextKeys ((k, v) ∷ map) fields out h = elim (Option-cases (cbor.as_text k)) [
    | inl missing ↦ absurd (ground arith)
    | inr (name, text) ↦
        let rest : collect cbor map (insert name v fields) ≡ fetched out = rw text at h in
        ((name, text), collect-HasTextKeys map (insert name v fields) out rest)
  ]

  HasTextKeys-collect :
      (map : List (V × V)) (fields : List (Bytes × V))
      → HasTextKeys map
      → (out : List (Bytes × V)) × (collect cbor map fields ≡ fetched out)
  unfolding collect
  HasTextKeys-collect [] fields h = (fields, refl)
  HasTextKeys-collect ((k, v) ∷ map) fields ((name, text), keys) =
      let (out, rest) = HasTextKeys-collect map (insert name v fields) keys in (out, rw text rest)

  later-none : (o : Option V) → later o none ≡ o
  later-none none = refl
  later-none (some a) = refl

  -- The fields that the map holds are its last entries.
  bytes_field-last_value :
      (key : Bytes) (map : List (V × V)) (fields : List (Bytes × V))
      → collect cbor map [] ≡ fetched fields
      → bytes_field cbor key fields ≡ and_then (last_value key map) cbor.as_bytes
  bytes_field-last_value key map fields h =
      let found : get key fields ≡ later (last_value key map) none =
        unfold get in get-collect key map [] fields h in
      rw (found, later-none (last_value key map)) refl

  -- A map with text keys whose last entries are the bundle's byte strings.
  pub record IsManifest (bytes : Bytes) (bundle : TraceBundle V) : Type 0 where
    pub value : V
    pub map : List (V × V)
    pub parsed : cbor.from_reader bytes ≡ some value
    pub is_map : cbor.as_map value ≡ some map
    pub text_keys : HasTextKeys map
    pub input :
        and_then (last_value canonical_input map) cbor.as_bytes ≡ some bundle.raw_canonical_input
    pub output :
        and_then (last_value canonical_output map) cbor.as_bytes ≡ some bundle.raw_canonical_output
    pub quote : and_then (last_value attestation map) cbor.as_bytes ≡ bundle.attestation
    pub decoded :
        unwrap_or (cbor.from_reader bundle.raw_canonical_output) cbor.null ≡ bundle.manifest

  bundle_of-fields :
      (fields : List (Bytes × V)) (bundle : TraceBundle V)
      → bundle_of cbor fields ≡ fetched bundle
      → (bytes_field cbor canonical_input fields ≡ some bundle.raw_canonical_input)
        × (bytes_field cbor canonical_output fields ≡ some bundle.raw_canonical_output)
        × (bytes_field cbor attestation fields ≡ bundle.attestation)
        × (unwrap_or (cbor.from_reader bundle.raw_canonical_output) cbor.null ≡ bundle.manifest)
  bundle_of-fields fields bundle h = elim (Option-cases (bytes_field cbor canonical_input fields)) [
    | inl missing ↦ absurd (ground arith)
    | inr (i, input) ↦ elim (Option-cases (bytes_field cbor canonical_output fields)) [
      | inl missing ↦ absurd (ground arith)
      | inr (o, output) ↦
          let same = fetched_injective _ bundle (rw (input, output) at h) in
          (
            input ∙ ap (λ b. some b.raw_canonical_input) same,
            output ∙ ap (λ b. some b.raw_canonical_output) same,
            ap (λ b. b.attestation) same,
            ap (λ v. unwrap_or (cbor.from_reader v) cbor.null)
                  (sym (ap (λ b. b.raw_canonical_output) same))
                ∙ ap (λ b. b.manifest) same,
          )
    ]
  ]

  decode_manifest-IsManifest :
      (bytes : Bytes) (bundle : TraceBundle V)
      → decode_manifest cbor bytes ≡ fetched bundle
      → IsManifest bytes bundle
  unfolding decode_manifest
  decode_manifest-IsManifest bytes bundle h = elim (Option-cases (cbor.from_reader bytes)) [
    | inl bad ↦ absurd (ground arith)
    | inr (value, parsed) ↦ elim (Option-cases (cbor.as_map value)) [
      | inl bad ↦ absurd (ground arith)
      | inr (map, is_map) ↦ elim (Fetched-cases (collect cbor map [])) [
        | inl (e, bad) ↦ absurd (ground arith)
        | inr (fields, collected) ↦
            let ran : bundle_of cbor fields ≡ fetched bundle =
              rw (parsed, is_map, collected) at h in
            let (i, o, q, d) = bundle_of-fields fields bundle ran in
            record {
              value = value;
              map = map;
              parsed = parsed;
              is_map = is_map;
              text_keys = collect-HasTextKeys map [] fields collected;
              input = sym (bytes_field-last_value canonical_input map fields collected) ∙ i;
              output = sym (bytes_field-last_value canonical_output map fields collected) ∙ o;
              quote = sym (bytes_field-last_value attestation map fields collected) ∙ q;
              decoded = d;
            }
      ]
    ]
  ]

  IsManifest-decode_manifest :
      (bytes : Bytes) (bundle : TraceBundle V)
      → IsManifest bytes bundle
      → decode_manifest cbor bytes ≡ fetched bundle
  unfolding decode_manifest
  IsManifest-decode_manifest bytes bundle m =
      let (fields, collected) = HasTextKeys-collect m.map [] m.text_keys in
      let at = λ (key : Bytes). bytes_field-last_value key m.map fields collected in
      rw
        (
          m.parsed,
          m.is_map,
          collected,
          at canonical_input,
          m.input,
          at canonical_output,
          m.output,
          at attestation,
          m.quote,
          m.decoded,
        )
        refl

  -- The decoder returns a bundle exactly for a map with text keys, of which the last entry under
  -- `canonical_input` and the last under `canonical_output` are the bundle's byte strings, the last
  -- under `attestation` is its quote if that is a byte string, and the CBOR value of the output, null
  -- if it has none, is its manifest.
  pub decode_manifest_exact :
      (bytes : Bytes) (bundle : TraceBundle V)
      → (decode_manifest cbor bytes ≡ fetched bundle) ↔ IsManifest bytes bundle
  decode_manifest_exact bytes bundle =
      (decode_manifest-IsManifest bytes bundle, IsManifest-decode_manifest bytes bundle)
