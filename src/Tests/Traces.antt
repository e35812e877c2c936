-- ===== src/Tests/Traces.antt =====
-- The theorems on fetched traces and on the soft regime, applied at concrete values.
use proof_of_thought.Prelude.{
  ℕ, ◌+◌, ◌*◌, ◌%◌, ◌^◌, ◌≡◌, ◌≢◌, ◌↔◌, ◌⊎◌, refl, List, [], ◌∷◌, ◌++◌, Option, none, some, Bool,
  true, false, if◌then◌else◌, ◌==◌, arith,
}
use proof_of_thought.Program.State.{output_mismatch, inconsistent_commitments}
use proof_of_thought.Watcher.Types.{
  Bytes, from_le, same_bytes, ThoughtSubmittedEvent, TraceBundle, matched, mismatch, inconclusive,
}
use proof_of_thought.Watcher.Filer.{
  Filer, ChallengeArgs, conservative, new, reserve_bond, decide_and_file,
}
use proof_of_thought.Watcher.Verify.{byte_compare}
use proof_of_thought.Watcher.Filer.Decision.{IsSound}
use proof_of_thought.Watcher.Fetch.{
  Ciborium, fetched, decode_manifest, canonical_input, canonical_output, collect, get, insert,
}
use proof_of_thought.Watcher.Fetch.Manifest.{IsManifest, decode_manifest_exact}
use proof_of_thought.Watcher.Fetch.Gateway.{
  Received, received, lost, Response, arweave_fetch, arweave_txid, url_at, handle_from_arweave,
}
use proof_of_thought.Watcher.Fetch.Gateway.Address.{HasTxid, IsBase}
use proof_of_thought.Watcher.Fetch.Gateway.Exact.{IsDownload, arweave_fetch_exact}
use proof_of_thought.Watcher.Fetch.Gateway.Filing.{handle_from_arweave_files_fraud}
use proof_of_thought.Watcher.Soft.{SoftVerifier, soft_verify, merkle_member, noop_member}
use proof_of_thought.Watcher.Soft.Decision.{HasDecision, HasNoDecision}
use proof_of_thought.Watcher.Soft.Trees.{Tree, leaf, node, IsLeafOf}
use proof_of_thought.Watcher.Soft.Accusation.{soft_verify_exact, soft_verify_accuses_undecodable}
use proof_of_thought.Watcher.Soft.Merkle.{
  proof_at, root, Collide, hashed_by, pairs_of, merkle_member_complete, merkle_member_sound,
}

mutual
  data Value : Type 0 where
    null : Value
    text bytes : Bytes → Value
    map : Entries → Value

  data Entries : Type 0 where
    done : Entries
    entry : Value → Value → Entries → Entries

abbrev entries : Entries → List (Value × Value)
entries done = []
entries (entry k v rest) = (k, v) ∷ entries rest

abbrev as_map : Value → Option (List (Value × Value))
as_map (map es) = some (entries es)
as_map null = none
as_map (text s) = none
as_map (bytes s) = none

abbrev as_text : Value → Option Bytes
as_text (text s) = some s
as_text null = none
as_text (bytes s) = none
as_text (map es) = none

abbrev as_bytes : Value → Option Bytes
as_bytes (bytes s) = some s
as_bytes null = none
as_bytes (text s) = none
as_bytes (map es) = none

abbrev same_value : Value → Value → Bool
same_value (text s) (text t) = same_bytes s t
same_value (text s) null = false
same_value (text s) (bytes t) = false
same_value (text s) (map es) = false
same_value null v = false
same_value (bytes s) v = false
same_value (map es) v = false

-- A map with two entries under `canonical_output`, of which the last counts; the output is a map with a
-- decision, unless it is the one byte 9, which is no CBOR here.
abbrev manifest_of : Bytes → Value
manifest_of out = map (
    entry (text canonical_output) (bytes (8 ∷ [])) (
      entry (text canonical_input) (bytes (1 ∷ []))
        (entry (text canonical_output) (bytes out) done)))

abbrev decided : Value
decided =
    map (entry (text (100 ∷ 101 ∷ 99 ∷ 105 ∷ 115 ∷ 105 ∷ 111 ∷ 110 ∷ [])) (text (98 ∷ [])) done)

abbrev from_reader : Bytes → Option Value
from_reader [] = none
from_reader (b ∷ rest) =
    if b == 1
    then some (manifest_of (2 ∷ []))
    else if b == 2
    then some decided
    else if b == 3
    then some (manifest_of (9 ∷ []))
    else none

abbrev cbor : Ciborium Value
cbor = record {
  from_reader = from_reader;
  as_map = as_map;
  as_text = as_text;
  as_bytes = as_bytes;
  null = null;
  same_value = same_value;
}

abbrev bundle : TraceBundle Value
bundle = record {
  raw_canonical_output = 2 ∷ [];
  raw_canonical_input = 1 ∷ [];
  attestation = none;
  manifest = decided;
}

decode_manifest_exact_example :
    (decode_manifest cbor (1 ∷ []) ≡ fetched bundle) ↔ IsManifest cbor (1 ∷ []) bundle
decode_manifest_exact_example = decode_manifest_exact cbor (1 ∷ []) bundle

it_decodes : decode_manifest cbor (1 ∷ []) ≡ fetched bundle
unfolding decode_manifest collect get insert
it_decodes = refl

abbrev hash : Bytes → ℕ
hash s = from_le s % 2 ^ 256

-- `ar://T`
abbrev uri : Bytes
uri = 97 ∷ 114 ∷ 58 ∷ 47 ∷ 47 ∷ 84 ∷ []

-- A gateway `G/` that answers at `G/T`.
abbrev client : Bytes → Received Response
client url =
    if same_bytes url (71 ∷ 47 ∷ 84 ∷ [])
    then received
        (record { status = 200; is_success = true; status_text = []; body = received (1 ∷ []) })
    else lost []

abbrev there : Bytes
there = 71 ∷ 47 ∷ []

arweave_fetch_exact_example :
    (arweave_fetch cbor client there hash uri (hash uri) ≡ fetched bundle) ↔ (
      (hash uri ≡ hash uri)
      × (txid : Bytes) × (base : Bytes) × (resp : Response) × HasTxid uri txid
      × IsBase there base
      × (resp.status ≢ 404)
      × IsDownload cbor (client (base ++ 47 ∷ txid)) resp bundle)
arweave_fetch_exact_example = arweave_fetch_exact cbor client there hash uri (hash uri) bundle

it_fetches : arweave_fetch cbor client there hash uri (hash uri) ≡ fetched bundle
unfolding arweave_fetch decode_manifest collect get insert from_le
it_fetches = refl

abbrev lying : ThoughtSubmittedEvent
lying = record {
  agent = 11;
  thought_pda = 12;
  model_id = 13;
  input_commitment = 14;
  output_commitment = 515;
  trace_uri_hash = 97 + 256 * (114 + 256 * (58 + 256 * (47 + 256 * (47 + 256 * 84))));
  vrf_seed = 17;
  policy_id = 18;
  slot = 1234;
  trace_uri = uri;
}

abbrev signed : ChallengeArgs → Option ℕ
signed args = some 7

abbrev careful : Filer
careful = new conservative 10_000_000_000

it_files :
    handle_from_arweave cbor client there hash signed careful lying
    ≡ (reserve_bond 500_000_000 careful, some (some 7))
unfolding handle_from_arweave arweave_fetch decode_manifest collect get insert from_le new
    decide_and_file byte_compare
it_files = refl

it_files_from_arweave :
    (b : TraceBundle Value) × (args : ChallengeArgs) × (txid : Bytes) × (resp : Response) × (hash
        lying.trace_uri
      ≡ lying.trace_uri_hash)
    × (arweave_txid lying.trace_uri ≡ some txid)
    × IsDownload cbor (client (url_at there txid)) resp b
    × (hash b.raw_canonical_output ≢ 515)
    × (signed args ≡ some 7)
    × IsSound hash careful inconsistent_commitments lying.trace_uri 100_000_000_000 12 500_000_000
        args
unfolding new
it_files_from_arweave =
    handle_from_arweave_files_fraud cbor client there hash signed careful lying
      (reserve_bond 500_000_000 careful) 7 (omega arith) it_files

-- A verifier with a reference, and a committee of one member.
abbrev soft : Option Value → SoftVerifier Value
soft reference = record {
  structural = record { reference_decision = reference };
  committee = record { members = noop_member ∷ []; quorum = 1 };
}

soft_verify_exact_example :
    ((soft_verify cbor (soft (some (text (98 ∷ [])))) lying bundle ≡ matched) ↔ (
      (decision : Value) × (reference : Value) × HasDecision cbor decided decision
      × (some (text (98 ∷ [])) ≡ some reference)
      × (same_value decision reference ≡ true)))
    × ((soft_verify cbor (soft (some (text (98 ∷ [])))) lying bundle ≡ mismatch output_mismatch uri)
        ↔ ((output_mismatch ≡ output_mismatch)
            × (uri ≡ uri)
            × (HasNoDecision cbor decided
                ⊎ ((decision : Value) × (reference : Value) × HasDecision cbor decided decision
                    × (some (text (98 ∷ [])) ≡ some reference)
                    × (same_value decision reference ≡ false)))))
    × (((reason : ℕ) × (soft_verify cbor (soft (some (text (98 ∷ [])))) lying bundle
            ≡ inconclusive reason))
        ↔ ((decision : Value) × HasDecision cbor decided decision × (some (text (98 ∷ [])) ≡ none)))
soft_verify_exact_example =
    soft_verify_exact cbor (soft (some (text (98 ∷ [])))) lying bundle output_mismatch uri

-- A manifest whose output is no CBOR.
abbrev undecodable : TraceBundle Value
undecodable = record bundle { raw_canonical_output = 9 ∷ []; manifest = null }

it_decodes_too : decode_manifest cbor (3 ∷ []) ≡ fetched undecodable
unfolding decode_manifest collect get insert
it_decodes_too = refl

undecodable_is_accused :
    soft_verify cbor (soft none) lying undecodable ≡ mismatch output_mismatch uri
undecodable_is_accused =
    soft_verify_accuses_undecodable cbor (soft none) lying (3 ∷ []) undecodable refl it_decodes_too
      refl

abbrev leaves : Tree
leaves = node (node (leaf 1) (leaf 2)) (node (leaf 3) (leaf 4))

a_member : merkle_member hash 3 (proof_at hash leaves (true ∷ false ∷ [])) (root hash leaves) ≡ true
a_member = merkle_member_complete hash leaves (true ∷ false ∷ [])

merkle_member_sound_example :
    IsLeafOf 3 leaves
    ⊎ Collide hash
        (hashed_by hash 3 (proof_at hash leaves (true ∷ false ∷ [])))
        (pairs_of hash leaves)
merkle_member_sound_example =
    merkle_member_sound hash (λ s. omega arith) 2 leaves 3
      (proof_at hash leaves (true ∷ false ∷ [])) ((tt, tt), (tt, tt))
      ((omega arith, omega arith), (omega arith, omega arith)) (omega arith, (omega arith, tt))
      (omega arith) refl a_member
