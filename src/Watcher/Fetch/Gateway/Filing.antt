-- ===== src/Watcher/Fetch/Gateway/Filing.antt =====
-- From the bytes that the Arweave gateway sends to a filing.
use proof_of_thought.Prelude.{
  ℕ, ◌^◌, ◌-◌, ◌<◌, ◌≡◌, ◌≢◌, refl, Option, some, Bool-cases, inl, inr, ◌==◌, ◌∙◌, sym,
}
use proof_of_thought.Program.State.{inconsistent_commitments}
use proof_of_thought.Watcher.Types.{Bytes, ThoughtSubmittedEvent, TraceBundle}
use proof_of_thought.Watcher.Filer.{Filer, ChallengeArgs}
use proof_of_thought.Watcher.Filer.Decision.{IsSound}
use proof_of_thought.Watcher.Pipeline.{verify_uri_hash, fetch, handle_event}
use proof_of_thought.Watcher.Pipeline.Filing.{handle_event_files_fraud}
use proof_of_thought.Watcher.Fetch.{Ciborium, Fetched, fetched, failed}
use proof_of_thought.Watcher.Fetch.Gateway.{
  Received, Response, arweave_txid, url_at, ask_arweave, arweave_fetch, to_option,
  handle_from_arweave,
}
use proof_of_thought.Watcher.Fetch.Gateway.Exact.{IsDownload, ask_arweave-IsDownload}

to_option-some {ℓ} : {T : Type ℓ} (r : Fetched T) (t : T) → to_option r ≡ some t → r ≡ fetched t
to_option-some (fetched u) t h = cc
to_option-some (failed e) t h = absurd (cc)

module _ {V : Type 0} (cbor : Ciborium V) (client : Bytes → Received Response) (gateway : Bytes)
    (blake3 : Bytes → ℕ) (submit : ChallengeArgs → Option ℕ) (f : Filer)
    (event : ThoughtSubmittedEvent) where
  abbrev answer : Bytes → Option (TraceBundle V)
  answer uri = to_option (ask_arweave cbor client gateway uri)

  -- The fetcher is the check of the URI and then the gateway.
  handle_from_arweave-handle_event :
      handle_from_arweave cbor client gateway blake3 submit f event
      ≡ handle_event blake3 submit answer f event
  unfolding handle_from_arweave handle_event fetch arweave_fetch verify_uri_hash
  handle_from_arweave-handle_event =
      elim (Bool-cases (blake3 event.trace_uri == event.trace_uri_hash)) [
        | inl same ↦ rw same refl
        | inr differs ↦ rw differs refl
      ]

  -- With a cap below 2 ^ 64 - 1 and the Arweave fetcher: if an event leads to a signature, then its
  -- URI has the event's hash and an Arweave prefix, the gateway answers at the rest of the URI, with
  -- a status that counts as success, with a manifest whose output does not hash to the event's
  -- commitment, and the challenge submitted is of the event's thought, claims
  -- InconsistentCommitments, has the hash of the event's URI as evidence, pays on the placeholder
  -- stake, and with the bonds in flight is at most the cap.
  pub handle_from_arweave_files_fraud :
      (f' : Filer) (signature : ℕ)
      → f.max_stake_at_risk_lamports < 2 ^ 64 - 1
      → handle_from_arweave cbor client gateway blake3 submit f event ≡ (f', some (some signature))
      → (bundle : TraceBundle V) × (args : ChallengeArgs) × (txid : Bytes) × (resp : Response)
        × (blake3 event.trace_uri ≡ event.trace_uri_hash)
        × (arweave_txid event.trace_uri ≡ some txid)
        × IsDownload cbor (client (url_at gateway txid)) resp bundle
        × (blake3 bundle.raw_canonical_output ≢ event.output_commitment)
        × (submit args ≡ some signature)
        × IsSound blake3 f inconsistent_commitments event.trace_uri 100_000_000_000
            event.thought_pda 500_000_000 args
  handle_from_arweave_files_fraud f' signature small h =
      let ran : handle_event blake3 submit answer f event ≡ (f', some (some signature)) =
        sym handle_from_arweave-handle_event ∙ h in
      let (bundle, args, hashed, answered, differs, sent, sound, _) =
        handle_event_files_fraud blake3 submit answer f event f' signature small ran in
      let asked : ask_arweave cbor client gateway event.trace_uri ≡ fetched bundle =
        to_option-some (ask_arweave cbor client gateway event.trace_uri) bundle answered in
      let (txid, resp, found, there, d) =
        ask_arweave-IsDownload cbor client gateway event.trace_uri bundle asked in
      (bundle, args, txid, resp, hashed, found, d, differs, sent, sound)
