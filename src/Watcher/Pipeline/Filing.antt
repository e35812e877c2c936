-- ===== src/Watcher/Pipeline/Filing.antt =====
-- What a filing says of the trace that was fetched.
use proof_of_thought.Prelude.{
  ℕ, ◌+◌, ◌-◌, ◌^◌, ◌≤◌, ◌<◌, ◌≡◌, ◌≢◌, ◌↔◌, refl, Option, none, some, Option-cases, inl, inr,
  arith,
}
use mathlib.Core.Path.{subst₂}
use proof_of_thought.Program.State.{ChallengeClaim, inconsistent_commitments}
use proof_of_thought.Watcher.Types.{Bytes, ThoughtSubmittedEvent, TraceBundle, mismatch}
use proof_of_thought.Watcher.Filer.{
  Filer, ChallengeArgs, file, disabled, FileDecision, ev_negative, leave, no_fraud, filing_disabled,
  settle, bond_for, reserve_bond, decide, decide_and_file, dispatch,
}
use proof_of_thought.Watcher.Filer.Decision.{IsSound, decide_files-IsSound, decide_files_every}
use proof_of_thought.Watcher.Verify.{byte_compare}
use proof_of_thought.Watcher.Pipeline.{fetch, handle_event, after_fetch}

module _ {V : Type 0} (blake3 : Bytes → ℕ) (submit : ChallengeArgs → Option ℕ)
    (gateway : Bytes → Option (TraceBundle V)) (f : Filer) (event : ThoughtSubmittedEvent) where
  fetch_passes :
      (bundle : TraceBundle V)
      → fetch blake3 gateway event.trace_uri event.trace_uri_hash ≡ some bundle
      → (blake3 event.trace_uri ≡ event.trace_uri_hash) × (gateway event.trace_uri ≡ some bundle)
  unfolding fetch
  fetch_passes bundle h = ground arith

  byte_compare-mismatch :
      (bundle : TraceBundle V) (claim : ChallengeClaim) (uri : Bytes)
      → byte_compare blake3 event bundle ≡ mismatch claim uri
      → (blake3 bundle.raw_canonical_output ≢ event.output_commitment)
        × (claim ≡ inconsistent_commitments)
        × (uri ≡ event.trace_uri)
  unfolding byte_compare
  byte_compare-mismatch bundle claim uri h = ground arith

  settle-signed :
      (f' : Filer) (signature : ℕ) (args : ChallengeArgs) (o : Option ℕ)
      → settle blake3 submit f args o ≡ (f', some (some signature))
      → (o ≡ some signature) × (f' ≡ reserve_bond args.bond f)
  settle-signed f' signature args none h = absurd (cc)
  settle-signed f' signature args (some x) h = (cc, cc)

  dispatch-signed :
      (f' : Filer) (signature : ℕ) (d : FileDecision)
      → dispatch blake3 submit f d ≡ (f', some (some signature))
      → (args : ChallengeArgs) × (d ≡ file args)
        × (submit args ≡ some signature)
        × (f' ≡ reserve_bond args.bond f)
  dispatch-signed f' signature no_fraud h = absurd (cc)
  dispatch-signed f' signature (leave reason) h = absurd (cc)
  dispatch-signed f' signature (ev_negative p b t) h = absurd (cc)
  dispatch-signed f' signature filing_disabled h = absurd (cc)
  dispatch-signed f' signature (file args) h =
      let (sent, after) = settle-signed f' signature args (submit args) h in
      (args, refl, sent, after)

  -- With a cap below 2 ^ 64 - 1: if an event leads to a signature, then its URI has the event's hash,
  -- the gateway answered with a trace whose output does not hash to the event's commitment, and the
  -- challenge submitted is of the event's thought, claims InconsistentCommitments, has the hash of
  -- the event's URI as evidence, pays on the placeholder stake, and with the bonds in flight is at
  -- most the cap; its bond is added to those in flight.
  pub handle_event_files_fraud :
      (f' : Filer) (signature : ℕ)
      → f.max_stake_at_risk_lamports < 2 ^ 64 - 1
      → handle_event blake3 submit gateway f event ≡ (f', some (some signature))
      → (bundle : TraceBundle V) × (args : ChallengeArgs) × (blake3 event.trace_uri
          ≡ event.trace_uri_hash)
        × (gateway event.trace_uri ≡ some bundle)
        × (blake3 bundle.raw_canonical_output ≢ event.output_commitment)
        × (submit args ≡ some signature)
        × IsSound blake3 f inconsistent_commitments event.trace_uri 100_000_000_000
            event.thought_pda 500_000_000 args
        × (f' ≡ reserve_bond args.bond f)
  unfolding handle_event decide_and_file
  handle_event_files_fraud f' signature small h =
      elim (Option-cases (fetch blake3 gateway event.trace_uri event.trace_uri_hash)) [
        | inl failed ↦ absurd (ground arith)
        | inr (bundle, fetched) ↦
            let outcome = byte_compare blake3 event bundle in
            let ran : after_fetch blake3 submit f event (some bundle)
                ≡ (f', some (some signature)) =
              rw fetched at h in
            let (args, decided, sent, after) =
              dispatch-signed f' signature
                (decide blake3 f outcome 100_000_000_000 event.thought_pda 500_000_000) ran in
            let (claim, uri, accused, sound) =
              decide_files-IsSound blake3 f 100_000_000_000 event.thought_pda 500_000_000 outcome
                args (omega arith) small decided in
            let (differs, same_claim, same_uri) = byte_compare-mismatch bundle claim uri accused in
            (
              bundle,
              args,
              (fetch_passes bundle fetched).0,
              (fetch_passes bundle fetched).1,
              differs,
              sent,
              subst₂
                  (λ c u. IsSound blake3 f c u 100_000_000_000 event.thought_pda 500_000_000 args)
                  same_claim same_uri sound,
              after,
            )
      ]

  -- If the event's URI has its hash, the gateway answers with a trace whose output does not hash to
  -- the event's commitment, the strategy is not Disabled, its bond on 500,000,000 lamports with the
  -- fee is below 60,000,000,000 and with the bonds in flight at most the cap, and the submitter
  -- returns a signature for the challenge on the event's thought with this bond, the claim
  -- InconsistentCommitments and the hash of the event's URI, then this signature is returned and the
  -- bond is added to those in flight.
  pub handle_event_files_every :
      (bundle : TraceBundle V) (signature : ℕ)
      → blake3 event.trace_uri ≡ event.trace_uri_hash
      → gateway event.trace_uri ≡ some bundle
      → blake3 bundle.raw_canonical_output ≢ event.output_commitment
      → f.bond_strategy ≢ disabled
      → bond_for f.bond_strategy 500_000_000 + f.tx_fee_lamports < 60_000_000_000
      → bond_for f.bond_strategy 500_000_000 + f.in_flight_bond ≤ f.max_stake_at_risk_lamports
      → submit (record {
        thought_pda = event.thought_pda;
        claim = inconsistent_commitments;
        bond = bond_for f.bond_strategy 500_000_000;
        evidence_uri_hash = blake3 event.trace_uri;
      })
        ≡ some signature
      → handle_event blake3 submit gateway f event
        ≡ (reserve_bond (bond_for f.bond_strategy 500_000_000) f, some (some signature))
  unfolding handle_event decide_and_file
  handle_event_files_every bundle signature at answered differs enabled pays capped sent =
      let fetched : fetch blake3 gateway event.trace_uri event.trace_uri_hash ≡ some bundle =
        unfold fetch in ground arith in
      let accused : byte_compare blake3 event bundle
          ≡ mismatch inconsistent_commitments event.trace_uri =
        unfold byte_compare in ground arith in
      let decided =
        decide_files_every blake3 f 100_000_000_000 event.thought_pda 500_000_000
          inconsistent_commitments event.trace_uri enabled (omega arith) (omega arith) capped in
      rw (fetched, accused, decided, sent) refl

  -- With a cap below 2 ^ 64 - 1, an event leads to a signature exactly if its URI has the event's
  -- hash, the gateway answers with a trace whose output does not hash to the event's commitment, and
  -- the submitter returns this signature for a challenge of the event's thought that claims
  -- InconsistentCommitments with the hash of the event's URI as evidence, under a strategy that is
  -- not Disabled and with its bond, at a profit on the placeholder stake, and at most the cap with
  -- the bonds in flight, to which the bond is then added.
  pub handle_event_files_exact :
      (f' : Filer) (signature : ℕ)
      → f.max_stake_at_risk_lamports < 2 ^ 64 - 1
      → (handle_event blake3 submit gateway f event ≡ (f', some (some signature))) ↔ (
          (bundle : TraceBundle V) × (args : ChallengeArgs) × (blake3 event.trace_uri
            ≡ event.trace_uri_hash)
          × (gateway event.trace_uri ≡ some bundle)
          × (blake3 bundle.raw_canonical_output ≢ event.output_commitment)
          × (submit args ≡ some signature)
          × IsSound blake3 f inconsistent_commitments event.trace_uri 100_000_000_000
              event.thought_pda 500_000_000 args
          × (f' ≡ reserve_bond args.bond f))
  handle_event_files_exact f' signature small = (
    handle_event_files_fraud f' signature small,
    λ (bundle, args, at, answered, differs, sent, sound, after).
        let same : args ≡ record {
          thought_pda = event.thought_pda;
          claim = inconsistent_commitments;
          bond = bond_for f.bond_strategy 500_000_000;
          evidence_uri_hash = blake3 event.trace_uri;
        } =
          ground (arith, sound.target, sound.claims, sound.bond, sound.evidence) in
        let filed =
          handle_event_files_every bundle signature at answered differs sound.enabled
            (omega (arith, sound.pays, sound.bond)) (omega (arith, sound.capped, sound.bond))
            (cc) in
        cc (sound.bond),
  )
