-- ===== src/Watcher/Pipeline/Sequence.antt =====
-- The pipeline over a sequence of events (`run_pipeline` of watcher/src/main.rs), one task at a time.
use proof_of_thought.Prelude.{
  ℕ, ◌-◌, ◌^◌, ◌≤◌, ◌<◌, ◌≡◌, refl, List, [], ◌∷◌, Option, none, some, Option-cases, inl, inr,
  arith, ◌∙◌,
}
use proof_of_thought.Watcher.Types.{Bytes, ThoughtSubmittedEvent, TraceBundle, VerifyOutcome}
use proof_of_thought.Watcher.Filer.{
  Filer, ChallengeArgs, FileDecision, no_fraud, leave, ev_negative, filing_disabled, file, decide,
  settle, dispatch, decide_and_file, reserve_bond,
}
use proof_of_thought.Watcher.Filer.Race.{decide_and_file_capped}
use proof_of_thought.Watcher.Verify.{byte_compare}
use proof_of_thought.Watcher.Pipeline.{
  fetch, handle_event, run_pipeline, placeholder_agent_stake_lamports, placeholder_bond_min,
}

-- The bonds in flight are at most the cap, and the cap is the one given.
abbrev pub IsCapped : ℕ → Filer → Type 0
IsCapped cap f = (f.max_stake_at_risk_lamports ≡ cap) × (f.in_flight_bond ≤ cap)

module _ (blake3 : Bytes → ℕ) (submit : ChallengeArgs → Option ℕ) where
  settle_keeps_cap :
      (f : Filer) (args : ChallengeArgs) (o : Option ℕ)
      → (settle blake3 submit f args o).0.max_stake_at_risk_lamports ≡ f.max_stake_at_risk_lamports
  unfolding reserve_bond
  settle_keeps_cap f args none = refl
  settle_keeps_cap f args (some signature) = refl

  dispatch_keeps_cap :
      (f : Filer) (d : FileDecision)
      → (dispatch blake3 submit f d).0.max_stake_at_risk_lamports ≡ f.max_stake_at_risk_lamports
  dispatch_keeps_cap f no_fraud = refl
  dispatch_keeps_cap f (leave reason) = refl
  dispatch_keeps_cap f (ev_negative p b t) = refl
  dispatch_keeps_cap f filing_disabled = refl
  dispatch_keeps_cap f (file args) = settle_keeps_cap f args (submit args)

  keeps_cap :
      (f : Filer) (outcome : VerifyOutcome) (stake pda bond_min : ℕ)
      → (decide_and_file blake3 submit f outcome stake pda bond_min).0.max_stake_at_risk_lamports
        ≡ f.max_stake_at_risk_lamports
  unfolding decide_and_file
  keeps_cap f outcome stake pda bond_min =
      dispatch_keeps_cap f (decide blake3 f outcome stake pda bond_min)

  decide_and_file-IsCapped :
      (f : Filer) (outcome : VerifyOutcome) (stake pda bond_min cap : ℕ)
      → cap < 2 ^ 64 - 1
      → IsCapped cap f
      → IsCapped cap (decide_and_file blake3 submit f outcome stake pda bond_min).0
  decide_and_file-IsCapped f outcome stake pda bond_min cap small (same, below) =
      let kept = keeps_cap f outcome stake pda bond_min in
      let capped =
        decide_and_file_capped blake3 submit f outcome stake pda bond_min (omega arith)
          (omega arith) in
      (kept ∙ same, omega (arith, capped))

  module _ {V : Type 0} (gateway : Bytes → Option (TraceBundle V)) where
    handle_event-IsCapped :
        (f : Filer) (event : ThoughtSubmittedEvent) (cap : ℕ)
        → cap < 2 ^ 64 - 1
        → IsCapped cap f
        → IsCapped cap (handle_event blake3 submit gateway f event).0
    unfolding handle_event
    handle_event-IsCapped f event cap small capped =
        elim (Option-cases (fetch blake3 gateway event.trace_uri event.trace_uri_hash)) [
          | inl missing ↦ rw missing capped
          | inr (bundle, fetched) ↦ rw fetched (
              decide_and_file-IsCapped f (byte_compare blake3 event bundle)
                placeholder_agent_stake_lamports event.thought_pda placeholder_bond_min cap small
                capped)
        ]

    -- With a cap below 2 ^ 64 - 1 and the bonds in flight at most the cap: whatever the events, and
    -- whatever the gateway and the submitter answer, a pipeline whose tasks end one after the other
    -- leaves the cap as it is and the bonds in flight at most the cap.
    pub run_pipeline-IsCapped :
        (events : List ThoughtSubmittedEvent) (f : Filer) (cap : ℕ)
        → cap < 2 ^ 64 - 1
        → IsCapped cap f
        → IsCapped cap (run_pipeline blake3 submit gateway events f).0
    unfolding run_pipeline
    run_pipeline-IsCapped [] f cap small capped = capped
    run_pipeline-IsCapped (event ∷ events) f cap small capped =
        run_pipeline-IsCapped events (handle_event blake3 submit gateway f event).0 cap small
          (handle_event-IsCapped f event cap small capped)
