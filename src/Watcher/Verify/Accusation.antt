-- ===== src/Watcher/Verify/Accusation.antt =====
-- What the strict verifier accuses (watcher/src/verify/strict.rs).
use proof_of_thought.Prelude.{ℕ, ◌≡◌, ◌≢◌, ◌⊎◌, ◌↔◌, inl, inr, refl, arith}
use proof_of_thought.Program.State.{ChallengeClaim, output_mismatch, inconsistent_commitments}
use proof_of_thought.Watcher.Types.{Bytes, ThoughtSubmittedEvent, TraceBundle, matched, mismatch}
use native.Mathlib.Decide.{ℕ_discrete}
use proof_of_thought.Watcher.Verify.{
  EngineResult, output, unavailable, judge_rerun, byte_compare, strict, noop_strict,
}

module _ (blake3 : Bytes → ℕ) (event : ThoughtSubmittedEvent) where
  judge_rerun-mismatch :
      (e : EngineResult) (claim : ChallengeClaim) (uri : Bytes)
      → judge_rerun blake3 event e ≡ mismatch claim uri
      → (uri ≡ event.trace_uri)
        × (claim ≡ output_mismatch)
        × (bytes : Bytes) × (e ≡ output bytes)
        × (blake3 bytes ≢ event.output_commitment)
  judge_rerun-mismatch (unavailable reason) claim uri h = absurd (cc)
  judge_rerun-mismatch (output bytes) claim uri h =
      (ground arith, ground arith, bytes, refl, ground arith)

  module _ {V : Type 0} (execute : ℕ → Bytes → ℕ → EngineResult) (bundle : TraceBundle V) where
    -- If the strict verifier reports a mismatch, then its evidence is the event's trace, and either
    -- the claim is InconsistentCommitments and the trace's output does not hash to the commitment,
    -- or the claim is OutputMismatch, the trace's output hashes to the commitment, and the engine
    -- returned an output that does not.
    pub strict_accuses_only_fraud :
        (claim : ChallengeClaim) (uri : Bytes)
        → strict blake3 execute event bundle ≡ mismatch claim uri
        → (uri ≡ event.trace_uri)
          × (((claim ≡ inconsistent_commitments)
                × (blake3 bundle.raw_canonical_output ≢ event.output_commitment))
              ⊎ ((claim ≡ output_mismatch)
                  × (blake3 bundle.raw_canonical_output ≡ event.output_commitment)
                  × (bytes : Bytes) × (execute event.model_id bundle.raw_canonical_input
                        event.vrf_seed
                      ≡ output bytes)
                  × (blake3 bytes ≢ event.output_commitment)))
    unfolding strict byte_compare
    strict_accuses_only_fraud claim uri h =
        elim (ℕ_discrete (blake3 bundle.raw_canonical_output) event.output_commitment) [
          | yes same ↦
              let rerun = execute event.model_id bundle.raw_canonical_input event.vrf_seed in
              let (at, fraud, bytes, ran, differs) =
                judge_rerun-mismatch rerun claim uri (ground arith) in
              (at, inr (fraud, same, bytes, ran, differs))
          | no differs ↦ (ground arith, inl (ground arith, differs))
        ]

module _ {V : Type 0} (blake3 : Bytes → ℕ) (event : ThoughtSubmittedEvent)
    (bundle : TraceBundle V) where
  -- With the engine that does nothing, the strict verifier reports the mismatches that the byte
  -- comparison reports, and no other, and never a match.
  pub noop_strict_exact :
      (claim : ChallengeClaim) (uri : Bytes)
      → ((noop_strict blake3 event bundle ≡ mismatch claim uri)
          ↔ (byte_compare blake3 event bundle ≡ mismatch claim uri))
        × (noop_strict blake3 event bundle ≢ matched)
  unfolding strict byte_compare
  noop_strict_exact claim uri = (
    elim (ℕ_discrete (blake3 bundle.raw_canonical_output) event.output_commitment) [
      | yes same ↦ (λ h. absurd (ground arith), λ h. absurd (ground arith))
      | no differs ↦ (λ h. ground arith, λ h. ground arith)
    ],
    λ h. ground arith,
  )
