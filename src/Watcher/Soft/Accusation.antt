-- ===== src/Watcher/Soft/Accusation.antt =====
-- What the soft verifier accepts and what it accuses.
use proof_of_thought.Prelude.{
  ℕ, ◌≡◌, ◌↔◌, ◌⊎◌, inl, inr, refl, Option, none, some, true, false, arith,
}
use proof_of_thought.Program.State.{ChallengeClaim, output_mismatch}
use proof_of_thought.Watcher.Types.{
  Bytes, ThoughtSubmittedEvent, TraceBundle, VerifyOutcome, matched, mismatch, inconclusive,
}
use proof_of_thought.Watcher.Fetch.{Ciborium, fetched, decode_manifest}
use proof_of_thought.Watcher.Fetch.Manifest.{decode_manifest_exact}
use proof_of_thought.Watcher.Soft.{
  SoftVerifier, SemanticCommitteeEquiv, extract_decision, judge_decision, structural_verify,
  committee_verify, soft_verify, fall_back,
}
use proof_of_thought.Watcher.Soft.Decision.{
  HasDecision, HasNoDecision, extract_decision-HasDecision, HasDecision-extract_decision,
  extract_decision-HasNoDecision, HasNoDecision-extract_decision,
}

-- No decision, or one that differs from a reference.
abbrev IsAgainst : {V : Type 0} → Ciborium V → Option V → Option V → Type 0
IsAgainst {V} cbor d r =
    (d ≡ none)
    ⊎ ((decision : V) × (reference : V) × (d ≡ some decision)
        × (r ≡ some reference)
        × (cbor.same_value decision reference ≡ false))

module _ {V : Type 0} (cbor : Ciborium V) (v : SoftVerifier V) (event : ThoughtSubmittedEvent)
    (bundle : TraceBundle V) where
  committee_verify_abstains :
      (c : SemanticCommitteeEquiv V)
      → (committee_verify c event bundle ≡ inconclusive 3)
        ⊎ (committee_verify c event bundle ≡ inconclusive 4)
  unfolding committee_verify
  committee_verify_abstains c = ground arith

  -- The committee's outcome decides nothing.
  abbrev Abstains : VerifyOutcome → Type 0
  Abstains o = (o ≡ inconclusive 3) ⊎ (o ≡ inconclusive 4)

  fall_back-matched :
      (d r : Option V) (o : VerifyOutcome)
      → Abstains o
      → fall_back cbor (judge_decision cbor event d r) o ≡ matched
      → (decision : V) × (reference : V) × (d ≡ some decision)
        × (r ≡ some reference)
        × (cbor.same_value decision reference ≡ true)
  fall_back-matched none r o a h = absurd (cc)
  fall_back-matched (some d) none o a h = absurd (ground arith)
  fall_back-matched (some d) (some r) o a h = (d, r, refl, refl, ground arith)

  fall_back-mismatch :
      (d r : Option V) (o : VerifyOutcome) (claim : ChallengeClaim) (uri : Bytes)
      → Abstains o
      → fall_back cbor (judge_decision cbor event d r) o ≡ mismatch claim uri
      → (claim ≡ output_mismatch) × (uri ≡ event.trace_uri) × IsAgainst cbor d r
  fall_back-mismatch none r o claim uri a h = (cc, cc, inl refl)
  fall_back-mismatch (some d) none o claim uri a h = absurd (ground arith)
  fall_back-mismatch (some d) (some r) o claim uri a h =
      (ground arith, ground arith, inr (d, r, refl, refl, ground arith))

  fall_back_accuses :
      (d r : Option V) (o : VerifyOutcome)
      → IsAgainst cbor d r
      → fall_back cbor (judge_decision cbor event d r) o ≡ mismatch output_mismatch event.trace_uri
  fall_back_accuses d r o (inl missing) = rw missing refl
  fall_back_accuses d r o (inr (decision, reference, found, given, differs)) =
      rw (found, given, differs) refl

  soft_verify_matches : (soft_verify cbor v event bundle ≡ matched) ↔ (
      (decision : V) × (reference : V) × (extract_decision cbor bundle.manifest ≡ some decision)
      × (v.structural.reference_decision ≡ some reference)
      × (cbor.same_value decision reference ≡ true))
  unfolding soft_verify structural_verify
  soft_verify_matches = (
    λ h.
        fall_back-matched (extract_decision cbor bundle.manifest) v.structural.reference_decision
          (committee_verify v.committee event bundle) (committee_verify_abstains v.committee) h,
    λ (decision, reference, found, given, same). rw (found, given, same) refl,
  )

  soft_verify_accuses :
      (claim : ChallengeClaim) (uri : Bytes)
      → (soft_verify cbor v event bundle ≡ mismatch claim uri) ↔ (
          (claim ≡ output_mismatch)
          × (uri ≡ event.trace_uri)
          × IsAgainst cbor (extract_decision cbor bundle.manifest) v.structural.reference_decision)
  unfolding soft_verify structural_verify
  soft_verify_accuses claim uri = (
    λ h.
        fall_back-mismatch (extract_decision cbor bundle.manifest) v.structural.reference_decision
          (committee_verify v.committee event bundle) claim uri
          (committee_verify_abstains v.committee) h,
    λ (same_claim, same_uri, accused).
        rw (same_claim, same_uri)
          (fall_back_accuses (extract_decision cbor bundle.manifest) v.structural.reference_decision
            (committee_verify v.committee event bundle) accused),
  )

  fall_back-inconclusive :
      (d r : Option V) (o : VerifyOutcome) (reason : ℕ)
      → fall_back cbor (judge_decision cbor event d r) o ≡ inconclusive reason
      → (decision : V) × (d ≡ some decision) × (r ≡ none)
  fall_back-inconclusive none r o reason h = absurd (cc)
  fall_back-inconclusive (some d) none o reason h = (d, refl, refl)
  fall_back-inconclusive (some d) (some r) o reason h = absurd (ground arith)

  soft_verify_abstains :
      ((reason : ℕ) × (soft_verify cbor v event bundle ≡ inconclusive reason)) ↔ (
        (decision : V) × (extract_decision cbor bundle.manifest ≡ some decision)
        × (v.structural.reference_decision ≡ none))
  unfolding soft_verify structural_verify
  soft_verify_abstains = (
    λ (reason, h).
        fall_back-inconclusive (extract_decision cbor bundle.manifest)
          v.structural.reference_decision (committee_verify v.committee event bundle) reason h,
    λ (decision, found, none_given). elim (committee_verify_abstains v.committee) [
      | inl empty ↦ (3, rw (found, none_given) empty)
      | inr other ↦ (4, rw (found, none_given) other)
    ],
  )

  IsAgainst-said :
      IsAgainst cbor (extract_decision cbor bundle.manifest) v.structural.reference_decision
      → HasNoDecision cbor bundle.manifest
        ⊎ ((decision : V) × (reference : V) × HasDecision cbor bundle.manifest decision
            × (v.structural.reference_decision ≡ some reference)
            × (cbor.same_value decision reference ≡ false))
  IsAgainst-said (inl missing) = inl (extract_decision-HasNoDecision cbor bundle.manifest missing)
  IsAgainst-said (inr (decision, reference, found, given, compared)) = inr (
    decision,
    reference,
    extract_decision-HasDecision cbor bundle.manifest decision found,
    given,
    compared,
  )

  said-IsAgainst :
      HasNoDecision cbor bundle.manifest
        ⊎ ((decision : V) × (reference : V) × HasDecision cbor bundle.manifest decision
            × (v.structural.reference_decision ≡ some reference)
            × (cbor.same_value decision reference ≡ false))
      → IsAgainst cbor (extract_decision cbor bundle.manifest) v.structural.reference_decision
  said-IsAgainst (inl missing) = inl (HasNoDecision-extract_decision cbor bundle.manifest missing)
  said-IsAgainst (inr (decision, reference, d, given, compared)) = inr (
    decision,
    reference,
    HasDecision-extract_decision cbor bundle.manifest decision d,
    given,
    compared,
  )

  -- The soft verifier reports a match exactly when the trace's output has a decision, a reference is
  -- configured and the two are equal. It reports a mismatch exactly when the output has no decision,
  -- with a reference or without one (where the source's comments promise an inconclusive outcome), or
  -- has one that differs from a reference configured; the claim is then OutputMismatch and the
  -- evidence the event's trace. It is inconclusive exactly when the output has a decision and no
  -- reference is configured. The decision is the value of the first entry of the output's map under
  -- the text "decision"; an output that is no map, or has no such entry, has none.
  pub soft_verify_exact :
      (claim : ChallengeClaim) (uri : Bytes)
      → ((soft_verify cbor v event bundle ≡ matched) ↔ (
          (decision : V) × (reference : V) × HasDecision cbor bundle.manifest decision
          × (v.structural.reference_decision ≡ some reference)
          × (cbor.same_value decision reference ≡ true)))
        × ((soft_verify cbor v event bundle ≡ mismatch claim uri) ↔ (
            (claim ≡ output_mismatch)
            × (uri ≡ event.trace_uri)
            × (HasNoDecision cbor bundle.manifest
                ⊎ ((decision : V) × (reference : V) × HasDecision cbor bundle.manifest decision
                    × (v.structural.reference_decision ≡ some reference)
                    × (cbor.same_value decision reference ≡ false)))))
        × (((reason : ℕ) × (soft_verify cbor v event bundle ≡ inconclusive reason)) ↔ (
            (decision : V) × HasDecision cbor bundle.manifest decision
            × (v.structural.reference_decision ≡ none)))
  soft_verify_exact claim uri =
      let has = extract_decision-HasDecision cbor bundle.manifest in
      let of = HasDecision-extract_decision cbor bundle.manifest in
      (
        (
          λ h.
              let (decision, reference, found, given, compared) = soft_verify_matches.0 h in
              (decision, reference, has decision found, given, compared),
          λ (decision, reference, d, given, compared).
              soft_verify_matches.1 (decision, reference, of decision d, given, compared),
        ),
        (
          λ h.
              let (c, u, against) = (soft_verify_accuses claim uri).0 h in
              (c, u, IsAgainst-said against),
          λ (c, u, said). (soft_verify_accuses claim uri).1 (c, u, said-IsAgainst said),
        ),
        (
          λ h.
              let (decision, found, none_given) = soft_verify_abstains.0 h in
              (decision, has decision found, none_given),
          λ (decision, d, none_given). soft_verify_abstains.1 (decision, of decision d, none_given),
        ),
      )

-- If the decoder takes a manifest whose output is no CBOR, and null is not a map, then the soft verifier
-- accuses its agent of OutputMismatch, whatever the committee and the reference.
pub soft_verify_accuses_undecodable :
    {V : Type 0} (cbor : Ciborium V) (v : SoftVerifier V) (event : ThoughtSubmittedEvent)
    (bytes : Bytes) (bundle : TraceBundle V)
    → cbor.as_map cbor.null ≡ none
    → decode_manifest cbor bytes ≡ fetched bundle
    → cbor.from_reader bundle.raw_canonical_output ≡ none
    → soft_verify cbor v event bundle ≡ mismatch output_mismatch event.trace_uri
soft_verify_accuses_undecodable cbor v event bytes bundle null h undecodable =
    let m = (decode_manifest_exact cbor bytes bundle).0 h in
    let manifest : cbor.null ≡ bundle.manifest = rw undecodable at m.decoded in
    let missing : extract_decision cbor bundle.manifest ≡ none = rw (← manifest, null) refl in
    (soft_verify_accuses cbor v event bundle output_mismatch event.trace_uri).1
      (refl, refl, inl missing)
