-- ===== src/Watcher/Soft.antt =====
-- The verifiers of the soft regime (watcher/src/verify/soft.rs). The hash and the CBOR values are
-- parameters.
pub mod Decision
pub mod Accusation
pub mod Trees
pub mod Merkle
use proof_of_thought.Prelude.{
  ℕ, List, [], ◌∷◌, ◌++◌, Option, none, some, Bool, true, false, if◌then◌else◌, ◌==◌, is_empty,
}
use proof_of_thought.Program.State.{output_mismatch}
use proof_of_thought.Watcher.Types.{
  Bytes, le_bytes, same_bytes, ThoughtSubmittedEvent, TraceBundle, VerifyOutcome, matched, mismatch,
  inconclusive,
}
use proof_of_thought.Watcher.Fetch.{Ciborium, and_then}

-- `k.as_text() == Some(name)`
abbrev pub is_text : Bytes → Option Bytes → Bool
is_text name none = false
is_text name (some s) = same_bytes s name

abbrev pub decision_key : Bytes
decision_key = 100 ∷ 101 ∷ 99 ∷ 105 ∷ 115 ∷ 105 ∷ 111 ∷ 110 ∷ []

pub record StructuralJsonEquiv (V : Type 0) : Type 0 where
  pub reference_decision : Option V

pub data CommitteeVote : Type 0 where
  same different unsure : CommitteeVote

-- A member is its `entails_same_action`.
pub record SemanticCommitteeEquiv (V : Type 0) : Type 0 where
  pub members : List (V → V → CommitteeVote)
  pub quorum : ℕ

abbrev pub noop_member : {V : Type 0} → V → V → CommitteeVote
noop_member a b = unsure

pub record SoftVerifier (V : Type 0) : Type 0 where
  pub structural : StructuralJsonEquiv V
  pub committee : SemanticCommitteeEquiv V

-- Reasons: 2 no reference decision, 3 an empty committee, 4 a committee that does not run again,
-- 5 samples that are not run again.
unfoldable pub committee_verify :
    {V : Type 0} → SemanticCommitteeEquiv V → ThoughtSubmittedEvent → TraceBundle V → VerifyOutcome
committee_verify v event bundle = if is_empty v.members then inconclusive 3 else inconclusive 4

abbrev pub any_of_n_verify : {V : Type 0} → ThoughtSubmittedEvent → TraceBundle V → VerifyOutcome
any_of_n_verify event bundle = inconclusive 5

module _ {V : Type 0} (cbor : Ciborium V) where
  -- `find(|(k, _)| k.as_text() == Some("decision"))`
  unfoldable pub find_decision : List (V × V) → Option V
  find_decision [] = none
  find_decision ((k, v) ∷ map) =
      if is_text decision_key (cbor.as_text k) then some v else find_decision map

  abbrev pub extract_decision : V → Option V
  extract_decision manifest = and_then (cbor.as_map manifest) find_decision

  abbrev pub judge_decision : ThoughtSubmittedEvent → Option V → Option V → VerifyOutcome
  judge_decision event none reference = mismatch output_mismatch event.trace_uri
  judge_decision event (some decision) none = inconclusive 2
  judge_decision event (some decision) (some reference) =
      if cbor.same_value decision reference
      then matched
      else mismatch output_mismatch event.trace_uri

  -- `StructuralJsonEquiv::verify`
  unfoldable pub structural_verify :
      StructuralJsonEquiv V → ThoughtSubmittedEvent → TraceBundle V → VerifyOutcome
  structural_verify v event bundle =
      judge_decision event (extract_decision bundle.manifest) v.reference_decision

  abbrev pub fall_back : VerifyOutcome → VerifyOutcome → VerifyOutcome
  fall_back matched other = matched
  fall_back (mismatch claim uri) other = mismatch claim uri
  fall_back (inconclusive reason) other = other

  -- `SoftVerifier::verify`
  unfoldable pub soft_verify :
      SoftVerifier V → ThoughtSubmittedEvent → TraceBundle V → VerifyOutcome
  unfolding structural_verify committee_verify
  soft_verify v event bundle =
      fall_back (structural_verify v.structural event bundle)
        (committee_verify v.committee event bundle)

-- `for (is_right, sibling) in proof`
unfoldable pub climb : (Bytes → ℕ) → ℕ → List (Bool × ℕ) → ℕ
climb blake3 acc [] = acc
climb blake3 acc ((is_right, sibling) ∷ proof) =
    climb blake3
      (blake3 (
        if is_right
        then le_bytes 32 acc ++ le_bytes 32 sibling
        else le_bytes 32 sibling ++ le_bytes 32 acc))
      proof

-- `AnyOfNEquiv::merkle_member`
unfoldable pub merkle_member : (Bytes → ℕ) → ℕ → List (Bool × ℕ) → ℕ → Bool
merkle_member blake3 revealed_leaf_hash proof claimed_root =
    climb blake3 revealed_leaf_hash proof == claimed_root
