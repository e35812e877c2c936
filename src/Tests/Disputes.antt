-- ===== src/Tests/Disputes.antt =====
-- The theorems on the life of a thought and its dispute, applied on the histories of `Scenario`.
use proof_of_thought.Prelude.{
  ◌+◌, ◌*◌, ◌/◌, ◌≤◌, ◌≡◌, ◌⊎◌, refl, ℕ, some, none, true, [], get_elem?, arith,
}
use proof_of_thought.Prelude.Dict.{lookup}
use proof_of_thought.Program.Error.{ok}
use proof_of_thought.Program.State.{
  agent_profile, thought_record, Policy, policy, ModelRegistry, model_registry,
  inconsistent_commitments,
}
use proof_of_thought.Program.Runtime.{Ledger, Lamports, moved, model_seeds, policy_seeds}
use proof_of_thought.Program.Addresses.{address}
use proof_of_thought.Program.Resolve.{resolve_challenged, judge_agent}
use proof_of_thought.Program.Dispute.{open_challenge}
use proof_of_thought.Program.Effect.{IsCoded}
use proof_of_thought.Program.Invariant.Disputes.{status_of}
use proof_of_thought.Program.Invariant.Reached.{status_follows_dispute}
use proof_of_thought.Program.History.Lifecycle.{changes, steps_left, changes-le-steps_left}
use proof_of_thought.Program.Behaviour.Admission.{accounts-IsCoded, thought_authorised}
use proof_of_thought.Program.Behaviour.Opening.{after_challenge, challenge_pending}
use proof_of_thought.Program.Behaviour.Judgement.{IsDocket, after_verdict, judge_unresolved}
use proof_of_thought.Program.Behaviour.Slashing.{IsContest, challenge_slashes}
use proof_of_thought.Tests.Platform.{platform, platform_laws, wallet, platform-PaysFrom}
use proof_of_thought.Tests.Scenario.{
  then, funds, agent_key, vault_key, thought_key, challenge_key, bond_key, busy_agent,
  pending_thought, the_policy, open_dispute, submitted_world, challenged_world, verdict_context,
  challenge_context, Reach-submitted, Reach-challenged,
}

status_follows_dispute_example :
    (challenge_key ≡ challenge_key)
    × (status_of (lookup thought_key challenged_world.ledger.accounts) ≡ some 1)
unfolding then
status_follows_dispute_example =
    status_follows_dispute platform platform_laws funds 100 challenged_world Reach-challenged
      challenge_key challenge_key open_dispute open_dispute refl refl refl

thought_authorised_example :
    (m : ModelRegistry) × (p : Policy) × (lookup
        (address platform (model_seeds 7))
        submitted_world.ledger.accounts
      ≡ some (model_registry m))
    × (lookup (address platform (policy_seeds 8)) submitted_world.ledger.accounts ≡ some (policy p))
    × (m.registered_by ≡ 15)
    × ((p.allowed_models ≡ []) ⊎ (i : ℕ) × (get_elem? p.allowed_models i ≡ some 7))
    × (110 ≡ 100 + p.challenge_window_slots)
unfolding then
thought_authorised_example =
    thought_authorised platform platform_laws funds 100 submitted_world Reach-submitted thought_key
      pending_thought refl

accounts-IsCoded_example : IsCoded platform (thought_record pending_thought)
unfolding then
accounts-IsCoded_example =
    accounts-IsCoded platform platform_laws funds 100 submitted_world Reach-submitted thought_key
      (thought_record pending_thought) refl

changes-le-steps_left_example :
    changes thought_key Reach-challenged
      + steps_left (lookup thought_key challenged_world.ledger.accounts)
    ≤ 3
unfolding then
changes-le-steps_left_example =
    changes-le-steps_left platform platform_laws thought_key Reach-challenged

-- The challenger pays the rent of 124 and the bond of 205.
abbrev funded : Lamports
funded = moved 6 challenge_key 124 submitted_world.ledger.lamports

challenge_pending_example :
    (lookup challenge_key submitted_world.ledger.accounts ≡ none)
    × (open_challenge platform challenge_context 100 inconsistent_commitments 205 99
          submitted_world.ledger
        ≡ ok (
            after_challenge platform challenge_context 100 inconsistent_commitments 205 99
              pending_thought
              (moved 6 bond_key 205 funded)
              submitted_world.ledger))
unfolding then
challenge_pending_example =
    challenge_pending platform platform_laws funds 100 submitted_world Reach-submitted
      challenge_context inconsistent_commitments 205 99 pending_thought the_policy funded
      (moved 6 bond_key 205 funded) refl refl refl refl (omega arith) (omega arith) refl refl refl
      refl

docket :
    IsDocket platform verdict_context
      (record pending_thought { status = 1 })
      busy_agent
      the_policy
      open_dispute
      challenged_world.ledger
unfolding then
docket = record {
  thought_at = refl;
  agent_at = refl;
  policy_at = refl;
  challenge_at = refl;
  owner = refl;
  governing = refl;
  resolver = refl;
  treasury = refl;
  subject = refl;
  unresolved = refl;
  challenger = refl;
  operator = refl;
  vault_at = refl;
  bond_at = refl;
}

judge_unresolved_example :
    (paid : Lamports) × (resolve_challenged platform verdict_context true challenged_world.ledger
      ≡ ok (
          after_verdict verdict_context true
            (record pending_thought { status = 1 })
            busy_agent
            open_dispute
            paid
            challenged_world.ledger))
judge_unresolved_example =
    judge_unresolved platform platform_laws funds 100 challenged_world Reach-challenged
      verdict_context (record pending_thought { status = 1 }) busy_agent the_policy open_dispute
      docket true (omega arith) (omega arith) (platform-PaysFrom vault_key)
      (platform-PaysFrom bond_key)

contest :
    IsContest platform submitted_world challenge_context verdict_context 205 pending_thought
      busy_agent the_policy funded
      (moved 6 bond_key 205 funded)
unfolding then
contest = record {
  thought_at = refl;
  agent_at = refl;
  policy_at = refl;
  owner = refl;
  governing = refl;
  pending = refl;
  early = omega arith;
  challenge_at = refl;
  bond_at = refl;
  pays_rent = refl;
  pays_bond = refl;
  same_thought = refl;
  same_policy = refl;
  same_challenge = refl;
  same_challenger = refl;
  same_bond_vault = refl;
  vault_at = refl;
  operator = refl;
  resolver = refl;
  treasury = refl;
}

abbrev disputed : Ledger
disputed =
    after_challenge platform challenge_context 100 inconsistent_commitments 205 99 pending_thought
      (moved 6 bond_key 205 funded) submitted_world.ledger

challenge_slashes_example :
    (s : Ledger) × (open_challenge platform challenge_context 100 inconsistent_commitments 205 99
        submitted_world.ledger
      ≡ ok disputed)
    × (resolve_challenged platform verdict_context true disputed ≡ ok s)
    × (lookup thought_key s.accounts
        ≡ some (thought_record (record pending_thought { status = 3 })))
    × (lookup agent_key s.accounts ≡ some (agent_profile (judge_agent true busy_agent)))
    × ((judge_agent true busy_agent).stake_amount ≡ 0)
    × (s.lamports 6 ≡ funded 6 + 501 * 60 / 100)
unfolding then
challenge_slashes_example =
    challenge_slashes platform platform_laws funds 100 submitted_world Reach-submitted
      challenge_context verdict_context inconsistent_commitments 205 99 pending_thought busy_agent
      the_policy funded (moved 6 bond_key 205 funded) contest (omega arith) (wallet 2)
      (platform-PaysFrom vault_key) (platform-PaysFrom bond_key) (omega arith) (omega arith)
      (omega arith) (omega arith)
