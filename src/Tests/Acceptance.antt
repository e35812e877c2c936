-- ===== src/Tests/Acceptance.antt =====
-- A fraudulent submission on the test platform, seen by a watcher and challenged.
use proof_of_thought.Prelude.{
  ◌+◌, ◌<◌, ◌≡◌, refl, ℕ, Bool, true, Option, some, [], ◌∷◌, ◌++◌, arith,
}
use proof_of_thought.Program.Error.{ok}
use proof_of_thought.Program.State.{inconsistent_commitments}
use proof_of_thought.Program.Runtime.{Ledger, Lamports, moved}
use proof_of_thought.Program.Dispute.{open_challenge}
use proof_of_thought.Program.Resolve.{resolve_challenged}
use proof_of_thought.Program.Behaviour.Slashing.{IsContest}
use proof_of_thought.Watcher.Pipeline.Profit.{filing_earns}
use proof_of_thought.Program.Execute.{World, outside, here, next}
use proof_of_thought.Program.Invariant.Reachable.{genesis}
use proof_of_thought.Program.Behaviour.Opening.{after_challenge}
use proof_of_thought.Watcher.Types.{Bytes, TraceBundle, mismatch}
use proof_of_thought.Watcher.Filer.{
  Filer, ChallengeArgs, conservative, new, reserve_bond, file, decide,
}
use proof_of_thought.Watcher.Subscribe.{parsed}
use proof_of_thought.Watcher.Subscribe.RoundTrip.{IsEncodable}
use proof_of_thought.Watcher.Stream.{parse_anchor_event_line}
use proof_of_thought.Watcher.Stream.Emission.{seen, emitted, logged}
use proof_of_thought.Watcher.Pipeline.{handle_event}
use proof_of_thought.Watcher.Pipeline.Acceptance.{
  IsPendingSince, CanChallenge, CanFile, fraud_is_challenged,
}
use proof_of_thought.Tests.Platform.{platform, platform_laws, wallet, platform-PaysFrom}
use proof_of_thought.Tests.Scenario.{
  then, funds, vault_key, busy_agent, verdict_context, Reach-submitted, thought_key, challenge_key,
  bond_key, pending_thought, the_policy, thought_args, requested_world, submitted_world,
  submit_context, challenge_context, Reach-requested,
}

abbrev uri : Bytes
uri = 97 ∷ 98 ∷ []

-- Everybody has a SOL more than before.
abbrev rich : Lamports
rich k = submitted_world.ledger.lamports k + 1_000_000_000

abbrev rich_world : World
rich_world = record submitted_world { ledger = record (submitted_world.ledger) { lamports = rich } }

abbrev funded : Lamports
funded = moved 6 challenge_key 124 rich

-- A hash that no trace's output meets, since the thought commits to 22.
abbrev hash : Bytes → ℕ
hash bytes = 23

abbrev forged : Bytes → Option (TraceBundle ℕ)
forged at = some (record {
  raw_canonical_output = 1 ∷ [];
  raw_canonical_input = [];
  attestation = Option.none;
  manifest = 0;
})

abbrev signed : ChallengeArgs → Option ℕ
signed args = some 7

abbrev watcher : Filer
watcher = new conservative 10_000_000_000

abbrev tag : Bytes
tag = 1 ∷ 2 ∷ 3 ∷ 4 ∷ 5 ∷ 6 ∷ 7 ∷ 8 ∷ []

abbrev any_text : Bytes → Bool
any_text s = true

abbrev encode_b64 : Bytes → Bytes
encode_b64 s = s

abbrev decode_b64 : Bytes → Option Bytes
decode_b64 s = some s

fits : IsEncodable any_text (seen thought_key pending_thought uri)
fits = record {
  agent_fits = omega arith;
  thought_pda_fits = omega arith;
  model_id_fits = omega arith;
  input_commitment_fits = omega arith;
  output_commitment_fits = omega arith;
  trace_uri_hash_fits = omega arith;
  vrf_seed_fits = omega arith;
  policy_id_fits = omega arith;
  slot_fits = omega arith;
  trace_uri_fits = omega arith;
  trace_uri_text = refl;
}

since :
    IsPendingSince platform submit_context thought_args uri
      (genesis funds 100)
      requested_world
      rich_world
      submitted_world.ledger
      pending_thought
unfolding then
since = record {
  reached = Reach-requested;
  signed = wallet 1;
  accepted = refl;
  later = next here (outside submitted_world rich (λ j. omega arith));
  held = refl;
  pending = refl;
  early = omega arith;
}

can_challenge :
    CanChallenge platform challenge_context thought_key 8 500_000_000 the_policy rich_world.ledger
      funded
      (moved 6 bond_key 500_000_000 funded)
unfolding then
can_challenge = record {
  subject = refl;
  policy_at = refl;
  governing = refl;
  challenge_at = refl;
  bond_at = refl;
  pays_rent = refl;
  pays_bond = refl;
}

can_file : CanFile watcher
unfolding new
can_file = record { enabled = ground arith; pays = omega arith; capped = omega arith }

fraud_is_challenged_example :
    let event = seen thought_key pending_thought uri in
    (submitted_world.ledger.events
      ≡ requested_world.ledger.events ++ emitted thought_key pending_thought uri ∷ [])
    × (parse_anchor_event_line any_text tag decode_b64 encode_b64
          (logged any_text tag decode_b64 encode_b64 encode_b64 event)
        ≡ parsed (some event))
    × (handle_event hash signed forged watcher event
        ≡ (reserve_bond 500_000_000 watcher, some (some 7)))
    × (open_challenge platform challenge_context 100 inconsistent_commitments 500_000_000 23
          rich_world.ledger
        ≡ ok (
            after_challenge platform challenge_context 100 inconsistent_commitments 500_000_000 23
              pending_thought
              (moved 6 bond_key 500_000_000 funded)
              rich_world.ledger))
unfolding new then
fraud_is_challenged_example =
    fraud_is_challenged hash signed forged watcher platform platform_laws funds 100 any_text tag
      decode_b64 encode_b64 encode_b64 submit_context thought_args uri requested_world rich_world
      submitted_world.ledger pending_thought
      (record {
        raw_canonical_output = 1 ∷ [];
        raw_canonical_input = [];
        attestation = Option.none;
        manifest = 0;
      })
      7 challenge_context the_policy funded (moved 6 bond_key 500_000_000 funded) since refl
      (λ bytes. refl) fits refl refl (omega arith) can_file refl (omega arith) can_challenge

-- A watcher with a fee of 5 lamports, on the agent's stake of 501 and the policy's bond of 100.
abbrev small_watcher : Filer
small_watcher = record (new conservative 1000) { tx_fee_lamports = 5 }

abbrev small_filing : ChallengeArgs
small_filing = record {
  thought_pda = thought_key;
  claim = inconsistent_commitments;
  bond = 100;
  evidence_uri_hash = 23;
}

abbrev rented : Lamports
rented = moved 6 challenge_key 124 submitted_world.ledger.lamports

contest :
    IsContest platform submitted_world challenge_context verdict_context 100 pending_thought
      busy_agent the_policy rented
      (moved 6 bond_key 100 rented)
unfolding then
contest = record {
  thought_at = refl;
  agent_at = refl;
  policy_at = refl;
  owner = refl;
  governing = refl;
  pending = refl;
  early = omega arith;
  challenge_at = refl;
  bond_at = refl;
  pays_rent = refl;
  pays_bond = refl;
  same_thought = refl;
  same_policy = refl;
  same_challenge = refl;
  same_challenger = refl;
  same_bond_vault = refl;
  vault_at = refl;
  operator = refl;
  resolver = refl;
  treasury = refl;
}

decides :
    decide hash small_watcher (mismatch inconsistent_commitments uri) 501 thought_key 100
    ≡ file small_filing
unfolding decide new
decides = refl

filing_earns_example :
    (s s' : Ledger) × (open_challenge platform challenge_context 100 inconsistent_commitments 100 23
        submitted_world.ledger
      ≡ ok s)
    × (resolve_challenged platform verdict_context true s ≡ ok s')
    × (rented 6 + 100 + 5 < s'.lamports 6)
unfolding then
filing_earns_example =
    filing_earns platform platform_laws funds 100 submitted_world Reach-submitted hash small_watcher
      (mismatch inconsistent_commitments uri) small_filing challenge_context verdict_context
      pending_thought busy_agent the_policy rented (moved 6 bond_key 100 rented)
      (unfold new in omega arith) (omega arith) (omega arith) decides contest (wallet 2)
      (platform-PaysFrom vault_key) (platform-PaysFrom bond_key) (omega arith) (omega arith)
      (omega arith)
