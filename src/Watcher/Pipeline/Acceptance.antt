-- ===== src/Watcher/Pipeline/Acceptance.antt =====
-- From the program's submission through the watcher back to the program's challenge
-- (programs/pot_program/src/instructions, watcher/src/main.rs, watcher/src/challenge.rs).
use proof_of_thought.Prelude.{
  ℕ, ◌+◌, ◌≤◌, ◌<◌, ◌≡◌, ◌≢◌, [], ◌∷◌, ◌++◌, Option, some, Bool, length, arith,
}
use proof_of_thought.Prelude.Dict.{lookup}
use proof_of_thought.Program.Error.{ok}
use proof_of_thought.Program.State.{
  Policy, policy, ThoughtRecord, ThoughtRecordArgs, thought_record, inconsistent_commitments,
}
use proof_of_thought.Program.Runtime.{
  Runtime, RuntimeLaws, Ledger, Lamports, challenge_seeds, IsSigner,
}
use proof_of_thought.Program.Addresses.{address, bond_vault}
use proof_of_thought.Program.Submit.{SubmitContext, submit_thought, new_thought}
use proof_of_thought.Program.Dispute.{ChallengeContext, open_challenge}
use proof_of_thought.Program.Execute.{World, Reach, run, next, execute}
use proof_of_thought.Program.Execute
use proof_of_thought.Program.Invariant.Reachable.{genesis, Reach-trans}
use proof_of_thought.Program.History.Reached.{thought_persists}
use proof_of_thought.Program.Behaviour.Opening.{after_challenge, challenge_pending}
use proof_of_thought.Watcher.Types.{Bytes, TraceBundle}
use proof_of_thought.Watcher.Filer.{Filer, ChallengeArgs, disabled, bond_for, reserve_bond}
use proof_of_thought.Watcher.Subscribe.{parsed}
use proof_of_thought.Watcher.Subscribe.RoundTrip.{IsEncodable}
use proof_of_thought.Watcher.Stream.{parse_anchor_event_line}
use proof_of_thought.Watcher.Stream.Emission.{
  seen, emitted, submitted_thought, logged, parse_anchor_event_line-logged,
}
use proof_of_thought.Watcher.Pipeline.{handle_event}
use proof_of_thought.Watcher.Pipeline.Filing.{handle_event_files_every}

-- The challenge that the watcher files on a thought.
abbrev pub filing : Filer → ℕ → ℕ → ChallengeArgs
filing f thought evidence = record {
  thought_pda = thought;
  claim = inconsistent_commitments;
  bond = bond_for f.bond_strategy 500_000_000;
  evidence_uri_hash = evidence;
}

-- A thought that a chain from genesis took, and a later world in which it is Pending before its
-- deadline.
pub record IsPendingSince (r : Runtime) (ctx : SubmitContext) (args : ThoughtRecordArgs)
    (uri : Bytes) (genesis_world v w : World) (s : Ledger) (t : ThoughtRecord) : Type 0 where
  pub reached : Reach r genesis_world v
  pub signed : IsSigner r ctx.operator
  pub accepted : submit_thought r ctx v.slot args uri v.ledger ≡ ok s
  pub later : Reach r (record v { ledger = s }) w
  pub held : lookup ctx.thought w.ledger.accounts ≡ some (thought_record t)
  pub pending : t.status ≡ 0
  pub early : w.slot < t.challenge_deadline_slot

-- A challenger's context for the thought under its policy, with enough lamports for the account and
-- the bond.
pub record CanChallenge (r : Runtime) (ctx : ChallengeContext) (thought policy_id bond : ℕ)
    (p : Policy) (s : Ledger) (funded paid : Lamports) : Type 0 where
  pub subject : ctx.thought ≡ thought
  pub policy_at : lookup ctx.policy s.accounts ≡ some (policy p)
  pub governing : p.policy_id ≡ policy_id
  pub challenge_at : ctx.challenge ≡ address r (challenge_seeds thought ctx.challenger)
  pub bond_at : ctx.bond_vault ≡ bond_vault r ctx.challenge
  pub pays_rent : r.create_account ctx.challenger ctx.challenge 124 s.lamports ≡ ok funded
  pub pays_bond : r.transfer ctx.challenger ctx.bond_vault bond funded ≡ ok paid

-- A watcher that challenges what it can prove: enabled, with a profit on the placeholder stake, and
-- room under its cap.
pub record CanFile (f : Filer) : Type 0 where
  pub enabled : f.bond_strategy ≢ disabled
  pub pays : bond_for f.bond_strategy 500_000_000 + f.tx_fee_lamports < 60_000_000_000
  pub capped :
      bond_for f.bond_strategy 500_000_000 + f.in_flight_bond ≤ f.max_stake_at_risk_lamports

module _ {V : Type 0} (blake3 : Bytes → ℕ) (submit : ChallengeArgs → Option ℕ)
    (gateway : Bytes → Option (TraceBundle V)) (f : Filer) (r : Runtime) (laws : RuntimeLaws r)
    (l : Lamports) (n : ℕ) (is_utf8 : Bytes → Bool) (discriminator : Bytes)
    (decode_b64 : Bytes → Option Bytes) (trim encode_b64 : Bytes → Bytes) where
  -- Under the platform's laws: if a chain that the program reached from one without its accounts
  -- takes a submission, and on a later chain the thought is Pending before its deadline; if the
  -- event's fields fit their widths and its line is base64 that the watcher reads back; if the URI
  -- of the submission has the hash committed to, the gateway answers it with a trace whose output
  -- does not hash to the commitment, the watcher is enabled, with a profit on its placeholders and
  -- room under its cap, and the submitter returns a signature for its challenge; and if the
  -- policy's least bond is at most the bond of this challenge, and the challenger's context and
  -- lamports are in order; then the submission emitted the thought's event, the watcher decodes the
  -- line logged for it to this event, handling this event returns the signature, and the program
  -- accepts just this challenge: the thought is Challenged.
  pub fraud_is_challenged :
      (ctx : SubmitContext) (args : ThoughtRecordArgs) (uri : Bytes) (v w : World) (s : Ledger)
      (t : ThoughtRecord) (bundle : TraceBundle V) (signature : ℕ) (by : ChallengeContext)
      (p : Policy) (funded paid : Lamports)
      → IsPendingSince r ctx args uri (genesis l n) v w s t
      → length discriminator ≡ 8
      → ((bytes : Bytes) → decode_b64 (trim (encode_b64 bytes)) ≡ some bytes)
      → IsEncodable is_utf8 (seen ctx.thought t uri)
      → blake3 uri ≡ args.trace_uri_hash
      → gateway uri ≡ some bundle
      → blake3 bundle.raw_canonical_output ≢ args.output_commitment
      → CanFile f
      → submit (filing f ctx.thought (blake3 uri)) ≡ some signature
      → p.bond_min ≤ (filing f ctx.thought (blake3 uri)).bond
      → CanChallenge r by ctx.thought args.policy_id
          (filing f ctx.thought (blake3 uri)).bond
          p
          w.ledger
          funded
          paid
      → let filed = filing f ctx.thought (blake3 uri) in
        let event = seen ctx.thought t uri in
        (s.events ≡ v.ledger.events ++ emitted ctx.thought t uri ∷ [])
        × (parse_anchor_event_line is_utf8 discriminator decode_b64 trim
              (logged is_utf8 discriminator decode_b64 trim encode_b64 event)
            ≡ parsed (some event))
        × (handle_event blake3 submit gateway f event
            ≡ (reserve_bond filed.bond f, some (some signature)))
        × (open_challenge r by w.slot filed.claim filed.bond filed.evidence_uri_hash w.ledger
            ≡ ok (
                after_challenge r by w.slot filed.claim filed.bond filed.evidence_uri_hash t paid
                  w.ledger))
  fraud_is_challenged ctx args uri v w s t bundle signature by p funded paid since eight b64 fits
        hash answered differs able sent enough fit =
      let (deadline, found, logs) =
        submitted_thought r v.slot ctx args uri v.ledger s since.accepted in
      let (t', found', frozen, _) =
        thought_persists r laws ctx.thought (record v { ledger = s }) w
          (new_thought r ctx v.slot args deadline) since.later found in
      let same : t' ≡ t = ground (arith, since.held) in
      let chain =
        Reach-trans
          (next since.reached (
            run v (Execute.submit_thought ctx args uri) s since.signed
              (unfold execute in since.accepted)))
          since.later in
      let filed = filing f ctx.thought (blake3 uri) in
      (
        ground (arith, logs),
        parse_anchor_event_line-logged is_utf8 discriminator decode_b64 trim encode_b64
            (seen ctx.thought t uri) eight b64 fits,
        handle_event_files_every blake3 submit gateway f (seen ctx.thought t uri) bundle signature
            (ground arith) answered (ground arith) able.enabled able.pays able.capped sent,
        (challenge_pending r laws l n w chain by filed.claim filed.bond filed.evidence_uri_hash t p
            funded paid (ground (arith, fit.subject, since.held)) fit.policy_at
            (ground (arith, fit.governing)) since.pending since.early enough
            (ground (arith, fit.subject, fit.challenge_at)) fit.bond_at fit.pays_rent
            fit.pays_bond).1,
      )
