-- ===== src/Watcher/Stream/Emission.antt =====
-- From the program's submission to the watcher's event (programs/pot_program/src/instructions/
-- submit_thought.rs, watcher/src/subscribe.rs). Anchor's `emit!` logs the base64 of the discriminator and the
-- event's Borsh form.
use proof_of_thought.Prelude.{ℕ, ◌≡◌, refl, [], ◌∷◌, ◌++◌, Option, some, Bool, length, arith}
use mathlib.Core.List.{append-nil}
use proof_of_thought.Prelude.Word.{checked_add}
use proof_of_thought.Prelude.Dict.{lookup, lookup-insert}
use proof_of_thought.Program.Error.{ok, ok_or, overflow, >>=-eq-ok}
use proof_of_thought.Program.State.{Pubkey, ThoughtRecord, ThoughtRecordArgs, thought_record}
use proof_of_thought.Program.Runtime.{Runtime, Ledger, Event, thought_submitted}
use proof_of_thought.Program.Submit.{
  SubmitContext, submit_accounts, check_submission, submit_thought, new_thought,
}
use proof_of_thought.Watcher.Types.{Bytes, ThoughtSubmittedEvent}
use proof_of_thought.Watcher.Subscribe.{parsed, encode}
use proof_of_thought.Watcher.Subscribe.RoundTrip.{IsEncodable, parse_anchor_event_bytes-encode}
use proof_of_thought.Watcher.Stream.{program_data, parse_anchor_event_line}

-- The program's event of a thought, and the watcher's.
abbrev pub emitted : Pubkey → ThoughtRecord → Bytes → Event
emitted pda t uri =
    thought_submitted t.agent pda t.model_id t.input_commitment t.output_commitment t.trace_uri_hash
      t.vrf_seed t.policy_id t.slot uri

abbrev pub seen : Pubkey → ThoughtRecord → Bytes → ThoughtSubmittedEvent
seen pda t uri = record {
  agent = t.agent;
  thought_pda = pda;
  model_id = t.model_id;
  input_commitment = t.input_commitment;
  output_commitment = t.output_commitment;
  trace_uri_hash = t.trace_uri_hash;
  vrf_seed = t.vrf_seed;
  policy_id = t.policy_id;
  slot = t.slot;
  trace_uri = uri;
}

pub submitted_thought :
    (r : Runtime) (slot : ℕ) (ctx : SubmitContext) (args : ThoughtRecordArgs) (uri : Bytes)
    (s s' : Ledger)
    → submit_thought r ctx slot args uri s ≡ ok s'
    → (deadline : ℕ) × (lookup ctx.thought s'.accounts
        ≡ some (thought_record (new_thought r ctx slot args deadline)))
      × (s'.events
          ≡ s.events ++ emitted ctx.thought (new_thought r ctx slot args deadline) uri ∷ [])
unfolding submit_thought
submitted_thought r slot ctx args uri s s' h =
    let (x, loaded, rest₁) = >>=-eq-ok (submit_accounts r ctx args s) _ h in
    let (_, checked, rest₂) =
      >>=-eq-ok (check_submission x.agent x.policy x.vrf slot args) _ rest₁ in
    let (deadline, sum, rest₃) =
      >>=-eq-ok (ok_or (checked_add 64 slot x.policy.challenge_window_slots) overflow) _ rest₂ in
    (deadline, grind (arith, lookup-insert), ground arith)

module _ (is_utf8 : Bytes → Bool) (discriminator : Bytes) (decode_b64 : Bytes → Option Bytes)
    (trim encode_b64 : Bytes → Bytes) where
  -- The line that `emit!` logs.
  abbrev pub logged : ThoughtSubmittedEvent → Bytes
  logged event = program_data ++ encode_b64 (discriminator ++ encode event)

  pub parse_anchor_event_line-logged :
      (event : ThoughtSubmittedEvent)
      → length discriminator ≡ 8
      → ((bytes : Bytes) → decode_b64 (trim (encode_b64 bytes)) ≡ some bytes)
      → IsEncodable is_utf8 event
      → parse_anchor_event_line is_utf8 discriminator decode_b64 trim (logged event)
        ≡ parsed (some event)
  unfolding parse_anchor_event_line
  parse_anchor_event_line-logged event eight b64 fits =
      let payload = discriminator ++ encode event in
      let alone : discriminator ++ (encode event ++ []) ≡ payload =
        rw (append-nil (encode event)) refl in
      rw (b64 payload, ← alone)
        (parse_anchor_event_bytes-encode is_utf8 discriminator event [] eight fits)

  -- With a discriminator of 8 bytes, and a base64 decoder that takes back what the encoder wrote: if
  -- a submission succeeds whose fields fit their widths and whose URI is text, then the ledger holds
  -- the thought, the event emitted is the thought's, and the watcher decodes the line logged for it
  -- to the event with the thought's address, agent, commitments, seed, policy and slot, and the URI.
  pub submission_is_seen :
      (r : Runtime) (slot : ℕ) (ctx : SubmitContext) (args : ThoughtRecordArgs) (uri : Bytes)
      (s s' : Ledger)
      → length discriminator ≡ 8
      → ((bytes : Bytes) → decode_b64 (trim (encode_b64 bytes)) ≡ some bytes)
      → IsEncodable is_utf8 (seen ctx.thought (new_thought r ctx slot args 0) uri)
      → submit_thought r ctx slot args uri s ≡ ok s'
      → (t : ThoughtRecord) × (lookup ctx.thought s'.accounts ≡ some (thought_record t))
        × (s'.events ≡ s.events ++ emitted ctx.thought t uri ∷ [])
        × (parse_anchor_event_line is_utf8 discriminator decode_b64 trim
              (logged (seen ctx.thought t uri))
            ≡ parsed (some (seen ctx.thought t uri)))
  submission_is_seen r slot ctx args uri s s' eight b64 fits h =
      let (deadline, held, logs) = submitted_thought r slot ctx args uri s s' h in
      (
        new_thought r ctx slot args deadline,
        held,
        logs,
        parse_anchor_event_line-logged (seen ctx.thought (new_thought r ctx slot args deadline) uri)
            eight b64 fits,
      )
