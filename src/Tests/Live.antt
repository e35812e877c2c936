-- ===== src/Tests/Live.antt =====
-- The theorems on the live stream and on the watcher's start, applied at concrete values.
use proof_of_thought.Prelude.{
  arith, ℕ, ◌*◌, ◌^◌, ◌<◌, ◌≡◌, refl, min, List, [], ◌∷◌, ◌++◌, Option, none, some, Bool, true,
  false, length, ltb,
}
use proof_of_thought.Watcher.Types.{Bytes, ThoughtSubmittedEvent, TraceBundle}
use proof_of_thought.Watcher.Subscribe.{encode}
use proof_of_thought.Watcher.Stream.{
  Connection, refused, responses, Running, run, program_data, bound_ms, jittered_backoff,
}
use proof_of_thought.Watcher.Stream.Forwarding.{
  events_in, lines_of, run-events_in, run_goes_on_when_closed,
}
use proof_of_thought.Watcher.Stream.Backoff.{jittered_backoff_bounded}
use proof_of_thought.Watcher.Stream.Emission
use proof_of_thought.Watcher.Stream.Emission.{emitted, logged, submission_is_seen}
use proof_of_thought.Watcher.Subscribe.RoundTrip.{IsEncodable}
use proof_of_thought.Watcher.Subscribe.{parsed}
use proof_of_thought.Watcher.Stream.{parse_anchor_event_line}
use proof_of_thought.Prelude.Dict.{lookup}
use proof_of_thought.Program.Error.{ok}
use proof_of_thought.Program.State.{ThoughtRecord, thought_record}
use proof_of_thought.Program.Submit.{submit_thought}
use proof_of_thought.Tests.Platform.{platform}
use proof_of_thought.Tests.Scenario.{
  then, thought_key, thought_args, submit_context, requested_world, submitted_world,
  pending_thought,
}
use proof_of_thought.Watcher.Filer.{ChallengeArgs, disabled, new}
use proof_of_thought.Watcher.Pipeline.{handle_event}
use proof_of_thought.Watcher.Startup.{Cli, started, Watching, start, new_config, validate, arweave}
use proof_of_thought.Watcher.Startup.Observer.{start_without_dry_run_files_nothing}

abbrev seen : ThoughtSubmittedEvent
seen = record {
  agent = 11;
  thought_pda = 12;
  model_id = 13;
  input_commitment = 14;
  output_commitment = 15;
  trace_uri_hash = 16;
  vrf_seed = 17;
  policy_id = 18;
  slot = 1234;
  trace_uri = 97 ∷ 114 ∷ [];
}

abbrev tag : Bytes
tag = 1 ∷ 2 ∷ 3 ∷ 4 ∷ 5 ∷ 6 ∷ 7 ∷ 8 ∷ []

abbrev is_text : Bytes → Bool
is_text s = true

-- Stand-ins: bytes that code for themselves, and nothing to trim.
abbrev decode_b64 : Bytes → Option Bytes
decode_b64 s = some s

abbrev trim : Bytes → Bytes
trim s = s

-- A line with the event, and another line.
abbrev line : Bytes
line = program_data ++ (tag ++ encode seen)

abbrev noise : Bytes
noise = 80 ∷ []

abbrev connections : List (Connection × ℕ)
connections =
    (responses ((noise ∷ line ∷ []) ∷ []), 0)
    ∷ (refused, 7)
    ∷ (responses ((line ∷ []) ∷ (noise ∷ []) ∷ []), 0)
    ∷ []

abbrev fresh : Running
fresh = record { made = 0; attempt = 0; taken = []; delays = [] }

abbrev always : List ThoughtSubmittedEvent → Bool
always taken = true

run-events_in_example :
    (run is_text tag decode_b64 trim always connections fresh).taken
    ≡ [] ++ events_in is_text tag decode_b64 trim (lines_of connections)
run-events_in_example =
    run-events_in is_text tag decode_b64 trim always (λ taken. refl) connections fresh

-- A receiver that leaves after one event.
abbrev once : List ThoughtSubmittedEvent → Bool
once taken = ltb (length taken) 1

abbrev full : Running
full = record { made = 0; attempt = 0; taken = seen ∷ []; delays = 5 ∷ [] }

run_goes_on_when_closed_example :
    run is_text tag decode_b64 trim once
      ((responses ((line ∷ []) ∷ []), 0) ∷ (responses [], 0) ∷ [])
      full
    ≡ record full { made = 2 }
run_goes_on_when_closed_example =
    run_goes_on_when_closed is_text tag decode_b64 trim once (seen ∷ []) refl
      ((responses ((line ∷ []) ∷ []), 0) ∷ (responses [], 0) ∷ []) full tt refl refl

a_bounded_delay :
    (bound_ms 9 ≡ min (1_000 * 2 ^ 9) 60_000)
    × (jittered_backoff 123_456_789 9 < min (1_000 * 2 ^ 9) 60_000)
a_bounded_delay = jittered_backoff_bounded 123_456_789 9

-- An observer's command line, its stake a whole number of SOL.
abbrev observer : Cli ℕ
observer = record {
  rpc = 104 ∷ [];
  ws = 119 ∷ [];
  policies = (112 ∷ []) ∷ [];
  models = [];
  max_stake_at_risk = 5;
  bond_strategy = disabled;
  storage = arweave;
  keypair = [];
  program_id = 80 ∷ [];
  channel_capacity = 256;
  dry_run = false;
}

abbrev lamports : ℕ → ℕ
lamports sol = sol * 1_000_000_000

abbrev watching : Watching
watching = record { filer = new disabled 5_000_000_000; storage = arweave }

observer_starts : start lamports is_text observer ≡ started watching
unfolding start new_config validate new
observer_starts = refl

abbrev hash : Bytes → ℕ
hash s = 16

abbrev bundle : TraceBundle ℕ
bundle = record {
  raw_canonical_output = 3 ∷ [];
  raw_canonical_input = 1 ∷ [];
  attestation = none;
  manifest = 0;
}

abbrev answer : Bytes → Option (TraceBundle ℕ)
answer uri = some bundle

abbrev signed : ChallengeArgs → Option ℕ
signed args = some 7

start_without_dry_run_files_nothing_example :
    handle_event hash signed answer watching.filer seen ≡ (watching.filer, some none)
start_without_dry_run_files_nothing_example =
    start_without_dry_run_files_nothing lamports is_text observer hash signed watching answer seen
      refl observer_starts

abbrev encode_b64 : Bytes → Bytes
encode_b64 s = s

submission_fits : IsEncodable is_text (Emission.seen thought_key pending_thought (97 ∷ 98 ∷ []))
submission_fits = record {
  agent_fits = omega arith;
  thought_pda_fits = omega arith;
  model_id_fits = omega arith;
  input_commitment_fits = omega arith;
  output_commitment_fits = omega arith;
  trace_uri_hash_fits = omega arith;
  vrf_seed_fits = omega arith;
  policy_id_fits = omega arith;
  slot_fits = omega arith;
  trace_uri_fits = omega arith;
  trace_uri_text = refl;
}

it_submits :
    submit_thought platform submit_context 100 thought_args (97 ∷ 98 ∷ []) requested_world.ledger
    ≡ ok submitted_world.ledger
unfolding then
it_submits = refl

it_is_seen :
    (t : ThoughtRecord) × (lookup thought_key submitted_world.ledger.accounts
      ≡ some (thought_record t))
    × (submitted_world.ledger.events
        ≡ requested_world.ledger.events ++ emitted thought_key t (97 ∷ 98 ∷ []) ∷ [])
    × (parse_anchor_event_line is_text tag decode_b64 trim (
          logged is_text tag decode_b64 trim encode_b64
            (Emission.seen thought_key t (97 ∷ 98 ∷ [])))
        ≡ parsed (some (Emission.seen thought_key t (97 ∷ 98 ∷ []))))
it_is_seen =
    submission_is_seen is_text tag decode_b64 trim encode_b64 platform 100 submit_context
      thought_args (97 ∷ 98 ∷ []) requested_world.ledger submitted_world.ledger refl (λ bytes. refl)
      submission_fits it_submits
