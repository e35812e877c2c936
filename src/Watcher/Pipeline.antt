-- ===== src/Watcher/Pipeline.antt =====
-- From an event to a filing (`handle_event` and `run_pipeline` of watcher/src/main.rs, `verify_uri_hash` and
-- `fetch` of watcher/src/trace_fetch.rs). The gateway's answer with its decoding, the hash and
-- the submitter are parameters; a failed fetch is `none`.
pub mod Filing
pub mod Sequence
pub mod Acceptance
pub mod Profit
use proof_of_thought.Prelude.{ℕ, List, [], ◌∷◌, Option, none, some, Bool, ◌==◌, if◌then◌else◌}
use proof_of_thought.Watcher.Types.{Bytes, ThoughtSubmittedEvent, TraceBundle}
use proof_of_thought.Watcher.Filer.{Filer, ChallengeArgs, decide_and_file}
use proof_of_thought.Watcher.Verify.{byte_compare}

abbrev pub placeholder_agent_stake_lamports : ℕ
placeholder_agent_stake_lamports = 100_000_000_000

abbrev pub placeholder_bond_min : ℕ
placeholder_bond_min = 500_000_000

module _ (blake3 : Bytes → ℕ) where
  -- `verify_uri_hash` passes.
  unfoldable pub verify_uri_hash : Bytes → ℕ → Bool
  verify_uri_hash uri expected = blake3 uri == expected

  -- The fetchers check the URI against its hash before they ask their gateway.
  unfoldable pub fetch :
      {V : Type 0} → (Bytes → Option (TraceBundle V)) → Bytes → ℕ → Option (TraceBundle V)
  unfolding verify_uri_hash
  fetch gateway uri expected = if verify_uri_hash uri expected then gateway uri else none

  module _ {V : Type 0} (submit : ChallengeArgs → Option ℕ) where
    abbrev pub after_fetch :
        Filer → ThoughtSubmittedEvent → Option (TraceBundle V) → Filer × Option (Option ℕ)
    after_fetch f event none = (f, some none)
    after_fetch f event (some bundle) =
        decide_and_file blake3 submit f (byte_compare blake3 event bundle)
          placeholder_agent_stake_lamports event.thought_pda placeholder_bond_min

    -- The filer after the event, and what `decide_and_file` returned (nothing, if it was not called).
    unfoldable pub handle_event :
        (Bytes → Option (TraceBundle V)) → Filer → ThoughtSubmittedEvent → Filer × Option (Option ℕ)
    handle_event gateway f event =
        after_fetch f event (fetch gateway event.trace_uri event.trace_uri_hash)

    -- `run_pipeline`, where each event's task ends before the next event comes: the filer after all
    -- events, and what each task returned.
    unfoldable pub run_pipeline :
        (Bytes → Option (TraceBundle V))
        → List ThoughtSubmittedEvent
        → Filer
        → Filer × List (Option (Option ℕ))
    run_pipeline gateway [] f = (f, [])
    run_pipeline gateway (event ∷ events) f =
        let (after, outcome) = handle_event gateway f event in
        let (last, outcomes) = run_pipeline gateway events after in (last, outcome ∷ outcomes)
