-- ===== src/Lib.antt =====
-- Proof of Thought: a Solana program that makes an agent's inference disputable, and the watcher
-- that disputes it. An agent locks stake, requests randomness, and commits to a thought (the input,
-- the output, the trace and the action it authorises) under a policy. Within the policy's window
-- anybody can challenge the thought with a bond; the policy's resolver gives the verdict, which
-- slashes the stake or pays the bond to the agent. A thought that goes unchallenged is finalized,
-- and a downstream program consumes it. The watcher reads the submissions from the logs, verifies
-- the trace, and files a challenge when the expected payout is above its cost.
--
-- Files, with the source each models:
--   Prelude         numbers, lists, Booleans; Prelude/Word the machine-width arithmetic of Rust,
--                   Prelude/Int its i64, Prelude/Dict association lists and totals over them.
--   Program         programs/pot_program/src
--     Error         errors.rs (PotError and its codes) and the result type of a handler.
--     State         state/*.rs: accounts, enums, codes.
--     Runtime       what the program takes from Solana and Anchor: the record `Runtime` of address
--                   derivation, transfer, account creation and the governance key, the laws that
--                   the platform documents for them (`RuntimeLaws`), the ledger, the events, and
--                   the constraints of #[derive(Accounts)] as checks.
--     Addresses     the derived addresses and vaults.
--     Agent         instructions/register_agent.rs, instructions/stake.rs
--     Registry      instructions/register_model.rs, instructions/register_policy.rs
--     Vrf           instructions/request_vrf.rs
--     Submit        instructions/submit_thought.rs
--     Dispute       instructions/challenge.rs
--     Resolve       instructions/resolve.rs
--     Consume       instructions/consume_thought.rs
--     Execute       lib.rs: the instructions and their dispatch, and chains (`Reach`) of successful
--                   instructions, passing slots, and lamports that move outside the program.
--     Effect        the abstract specification: twelve effects on the ledger.
--     Refine        each handler against the specification.
--     Invariant     invariants of the effects, carried over to every reachable chain.
--     History       what relates a chain to every later one; Lifecycle on the changes of status.
--     Behaviour     single handlers on reachable chains: Admission, Opening and Judgement on a
--                   thought and its dispute, Slashing on a whole one, Consumption, Withdrawal,
--                   Finalization, Verdict, Burn.
--   Watcher         watcher/src
--     Types         types.rs, verify/mod.rs, trace_fetch.rs: the values between the stages.
--     Filer         challenge.rs, and the strategies of config.rs; Filer/Decision on the decision,
--                   Filer/Race and Filer/Concurrency on tasks that interleave at the awaited
--                   submission, Filer/Instruction on the instruction's bytes.
--     Sha256        types.rs: the SHA-256 that is evaluated at compile time, and the discriminators;
--                   Standard is FIPS 180-4 with constants of its own, Schedule, Padding and
--                   Equivalence relate the two.
--     Subscribe     subscribe.rs: the decoder of event payloads; RoundTrip, Fields and
--                   Exact on it.
--     Stream        subscribe.rs: the log line, the pump of a connection, the reconnect loop and its
--                   backoff; Forwarding and Backoff on them, Emission on the lines that the program
--                   logs.
--     Fetch         trace_fetch.rs: the manifest's decoder, with Manifest on it; Fetch/Gateway the
--                   fetchers, with Address on the URLs they ask, Exact on what they return and
--                   Filing on what follows from it.
--     Verify        verify/strict.rs, verify/attested.rs; Accusation and Attestation on what
--                   they report.
--     Soft          verify/soft.rs: the structural comparison, the committee, the membership test;
--                   Decision and Accusation on the first two, Trees and Merkle on the last.
--     Pipeline      main.rs: `handle_event`, which composes the stages, and `run_pipeline`; Filing on
--                   what they file, Sequence on a run over many events, Acceptance on the way from
--                   a submission to the challenge that the program accepts, Profit on what a
--                   filing earns.
--     Startup       config.rs, and the guards of `main`; Observer on what a watcher may do.
--   Tests           a platform that satisfies the laws, scenarios, and the theorems applied to them.
--
-- Modelling. A handler takes its context (the addresses of the accounts given), the slot and the
-- ledger, and returns the next ledger or the first error; a failed instruction leaves the ledger
-- as it was, as on the chain. Before the handler's body come the accounts in Anchor's order: all of
-- them are loaded, then a new one is made, then the other constraints are checked. Public keys and 32-byte hashes are numbers. A
-- u64 is a natural number: its checked, saturating and truncating operations are written out with
-- the width, and where a theorem needs that a stored value fits, it is a hypothesis. An i64 is a
-- sign and a number. There is fuel in one place: the loop over the blocks of the constant SHA-256
-- has 3, and there are at most 2 blocks. The reconnect loop, which has no end, is run over a list
-- of connections, and its state counts those it has made.
--
-- Parameters. The fields of `Runtime`; the BLAKE3 hash; the filer's submitter; the strict
-- verifier's inference engine; the UTF-8 check and the event's discriminator of the decoder; what
-- is used of CBOR values (the record `Ciborium`); what the HTTP client answers to a URL; the
-- base64 decoder and encoder, `trim`, what each websocket connection brings, and whether the
-- channel's receiver is there; the conversion of an f64 to lamports and the parser of public
-- keys.
--
-- Not modelled: rent and compute limits beyond the lamports that `create_account` moves; the
-- serialization of accounts; the serde forms of the watcher's types, and those of types.rs that
-- nothing reads (ThoughtStatus, ThoughtRecord, EquivClass, Policy); the command line's parser,
-- the logging and the tasks of the watcher beyond
-- their interleaving at the submission; a committee and an AnyOfN
-- verifier beyond their stubs; the TypeScript SDK, the demo and the migrations; the handler of
-- instructions/slash.rs, which is empty and not dispatched.
pub mod Prelude
pub mod Program
pub mod Watcher
mod Tests
