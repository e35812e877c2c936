-- ===== src/Tests/Filing.antt =====
-- The theorems on the watcher's filer, applied at the values of the source's own tests.
use proof_of_thought.Prelude.{
  ℕ, ◌+◌, ◌*◌, ◌<◌, ◌≤◌, ◌≡◌, ◌↔◌, length, take, drop, refl, [], ◌∷◌, arith,
}
use proof_of_thought.Program.State.{ChallengeClaim, output_mismatch}
use proof_of_thought.Watcher.Types.{Bytes, from_le, VerifyOutcome, mismatch}
use proof_of_thought.Watcher.Filer.{Filer, ChallengeArgs, file, conservative, new, decide, ix_data}
use proof_of_thought.Watcher.Filer.Decision.{IsSound, decide_files_exact}
use proof_of_thought.Watcher.Filer.Race.{Tasks, Run, here, next, decides, two_tasks_exceed_cap}
use proof_of_thought.Watcher.Filer.Concurrency.{sum, tasks_bounded}
use proof_of_thought.Watcher.Filer.Instruction.{ix_data_layout}

-- A stand-in for the hash: the number of which the text is the little-endian form.
abbrev hash : Bytes → ℕ
hash uri = from_le uri

abbrev fraud : VerifyOutcome
fraud = mismatch output_mismatch (97 ∷ 114 ∷ [])

-- 10 SOL at risk.
abbrev careful : Filer
careful = new conservative 10_000_000_000

-- A bond of 0.5 SOL on a stake of 10 SOL.
abbrev filing : ChallengeArgs
filing = record {
  thought_pda = 7;
  claim = output_mismatch;
  bond = 500_000_000;
  evidence_uri_hash = 97 + 256 * 114;
}

-- Bonds of 6 SOL, under a cap of 10 SOL.
abbrev large_filing : ChallengeArgs
large_filing = record filing { bond = 6_000_000_000 }

decides_to_file : decide hash careful fraud 10_000_000_000 7 500_000_000 ≡ file filing
unfolding decide new from_le
decides_to_file = refl

decides_to_file_large :
    decide hash careful fraud 100_000_000_000 7 6_000_000_000 ≡ file large_filing
unfolding decide new from_le
decides_to_file_large = refl

decide_files_exact_example :
    (decide hash careful fraud 10_000_000_000 7 500_000_000 ≡ file filing) ↔ (
      (claim : ChallengeClaim) × (uri : Bytes) × (fraud ≡ mismatch claim uri)
      × IsSound hash careful claim uri 10_000_000_000 7 500_000_000 filing)
decide_files_exact_example =
    decide_files_exact hash careful 10_000_000_000 7 500_000_000 fraud filing (omega arith)
      (unfold new in omega arith)

-- Two tasks decide before the first submission returns.
abbrev two_awaited : Tasks
two_awaited = record { filer = careful; awaiting = 6_000_000_000 ∷ 6_000_000_000 ∷ [] }

two_moves : Run hash (record { filer = careful; awaiting = [] }) two_awaited
two_moves =
    next
      (next here (
        decides (record { filer = careful; awaiting = [] }) fraud 100_000_000_000 7 6_000_000_000
          large_filing decides_to_file_large))
      (decides (record { filer = careful; awaiting = 6_000_000_000 ∷ [] }) fraud 100_000_000_000 7
        6_000_000_000 large_filing decides_to_file_large)

tasks_bounded_example :
    careful.in_flight_bond + sum (6_000_000_000 ∷ 6_000_000_000 ∷ [])
    ≤ careful.max_stake_at_risk_lamports + 1 * 6_000_000_000
tasks_bounded_example =
    tasks_bounded hash careful 1 6_000_000_000 two_awaited two_moves (unfold new in omega arith)
      (unfold new in omega arith) (unfold new in omega arith) (unfold two_moves in omega arith)

ix_data_layout_example :
    let bytes = ix_data (1 ∷ 2 ∷ 3 ∷ 4 ∷ 5 ∷ 6 ∷ 7 ∷ 8 ∷ []) filing in
    (length bytes ≡ 49)
    × (take 8 bytes ≡ 1 ∷ 2 ∷ 3 ∷ 4 ∷ 5 ∷ 6 ∷ 7 ∷ 8 ∷ [])
    × (take 1 (drop 8 bytes) ≡ 1 ∷ [])
    × (from_le (take 8 (drop 9 bytes)) ≡ 500_000_000)
    × (from_le (drop 17 bytes) ≡ 97 + 256 * 114)
ix_data_layout_example =
    ix_data_layout (1 ∷ 2 ∷ 3 ∷ 4 ∷ 5 ∷ 6 ∷ 7 ∷ 8 ∷ []) filing refl (omega arith) (omega arith)

two_tasks_exceed_cap_example :
    (w : Tasks) × Run hash (record { filer = careful; awaiting = [] }) w
    × (w.awaiting ≡ [])
    × (10_000_000_000 < w.filer.in_flight_bond)
unfolding new
two_tasks_exceed_cap_example =
    two_tasks_exceed_cap hash careful fraud fraud 100_000_000_000 100_000_000_000 7 7 6_000_000_000
      6_000_000_000 large_filing large_filing decides_to_file_large decides_to_file_large
      (omega arith) (omega arith)
