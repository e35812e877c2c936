-- ===== src/Watcher/Filer/Concurrency.antt =====
-- How far tasks that run at the same time can take the bonds in flight (watcher/src/challenge.rs,
-- watcher/src/main.rs).
use proof_of_thought.Prelude.{
  ℕ, zero, suc, ◌+◌, ◌*◌, ◌-◌, ◌^◌, ◌≤◌, ◌<◌, ◌≡◌, List, [], ◌∷◌, ◌++◌, length, arith, ap, refl,
}
use proof_of_thought.Watcher.Types.{Bytes, VerifyOutcome, matched, mismatch, inconclusive}
use proof_of_thought.Watcher.Filer.{Filer, ChallengeArgs, file, decide, reserve_bond}
use proof_of_thought.Watcher.Filer.Race.{Tasks, Move, decides, submitted, failed, Run, here, next}

abbrev pub sum : List ℕ → ℕ
sum [] = 0
sum (x ∷ xs) = x + sum xs

abbrev pub AllAtMost : ℕ → List ℕ → Type 0
AllAtMost b [] = Unit
AllAtMost b (x ∷ xs) = (x ≤ b) × AllAtMost b xs

-- At most `n` submissions are awaited after every move of the run, each with a bond of at most `b`.
abbrev pub IsWithin : {blake3 : Bytes → ℕ} {v w : Tasks} → ℕ → ℕ → Run blake3 v w → Type 0
IsWithin n b here = Unit
IsWithin n b (next {u} {v} rs move) =
    IsWithin n b rs × (length v.awaiting ≤ n) × AllAtMost b v.awaiting

sum-append : (xs ys : List ℕ) → sum (xs ++ ys) ≡ sum xs + sum ys
sum-append [] ys = omega arith
sum-append (x ∷ xs) ys = omega (arith, sum-append xs ys)

sum-le-mul : (n b : ℕ) (xs : List ℕ) → length xs ≤ n → AllAtMost b xs → sum xs ≤ n * b
sum-le-mul n b [] h all = omega arith
sum-le-mul zero b (x ∷ xs) h all = absurd (omega arith)
sum-le-mul (suc n) b (x ∷ xs) h (fits, all) = grind (arith, sum-le-mul n b xs (omega arith) all)

module _ (blake3 : Bytes → ℕ) where
  decide_capped :
      (f : Filer) (outcome : VerifyOutcome) (stake pda bond_min : ℕ) (args : ChallengeArgs)
      → f.max_stake_at_risk_lamports < 2 ^ 64 - 1
      → decide blake3 f outcome stake pda bond_min ≡ file args
      → args.bond + f.in_flight_bond ≤ f.max_stake_at_risk_lamports
  unfolding decide
  decide_capped f (mismatch claim uri) stake pda bond_min args small e = ground arith
  decide_capped f matched stake pda bond_min args small e = absurd (ground arith)
  decide_capped f (inconclusive reason) stake pda bond_min args small e = absurd (ground arith)

  -- The cap is kept, and the bonds in flight with those awaited are at most `most`.
  abbrev Bounded : ℕ → ℕ → Tasks → Type 0
  Bounded cap most w =
      (w.filer.max_stake_at_risk_lamports ≡ cap) × (w.filer.in_flight_bond + sum w.awaiting ≤ most)

  Move-Bounded :
      (cap k b : ℕ) (v w : Tasks)
      → cap < 2 ^ 64 - 1
      → cap + k * b < 2 ^ 64
      → Move blake3 v w
      → length w.awaiting ≤ suc k
      → AllAtMost b w.awaiting
      → Bounded cap (cap + k * b) v
      → Bounded cap (cap + k * b) w
  unfolding reserve_bond
  Move-Bounded cap k b v w small fits (decides w₀ outcome stake pda bond_min args e) few low
        (same, h) =
      (
        same,
        omega (
          arith,
          decide_capped v.filer outcome stake pda bond_min args (omega arith) e,
          sum-le-mul k b v.awaiting (omega arith) low.1,
        ),
      )
  Move-Bounded cap k b v w small fits (submitted w₀ before after bond e) few low (same, h) =
      (same, omega (arith, ap sum e, sum-append before (bond ∷ after), sum-append before after))
  Move-Bounded cap k b v w small fits (failed w₀ before after bond e) few low (same, h) =
      (same, omega (arith, ap sum e, sum-append before (bond ∷ after), sum-append before after))

  run-Bounded :
      (cap k b : ℕ) {v w : Tasks} (run : Run blake3 v w)
      → cap < 2 ^ 64 - 1
      → cap + k * b < 2 ^ 64
      → IsWithin (suc k) b run
      → Bounded cap (cap + k * b) v
      → Bounded cap (cap + k * b) w
  run-Bounded cap k b here small fits within h = h
  run-Bounded cap k b (next {u} {v} rs move) small fits (within, few, low) h =
      Move-Bounded cap k b u v small fits move few low (run-Bounded cap k b rs small fits within h)

  -- If at most k + 1 submissions are awaited at a time, each with a bond of at most b, then a filer
  -- that starts with its bonds in flight at most the cap has at most the cap and k times b in
  -- flight, submissions that are awaited included, after any moves; where the cap is below
  -- 2 ^ 64 - 1 and this sum below 2 ^ 64.
  pub tasks_bounded :
      (f : Filer) (k b : ℕ) (w : Tasks) (run : Run blake3 (record { filer = f; awaiting = [] }) w)
      → f.max_stake_at_risk_lamports < 2 ^ 64 - 1
      → f.max_stake_at_risk_lamports + k * b < 2 ^ 64
      → f.in_flight_bond ≤ f.max_stake_at_risk_lamports
      → IsWithin (suc k) b run
      → w.filer.in_flight_bond + sum w.awaiting ≤ f.max_stake_at_risk_lamports + k * b
  tasks_bounded f k b w run small fits start within =
      (run-Bounded f.max_stake_at_risk_lamports k b run small fits within (refl, omega arith)).1
