-- ===== src/Watcher/Filer/Race.antt =====
-- `decide_and_file` reads the counter before it awaits the submission, and adds to it afterwards.
-- The tasks that the pipeline spawns interleave at the await
-- (watcher/src/challenge.rs, watcher/src/main.rs).
use proof_of_thought.Prelude.{
  ℕ, ◌+◌, ◌-◌, ◌^◌, ◌≤◌, ◌<◌, ◌≡◌, refl, List, [], ◌∷◌, ◌++◌, Option, arith,
}
use proof_of_thought.Watcher.Types.{Bytes, VerifyOutcome}
use proof_of_thought.Watcher.Filer.{
  Filer, ChallengeArgs, file, decide, reserve_bond, decide_and_file,
}

-- The filer, and the bonds of the tasks that have decided to file and await the submission.
pub record Tasks : Type 0 where
  pub filer : Filer
  pub awaiting : List ℕ

pub data Move (blake3 : Bytes → ℕ) : Tasks → Tasks → Type 0 where
  decides :
      (w : Tasks) (outcome : VerifyOutcome) (stake pda bond_min : ℕ) (args : ChallengeArgs)
      → decide blake3 w.filer outcome stake pda bond_min ≡ file args
      → Move blake3 w (record w { awaiting = args.bond ∷ w.awaiting })
  submitted :
      (w : Tasks) (before after : List ℕ) (bond : ℕ)
      → w.awaiting ≡ before ++ bond ∷ after
      → Move blake3 w (record w { filer = reserve_bond bond w.filer; awaiting = before ++ after })
  failed :
      (w : Tasks) (before after : List ℕ) (bond : ℕ)
      → w.awaiting ≡ before ++ bond ∷ after
      → Move blake3 w (record w { awaiting = before ++ after })

pub data Run (blake3 : Bytes → ℕ) (w : Tasks) : Tasks → Type 0 where
  here : Run blake3 w w
  next : {u v : Tasks} → Run blake3 w u → Move blake3 u v → Run blake3 w v

module _ (blake3 : Bytes → ℕ) where
  -- With a cap below 2 ^ 64 - 1 and the bonds in flight at most the cap, a run of `decide_and_file`
  -- that no other interrupts leaves the bonds in flight at most the cap, whatever the submitter
  -- returns.
  pub decide_and_file_capped :
      (submit : ChallengeArgs → Option ℕ) (f : Filer) (outcome : VerifyOutcome)
      (stake pda bond_min : ℕ)
      → f.max_stake_at_risk_lamports < 2 ^ 64 - 1
      → f.in_flight_bond ≤ f.max_stake_at_risk_lamports
      → (decide_and_file blake3 submit f outcome stake pda bond_min).0.in_flight_bond
        ≤ f.max_stake_at_risk_lamports
  unfolding decide_and_file
  decide_and_file_capped submit f outcome stake pda bond_min small capped = ground arith

  -- If the decisions on two outcomes are to file, and the bonds in flight with the two bonds to file
  -- are above the cap but below 2 ^ 64, then two tasks that take these decisions before either
  -- submission returns, with submissions that both succeed, end with the bonds in flight above the
  -- cap.
  pub two_tasks_exceed_cap :
      (f : Filer) (o₁ o₂ : VerifyOutcome) (stake₁ stake₂ pda₁ pda₂ min₁ min₂ : ℕ)
      (args₁ args₂ : ChallengeArgs)
      → decide blake3 f o₁ stake₁ pda₁ min₁ ≡ file args₁
      → decide blake3 f o₂ stake₂ pda₂ min₂ ≡ file args₂
      → f.max_stake_at_risk_lamports < f.in_flight_bond + args₁.bond + args₂.bond
      → f.in_flight_bond + args₁.bond + args₂.bond < 2 ^ 64
      → (w : Tasks) × Run blake3 (record { filer = f; awaiting = [] }) w
        × (w.awaiting ≡ [])
        × (f.max_stake_at_risk_lamports < w.filer.in_flight_bond)
  unfolding reserve_bond
  two_tasks_exceed_cap f o₁ o₂ stake₁ stake₂ pda₁ pda₂ min₁ min₂ args₁ args₂ d₁ d₂ over fits =
      let a = args₁.bond in
      let b = args₂.bond in
      let w₀ : Tasks = record { filer = f; awaiting = [] } in
      let w₁ : Tasks = record { filer = f; awaiting = a ∷ [] } in
      let w₂ : Tasks = record { filer = f; awaiting = b ∷ a ∷ [] } in
      let w₃ : Tasks = record { filer = reserve_bond b f; awaiting = a ∷ [] } in
      let w₄ : Tasks = record { filer = reserve_bond a (reserve_bond b f); awaiting = [] } in
      (
        w₄,
        next
            (next
              (next (next here (decides w₀ o₁ stake₁ pda₁ min₁ args₁ d₁))
                (decides w₁ o₂ stake₂ pda₂ min₂ args₂ d₂))
              (submitted w₂ [] (a ∷ []) b refl))
            (submitted w₃ [] [] a refl),
        refl,
        omega arith,
      )
