-- ===== src/Watcher/Startup/Observer.antt =====
-- What a watcher that has started may do.
use proof_of_thought.Prelude.{
  ℕ, ◌<◌, ◌≡◌, ◌≢◌, ◌↔◌, ◌⊎◌, inl, inr, refl, List, [], ◌∷◌, Option, none, some, Bool, true, false,
  not, Bool-cases, Option-cases, is_empty, ◌==◌, ◌&&◌, arith, ap, ◌∙◌, sym,
}
use proof_of_thought.Watcher.Types.{Bytes, ThoughtSubmittedEvent, TraceBundle}
use proof_of_thought.Watcher.Filer.{
  BondStrategy, conservative, aggressive, disabled, Filer, ChallengeArgs, new, decide,
  decide_and_file,
}
use proof_of_thought.Watcher.Pipeline.{handle_event, fetch}
use proof_of_thought.Watcher.Startup.{
  Cli, started, Watching, is_disabled, new_config, validate, start,
}

is_disabled-disabled : (s : BondStrategy) → is_disabled s ≡ true → s ≡ disabled
is_disabled-disabled disabled h = refl
is_disabled-disabled conservative h = absurd (cc)
is_disabled-disabled aggressive h = absurd (cc)

is_empty-false {ℓ} : {A : Type ℓ} (xs : List A) → xs ≢ [] → is_empty xs ≡ false
is_empty-false [] h = absurd (h refl)
is_empty-false (x ∷ xs) h = refl

module _ {F : Type 0} (to_lamports : F → ℕ) (is_pubkey : Bytes → Bool) (cli : Cli F) where
  -- The command lines that a watcher starts on.
  pub record IsStartable : Type 0 where
    pub rpc : cli.rpc ≢ []
    pub ws : cli.ws ≢ []
    pub policies : cli.policies ≢ []
    pub named : cli.program_id ≢ []
    pub is_key : is_pubkey cli.program_id ≡ true
    pub acknowledged :
        (cli.bond_strategy ≡ disabled)
        ⊎ ((cli.dry_run ≡ true) × (0 < to_lamports cli.max_stake_at_risk))

  start_runs : (w : Watching) → start to_lamports is_pubkey cli ≡ started w → IsStartable
  unfolding start new_config validate
  start_runs w h = record {
    rpc = ground arith;
    ws = ground arith;
    policies = ground arith;
    named = ground arith;
    is_key = ground arith;
    acknowledged = elim (Bool-cases (is_disabled cli.bond_strategy)) [
      | inl off ↦ inl (is_disabled-disabled cli.bond_strategy off)
      | inr on ↦ inr (ground arith, ground arith)
    ];
  }

  -- The watcher that the command line describes.
  abbrev pub described : Watching
  described = record {
    filer = new cli.bond_strategy (to_lamports cli.max_stake_at_risk);
    storage = cli.storage;
  }

  start_describes : (w : Watching) → start to_lamports is_pubkey cli ≡ started w → w ≡ described
  unfolding start new_config validate
  start_describes w h = ground arith

  IsStartable-start : IsStartable → start to_lamports is_pubkey cli ≡ started described
  unfolding start new_config validate
  IsStartable-start c =
      let cap = to_lamports cli.max_stake_at_risk in
      let capped : (not (is_disabled cli.bond_strategy) && (cap == 0)) ≡ false =
        elim c.acknowledged [ inl off ↦ rw off refl | inr (dry, positive) ↦ ground arith ] in
      let dry_run : (not cli.dry_run && not (is_disabled cli.bond_strategy)) ≡ false =
        elim c.acknowledged [
          | inl off ↦ rw off (ground arith)
          | inr (dry, positive) ↦ rw dry refl
        ] in
      rw
        (
          is_empty-false cli.rpc c.rpc,
          is_empty-false cli.ws c.ws,
          is_empty-false cli.policies c.policies,
          is_empty-false cli.program_id c.named,
          capped,
          dry_run,
          c.is_key,
        )
        refl

  -- The watcher starts exactly on a command line with an RPC and a websocket URL, at least one policy and
  -- a public key for the program, whose strategy is disabled or which has the dry run acknowledged and a
  -- positive cap; it is then the watcher described, with the strategy and the cap given.
  pub start_exact :
      (w : Watching)
      → (start to_lamports is_pubkey cli ≡ started w) ↔ (IsStartable × (w ≡ described))
  start_exact w = (
    λ h. (start_runs w h, start_describes w h),
    λ (c, e). IsStartable-start c ∙ ap started (sym e),
  )

  module _ {V : Type 0} (blake3 : Bytes → ℕ) (submit : ChallengeArgs → Option ℕ) where
    disabled_leaves :
        (gateway : Bytes → Option (TraceBundle V)) (f : Filer) (event : ThoughtSubmittedEvent)
        → f.bond_strategy ≡ disabled
        → handle_event blake3 submit gateway f event ≡ (f, some none)
    unfolding handle_event decide_and_file decide
    disabled_leaves gateway f event off =
        elim (Option-cases (fetch blake3 gateway event.trace_uri event.trace_uri_hash)) [
          | inl failed ↦ rw failed refl
          | inr (bundle, fetched) ↦ rw (fetched, off) refl
        ]

    -- A watcher that starts without the dry run leaves every event: whatever the gateway and the
    -- submitter answer, no signature is returned, and its filer stays as it is.
    pub start_without_dry_run_files_nothing :
        (w : Watching) (gateway : Bytes → Option (TraceBundle V)) (event : ThoughtSubmittedEvent)
        → cli.dry_run ≡ false
        → start to_lamports is_pubkey cli ≡ started w
        → handle_event blake3 submit gateway w.filer event ≡ (w.filer, some none)
    start_without_dry_run_files_nothing w gateway event wet h =
        let off : cli.bond_strategy ≡ disabled = elim (start_runs w h).acknowledged [
          | inl off ↦ off
          | inr (dry, positive) ↦ absurd (cc)
        ] in
        let same : w.filer.bond_strategy ≡ cli.bond_strategy =
          unfold new in ap (λ u. u.filer.bond_strategy) (start_describes w h) in
        disabled_leaves gateway w.filer event (same ∙ off)
