-- ===== src/Program/Invariant/DeadFields.antt =====
-- Two fields that gate an instruction: `cooldown_until` of an agent
-- and `attestation_verified` of a thought.
use proof_of_thought.Prelude.{ℕ, ◌≡◌, Bool, false, arith}
use proof_of_thought.Prelude.Dict.{Holds, insert-Holds}
use proof_of_thought.Program.State.{Pubkey, AgentProfile, Account, agent_profile, thought_record}
use proof_of_thought.Program.Runtime.{Runtime, Ledger}
use proof_of_thought.Program.Effect.{
  Effect, registered, published_model, published_policy, staked, withdrawn, requested, submitted,
  opened, unchallenged, judged, used, moved_outside,
}
use proof_of_thought.Program.Resolve.{judge_agent}

-- The gates of an account are as they were made.
abbrev pub IsUngated : Pubkey → Account → Type 0
IsUngated k (agent_profile a) = a.cooldown_until ≡ 0
IsUngated k (thought_record t) = t.attestation_verified ≡ false
IsUngated k _ = Unit

abbrev pub AllUngated : Ledger → Type 0
AllUngated s = Holds IsUngated s.accounts

judged_gate :
    (guilty : Bool) (a : AgentProfile)
    → a.cooldown_until ≡ 0
    → (judge_agent guilty a).cooldown_until ≡ 0
unfolding judge_agent
judged_gate guilty a h = ground arith

module _ (r : Runtime) where
  pub Effect-AllUngated :
      (slot : ℕ) (s s' : Ledger) → Effect r slot s s' → AllUngated s → AllUngated s'
  Effect-AllUngated slot s s' (registered k a free at idle gate first wrote keeps paid) h =
      rw wrote (insert-Holds IsUngated k _ _ (gate) h)
  Effect-AllUngated slot s s' (published_model k m free at coded wrote keeps) h =
      rw wrote (insert-Holds IsUngated k _ _ (tt) h)
  Effect-AllUngated slot s s' (published_policy k p free at coded wrote keeps) h =
      rw wrote (insert-Holds IsUngated k _ _ (tt) h)
  Effect-AllUngated slot s s' (staked k a n found wrote keeps paid) h =
      rw wrote (insert-Holds IsUngated k _ _ (h k (agent_profile a) found) h)
  Effect-AllUngated slot s s' (withdrawn k a n left found idle split wrote keeps paid) h =
      rw wrote (insert-Holds IsUngated k _ _ (h k (agent_profile a) found) h)
  Effect-AllUngated slot s s' (requested k kv a v found free at owner nonce now fresh wrote keeps)
        h =
      rw wrote (
        insert-Holds IsUngated kv _ _ (tt)
          (insert-Holds IsUngated k _ _ (h k (agent_profile a) found) h))
  Effect-AllUngated slot s s'
        (submitted k kv kt a v t found vrf_found free at owner vrf_at vrf_owner fresh seeded new
          unverified now ahead unused authorised wrote keeps)
        h =
      rw wrote (
        insert-Holds IsUngated kt _ _ (unverified) (
          insert-Holds IsUngated kv _ _ (tt)
            (insert-Holds IsUngated k _ _ (h k (agent_profile a) found) h)))
  Effect-AllUngated slot s s'
        (opened kt kc t c found free at subject open_still pending early coded wrote keeps paid) h =
      rw wrote (
        insert-Holds IsUngated kc _ _ (tt)
          (insert-Holds IsUngated kt _ _ (h kt (thought_record t) found) h))
  Effect-AllUngated slot s s'
        (unchallenged kt k t a reputation found agent_found owner pending late wrote keeps) h =
      rw wrote (
        insert-Holds IsUngated k _ _ (h k (agent_profile a) agent_found)
          (insert-Holds IsUngated kt _ _ (h kt (thought_record t) found) h))
  Effect-AllUngated slot s s'
        (judged kt k kc t a c guilty found agent_found challenge_found owner subject disputed
          open_still wrote keeps paid)
        h =
      rw wrote (
        insert-Holds IsUngated k _ _ (judged_gate guilty a (h k (agent_profile a) agent_found)) (
          insert-Holds IsUngated kc _ _ (tt)
            (insert-Holds IsUngated kt _ _ (h kt (thought_record t) found) h)))
  Effect-AllUngated slot s s' (used kt t found ready past wrote keeps) h =
      rw wrote (insert-Holds IsUngated kt _ _ (h kt (thought_record t) found) h)
  Effect-AllUngated slot s s' (moved_outside wrote keeps) h = rw wrote h
