-- ===== src/Program/Invariant/Placement.antt =====
-- Where the accounts stand: at the canonical address of the seeds in their data.
use proof_of_thought.Prelude.{ℕ, Bool, true, false}
use proof_of_thought.Prelude.Dict.{Holds, insert-Holds}
use proof_of_thought.Program.State.{
  Pubkey, AgentProfile, agent_profile, vrf_request, thought_record, challenge,
}
use proof_of_thought.Program.Runtime.{Runtime, Ledger}
use proof_of_thought.Program.Effect.{
  Effect, registered, published_model, published_policy, staked, withdrawn, requested, submitted,
  opened, unchallenged, judged, used, moved_outside, StandsAt,
}
use proof_of_thought.Program.Resolve.{judge_agent}

module _ (r : Runtime) where
  abbrev pub IsPlaced : Ledger → Type 0
  IsPlaced s = Holds (StandsAt r) s.accounts

  judged-StandsAt :
      (guilty : Bool) (k : Pubkey) (a : AgentProfile)
      → StandsAt r k (agent_profile a)
      → StandsAt r k (agent_profile (judge_agent guilty a))
  unfolding judge_agent
  judged-StandsAt true k a h = h
  judged-StandsAt false k a h = h

  pub Effect-IsPlaced : (slot : ℕ) (s s' : Ledger) → Effect r slot s s' → IsPlaced s → IsPlaced s'
  Effect-IsPlaced slot s s' (registered k a free at idle gate first wrote keeps paid) h =
      rw wrote (insert-Holds (StandsAt r) k _ _ (at) h)
  Effect-IsPlaced slot s s' (published_model k m free at coded wrote keeps) h =
      rw wrote (insert-Holds (StandsAt r) k _ _ (at) h)
  Effect-IsPlaced slot s s' (published_policy k p free at coded wrote keeps) h =
      rw wrote (insert-Holds (StandsAt r) k _ _ (at) h)
  Effect-IsPlaced slot s s' (staked k a n found wrote keeps paid) h =
      rw wrote (insert-Holds (StandsAt r) k _ _ (h k (agent_profile a) found) h)
  Effect-IsPlaced slot s s' (withdrawn k a n left found idle split wrote keeps paid) h =
      rw wrote (insert-Holds (StandsAt r) k _ _ (h k (agent_profile a) found) h)
  Effect-IsPlaced slot s s' (requested k kv a v found free at owner nonce now fresh wrote keeps) h =
      rw wrote (
        insert-Holds (StandsAt r) kv _ _ (at)
          (insert-Holds (StandsAt r) k _ _ (h k (agent_profile a) found) h))
  Effect-IsPlaced slot s s'
        (submitted k kv kt a v t found vrf_found free at owner vrf_at vrf_owner fresh seeded new
          unverified now ahead unused authorised wrote keeps)
        h =
      rw wrote (
        insert-Holds (StandsAt r) kt _ _ (at) (
          insert-Holds (StandsAt r) kv _ _ (h kv (vrf_request v) vrf_found)
            (insert-Holds (StandsAt r) k _ _ (h k (agent_profile a) found) h)))
  Effect-IsPlaced slot s s'
        (opened kt kc t c found free at subject open_still pending early coded wrote keeps paid) h =
      rw wrote (
        insert-Holds (StandsAt r) kc _ _ (at)
          (insert-Holds (StandsAt r) kt _ _ (h kt (thought_record t) found) h))
  Effect-IsPlaced slot s s'
        (unchallenged kt k t a reputation found agent_found owner pending late wrote keeps) h =
      rw wrote (
        insert-Holds (StandsAt r) k _ _ (h k (agent_profile a) agent_found)
          (insert-Holds (StandsAt r) kt _ _ (h kt (thought_record t) found) h))
  Effect-IsPlaced slot s s'
        (judged kt k kc t a c guilty found agent_found challenge_found owner subject disputed
          open_still wrote keeps paid)
        h =
      rw wrote (
        insert-Holds (StandsAt r) k _ _
          (judged-StandsAt guilty k a (h k (agent_profile a) agent_found))
          (insert-Holds (StandsAt r) kc _ _ (h kc (challenge c) challenge_found)
            (insert-Holds (StandsAt r) kt _ _ (h kt (thought_record t) found) h)))
  Effect-IsPlaced slot s s' (used kt t found ready past wrote keeps) h =
      rw wrote (insert-Holds (StandsAt r) kt _ _ (h kt (thought_record t) found) h)
  Effect-IsPlaced slot s s' (moved_outside wrote keeps) h = rw wrote h
