-- ===== src/Program/Invariant/Counts.antt =====
-- Two counters and the accounts that they count: an agent's `active_thoughts` with
-- its thoughts in flight, and the status of a thought with its open disputes.
use proof_of_thought.Prelude.{ℕ, ◌+◌, ◌≡◌, true, ◌||◌, Option, some, ◌==◌, if◌then◌else◌, arith}
use proof_of_thought.Prelude.Dict.{
  lookup, insert, lookup-insert, total, total-insert, total-insert_new, writes,
}
use proof_of_thought.Program.State.{
  Pubkey, Account, agent_profile, vrf_request, thought_record, challenge,
}
use proof_of_thought.Program.Runtime.{Runtime, Ledger}
use proof_of_thought.Program.Effect.{
  Effect, registered, published_model, published_policy, staked, withdrawn, requested, submitted,
  opened, unchallenged, judged, used, moved_outside,
}
use proof_of_thought.Program.Resolve.{judge_agent}

-- The field `active_thoughts` of the agent at an address, 0 where there is none.
abbrev pub active_of : Option Account → ℕ
active_of (some (agent_profile a)) = a.active_thoughts
active_of _ = 0

-- 1 for a thought of the agent that is Pending or Challenged.
abbrev pub in_flight : Pubkey → Account → ℕ
in_flight j (thought_record t) =
    if t.agent == j then if t.status == 0 || t.status == 1 then 1 else 0 else 0
in_flight j _ = 0

abbrev pub ActiveIsCounted : Ledger → Type 0
ActiveIsCounted s = (j : Pubkey) → active_of (lookup j s.accounts) ≡ total (in_flight j) s.accounts

-- 1 where the address holds a thought that is Challenged.
abbrev pub disputed_of : Option Account → ℕ
disputed_of (some (thought_record t)) = if t.status == 1 then 1 else 0
disputed_of _ = 0

-- 1 for a dispute of the thought that is not resolved.
abbrev pub open_on : Pubkey → Account → ℕ
open_on j (challenge c) = if c.thought == j then if c.resolved then 0 else 1 else 0
open_on j _ = 0

abbrev pub DisputesAreCounted : Ledger → Type 0
DisputesAreCounted s =
    (j : Pubkey) → disputed_of (lookup j s.accounts) ≡ total (open_on j) s.accounts

module _ (r : Runtime) where
  pub Effect-ActiveIsCounted :
      (slot : ℕ) (s s' : Ledger) → Effect r slot s s' → ActiveIsCounted s → ActiveIsCounted s'
  unfolding judge_agent
  Effect-ActiveIsCounted slot s s' (registered k a free at idle gate first wrote keeps paid) h j =
      rw wrote (grind (arith, h j, writes))
  Effect-ActiveIsCounted slot s s' (published_model k m free at coded wrote keeps) h j =
      rw wrote (grind (arith, h j, writes))
  Effect-ActiveIsCounted slot s s' (published_policy k p free at coded wrote keeps) h j =
      rw wrote (grind (arith, h j, writes))
  Effect-ActiveIsCounted slot s s' (staked k a n found wrote keeps paid) h j =
      rw wrote (grind (arith, h j, writes))
  Effect-ActiveIsCounted slot s s' (withdrawn k a n left found idle split wrote keeps paid) h j =
      rw wrote (grind (arith, h j, writes))
  Effect-ActiveIsCounted slot s s'
        (requested k kv a v found free at owner nonce now fresh wrote keeps) h j =
      rw wrote (grind (arith, h j, writes))
  Effect-ActiveIsCounted slot s s'
        (submitted k kv kt a v t found vrf_found free at owner vrf_at vrf_owner fresh seeded new
          unverified now ahead unused authorised wrote keeps)
        h j =
      let busier = agent_profile (record a { active_thoughts = a.active_thoughts + 1 }) in
      let spent = vrf_request (record v { consumed = true }) in
      let d₁ = insert k busier s.accounts in
      let d₂ = insert kv spent d₁ in
      rw wrote (
        ground (
          arith,
          h j,
          lookup-insert kt j (thought_record t) d₂,
          lookup-insert kv j spent d₁,
          lookup-insert k j busier s.accounts,
          lookup-insert kv kt spent d₁,
          lookup-insert k kt busier s.accounts,
          lookup-insert k kv busier s.accounts,
          total-insert_new (in_flight j) kt (thought_record t) d₂,
          total-insert (in_flight j) kv spent (vrf_request v) d₁,
          total-insert (in_flight j) k busier (agent_profile a) s.accounts,
        ))
  Effect-ActiveIsCounted slot s s'
        (opened kt kc t c found free at subject open_still pending early coded wrote keeps paid) h
        j =
      rw wrote (grind (arith, h j, writes))
  Effect-ActiveIsCounted slot s s'
        (unchallenged kt k t a reputation found agent_found owner pending late wrote keeps) h j =
      rw wrote (grind (arith, h j, writes))
  Effect-ActiveIsCounted slot s s'
        (judged kt k kc t a c guilty found agent_found challenge_found owner subject disputed
          open_still wrote keeps paid)
        h j =
      let punished = agent_profile (judge_agent guilty a) in
      let closed = challenge (record c { resolved = true; verdict = guilty }) in
      let settled = thought_record (record t { status = if guilty then 3 else 2 }) in
      let d₁ = insert kt settled s.accounts in
      let d₂ = insert kc closed d₁ in
      rw wrote (
        ground (
          arith,
          h j,
          lookup-insert k j punished d₂,
          lookup-insert kc j closed d₁,
          lookup-insert kt j settled s.accounts,
          lookup-insert kc k closed d₁,
          lookup-insert kt k settled s.accounts,
          lookup-insert kt kc settled s.accounts,
          total-insert (in_flight j) k punished (agent_profile a) d₂,
          total-insert (in_flight j) kc closed (challenge c) d₁,
          total-insert (in_flight j) kt settled (thought_record t) s.accounts,
        ))
  Effect-ActiveIsCounted slot s s' (used kt t found ready past wrote keeps) h j =
      rw wrote (grind (arith, h j, writes))
  Effect-ActiveIsCounted slot s s' (moved_outside wrote keeps) h j = rw wrote (h j)

  pub Effect-DisputesAreCounted :
      (slot : ℕ) (s s' : Ledger) → Effect r slot s s' → DisputesAreCounted s → DisputesAreCounted s'
  Effect-DisputesAreCounted slot s s' (registered k a free at idle gate first wrote keeps paid) h
        j =
      rw wrote (grind (arith, h j, writes))
  Effect-DisputesAreCounted slot s s' (published_model k m free at coded wrote keeps) h j =
      rw wrote (grind (arith, h j, writes))
  Effect-DisputesAreCounted slot s s' (published_policy k p free at coded wrote keeps) h j =
      rw wrote (grind (arith, h j, writes))
  Effect-DisputesAreCounted slot s s' (staked k a n found wrote keeps paid) h j =
      rw wrote (grind (arith, h j, writes))
  Effect-DisputesAreCounted slot s s' (withdrawn k a n left found idle split wrote keeps paid) h j =
      rw wrote (grind (arith, h j, writes))
  Effect-DisputesAreCounted slot s s'
        (requested k kv a v found free at owner nonce now fresh wrote keeps) h j =
      rw wrote (grind (arith, h j, writes))
  Effect-DisputesAreCounted slot s s'
        (submitted k kv kt a v t found vrf_found free at owner vrf_at vrf_owner fresh seeded new
          unverified now ahead unused authorised wrote keeps)
        h j =
      let busier = agent_profile (record a { active_thoughts = a.active_thoughts + 1 }) in
      let spent = vrf_request (record v { consumed = true }) in
      let d₁ = insert k busier s.accounts in
      let d₂ = insert kv spent d₁ in
      rw wrote (
        ground (
          arith,
          h j,
          lookup-insert kt j (thought_record t) d₂,
          lookup-insert kv j spent d₁,
          lookup-insert k j busier s.accounts,
          lookup-insert kv kt spent d₁,
          lookup-insert k kt busier s.accounts,
          lookup-insert k kv busier s.accounts,
          total-insert_new (open_on j) kt (thought_record t) d₂,
          total-insert (open_on j) kv spent (vrf_request v) d₁,
          total-insert (open_on j) k busier (agent_profile a) s.accounts,
        ))
  Effect-DisputesAreCounted slot s s'
        (opened kt kc t c found free at subject open_still pending early coded wrote keeps paid) h
        j =
      rw wrote (grind (arith, h j, writes))
  Effect-DisputesAreCounted slot s s'
        (unchallenged kt k t a reputation found agent_found owner pending late wrote keeps) h j =
      rw wrote (grind (arith, h j, writes))
  Effect-DisputesAreCounted slot s s'
        (judged kt k kc t a c guilty found agent_found challenge_found owner subject disputed
          open_still wrote keeps paid)
        h j =
      let punished = agent_profile (judge_agent guilty a) in
      let closed = challenge (record c { resolved = true; verdict = guilty }) in
      let settled = thought_record (record t { status = if guilty then 3 else 2 }) in
      let d₁ = insert kt settled s.accounts in
      let d₂ = insert kc closed d₁ in
      rw wrote (
        ground (
          arith,
          h j,
          lookup-insert k j punished d₂,
          lookup-insert kc j closed d₁,
          lookup-insert kt j settled s.accounts,
          lookup-insert kc k closed d₁,
          lookup-insert kt k settled s.accounts,
          lookup-insert kt kc settled s.accounts,
          total-insert (open_on j) k punished (agent_profile a) d₂,
          total-insert (open_on j) kc closed (challenge c) d₁,
          total-insert (open_on j) kt settled (thought_record t) s.accounts,
        ))
  Effect-DisputesAreCounted slot s s' (used kt t found ready past wrote keeps) h j =
      rw wrote (grind (arith, h j, writes))
  Effect-DisputesAreCounted slot s s' (moved_outside wrote keeps) h j = rw wrote (h j)
