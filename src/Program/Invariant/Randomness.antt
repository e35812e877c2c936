-- ===== src/Program/Invariant/Randomness.antt =====
-- A thought and the randomness request of its agent and nonce.
use proof_of_thought.Prelude.{ℕ, ◌≡◌, Option, none, some, if◌then◌else◌, arith}
use proof_of_thought.Prelude.Dict.{lookup, lookup-insert}
use proof_of_thought.Program.State.{
  Pubkey, Hash, VrfRequest, ThoughtRecord, Account, vrf_request, thought_record,
}
use proof_of_thought.Program.Runtime.{Runtime, RuntimeLaws, Ledger, vrf_seeds}
use proof_of_thought.Program.Addresses.{address}
use proof_of_thought.Program.Effect.{
  Effect, registered, published_model, published_policy, staked, withdrawn, requested, submitted,
  opened, unchallenged, judged, used, moved_outside,
}
use proof_of_thought.Program.Invariant.Placement.{IsPlaced}

-- The seed of a consumed request.
abbrev pub spent_seed : Option Account → Option Hash
spent_seed (some (vrf_request v)) = if v.consumed then some v.seed else none
spent_seed _ = none

module _ (r : Runtime) where
  abbrev pub VrfIsSpent : Ledger → Type 0
  VrfIsSpent s =
      (j : Pubkey) (x : ThoughtRecord)
      → lookup j s.accounts ≡ some (thought_record x)
      → spent_seed (lookup (address r (vrf_seeds x.agent x.vrf_nonce_idx)) s.accounts)
        ≡ some x.vrf_seed

module _ (r : Runtime) (laws : RuntimeLaws r) where
  -- The request that a submission loads stands at the canonical address.
  vrf_canonical :
      (k kv : Pubkey) (n : ℕ) (v : VrfRequest) (s : Ledger)
      → IsPlaced r s
      → lookup kv s.accounts ≡ some (vrf_request v)
      → r.create_program_address (vrf_seeds k n) v.bump ≡ some kv
      → kv ≡ address r (vrf_seeds k n)
  vrf_canonical k kv n v s placed found made =
      let seeds = vrf_seeds v.agent v.nonce_idx in
      let (at, bump) = placed kv (vrf_request v) found in
      let e : vrf_seeds k n ≡ seeds =
        laws.create_injective (vrf_seeds k n) seeds v.bump (r.find_program_address seeds).1 kv made
          (cc (laws.find_creates seeds)) in
      cc

  pub Effect-VrfIsSpent :
      (slot : ℕ) (s s' : Ledger)
      → Effect r slot s s'
      → IsPlaced r s
      → VrfIsSpent r s
      → VrfIsSpent r s'
  Effect-VrfIsSpent slot s s' (registered k a free at idle gate first wrote keeps paid) placed h j x
        f =
      grind (arith, h j x, lookup-insert)
  Effect-VrfIsSpent slot s s' (published_model k m free at coded wrote keeps) placed h j x f =
      grind (arith, h j x, lookup-insert)
  Effect-VrfIsSpent slot s s' (published_policy k p free at coded wrote keeps) placed h j x f =
      grind (arith, h j x, lookup-insert)
  Effect-VrfIsSpent slot s s' (staked k a n found wrote keeps paid) placed h j x f =
      grind (arith, h j x, lookup-insert)
  Effect-VrfIsSpent slot s s' (withdrawn k a n left found idle split wrote keeps paid) placed h j x
        f =
      grind (arith, h j x, lookup-insert)
  Effect-VrfIsSpent slot s s' (requested k kv a v found free at owner nonce now fresh wrote keeps)
        placed h j x f =
      grind (arith, h j x, lookup-insert)
  Effect-VrfIsSpent slot s s'
        (submitted k kv kt a v t found vrf_found free at owner vrf_at vrf_owner fresh seeded new
          unverified now ahead unused authorised wrote keeps)
        placed h j x f =
      grind (
        arith,
        h j x,
        vrf_canonical k kv t.vrf_nonce_idx v s placed vrf_found vrf_at,
        lookup-insert,
      )
  Effect-VrfIsSpent slot s s'
        (opened kt kc t c found free at subject open_still pending early coded wrote keeps paid)
        placed h j x f =
      grind (arith, h j x, h kt t found, lookup-insert)
  Effect-VrfIsSpent slot s s'
        (unchallenged kt k t a reputation found agent_found owner pending late wrote keeps) placed h
        j x f =
      grind (arith, h j x, h kt t found, lookup-insert)
  Effect-VrfIsSpent slot s s'
        (judged kt k kc t a c guilty found agent_found challenge_found owner subject disputed
          open_still wrote keeps paid)
        placed h j x f =
      grind (arith, h j x, h kt t found, lookup-insert)
  Effect-VrfIsSpent slot s s' (used kt t found ready past wrote keeps) placed h j x f =
      grind (arith, h j x, h kt t found, lookup-insert)
  Effect-VrfIsSpent slot s s' (moved_outside wrote keeps) placed h j x f = ground (arith, h j x)
