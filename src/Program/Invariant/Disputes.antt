-- ===== src/Program/Invariant/Disputes.antt =====
-- A dispute and its thought: what the status says of the verdict, and that no other dispute stands.
use proof_of_thought.Prelude.{ℕ, ◌≡◌, Option, some, if◌then◌else◌, arith}
use proof_of_thought.Prelude.Dict.{lookup, lookup-insert}
use proof_of_thought.Program.State.{Pubkey, Account, thought_record, Challenge, challenge}
use proof_of_thought.Program.Runtime.{Runtime, Ledger}
use proof_of_thought.Program.Effect.{
  Effect, registered, published_model, published_policy, staked, withdrawn, requested, submitted,
  opened, unchallenged, judged, used, moved_outside,
}

-- The status that a dispute leaves its thought with: Challenged until the verdict, then Slashed or
-- Finalized.
abbrev pub status_under : Challenge → ℕ
status_under c = if c.resolved then if c.verdict then 3 else 2 else 1

abbrev pub status_of : Option Account → Option ℕ
status_of (some (thought_record t)) = some t.status
status_of _ = Option.none

abbrev pub DisputesMatch : Ledger → Type 0
DisputesMatch s =
    (j : Pubkey) (x : Challenge)
    → lookup j s.accounts ≡ some (challenge x)
    → status_of (lookup x.thought s.accounts) ≡ some (status_under x)

abbrev pub DisputesAreSingle : Ledger → Type 0
DisputesAreSingle s =
    (j k : Pubkey) (x y : Challenge)
    → lookup j s.accounts ≡ some (challenge x)
    → lookup k s.accounts ≡ some (challenge y)
    → x.thought ≡ y.thought
    → j ≡ k

module _ (r : Runtime) (slot : ℕ) (s s' : Ledger) (match : DisputesMatch s)
    (single : DisputesAreSingle s) where
  pub Effect-DisputesMatch : Effect r slot s s' → DisputesMatch s'
  Effect-DisputesMatch (registered k a free at idle gate first wrote keeps paid) j x f =
      rw wrote (grind (arith, match j x, lookup-insert))
  Effect-DisputesMatch (published_model k m free at coded wrote keeps) j x f =
      rw wrote (grind (arith, match j x, lookup-insert))
  Effect-DisputesMatch (published_policy k p free at coded wrote keeps) j x f =
      rw wrote (grind (arith, match j x, lookup-insert))
  Effect-DisputesMatch (staked k a n found wrote keeps paid) j x f =
      rw wrote (grind (arith, match j x, lookup-insert))
  Effect-DisputesMatch (withdrawn k a n left found idle split wrote keeps paid) j x f =
      rw wrote (grind (arith, match j x, lookup-insert))
  Effect-DisputesMatch (requested k kv a v found free at owner nonce now fresh wrote keeps) j x f =
      rw wrote (grind (arith, match j x, lookup-insert))
  Effect-DisputesMatch
        (submitted k kv kt a v t found vrf_found free at owner vrf_at vrf_owner fresh seeded new
          unverified now ahead unused authorised wrote keeps)
        j x f =
      rw wrote (grind (arith, match j x, lookup-insert))
  Effect-DisputesMatch
        (opened kt kc t c found free at subject open_still pending early coded wrote keeps paid) j x
        f =
      rw wrote (grind (arith, match j x, lookup-insert))
  Effect-DisputesMatch
        (unchallenged kt k t a reputation found agent_found owner pending late wrote keeps) j x f =
      rw wrote (grind (arith, match j x, lookup-insert))
  Effect-DisputesMatch
        (judged kt k kc t a c guilty found agent_found challenge_found owner subject disputed
          open_still wrote keeps paid)
        j x f =
      rw wrote (grind (arith, match j x, single j kc x c, lookup-insert))
  Effect-DisputesMatch (used kt t found ready past wrote keeps) j x f =
      rw wrote (grind (arith, match j x, lookup-insert))
  Effect-DisputesMatch (moved_outside wrote keeps) j x f = rw wrote (match j x (rw wrote at f))

  pub Effect-DisputesAreSingle : Effect r slot s s' → DisputesAreSingle s'
  Effect-DisputesAreSingle (registered k a free at idle gate first wrote keeps paid) i j x y f g e =
      grind (arith, single i j x y, lookup-insert)
  Effect-DisputesAreSingle (published_model k m free at coded wrote keeps) i j x y f g e =
      grind (arith, single i j x y, lookup-insert)
  Effect-DisputesAreSingle (published_policy k p free at coded wrote keeps) i j x y f g e =
      grind (arith, single i j x y, lookup-insert)
  Effect-DisputesAreSingle (staked k a n found wrote keeps paid) i j x y f g e =
      grind (arith, single i j x y, lookup-insert)
  Effect-DisputesAreSingle (withdrawn k a n left found idle split wrote keeps paid) i j x y f g e =
      grind (arith, single i j x y, lookup-insert)
  Effect-DisputesAreSingle (requested k kv a v found free at owner nonce now fresh wrote keeps) i j
        x y f g e =
      grind (arith, single i j x y, lookup-insert)
  Effect-DisputesAreSingle
        (submitted k kv kt a v t found vrf_found free at owner vrf_at vrf_owner fresh seeded new
          unverified now ahead unused authorised wrote keeps)
        i j x y f g e =
      grind (arith, single i j x y, lookup-insert)
  Effect-DisputesAreSingle
        (opened kt kc t c found free at subject open_still pending early coded wrote keeps paid) i j
        x y f g e =
      grind (arith, single i j x y, match i x, match j y, lookup-insert)
  Effect-DisputesAreSingle
        (unchallenged kt k t a reputation found agent_found owner pending late wrote keeps) i j x y
        f g e =
      grind (arith, single i j x y, lookup-insert)
  Effect-DisputesAreSingle
        (judged kt k kc t a c guilty found agent_found challenge_found owner subject disputed
          open_still wrote keeps paid)
        i j x y f g e =
      grind
        (arith, single i j x y, single kc j c y, single i kc x c, single kc kc c c, lookup-insert)
  Effect-DisputesAreSingle (used kt t found ready past wrote keeps) i j x y f g e =
      grind (arith, single i j x y, lookup-insert)
  Effect-DisputesAreSingle (moved_outside wrote keeps) i j x y f g e =
      single i j x y (rw wrote at f) (rw wrote at g) e
