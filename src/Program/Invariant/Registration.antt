-- ===== src/Program/Invariant/Registration.antt =====
-- What the data of an account is limited to, and what a thought was admitted under: the codes of the
-- enums, the bound of the list of models, the registrar, and the model and policy of a thought.
use proof_of_thought.Prelude.{
  ℕ, ◌≡◌, ◌⊎◌, refl, inl, inr, Bool, true, false, some, arith, if◌then◌else◌,
}
use proof_of_thought.Prelude.Dict.{Dict, lookup, lookup-insert, Holds, insert-Holds}
use proof_of_thought.Program.State.{
  Pubkey, Hash, AgentProfile, Account, ThoughtRecord, agent_profile, model_registry, policy,
  vrf_request, thought_record, challenge, pending, challenged, finalized, slashed, from_u8,
}
use proof_of_thought.Program.Runtime.{Runtime, Ledger}
use proof_of_thought.Program.Effect.{
  Effect, registered, published_model, published_policy, staked, withdrawn, requested, submitted,
  opened, unchallenged, judged, used, moved_outside, IsCoded, IsAuthorised,
}
use proof_of_thought.Program.Resolve.{judge_agent}
use proof_of_thought.Program.History.Step.{kind}

-- Models and policies are never changed.
pub Effect-registry :
    (r : Runtime) (slot : ℕ) (s s' : Ledger) (j : Pubkey) (x : Account)
    → (kind x ≡ 1) ⊎ (kind x ≡ 2)
    → Effect r slot s s'
    → lookup j s.accounts ≡ some x
    → lookup j s'.accounts ≡ some x
Effect-registry r slot s s' j x h (registered k a free at idle gate first wrote keeps paid) f =
    rw wrote (grind (arith, lookup-insert))
Effect-registry r slot s s' j x h (published_model k m free at coded wrote keeps) f =
    rw wrote (grind (arith, lookup-insert))
Effect-registry r slot s s' j x h (published_policy k p free at coded wrote keeps) f =
    rw wrote (grind (arith, lookup-insert))
Effect-registry r slot s s' j x h (staked k a n found wrote keeps paid) f =
    rw wrote (grind (arith, lookup-insert))
Effect-registry r slot s s' j x h (withdrawn k a n left found idle split wrote keeps paid) f =
    rw wrote (grind (arith, lookup-insert))
Effect-registry r slot s s' j x h
      (requested k kv a v found free at owner nonce now fresh wrote keeps) f =
    rw wrote (grind (arith, lookup-insert))
Effect-registry r slot s s' j x h
      (submitted k kv kt a v t found vrf_found free at owner vrf_at vrf_owner fresh seeded new
        unverified now ahead unused authorised wrote keeps)
      f =
    rw wrote (grind (arith, lookup-insert))
Effect-registry r slot s s' j x h
      (opened kt kc t c found free at subject open_still still early coded wrote keeps paid) f =
    rw wrote (grind (arith, lookup-insert))
Effect-registry r slot s s' j x h
      (unchallenged kt k t a reputation found agent_found owner still late wrote keeps) f =
    rw wrote (grind (arith, lookup-insert))
Effect-registry r slot s s' j x h
      (judged kt k kc t a c guilty found agent_found challenge_found owner subject disputed
        open_still wrote keeps paid)
      f =
    rw wrote (grind (arith, lookup-insert))
Effect-registry r slot s s' j x h (used kt t found ready past wrote keeps) f =
    rw wrote (grind (arith, lookup-insert))
Effect-registry r slot s s' j x h (moved_outside wrote keeps) f = rw wrote f

Holds-at : {P : ℕ → Account → Type 0} {d d' : Dict Account} → d' ≡ d → Holds P d → Holds P d'
Holds-at e h = rw e h

module _ (r : Runtime) where
  abbrev pub IsAdmitted : Ledger → Pubkey → Account → Type 0
  IsAdmitted s k (thought_record t) =
      IsCoded r (thought_record t)
      × IsAuthorised s t.model_id t.policy_id t.slot t.challenge_deadline_slot
  IsAdmitted s k x = IsCoded r x

  abbrev pub AllAdmitted : Ledger → Type 0
  AllAdmitted s = Holds (IsAdmitted s) s.accounts

  judged-IsAdmitted :
      (s : Ledger) (guilty : Bool) (k : Pubkey) (a : AgentProfile)
      → IsAdmitted s k (agent_profile (judge_agent guilty a))
  judged-IsAdmitted s guilty k a = tt

  verdict-IsCoded :
      (guilty : Bool) (t : ThoughtRecord)
      → IsCoded r (thought_record (record t { status = if guilty then 3 else 2 }))
  unfolding from_u8
  verdict-IsCoded true t = (slashed, refl, refl)
  verdict-IsCoded false t = (finalized, refl, refl)

  module _ (slot : ℕ) (s s' : Ledger) (e : Effect r slot s s') (h : AllAdmitted s) where
    IsAuthorised-later :
        (model_id policy_id : Hash) (at deadline : ℕ)
        → IsAuthorised s model_id policy_id at deadline
        → IsAuthorised s' model_id policy_id at deadline
    IsAuthorised-later model_id policy_id at deadline a = record {
      model_key = a.model_key;
      policy_key = a.policy_key;
      model = a.model;
      terms = a.terms;
      model_at =
          Effect-registry r slot s s' a.model_key (model_registry a.model) (inl refl) e a.model_at;
      policy_at =
          Effect-registry r slot s s' a.policy_key (policy a.terms) (inr refl) e a.policy_at;
      same_model = a.same_model;
      same_policy = a.same_policy;
      allowed = a.allowed;
      deadline = a.deadline;
    }

    IsAdmitted-later : (k : Pubkey) (x : Account) → IsAdmitted s k x → IsAdmitted s' k x
    IsAdmitted-later k (thought_record t) (coded, a) =
        (coded, IsAuthorised-later t.model_id t.policy_id t.slot t.challenge_deadline_slot a)
    IsAdmitted-later k (agent_profile x) h = h
    IsAdmitted-later k (model_registry x) h = h
    IsAdmitted-later k (policy x) h = h
    IsAdmitted-later k (vrf_request x) h = h
    IsAdmitted-later k (challenge x) h = h

    -- What was there is admitted in the ledger after the effect.
    still : Holds (IsAdmitted s') s.accounts
    still k x f = IsAdmitted-later k x (h k x f)

  pub Effect-AllAdmitted :
      (slot : ℕ) (s s' : Ledger) → Effect r slot s s' → AllAdmitted s → AllAdmitted s'
  unfolding from_u8
  Effect-AllAdmitted slot s s' (registered k a free at idle gate first wrote keeps paid) h =
      let e = registered k a free at idle gate first wrote keeps paid in
      let old = still slot s s' e h in
      Holds-at wrote (insert-Holds (IsAdmitted s') k _ _ (tt) (old))
  Effect-AllAdmitted slot s s' (published_model k m free at coded wrote keeps) h =
      let e = published_model k m free at coded wrote keeps in
      let old = still slot s s' e h in
      Holds-at wrote (insert-Holds (IsAdmitted s') k _ _ (coded) (old))
  Effect-AllAdmitted slot s s' (published_policy k p free at coded wrote keeps) h =
      let e = published_policy k p free at coded wrote keeps in
      let old = still slot s s' e h in
      Holds-at wrote (insert-Holds (IsAdmitted s') k _ _ (coded) (old))
  Effect-AllAdmitted slot s s' (staked k a n found wrote keeps paid) h =
      let e = staked k a n found wrote keeps paid in
      let old = still slot s s' e h in
      Holds-at wrote (insert-Holds (IsAdmitted s') k _ _ (tt) (old))
  Effect-AllAdmitted slot s s' (withdrawn k a n left found idle split wrote keeps paid) h =
      let e = withdrawn k a n left found idle split wrote keeps paid in
      let old = still slot s s' e h in
      Holds-at wrote (insert-Holds (IsAdmitted s') k _ _ (tt) (old))
  Effect-AllAdmitted slot s s' (requested k kv a v found free at owner nonce now fresh wrote keeps)
        h =
      let e = requested k kv a v found free at owner nonce now fresh wrote keeps in
      let old = still slot s s' e h in
      Holds-at wrote
        (insert-Holds (IsAdmitted s') kv _ _ (tt) (insert-Holds (IsAdmitted s') k _ _ (tt) (old)))
  Effect-AllAdmitted slot s s'
        (submitted k kv kt a v t found vrf_found free at owner vrf_at vrf_owner fresh seeded new
          unverified now ahead unused authorised wrote keeps)
        h =
      let e =
        submitted k kv kt a v t found vrf_found free at owner vrf_at vrf_owner fresh seeded new
          unverified now ahead unused authorised wrote keeps in
      let old = still slot s s' e h in
      Holds-at wrote (
        insert-Holds (IsAdmitted s') kt _ _
          (
            (pending, new, rw new refl),
            IsAuthorised-later slot s s' e h t.model_id t.policy_id t.slot t.challenge_deadline_slot
                authorised,
          )
          (insert-Holds (IsAdmitted s') kv _ _ (tt)
            (insert-Holds (IsAdmitted s') k _ _ (tt) (old))))
  Effect-AllAdmitted slot s s'
        (opened kt kc t c found free at subject open_still still_pending early coded wrote keeps
          paid)
        h =
      let e =
        opened kt kc t c found free at subject open_still still_pending early coded wrote keeps
          paid in
      let old = still slot s s' e h in
      Holds-at wrote (
        insert-Holds (IsAdmitted s') kc _ _ (coded) (
          insert-Holds (IsAdmitted s') kt _ _
            ((challenged, refl, refl), (old kt (thought_record t) found).1) (old)))
  Effect-AllAdmitted slot s s'
        (unchallenged kt k t a reputation found agent_found owner still_pending late wrote keeps)
        h =
      let e =
        unchallenged kt k t a reputation found agent_found owner still_pending late wrote keeps in
      let old = still slot s s' e h in
      Holds-at wrote (
        insert-Holds (IsAdmitted s') k _ _ (tt) (
          insert-Holds (IsAdmitted s') kt _ _
            ((finalized, refl, refl), (old kt (thought_record t) found).1) (old)))
  Effect-AllAdmitted slot s s'
        (judged kt k kc t a c guilty found agent_found challenge_found owner subject disputed
          open_still wrote keeps paid)
        h =
      let e =
        judged kt k kc t a c guilty found agent_found challenge_found owner subject disputed
          open_still wrote keeps paid in
      let old = still slot s s' e h in
      Holds-at wrote (
        insert-Holds (IsAdmitted s') k _ _ (judged-IsAdmitted s' guilty k a) (
          insert-Holds (IsAdmitted s') kc _ _ (h kc (challenge c) challenge_found) (
            insert-Holds (IsAdmitted s') kt _ _
              (verdict-IsCoded guilty t, (old kt (thought_record t) found).1) (old))))
  Effect-AllAdmitted slot s s' (used kt t found ready past wrote keeps) h =
      let e = used kt t found ready past wrote keeps in
      let old = still slot s s' e h in
      Holds-at wrote (
        insert-Holds (IsAdmitted s') kt _ _
          ((h kt (thought_record t) found).0, (old kt (thought_record t) found).1) (old))
  Effect-AllAdmitted slot s s' (moved_outside wrote keeps) h =
      Holds-at wrote (still slot s s' (moved_outside wrote keeps) h)
