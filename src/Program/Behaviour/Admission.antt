-- ===== src/Program/Behaviour/Admission.antt =====
-- What the accounts of a reachable ledger hold, and what a thought on it was admitted under
-- (programs/pot_program/src/state, programs/pot_program/src/instructions/submit_thought.rs).
use proof_of_thought.Prelude.{
  ℕ, suc, ◌+◌, ◌≡◌, ◌⊎◌, inl, inr, refl, List, [], ◌∷◌, some, true, any, get_elem?, ◌==◌, arith,
  Bool-cases,
}
use proof_of_thought.Prelude.Dict.{lookup}
use proof_of_thought.Program.State.{
  Pubkey, Hash, Account, agent_profile, ModelRegistry, model_registry, Policy, policy, vrf_request,
  ThoughtRecord, thought_record, challenge,
}
use proof_of_thought.Program.Runtime.{Runtime, RuntimeLaws, Lamports, model_seeds, policy_seeds}
use proof_of_thought.Program.Addresses.{address}
use proof_of_thought.Program.Submit.{is_allowed}
use proof_of_thought.Program.Execute.{World, Reach}
use proof_of_thought.Program.Effect.{IsCoded}
use proof_of_thought.Program.Invariant.Reachable.{genesis}
use proof_of_thought.Program.Invariant.Registration.{IsAdmitted}
use proof_of_thought.Program.Invariant.Reached.{Reach-Inv}

any-get_elem? :
    (x : ℕ) (xs : List ℕ) → any (λ m. m == x) xs ≡ true → (i : ℕ) × (get_elem? xs i ≡ some x)
any-get_elem? x [] h = absurd (cc)
any-get_elem? x (y ∷ ys) h = elim (Bool-cases (y == x)) [
  | inl same ↦ (0, ground arith)
  | inr other ↦ let (i, found) = any-get_elem? x ys (ground arith) in (suc i, found)
]

is_allowed_lem :
    (models : List Hash) (id : Hash)
    → is_allowed models id ≡ true
    → (models ≡ []) ⊎ (i : ℕ) × (get_elem? models i ≡ some id)
unfolding is_allowed
is_allowed_lem [] id h = inl refl
is_allowed_lem (m ∷ models) id h = inr (any-get_elem? id (m ∷ models) (ground arith))

module _ (r : Runtime) (laws : RuntimeLaws r) (l : Lamports) (n : ℕ) (w : World)
    (h : Reach r (genesis l n) w) where
  IsAdmitted-IsCoded :
      (k : Pubkey) (x : Account)
      → lookup k w.ledger.accounts ≡ some x
      → IsAdmitted r w.ledger k x
      → IsCoded r x
  IsAdmitted-IsCoded k (thought_record t) f (coded, _) = coded
  IsAdmitted-IsCoded k (agent_profile x) f coded = coded
  IsAdmitted-IsCoded k (model_registry x) f coded = coded
  IsAdmitted-IsCoded k (policy x) f coded = coded
  IsAdmitted-IsCoded k (vrf_request x) f coded = coded
  IsAdmitted-IsCoded k (challenge x) f coded = coded

  -- Under the platform's laws, on every chain that the program reaches from one without its
  -- accounts, the code of each enum that an account stores is one of that enum: `from_u8` decodes
  -- a thought's status byte to the status with this code, and a dispute's claim, a model's class
  -- and a policy's equivalence class are codes. Each model was registered by the governance key,
  -- and no policy lists more than 16 models.
  pub accounts-IsCoded :
      (k : Pubkey) (x : Account) → lookup k w.ledger.accounts ≡ some x → IsCoded r x
  accounts-IsCoded k x f = IsAdmitted-IsCoded k x f ((Reach-Inv r laws h).admitted k x f)

  -- Under the platform's laws, on every chain that the program reaches from one without its
  -- accounts, the model and the policy that a thought names are at their addresses, the model was
  -- registered by the governance key, the policy lists the model or none at all, and the thought's
  -- deadline is the policy's window after its slot.
  pub thought_authorised :
      (k : Pubkey) (t : ThoughtRecord)
      → lookup k w.ledger.accounts ≡ some (thought_record t)
      → (m : ModelRegistry) × (p : Policy) × (lookup
            (address r (model_seeds t.model_id))
            w.ledger.accounts
          ≡ some (model_registry m))
        × (lookup (address r (policy_seeds t.policy_id)) w.ledger.accounts ≡ some (policy p))
        × (m.registered_by ≡ r.governance)
        × ((p.allowed_models ≡ []) ⊎ (i : ℕ) × (get_elem? p.allowed_models i ≡ some t.model_id))
        × (t.challenge_deadline_slot ≡ t.slot + p.challenge_window_slots)
  thought_authorised k t f =
      let inv = Reach-Inv r laws h in
      let (_, a) = inv.admitted k (thought_record t) f in
      let (model_at, _) = inv.placed a.model_key (model_registry a.model) a.model_at in
      let (policy_at, _) = inv.placed a.policy_key (policy a.terms) a.policy_at in
      let (_, _, registrar) = inv.admitted a.model_key (model_registry a.model) a.model_at in
      (
        a.model,
        a.terms,
        ground (arith, a.same_model, a.model_at),
        ground (arith, a.same_policy, a.policy_at),
        registrar,
        is_allowed_lem a.terms.allowed_models t.model_id a.allowed,
        a.deadline,
      )
