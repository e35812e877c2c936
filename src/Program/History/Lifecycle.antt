-- ===== src/Program/History/Lifecycle.antt =====
-- How often the status of a thought changes over a history.
use proof_of_thought.Prelude.{
  ℕ, ◌+◌, ◌≤◌, ◌≡◌, ◌⊎◌, refl, Option, some, ◌==◌, if◌then◌else◌, Option-cases, inl, inr, arith,
}
use proof_of_thought.Prelude.Dict.{lookup}
use proof_of_thought.Program.State.{Pubkey, Account, ThoughtRecord, thought_record}
use proof_of_thought.Program.Runtime.{Runtime, RuntimeLaws, Ledger}
use proof_of_thought.Program.Execute.{World, Step, run, tick, outside, Reach, here, next}
use proof_of_thought.Program.Effect.{Effect}
use proof_of_thought.Program.Refine.All.{execute-Effect}
use proof_of_thought.Program.History.Step.{kind, kind_at, Edge, Effect-kind, Effect-thought}
use proof_of_thought.Program.History.Reached.{is_thought}

-- The status at an address, from 1, and 0 where no thought is.
abbrev pub stage : Option Account → ℕ
stage (some (thought_record t)) = t.status + 1
stage _ = 0

-- The changes of status that are left: the submission, the challenge, and the verdict.
abbrev pub steps_left : Option Account → ℕ
steps_left (some (thought_record t)) = if t.status == 0 then 2 else if t.status == 1 then 1 else 0
steps_left _ = 3

-- 1 for a step that changes the status at an address.
abbrev pub changed : Pubkey → World → World → ℕ
changed k u v =
    if stage (lookup k u.ledger.accounts) == stage (lookup k v.ledger.accounts) then 0 else 1

-- The steps of a history that change the status at an address.
unfoldable pub changes : {r : Runtime} {v w : World} → Pubkey → Reach r v w → ℕ
changes k here = 0
changes k (next {u} {v} rs st) = changes k rs + changed k u v

-- From no thought, from another account, and from a thought.
stages_from_none : (o : Option Account) → (if 0 == stage o then 0 else 1) + steps_left o ≤ 3
stages_from_none o = ground arith

stages_from_other :
    (x : Account) (o : Option Account)
    → kind_at o ≡ some (kind x)
    → (if stage (some x) == stage o then 0 else 1) + steps_left o ≤ steps_left (some x)
      ⊎ (t : ThoughtRecord) × (x ≡ thought_record t)
stages_from_other (thought_record t) o e = inr (t, refl)
stages_from_other x o e = inl (ground arith)

stages_from_thought :
    (slot : ℕ) (t t' : ThoughtRecord)
    → Edge slot t t'
    → (if stage (some (thought_record t)) == stage (some (thought_record t')) then 0 else 1)
        + steps_left (some (thought_record t'))
      ≤ steps_left (some (thought_record t))
stages_from_thought slot t t' e = ground arith

module _ (r : Runtime) (laws : RuntimeLaws r) (k : Pubkey) where
  Effect-steps_left :
      (slot : ℕ) (s s' : Ledger)
      → Effect r slot s s'
      → (if stage (lookup k s.accounts) == stage (lookup k s'.accounts) then 0 else 1)
          + steps_left (lookup k s'.accounts)
        ≤ steps_left (lookup k s.accounts)
  Effect-steps_left slot s s' e = elim (Option-cases (lookup k s.accounts)) [
    | inl absent ↦ rw absent (stages_from_none (lookup k s'.accounts))
    | inr (x, found) ↦
        let kept = Effect-kind r slot s s' k (kind x) e (rw found) in
        elim (stages_from_other x (lookup k s'.accounts) kept) [
          | inl fine ↦ rw found fine
          | inr (t, is) ↦
              let before : lookup k s.accounts ≡ some (thought_record t) = cc in
              let (t', after) = is_thought (lookup k s'.accounts) (cc) in
              let (_, edge) = Effect-thought r slot s s' k t t' e before after in
              rw (before, after) (stages_from_thought slot t t' edge)
        ]
  ]

  Step-steps_left :
      {u v : World}
      → Step r u v
      → changed k u v + steps_left (lookup k v.ledger.accounts)
        ≤ steps_left (lookup k u.ledger.accounts)
  Step-steps_left (run w i s' sig e) =
      Effect-steps_left w.slot w.ledger s' (execute-Effect r laws w.slot i w.ledger s' sig e)
  Step-steps_left (tick w n) = ground arith
  Step-steps_left (outside w l up) = ground arith

  -- Under the platform's laws, over any history, the steps that change the status at an address,
  -- with those left at its end, are at most those left at its start: 3 where no thought is (its
  -- submission, a challenge, and a verdict), 2 from Pending, 1 from Challenged, none from another
  -- status.
  pub changes-le-steps_left :
      {v w : World} (h : Reach r v w)
      → changes k h + steps_left (lookup k w.ledger.accounts)
        ≤ steps_left (lookup k v.ledger.accounts)
  unfolding changes
  changes-le-steps_left here = omega arith
  changes-le-steps_left (next rs st) = omega (arith, changes-le-steps_left rs, Step-steps_left st)
