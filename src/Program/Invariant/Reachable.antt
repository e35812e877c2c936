-- ===== src/Program/Invariant/Reachable.antt =====
-- The rule by which an invariant passes from the effects of the specification to every history.
use proof_of_thought.Prelude.{ℕ, refl, []}
use proof_of_thought.Program.Runtime.{Runtime, RuntimeLaws, Ledger, Lamports}
use proof_of_thought.Program.Execute.{World, Step, run, tick, outside, Reach, here, next}
use proof_of_thought.Program.Effect.{Effect, moved_outside}
use proof_of_thought.Program.Refine.All.{execute-Effect}

-- The chain before the program has run: no account, and any balances.
abbrev pub genesis : Lamports → ℕ → World
genesis l slot = record {
  ledger = record { accounts = []; lamports = l; events = [] };
  slot = slot;
}

module _ (r : Runtime) (laws : RuntimeLaws r) (P : Ledger → Type 0)
    (keep : (slot : ℕ) (s s' : Ledger) → Effect r slot s s' → P s → P s') where
  Step-keeps : {v w : World} → Step r v w → P v.ledger → P w.ledger
  Step-keeps (run w i s' sig e) h =
      keep w.slot w.ledger s' (execute-Effect r laws w.slot i w.ledger s' sig e) h
  Step-keeps (tick w n) h = h
  Step-keeps (outside w l up) h =
      keep w.slot w.ledger (record (w.ledger) { lamports = l }) (moved_outside refl up) h

  -- What every effect keeps, every history keeps.
  pub Reach-keeps : {v w : World} → Reach r v w → P v.ledger → P w.ledger
  Reach-keeps here h = h
  Reach-keeps (next rs st) h = Step-keeps st (Reach-keeps rs h)

-- Histories compose.
pub Reach-trans : {r : Runtime} {u v w : World} → Reach r u v → Reach r v w → Reach r u w
Reach-trans first here = first
Reach-trans first (next rs st) = next (Reach-trans first rs) st
