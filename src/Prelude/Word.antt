-- ===== src/Prelude/Word.antt =====
-- Checked, saturating and wrapping arithmetic of unsigned machine words of `w` bits, as Rust's
-- integer methods define it.
use Prim.Native.Nat.{ℕ, ◌+◌, ◌-◌, ◌*◌, ◌%◌, ◌^◌}
use mathlib.Core.Option.{Option, none, some}
use proof_of_thought.Prelude.Tests.{leb, ltb, if◌then◌else◌}

abbrev pub checked_add : ℕ → ℕ → ℕ → Option ℕ
checked_add w a b = if ltb (a + b) (2 ^ w) then some (a + b) else none

-- The subtraction of any width: none below zero.
abbrev pub checked_sub : ℕ → ℕ → Option ℕ
checked_sub a b = if leb b a then some (a - b) else none

-- `-` on ℕ stops at 0, as `saturating_sub` does.
abbrev pub saturating_sub : ℕ → ℕ → ℕ
saturating_sub a b = a - b

abbrev pub saturating_add : ℕ → ℕ → ℕ → ℕ
saturating_add w a b = if ltb (a + b) (2 ^ w) then a + b else 2 ^ w - 1

abbrev pub saturating_mul : ℕ → ℕ → ℕ → ℕ
saturating_mul w a b = if ltb (a * b) (2 ^ w) then a * b else 2 ^ w - 1

-- `x as u64`, and the like: the low `w` bits.
abbrev pub truncate : ℕ → ℕ → ℕ
truncate w x = x % 2 ^ w
