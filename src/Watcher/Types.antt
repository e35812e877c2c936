-- ===== src/Watcher/Types.antt =====
-- The values that the watcher's stages hand on (watcher/src/types.rs, verify/mod.rs, trace_fetch.rs).
-- A byte string is a list of numbers below 256; a 32-byte array or public key is the number of which
-- it is the little-endian form. The watcher's `ChallengeClaim` has the program's variants and codes.
use proof_of_thought.Prelude.{
  ℕ, zero, suc, ◌+◌, ◌*◌, ◌/◌, ◌%◌, List, [], ◌∷◌, Option, none, some, if◌then◌else◌, Bool, true,
  false, ◌==◌, ◌&&◌, ◌≡◌, refl, arith,
}
use proof_of_thought.Program.State.{ChallengeClaim}

abbrev pub Bytes : Type 0
Bytes = List ℕ

-- `to_le_bytes` of a number of `n` bytes.
unfoldable pub le_bytes : ℕ → ℕ → Bytes
le_bytes zero x = []
le_bytes (suc n) x = (x % 256) ∷ le_bytes n (x / 256)

-- `from_le_bytes`
unfoldable pub from_le : Bytes → ℕ
from_le [] = 0
from_le (b ∷ bs) = b + 256 * from_le bs

-- Slices compared by `==`.
abbrev pub same_bytes : Bytes → Bytes → Bool
same_bytes [] [] = true
same_bytes [] (b ∷ ys) = false
same_bytes (a ∷ xs) [] = false
same_bytes (a ∷ xs) (b ∷ ys) = (a == b) && same_bytes xs ys

-- `str::strip_prefix`
abbrev pub strip_prefix : Bytes → Bytes → Option Bytes
strip_prefix [] s = some s
strip_prefix (p ∷ ps) [] = none
strip_prefix (p ∷ ps) (b ∷ s) = let rest = strip_prefix ps s in if p == b then rest else none

pub same_bytes_refl : (xs : Bytes) → same_bytes xs xs ≡ true
same_bytes_refl [] = refl
same_bytes_refl (x ∷ xs) = ground (arith, same_bytes_refl xs)

pub same_bytes_sound : (xs ys : Bytes) → same_bytes xs ys ≡ true → xs ≡ ys
same_bytes_sound [] [] h = refl
same_bytes_sound [] (y ∷ ys) h = cc
same_bytes_sound (x ∷ xs) [] h = cc
same_bytes_sound (x ∷ xs) (y ∷ ys) h = grind (arith, same_bytes_sound xs ys)

pub record ThoughtSubmittedEvent : Type 0 where
  pub agent : ℕ
  pub thought_pda : ℕ
  pub model_id : ℕ
  pub input_commitment : ℕ
  pub output_commitment : ℕ
  pub trace_uri_hash : ℕ
  pub vrf_seed : ℕ
  pub policy_id : ℕ
  pub slot : ℕ
  pub trace_uri : Bytes

-- A reason is told apart by a number: the texts of the source are for the log.
pub data VerifyOutcome : Type 0 where
  matched : VerifyOutcome
  mismatch : ChallengeClaim → Bytes → VerifyOutcome
  inconclusive : ℕ → VerifyOutcome

-- `V` is the type of the decoded values, `ciborium::Value`.
pub record TraceBundle (V : Type 0) : Type 0 where
  pub raw_canonical_output : Bytes
  pub raw_canonical_input : Bytes
  pub attestation : Option Bytes
  pub manifest : V
