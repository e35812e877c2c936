-- ===== src/Watcher/Stream/Backoff.antt =====
-- The delays before a connection is tried again.
use native.Mathlib.Nat.{pow-le-pow_right}
use proof_of_thought.Prelude.{ℕ, zero, suc, ◌*◌, ◌^◌, ◌≤◌, ◌<◌, ◌≡◌, refl, min, arith}
use proof_of_thought.Watcher.Stream.{bound_ms, jittered_backoff}

bound_ms_late : (attempt : ℕ) → 6 ≤ attempt → bound_ms attempt ≡ min (1_000 * 2 ^ attempt) 60_000
bound_ms_late attempt late =
    let six : min attempt 6 ≡ 6 = omega arith in
    let grown : 2 ^ 6 ≤ 2 ^ attempt = pow-le-pow_right (omega arith) late in
    rw six (omega (arith, grown))

bound_ms-min : (attempt : ℕ) → bound_ms attempt ≡ min (1_000 * 2 ^ attempt) 60_000
bound_ms-min zero = refl
bound_ms-min (suc zero) = refl
bound_ms-min (suc (suc zero)) = refl
bound_ms-min (suc (suc (suc zero))) = refl
bound_ms-min (suc (suc (suc (suc zero)))) = refl
bound_ms-min (suc (suc (suc (suc (suc zero))))) = refl
bound_ms-min (suc (suc (suc (suc (suc (suc n)))))) = bound_ms_late _ (omega arith)

-- For every number of failed attempts and every clock, the delay is below 1,000 ms times 2 to the
-- attempts, and below 60,000 ms; the bound is the lesser of both.
pub jittered_backoff_bounded :
    (nanos attempt : ℕ)
    → (bound_ms attempt ≡ min (1_000 * 2 ^ attempt) 60_000)
      × (jittered_backoff nanos attempt < min (1_000 * 2 ^ attempt) 60_000)
unfolding jittered_backoff
jittered_backoff_bounded nanos attempt =
    let bound = bound_ms-min attempt in
    let some_time : 1 ≤ 2 ^ attempt =
      pow-le-pow_right {n = 2} (omega arith) {i = 0} {j = attempt} (omega arith) in
    (bound, rw bound (omega (arith, some_time)))
