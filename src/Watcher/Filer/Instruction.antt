-- ===== src/Watcher/Filer/Instruction.antt =====
-- The data of the watcher's instruction (watcher/src/challenge.rs).
use proof_of_thought.Prelude.{
  ℕ, ◌+◌, ◌^◌, ◌<◌, ◌≡◌, refl, sym, ap, [], ◌∷◌, ◌++◌, length, length-append, take, drop, arith,
}
use mathlib.Core.List.{append_assoc}
use native.Mathlib.Nat.{suc-add}
use proof_of_thought.Program.State.{claim_u8}
use proof_of_thought.Watcher.Types.{Bytes, le_bytes, from_le}
use proof_of_thought.Watcher.Filer.{ChallengeArgs, ix_data}
use proof_of_thought.Watcher.Subscribe.RoundTrip.{length-le_bytes, from_le-le_bytes, take-++}

drop-++_add : (xs ys : Bytes) (m n : ℕ) → m ≡ length xs + n → drop m (xs ++ ys) ≡ drop n ys
drop-++_add [] ys m n e = let same : m ≡ n = omega arith in ap (λ k. drop k ys) same
drop-++_add (x ∷ xs) ys m n e =
    rw (e, suc-add (length xs) n) (drop-++_add xs ys (length xs + n) n refl)

take-++_at : (xs ys : Bytes) (m : ℕ) → m ≡ length xs → take m (xs ++ ys) ≡ xs
take-++_at xs ys m e = rw e (take-++ xs ys)

-- The instruction's data, with a discriminator of 8 bytes, a bond of 64 bits and evidence of 256
-- bits, is 49 bytes: the discriminator, then a byte that is the code of the claim, then 8 bytes and 32 bytes that are the little-endian forms of the bond and of the evidence.
pub ix_data_layout :
    (discriminator : Bytes) (args : ChallengeArgs)
    → length discriminator ≡ 8
    → args.bond < 2 ^ 64
    → args.evidence_uri_hash < 2 ^ 256
    → let bytes = ix_data discriminator args in
      (length bytes ≡ 49)
      × (take 8 bytes ≡ discriminator)
      × (take 1 (drop 8 bytes) ≡ claim_u8 args.claim ∷ [])
      × (from_le (take 8 (drop 9 bytes)) ≡ args.bond)
      × (from_le (drop 17 bytes) ≡ args.evidence_uri_hash)
ix_data_layout discriminator args eight h₁ h₂ =
    let bond = le_bytes 8 args.bond in
    let evidence = le_bytes 32 args.evidence_uri_hash in
    let rest = bond ++ evidence in
    let n₁ = length-le_bytes 8 args.bond in
    let n₂ = length-le_bytes 32 args.evidence_uri_hash in
    let whole : ix_data discriminator args ≡ discriminator ++ claim_u8 args.claim ∷ rest =
      unfold ix_data in simp (append_assoc) in
    let size = length-append discriminator (claim_u8 args.claim ∷ rest) in
    rw whole (
      omega (arith, size, length-append bond evidence, n₁, n₂, eight),
      take-++_at discriminator (claim_u8 args.claim ∷ rest) 8 (sym eight),
      rw (drop-++_add discriminator (claim_u8 args.claim ∷ rest) 8 0 (omega (arith, eight))) refl,
      rw
          (
            drop-++_add discriminator (claim_u8 args.claim ∷ rest) 9 1 (omega (arith, eight)),
            take-++_at bond evidence 8 (sym n₁),
          )
          (from_le-le_bytes 8 args.bond h₁),
      rw
          (
            drop-++_add discriminator (claim_u8 args.claim ∷ rest) 17 9 (omega (arith, eight)),
            drop-++_add bond evidence 8 0 (omega (arith, n₁)),
          )
          (from_le-le_bytes 32 args.evidence_uri_hash h₂),
    )
