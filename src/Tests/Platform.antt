-- ===== src/Tests/Platform.antt =====
-- A platform on which the program runs in the tests: addresses by an injective pairing, all of them
-- one above a multiple of three, so that the multiples of three are wallets.
use proof_of_thought.Prelude.{
  ℕ, zero, suc, ◌+◌, ◌*◌, ◌≤◌, ◌≡◌, refl, some, arith, leb, if◌then◌else◌,
}
use proof_of_thought.Program.Error.{Result, ok, err, framework, system_program}
use proof_of_thought.Program.State.{Pubkey}
use proof_of_thought.Program.Behaviour.Judgement.{PaysFrom}
use proof_of_thought.Program.Runtime.{
  Runtime, RuntimeLaws, Lamports, moved, IsSigner, Seeds, agent_seeds, vault_seeds, model_seeds,
  policy_seeds, vrf_seeds, thought_seeds, challenge_seeds, bond_seeds,
}

-- (2 x + 1) * 2 ^ n
unfoldable pub pair : ℕ → ℕ → ℕ
pair x zero = 2 * x + 1
pair x (suc n) = 2 * pair x n

pair_injective : (x y m n : ℕ) → pair x m ≡ pair y n → (x ≡ y) × (m ≡ n)
unfolding pair
pair_injective x y zero zero e = omega arith
pair_injective x y zero (suc n) e = absurd (omega arith)
pair_injective x y (suc m) zero e = absurd (omega arith)
pair_injective x y (suc m) (suc n) e = omega (arith, pair_injective x y m n (omega arith))

abbrev tag : Seeds → ℕ
tag (agent_seeds _) = 0
tag (vault_seeds _) = 1
tag (model_seeds _) = 2
tag (policy_seeds _) = 3
tag (vrf_seeds _ _) = 4
tag (thought_seeds _ _) = 5
tag (challenge_seeds _ _) = 6
tag (bond_seeds _) = 7

abbrev first : Seeds → ℕ
first (agent_seeds k) = k
first (vault_seeds k) = k
first (model_seeds k) = k
first (policy_seeds k) = k
first (vrf_seeds k _) = k
first (thought_seeds k _) = k
first (challenge_seeds k _) = k
first (bond_seeds k) = k

abbrev second : Seeds → ℕ
second (vrf_seeds _ n) = n
second (thought_seeds _ n) = n
second (challenge_seeds _ n) = n
second _ = 0

Seeds_of_parts : (s t : Seeds) → tag s ≡ tag t → first s ≡ first t → second s ≡ second t → s ≡ t
Seeds_of_parts s t e f g = ground arith

unfoldable pub address_with : Seeds → ℕ → Pubkey
address_with s b = 3 * pair (8 * pair (first s) (second s) + tag s) b + 1

tag-lt : (s : Seeds) → suc (tag s) ≤ 8
tag-lt s = ground arith

address_with_injective :
    (s t : Seeds) (b c k : ℕ)
    → some (address_with s b) ≡ some k
    → some (address_with t c) ≡ some k
    → s ≡ t
unfolding address_with
address_with_injective s t b c k e f =
    let x = 8 * pair (first s) (second s) + tag s in
    let y = 8 * pair (first t) (second t) + tag t in
    let whole : address_with s b ≡ address_with t c = cc in
    let (same, _) = pair_injective x y b c (omega arith) in
    let (same_first, same_second) =
      pair_injective (first s) (first t) (second s) (second t)
        (omega (arith, tag-lt s, tag-lt t)) in
    Seeds_of_parts s t (omega (arith, tag-lt s, tag-lt t)) same_first same_second

abbrev pub pay : Pubkey → Pubkey → ℕ → Lamports → Result Lamports
pay f t n l = if leb n (l f) then ok (moved f t n l) else err (framework (system_program 1))

abbrev pub platform : Runtime
platform = record {
  find_program_address = λ s. (address_with s 0, 0);
  create_program_address = λ s b. some (address_with s b);
  transfer = pay;
  create_account = λ p a space l. pay p a space l;
  governance = 15;
}

pub platform_laws : RuntimeLaws platform
platform_laws = record {
  find_creates = λ s. refl;
  create_injective = address_with_injective;
  transferred = λ f t n l l' k h. ground arith;
  transfer_fails = λ f t n l e h. ground arith;
  created = λ p a space l l' h ne. ground arith;
  created_others = λ p a space l l' k h n₁ n₂. ground arith;
}

-- A multiple of three is a wallet.
pub wallet : (n : ℕ) → IsSigner platform (3 * n)
unfolding address_with
wallet n s b e = let same : address_with s b ≡ 3 * n = cc in omega arith

-- Too few lamports are the one reason to refuse a transfer.
pub platform-PaysFrom : (from : Pubkey) → PaysFrom platform from
platform-PaysFrom from to n l covered = (moved from to n l, ground arith)
