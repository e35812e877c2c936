-- ===== src/Program/Addresses.antt =====
-- The derived addresses and vaults, and lemmas that tell them apart.
use proof_of_thought.Prelude.{◌≡◌, ◌≢◌}
use proof_of_thought.Program.State.{Pubkey}
use proof_of_thought.Program.Runtime.{
  Runtime, RuntimeLaws, Seeds, vault_seeds, bond_seeds, IsSigner,
}

module _ (r : Runtime) where
  abbrev pub address : Seeds → Pubkey
  address s = (r.find_program_address s).0

  abbrev pub vault : Pubkey → Pubkey
  vault k = address (vault_seeds k)

  abbrev pub bond_vault : Pubkey → Pubkey
  bond_vault k = address (bond_seeds k)

module _ (r : Runtime) (laws : RuntimeLaws r) where
  pub address_injective : (s t : Seeds) → address r s ≡ address r t → s ≡ t
  address_injective s t e =
      laws.create_injective s t (r.find_program_address s).1 (r.find_program_address t).1
        (address r s) (laws.find_creates s) (cc (laws.find_creates t))

  pub vault_injective : (j k : Pubkey) → vault r j ≡ vault r k → j ≡ k
  vault_injective j k e = cc (address_injective (vault_seeds j) (vault_seeds k) e)

  pub bond_vault_injective : (j k : Pubkey) → bond_vault r j ≡ bond_vault r k → j ≡ k
  bond_vault_injective j k e = cc (address_injective (bond_seeds j) (bond_seeds k) e)

  pub vault-ne-bond_vault : (j k : Pubkey) → vault r j ≢ bond_vault r k
  vault-ne-bond_vault j k e = cc (address_injective (vault_seeds j) (bond_seeds k) e)

  pub signer-ne-address : (k : Pubkey) (s : Seeds) → IsSigner r k → k ≢ address r s
  signer-ne-address k s h e = h s (r.find_program_address s).1 (cc (laws.find_creates s))
