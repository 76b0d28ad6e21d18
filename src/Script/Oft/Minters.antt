-- ===== src/Script/Oft/Minters.antt =====
-- Who may mint: the check of `additionalMinters` that createOFT.ts and setAuthority.ts share, and the multisig
-- of tasks/solana/multisig.ts that both create and check.
use solana_proxy.Prelude.{
  ℕ, ◌≡◌, refl, sym, ap, ◌∙◌, String, Bool, Option, none, some, List, [], ◌∷◌, map, Result, ok,
  throw, require, account_not_found, call_failed, only_oft_store_expected, All, get_elem?, ◌⊎◌,
}
use solana_proxy.Prelude
use solana_proxy.Script.Keys.{PublicKeys}
use solana_proxy.Script.Multisig.{Account, check_multisig_signers}
use solana_proxy.Script.Oft.{Cluster}
use solana_proxy.Script.Steps.{Step, ◌>>=◌, lift, answered}

module _ (k : PublicKeys) (cluster : Cluster k) where
  open k use {PublicKey, from_base58}
  open cluster use {
    World, token_program, token_2022_program, get_account_info, back_off, create_multisig,
  }

  -- `none` is a list that was not given.
  unfoldable pub additional_minters : Option (List String) → Bool → Result (List PublicKey)
  additional_minters none only_oft_store =
      Prelude.◌>>◌ (require only_oft_store only_oft_store_expected) (ok [])
  additional_minters (some minters) only_oft_store = ok (map from_base58 minters)

  unfoldable pub create_mint_authority_multisig :
      PublicKey → PublicKey → List PublicKey → Step World PublicKey
  create_mint_authority_multisig oft_store program additional w =
      answered call_failed (create_multisig (oft_store ∷ additional) 1 program w)

  unfoldable pub assert_account_initialized : PublicKey → Step World (Account k)
  assert_account_initialized key w = answered account_not_found (back_off (get_account_info key) w)

  -- checkMultisigSigners, from the account's address.
  unfoldable pub check_multisig : PublicKey → List PublicKey → Step World (List PublicKey)
  check_multisig multisig expected = do
    account ← assert_account_initialized multisig
    lift (check_multisig_signers k token_program token_2022_program account expected)

  unfoldable pub new_mint_authority : PublicKey → PublicKey → List PublicKey → Step World PublicKey
  new_mint_authority oft_store program additional = do
    mint_authority ← create_mint_authority_multisig oft_store program additional
    _ ← check_multisig mint_authority (oft_store ∷ additional)
    lift (ok mint_authority)
