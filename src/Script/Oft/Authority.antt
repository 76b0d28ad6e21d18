-- ===== src/Script/Oft/Authority.antt =====
-- lz:oft:solana:setauthority of tasks/solana/setAuthority.ts.
pub mod Laws
use solana_proxy.Prelude.{
  ℕ, String, Bool, Option, none, some, List, [], ◌∷◌, Result, ok, or_throw, call_failed,
  private_key_missing, no_mint_authority, no_freeze_authority,
}
use solana_proxy.Script.Keys.{PublicKeys}
use solana_proxy.Script.Constants.Lz.{EndpointIds}
use solana_proxy.Script.Oft.{
  Cluster, MintInfo, AuthorityType, mint_tokens, freeze_account, set_authority,
}
use solana_proxy.Script.Steps.{Step, ◌>>=◌, ◌>>◌, lift, query}
use solana_proxy.Script.Oft.ComputeUnits.{submit}
use solana_proxy.Script.Oft.Minters.{additional_minters, new_mint_authority}

-- `SetAuthorityTaskArgs`
pub record SetAuthorityArgs : Type 0 where
  pub eid : ℕ
  pub escrow : String
  pub mint : String
  pub program_id : String
  pub token_program : String
  pub additional_minters : Option (List String)
  pub only_oft_store : Bool
  pub price_scale : ℕ

module _ (k : PublicKeys) where
  unfoldable pub current_authority : AuthorityType → MintInfo k → Result k.PublicKey
  current_authority mint_tokens info = or_throw no_mint_authority info.mint_authority
  current_authority freeze_account info = or_throw no_freeze_authority info.freeze_authority

module _ (ids : EndpointIds) (k : PublicKeys) (cluster : Cluster k) where
  open k use {PublicKey, from_base58}
  open cluster use {World, wallet, oft_store, get_mint}

  -- One round of the loop. The instruction is for the first token program, whatever the argument says.
  unfoldable pub change_authority :
      ℕ → ℕ → PublicKey → PublicKey → PublicKey → AuthorityType → Step World (Unit {0})
  change_authority eid price_scale program mint new_mint_authority authority_type = do
    info ← query (λ w. or_throw call_failed (get_mint program mint w))
    current ← lift (current_authority k authority_type info)
    submit ids k cluster eid price_scale
        (set_authority cluster.token_program mint current authority_type new_mint_authority ∷ [])

  -- `for (const authorityType of …)`
  unfoldable pub change_authorities :
      ℕ → ℕ → PublicKey → PublicKey → PublicKey → List AuthorityType → Step World (Unit {0})
  change_authorities eid price_scale program mint new_mint_authority [] = lift (ok tt)
  change_authorities eid price_scale program mint new_mint_authority
        (authority_type ∷ authority_types) =
      change_authority eid price_scale program mint new_mint_authority authority_type
      >> change_authorities eid price_scale program mint new_mint_authority authority_types

  unfoldable pub set_authorities : SetAuthorityArgs → Step World (Unit {0})
  set_authorities args = do
    _ ← lift (or_throw private_key_missing wallet)
    additional ← lift (additional_minters k cluster args.additional_minters args.only_oft_store)
    new_authority ←
        new_mint_authority k cluster
          (oft_store (from_base58 args.program_id) (from_base58 args.escrow))
          (from_base58 args.token_program) additional
    change_authorities args.eid args.price_scale (from_base58 args.token_program)
        (from_base58 args.mint) new_authority (mint_tokens ∷ freeze_account ∷ [])
