-- ===== src/Script/Oft/Create/Task.antt =====
-- lz:oft:solana:create, step by step, with deriveKeys of tasks/solana/index.ts. The key pairs that it generates,
-- of the lock box and of the mint, are arguments.
use solana_proxy.Prelude.{ok, or_throw, if◌then◌else◌, private_key_missing}
use solana_proxy.Script.Keys.{PublicKeys}
use solana_proxy.Script.Constants.Lz.{EndpointIds}
use solana_proxy.Script.Oft.{Cluster}
use solana_proxy.Script.Steps.{Step, ◌>>=◌, ◌>>◌, lift}
use solana_proxy.Script.Oft.ComputeUnits.{submit}
use solana_proxy.Script.Oft.Minters.{
  additional_minters, assert_account_initialized, new_mint_authority,
}
use solana_proxy.Script.Oft.Create.{
  CreateOftArgs, is_maba, check_arguments, token_instructions, oft_instructions,
  authority_instructions,
}

module _ (ids : EndpointIds) (k : PublicKeys) (cluster : Cluster k) where
  open k use {PublicKey, from_base58}
  open cluster use {World, wallet, oft_store}

  abbrev pub mint_of : CreateOftArgs → PublicKey → PublicKey
  mint_of args generated = if is_maba args then from_base58 args.mint else generated

  -- `if (!isMABA) { … }`, before the OFT's store is made
  unfoldable pub create_token : CreateOftArgs → PublicKey → PublicKey → Step World (Unit {0})
  create_token args owner mint = if is_maba args then lift (ok tt) else (do
    submit ids k cluster args.eid args.price_scale (token_instructions k cluster args owner mint)
    _ ← assert_account_initialized k cluster mint
    lift (ok tt))

  -- `if (!isMABA) { … }`, after it
  unfoldable pub pass_authorities :
      CreateOftArgs → PublicKey → PublicKey → PublicKey → Step World (Unit {0})
  pass_authorities args owner mint mint_authority =
      if is_maba args
      then lift (ok tt)
      else submit ids k cluster args.eid args.price_scale
          (authority_instructions k cluster owner mint mint_authority)

  unfoldable pub create_oft : CreateOftArgs → PublicKey → PublicKey → Step World (Unit {0})
  create_oft args lock_box generated = do
    lift (check_arguments k cluster args)
    owner ← lift (or_throw private_key_missing wallet)
    additional ← lift (additional_minters k cluster args.additional_minters args.only_oft_store)
    mint_authority ←
        new_mint_authority k cluster (oft_store (from_base58 args.program_id) lock_box)
          (from_base58 args.token_program) additional
    create_token args owner (mint_of args generated)
    submit ids k cluster args.eid args.price_scale
        (oft_instructions k cluster args owner (mint_of args generated) lock_box)
    pass_authorities args owner (mint_of args generated) mint_authority
