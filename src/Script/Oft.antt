-- ===== src/Script/Oft.antt =====
-- The tasks of tasks/solana that create the OFT's token and set its authorities: what they submit, and what
-- they ask. The calls of @solana/web3.js, @solana/spl-token, umi and the OFT SDK are parameters.
pub mod ComputeUnits
pub mod Minters
pub mod Authority
pub mod Create
pub mod Laws
pub mod Sample
mod Tests
use solana_proxy.Prelude.{ℕ, String, Bool, Option, List, [], ◌∷◌, map}
use solana_proxy.Script.Keys.{PublicKeys}
use solana_proxy.Script.Multisig.{Account}

-- `AuthorityType.MintTokens` and `AuthorityType.FreezeAccount`
pub data AuthorityType : Type 0 where
  mint_tokens freeze_account : AuthorityType

-- `OFTType.Native` and `OFTType.Adapter`
pub data OftType : Type 0 where
  native adapter : OftType

module _ (k : PublicKeys) where
  open k use {PublicKey}

  pub record MintInfo : Type 0 where
    pub decimals : ℕ
    pub supply : ℕ
    pub mint_authority : Option PublicKey
    pub freeze_authority : Option PublicKey

  -- `CreateV1InstructionArgs`
  pub record TokenArgs : Type 0 where
    pub mint : PublicKey
    pub name : String
    pub symbol : String
    pub decimals : ℕ
    pub uri : String
    pub is_mutable : Bool
    pub seller_fee_basis_points : ℕ
    pub authority : PublicKey

  pub record OftArgs : Type 0 where
    pub oft_type : OftType
    pub admin : PublicKey
    pub mint : PublicKey
    pub escrow : PublicKey
    pub shared_decimals : ℕ
    pub oft_program : PublicKey
    pub token_program : PublicKey

  -- A limit of compute units is in tenths of a unit: the tasks multiply by 1.1.
  pub data Instruction : Type 0 where
    set_compute_unit_price : ℕ → Instruction
    set_compute_unit_limit : ℕ → Instruction
    create_v1 : TokenArgs → Instruction
    mint_v1 : PublicKey → ℕ → PublicKey → Instruction
    init_oft : OftArgs → Instruction
    -- The token program, the mint, the authority, which one, and the new one.
    set_authority : PublicKey → PublicKey → PublicKey → AuthorityType → PublicKey → Instruction

  -- What the tasks call. `World` is what the chain keeps; `none` and `false` are calls that throw.
  pub record Cluster : Type 1 where
    pub World : Type 0
    pub token_program : PublicKey
    pub token_2022_program : PublicKey
    -- The key of SOLANA_PRIVATE_KEY.
    pub wallet : Option PublicKey
    -- `OftPDA.oftStore`, of a program and an escrow
    pub oft_store : PublicKey → PublicKey → PublicKey
    pub has_lookup_table : String → World → Bool
    pub recent_prioritization_fees : World → List ℕ
    pub simulation_compute_units : List Instruction → World → Option ℕ
    pub get_mint : PublicKey → PublicKey → World → Option MintInfo
    pub get_account_info : PublicKey → World → Option (Account k)
    -- `backOff`: it asks again while there is nothing, and time goes on.
    pub back_off : (World → Option (Account k)) → World → Option (Account k) × World
    -- `createMultisig`, with the signers, the number that is required, and the program
    pub create_multisig : List PublicKey → ℕ → PublicKey → World → Option PublicKey × World
    pub send_and_confirm : List Instruction → World → Bool × World
