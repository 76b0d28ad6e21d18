-- ===== src/Script/Oft/Create.antt =====
-- lz:oft:solana:create of tasks/solana/createOFT.ts: its arguments, their check, and what it submits. "MABA" is a mint that is there already.
pub mod Task
pub mod Laws
use solana_proxy.Prelude.{
  ℕ, String, Bool, true, false, not, ◌&&◌, ◌||◌, Option, none, some, List, [], ◌∷◌, Result, ok,
  or_throw, require, str_eq, ◌==◌, ltb, if◌then◌else◌, private_key_missing, custom_token_program,
  minting_with_mint, too_few_local_decimals, ◌>>◌,
}
use solana_proxy.Script.Number.{codes}
use solana_proxy.Script.Sorting.Texts.{same_text}
use solana_proxy.Script.Keys.{PublicKeys}
use solana_proxy.Script.Oft.{
  Cluster, Instruction, OftType, native, mint_tokens, freeze_account, create_v1, mint_v1, init_oft,
  set_authority,
}

-- `CreateOFTTaskArgs`. A mint that is not given is an empty text.
pub record CreateOftArgs : Type 0 where
  pub amount : Option ℕ
  pub eid : ℕ
  pub local_decimals : ℕ
  pub shared_decimals : ℕ
  pub mint : String
  pub name : String
  pub program_id : String
  pub seller_fee_basis_points : ℕ
  pub symbol : String
  pub token_metadata_is_mutable : Bool
  pub additional_minters : Option (List String)
  pub token_program : String
  pub only_oft_store : Bool
  pub uri : String
  pub price_scale : ℕ

abbrev pub is_maba : CreateOftArgs → Bool
is_maba args = not (str_eq args.mint "")

-- `if (amount)`
abbrev pub has_amount : Option ℕ → Bool
has_amount none = false
has_amount (some amount) = not (amount == 0)

module _ (k : PublicKeys) (cluster : Cluster k) where
  open k use {PublicKey, to_base58}

  unfoldable pub check_arguments : CreateOftArgs → Result (Unit {0})
  check_arguments args = do
    require (same_text (codes args.token_program) (to_base58 cluster.token_program) || is_maba args)
        custom_token_program
    require (not (is_maba args && has_amount args.amount)) minting_with_mint
    require (not (ltb args.local_decimals args.shared_decimals)) too_few_local_decimals

  abbrev pub minted : PublicKey → PublicKey → Option ℕ → List (Instruction k)
  minted wallet mint none = []
  minted wallet mint (some amount) = if amount == 0 then [] else mint_v1 mint amount wallet ∷ []

  -- The transaction that creates the token, and mints the amount if there is one.
  abbrev pub token_instructions : CreateOftArgs → PublicKey → PublicKey → List (Instruction k)
  token_instructions args wallet mint =
      create_v1 (record {
        mint = mint;
        name = args.name;
        symbol = args.symbol;
        decimals = args.local_decimals;
        uri = args.uri;
        is_mutable = args.token_metadata_is_mutable;
        seller_fee_basis_points = args.seller_fee_basis_points;
        authority = wallet;
      })
      ∷ minted wallet mint args.amount

  abbrev pub oft_instructions :
      CreateOftArgs → PublicKey → PublicKey → PublicKey → List (Instruction k)
  oft_instructions args wallet mint lock_box =
      init_oft (record {
        oft_type = native;
        admin = wallet;
        mint = mint;
        escrow = lock_box;
        shared_decimals = args.shared_decimals;
        oft_program = k.from_base58 args.program_id;
        token_program = k.from_base58 args.token_program;
      })
      ∷ []

  abbrev pub authority_instructions : PublicKey → PublicKey → PublicKey → List (Instruction k)
  authority_instructions wallet mint mint_authority =
      set_authority cluster.token_program mint wallet mint_tokens mint_authority
      ∷ set_authority cluster.token_program mint wallet freeze_account mint_authority
      ∷ []
