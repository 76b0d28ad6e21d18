-- ===== src/Script/Oft/Tests.antt =====
-- Runs of the two tasks on the sample chain.
use solana_proxy.Prelude.{
  ℕ, ◌≡◌, ◌≤◌, refl, true, false, Option, some, none, List, [], ◌∷◌, ok, throw,
  only_oft_store_expected, too_few_local_decimals, no_freeze_authority,
}
use solana_proxy.Script.Number.{codes}
use solana_proxy.Script.Sorting.Texts.{same_text, numbers}
use solana_proxy.Script.Fees.{
  get_prioritization_fees, average, sum_from, non_zero_fees, median_of, median_at,
}
use solana_proxy.Script.Sorting.{sort, insert}
use solana_proxy.Script.Keys.Sample.{sample_keys, sample_keys-IsLawful}
use solana_proxy.Script.Multisig.{
  check_multisig_signers, signers_from, signer_at, buffer_slice, expect_signers, is_found,
}
use solana_proxy.Script.Oft.{MintInfo, mint_tokens, freeze_account}
use solana_proxy.Script.Oft.Sample.{sample_ids, sample_cluster, sample_cluster-KeepsItsWord}
use solana_proxy.Script.Oft.ComputeUnits.{
  submit, add_compute_unit_instructions, get_address_lookup_table, get_compute_unit_price_and_limit,
  lookup_table_address,
}
use solana_proxy.Script.Oft.Minters.{
  additional_minters, new_mint_authority, check_multisig, create_mint_authority_multisig,
  assert_account_initialized,
}
use solana_proxy.Script.Oft.Laws.{IsOneOf}
use solana_proxy.Script.Oft.Authority.{
  SetAuthorityArgs, set_authorities, change_authorities, change_authority, current_authority,
}
use solana_proxy.Script.Oft.Authority.Laws.{
  set_authorities-eq-ok, change_authorities-without_freeze,
}
use solana_proxy.Script.Oft.Create.{CreateOftArgs, check_arguments}
use solana_proxy.Script.Oft.Create.Task.{create_oft, create_token, pass_authorities}
use solana_proxy.Script.Oft.Create.Laws.{create_oft-eq-ok}

abbrev mint_owned_by : Option ℕ → Option ℕ → MintInfo sample_keys
mint_owned_by minting freezing = record {
  decimals = 9;
  supply = 5;
  mint_authority = minting;
  freeze_authority = freezing;
}

abbrev set_args : SetAuthorityArgs
set_args = record {
  eid = 40168;
  escrow = "E";
  mint = "M";
  program_id = "P";
  token_program = "T";
  additional_minters = some ("X" ∷ []);
  only_oft_store = false;
  price_scale = 4;
}

run_set :
    set_authorities sample_ids sample_keys
      (sample_cluster 1)
      set_args
      (some (mint_owned_by (some 3) (some 3)))
    ≡ (ok tt, some (mint_owned_by (some 9) (some 9)))
unfolding set_authorities change_authorities change_authority current_authority additional_minters
    new_mint_authority check_multisig create_mint_authority_multisig assert_account_initialized
    submit add_compute_unit_instructions get_address_lookup_table get_compute_unit_price_and_limit
    lookup_table_address get_prioritization_fees average sum_from non_zero_fees median_of median_at
    sort insert check_multisig_signers signers_from signer_at buffer_slice expect_signers is_found
    same_text numbers
run_set = refl

run_set_first :
    change_authority sample_ids sample_keys
      (sample_cluster 1)
      40168
      4
      1
      1
      9
      mint_tokens
      (some (mint_owned_by (some 3) none))
    ≡ (ok tt, some (mint_owned_by (some 9) none))
unfolding change_authority current_authority submit add_compute_unit_instructions
    get_address_lookup_table get_compute_unit_price_and_limit lookup_table_address
    get_prioritization_fees average sum_from non_zero_fees median_of median_at sort insert numbers
run_set_first = refl

run_set_without_minters :
    set_authorities sample_ids sample_keys
      (sample_cluster 1)
      (record set_args { additional_minters = none })
      none
    ≡ (throw only_oft_store_expected, none)
unfolding set_authorities additional_minters
run_set_without_minters = refl

set_authorities-eq-ok_example :
    (minters : List ℕ) × (authority : ℕ) × (info : MintInfo sample_keys) × (additional_minters
        sample_keys
        (sample_cluster 1)
        (some ("X" ∷ []))
        false
      ≡ ok minters)
    × (some (mint_owned_by (some 9) (some 9)) ≡ some info)
    × (info.mint_authority ≡ some authority)
    × (info.freeze_authority ≡ some authority)
    × IsOneOf sample_keys sample_keys-IsLawful (sample_cluster 1) authority (7 ∷ minters)
set_authorities-eq-ok_example =
    set_authorities-eq-ok sample_ids sample_keys sample_keys-IsLawful (sample_cluster 1)
      (sample_cluster-KeepsItsWord 1) set_args (some (mint_owned_by (some 3) (some 3)))
      (some (mint_owned_by (some 9) (some 9))) refl run_set

change_authorities-without_freeze_example :
    (change_authorities sample_ids sample_keys
        (sample_cluster 1)
        40168
        4
        1
        1
        9
        (mint_tokens ∷ freeze_account ∷ [])
        (some (mint_owned_by (some 3) none))
      ≡ (throw no_freeze_authority, some (mint_owned_by (some 9) none)))
    × (some (mint_owned_by (some 9) none) ≡ some (mint_owned_by (some 9) none))
change_authorities-without_freeze_example =
    change_authorities-without_freeze sample_ids sample_keys sample_keys-IsLawful (sample_cluster 1)
      (sample_cluster-KeepsItsWord 1) 40168 4 1 9 (some (mint_owned_by (some 3) none))
      (some (mint_owned_by (some 9) none)) (mint_owned_by (some 3) none) refl refl run_set_first

abbrev create_args : CreateOftArgs
create_args = record {
  amount = some 5;
  eid = 40168;
  local_decimals = 9;
  shared_decimals = 6;
  mint = "";
  name = "Orderly Network";
  program_id = "P";
  seller_fee_basis_points = 0;
  symbol = "ORDER";
  token_metadata_is_mutable = true;
  additional_minters = some ("X" ∷ []);
  token_program = "A";
  only_oft_store = false;
  uri = "";
  price_scale = 4;
}

run_create : create_oft sample_ids sample_keys (sample_cluster 65) create_args 8 6 none ≡ (
  ok tt,
  some (record { decimals = 9; supply = 5; mint_authority = some 9; freeze_authority = some 9 }),
)
unfolding create_oft create_token pass_authorities check_arguments additional_minters
    new_mint_authority check_multisig create_mint_authority_multisig assert_account_initialized
    submit add_compute_unit_instructions get_address_lookup_table get_compute_unit_price_and_limit
    lookup_table_address get_prioritization_fees average sum_from non_zero_fees median_of median_at
    sort insert check_multisig_signers signers_from signer_at buffer_slice expect_signers is_found
    same_text numbers
run_create = refl

run_create_few_decimals :
    create_oft sample_ids sample_keys
      (sample_cluster 65)
      (record create_args { local_decimals = 5 })
      8
      6
      none
    ≡ (throw too_few_local_decimals, none)
unfolding create_oft check_arguments same_text
run_create_few_decimals = refl

create_oft-eq-ok_example :
    (codes "A" ≡ 65 ∷ [])
    × (6 ≤ 9)
    × (minters : List ℕ) × (authority : ℕ) × (info : MintInfo sample_keys) × (additional_minters
          sample_keys
          (sample_cluster 65)
          (some ("X" ∷ []))
          false
        ≡ ok minters)
    × (some (mint_owned_by (some 9) (some 9)) ≡ some info)
    × (info.mint_authority ≡ some authority)
    × (info.freeze_authority ≡ some authority)
    × IsOneOf sample_keys sample_keys-IsLawful (sample_cluster 65) authority (7 ∷ minters)
create_oft-eq-ok_example =
    create_oft-eq-ok sample_ids sample_keys sample_keys-IsLawful (sample_cluster 65)
      (sample_cluster-KeepsItsWord 65) create_args 8 6 none (some (mint_owned_by (some 9) (some 9)))
      refl run_create
