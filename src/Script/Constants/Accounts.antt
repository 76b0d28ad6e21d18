-- ===== src/Script/Constants/Accounts.antt =====
-- The account tables of tasks/proxy/constants.ts. A key is its base-58 text, an EVM address its
-- hexadecimal text (`addressToBytes32` pads it to 32 bytes); `none` is a property that an
-- environment's entry does not have.
use solana_proxy.Prelude.{Option, none, some, List, [], ◌∷◌, String}

abbrev dev_usdc_mint : String
dev_usdc_mint = "4zMMC9srt5Ri5X14GAgXhaHii3GnPAEERYPJgZJDncDU"

abbrev main_usdc_mint : String
main_usdc_mint = "EPjFWdd5AufqSSqeM2qN1xzybapC8G4wEGGkZwyTDt1v"

pub record ProxyAccounts : Type 0 where
  pub program_id : String
  pub config_pda : String
  pub usdc_mint : String
  pub multisig : Option String
  pub oft_store : Option String

pub record OftAccounts : Type 0 where
  pub program_id : String
  pub mint : String
  pub mint_authority : String
  pub escrow : String
  pub oft_store : Option String
  pub multisig : Option String
  pub ledger_occ_manger : String
  pub evm_oft_address : String
  pub alt : String

pub record LedgerOappAccounts : Type 0 where
  pub proxy : String
  pub impl : String
  pub multisig : String

abbrev pub proxy_accounts : List (String × ProxyAccounts)
proxy_accounts =
    (
      "local",
      record {
        program_id = "DATLWKEWMR3weq4VxN28e16T31aDL5ENvR49w3unjahv";
        config_pda = "v6RzpFC2veBhP9iZEPYvxDCDBLAqTCnhu5NV4GMkeuc";
        usdc_mint = dev_usdc_mint;
        multisig = some "AbQgW1N8JAZxQFdh3VTx3ukGdGCN1vQYADktp3d2HDYw";
        oft_store = none;
      },
    )
    ∷ (
      "dev",
      record {
        program_id = "DATLWKEWMR3weq4VxN28e16T31aDL5ENvR49w3unjahv";
        config_pda = "v6RzpFC2veBhP9iZEPYvxDCDBLAqTCnhu5NV4GMkeuc";
        usdc_mint = dev_usdc_mint;
        multisig = some "AbQgW1N8JAZxQFdh3VTx3ukGdGCN1vQYADktp3d2HDYw";
        oft_store = none;
      },
    )
    ∷ (
      "qa",
      record {
        program_id = "2HH2MwVZKqizwQ8DV4CAibLiTqQtkR7SmHDLPimut6rV";
        config_pda = "HY978ZaHEjjyCnhfjt2yStBTNtQHtqCsAJ9pYrBvcuUU";
        usdc_mint = dev_usdc_mint;
        multisig = some "2WG7UG81NsutAzKDpJp6ZepEisMKrXS9XvMVPhsfqtuB";
        oft_store = none;
      },
    )
    ∷ (
      "staging",
      record {
        program_id = "Dwnm7RyRY9mYLwqZbwfc54qKqziapBL39XHgZexJmnAq";
        config_pda = "HY978ZaHEjjyCnhfjt2yStBTNtQHtqCsAJ9pYrBvcuUU";
        usdc_mint = dev_usdc_mint;
        multisig = none;
        oft_store = some "2CTq4P25faaymcqMCCwHzdiyvbUJShtPS74qDRZwYX6J";
      },
    )
    ∷ (
      "mainnet",
      record {
        program_id = "Dwnm7RyRY9mYLwqZbwfc54qKqziapBL39XHgZexJmnAq";
        config_pda = "HY978ZaHEjjyCnhfjt2yStBTNtQHtqCsAJ9pYrBvcuUU";
        usdc_mint = main_usdc_mint;
        multisig = some "6aQHPsgaSxCGwf1uAVetEmzuz9bpv9Rn4bq9jTg91RH8";
        oft_store = none;
      },
    )
    ∷ []

abbrev pub oft_accounts : List (String × OftAccounts)
oft_accounts =
    (
      "local",
      record {
        program_id = "Cz7PQf471Pg3MiHKbKSTTZD5am2ZjJ93bon3gPThyH6v";
        mint = "DW7MkwAmEUV72vQNi8dCu9rzeqaBrR8AtxyVaj2rXBxT";
        mint_authority = "6oRZ8usrt5gfARp2HB8yq2A1qUZft9UkGaP3kWRvj77F";
        escrow = "BsePJupeGSfvi919fg5pvvxGY5Y1uZS7x7uFyzMaYJuP";
        oft_store = some "6oRZ8usrt5gfARp2HB8yq2A1qUZft9UkGaP3kWRvj77F";
        multisig = none;
        ledger_occ_manger = "0xb846DF606b592B9646db03aE2568951651D9D5BC";
        evm_oft_address = "0xe2eB2df1CA9D90c8501049bAEEEf57f111782903";
        alt = "9JLjAcaHGwJXqk8HFJtgvu5qWnWqcNhq59m7tW1XN9Ab";
      },
    )
    ∷ (
      "dev",
      record {
        program_id = "Cz7PQf471Pg3MiHKbKSTTZD5am2ZjJ93bon3gPThyH6v";
        mint = "DW7MkwAmEUV72vQNi8dCu9rzeqaBrR8AtxyVaj2rXBxT";
        mint_authority = "6oRZ8usrt5gfARp2HB8yq2A1qUZft9UkGaP3kWRvj77F";
        escrow = "BsePJupeGSfvi919fg5pvvxGY5Y1uZS7x7uFyzMaYJuP";
        oft_store = some "6oRZ8usrt5gfARp2HB8yq2A1qUZft9UkGaP3kWRvj77F";
        multisig = none;
        ledger_occ_manger = "0xb846DF606b592B9646db03aE2568951651D9D5BC";
        evm_oft_address = "0xe2eB2df1CA9D90c8501049bAEEEf57f111782903";
        alt = "9JLjAcaHGwJXqk8HFJtgvu5qWnWqcNhq59m7tW1XN9Ab";
      },
    )
    ∷ (
      "qa",
      record {
        program_id = "B2BBh7JdvdsmzuG7b4dedeBjSMfmiS91z6gQS3DhRLns";
        mint = "HJzi8SG3NtDx3vyuw3Gaq1jdCEYDqiWCyCrVKHCqKW2H";
        mint_authority = "2CTq4P25faaymcqMCCwHzdiyvbUJShtPS74qDRZwYX6J";
        escrow = "85FsyjiLqfyZciG1s3ERzsc47LuxQiEnoUfcnV9urAYZ";
        oft_store = none;
        multisig = none;
        ledger_occ_manger = "0xD14bEE159B4a8E918f0A43EBf2F801eea93BeD53";
        evm_oft_address = "0x562874e9fcb02Ae6164781EcFb4AeAa169E99B18";
        alt = "HdLTw2ASK3GBqpUxTyW6bnAVBb4JkBomuGZQFeDnVFxm";
      },
    )
    ∷ (
      "staging",
      record {
        program_id = "3LftFSsxKksyiPYZyJ68Y6VuWcRkVce3Zg5TxwLC6D1o";
        mint = "8bgqsYvAQQCjXyi9ePx4ZG9jVazwe2ptSiKZYYNsq4rY";
        mint_authority = "76XwEc7cdcrYpi7PNn5t9TxX3fUQiXjeqVN68GsBdcpk";
        escrow = "69q8xwVRgx6UgBmt3C2DayxEUyphKfYENHQyxZ6kMWg3";
        oft_store = some "76XwEc7cdcrYpi7PNn5t9TxX3fUQiXjeqVN68GsBdcpk";
        multisig = some "48usEusxMDBxpjLkyrarHupqodAfxXyoaLDVNDJFvkME";
        ledger_occ_manger = "0x45f3039A9A0eefcC8997e030d9F3cCBb1A7AC6C1";
        evm_oft_address = "0x5f11B4510BC50EfB82Fb55D7839a46e9b621f8C2";
        alt = "HdLTw2ASK3GBqpUxTyW6bnAVBb4JkBomuGZQFeDnVFxm";
      },
    )
    ∷ (
      "mainnet",
      record {
        program_id = "GZGX6QfUo62VbPyYqPZS6t27Uke1dJmoAP6V3rw6ntTH";
        mint = "ABt79MkRXUsoHuV2CVQT32YMXQhTparKFjmidQxgiQ6E";
        mint_authority = "Efvf2QfcPAJc8XCd1MV1MN1JLNDZRKj2ZbJ3xg6pAf7";
        escrow = "7PGWT8rti8jpRiySA9pfG3fiReW5Go8jQp3UWXc5SrSk";
        oft_store = some "Efvf2QfcPAJc8XCd1MV1MN1JLNDZRKj2ZbJ3xg6pAf7";
        multisig = none;
        ledger_occ_manger = "0x68835941c7C300bFEF44D1D68b83798791901eB8";
        evm_oft_address = "0x4E200fE2f3eFb977d5fd9c430A41531FB04d97B8";
        alt = "HdLTw2ASK3GBqpUxTyW6bnAVBb4JkBomuGZQFeDnVFxm";
      },
    )
    ∷ []

abbrev pub ledger_oapp_accounts : List (String × LedgerOappAccounts)
ledger_oapp_accounts =
    (
      "local",
      record {
        proxy = "0xdD733F92F99A584bD46F37f3558034B4268B5EB8";
        impl = "0x4DFF7A3746b7bd934123715a2E9F5FC669E1Ae7e";
        multisig = "0xF2BC568E4bD0F7437C77FA982F4b51786086872a";
      },
    )
    ∷ (
      "dev",
      record {
        proxy = "0xdD733F92F99A584bD46F37f3558034B4268B5EB8";
        impl = "0x4DFF7A3746b7bd934123715a2E9F5FC669E1Ae7e";
        multisig = "0xF2BC568E4bD0F7437C77FA982F4b51786086872a";
      },
    )
    ∷ (
      "qa",
      record {
        proxy = "0xF2BC568E4bD0F7437C77FA982F4b51786086872a";
        impl = "0x5E01a54187DD679119B6562C0c897916B7CAD47f";
        multisig = "0xF2BC568E4bD0F7437C77FA982F4b51786086872a";
      },
    )
    ∷ (
      "staging",
      record {
        proxy = "0xF2BC568E4bD0F7437C77FA982F4b51786086872a";
        impl = "0x5E01a54187DD679119B6562C0c897916B7CAD47f";
        multisig = "0xF2BC568E4bD0F7437C77FA982F4b51786086872a";
      },
    )
    ∷ (
      "mainnet",
      record {
        proxy = "0xF2BC568E4bD0F7437C77FA982F4b51786086872a";
        impl = "0x5E01a54187DD679119B6562C0c897916B7CAD47f";
        multisig = "0xF2BC568E4bD0F7437C77FA982F4b51786086872a";
      },
    )
    ∷ []
