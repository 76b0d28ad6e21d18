-- ===== src/Script/Staking/Tests.antt =====
-- A stake on staging, at sample keys and an encoder that drops everything but the amount.
use solana_proxy.Prelude.{◌*◌, ◌^◌, pos, []}
use solana_proxy.Bytes.{Bytes, be_bytes}
use solana_proxy.Script.Constants.Lz.{EndpointIds}
use solana_proxy.Script.Amounts.Exact.{integers}
use solana_proxy.Script.Keys.Sample.{sample_keys}
use solana_proxy.Script.Pda.Sample.{sample_seeds}
use solana_proxy.Script.Staking.{VaultTuple, StakingSend}

abbrev ids : EndpointIds
ids = record {
  solana_v2_testnet = 40168;
  solana_v2_mainnet = 30168;
  orderly_v2_testnet = 40200;
  orderly_v2_mainnet = 30213;
}

abbrev encode : VaultTuple → Bytes
encode t = t.amount

abbrev sent : StakingSend integers sample_keys sample_seeds ids encode
sent = record {
  signer = 3;
  peer = 10;
  oft_store = "76XwEc7cdcrYpi7PNn5t9TxX3fUQiXjeqVN68GsBdcpk";
  token_escrow = "69q8xwVRgx6UgBmt3C2DayxEUyphKfYENHQyxZ6kMWg3";
  token_mint = "8bgqsYvAQQCjXyi9ePx4ZG9jVazwe2ptSiKZYYNsq4rY";
  program = "3LftFSsxKksyiPYZyJ68Y6VuWcRkVce3Zg5TxwLC6D1o";
  params = record {
    dst_eid = 40200;
    to = "0x45f3039A9A0eefcC8997e030d9F3cCBb1A7AC6C1";
    amount_ld = pos 70000000000;
    min_amount_ld = pos 70000000000;
    options = [];
    compose_msg = be_bytes 32 (7 * 10 ^ 18);
  };
  native_fee = "1";
}
