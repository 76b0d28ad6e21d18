-- ===== src/Contract/LedgerOapp/Tests.antt =====
-- Runs of the sample contract.
use solana_proxy.Prelude.{ℕ, suc, ◌≡◌, ◌≢◌, refl, arith, leb, if◌then◌else◌}
use solana_proxy.Contract.Revert.{
  reverted, returned, insufficient_native_fee, only_owner, invalid_ledger_payload_type,
}
use solana_proxy.Program.Payload.{contract_check_ledger_payload_type}
use solana_proxy.Contract.LedgerOapp.{
  set_options, withdraw_to, encoded, ledger_oapp_send, ledger_oapp_send_quote, with_default_gas,
  option_bytes,
}
use solana_proxy.Contract.LedgerOapp.Sample.{
  sample_callees, sample_contract, sample_message, gas_set, gas_unset,
}
use solana_proxy.Contract.LedgerOapp.Laws.{ledger_oapp_send_quote-ledger_oapp_send, IsSendable}

-- Before the owner has set gas, the quote is for no gas, and what it names is not enough.
run_unset_quote :
    ledger_oapp_send_quote sample_callees sample_message
      (record sample_contract { payload_type_to_lz_options = gas_unset })
      0
    ≡ returned (record { native_fee = 0; lz_token_fee = 0 })
unfolding ledger_oapp_send_quote
run_unset_quote = refl

run_unset_send :
    ledger_oapp_send sample_callees 2 0 sample_message
      (record sample_contract { payload_type_to_lz_options = gas_unset })
      0
    ≡ reverted insufficient_native_fee
unfolding ledger_oapp_send with_default_gas contract_check_ledger_payload_type
run_unset_send = refl

run_stranger : set_options 5 14 300 0 sample_contract ≡ reverted only_owner
unfolding set_options
run_stranger = refl

run_wrong_type : set_options 1 4 300 0 sample_contract ≡ reverted invalid_ledger_payload_type
unfolding set_options contract_check_ledger_payload_type
run_wrong_type = refl

run_withdraw : withdraw_to 1 sample_contract ≡ returned (record sample_contract { balance = 0 }, 50)
unfolding withdraw_to
run_withdraw = refl

number_ne_zero : (n : ℕ) → suc n ≢ 0
number_ne_zero n h = omega (arith, h)

sample-IsSendable : IsSendable sample_callees 2 sample_message sample_contract 0
unfolding contract_check_ledger_payload_type
sample-IsSendable = record {
  by_manager = refl;
  eid_set = number_ne_zero 30167;
  chain_id_set = number_ne_zero 901;
  type_allowed = refl;
  to_solana = refl;
  of_usdc = refl;
}

ledger_oapp_send_quote-ledger_oapp_send_example :
    ledger_oapp_send sample_callees 2 300 sample_message sample_contract 0 ≡ (
      if leb 300 300
      then sample_callees.lz_send 30168
          (encoded sample_message)
          (option_bytes sample_callees (gas_set 14))
          300
          2
          0
      else reverted insufficient_native_fee)
unfolding ledger_oapp_send_quote
ledger_oapp_send_quote-ledger_oapp_send_example =
    ledger_oapp_send_quote-ledger_oapp_send sample_callees 2 300 sample_message sample_contract 0
      (record { native_fee = 300; lz_token_fee = 0 }) sample-IsSendable (number_ne_zero 299) refl
