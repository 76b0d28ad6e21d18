-- ===== src/System/Tests.antt =====
-- A withdrawal and a payment on their whole way, at the samples of the components.
use solana_proxy.Prelude.{
  ℕ, suc, ◌*◌, ◌≡◌, ◌≢◌, ◌≤◌, refl, false, [], ◌∷◌, ok, Option, none, some, replicate, arith, ltb,
  ◌==◌, if◌then◌else◌, length, ◌+◌,
}
use solana_proxy.Bytes.{be_bytes}
use solana_proxy.Script.Number.{nat}
use solana_proxy.Script.Amounts.{decimal}
use solana_proxy.Script.Amounts.Exact.{integers, integers-IsExact}
use solana_proxy.Script.Payload.{withdraw_order, number, prepare_request}
use solana_proxy.Script.Payload.Acceptance.{unit_of}
use solana_proxy.Program.Outcome.{done, failed, ◌>>=◌, ◌>>◌, insufficient_messaging_fee}
use solana_proxy.Program.Payload.{
  payload_from_u8, check_request_payload_type, contract_check_ledger_payload_type,
}
use solana_proxy.Program.Request.{
  Accounts, Invoked, MessagingFee, SendParams, quote_request, send_request, quote_backward_fee,
  pay_backward_fee,
}
use solana_proxy.Program.Request.Laws.{sent_as_quoted}
use solana_proxy.Program.Admin.{State, ProxyConfig, PeerConfig, default_peer}
use solana_proxy.Program.Receive.{LzReceiveParams, Solana, lz_receive_types}
use solana_proxy.Program.Receive.{lz_receive as program_receive}
use solana_proxy.Program.Receive.Laws.{paid}
use solana_proxy.Contract.Revert.{returned}
use solana_proxy.Contract.LedgerOapp.{Fees, encoded, lz_receive, ledger_oapp_send, with_default_gas}
use solana_proxy.Contract.LedgerOapp.Laws.{sent_options}
use solana_proxy.Contract.LedgerOapp.Sample.{sample_callees, sample_contract, sample_message}
use solana_proxy.System.Requests.{request_of, quoted_for, asked, prepare_request-lz_receive}
use solana_proxy.System.Payments.{ledger_oapp_send-lz_receive}

number_ne_zero : (n : ℕ) → suc n ≢ 0
number_ne_zero n h = omega (arith, h)

abbrev cpi : Invoked
cpi = record {
  Receipt = SendParams;
  quote = λ params. done (record { native_fee = 100; lz_token_fee = 0 });
  send = λ params. done params;
  transfer = λ amount. done tt;
}

abbrev accounts : Accounts
accounts = record {
  user = replicate 32 7;
  proxy_config = replicate 32 8;
  paused = false;
  orderly_eid = 40200;
  peer_address = replicate 32 9;
  enforced_options = record { send = 0 ∷ 3 ∷ []; send_and_call = [] };
  backward_fee = record { order_backward_fee = 11; usdc_backward_fee = 12 };
}

prepare_request-lz_receive_example :
    let units = 3 * unit_of withdraw_order in
    let quoted = quoted_for cpi sample_callees accounts withdraw_order units in
    (prepare_request integers (number (nat 4)) "3" ≡ ok (withdraw_order, be_bytes 32 units))
    × (endpoint_fee : MessagingFee) × (cpi.quote quoted ≡ done endpoint_fee)
    × (send_request cpi accounts
          (request_of cpi sample_callees withdraw_order units)
          (record { native_fee = 111; lz_token_fee = 0 })
        ≡ (if ltb 0 endpoint_fee.native_fee
            then (cpi.send (sent_as_quoted cpi quoted endpoint_fee.native_fee) >>= λ receipt.
                pay_backward_fee cpi (quote_backward_fee 4 accounts.backward_fee) >> done receipt)
            else failed insufficient_messaging_fee))
    × (lz_receive sample_callees 30168 quoted.message sample_contract 0
        ≡ sample_callees.ledger_oapp_receive
            (asked cpi sample_callees accounts withdraw_order units 0)
            0)
unfolding quote_request quote_backward_fee payload_from_u8 check_request_payload_type decimal
prepare_request-lz_receive_example =
    prepare_request-lz_receive cpi sample_callees integers withdraw_order "3" 3 accounts
      (record { native_fee = 111; lz_token_fee = 0 }) sample_contract 0 integers-IsExact refl refl
      (omega arith) refl refl refl (number_ne_zero 901)

abbrev solana : Solana
solana = record {
  Chain = ℕ;
  program_id = 70;
  token_program = 71;
  associated_token_program = 72;
  system_program = 73;
  event_seed = 95 ∷ [];
  clear_min_accounts_len = 1;
  find_program_address = λ seeds. 50 + length seeds;
  get_associated_token_address = λ owner mint. owner + mint;
  get_accounts_for_clear = λ endpoint oapp eid sender nonce.
      record { pubkey = endpoint; is_signer = false; is_writable = false } ∷ [];
  init_token_account = λ payer owner mint chain. done chain;
  clear = λ endpoint oapp accounts params chain. done chain;
  transfer = λ giver taker authority amount chain. done (chain + amount);
}

abbrev config : ProxyConfig
config = record {
  endpoint_program = 4;
  usdc_token_account = 600;
  admin = 5;
  orderly_eid = 40200;
  sol_chain_id = 901;
  paused = false;
}

abbrev peer_of : ℕ → Option PeerConfig
peer_of eid = if eid == 40200 then some default_peer else none

abbrev state : State
state = record {
  config = some config;
  backward_fee = none;
  peer_config = peer_of;
  config_lamports = 10;
  delegate = 5;
}

abbrev params : LzReceiveParams
params = record {
  src_eid = 40200;
  sender = replicate 32 0;
  nonce = 1;
  guid = [];
  message = encoded sample_message;
}

ledger_oapp_send-lz_receive_example :
    (◌≡◌ {A = ℕ} 2 sample_contract.occ_manager_addr)
    × (fee : Fees) × (sample_callees.quote 30168
          (encoded sample_message)
          (sent_options sample_callees sample_message sample_contract)
          0
        ≡ returned fee)
    × (fee.native_fee ≤ 300)
    × (sample_callees.lz_send 30168
          (encoded sample_message)
          (sent_options sample_callees sample_message sample_contract)
          300
          2
          0
        ≡ returned 300)
    × ((lz_receive_types solana config params 8 >>= λ accounts.
          program_receive solana state params accounts 100)
        ≡ paid solana config params 8 (replicate 32 9) 7 100)
unfolding ledger_oapp_send with_default_gas contract_check_ledger_payload_type
ledger_oapp_send-lz_receive_example =
    ledger_oapp_send-lz_receive sample_callees solana 2 300 sample_message sample_contract 0 300
      state config default_peer params 8 100 refl refl refl refl refl refl refl refl (omega arith)
      (omega arith)
