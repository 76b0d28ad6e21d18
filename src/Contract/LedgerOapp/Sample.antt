-- ===== src/Contract/LedgerOapp/Sample.antt =====
-- A contract, a message, and callees: an endpoint that asks one unit for each unit of gas, and a manager
-- that counts.
use solana_proxy.Prelude.{ℕ, ◌+◌, false, [], ◌∷◌, replicate}
use solana_proxy.Bytes.{Bytes}
use solana_proxy.Contract.Revert.{returned}
use solana_proxy.Contract.LedgerOapp.{LzOptions, OccLedgerMessage, LedgerOapp, Callees}

abbrev head_of : Bytes → ℕ
head_of [] = 0
head_of (b ∷ bs) = b

abbrev pub sample_callees : Callees
sample_callees = record {
  World = ℕ;
  solana_eid = λ world. 30168;
  eid_to_chain_id = λ world eid. 902;
  ledger_oapp_receive = λ m world. returned (world + 1);
  lz_receive_option = λ gas value. gas ∷ value ∷ [];
  quote = λ eid message options world.
      returned (record { native_fee = head_of options; lz_token_fee = 0 });
  lz_send = λ eid message options value refund world. returned (world + value);
}

abbrev no_options : LzOptions
no_options = record { gas = 0; value = 0 }

abbrev pub gas_set : ℕ → LzOptions
gas_set t = record { gas = 300; value = 0 }

abbrev pub gas_unset : ℕ → LzOptions
gas_unset t = no_options

abbrev pub sample_contract : LedgerOapp
sample_contract = record {
  owner = 1;
  paused = false;
  occ_manager_addr = 2;
  payload_type_to_lz_options = gas_set;
  balance = 50;
}

abbrev pub sample_message : OccLedgerMessage
sample_message = record {
  dst_chain_id = 902;
  token = 2;
  token_amount = 7;
  receiver = replicate 32 9;
  payload_type = 14;
  payload = [];
}
