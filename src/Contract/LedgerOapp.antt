-- ===== src/Contract/LedgerOapp.antt =====
-- contracts/LedgerOApp.sol: its owner's functions, `_lzReceive`, `ledgerOappSend` and
-- `ledgerOappSendQuote`. An address is a number. The OCC manager, and of LayerZero's contracts the option
-- builder, `_quote` and `_lzSend`, are parameters; ownership and the pause are two fields.
pub mod Laws
pub mod Sample
mod Tests
use solana_proxy.Prelude.{ℕ, Bool, true, false, not, Option, none, some, ◌==◌, leb, if◌then◌else◌}
use solana_proxy.Bytes.{Bytes, be_bytes}
use solana_proxy.Contract.Revert.{
  Call, Reason, reverted, returned, ◌>>=◌, ◌>>◌, require, only_owner, only_occ_manager, when_paused,
  invalid_ledger_payload_type, invalid_vault_payload_type, only_solana_supported, chain_id_not_set,
  eid_not_set, only_to_solana, only_usdc, insufficient_native_fee, malformed_message,
}
use solana_proxy.Program.Payload.{
  contract_check_vault_payload_type, contract_check_ledger_payload_type,
}
use solana_proxy.Program.Codec.{VaultMessage, decode_vault_message, encode_ledger_message}

pub record LzOptions : Type 0 where
  pub gas : ℕ
  pub value : ℕ

pub record OccVaultMessage : Type 0 where
  pub chained_event_id : ℕ
  pub src_chain_id : ℕ
  pub token : ℕ
  pub token_amount : ℕ
  pub sender : Bytes
  pub payload_type : ℕ
  pub payload : Bytes

pub record OccLedgerMessage : Type 0 where
  pub dst_chain_id : ℕ
  pub token : ℕ
  pub token_amount : ℕ
  pub receiver : Bytes
  pub payload_type : ℕ
  pub payload : Bytes

pub record Fees : Type 0 where
  pub native_fee : ℕ
  pub lz_token_fee : ℕ

-- What the contract keeps, with what it has of its bases.
pub record LedgerOapp : Type 0 where
  pub owner : ℕ
  pub paused : Bool
  pub occ_manager_addr : ℕ
  pub payload_type_to_lz_options : ℕ → LzOptions
  pub balance : ℕ

-- The views of the OCC manager, and the contracts that are called. `World` is what those keep.
pub record Callees : Type 1 where
  pub World : Type 0
  pub solana_eid : World → ℕ
  pub eid_to_chain_id : World → ℕ → ℕ
  pub ledger_oapp_receive : OccVaultMessage → World → Call World
  -- `newOptions().addExecutorLzReceiveOption(gas, value)`
  pub lz_receive_option : ℕ → ℕ → Bytes
  -- `_quote(eid, message, options, false)`
  pub quote : ℕ → Bytes → Bytes → World → Call Fees
  -- `_lzSend(eid, message, options, MessagingFee(value, 0), refund)`
  pub lz_send : ℕ → Bytes → Bytes → ℕ → ℕ → World → Call World

unfoldable pub set_occ_manager_addr : ℕ → ℕ → LedgerOapp → Call LedgerOapp
set_occ_manager_addr msg_sender occ_manager_addr c = do
  require (msg_sender == c.owner) only_owner
  returned (record c { occ_manager_addr = occ_manager_addr })

abbrev pub assign_options : ℕ → LzOptions → (ℕ → LzOptions) → ℕ → LzOptions
assign_options payload_type options map t = if t == payload_type then options else map t

unfoldable pub set_options : ℕ → ℕ → ℕ → ℕ → LedgerOapp → Call LedgerOapp
set_options msg_sender payload_type gas value c = do
  require (msg_sender == c.owner) only_owner
  require (contract_check_ledger_payload_type payload_type) invalid_ledger_payload_type
  returned (record c {
    payload_type_to_lz_options =
        assign_options payload_type (record { gas = gas; value = value })
          c.payload_type_to_lz_options;
  })

-- The contract, and what `to` is paid.
unfoldable pub withdraw_to : ℕ → LedgerOapp → Call (LedgerOapp × ℕ)
withdraw_to msg_sender c = do
  require (msg_sender == c.owner) only_owner
  returned (record c { balance = 0 }, c.balance)

-- The message that is encoded for Solana: `abi.encode` of an amount is its 32 bytes.
abbrev pub encoded : OccLedgerMessage → Bytes
encoded m = encode_ledger_message m.token m.receiver m.payload_type (be_bytes 32 m.token_amount)

-- `if (typeOptions.gas == 0) { typeOptions.gas = 500000; }`
unfoldable pub with_default_gas : LzOptions → LzOptions
with_default_gas options = if options.gas == 0 then record options { gas = 500000 } else options

abbrev or_reverted {ℓ} : {A : Type ℓ} → Reason → Option A → Call A
or_reverted reason none = reverted reason
or_reverted reason (some a) = returned a

module _ (callees : Callees) where
  open callees use {
    World, solana_eid, eid_to_chain_id, ledger_oapp_receive, lz_receive_option, quote, lz_send,
  }

  -- `_lzReceive`, of a message from `src_eid`
  unfoldable pub lz_receive : ℕ → Bytes → LedgerOapp → World → Call World
  lz_receive src_eid message c world = do
    require (not c.paused) when_paused
    require (src_eid == solana_eid world) only_solana_supported
    vault_message ← or_reverted malformed_message (decode_vault_message message)
    require (contract_check_vault_payload_type vault_message.payload_type)
        invalid_vault_payload_type
    require (not (eid_to_chain_id world (solana_eid world) == 0)) chain_id_not_set
    ledger_oapp_receive
        (record {
          chained_event_id = 0;
          src_chain_id = eid_to_chain_id world (solana_eid world);
          token = vault_message.token;
          token_amount = 0;
          sender = vault_message.sender;
          payload_type = vault_message.payload_type;
          payload = vault_message.payload;
        })
        world

  abbrev pub option_bytes : LzOptions → Bytes
  option_bytes options = lz_receive_option options.gas options.value

  -- `ledgerOappSend`, with `msg_value` paid to it
  unfoldable pub ledger_oapp_send : ℕ → ℕ → OccLedgerMessage → LedgerOapp → World → Call World
  ledger_oapp_send msg_sender msg_value m c world =
      let eid = solana_eid world in
      let chain_id = eid_to_chain_id world eid in
      let options = option_bytes (with_default_gas (c.payload_type_to_lz_options m.payload_type)) in
      do
        require (msg_sender == c.occ_manager_addr) only_occ_manager
        require (not (eid == 0)) eid_not_set
        require (not (chain_id == 0)) chain_id_not_set
        require (contract_check_ledger_payload_type m.payload_type) invalid_ledger_payload_type
        require (m.dst_chain_id == chain_id) only_to_solana
        require (m.token == 2) only_usdc
        msg_fee ← quote eid (encoded m) options world
        require (leb msg_fee.native_fee msg_value) insufficient_native_fee
        lz_send eid (encoded m) options msg_value msg_sender world

  unfoldable pub ledger_oapp_send_quote : OccLedgerMessage → LedgerOapp → World → Call Fees
  ledger_oapp_send_quote m c world =
      quote (solana_eid world) (encoded m)
        (option_bytes (c.payload_type_to_lz_options m.payload_type)) world
