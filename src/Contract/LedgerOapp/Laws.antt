-- ===== src/Contract/LedgerOapp/Laws.antt =====
-- What the contract hands on, in both directions, and what it asks for it.
use solana_proxy.Prelude.{
  ℕ, ◌≡◌, ◌≢◌, ◌<◌, ◌≤◌, refl, ap, ◌∙◌, Bool, true, false, not, ◌==◌, leb, length, if◌then◌else◌,
  arith,
}
use solana_proxy.Bytes.{Bytes}
use solana_proxy.Contract.Revert.{
  Call, reverted, returned, ◌>>=◌, ◌>>◌, require, >>=-eq-returned, require-eq-returned,
  only_occ_manager, invalid_ledger_payload_type, chain_id_not_set, eid_not_set, only_to_solana,
  only_usdc, insufficient_native_fee,
}
use solana_proxy.Program.Payload.{
  contract_check_vault_payload_type, contract_check_ledger_payload_type,
}
use solana_proxy.Program.Codec.{VaultMessage, encode_vault_message}
use solana_proxy.Program.Codec.Laws.{decode-encode_vault_message}
use solana_proxy.Contract.LedgerOapp.{
  LzOptions, OccVaultMessage, OccLedgerMessage, Fees, LedgerOapp, Callees, encoded,
  with_default_gas, lz_receive, option_bytes, ledger_oapp_send, ledger_oapp_send_quote,
}

of_eq : {m n : ℕ} → (m == n) ≡ true → m ≡ n
of_eq h = ground (arith, h)

eq_self : (n : ℕ) → (n == n) ≡ true
eq_self n = ground arith

of_ne : {m n : ℕ} → not (m == n) ≡ true → m ≢ n
of_ne h = λ e. ground (arith, h, e)

ne_zero : (n : ℕ) → n ≢ 0 → (n == 0) ≡ false
ne_zero n h = ground (arith, h)

module _ (callees : Callees) where
  open callees use {
    World, solana_eid, eid_to_chain_id, ledger_oapp_receive, lz_receive_option, quote, lz_send,
  }

  abbrev pub chain_of : World → ℕ
  chain_of world = eid_to_chain_id world (solana_eid world)

  -- What the manager gets of a message of the program.
  abbrev pub relayed : World → VaultMessage → OccVaultMessage
  relayed world m = record {
    chained_event_id = 0;
    src_chain_id = chain_of world;
    token = m.token;
    token_amount = 0;
    sender = m.sender;
    payload_type = m.payload_type;
    payload = m.payload;
  }

  pub lz_receive-encode_vault_message :
      (m : VaultMessage) (c : LedgerOapp) (world : World)
      → m.token < 4
      → length m.sender ≡ 32
      → m.payload_type < 256
      → contract_check_vault_payload_type m.payload_type ≡ true
      → c.paused ≡ false
      → chain_of world ≢ 0
      → lz_receive callees (solana_eid world) (encode_vault_message m) c world
        ≡ ledger_oapp_receive (relayed world m) world
  unfolding lz_receive
  lz_receive-encode_vault_message m c world t s p allowed running known =
      rw (decode-encode_vault_message m t s p)
        (rw (running, eq_self (solana_eid world), allowed, ne_zero (chain_of world) known) refl)

  -- The conditions that `ledgerOappSend` puts on a message, besides the fee.
  pub record IsSendable (msg_sender : ℕ) (m : OccLedgerMessage) (c : LedgerOapp) (world : World)
      : Type 0 where
    pub by_manager : msg_sender ≡ c.occ_manager_addr
    pub eid_set : solana_eid world ≢ 0
    pub chain_id_set : chain_of world ≢ 0
    pub type_allowed : contract_check_ledger_payload_type m.payload_type ≡ true
    pub to_solana : m.dst_chain_id ≡ chain_of world
    pub of_usdc : m.token ≡ 2

  -- The options that a message goes with.
  abbrev pub sent_options : OccLedgerMessage → LedgerOapp → Bytes
  sent_options m c =
      option_bytes callees (with_default_gas (c.payload_type_to_lz_options m.payload_type))

  -- A message that was sent met every condition, and was handed to the endpoint for the fee that the
  -- endpoint quotes for exactly that message and those options.
  pub ledger_oapp_send-eq-returned :
      (msg_sender msg_value : ℕ) (m : OccLedgerMessage) (c : LedgerOapp) (world after : World)
      → ledger_oapp_send callees msg_sender msg_value m c world ≡ returned after
      → IsSendable msg_sender m c world
        × (fee : Fees) × (quote (solana_eid world) (encoded m) (sent_options m c) world
            ≡ returned fee)
        × (fee.native_fee ≤ msg_value)
        × (lz_send (solana_eid world) (encoded m) (sent_options m c) msg_value msg_sender world
            ≡ returned after)
  unfolding ledger_oapp_send
  ledger_oapp_send-eq-returned msg_sender msg_value m c world after h =
      let (a, h1) = require-eq-returned (msg_sender == c.occ_manager_addr) only_occ_manager _ h in
      let (b, h2) = require-eq-returned (not (solana_eid world == 0)) eid_not_set _ h1 in
      let (d, h3) = require-eq-returned (not (chain_of world == 0)) chain_id_not_set _ h2 in
      let (e, h4) =
        require-eq-returned (contract_check_ledger_payload_type m.payload_type)
          invalid_ledger_payload_type _ h3 in
      let (f, h5) = require-eq-returned (m.dst_chain_id == chain_of world) only_to_solana _ h4 in
      let (g, h6) = require-eq-returned (m.token == 2) only_usdc _ h5 in
      let (fee, quoted, h7) =
        >>=-eq-returned (quote (solana_eid world) (encoded m) (sent_options m c) world) _ h6 in
      let (enough, h8) =
        require-eq-returned (leb fee.native_fee msg_value) insufficient_native_fee _ h7 in
      (
        record {
          by_manager = of_eq a;
          eid_set = of_ne b;
          chain_id_set = of_ne d;
          type_allowed = e;
          to_solana = of_eq f;
          of_usdc = of_eq g;
        },
        fee,
        quoted,
        ground (arith, enough),
        h8,
      )

  ledger_oapp_send-IsSendable :
      (msg_sender msg_value : ℕ) (m : OccLedgerMessage) (c : LedgerOapp) (world : World)
      → IsSendable msg_sender m c world
      → ledger_oapp_send callees msg_sender msg_value m c world ≡ (
          quote (solana_eid world) (encoded m) (sent_options m c) world >>= λ fee.
          require (leb fee.native_fee msg_value) insufficient_native_fee
          >> lz_send (solana_eid world) (encoded m) (sent_options m c) msg_value msg_sender world)
  unfolding ledger_oapp_send
  ledger_oapp_send-IsSendable msg_sender msg_value m c world ok =
      let a : (msg_sender == c.occ_manager_addr) ≡ true = ground (arith, ok.by_manager) in
      let f : (m.dst_chain_id == chain_of world) ≡ true = ground (arith, ok.to_solana) in
      let g : (m.token == 2) ≡ true = ground (arith, ok.of_usdc) in
      rw
        (
          a,
          ne_zero (solana_eid world) ok.eid_set,
          ne_zero (chain_of world) ok.chain_id_set,
          ok.type_allowed,
          f,
          g,
        )
        refl

  with_default_gas_set :
      (options : LzOptions) → options.gas ≢ 0 → with_default_gas options ≡ options
  unfolding with_default_gas
  with_default_gas_set options h = rw (ne_zero options.gas h) refl

  -- Where gas is set for the payload type of a message that meets the conditions, and the contract quotes
  -- a fee for it, the message goes to the endpoint exactly when at least that fee is paid; with less the
  -- contract refuses it.
  pub ledger_oapp_send_quote-ledger_oapp_send :
      (msg_sender msg_value : ℕ) (m : OccLedgerMessage) (c : LedgerOapp) (world : World)
      (fee : Fees)
      → IsSendable msg_sender m c world
      → (c.payload_type_to_lz_options m.payload_type).gas ≢ 0
      → ledger_oapp_send_quote callees m c world ≡ returned fee
      → ledger_oapp_send callees msg_sender msg_value m c world ≡ (
          if leb fee.native_fee msg_value
          then lz_send
              (solana_eid world)
              (encoded m)
              (option_bytes callees (c.payload_type_to_lz_options m.payload_type))
              msg_value
              msg_sender
              world
          else reverted insufficient_native_fee)
  unfolding ledger_oapp_send_quote
  ledger_oapp_send_quote-ledger_oapp_send msg_sender msg_value m c world fee ok set quoted =
      let same = with_default_gas_set (c.payload_type_to_lz_options m.payload_type) set in
      let stored = option_bytes callees (c.payload_type_to_lz_options m.payload_type) in
      ledger_oapp_send-IsSendable msg_sender msg_value m c world ok
      ∙ ap
          (λ o. quote (solana_eid world) (encoded m) (option_bytes callees o) world >>= λ fee.
            require (leb fee.native_fee msg_value) insufficient_native_fee
            >> lz_send (solana_eid world) (encoded m) (option_bytes callees o) msg_value msg_sender
                world)
          same
      ∙ ap
          (λ q. q >>= λ (fee : Fees).
            require (leb fee.native_fee msg_value) insufficient_native_fee
            >> lz_send (solana_eid world) (encoded m) stored msg_value msg_sender world)
          quoted
      ∙ by_test (leb fee.native_fee msg_value) _
    where
      by_test :
          (b : Bool) (next : Call World)
          → (require b insufficient_native_fee >> next)
            ≡ (if b then next else reverted insufficient_native_fee)
      by_test true next = refl
      by_test false next = refl
