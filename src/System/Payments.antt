-- ===== src/System/Payments.antt =====
-- A payment on its whole way: from the OCC manager through the contract to the receiver's token account.
use solana_proxy.Prelude.{ℕ, ◌^◌, ◌<◌, ◌≤◌, ◌≡◌, ap, ◌∙◌, false, some, arith, length}
use solana_proxy.Bytes.{be_bytes}
use solana_proxy.Program.Outcome.{◌>>=◌}
use solana_proxy.Program.Payload.{contract_check_ledger_payload_type}
use solana_proxy.Program.Codec.{encode_ledger_message}
use solana_proxy.Program.Admin.{State, ProxyConfig, PeerConfig}
use solana_proxy.Program.Receive.{LzReceiveParams, Solana, lz_receive_types}
use solana_proxy.Program.Receive.{lz_receive as program_receive}
use solana_proxy.Program.Receive.Laws.{lz_receive_types-lz_receive, paid, payment, clear_accounts}
use solana_proxy.Contract.Revert.{returned}
use solana_proxy.Contract.LedgerOapp.{
  OccLedgerMessage, Fees, LedgerOapp, Callees, encoded, ledger_oapp_send,
}
use solana_proxy.Contract.LedgerOapp.Laws.{IsSendable, sent_options, ledger_oapp_send-eq-returned}

module _ (callees : Callees) (solana : Solana) where
  encoded-payment :
      (msg_sender : ℕ) (m : OccLedgerMessage) (c : LedgerOapp) (world : callees.World)
      → IsSendable callees msg_sender m c world
      → encoded m ≡ payment solana m.token_amount m.receiver
  unfolding contract_check_ledger_payload_type
  encoded-payment msg_sender m c world ok =
      let a : m.token ≡ 2 = ok.of_usdc in
      let b : m.payload_type ≡ 14 = ground (arith, ok.type_allowed) in
      ap (λ t. encode_ledger_message t m.receiver m.payload_type (be_bytes 32 m.token_amount)) a
      ∙ ap (λ p. encode_ledger_message 2 m.receiver p (be_bytes 32 m.token_amount)) b

  -- Whenever ledgerOappSend succeeds, the manager has sent it, and the endpoint got one message, with at
  -- least the fee that it quotes for it. Of that message, wherever the program gets it from its peer for
  -- Orderly's eid while it is not paused, with enough accounts for the endpoint, lz_receive with the
  -- accounts that lz_receive_types announces moves exactly the amount, if that is a u64, from the
  -- proxy's token account to that of the receiver, a key of 32 bytes.
  pub ledger_oapp_send-lz_receive :
      (msg_sender msg_value : ℕ) (m : OccLedgerMessage) (c : LedgerOapp)
      (world after : callees.World) (state : State) (config : ProxyConfig) (peer : PeerConfig)
      (params : LzReceiveParams) (executor : ℕ) (chain : solana.Chain)
      → ledger_oapp_send callees msg_sender msg_value m c world ≡ returned after
      → state.config ≡ some config
      → config.paused ≡ false
      → state.peer_config params.src_eid ≡ some peer
      → peer.peer_address ≡ params.sender
      → params.src_eid ≡ config.orderly_eid
      → params.message ≡ encoded m
      → length m.receiver ≡ 32
      → m.token_amount < 2 ^ 64
      → solana.clear_min_accounts_len ≤ length (clear_accounts solana config params)
      → (msg_sender ≡ c.occ_manager_addr)
        × (fee : Fees) × (callees.quote
              (callees.solana_eid world)
              (encoded m)
              (sent_options callees m c)
              world
            ≡ returned fee)
        × (fee.native_fee ≤ msg_value)
        × (callees.lz_send
              (callees.solana_eid world)
              (encoded m)
              (sent_options callees m c)
              msg_value
              msg_sender
              world
            ≡ returned after)
        × ((lz_receive_types solana config params executor >>= λ accounts.
              program_receive solana state params accounts chain)
            ≡ paid solana config params executor m.receiver m.token_amount chain)
  ledger_oapp_send-lz_receive msg_sender msg_value m c world after state config peer params executor
        chain sent h p k same eid message r b l =
      let (ok, fee, quoted, enough, handed) =
        ledger_oapp_send-eq-returned callees msg_sender msg_value m c world after sent in
      (
        ok.by_manager,
        fee,
        quoted,
        enough,
        handed,
        lz_receive_types-lz_receive solana state config peer params executor m.token_amount
            m.receiver chain h p k same eid r b (message ∙ encoded-payment msg_sender m c world ok)
            l,
      )
