-- ===== src/Program/Receive/Safety.antt =====
-- What a message that lz_receive takes has been checked for, whatever accounts it comes with.
use solana_proxy.Prelude.{ℕ, ◌≡◌, sym, ap, ◌∙◌, false, not, ◌&&◌, some, List, [], ◌∷◌, ◌==◌}
use solana_proxy.Bytes.{Bytes, read_be}
use solana_proxy.Program.Outcome.{
  done, >>=-eq-done, require-eq-done, panicked, account_missing, account_refused, proxy_paused,
  invalid_sender, invalid_receiver, invalid_usdc_account, invalid_ledger_payload_type,
  invalid_ledger_token_type,
}
use solana_proxy.Program.Payload.{
  usdc, claim_usdc_revenue_backward, check_ledger_payload_type, check_ledger_token_type,
}
use solana_proxy.Program.Codec.{
  LedgerMessage, slice, get_receiver, decode_ledger_message, get_usdc_amount,
}
use solana_proxy.Program.Admin.{State, ProxyConfig, PeerConfig}
use solana_proxy.Program.Receive.{
  LzReceiveParams, LzAccount, Solana, Accounts, load, or_failed, same_bytes, config_key, peer_key,
  check_accounts, accounts_for_clear, usdc_amount, apply, lz_receive,
}
use solana_proxy.Program.Receive.Checks.{
  of_eq, right_of, ap_2, unpaused, same_bytes-true, done_injective, or_failed-eq-done,
  ledger_payload_type, ledger_token_type,
}

module _ (solana : Solana) where
  open solana use {Chain, get_associated_token_address, init_token_account, clear, transfer}

  -- A message of the right kinds, with the 32 bytes of its amount.
  abbrev pub Pays : Bytes → ℕ → Type 0
  Pays bytes v =
      (message : LedgerMessage) × (amount_bytes : Bytes) × (decode_ledger_message bytes
        ≡ some message)
      × (message.payload_type ≡ claim_usdc_revenue_backward)
      × (message.token ≡ usdc)
      × (slice 0 32 message.payload ≡ some amount_bytes)
      × (get_usdc_amount amount_bytes ≡ v)

  usdc_amount-Pays : (bytes : Bytes) (v : ℕ) → usdc_amount solana bytes ≡ done v → Pays bytes v
  unfolding usdc_amount
  usdc_amount-Pays bytes v h =
      let (message, a, h1) = >>=-eq-done (or_failed panicked (decode_ledger_message bytes)) _ h in
      let (b, h2) =
        require-eq-done (check_ledger_payload_type message.payload_type) invalid_ledger_payload_type
          _ h1 in
      let (c, h3) =
        require-eq-done (check_ledger_token_type message.token) invalid_ledger_token_type _ h2 in
      let (amount_bytes, d, h4) =
        >>=-eq-done (or_failed panicked (slice 0 32 message.payload)) _ h3 in
      (
        message,
        amount_bytes,
        or_failed-eq-done _ _ a,
        ledger_payload_type _ b,
        ledger_token_type _ c,
        or_failed-eq-done _ _ d,
        done_injective h4,
      )

  -- What Anchor has checked of the accounts that `apply` uses.
  abbrev Checked : State → LzReceiveParams → Accounts → ProxyConfig → Type 0
  Checked state params accounts config =
      (peer : PeerConfig) × (receiver : Bytes) × (state.config ≡ some config)
      × (state.peer_config params.src_eid ≡ some peer)
      × (get_receiver params.message ≡ some receiver)
      × (accounts.proxy_config.pubkey ≡ config_key solana)
      × (peer.peer_address ≡ params.sender)
      × (config.usdc_token_account ≡ accounts.token_mint.pubkey)
      × (accounts.proxy_token_account.pubkey
          ≡ get_associated_token_address accounts.proxy_config.pubkey accounts.token_mint.pubkey)
      × (read_be receiver ≡ accounts.receiver.pubkey)
      × (accounts.receiver_token_account.pubkey
          ≡ get_associated_token_address accounts.receiver.pubkey accounts.token_mint.pubkey)

  check_accounts-Checked :
      (state : State) (params : LzReceiveParams) (accounts : Accounts) (config : ProxyConfig)
      → check_accounts solana state params accounts ≡ done config
      → Checked state params accounts config
  unfolding check_accounts
  check_accounts-Checked state params accounts config h =
      let (found, a, h1) = >>=-eq-done (or_failed account_missing state.config) _ h in
      let (peer, b, h2) =
        >>=-eq-done (or_failed account_missing (state.peer_config params.src_eid)) _ h1 in
      let (receiver, c, h3) = >>=-eq-done (or_failed panicked (get_receiver params.message)) _ h2 in
      let (_, h4) =
        require-eq-done (accounts.payer.is_signer && accounts.payer.is_writable) account_refused _
          h3 in
      let (d, h5) =
        require-eq-done (accounts.proxy_config.pubkey == config_key solana) account_refused _ h4 in
      let (_, h6) =
        require-eq-done (accounts.peer_config.pubkey == peer_key solana params.src_eid)
          account_refused _ h5 in
      let (e, h7) =
        require-eq-done (same_bytes peer.peer_address params.sender) invalid_sender _ h6 in
      let (f, h8) =
        require-eq-done (found.usdc_token_account == accounts.token_mint.pubkey)
          invalid_usdc_account _ h7 in
      let (g, h9) =
        require-eq-done
          (accounts.proxy_token_account.is_writable
            && (accounts.proxy_token_account.pubkey
                == get_associated_token_address accounts.proxy_config.pubkey
                    accounts.token_mint.pubkey))
          account_refused _ h8 in
      let (i, h10) =
        require-eq-done (read_be receiver == accounts.receiver.pubkey) invalid_receiver _ h9 in
      let (j, h11) =
        require-eq-done
          (accounts.receiver_token_account.is_writable
            && (accounts.receiver_token_account.pubkey
                == get_associated_token_address accounts.receiver.pubkey
                    accounts.token_mint.pubkey))
          account_refused _ h10 in
      let (_, h12) =
        require-eq-done (accounts.token_program.pubkey == solana.token_program) account_refused _
          h11 in
      let (_, h13) =
        require-eq-done
          (accounts.associated_token_program.pubkey == solana.associated_token_program)
          account_refused _ h12 in
      let (_, h14) =
        require-eq-done (accounts.system_program.pubkey == solana.system_program) account_refused _
          h13 in
      let (_, h15) =
        require-eq-done
          (accounts.event_authority.pubkey == solana.find_program_address (solana.event_seed ∷ []))
          account_refused _ h14 in
      let same : found ≡ config = done_injective h15 in
      (
        peer,
        receiver,
        or_failed-eq-done _ _ a ∙ ap some same,
        or_failed-eq-done _ _ b,
        or_failed-eq-done _ _ c,
        of_eq d,
        same_bytes-true _ _ e,
        ap ProxyConfig.usdc_token_account (sym same) ∙ of_eq f,
        of_eq (right_of accounts.proxy_token_account.is_writable g),
        of_eq i,
        of_eq (right_of accounts.receiver_token_account.is_writable j),
      )

  -- Whenever lz_receive succeeds, whoever called it and with whatever accounts, the proxy is not paused,
  -- the message comes from the peer of its source, it reads as a payment of USDC by the ledger, and all
  -- that has happened is that the token account of the receiver named in the message was made if need
  -- be, the endpoint cleared the message for the proxy, and the amount read from the message was moved
  -- from the proxy's token account for the configured mint to the receiver's.
  pub lz_receive-eq-done :
      (state : State) (params : LzReceiveParams) (passed : List LzAccount) (before after : Chain)
      → lz_receive solana state params passed before ≡ done after
      → (config : ProxyConfig) × (peer : PeerConfig) × (receiver : Bytes) × (v : ℕ) × (payer : ℕ)
        × (for_clear : List LzAccount) × (ready : Chain) × (cleared : Chain) × (state.config
            ≡ some config)
        × (config.paused ≡ false)
        × (state.peer_config params.src_eid ≡ some peer)
        × (peer.peer_address ≡ params.sender)
        × (get_receiver params.message ≡ some receiver)
        × Pays params.message v
        × (init_token_account payer (read_be receiver) config.usdc_token_account before
            ≡ done ready)
        × (clear config.endpoint_program (config_key solana) for_clear params ready ≡ done cleared)
        × (transfer
              (get_associated_token_address (config_key solana) config.usdc_token_account)
              (get_associated_token_address (read_be receiver) config.usdc_token_account)
              (config_key solana)
              v
              cleared
            ≡ done after)
  unfolding lz_receive apply
  lz_receive-eq-done state params passed before after h =
      let (accounts, _, h1) = >>=-eq-done (load passed) _ h in
      let (config, checked, h2) = >>=-eq-done (check_accounts solana state params accounts) _ h1 in
      let (ready, made, h3) =
        >>=-eq-done
          (init_token_account accounts.payer.pubkey accounts.receiver.pubkey
            accounts.token_mint.pubkey before)
          _ h2 in
      let (open_for_all, h4) = require-eq-done (not config.paused) proxy_paused _ h3 in
      let (for_clear, _, h5) =
        >>=-eq-done (accounts_for_clear solana accounts.remaining_accounts) _ h4 in
      let (cleared, clearing, h6) =
        >>=-eq-done
          (clear config.endpoint_program accounts.proxy_config.pubkey for_clear params ready) _
          h5 in
      let (v, amount, h7) = >>=-eq-done (usdc_amount solana params.message) _ h6 in
      let (peer, receiver, c, p, r, key, sender, mint, from, to, dest) =
        check_accounts-Checked state params accounts config checked in
      let source = ap_2 get_associated_token_address (sym key) mint ∙ sym from in
      let target = ap_2 get_associated_token_address to mint ∙ sym dest in
      (
        config,
        peer,
        receiver,
        v,
        accounts.payer.pubkey,
        for_clear,
        ready,
        cleared,
        c,
        unpaused config.paused open_for_all,
        p,
        sender,
        r,
        usdc_amount-Pays params.message v amount,
        ap_2 (λ owner token. init_token_account accounts.payer.pubkey owner token before) to mint
            ∙ made,
        ap (λ oapp. clear config.endpoint_program oapp for_clear params ready) (sym key) ∙ clearing,
        ap_2 (λ giver taker. transfer giver taker (config_key solana) v cleared) source target
            ∙ (ap
                  (λ authority.
                    transfer accounts.proxy_token_account.pubkey
                      accounts.receiver_token_account.pubkey authority v cleared)
                  (sym key)
                ∙ h7),
      )
