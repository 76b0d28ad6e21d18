-- ===== src/Program/Receive/Laws.antt =====
-- What lz_receive does with the accounts that lz_receive_types announces, and with any others.
use solana_proxy.Prelude.{
  ℕ, ◌≡◌, ◌<◌, ◌≤◌, ◌^◌, refl, sym, subst, true, false, some, List, [], ◌∷◌, ◌++◌, length, take,
  take-append_length, append-nil, ◌%◌, leb, ◌==◌, arith,
}
use solana_proxy.Bytes.{Bytes, be_bytes, read_be}
use solana_proxy.Bytes.Laws.{length-be_bytes}
use solana_proxy.Program.Outcome.{Outcome, done, failed, ◌>>=◌}
use solana_proxy.Program.Payload.{
  usdc, claim_usdc_revenue_backward, token_code, payload_code, check_ledger_payload_type,
  check_ledger_token_type,
}
use solana_proxy.Program.Codec.{slice, get_receiver, encode_ledger_message}
use solana_proxy.Program.Codec.Laws.{
  get_receiver-encode_ledger_message, decode-encode_ledger_message, get_usdc_amount-be_bytes,
}
use solana_proxy.Program.Admin.{State, ProxyConfig, PeerConfig}
use solana_proxy.Program.Receive.{
  LzReceiveParams, LzAccount, Solana, Accounts, load, same_bytes, config_key, peer_key,
  check_accounts, usdc_amount, apply, lz_receive, lz_receive_types,
}

>>=-ext {κ μ} :
    {Value : Type κ} {Next : Type μ} (first : Outcome Value) {f g : Value → Outcome Next}
    → ((value : Value) → f value ≡ g value)
    → first >>= f ≡ first >>= g
>>=-ext (failed error) h = refl
>>=-ext (done value) h = h value

eq_self : (n : ℕ) → (n == n) ≡ true
eq_self n = ground arith

same_bytes_refl : (b : Bytes) → same_bytes b b ≡ true
same_bytes_refl [] = refl
same_bytes_refl (b ∷ bs) = rw (eq_self b) (same_bytes_refl bs)

slice-whole : (m : Bytes) → length m ≡ 32 → slice 0 32 m ≡ some m
unfolding slice
slice-whole m h =
    let inside : leb 32 (length m) ≡ true = ground (arith, h) in
    let whole : take 32 m ≡ m =
      subst (λ l. take 32 l ≡ m) (append-nil m)
        (subst (λ n. take n (m ++ []) ≡ m) h (take-append_length m [])) in
    rw (inside, whole) refl

module _ (solana : Solana) where
  open solana use {
    Chain, get_associated_token_address, get_accounts_for_clear, init_token_account, clear,
    transfer,
  }

  -- The contract's message of `v` to `receiver`.
  abbrev pub payment : ℕ → Bytes → Bytes
  payment v receiver =
      encode_ledger_message (token_code usdc) receiver (payload_code claim_usdc_revenue_backward)
        (be_bytes 32 v)

  usdc_amount-payment :
      (v : ℕ) (receiver : Bytes)
      → length receiver ≡ 32
      → v < 2 ^ 64
      → usdc_amount solana (payment v receiver) ≡ done v
  unfolding usdc_amount check_ledger_payload_type check_ledger_token_type
  usdc_amount-payment v receiver h k =
      let exact : v % 2 ^ 64 ≡ v = omega arith in
      rw
        (
          decode-encode_ledger_message usdc receiver claim_usdc_revenue_backward (be_bytes 32 v) h,
          slice-whole (be_bytes 32 v) (length-be_bytes 32 v),
          get_usdc_amount-be_bytes v,
          exact,
        )
        refl

  -- The announced accounts, as the fields of `LzReceive`.
  abbrev announced : ProxyConfig → LzReceiveParams → ℕ → Bytes → Accounts
  announced config params executor receiver = record {
    payer = record { pubkey = executor; is_signer = true; is_writable = true };
    proxy_config = record { pubkey = config_key solana; is_signer = false; is_writable = false };
    peer_config = record {
      pubkey = peer_key solana config.orderly_eid;
      is_signer = false;
      is_writable = false;
    };
    token_mint = record {
      pubkey = config.usdc_token_account;
      is_signer = false;
      is_writable = false;
    };
    proxy_token_account = record {
      pubkey = get_associated_token_address (config_key solana) config.usdc_token_account;
      is_signer = false;
      is_writable = true;
    };
    receiver = record { pubkey = read_be receiver; is_signer = false; is_writable = false };
    receiver_token_account = record {
      pubkey = get_associated_token_address (read_be receiver) config.usdc_token_account;
      is_signer = false;
      is_writable = true;
    };
    token_program = record {
      pubkey = solana.token_program;
      is_signer = false;
      is_writable = false;
    };
    associated_token_program = record {
      pubkey = solana.associated_token_program;
      is_signer = false;
      is_writable = false;
    };
    system_program = record {
      pubkey = solana.system_program;
      is_signer = false;
      is_writable = false;
    };
    event_authority = record {
      pubkey = solana.find_program_address (solana.event_seed ∷ []);
      is_signer = false;
      is_writable = false;
    };
    program = record { pubkey = solana.program_id; is_signer = false; is_writable = false };
    remaining_accounts =
        get_accounts_for_clear config.endpoint_program (config_key solana) params.src_eid
          params.sender params.nonce;
  }

  load-lz_receive_types :
      (config : ProxyConfig) (params : LzReceiveParams) (executor : ℕ) (receiver : Bytes)
      → get_receiver params.message ≡ some receiver
      → (lz_receive_types solana config params executor >>= load)
        ≡ done (announced config params executor receiver)
  unfolding lz_receive_types load
  load-lz_receive_types config params executor receiver h = rw h refl

  check_accounts-announced :
      (state : State) (config : ProxyConfig) (peer : PeerConfig) (params : LzReceiveParams)
      (executor : ℕ) (receiver : Bytes)
      → state.config ≡ some config
      → state.peer_config params.src_eid ≡ some peer
      → peer.peer_address ≡ params.sender
      → params.src_eid ≡ config.orderly_eid
      → get_receiver params.message ≡ some receiver
      → check_accounts solana state params (announced config params executor receiver) ≡ done config
  unfolding check_accounts
  check_accounts-announced state config peer params executor receiver h k same eid r =
      rw (h, k, r, same, same_bytes_refl params.sender, eid)
        (rw
          (
            eq_self (config_key solana),
            eq_self (peer_key solana config.orderly_eid),
            eq_self config.usdc_token_account,
            eq_self (get_associated_token_address (config_key solana) config.usdc_token_account),
            eq_self (read_be receiver),
            eq_self (get_associated_token_address (read_be receiver) config.usdc_token_account),
            eq_self solana.token_program,
            eq_self solana.associated_token_program,
            eq_self solana.system_program,
            eq_self (solana.find_program_address (solana.event_seed ∷ [])),
          )
          refl)

  -- The accounts that the executor passes on to the endpoint.
  abbrev pub clear_accounts : ProxyConfig → LzReceiveParams → List LzAccount
  clear_accounts config params =
      get_accounts_for_clear config.endpoint_program (config_key solana) params.src_eid
        params.sender params.nonce

  -- The payment of `v` to the receiver's token account: after the account is there, the message is
  -- cleared at the endpoint, and the tokens move out of the proxy's account.
  abbrev pub paid : ProxyConfig → LzReceiveParams → ℕ → Bytes → ℕ → Chain → Outcome Chain
  paid config params executor receiver v chain =
      init_token_account executor (read_be receiver) config.usdc_token_account chain >>= λ ready.
      clear config.endpoint_program (config_key solana)
        (take solana.clear_min_accounts_len (clear_accounts config params)) params ready
      >>= λ cleared.
          transfer (get_associated_token_address (config_key solana) config.usdc_token_account)
            (get_associated_token_address (read_be receiver) config.usdc_token_account)
            (config_key solana) v cleared

  apply-announced :
      (config : ProxyConfig) (params : LzReceiveParams) (executor v : ℕ) (receiver : Bytes)
      (ready : Chain)
      → config.paused ≡ false
      → usdc_amount solana params.message ≡ done v
      → solana.clear_min_accounts_len ≤ length (clear_accounts config params)
      → apply solana config params (announced config params executor receiver) ready ≡ (
          clear config.endpoint_program
            (config_key solana)
            (take solana.clear_min_accounts_len (clear_accounts config params))
            params
            ready
          >>= transfer
              (get_associated_token_address (config_key solana) config.usdc_token_account)
              (get_associated_token_address (read_be receiver) config.usdc_token_account)
              (config_key solana)
              v)
  unfolding apply
  apply-announced config params executor v receiver ready p a l =
      let enough : leb solana.clear_min_accounts_len (length (clear_accounts config params))
          ≡ true =
        ground (arith, l) in
      rw (p, enough, a) refl

  -- On a proxy that is not paused and that knows the sender of a message as its peer for Orderly's eid, a
  -- message of the contract that pays `v`, a u64, to a receiver of 32 bytes is executed with the accounts
  -- that lz_receive_types announces, provided that there are enough of them for the endpoint: the
  -- receiver's token account is made if need be, the message is cleared, and exactly `v` goes from the
  -- proxy's token account to the receiver's.
  pub lz_receive_types-lz_receive :
      (state : State) (config : ProxyConfig) (peer : PeerConfig) (params : LzReceiveParams)
      (executor v : ℕ) (receiver : Bytes) (chain : Chain)
      → state.config ≡ some config
      → config.paused ≡ false
      → state.peer_config params.src_eid ≡ some peer
      → peer.peer_address ≡ params.sender
      → params.src_eid ≡ config.orderly_eid
      → length receiver ≡ 32
      → v < 2 ^ 64
      → params.message ≡ payment v receiver
      → solana.clear_min_accounts_len ≤ length (clear_accounts config params)
      → (lz_receive_types solana config params executor >>= λ accounts.
          lz_receive solana state params accounts chain)
        ≡ paid config params executor receiver v chain
  unfolding lz_receive_types load lz_receive
  lz_receive_types-lz_receive state config peer params executor v receiver chain h p k same eid r b
        m l =
      let found : get_receiver params.message ≡ some receiver =
        subst (λ s. get_receiver s ≡ some receiver) (sym m)
          (get_receiver-encode_ledger_message _ receiver _ _ r) in
      let amount : usdc_amount solana params.message ≡ done v =
        subst (λ s. usdc_amount solana s ≡ done v) (sym m) (usdc_amount-payment v receiver r b) in
      let rest : Chain → Outcome Chain =
        λ ready. apply solana config params (announced config params executor receiver) ready in
      rw found (
        rw (check_accounts-announced state config peer params executor receiver h k same eid found)
          (>>=-ext (init_token_account executor (read_be receiver) config.usdc_token_account chain)
            (λ ready. apply-announced config params executor v receiver ready p amount l)))
