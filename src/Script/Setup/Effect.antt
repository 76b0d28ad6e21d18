-- ===== src/Script/Setup/Effect.antt =====
-- What the instructions of one task after the other do to the program's accounts.
use solana_proxy.Prelude.{
  ℕ, ◌≡◌, refl, sym, ap, ◌∙◌, subst, String, Bool, true, false, none, some, List, [], ◌∷◌, ok, ◌==◌,
  if◌then◌else◌, ◌-◌, ◌+◌, arith, includes-All,
}
use solana_proxy.Bytes.{Bytes}
use solana_proxy.Script.Constants.Networks.{LzOptions, environments}
use solana_proxy.Script.Environment.{
  check_env, get_usdc_mint, get_ledger_oapp_address, get_orderly_eid, get_solana_chain_id,
  get_solana_network, get_options,
}
use solana_proxy.Script.Environment.Laws.{includes_of_check_env}
use solana_proxy.Program.Outcome.{Outcome, done, failed, ◌>>=◌, invalid_proxy_admin}
use solana_proxy.Program.Admin.{
  State, ProxyConfig, PeerConfig, Instruction, step, apply_peer_config, default_peer,
  peer_or_default, assign, authorized, set_peer_config, peer_address_param, enforced_options_param,
  fee_bps_param, PeerConfigParam,
}
use solana_proxy.Program.Admin.Laws.{run}
use solana_proxy.Script.Setup.{
  Sdk, init_instructions, setpeer_instructions, setfee_instructions, get_backward_fee,
}

same_number : {m n : ℕ} → m ≡ n → (n == m) ≡ true
same_number h = ground (arith, h)

eq_self : (n : ℕ) → (n == n) ≡ true
eq_self n = ground arith

module _ (required_lamports : ℕ) (assert_type_3 : Bytes → Bool) (sdk : Sdk) where
  -- The instructions of one signer, in a row; the first that fails undoes all.
  abbrev pub submit : ℕ → ℕ → List Instruction → State → Outcome State
  submit now wallet [] state = done state
  submit now wallet (i ∷ instructions) state =
      run required_lamports assert_type_3 now wallet i state >>= submit now wallet instructions

  -- The tables' entries for an environment.
  abbrev pub Entries : String → String → String → LzOptions → Type 0
  Entries env usdc_mint receiver options =
      (get_usdc_mint env ≡ ok usdc_mint)
      × (get_ledger_oapp_address env ≡ ok receiver)
      × (get_options env (get_solana_network env) ≡ ok (some options))

  pub entries :
      (env : String)
      → check_env env ≡ ok tt
      → (u : String) × (r : String) × (o : LzOptions) × Entries env u r o
  unfolding get_usdc_mint get_ledger_oapp_address get_options get_solana_network check_env
  entries env h =
      includes-All (λ env. (u : String) × (r : String) × (o : LzOptions) × Entries env u r o) env
        environments
        (
          (_, _, _, (refl, refl, refl)),
          (
            (_, _, _, (refl, refl, refl)),
            (
              (_, _, _, (refl, refl, refl)),
              ((_, _, _, (refl, refl, refl)), ((_, _, _, (refl, refl, refl)), tt)),
            ),
          ),
        )
        (includes_of_check_env env h)

  -- The configuration and the peer that an environment asks for, with `wallet` as the admin.
  abbrev pub config_of : String → String → ℕ → ProxyConfig
  config_of env usdc_mint wallet = record {
    endpoint_program = sdk.endpoint_program;
    usdc_token_account = sdk.key_of usdc_mint;
    admin = wallet;
    orderly_eid = get_orderly_eid sdk.endpoint_ids env;
    sol_chain_id = get_solana_chain_id env;
    paused = false;
  }

  abbrev pub peer_of : String → LzOptions → PeerConfig → PeerConfig
  peer_of receiver options before = record before {
    peer_address = sdk.address_to_bytes32 receiver;
    enforced_options = record {
      send = sdk.encode_send options;
      send_and_call = sdk.encode_send_and_call options;
    };
    fee_bps = some 0;
  }

  abbrev pub IsConfigured : String → String → String → LzOptions → ℕ → State → Type 0
  IsConfigured env usdc_mint receiver options wallet state =
      (state.config ≡ some (config_of env usdc_mint wallet))
      × (state.peer_config (get_orderly_eid sdk.endpoint_ids env)
          ≡ some (peer_of receiver options default_peer))
      × (state.backward_fee ≡ some get_backward_fee)
      × (state.delegate ≡ wallet)

  abbrev pub no_accounts : ℕ → State
  no_accounts lamports = record {
    config = none;
    backward_fee = none;
    peer_config = λ _. none;
    config_lamports = lamports;
    delegate = 0;
  }

  abbrev pub initialised : String → String → ℕ → ℕ → State
  initialised env usdc_mint wallet lamports = record (no_accounts lamports) {
    config = some (config_of env usdc_mint wallet);
    config_lamports = lamports + (required_lamports - lamports);
    delegate = wallet;
  }

  pub init_lem :
      (env usdc_mint receiver : String) (options : LzOptions) (now wallet lamports : ℕ)
      → Entries env usdc_mint receiver options
      → (i : List Instruction) × (init_instructions sdk env wallet ≡ ok i)
        × (submit now wallet i (no_accounts lamports)
            ≡ done (initialised env usdc_mint wallet lamports))
  unfolding init_instructions step
  init_lem env usdc_mint receiver options now wallet lamports (u, r, o) = rw (u, r) (_, refl, refl)

  abbrev with_peer : ℕ → PeerConfig → State → State
  with_peer eid peer state = record state { peer_config = assign eid peer state.peer_config }

  run-set_peer_config :
      (now wallet eid : ℕ) (param : PeerConfigParam) (s : State) (c : ProxyConfig)
      (before peer : PeerConfig)
      → s.config ≡ some c
      → c.admin ≡ wallet
      → peer_or_default (s.peer_config eid) ≡ before
      → apply_peer_config required_lamports assert_type_3 now param before ≡ done peer
      → run required_lamports assert_type_3 now wallet (set_peer_config eid param) s
        ≡ done (with_peer eid peer s)
  unfolding step
  run-set_peer_config now wallet eid param s c before peer h a b e =
      let apply : PeerConfig → Outcome PeerConfig =
        apply_peer_config required_lamports assert_type_3 now param in
      let finish : Outcome PeerConfig → Outcome State = λ o. o >>= λ p. done (with_peer eid p s) in
      subst
        (λ o.
          (authorized o wallet >>= λ _. finish (apply (peer_or_default (s.peer_config eid))))
          ≡ done (with_peer eid peer s))
        (sym h)
        (subst
          (λ (t : Bool).
            ((if t then done c else failed invalid_proxy_admin) >>= λ _.
            finish (apply (peer_or_default (s.peer_config eid))))
            ≡ done (with_peer eid peer s))
          (sym (same_number a)) (ap (λ q. finish (apply q)) b ∙ ap finish e))

  assigned :
      (eid : ℕ) (peer : PeerConfig) (s : State) → (with_peer eid peer s).peer_config eid ≡ some peer
  assigned eid peer s = rw (eq_self eid) refl

  pub setpeer_lem :
      (env usdc_mint receiver : String) (options : LzOptions) (now wallet lamports : ℕ)
      → assert_type_3 (sdk.encode_send options) ≡ true
      → assert_type_3 (sdk.encode_send_and_call options) ≡ true
      → Entries env usdc_mint receiver options
      → (p : List Instruction) × (setpeer_instructions sdk env ≡ ok p)
        × (t : State) × (submit now wallet p (initialised env usdc_mint wallet lamports) ≡ done t)
        × (t.config ≡ some (config_of env usdc_mint wallet))
        × (t.peer_config (get_orderly_eid sdk.endpoint_ids env)
            ≡ some (peer_of receiver options default_peer))
        × (t.delegate ≡ wallet)
  unfolding setpeer_instructions apply_peer_config
  setpeer_lem env usdc_mint receiver options now wallet lamports h k (u, r, o) =
      let eid = get_orderly_eid sdk.endpoint_ids env in
      let c = config_of env usdc_mint wallet in
      let p1 : PeerConfig = record default_peer {
        peer_address = sdk.address_to_bytes32 receiver;
      } in
      let p2 : PeerConfig = record p1 {
        enforced_options = record {
          send = sdk.encode_send options;
          send_and_call = sdk.encode_send_and_call options;
        };
      } in
      let p3 : PeerConfig = peer_of receiver options default_peer in
      let s0 = initialised env usdc_mint wallet lamports in
      let s1 = with_peer eid p1 s0 in
      let s2 = with_peer eid p2 s1 in
      let first =
        run-set_peer_config now wallet eid (peer_address_param (sdk.address_to_bytes32 receiver)) s0
          c default_peer p1 refl refl refl refl in
      let second =
        run-set_peer_config now wallet eid
          (enforced_options_param (sdk.encode_send options) (sdk.encode_send_and_call options)) s1 c
          p1 p2 refl refl (ap peer_or_default (assigned eid p1 s0)) (rw (h, k) refl) in
      let third =
        run-set_peer_config now wallet eid (fee_bps_param (some 0)) s2 c p2 p3 refl refl
          (ap peer_or_default (assigned eid p2 s1)) refl in
      rw (r, o)
        (
          _,
          refl,
          with_peer eid p3 s2,
          rw (first, second, third) refl,
          refl,
          assigned eid p3 s2,
          refl,
        )

  pub setfee_lem :
      (now wallet : ℕ) (s : State) (c : ProxyConfig)
      → s.config ≡ some c
      → c.admin ≡ wallet
      → submit now wallet setfee_instructions s
        ≡ done (record s { backward_fee = some get_backward_fee })
  unfolding setfee_instructions step
  setfee_lem now wallet s c h a =
      subst
        (λ o.
          ((authorized o wallet >>= λ _. done (record s { backward_fee = some get_backward_fee }))
            >>= submit now wallet [])
          ≡ done (record s { backward_fee = some get_backward_fee }))
        (sym h) (rw (same_number a) refl)
