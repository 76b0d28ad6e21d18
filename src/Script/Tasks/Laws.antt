-- ===== src/Script/Tasks/Laws.antt =====
-- What sol:proxy:request and sol:proxy:claim send: what they quoted, with the fee that was quoted.
use solana_proxy.Prelude.{
  ℕ, ◌≡◌, refl, sym, ap, ◌∙◌, subst, String, Bool, true, false, Option, some, List, [], Result, ok,
  throw, or_throw, require, Error, call_failed, claim_data_not_found,
}
use solana_proxy.Prelude.{>>=-eq-ok as and_then}
use solana_proxy.Prelude
use solana_proxy.Bytes.{Bytes}
use solana_proxy.Script.Constants.Lz.{EndpointIds}
use solana_proxy.Script.Environment.{check_env}
use solana_proxy.Script.Keys.{PublicKeys}
use solana_proxy.Script.Pda.{SdkSeeds}
use solana_proxy.Script.Pda.Proxy.{get_claim_data_pda}
use solana_proxy.Script.Amounts.{BigNumbers}
use solana_proxy.Script.Payload.{Input, PayloadType, claim_reward_solana, prepare_request}
use solana_proxy.Script.Client.{
  Call, MsgFee, Prepared, call_quote_request, call_send_request, call_quote_claim, call_send_claim,
  prepare_params_and_accounts, quote_fee, send_request, quote_claim_fee, send_claim_request,
  claim_accounts,
}
use solana_proxy.Script.Steps.{query->>=-eq-ok, confirmed-eq-ok, or_throw-eq-ok}
use solana_proxy.Script.Tasks.{Network, get_proxy_program, sent, request, claim, fetch_claim_data}

ok_injective : {A : Type 0} {a b : A} → ok a ≡ ok b → a ≡ b
ok_injective h = cc h

required : (b : Bool) (e : Error) {u : Unit {0}} → require b e ≡ ok u → b ≡ true
required false e h = cc h
required true e h = refl

module _ (k : PublicKeys) (sdk : SdkSeeds) (ids : EndpointIds) where
  open k use {PublicKey}

  quote_fee-eq-ok :
      (program_id payer : PublicKey) (t : PayloadType) (payload : Bytes) (env : String)
      {call : Call k sdk ids}
      → quote_fee k sdk ids program_id payer t payload env ≡ ok call
      → (p : Prepared k sdk ids) × (prepare_params_and_accounts k sdk ids program_id payer t payload
            env
          ≡ ok p)
        × (call_quote_request p.params p.accounts p.path ≡ call)
  unfolding quote_fee
  quote_fee-eq-ok program_id payer t payload env h =
      let (p, e, r) =
        and_then (prepare_params_and_accounts k sdk ids program_id payer t payload env) _ h in
      (p, e, ok_injective r)

  quote_claim_fee-eq-ok :
      (program_id payer : PublicKey) (env : String) {call : Call k sdk ids}
      → quote_claim_fee k sdk ids program_id payer env ≡ ok call
      → (p : Prepared k sdk ids) × (prepare_params_and_accounts k sdk ids program_id payer
            claim_reward_solana [] env
          ≡ ok p)
        × (call_quote_claim (claim_accounts k sdk ids program_id payer p.accounts) p.path ≡ call)
  unfolding quote_claim_fee
  quote_claim_fee-eq-ok program_id payer env h =
      let (p, e, r) =
        and_then (prepare_params_and_accounts k sdk ids program_id payer claim_reward_solana [] env)
          _ h in
      (p, e, ok_injective r)

  send_request-eq-ok :
      (program_id payer : PublicKey) (t : PayloadType) (payload : Bytes) (env : String)
      (fee : MsgFee) (p : Prepared k sdk ids) (call : Call k sdk ids)
      → prepare_params_and_accounts k sdk ids program_id payer t payload env ≡ ok p
      → send_request k sdk ids program_id payer t payload fee.native_fee fee.lz_token_fee env
        ≡ ok call
      → call_send_request p.params fee p.accounts p.path ≡ call
  unfolding send_request
  send_request-eq-ok program_id payer t payload env fee p call ready h = ok_injective (
      subst
        (λ r.
          (Prelude.◌>>=◌ r
            (λ (q : Prepared k sdk ids). ok (call_send_request q.params fee q.accounts q.path)))
          ≡ ok call)
        ready h)

  send_claim_request-eq-ok :
      (program_id payer : PublicKey) (env : String) (fee : MsgFee) (p : Prepared k sdk ids)
      (call : Call k sdk ids)
      → prepare_params_and_accounts k sdk ids program_id payer claim_reward_solana [] env ≡ ok p
      → send_claim_request k sdk ids program_id payer fee.native_fee fee.lz_token_fee env ≡ ok call
      → call_send_claim fee (claim_accounts k sdk ids program_id payer p.accounts) p.path ≡ call
  unfolding send_claim_request
  send_claim_request-eq-ok program_id payer env fee p call ready h = ok_injective (
      subst
        (λ r.
          (Prelude.◌>>=◌ r (λ (q : Prepared k sdk ids).
            ok (call_send_claim fee (claim_accounts k sdk ids program_id payer q.accounts) q.path)))
          ≡ ok call)
        ready h)

  module _ (n : BigNumbers) (network : Network k sdk ids n) where
    open network use {World, wallet}

    viewed-eq-some :
        (quoting call : Call k sdk ids) (w : World) (fee : MsgFee)
        → call ≡ quoting
        → or_throw call_failed (network.view quoting w) ≡ ok fee
        → network.view call w ≡ some fee
    viewed-eq-some quoting call w fee same h =
        ap (λ c. network.view c w) same ∙ or_throw-eq-ok call_failed (network.view quoting w) h

    sent-eq-true :
        (sending call : Call k sdk ids) (w w' : World)
        → call ≡ sending
        → sent k sdk ids n network sending w ≡ (ok tt, w')
        → network.create_and_send call w ≡ (true, w')
    sent-eq-true sending call w w' same h =
        ap (λ c. network.create_and_send c w) same
        ∙ confirmed-eq-ok call_failed (network.create_and_send sending w) h

    -- Whenever sol:proxy:request goes through, it has prepared the payload type and the payload, has viewed the
    -- fee for them on the proxy program of the environment, and has sent just this request, with this fee.
    pub request-eq-ok :
        (env : String) (payload_type : Input) (payload : String) (w w' : World)
        → request k sdk ids n network env payload_type payload w ≡ (ok tt, w')
        → (program_id : PublicKey) × (t : PayloadType) × (encoded : Bytes) × (p : Prepared k sdk
            ids)
          × (fee : MsgFee) × (get_proxy_program k sdk ids n network env ≡ ok program_id)
          × (prepare_request n payload_type payload ≡ ok (t, encoded))
          × (prepare_params_and_accounts k sdk ids program_id wallet t encoded env ≡ ok p)
          × (network.view (call_quote_request p.params p.accounts p.path) w ≡ some fee)
          × (network.create_and_send (call_send_request p.params fee p.accounts p.path) w
              ≡ (true, w'))
    unfolding request
    request-eq-ok env payload_type payload w w' h =
        let (_, _, h1) = query->>=-eq-ok (λ _. check_env env) _ w h in
        let (program_id, e2, h2) =
          query->>=-eq-ok (λ _. get_proxy_program k sdk ids n network env) _ w h1 in
        let (prepared, e3, h3) =
          query->>=-eq-ok (λ _. prepare_request n payload_type payload) _ w h2 in
        let (quoting, e4, h4) =
          query->>=-eq-ok (λ _. quote_fee k sdk ids program_id wallet prepared.0 prepared.1 env) _ w
            h3 in
        let (fee, e5, h5) =
          query->>=-eq-ok (λ w. or_throw call_failed (network.view quoting w)) _ w h4 in
        let (sending, e6, h6) =
          query->>=-eq-ok
            (λ _.
              send_request k sdk ids program_id wallet prepared.0 prepared.1 fee.native_fee
                fee.lz_token_fee env)
            _ w h5 in
        let (p, ready, quoted) = quote_fee-eq-ok program_id wallet prepared.0 prepared.1 env e4 in
        (
          program_id,
          prepared.0,
          prepared.1,
          p,
          fee,
          e2,
          e3,
          ready,
          viewed-eq-some quoting (call_quote_request p.params p.accounts p.path) w fee quoted e5,
          sent-eq-true sending (call_send_request p.params fee p.accounts p.path) w w'
              (send_request-eq-ok program_id wallet prepared.0 prepared.1 env fee p sending ready
                e6)
              h6,
        )

    -- Whenever sol:proxy:claim goes through, the claim data of the wallet was there, and the task has viewed the
    -- fee for its claim and has sent just this claim, with this fee.
    pub claim-eq-ok :
        (env : String) (w w' : World)
        → claim k sdk ids n network env w ≡ (ok tt, w')
        → (program_id : PublicKey) × (p : Prepared k sdk ids) × (fee : MsgFee) × (get_proxy_program
              k sdk ids n network env
            ≡ ok program_id)
          × (network.has_claim_data (get_claim_data_pda k sdk program_id wallet) w ≡ true)
          × (prepare_params_and_accounts k sdk ids program_id wallet claim_reward_solana [] env
              ≡ ok p)
          × (network.view
                (call_quote_claim (claim_accounts k sdk ids program_id wallet p.accounts) p.path)
                w
              ≡ some fee)
          × (network.create_and_send
                (call_send_claim fee (claim_accounts k sdk ids program_id wallet p.accounts) p.path)
                w
              ≡ (true, w'))
    unfolding claim fetch_claim_data
    claim-eq-ok env w w' h =
        let (_, _, h1) = query->>=-eq-ok (λ _. check_env env) _ w h in
        let (program_id, e2, h2) =
          query->>=-eq-ok (λ _. get_proxy_program k sdk ids n network env) _ w h1 in
        let data_pda = get_claim_data_pda k sdk program_id wallet in
        let (_, e3, h3) =
          query->>=-eq-ok (λ w. require (network.has_claim_data data_pda w) claim_data_not_found) _
            w h2 in
        let (quoting, e4, h4) =
          query->>=-eq-ok (λ _. quote_claim_fee k sdk ids program_id wallet env) _ w h3 in
        let (fee, e5, h5) =
          query->>=-eq-ok (λ w. or_throw call_failed (network.view quoting w)) _ w h4 in
        let (sending, e6, h6) =
          query->>=-eq-ok
            (λ _.
              send_claim_request k sdk ids program_id wallet fee.native_fee fee.lz_token_fee env)
            _ w h5 in
        let (p, ready, quoted) = quote_claim_fee-eq-ok program_id wallet env e4 in
        (
          program_id,
          p,
          fee,
          e2,
          required (network.has_claim_data data_pda w) claim_data_not_found e3,
          ready,
          viewed-eq-some quoting
              (call_quote_claim (claim_accounts k sdk ids program_id wallet p.accounts) p.path) w
              fee quoted e5,
          sent-eq-true sending
              (call_send_claim fee (claim_accounts k sdk ids program_id wallet p.accounts) p.path) w
              w' (send_claim_request-eq-ok program_id wallet env fee p sending ready e6) h6,
        )
