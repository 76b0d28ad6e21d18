-- ===== src/System/Requests.antt =====
-- A request on its whole way: prepared by the task, quoted and sent by the program, received by the
-- contract, and handed to the OCC manager.
use solana_proxy.Prelude.{
  ℕ, ◌*◌, ◌^◌, ◌<◌, ◌≡◌, ◌≢◌, refl, true, false, String, some, ok, arith, length, ltb,
  if◌then◌else◌,
}
use solana_proxy.Bytes.{be_bytes}
use solana_proxy.Script.Number.{nat}
use solana_proxy.Script.Amounts.{BigNumbers, IsExact, decimal}
use solana_proxy.Script.Payload.{PayloadType, withdraw_order, payload_code, number, prepare_request}
use solana_proxy.Script.Payload.Acceptance.{OnChain, unit_of, prepare_request_complete}
use solana_proxy.Program.Outcome.{done, failed, ◌>>=◌, ◌>>◌, insufficient_messaging_fee}
use solana_proxy.Program.Payload.{
  TokenType, token_code, payload_from_u8, check_request_payload_type,
  contract_check_vault_payload_type,
}
use solana_proxy.Program.Codec.{VaultMessage}
use solana_proxy.Program.Request.{
  Accounts, RequestParams, Invoked, MessagingFee, QuoteParams, quote_params, quote_backward_fee,
  quote_request, send_request, pay_backward_fee,
}
use solana_proxy.Program.Request.Laws.{quote_request-send_request, sent_as_quoted}
use solana_proxy.Contract.LedgerOapp.{OccVaultMessage, LedgerOapp, Callees, lz_receive}
use solana_proxy.Contract.LedgerOapp.Laws.{lz_receive-encode_vault_message, chain_of}

OnChain-vault :
    (t : PayloadType) → OnChain t → contract_check_vault_payload_type (payload_code t) ≡ true
unfolding check_request_payload_type payload_from_u8 contract_check_vault_payload_type
OnChain-vault withdraw_order h = refl
OnChain-vault _ h = ground arith

payload_code-lt : (t : PayloadType) → payload_code t < 256
payload_code-lt withdraw_order = omega arith
payload_code-lt _ = omega arith

module _ (cpi : Invoked) (callees : Callees) where
  -- The parameters of a request of `t` for the number `v`.
  abbrev pub request_of : PayloadType → ℕ → RequestParams
  request_of t v = record { payload_type = payload_code t; payload = be_bytes 32 v }

  abbrev pub quoted_for : Accounts → PayloadType → ℕ → QuoteParams
  quoted_for accounts t v =
      quote_params accounts (token_code TokenType.placeholder) (payload_code t) (be_bytes 32 v)

  -- What the manager is to get: who asked, for what, and the number.
  abbrev pub asked : Accounts → PayloadType → ℕ → callees.World → OccVaultMessage
  asked accounts t v world = record {
    chained_event_id = 0;
    src_chain_id = chain_of callees world;
    token = token_code TokenType.placeholder;
    token_amount = 0;
    sender = accounts.user;
    payload_type = payload_code t;
    payload = be_bytes 32 v;
  }

  lz_receive-quoted_for :
      (accounts : Accounts) (t : PayloadType) (v : ℕ) (c : LedgerOapp) (world : callees.World)
      → OnChain t
      → length accounts.user ≡ 32
      → c.paused ≡ false
      → chain_of callees world ≢ 0
      → lz_receive callees (callees.solana_eid world) (quoted_for accounts t v).message c world
        ≡ callees.ledger_oapp_receive (asked accounts t v world) world
  unfolding quote_params
  lz_receive-quoted_for accounts t v c world h user running known =
      let m : VaultMessage = record {
        token = token_code TokenType.placeholder;
        sender = accounts.user;
        payload_type = payload_code t;
        payload = be_bytes 32 v;
      } in
      lz_receive-encode_vault_message callees m c world (omega arith) user (payload_code-lt t)
        (OnChain-vault t h) running known

  -- For a payload type that the program takes and a text of decimal digits `k` whose amount fits, the
  -- task prepares the request for `k` units. If the program quotes a fee for it, then with that fee
  -- send_request hands the endpoint the quoted message and its own fee, and takes the backward fee, or
  -- refuses if the endpoint asks for nothing; and on a contract that is not paused and whose manager
  -- knows Solana's chain, that message arrives at the manager as the user's request for `k` units.
  pub prepare_request-lz_receive :
      (n : BigNumbers) (t : PayloadType) (s : String) (k : ℕ) (accounts : Accounts)
      (fee : MessagingFee) (c : LedgerOapp) (world : callees.World)
      → IsExact n
      → OnChain t
      → decimal s ≡ some k
      → k * 10 ^ 18 < 256 ^ 32
      → quote_request cpi accounts (request_of t (k * unit_of t)) ≡ done fee
      → length accounts.user ≡ 32
      → c.paused ≡ false
      → chain_of callees world ≢ 0
      → let quoted = quoted_for accounts t (k * unit_of t) in
        (prepare_request n (number (nat (payload_code t))) s ≡ ok (t, be_bytes 32 (k * unit_of t)))
        × (endpoint_fee : MessagingFee) × (cpi.quote quoted ≡ done endpoint_fee)
        × (send_request cpi accounts (request_of t (k * unit_of t)) fee ≡ (
            if ltb 0 endpoint_fee.native_fee
            then (cpi.send (sent_as_quoted cpi quoted endpoint_fee.native_fee) >>= λ receipt.
                pay_backward_fee cpi (quote_backward_fee (payload_code t) accounts.backward_fee)
                >> done receipt)
            else failed insufficient_messaging_fee))
        × (lz_receive callees (callees.solana_eid world) quoted.message c world
            ≡ callees.ledger_oapp_receive (asked accounts t (k * unit_of t) world) world)
  prepare_request-lz_receive n t s k accounts fee c world exact h digits fits quoting user running
        known =
      let (endpoint_fee, q, sent) =
        quote_request-send_request cpi accounts (request_of t (k * unit_of t)) fee quoting in
      (
        prepare_request_complete n exact t s k h digits fits,
        endpoint_fee,
        q,
        sent,
        lz_receive-quoted_for accounts t (k * unit_of t) c world h user running known,
      )
