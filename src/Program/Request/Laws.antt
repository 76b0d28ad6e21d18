-- ===== src/Program/Request/Laws.antt =====
-- A message sent with the fee that was quoted for it.
use solana_proxy.Prelude.{
  ℕ, ◌+◌, ◌<◌, ◌^◌, ◌≡◌, refl, sym, ap, ◌∙◌, Bool, true, false, not, inl, inr, Bool-cases,
  if◌then◌else◌, ltb, arith,
}
use solana_proxy.Program.Outcome.{
  Outcome, done, failed, ◌>>=◌, ◌>>◌, require, add_u64, sub_u64, >>=-eq-done, require-eq-done,
  insufficient_messaging_fee, proxy_paused, invalid_payload_type,
}
use solana_proxy.Program.Payload.{
  PayloadType, TokenType, token_code, payload_code, payload_from_u8, check_request_payload_type,
  request_token_type, payload_code-check_request,
}
use solana_proxy.Program.Request.{
  Accounts, RequestParams, Invoked, MessagingFee, QuoteParams, SendParams, BackwardFee,
  quote_backward_fee, send_backward_fee, quote_params, send_params, quote_request, send_request,
  pay_backward_fee,
}

backward_fees-agree :
    (t : PayloadType) (fees : BackwardFee)
    → quote_backward_fee (payload_code t) fees ≡ send_backward_fee t fees
unfolding quote_backward_fee send_backward_fee
backward_fees-agree PayloadType.claim_reward fees = refl
backward_fees-agree _ fees = refl

pub ltb_add : (fee backward : ℕ) → ltb 0 fee ≡ true → ltb backward (fee + backward) ≡ true
ltb_add fee backward h = ground (arith, h)

pub ltb_zero : (fee backward : ℕ) → ltb 0 fee ≡ false → ltb backward (fee + backward) ≡ false
ltb_zero fee backward h = ground (arith, h)

pub sub_u64_add : (fee backward : ℕ) → sub_u64 (fee + backward) backward ≡ done fee
sub_u64_add fee backward = ground arith

module _ (cpi : Invoked) where
  -- What `send_request` asks the endpoint for, when it was quoted `params` and pays the endpoint `fee`.
  abbrev pub sent_as_quoted : QuoteParams → ℕ → SendParams
  sent_as_quoted params fee = record {
    dst_eid = params.dst_eid;
    receiver = params.receiver;
    message = params.message;
    options = params.options;
    native_fee = fee;
    lz_token_fee = 0;
  }

  abbrev quoted_by : Accounts → RequestParams → QuoteParams
  quoted_by accounts params =
      quote_params accounts (token_code TokenType.placeholder) params.payload_type params.payload

  abbrev pub with_backward_fee : ℕ → MessagingFee → MessagingFee
  with_backward_fee backward fee = record {
    native_fee = fee.native_fee + backward;
    lz_token_fee = fee.lz_token_fee;
  }

  pub add_backward_fee-eq-done :
      (fee total : MessagingFee) (backward : ℕ)
      → (add_u64 fee.native_fee backward >>= λ n.
          done (record { native_fee = n; lz_token_fee = fee.lz_token_fee }))
        ≡ done total
      → total ≡ with_backward_fee backward fee
  add_backward_fee-eq-done fee total backward h =
      elim (Bool-cases (ltb (fee.native_fee + backward) (2 ^ 64))) [
        | inl fits ↦ cc (rw fits at h)
        | inr over ↦ cc (rw over at h)
      ]

  quote_request-eq-done :
      (accounts : Accounts) (params : RequestParams) (fee : MessagingFee)
      → quote_request cpi accounts params ≡ done fee
      → (accounts.paused ≡ false)
        × (check_request_payload_type (payload_from_u8 params.payload_type) ≡ true)
        × (q : MessagingFee) × (cpi.quote (quoted_by accounts params) ≡ done q)
        × (fee ≡ with_backward_fee (quote_backward_fee params.payload_type accounts.backward_fee) q)
  unfolding quote_request
  quote_request-eq-done accounts params fee h =
      let backward = quote_backward_fee params.payload_type accounts.backward_fee in
      let total : MessagingFee → Outcome MessagingFee = λ q. add_u64 q.native_fee backward >>= λ n.
      done (record { native_fee = n; lz_token_fee = q.lz_token_fee }) in
      let asked : Outcome MessagingFee = cpi.quote (quoted_by accounts params) >>= total in
      let right : Outcome MessagingFee =
        require (check_request_payload_type (payload_from_u8 params.payload_type))
          invalid_payload_type
        >> asked in
      let (running, after_pause) = require-eq-done (not accounts.paused) proxy_paused right h in
      let (allowed, after_type) =
        require-eq-done (check_request_payload_type (payload_from_u8 params.payload_type))
          invalid_payload_type asked after_pause in
      let (q, quoted, rest) =
        >>=-eq-done (cpi.quote (quoted_by accounts params)) total after_type in
      (ground (arith, running), allowed, q, quoted, add_backward_fee-eq-done q fee backward rest)

  abbrev answer : Accounts → RequestParams → MessagingFee → ℕ → ℕ → Outcome cpi.Receipt
  answer accounts params fee value backward =
      if ltb 0 fee.native_fee
      then (cpi.send (
            sent_as_quoted
              (quote_params accounts (token_code TokenType.placeholder) value params.payload)
              fee.native_fee)
          >>= λ receipt. pay_backward_fee cpi backward >> done receipt)
      else failed insufficient_messaging_fee

  pay_the_rest {ℓ} :
      {A : Type ℓ} (paused allowed : Bool) (fee backward : ℕ) (send : ℕ → Outcome A)
      → paused ≡ false
      → allowed ≡ true
      → (require (not paused) proxy_paused
          >> (require (ltb backward (fee + backward)) insufficient_messaging_fee
              >> (require allowed invalid_payload_type
                  >> (sub_u64 (fee + backward) backward >>= send))))
        ≡ (if ltb 0 fee then send fee else failed insufficient_messaging_fee)
  pay_the_rest paused allowed fee backward send running right = elim (Bool-cases (ltb 0 fee)) [
    | inl positive ↦
        rw (running, right, positive, ltb_add fee backward positive, sub_u64_add fee backward) refl
    | inr zero_fee ↦ rw (running, zero_fee, ltb_zero fee backward zero_fee) refl
  ]

  send_with_backward_fee :
      (accounts : Accounts) (params : RequestParams) (fee : MessagingFee)
      → accounts.paused ≡ false
      → check_request_payload_type (payload_from_u8 params.payload_type) ≡ true
      → send_request cpi accounts params (
          with_backward_fee
            (send_backward_fee (payload_from_u8 params.payload_type) accounts.backward_fee)
            fee)
        ≡ answer accounts params fee
            (payload_code (payload_from_u8 params.payload_type))
            (send_backward_fee (payload_from_u8 params.payload_type) accounts.backward_fee)
  unfolding send_request quote_params send_params request_token_type
  send_with_backward_fee accounts params fee running right =
      let t = payload_from_u8 params.payload_type in
      pay_the_rest accounts.paused (check_request_payload_type t) fee.native_fee
        (send_backward_fee t accounts.backward_fee)
        (λ n.
          cpi.send (
            send_params accounts (token_code TokenType.placeholder) (payload_code t) params.payload
              n)
          >>= λ receipt.
              pay_backward_fee cpi (send_backward_fee t accounts.backward_fee) >> done receipt)
        running right

  -- If `quote_request` answers a fee, then the endpoint was asked for a quote, and `send_request` with
  -- that fee for the same request hands the endpoint the quoted message with exactly the endpoint's own
  -- fee and the user pays the backward fee to the proxy; it refuses just when the endpoint's own fee is
  -- zero.
  pub quote_request-send_request :
      (accounts : Accounts) (params : RequestParams) (fee : MessagingFee)
      → quote_request cpi accounts params ≡ done fee
      → let quoted =
          quote_params accounts
            (token_code TokenType.placeholder)
            params.payload_type
            params.payload in
        (endpoint_fee : MessagingFee) × (cpi.quote quoted ≡ done endpoint_fee)
        × (send_request cpi accounts params fee ≡ (
            if ltb 0 endpoint_fee.native_fee
            then (cpi.send (sent_as_quoted quoted endpoint_fee.native_fee) >>= λ receipt.
                pay_backward_fee cpi (quote_backward_fee params.payload_type accounts.backward_fee)
                >> done receipt)
            else failed insufficient_messaging_fee))
  quote_request-send_request accounts params fee h =
      let (running, right, q, quoted, total) = quote_request-eq-done accounts params fee h in
      let t = payload_from_u8 params.payload_type in
      let code = payload_code-check_request params.payload_type right in
      let backward : send_backward_fee t accounts.backward_fee
          ≡ quote_backward_fee params.payload_type accounts.backward_fee =
        sym (backward_fees-agree t accounts.backward_fee)
        ∙ ap (λ v. quote_backward_fee v accounts.backward_fee) code in
      (
        q,
        quoted,
        ap (send_request cpi accounts params)
              (total ∙ ap (λ b. with_backward_fee b q) (sym backward))
            ∙ send_with_backward_fee accounts params q running right
            ∙ ap (λ v. answer accounts params q v (send_backward_fee t accounts.backward_fee)) code
            ∙ ap (answer accounts params q params.payload_type) backward,
      )

  -- A request that was sent was not sent while the proxy was paused, its payload type is one that users
  -- may send, and its fee is more than the backward fee.
  pub send_request-guards :
      (accounts : Accounts) (params : RequestParams) (fee : MessagingFee) (receipt : cpi.Receipt)
      → send_request cpi accounts params fee ≡ done receipt
      → (accounts.paused ≡ false)
        × (check_request_payload_type (payload_from_u8 params.payload_type) ≡ true)
        × (send_backward_fee (payload_from_u8 params.payload_type) accounts.backward_fee
            < fee.native_fee)
  unfolding send_request
  send_request-guards accounts params fee receipt h =
      let t = payload_from_u8 params.payload_type in
      let backward = send_backward_fee t accounts.backward_fee in
      let (running, after_pause) = require-eq-done (not accounts.paused) proxy_paused _ h in
      let (enough, after_fee) =
        require-eq-done (ltb backward fee.native_fee) insufficient_messaging_fee _ after_pause in
      let (allowed, after_type) =
        require-eq-done (check_request_payload_type t) invalid_payload_type _ after_fee in
      (ground (arith, running), allowed, ground (arith, enough))
