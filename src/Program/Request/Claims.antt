-- ===== src/Program/Request/Claims.antt =====
-- A claim sent with the fee that was quoted for it.
use solana_proxy.Prelude.{
  ℕ, ◌+◌, ◌≡◌, refl, ap, ◌∙◌, Bool, false, not, inl, inr, Bool-cases, if◌then◌else◌, ltb, arith,
}
use solana_proxy.Program.Outcome.{
  Outcome, done, failed, ◌>>=◌, ◌>>◌, require, add_u64, sub_u64, >>=-eq-done, require-eq-done,
  insufficient_messaging_fee, proxy_paused,
}
use solana_proxy.Program.Payload.{
  TokenType, token_code, payload_code, claim_reward_solana, check_claim_payload_type,
  request_token_type,
}
use solana_proxy.Program.Request.{
  Accounts, ClaimData, Invoked, MessagingFee, QuoteParams, quote_params, send_params,
  encode_claim_payload, quote_claim, send_claim, pay_backward_fee,
}
use solana_proxy.Program.Request.Laws.{
  ltb_add, ltb_zero, sub_u64_add, sent_as_quoted, with_backward_fee, add_backward_fee-eq-done,
}

module _ (cpi : Invoked) where
  abbrev pub claim_quoted : Accounts → ClaimData → QuoteParams
  claim_quoted accounts claim =
      quote_params accounts (token_code TokenType.placeholder) (payload_code claim_reward_solana)
        (encode_claim_payload claim)

  quote_claim-eq-done :
      (accounts : Accounts) (claim : ClaimData) (fee : MessagingFee)
      → quote_claim cpi accounts claim ≡ done fee
      → (accounts.paused ≡ false)
        × (q : MessagingFee) × (cpi.quote (claim_quoted accounts claim) ≡ done q)
        × (fee ≡ with_backward_fee cpi accounts.backward_fee.order_backward_fee q)
  unfolding quote_claim check_claim_payload_type request_token_type
  quote_claim-eq-done accounts claim fee h =
      let backward = accounts.backward_fee.order_backward_fee in
      let total : MessagingFee → Outcome MessagingFee = λ q. add_u64 q.native_fee backward >>= λ n.
      done (record { native_fee = n; lz_token_fee = q.lz_token_fee }) in
      let (running, asked) =
        require-eq-done (not accounts.paused) proxy_paused
          (cpi.quote (claim_quoted accounts claim) >>= total) h in
      let (q, quoted, rest) = >>=-eq-done (cpi.quote (claim_quoted accounts claim)) total asked in
      (ground (arith, running), q, quoted, add_backward_fee-eq-done cpi q fee backward rest)

  pay_first {ℓ} :
      {A : Type ℓ} (paused : Bool) (fee backward : ℕ) (pay : Outcome (Unit {0}))
      (send : ℕ → Outcome A)
      → paused ≡ false
      → (require (not paused) proxy_paused
          >> (pay
              >> (require (ltb backward (fee + backward)) insufficient_messaging_fee
                  >> (sub_u64 (fee + backward) backward >>= send))))
        ≡ (pay >> (if ltb 0 fee then send fee else failed insufficient_messaging_fee))
  pay_first paused fee backward pay send running = elim (Bool-cases (ltb 0 fee)) [
    | inl positive ↦
        rw (running, positive, ltb_add fee backward positive, sub_u64_add fee backward) refl
    | inr zero_fee ↦ rw (running, zero_fee, ltb_zero fee backward zero_fee) refl
  ]

  send_claim-with_backward_fee :
      (accounts : Accounts) (claim : ClaimData) (q : MessagingFee)
      → accounts.paused ≡ false
      → send_claim cpi accounts claim
          (with_backward_fee cpi accounts.backward_fee.order_backward_fee q)
        ≡ (pay_backward_fee cpi accounts.backward_fee.order_backward_fee
            >> (if ltb 0 q.native_fee
                then cpi.send (sent_as_quoted cpi (claim_quoted accounts claim) q.native_fee)
                else failed insufficient_messaging_fee))
  unfolding send_claim quote_params send_params check_claim_payload_type request_token_type
  send_claim-with_backward_fee accounts claim q running =
      let backward = accounts.backward_fee.order_backward_fee in
      pay_first accounts.paused q.native_fee backward (pay_backward_fee cpi backward)
        (λ n. cpi.send (
          send_params accounts (token_code TokenType.placeholder) (payload_code claim_reward_solana)
            (encode_claim_payload claim) n))
        running

  -- If `quote_claim` answers a fee, then the endpoint was asked for a quote, and `send_claim` with that fee
  -- for the same claim data has the user pay the backward fee to the proxy and hands the endpoint the
  -- quoted message with exactly the endpoint's own fee; it refuses, whatever the payment, when the
  -- endpoint's own fee is zero.
  pub quote_claim-send_claim :
      (accounts : Accounts) (claim : ClaimData) (fee : MessagingFee)
      → quote_claim cpi accounts claim ≡ done fee
      → (q : MessagingFee) × (cpi.quote (claim_quoted accounts claim) ≡ done q)
        × (send_claim cpi accounts claim fee ≡ (
            pay_backward_fee cpi accounts.backward_fee.order_backward_fee
            >> (if ltb 0 q.native_fee
                then cpi.send (sent_as_quoted cpi (claim_quoted accounts claim) q.native_fee)
                else failed insufficient_messaging_fee)))
  quote_claim-send_claim accounts claim fee h =
      let (running, q, quoted, total) = quote_claim-eq-done accounts claim fee h in
      (
        q,
        quoted,
        ap (send_claim cpi accounts claim) total
            ∙ send_claim-with_backward_fee accounts claim q running,
      )
