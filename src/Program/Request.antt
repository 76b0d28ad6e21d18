-- ===== src/Program/Request.antt =====
-- quote_request.rs, send_request.rs, quote_claim.rs and send_claim.rs of
-- programs/solana-proxy/src/instructions, after Anchor has loaded the accounts. The endpoint and the
-- system program that they invoke are parameters.
pub mod Laws
pub mod Claims
mod Tests
use solana_proxy.Prelude.{
  ℕ, ◌-◌, Bool, not, ◌||◌, List, [], ◌∷◌, ◌++◌, if◌then◌else◌, ◌==◌, ltb, Option, none, some,
}
use solana_proxy.Bytes.{Bytes}
use solana_proxy.Program.Outcome.{
  Outcome, done, failed, ◌>>=◌, ◌>>◌, require, add_u64, sub_u64, proxy_paused, invalid_payload_type,
  insufficient_messaging_fee,
}
use solana_proxy.Program.Payload.{
  PayloadType, TokenType, token_code, payload_code, payload_from_u8, check_request_payload_type,
  check_claim_payload_type, request_token_type, withdraw_order, claim_vesting_request,
  unstake_order_now, claim_usdc_revenue, claim_reward_solana,
}
use solana_proxy.Program.Codec.{encode_vault_message, VaultMessage}

pub record MessagingFee : Type 0 where
  pub native_fee : ℕ
  pub lz_token_fee : ℕ

pub record QuoteParams : Type 0 where
  pub sender : Bytes
  pub dst_eid : ℕ
  pub receiver : Bytes
  pub message : Bytes
  pub options : Bytes
  pub pay_in_lz_token : Bool

pub record SendParams : Type 0 where
  pub dst_eid : ℕ
  pub receiver : Bytes
  pub message : Bytes
  pub options : Bytes
  pub native_fee : ℕ
  pub lz_token_fee : ℕ

pub record BackwardFee : Type 0 where
  pub order_backward_fee : ℕ
  pub usdc_backward_fee : ℕ

pub record EnforcedOptions : Type 0 where
  pub send : Bytes
  pub send_and_call : Bytes

pub record ClaimData : Type 0 where
  pub distribution_id : Bytes
  pub amount : Bytes
  pub root : Bytes

-- The accounts' data that the four instructions read.
pub record Accounts : Type 0 where
  pub user : Bytes
  pub proxy_config : Bytes
  pub paused : Bool
  pub orderly_eid : ℕ
  pub peer_address : Bytes
  pub enforced_options : EnforcedOptions
  pub backward_fee : BackwardFee

pub record RequestParams : Type 0 where
  pub payload_type : ℕ
  pub payload : Bytes

-- `oapp::endpoint_cpi::quote` and `send`, and `system_instruction::transfer` from the user to the
-- proxy's configuration.
pub record Invoked : Type 1 where
  pub Receipt : Type 0
  pub quote : QuoteParams → Outcome MessagingFee
  pub send : SendParams → Outcome Receipt
  pub transfer : ℕ → Outcome (Unit {0})

-- `get_enforced_options`
unfoldable pub get_enforced_options : EnforcedOptions → Option Bytes → Bytes
get_enforced_options options none = options.send
get_enforced_options options (some message) = options.send_and_call

-- `ClaimData::encode_claim_payload`
unfoldable pub encode_claim_payload : ClaimData → Bytes
encode_claim_payload claim = claim.distribution_id ++ (claim.amount ++ claim.root)

-- The backward fee of `quote_request`, which tests the byte, and of `send_request`, which tests the
-- type that it stands for.
unfoldable pub quote_backward_fee : ℕ → BackwardFee → ℕ
quote_backward_fee value fees =
    if value == payload_code withdraw_order
      || value == payload_code claim_vesting_request
      || value == payload_code unstake_order_now
    then fees.order_backward_fee
    else if value == payload_code claim_usdc_revenue
    then fees.usdc_backward_fee
    else 0

unfoldable pub send_backward_fee : PayloadType → BackwardFee → ℕ
send_backward_fee withdraw_order fees = fees.order_backward_fee
send_backward_fee claim_vesting_request fees = fees.order_backward_fee
send_backward_fee unstake_order_now fees = fees.order_backward_fee
send_backward_fee claim_usdc_revenue fees = fees.usdc_backward_fee
send_backward_fee _ fees = 0

unfoldable pub quote_params : Accounts → ℕ → ℕ → Bytes → QuoteParams
unfolding get_enforced_options
quote_params accounts token value payload = record {
  sender = accounts.proxy_config;
  dst_eid = accounts.orderly_eid;
  receiver = accounts.peer_address;
  message =
      encode_vault_message
        (record { token = token; sender = accounts.user; payload_type = value; payload = payload });
  options = get_enforced_options accounts.enforced_options none;
  pay_in_lz_token = Bool.false;
}

unfoldable pub send_params : Accounts → ℕ → ℕ → Bytes → ℕ → SendParams
unfolding get_enforced_options
send_params accounts token value payload fee = record {
  dst_eid = accounts.orderly_eid;
  receiver = accounts.peer_address;
  message =
      encode_vault_message
        (record { token = token; sender = accounts.user; payload_type = value; payload = payload });
  options = get_enforced_options accounts.enforced_options none;
  native_fee = fee;
  lz_token_fee = 0;
}

module _ (cpi : Invoked) where
  open cpi use {Receipt, quote, send, transfer}

  unfoldable pub quote_request : Accounts → RequestParams → Outcome MessagingFee
  quote_request accounts params = do
    require (not accounts.paused) proxy_paused
    require (check_request_payload_type (payload_from_u8 params.payload_type)) invalid_payload_type
    fee ← quote (
        quote_params accounts (token_code TokenType.placeholder) params.payload_type params.payload)
    native_fee ←
        add_u64 fee.native_fee (quote_backward_fee params.payload_type accounts.backward_fee)
    done (record { native_fee = native_fee; lz_token_fee = fee.lz_token_fee })

  -- `if backward_fee > 0 { invoke(transfer) }`
  unfoldable pub pay_backward_fee : ℕ → Outcome (Unit {0})
  pay_backward_fee fee = if ltb 0 fee then transfer fee else done tt

  unfoldable pub send_request : Accounts → RequestParams → MessagingFee → Outcome Receipt
  send_request accounts params msg_fee =
      let payload_type = payload_from_u8 params.payload_type in
      let backward_fee = send_backward_fee payload_type accounts.backward_fee in
      do
        require (not accounts.paused) proxy_paused
        require (ltb backward_fee msg_fee.native_fee) insufficient_messaging_fee
        require (check_request_payload_type payload_type) invalid_payload_type
        fee ← sub_u64 msg_fee.native_fee backward_fee
        receipt ← send (
            send_params accounts (token_code (request_token_type payload_type))
              (payload_code payload_type) params.payload fee)
        pay_backward_fee backward_fee
        done receipt

  unfoldable pub quote_claim : Accounts → ClaimData → Outcome MessagingFee
  quote_claim accounts claim = do
    require (not accounts.paused) proxy_paused
    require (check_claim_payload_type claim_reward_solana) invalid_payload_type
    fee ← quote (
        quote_params accounts (token_code (request_token_type claim_reward_solana))
          (payload_code claim_reward_solana) (encode_claim_payload claim))
    native_fee ← add_u64 fee.native_fee accounts.backward_fee.order_backward_fee
    done (record { native_fee = native_fee; lz_token_fee = fee.lz_token_fee })

  unfoldable pub send_claim : Accounts → ClaimData → MessagingFee → Outcome Receipt
  send_claim accounts claim msg_fee = do
    require (not accounts.paused) proxy_paused
    require (check_claim_payload_type claim_reward_solana) invalid_payload_type
    pay_backward_fee accounts.backward_fee.order_backward_fee
    require (ltb accounts.backward_fee.order_backward_fee msg_fee.native_fee)
        insufficient_messaging_fee
    fee ← sub_u64 msg_fee.native_fee accounts.backward_fee.order_backward_fee
    send (
        send_params accounts (token_code (request_token_type claim_reward_solana))
          (payload_code claim_reward_solana) (encode_claim_payload claim) fee)
