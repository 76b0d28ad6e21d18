-- ===== src/Program/Payload.antt =====
-- Token and payload types of programs/solana-proxy/src/instructions/msg_codec.rs, and which payload
-- types the program and the contract contracts/LedgerOApp.sol take.
use solana_proxy.Prelude.{
  ℕ, ◌<◌, zero, suc, ◌≡◌, refl, Bool, true, false, ◌||◌, Option, none, some, List, [], ◌∷◌, ◌+◌,
  inl, inr, Option-cases, get_elem?, ◌==◌, arith,
}

pub data TokenType : Type 0 where
  order es_order usdc placeholder : TokenType

pub data PayloadType : Type 0 where
  claim_reward stake create_order_unstake_request cancel_order_unstake_request : PayloadType
  withdraw_order es_order_unstake_and_vest cancel_vesting_request : PayloadType
  cancel_all_vesting_requests claim_vesting_request redeem_valor claim_usdc_revenue : PayloadType
  claim_reward_backward withdraw_order_backward claim_vesting_request_backward : PayloadType
  claim_usdc_revenue_backward unstake_order_now claim_reward_solana : PayloadType
  placeholder : PayloadType

-- `self as u8` on the two enumerations
abbrev pub token_code : TokenType → ℕ
token_code order = 0
token_code es_order = 1
token_code usdc = 2
token_code TokenType.placeholder = 3

abbrev pub payload_code : PayloadType → ℕ
payload_code claim_reward = 0
payload_code stake = 1
payload_code create_order_unstake_request = 2
payload_code cancel_order_unstake_request = 3
payload_code withdraw_order = 4
payload_code es_order_unstake_and_vest = 5
payload_code cancel_vesting_request = 6
payload_code cancel_all_vesting_requests = 7
payload_code claim_vesting_request = 8
payload_code redeem_valor = 9
payload_code claim_usdc_revenue = 10
payload_code claim_reward_backward = 11
payload_code withdraw_order_backward = 12
payload_code claim_vesting_request_backward = 13
payload_code claim_usdc_revenue_backward = 14
payload_code unstake_order_now = 15
payload_code claim_reward_solana = 16
payload_code PayloadType.placeholder = 17

-- The arms of `from_u8`, for 0, 1, 2 and so on.
abbrev payload_types : List PayloadType
payload_types =
    claim_reward ∷ stake ∷ create_order_unstake_request ∷ cancel_order_unstake_request
    ∷ withdraw_order ∷ es_order_unstake_and_vest ∷ cancel_vesting_request
    ∷ cancel_all_vesting_requests ∷ claim_vesting_request ∷ redeem_valor ∷ claim_usdc_revenue
    ∷ claim_reward_backward ∷ withdraw_order_backward ∷ claim_vesting_request_backward
    ∷ claim_usdc_revenue_backward ∷ unstake_order_now ∷ claim_reward_solana ∷ []

abbrev or_placeholder : Option PayloadType → PayloadType
or_placeholder none = PayloadType.placeholder
or_placeholder (some t) = t

-- `PayloadType::from_u8`; every other value is the placeholder.
unfoldable pub payload_from_u8 : ℕ → PayloadType
payload_from_u8 value = or_placeholder (get_elem? payload_types value)

-- `SolanaLedgerOCCMessage::get_token_type` on the byte that it reads
unfoldable pub token_from_u8 : ℕ → TokenType
token_from_u8 zero = order
token_from_u8 (suc zero) = es_order
token_from_u8 (suc (suc zero)) = usdc
token_from_u8 _ = TokenType.placeholder

-- `PayloadType::get_token_type`: requests carry no token.
unfoldable pub request_token_type : PayloadType → TokenType
request_token_type _ = TokenType.placeholder

unfoldable pub check_ledger_token_type : TokenType → Bool
check_ledger_token_type usdc = true
check_ledger_token_type _ = false

unfoldable pub check_claim_payload_type : PayloadType → Bool
check_claim_payload_type claim_reward_solana = true
check_claim_payload_type _ = false

unfoldable pub check_request_payload_type : PayloadType → Bool
check_request_payload_type create_order_unstake_request = true
check_request_payload_type cancel_order_unstake_request = true
check_request_payload_type withdraw_order = true
check_request_payload_type es_order_unstake_and_vest = true
check_request_payload_type cancel_vesting_request = true
check_request_payload_type cancel_all_vesting_requests = false
check_request_payload_type claim_vesting_request = true
check_request_payload_type redeem_valor = true
check_request_payload_type claim_usdc_revenue = true
check_request_payload_type unstake_order_now = true
check_request_payload_type _ = false

unfoldable pub check_ledger_payload_type : PayloadType → Bool
check_ledger_payload_type claim_usdc_revenue_backward = true
check_ledger_payload_type _ = false

-- `PayloadTypeChecker` of contracts/lib/OCCTypes.sol, on the byte of the message.
unfoldable pub contract_check_vault_payload_type : ℕ → Bool
contract_check_vault_payload_type value =
    value == 2
    || value == 3
    || value == 4
    || value == 5
    || value == 6
    || value == 7
    || value == 8
    || value == 9
    || value == 10
    || value == 15
    || value == 16

unfoldable pub contract_check_ledger_payload_type : ℕ → Bool
contract_check_ledger_payload_type value = value == 14

pub payload_code-payload_from_u8 : (t : PayloadType) → payload_from_u8 (payload_code t) ≡ t
unfolding payload_from_u8
payload_code-payload_from_u8 claim_reward = refl
payload_code-payload_from_u8 _ = refl

pub token_code-token_from_u8 : (t : TokenType) → token_from_u8 (token_code t) ≡ t
unfolding token_from_u8
token_code-token_from_u8 order = refl
token_code-token_from_u8 _ = refl

pub payload_code-lt : (t : PayloadType) → payload_code t < 18
payload_code-lt claim_reward = omega arith
payload_code-lt _ = omega arith

pub token_code-lt : (t : TokenType) → token_code t < 4
token_code-lt order = omega arith
token_code-lt _ = omega arith

-- What the program forwards to the contract, the contract takes.
pub check_request-contract :
    (t : PayloadType)
    → check_request_payload_type t ≡ true
    → contract_check_vault_payload_type (payload_code t) ≡ true
unfolding check_request_payload_type contract_check_vault_payload_type
check_request-contract create_order_unstake_request h = refl
check_request-contract cancel_order_unstake_request h = refl
check_request-contract withdraw_order h = refl
check_request-contract _ h = ground arith

abbrev Numbered : ℕ → List PayloadType → Type 0
Numbered n [] = Unit
Numbered n (t ∷ ts) = (payload_code t ≡ n) × Numbered (suc n) ts

get_elem?-Numbered :
    (n i : ℕ) (ts : List PayloadType) {t : PayloadType}
    → Numbered n ts
    → get_elem? ts i ≡ some t
    → payload_code t ≡ n + i
get_elem?-Numbered n i [] _ h = cc
get_elem?-Numbered n zero (u ∷ ts) (e, _) h = ground (arith, e, h)
get_elem?-Numbered n (suc i) (u ∷ ts) (_, es) h =
    omega (arith, get_elem?-Numbered (suc n) i ts es h)

numbered : Numbered 0 payload_types
numbered =
    ((
      refl,
      (
        refl,
        (
          refl,
          (
            refl,
            (
              refl,
              (
                refl,
                (
                  refl,
                  (
                    refl,
                    (refl, (refl, (refl, (refl, (refl, (refl, (refl, (refl, (refl, tt))))))))),
                  ),
                ),
              ),
            ),
          ),
        ),
      ),
    ))

-- A byte that stands for a type that users may send is the code of that type.
pub payload_code-check_request :
    (value : ℕ)
    → check_request_payload_type (payload_from_u8 value) ≡ true
    → payload_code (payload_from_u8 value) ≡ value
unfolding payload_from_u8 check_request_payload_type
payload_code-check_request value h = elim (Option-cases (get_elem? payload_types value)) [
  | inl missing ↦ cc (rw missing at h)
  | inr (t, found) ↦
      rw found (omega (arith, get_elem?-Numbered 0 value payload_types numbered found))
]
