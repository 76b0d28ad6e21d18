-- ===== src/Contract/Revert.antt =====
-- What a call of a contract answers: it reverts, or it returns. A call that reverts changes nothing.
use solana_proxy.Prelude.{◌≡◌, refl, Bool, true, false}

pub data Reason : Type 0 where
  only_owner only_occ_manager when_paused : Reason
  invalid_ledger_payload_type invalid_vault_payload_type only_solana_supported : Reason
  chain_id_not_set eid_not_set only_to_solana only_usdc insufficient_native_fee : Reason
  malformed_message invoked_contract_reverted : Reason

pub data Call {κ} (Value : Type κ) : Type κ where
  reverted : Reason → Call Value
  returned : Value → Call Value

-- `require(test, reason)`
abbrev pub require : Bool → Reason → Call (Unit {0})
require false reason = reverted reason
require true _ = returned tt

infixl 5 ◌>>=◌
abbrev pub ◌>>=◌ {κ μ} :
    {Value : Type κ} {Next : Type μ} → Call Value → (Value → Call Next) → Call Next
reverted reason >>= _ = reverted reason
returned value >>= rest = rest value

infixl 5 ◌>>◌
abbrev pub ◌>>◌ {κ} : {Next : Type κ} → Call (Unit {0}) → Call Next → Call Next
checked >> next = checked >>= λ _. next

pub >>=-eq-returned {κ μ} :
    {Value : Type κ} {Next : Type μ} (call : Call Value) (rest : Value → Call Next) {last : Next}
    → call >>= rest ≡ returned last
    → (value : Value) × (call ≡ returned value) × (rest value ≡ returned last)
>>=-eq-returned (reverted reason) rest e = cc
>>=-eq-returned (returned value) rest e = (value, refl, e)

pub require-eq-returned {κ} :
    {Next : Type κ} (test : Bool) (reason : Reason) (next : Call Next) {last : Next}
    → require test reason >> next ≡ returned last
    → (test ≡ true) × (next ≡ returned last)
require-eq-returned false reason next e = cc
require-eq-returned true reason next e = (refl, e)
