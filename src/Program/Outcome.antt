-- ===== src/Program/Outcome.antt =====
-- What an instruction of programs/solana-proxy answers: a value, an error of
-- programs/solana-proxy/src/errors.rs, a panic of a checked operation on u64, or the failure of a
-- program that it invokes. An instruction that fails leaves every account as it was.
use solana_proxy.Prelude.{ℕ, ◌+◌, ◌-◌, ◌^◌, ◌≡◌, refl, Bool, true, false, ltb, leb, if◌then◌else◌}

pub data ProxyError : Type 0 where
  invalid_proxy_admin same_admin rate_limit_exceeded invalid_fee proxy_paused invalid_payload_type :
      ProxyError
  invalid_sender invalid_receiver invalid_ledger_payload_type invalid_ledger_token_type : ProxyError
  insufficient_messaging_fee insufficient_balance invalid_usdc_account : ProxyError
  panicked invoked_program_failed account_missing account_refused : ProxyError

pub data Outcome {κ} (Value : Type κ) : Type κ where
  failed : ProxyError → Outcome Value
  done : Value → Outcome Value

-- `require!(test, error)`
abbrev pub require : Bool → ProxyError → Outcome (Unit {0})
require false error = failed error
require true _ = done tt

-- `+` and `-` on u64: the workspace builds with `overflow-checks = true`.
abbrev pub add_u64 : ℕ → ℕ → Outcome ℕ
add_u64 a b = if ltb (a + b) (2 ^ 64) then done (a + b) else failed panicked

abbrev pub sub_u64 : ℕ → ℕ → Outcome ℕ
sub_u64 a b = if leb b a then done (a - b) else failed panicked

-- `?`
infixl 5 ◌>>=◌
abbrev pub ◌>>=◌ {κ μ} :
    {Value : Type κ} {Next : Type μ} → Outcome Value → (Value → Outcome Next) → Outcome Next
failed error >>= _ = failed error
done value >>= rest = rest value

infixl 5 ◌>>◌
abbrev pub ◌>>◌ {κ μ} :
    {Value : Type κ} {Next : Type μ} → Outcome Value → Outcome Next → Outcome Next
first >> second = first >>= λ _. second

pub >>=-eq-done {κ μ} :
    {Value : Type κ} {Next : Type μ} (first : Outcome Value) (rest : Value → Outcome Next)
    {last : Next}
    → first >>= rest ≡ done last
    → (value : Value) × (first ≡ done value) × (rest value ≡ done last)
>>=-eq-done (failed error) rest e = cc
>>=-eq-done (done value) rest e = (value, refl, e)

pub require-eq-done {κ} :
    {Next : Type κ} (test : Bool) (error : ProxyError) (second : Outcome Next) {last : Next}
    → require test error >> second ≡ done last
    → (test ≡ true) × (second ≡ done last)
require-eq-done false error second e = cc
require-eq-done true error second e = (refl, e)
