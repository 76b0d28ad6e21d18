-- ===== src/Program/Receive/Checks.antt =====
-- What a check of lz_receive that has passed says.
use solana_proxy.Prelude.{
  ℕ, ◌≡◌, refl, Bool, true, false, not, ◌&&◌, Option, none, some, [], ◌∷◌, ◌==◌, arith,
}
use solana_proxy.Bytes.{Bytes}
use solana_proxy.Program.Outcome.{done, ProxyError}
use solana_proxy.Program.Payload.{
  TokenType, PayloadType, usdc, claim_usdc_revenue_backward, check_ledger_payload_type,
  check_ledger_token_type,
}
use solana_proxy.Program.Receive.{or_failed, same_bytes}

pub of_eq : {m n : ℕ} → (m == n) ≡ true → m ≡ n
of_eq h = ground (arith, h)

pub right_of : (a : Bool) {b : Bool} → (a && b) ≡ true → b ≡ true
right_of true h = h
right_of false h = cc

pub ap_2 {ℓ} : {A : Type ℓ} (f : ℕ → ℕ → A) {a b c d : ℕ} → a ≡ b → c ≡ d → f a c ≡ f b d
ap_2 f p q = λ i. f (p i) (q i)

left_of : (a b : Bool) → (a && b) ≡ true → a ≡ true
left_of true b h = refl
left_of false b h = cc

pub unpaused : (b : Bool) → not b ≡ true → b ≡ false
unpaused false h = refl
unpaused true h = cc

pub same_bytes-true : (a b : Bytes) → same_bytes a b ≡ true → a ≡ b
same_bytes-true [] [] h = refl
same_bytes-true [] (c ∷ cs) h = cc
same_bytes-true (b ∷ bs) [] h = cc
same_bytes-true (b ∷ bs) (c ∷ cs) h =
    let head : b ≡ c = of_eq (left_of (b == c) _ h) in
    let tail = same_bytes-true bs cs (right_of (b == c) h) in rw (head, tail) refl

pub done_injective {ℓ} : {A : Type ℓ} {a b : A} → done a ≡ done b → a ≡ b
done_injective h = cc

pub or_failed-eq-done {ℓ} :
    {A : Type ℓ} {a : A} (error : ProxyError) (o : Option A)
    → or_failed error o ≡ done a
    → o ≡ some a
or_failed-eq-done error none h = cc
or_failed-eq-done error (some b) h = cc

pub ledger_payload_type :
    (t : PayloadType) → check_ledger_payload_type t ≡ true → t ≡ claim_usdc_revenue_backward
unfolding check_ledger_payload_type
ledger_payload_type claim_usdc_revenue_backward h = refl
ledger_payload_type _ h = cc

pub ledger_token_type : (t : TokenType) → check_ledger_token_type t ≡ true → t ≡ usdc
unfolding check_ledger_token_type
ledger_token_type usdc h = refl
ledger_token_type _ h = cc
