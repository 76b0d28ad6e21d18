-- ===== src/Script/Payload/Acceptance.antt =====
-- The payload types that the request tasks let through, against those that the program takes.
use solana_proxy.Prelude.{
  ℕ, ◌^◌, ◌<◌, ◌*◌, ◌≡◌, refl, inl, inr, subst, ◌⊎◌, All, Bool-cases, List, [], ◌∷◌, ◌≢◌, ◌==◌,
  if◌then◌else◌, Bool, true, String, some, ok, >>=-eq-ok, arith, length,
}
use solana_proxy.Bytes.{Bytes, be_bytes}
use solana_proxy.Bytes.Laws.{length-be_bytes}
use solana_proxy.Script.Number.{codes, same_codes, lower_case, Number, nan, nat, other, number_of}
use solana_proxy.Script.Amounts.{
  BigNumbers, IsExact, decimal, convert_into_bytes32, order_decimals_on_ethereum,
}
use solana_proxy.Script.Amounts.Laws.{convert_into_bytes32_lem, convert_into_bytes32-be_bytes}
use solana_proxy.Script.Payload.{
  PayloadType, stake, withdraw_order, payload_code, Input, number, text, check_payload_type,
  check_payload, prepare_request, Case, cases, switch, switch_number, switch_text, switch_converted,
  is_order_amount, is_plain_number,
}
use solana_proxy.Program.Payload.{payload_from_u8, check_request_payload_type}

-- The program takes requests of this type.
abbrev pub OnChain : PayloadType → Type 0
OnChain t = check_request_payload_type (payload_from_u8 (payload_code t)) ≡ true

abbrev Switchable : PayloadType → Type 0
Switchable t = (t ≡ stake) ⊎ OnChain t

cases-All_Switchable : All (λ c. Switchable c.result) cases
unfolding payload_from_u8 check_request_payload_type
cases-All_Switchable = (
  inl refl,
  (
    inr refl,
    (
      inr refl,
      (inr refl, (inr refl, (inr refl, (inr refl, (inr refl, (inr refl, (inr refl, tt))))))),
    ),
  ),
)

switch-Switchable :
    (test : Case → Bool) (cs : List Case) {t : PayloadType}
    → All (λ c. Switchable c.result) cs
    → switch test cs ≡ ok t
    → Switchable t
unfolding switch
switch-Switchable test [] ps h = cc
switch-Switchable test (c ∷ cs) (p, ps) h = elim (Bool-cases (test c)) [
  | inl e ↦ subst Switchable (cc (rw e at h)) p
  | inr e ↦ switch-Switchable test cs ps (rw e at h)
]

switch_number-Switchable : (x : Number) {t : PayloadType} → switch_number x ≡ ok t → Switchable t
unfolding switch_number
switch_number-Switchable nan h = cc
switch_number-Switchable other h = cc
switch_number-Switchable (nat n) h =
    switch-Switchable (λ c. n == c.value) cases cases-All_Switchable h

switch_converted-Switchable :
    (s : String) (x : Number) {t : PayloadType} → switch_converted s x ≡ ok t → Switchable t
unfolding switch_converted switch_text
switch_converted-Switchable s nan h =
    switch-Switchable (λ c. same_codes (lower_case (codes s)) (codes c.name)) cases
      cases-All_Switchable h
switch_converted-Switchable s other h = switch_number-Switchable other h
switch_converted-Switchable s (nat n) h = switch_number-Switchable (nat n) h

check_payload_type-Switchable :
    (x : Input) {t : PayloadType} → check_payload_type x ≡ ok t → Switchable t
unfolding check_payload_type
check_payload_type-Switchable (number x) h = switch_number-Switchable x h
check_payload_type-Switchable (text s) h = switch_converted-Switchable s (number_of s) h

check_payload_type-number :
    (t : PayloadType) → OnChain t → check_payload_type (number (nat (payload_code t))) ≡ ok t
unfolding check_payload_type switch_number switch check_request_payload_type payload_from_u8
check_payload_type-number withdraw_order h = refl
check_payload_type-number _ h = ground arith

-- What one unit of the text stands for: an ORDER in 18 decimals, or the number itself.
pub unit_of : PayloadType → ℕ
unit_of t = if is_order_amount t then 10 ^ 18 else 1

module _ (n : BigNumbers) where
  check_payload_stake : (s : String) {payload : Bytes} → check_payload n stake s ≢ ok payload
  unfolding check_payload is_order_amount is_plain_number
  check_payload_stake s h = cc

  check_payload-converted :
      (t : PayloadType) (s : String) {payload : Bytes}
      → check_payload n t s ≡ ok payload
      → (scale : String) × (convert_into_bytes32 n s scale ≡ ok payload)
  unfolding check_payload
  check_payload-converted t s h = elim (Bool-cases (is_order_amount t)) [
    | inl amount ↦ (order_decimals_on_ethereum, rw amount at h)
    | inr other_type ↦ elim (Bool-cases (is_plain_number t)) [
      | inl plain ↦ ("1", rw (other_type, plain) at h)
      | inr refused ↦ cc (rw (other_type, refused) at h)
    ]
  ]

  -- What is known of a prepared pair.
  abbrev Accepted : PayloadType × Bytes → Type 0
  Accepted (t, payload) = OnChain t × (length payload ≡ 32) × ((v : ℕ) × (payload ≡ be_bytes 32 v))

  check_payload-Accepted :
      IsExact n
      → (t : PayloadType) (s : String) {payload : Bytes} → Switchable t
      → check_payload n t s ≡ ok payload
      → Accepted (t, payload)
  check_payload-Accepted exact t s (inl staked) h = absurd (check_payload_stake s (rw staked at h))
  check_payload-Accepted exact t s (inr on_chain) h =
      let (scale, converted) = check_payload-converted t s h in
      let (v, same, _) = convert_into_bytes32-be_bytes n exact s scale converted in
      (on_chain, rw same (length-be_bytes 32 v), (v, same))

  -- Whatever the tasks prepare, the program takes: the payload type is one that `send_request`
  -- accepts, and the payload is the 32-byte form of a number.
  pub prepare_request-OnChain :
      IsExact n
      → (x : Input) (s : String) {t : PayloadType} {payload : Bytes}
      → prepare_request n x s ≡ ok (t, payload)
      → OnChain t × (length payload ≡ 32) × ((v : ℕ) × (payload ≡ be_bytes 32 v))
  unfolding prepare_request
  prepare_request-OnChain exact x s h =
      let (t', typed, next) = >>=-eq-ok (check_payload_type x) _ h in
      let (payload', checked, last) = >>=-eq-ok (check_payload n t' s) _ next in
      subst Accepted (cc last)
        (check_payload-Accepted exact t' s (check_payload_type-Switchable x typed) checked)

  check_payload-exact :
      IsExact n
      → (t : PayloadType) (s : String) (k : ℕ) → OnChain t
      → decimal s ≡ some k
      → k * 10 ^ 18 < 256 ^ 32
      → check_payload n t s ≡ ok (be_bytes 32 (k * unit_of t))
  unfolding check_payload check_request_payload_type payload_from_u8 is_order_amount is_plain_number
      unit_of decimal
  check_payload-exact exact withdraw_order s k h hs fits =
      rw (convert_into_bytes32_lem n exact s order_decimals_on_ethereum k (10 ^ 18) hs refl)
        (ground arith)
  check_payload-exact exact _ s k h hs fits = ground (
    arith,
    convert_into_bytes32_lem n exact s order_decimals_on_ethereum k (10 ^ 18) hs refl,
    convert_into_bytes32_lem n exact s "1" k 1 hs refl,
  )

  -- Each payload type that the program takes can be prepared, by its number.
  pub prepare_request_complete :
      IsExact n
      → (t : PayloadType) (s : String) (k : ℕ) → OnChain t
      → decimal s ≡ some k
      → k * 10 ^ 18 < 256 ^ 32
      → prepare_request n (number (nat (payload_code t))) s ≡ ok (t, be_bytes 32 (k * unit_of t))
  unfolding prepare_request
  prepare_request_complete exact t s k h hs fits =
      rw (check_payload_type-number t h, check_payload-exact exact t s k h hs fits)
