-- ===== src/Script/Amounts/Laws.antt =====
-- The amount helpers give the exact product as 32 bytes, or refuse.
use solana_proxy.Prelude.{
  ℕ, ◌*◌, ◌^◌, ◌<◌, ◌≡◌, refl, ◌∙◌, ap, some, String, ok, throw, or_throw, value_out_of_range, ℤ,
  pos, negsuc, ltb, >>=-eq-ok, if◌then◌else◌, Bool-cases, inl, inr, arith,
}
use solana_proxy.Bytes.{Bytes, be_bytes}
use solana_proxy.Script.Amounts.{
  BigNumbers, IsExact, decimal, scaled_amount, convert_into_bytes32, get_order_amount_in_bytes32,
  get_order_amount_in_big_int, order_decimals_on_ethereum, order_decimals_on_solana,
}

module _ (n : BigNumbers) (exact : IsExact n) where
  open n use {BigNumber, to_big_int, zero_pad}

  scaled_amount_lem :
      (amount scale : String) (k f : ℕ)
      → decimal amount ≡ some k
      → decimal scale ≡ some f
      → (b : BigNumber) × (scaled_amount n amount scale ≡ ok b) × (to_big_int b ≡ pos (k * f))
  unfolding scaled_amount
  scaled_amount_lem amount scale k f ha hs =
      let (a, a_read, a_value) = exact.from_decimal amount k ha in
      let (s, s_read, s_value) = exact.from_decimal scale f hs in
      (n.mul a s, rw (s_read, a_read), exact.mul_pos a s k f a_value s_value)

  padded :
      (b : BigNumber) (v w : ℕ)
      → to_big_int b ≡ pos v
      → or_throw value_out_of_range (zero_pad b w)
        ≡ (if ltb v (256 ^ w) then ok (be_bytes w v) else throw value_out_of_range)
  padded b v w h = elim (Bool-cases (ltb v (256 ^ w))) [
    | inl fits ↦ rw (fits, exact.zero_pad_fits b v w h (ground arith))
    | inr wide ↦ rw (wide, exact.zero_pad_wide b v w h (ground arith))
  ]

  -- Of an amount and a scale that are texts of decimal digits, `convertIntoBytes32` gives the 32-byte
  -- form of their product, and throws when it takes more than 32 bytes.
  pub convert_into_bytes32_lem :
      (amount scale : String) (k f : ℕ)
      → decimal amount ≡ some k
      → decimal scale ≡ some f
      → convert_into_bytes32 n amount scale
        ≡ (if ltb (k * f) (256 ^ 32) then ok (be_bytes 32 (k * f)) else throw value_out_of_range)
  unfolding convert_into_bytes32
  convert_into_bytes32_lem amount scale k f ha hs =
      let (b, scaled, value) = scaled_amount_lem amount scale k f ha hs in
      rw scaled (padded b (k * f) 32 value)

  -- The same text of ORDER in both units: 10 ^ 10 to one ORDER on Solana, 10 ^ 18 on EVM chains.
  pub get_order_amounts-agree :
      (amount : String) (k : ℕ)
      → decimal amount ≡ some k
      → (get_order_amount_in_big_int n amount ≡ ok (pos (k * 10 ^ 10)))
        × (get_order_amount_in_bytes32 n amount ≡ (
            if ltb (k * 10 ^ 10 * 10 ^ 8) (256 ^ 32)
            then ok (be_bytes 32 (k * 10 ^ 10 * 10 ^ 8))
            else throw value_out_of_range))
  unfolding get_order_amount_in_big_int get_order_amount_in_bytes32 decimal
  get_order_amounts-agree amount k ha =
      let (b, b_scaled, b_value) =
        scaled_amount_lem amount order_decimals_on_solana k (10 ^ 10) ha refl in
      let (c, c_scaled, c_value) =
        scaled_amount_lem amount order_decimals_on_ethereum k (10 ^ 18) ha refl in
      (
        rw (b_scaled, b_value) refl,
        rw c_scaled (padded c (k * 10 ^ 10 * 10 ^ 8) 32 (c_value ∙ ap pos (omega arith))),
      )

  of_padding :
      (b : BigNumber) (z : ℤ) {payload : Bytes}
      → to_big_int b ≡ z
      → or_throw value_out_of_range (zero_pad b 32) ≡ ok payload
      → (v : ℕ) × (payload ≡ be_bytes 32 v) × (v < 256 ^ 32)
  of_padding b (pos v) e padding = elim (Bool-cases (ltb v (256 ^ 32))) [
    | inl fits ↦ (v, cc (rw (padded b v 32 e, fits) at padding), ground arith)
    | inr wide ↦ cc (rw (padded b v 32 e, wide) at padding)
  ]
  of_padding b (negsuc v) e padding = cc (rw (exact.zero_pad_negative b v 32 e) at padding)

  -- Whatever is returned is the 32-byte form of a number.
  pub convert_into_bytes32-be_bytes :
      (amount scale : String) {payload : Bytes}
      → convert_into_bytes32 n amount scale ≡ ok payload
      → (v : ℕ) × (payload ≡ be_bytes 32 v) × (v < 256 ^ 32)
  unfolding convert_into_bytes32
  convert_into_bytes32-be_bytes amount scale h =
      let (b, _, padding) = >>=-eq-ok (scaled_amount n amount scale) _ h in
      of_padding b (to_big_int b) refl padding
