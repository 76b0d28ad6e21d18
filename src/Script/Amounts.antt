-- ===== src/Script/Amounts.antt =====
-- Amounts as 32 bytes: `convertIntoBytes32`, `getOrderAmountInBytes32` and
-- `getOrderAmountInBigInt` of tasks/proxy/utils.ts, with the scale factors of
-- tasks/proxy/constants.ts. The arithmetic of ethers is a parameter.
pub mod Laws
pub mod Exact
mod Tests
use solana_proxy.Prelude.{
  ℕ, ◌+◌, ◌*◌, ◌-◌, ◌^◌, ◌≤◌, ◌<◌, ◌≡◌, ◌&&◌, Option, none, some, List, [], ◌∷◌, String, Result, ok,
  ◌>>=◌, or_throw, invalid_number, value_out_of_range, ℤ, pos, negsuc, leb, if◌then◌else◌,
}
use solana_proxy.Bytes.{Bytes, be_bytes}
use solana_proxy.Script.Number.{codes}

-- What the tasks call of ethers.
pub record BigNumbers : Type 1 where
  pub BigNumber : Type 0
  -- `ethers.BigNumber.from(text)`; `none` where it throws.
  pub from : String → Option BigNumber
  pub mul : BigNumber → BigNumber → BigNumber
  -- `ethers.utils.zeroPad(b.toHexString(), width)`; `none` where it throws.
  pub zero_pad : BigNumber → ℕ → Option Bytes
  -- `b.toBigInt()`
  pub to_big_int : BigNumber → ℤ

-- The value of a text of decimal digits.
decimal_from : ℕ → List ℕ → Option ℕ
decimal_from acc [] = some acc
decimal_from acc (c ∷ s) =
    let rest = decimal_from (acc * 10 + (c - b'0')) s in
    if leb b'0' c && leb c b'9' then rest else none

unfoldable pub decimal : String → Option ℕ
unfolding decimal_from
decimal s = elim (codes s) [ [] ↦ none | c ∷ r ↦ decimal_from 0 (c ∷ r) ]

-- What ethers documents of them: numbers are exact, and padding never cuts.
module _ (n : BigNumbers) where
  open n use {BigNumber, from, mul, zero_pad, to_big_int}

  pub record IsExact : Type 0 where
    pub from_decimal :
        (s : String) (k : ℕ)
        → decimal s ≡ some k
        → (b : BigNumber) × (from s ≡ some b) × (to_big_int b ≡ pos k)
    pub mul_pos :
        (a b : BigNumber) (j k : ℕ)
        → to_big_int a ≡ pos j
        → to_big_int b ≡ pos k
        → to_big_int (mul a b) ≡ pos (j * k)
    pub zero_pad_fits :
        (b : BigNumber) (k w : ℕ)
        → to_big_int b ≡ pos k
        → k < 256 ^ w
        → zero_pad b w ≡ some (be_bytes w k)
    pub zero_pad_wide :
        (b : BigNumber) (k w : ℕ) → to_big_int b ≡ pos k → 256 ^ w ≤ k → zero_pad b w ≡ none
    pub zero_pad_negative :
        (b : BigNumber) (k w : ℕ) → to_big_int b ≡ negsuc k → zero_pad b w ≡ none

-- The scale factors are built by `ethers.BigNumber.from` when the module is loaded.
abbrev pub order_decimals_on_ethereum : String
order_decimals_on_ethereum = "1000000000000000000"

abbrev pub order_decimals_on_solana : String
order_decimals_on_solana = "10000000000"

module _ (n : BigNumbers) where
  open n use {BigNumber, from, mul, zero_pad, to_big_int}

  -- `BigNumber.from(amount).mul(scale)`
  unfoldable pub scaled_amount : String → String → Result BigNumber
  scaled_amount amount scale = do
    factor ← or_throw invalid_number (from scale)
    b ← or_throw invalid_number (from amount)
    ok (mul b factor)

  unfoldable pub convert_into_bytes32 : String → String → Result Bytes
  convert_into_bytes32 amount scale = do
    b ← scaled_amount amount scale
    or_throw value_out_of_range (zero_pad b 32)

  unfoldable pub get_order_amount_in_bytes32 : String → Result Bytes
  get_order_amount_in_bytes32 amount = do
    b ← scaled_amount amount order_decimals_on_ethereum
    or_throw value_out_of_range (zero_pad b 32)

  unfoldable pub get_order_amount_in_big_int : String → Result ℤ
  get_order_amount_in_big_int amount = do
    b ← scaled_amount amount order_decimals_on_solana
    ok (to_big_int b)
