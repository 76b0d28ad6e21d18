-- ===== src/Script/Amounts/Exact.antt =====
-- Integers in place of the numbers of ethers: they meet what is assumed of them.
use solana_proxy.Prelude.{
  ℕ, ◌+◌, ◌*◌, ◌^◌, ◌≤◌, ◌<◌, ◌≡◌, refl, zero, suc, Option, none, some, ℤ, pos, negsuc, ltb,
  if◌then◌else◌, arith,
}
use solana_proxy.Bytes.{Bytes, be_bytes}
use solana_proxy.Script.Amounts.{BigNumbers, IsExact, decimal}
use mathlib.Core.Option

abbrev negate : ℕ → ℤ
negate zero = pos 0
negate (suc n) = negsuc n

abbrev mul_ℤ : ℤ → ℤ → ℤ
mul_ℤ (pos a) (pos b) = pos (a * b)
mul_ℤ (pos a) (negsuc b) = negate (a * (b + 1))
mul_ℤ (negsuc a) (pos b) = negate ((a + 1) * b)
mul_ℤ (negsuc a) (negsuc b) = pos ((a + 1) * (b + 1))

abbrev zero_pad_ℤ : ℤ → ℕ → Option Bytes
zero_pad_ℤ (pos k) w = if ltb k (256 ^ w) then some (be_bytes w k) else none
zero_pad_ℤ (negsuc k) w = none

abbrev pub integers : BigNumbers
integers = record {
  BigNumber = ℤ;
  from = λ s. Option.map pos (decimal s);
  mul = mul_ℤ;
  zero_pad = zero_pad_ℤ;
  to_big_int = λ z. z;
}

zero_pad_ℤ-fits : (b : ℤ) (k w : ℕ) → b ≡ pos k → k < 256 ^ w → zero_pad_ℤ b w ≡ some (be_bytes w k)
zero_pad_ℤ-fits b k w e h = rw e (ground arith)

zero_pad_ℤ-wide : (b : ℤ) (k w : ℕ) → b ≡ pos k → 256 ^ w ≤ k → zero_pad_ℤ b w ≡ none
zero_pad_ℤ-wide b k w e h = rw e (ground arith)

pub integers-IsExact : IsExact integers
integers-IsExact = record {
  from_decimal = λ s k e. (pos k, rw e, refl);
  mul_pos = λ a b j k e f. rw (e, f);
  zero_pad_fits = zero_pad_ℤ-fits;
  zero_pad_wide = zero_pad_ℤ-wide;
  zero_pad_negative = λ b k w e. rw e;
}
