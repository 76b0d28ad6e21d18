-- ===== src/Script/Hex/Laws.antt =====
-- Writing bytes as a text and reading them back.
use solana_proxy.Prelude.{ℕ, ◌/◌, ◌%◌, ◌<◌, ◌≡◌, refl, ap, some, [], ◌∷◌, All, arith}
use solana_proxy.Bytes.{Bytes, IsByte}
use solana_proxy.Script.Hex.{
  hex_digit, digit_value, bytes_to_hex, bytes_from_hex, convert_bytes32_to_hex,
}

digit_value-hex_digit : (d : ℕ) → d < 16 → digit_value (hex_digit d) ≡ some d
unfolding digit_value hex_digit
digit_value-hex_digit d h = ground (arith, h)

-- `Buffer.from(buffer.toString('hex'), 'hex')` is the buffer again.
pub bytes_from_hex-bytes_to_hex :
    (bs : Bytes) → All IsByte bs → bytes_from_hex (bytes_to_hex bs) ≡ bs
unfolding bytes_from_hex bytes_to_hex
bytes_from_hex-bytes_to_hex [] _ = refl
bytes_from_hex-bytes_to_hex (b ∷ bs) (h, hs) =
    rw
      (
        digit_value-hex_digit (b / 16) (omega (arith, h)),
        digit_value-hex_digit (b % 16) (omega arith),
        bytes_from_hex-bytes_to_hex bs hs,
      )
      (ap (λ n. n ∷ bs) (omega arith))

-- A text with the prefix `0x`, such as `convertBytes32ToHex` gives, reads as no bytes at all.
pub bytes_from_hex-convert_bytes32_to_hex :
    (bs : Bytes) → bytes_from_hex (convert_bytes32_to_hex bs) ≡ []
unfolding bytes_from_hex convert_bytes32_to_hex digit_value
bytes_from_hex-convert_bytes32_to_hex bs = refl
