-- ===== src/Script/Hex.antt =====
-- Hexadecimal texts in tasks/proxy/utils.ts, as their code units: `Buffer.toString('hex')` in
-- publicKeyIntoHex, `b.toString(16).padStart(2, '0')` in convertBytes32ToHex, and
-- `Buffer.from(text, 'hex')` in submitProof.
pub mod Laws
mod Tests
use solana_proxy.Prelude.{
  ℕ, ◌+◌, ◌-◌, ◌*◌, ◌/◌, ◌%◌, Bool, ◌&&◌, Option, none, some, List, [], ◌∷◌, ◌++◌, if◌then◌else◌,
  ltb, leb,
}
use solana_proxy.Bytes.{Bytes}
use solana_proxy.Script.Number.{codes}

-- A digit from '0' to '9' or from 'a' to 'f'.
unfoldable pub hex_digit : ℕ → ℕ
hex_digit d = if ltb d 10 then 48 + d else 87 + d

-- The value of a digit in either case, as `Buffer.from` reads it.
unfoldable pub digit_value : ℕ → Option ℕ
digit_value c =
    if leb 48 c && leb c 57
    then some (c - 48)
    else if leb 97 c && leb c 102
    then some (c - 87)
    else if leb 65 c && leb c 70
    then some (c - 55)
    else none

unfoldable pub bytes_to_hex : Bytes → List ℕ
unfolding hex_digit
bytes_to_hex [] = []
bytes_to_hex (b ∷ bs) = hex_digit (b / 16) ∷ hex_digit (b % 16) ∷ bytes_to_hex bs

abbrev pub cons_byte : Option ℕ → Option ℕ → Bytes → Bytes
cons_byte (some high) (some low) rest = (high * 16 + low) ∷ rest
cons_byte _ _ rest = []

-- `Buffer.from(text, 'hex')`: it ends before the first pair that is not two digits, and drops a last
-- unit that stands alone.
unfoldable pub bytes_from_hex : List ℕ → Bytes
unfolding digit_value
bytes_from_hex [] = []
bytes_from_hex (c ∷ []) = []
bytes_from_hex (c ∷ d ∷ text) = cons_byte (digit_value c) (digit_value d) (bytes_from_hex text)

unfoldable pub convert_bytes32_to_hex : Bytes → List ℕ
convert_bytes32_to_hex bytes32 = codes "0x" ++ bytes_to_hex bytes32
