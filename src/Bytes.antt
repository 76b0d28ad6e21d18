-- ===== src/Bytes.antt =====
-- Byte strings (`Buffer`, `Uint8Array`, `Vec<u8>`, `bytes`) as lists of numbers below 256, and the
-- big-endian form of a number in a given width: `Buffer.writeUInt32BE` and `writeBigUInt64BE` in
-- tasks/proxy/pdaHelper.ts, `to_be_bytes` and `from_be_bytes` in programs/.
pub mod Laws
use solana_proxy.Prelude.{ℕ, zero, suc, ◌+◌, ◌*◌, ◌/◌, ◌%◌, ◌<◌, List, [], ◌∷◌, ◌++◌}

abbrev pub IsByte : ℕ → Type 0
IsByte b = b < 256

abbrev pub Bytes : Type 0
Bytes = List ℕ

-- The `w` lowest bytes of `n`, the highest first.
unfoldable pub be_bytes : ℕ → ℕ → Bytes
be_bytes zero n = []
be_bytes (suc w) n = be_bytes w (n / 256) ++ (n % 256) ∷ []

unfoldable pub read_be_from : ℕ → Bytes → ℕ
read_be_from acc [] = acc
read_be_from acc (b ∷ bs) = read_be_from (acc * 256 + b) bs

-- The number that a byte string stands for.
unfoldable pub read_be : Bytes → ℕ
unfolding read_be_from
read_be bs = read_be_from 0 bs
