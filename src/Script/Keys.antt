-- ===== src/Script/Keys.antt =====
-- The public keys of `@solana/web3.js`, as the tasks use them: the constructor on bytes, `toBuffer`,
-- `equals`, `toBase58` and `findProgramAddressSync`, which is given without its bump.
pub mod Sample
use solana_proxy.Prelude.{ℕ, ◌≡◌, ◌↔◌, String, Bool, true, List, All, length}
use solana_proxy.Bytes.{Bytes, IsByte}

pub record PublicKeys : Type 1 where
  pub PublicKey : Type 0
  pub new_public_key : Bytes → PublicKey
  pub to_buffer : PublicKey → Bytes
  pub default : PublicKey
  -- `new PublicKey` on a text.
  pub from_base58 : String → PublicKey
  pub equals : PublicKey → PublicKey → Bool
  pub to_base58 : PublicKey → List ℕ
  pub find_program_address_sync : List Bytes → PublicKey → PublicKey

-- A key is 32 bytes, each key is made from its own, and both comparisons tell all keys apart.
pub record IsLawful (k : PublicKeys) : Type 0 where
  pub length_to_buffer : (p : k.PublicKey) → length (k.to_buffer p) ≡ 32
  pub new_to_buffer : (p : k.PublicKey) → k.new_public_key (k.to_buffer p) ≡ p
  pub equals_iff : (p q : k.PublicKey) → (k.equals p q ≡ true) ↔ (p ≡ q)
  pub to_base58_injective : (p q : k.PublicKey) → k.to_base58 p ≡ k.to_base58 q → p ≡ q
