-- ===== src/Script/Keys/Sample.antt =====
-- Public keys as lists of numbers: a concrete instance of the parameter, for the examples.
use solana_proxy.Prelude.{ℕ, ◌≡◌, refl, ◌↔◌, true, ◌+◌, ◌==◌, arith, [], ◌∷◌, length, replicate}
use solana_proxy.Bytes.{Bytes}
use solana_proxy.Script.Keys.{PublicKeys, IsLawful}

abbrev head_of : Bytes → ℕ
head_of [] = 0
head_of (b ∷ bs) = b

abbrev pub sample_keys : PublicKeys
sample_keys = record {
  PublicKey = ℕ;
  new_public_key = head_of;
  to_buffer = λ p. p ∷ replicate 31 0;
  default = 0;
  from_base58 = λ text. 1;
  equals = λ p q. p == q;
  to_base58 = λ p. p ∷ [];
  find_program_address_sync = λ seeds program. 7 + length seeds;
}

sample_equals : (p q : ℕ) → ((p == q) ≡ true) ↔ (p ≡ q)
sample_equals p q = ground arith

pub sample_keys-IsLawful : IsLawful sample_keys
sample_keys-IsLawful = record {
  length_to_buffer = λ p. refl;
  new_to_buffer = λ p. refl;
  equals_iff = sample_equals;
  to_base58_injective = λ p q e. cc;
}
