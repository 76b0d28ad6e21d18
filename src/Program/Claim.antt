-- ===== src/Program/Claim.antt =====
-- A claim by proof, `SubmitProof` of programs/solana-proxy/src/instructions/send_claim.rs: the data that
-- a later send_claim sends. keccak is a parameter. The account's bump and its copy of the user are left
-- out; the account is the one that the user's key is a seed of.
pub mod Laws
mod Tests
use solana_proxy.Prelude.{
  ℕ, ◌-◌, Bool, true, false, not, List, [], ◌∷◌, ◌++◌, length, take, drop, replicate, ltb, ◌==◌,
  if◌then◌else◌,
}
use solana_proxy.Bytes.{Bytes, be_bytes}
use solana_proxy.Program.Outcome.{Outcome, done, ◌>>=◌, ◌>>◌, require, proxy_paused}
use solana_proxy.Program.Request.{ClaimData}

pub record SubmitProofParams : Type 0 where
  pub distribution_id : ℕ
  pub cumulative_amount : Bytes
  pub merkle_proof : List Bytes

-- `<` on arrays of bytes
unfoldable bytes_lt : Bytes → Bytes → Bool
bytes_lt _ [] = false
bytes_lt [] (b ∷ bs) = true
bytes_lt (a ∷ as') (b ∷ bs) = if ltb a b then true else if a == b then bytes_lt as' bs else false

-- `to_bytes32`, of at most 32 bytes
unfoldable pub to_bytes32 : Bytes → Bytes
to_bytes32 bytes = replicate (32 - length bytes) 0 ++ bytes

module _ (keccak : Bytes → Bytes) where
  unfoldable pub hash_pair : Bytes → Bytes → Bytes
  unfolding bytes_lt
  hash_pair a b = if bytes_lt a b then keccak (a ++ b) else keccak (b ++ a)

  unfoldable pub process_proof : List Bytes → Bytes → Bytes
  process_proof [] computed_hash = computed_hash
  process_proof (proof_element ∷ proof) computed_hash =
      process_proof proof (hash_pair computed_hash proof_element)

  unfoldable pub solana_to_evm_address : Bytes → Bytes
  solana_to_evm_address solana_address = take 20 (drop 12 (keccak solana_address))

  unfoldable pub calculate_leaf : Bytes → Bytes → Bytes
  calculate_leaf evm_address cumulative_amount =
      keccak (keccak (to_bytes32 evm_address ++ cumulative_amount))

  unfoldable pub submit_proof : Bool → Bytes → SubmitProofParams → Outcome ClaimData
  submit_proof paused user params = do
    require (not paused) proxy_paused
    done (record {
      distribution_id = to_bytes32 (be_bytes 4 params.distribution_id);
      amount = params.cumulative_amount;
      root =
          process_proof params.merkle_proof
            (calculate_leaf (solana_to_evm_address user) params.cumulative_amount);
    })
