-- ===== src/Program/Claim/Tests.antt =====
-- A claim with one sibling, where the last 32 bytes of a text stand for its hash.
use solana_proxy.Prelude.{
  ◌-◌, ◌≡◌, refl, true, false, [], ◌∷◌, ◌++◌, drop, length, replicate, arith,
}
use solana_proxy.Bytes.{Bytes, be_bytes}
use solana_proxy.Program.Outcome.{done, failed, proxy_paused}
use solana_proxy.Program.Request.{ClaimData, encode_claim_payload}
use solana_proxy.Program.Claim.{
  SubmitProofParams, submit_proof, calculate_leaf, solana_to_evm_address,
}
use solana_proxy.Program.Claim.Laws.{
  submit_proof-encode_claim_payload, Tree, leaf, node, root, here, on_left,
}

abbrev keccak : Bytes → Bytes
keccak text = drop (length text - 32) text

abbrev user : Bytes
user = replicate 32 5

abbrev claimed_leaf : Bytes
claimed_leaf = calculate_leaf keccak (solana_to_evm_address keccak user) (be_bytes 32 7)

abbrev tree : Tree keccak
tree = node (leaf claimed_leaf) (leaf (replicate 32 9))

abbrev params : SubmitProofParams
params = record {
  distribution_id = 3;
  cumulative_amount = be_bytes 32 7;
  merkle_proof = replicate 32 9 ∷ [];
}

run_paused : submit_proof keccak true user params ≡ failed proxy_paused
unfolding submit_proof
run_paused = refl

submit_proof-encode_claim_payload_example :
    (claim : ClaimData) × (submit_proof keccak false user params ≡ done claim)
    × (encode_claim_payload claim ≡ be_bytes 32 3 ++ (be_bytes 32 7 ++ root keccak tree))
submit_proof-encode_claim_payload_example =
    submit_proof-encode_claim_payload keccak user params tree (omega arith)
      (on_left [] (leaf claimed_leaf) (leaf (replicate 32 9)) here)
