-- ===== src/Program/Claim/Laws.antt =====
-- The root that a proof leads to.
use solana_proxy.Prelude.{
  ℕ, ◌^◌, ◌<◌, ◌≡◌, Bool-cases, ◌⊎◌, inl, inr, refl, sym, ap, ◌∙◌, subst, true, false, List, [],
  ◌∷◌, ◌++◌, ltb, ◌==◌, arith,
}
use solana_proxy.Bytes.{Bytes, be_bytes}
use solana_proxy.Bytes.Laws.{length-be_bytes, be_bytes-pad}
use solana_proxy.Program.Outcome.{done}
use solana_proxy.Program.Request.{ClaimData, encode_claim_payload}
use solana_proxy.Program.Claim.{
  SubmitProofParams, bytes_lt, to_bytes32, hash_pair, process_proof, solana_to_evm_address,
  calculate_leaf, submit_proof,
}

-- Two numbers are in one of the two orders, or the same.
numbers :
    (a b : ℕ)
    → ((ltb a b ≡ true) × (ltb b a ≡ false) × ((b == a) ≡ false))
      ⊎ (((ltb b a ≡ true) × (ltb a b ≡ false) × ((a == b) ≡ false)) ⊎ (a ≡ b))
numbers a b = elim (Bool-cases (ltb a b)) [
  | inl h ↦ inl (h, ground (arith, h), ground (arith, h))
  | inr h ↦ elim (Bool-cases (ltb b a)) [
    | inl k ↦ inr (inl (k, h, ground (arith, k)))
    | inr k ↦ inr (inr (ground (arith, h, k)))
  ]
]

same_head : (a : ℕ) → (ltb a a ≡ false) × ((a == a) ≡ true)
same_head a = (ground arith, ground arith)

-- Two byte strings are in one of the two orders, or the same.
abbrev Ordered : Bytes → Bytes → Type 0
Ordered a b =
    ((bytes_lt a b ≡ true) × (bytes_lt b a ≡ false))
    ⊎ (((bytes_lt a b ≡ false) × (bytes_lt b a ≡ true)) ⊎ (a ≡ b))

ordered : (a b : Bytes) → Ordered a b
unfolding bytes_lt
ordered [] [] = inr (inr refl)
ordered [] (b ∷ bs) = inl (refl, refl)
ordered (a ∷ as') [] = inr (inl (refl, refl))
ordered (a ∷ as') (b ∷ bs) = elim (numbers a b) [
  | inl (p, q, r) ↦ rw (p, q, r) (inl (refl, refl))
  | inr (inl (p, q, r)) ↦ rw (p, q, r) (inr (inl (refl, refl)))
  | inr (inr e) ↦
      subst (λ c. Ordered (a ∷ as') (c ∷ bs)) e
        (let (l, s) = same_head a in
          elim (ordered as' bs) [
            | inl (p, q) ↦ rw (l, s, p, q) (inl (refl, refl))
            | inr (inl (p, q)) ↦ rw (l, s, p, q) (inr (inl (refl, refl)))
            | inr (inr f) ↦ inr (inr (ap (λ t. a ∷ t) f))
          ])
]

to_bytes32-be_bytes : (n : ℕ) → n < 2 ^ 32 → to_bytes32 (be_bytes 4 n) ≡ be_bytes 32 n
unfolding to_bytes32
to_bytes32-be_bytes n h = rw (length-be_bytes 4 n) (sym (be_bytes-pad 28 4 n h))

module _ (keccak : Bytes → Bytes) where
  hash_pair_comm : (a b : Bytes) → hash_pair keccak a b ≡ hash_pair keccak b a
  unfolding hash_pair
  hash_pair_comm a b = elim (ordered a b) [
    | inl (p, q) ↦ rw (p, q) refl
    | inr (inl (p, q)) ↦ rw (p, q) refl
    | inr (inr e) ↦ rw e refl
  ]

  pub data Tree : Type 0 where
    leaf : Bytes → Tree
    node : Tree → Tree → Tree

  abbrev pub root : Tree → Bytes
  root (leaf h) = h
  root (node t u) = hash_pair keccak (root t) (root u)

  -- The leaf `h` of a tree, and the siblings on the way from it to the root.
  pub data PathTo (h : Bytes) : List Bytes → Tree → Type 0 where
    here : PathTo h [] (leaf h)
    on_left : (p : List Bytes) (t u : Tree) → PathTo h p t → PathTo h (p ++ root u ∷ []) (node t u)
    on_right : (p : List Bytes) (t u : Tree) → PathTo h p u → PathTo h (p ++ root t ∷ []) (node t u)

  process_proof-append :
      (p : List Bytes) (b h : Bytes)
      → process_proof keccak (p ++ b ∷ []) h ≡ hash_pair keccak (process_proof keccak p h) b
  unfolding process_proof
  process_proof-append [] b h = refl
  process_proof-append (c ∷ p) b h = process_proof-append p b (hash_pair keccak h c)

  process_proof-root :
      (h : Bytes) (p : List Bytes) (t : Tree) → PathTo h p t → process_proof keccak p h ≡ root t
  unfolding process_proof
  process_proof-root h _ _ here = refl
  process_proof-root h _ _ (on_left p t u m) =
      process_proof-append p (root u) h
      ∙ ap (λ x. hash_pair keccak x (root u)) (process_proof-root h p t m)
  process_proof-root h _ _ (on_right p t u m) =
      process_proof-append p (root t) h
      ∙ (ap (λ x. hash_pair keccak x (root t)) (process_proof-root h p u m)
          ∙ hash_pair_comm (root u) (root t))

  -- Off a pause, a proof that leads from the leaf of a user and an amount to the root of a Merkle tree,
  -- whose inner nodes hash their two children in the order of hash_pair, leaves claim data whose payload is
  -- the distribution's number, a u32, in 32 bytes, the amount, and the root of that tree.
  pub submit_proof-encode_claim_payload :
      (user : Bytes) (params : SubmitProofParams) (t : Tree)
      → params.distribution_id < 2 ^ 32
      → PathTo
          (calculate_leaf keccak (solana_to_evm_address keccak user) params.cumulative_amount)
          params.merkle_proof
          t
      → (claim : ClaimData) × (submit_proof keccak false user params ≡ done claim)
        × (encode_claim_payload claim
            ≡ be_bytes 32 params.distribution_id ++ (params.cumulative_amount ++ root t))
  unfolding submit_proof encode_claim_payload
  submit_proof-encode_claim_payload user params t small member = (
    _,
    refl,
    rw
        (
          to_bytes32-be_bytes params.distribution_id small,
          process_proof-root _ params.merkle_proof t member,
        )
        refl,
  )
