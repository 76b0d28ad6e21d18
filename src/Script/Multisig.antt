-- ===== src/Script/Multisig.antt =====
-- tasks/solana/multisig.ts: checkMultisigSigners, from the account's information on. The two token
-- programs' ids are those of `@solana/spl-token`.
pub mod Laws
mod Tests
use solana_proxy.Prelude.{
  ℕ, zero, suc, ◌+◌, ◌-◌, ◌*◌, ◌==◌, Bool, true, false, not, ◌&&◌, ◌||◌, Option, none, some, List,
  [], ◌∷◌, if◌then◌else◌, get_elem?, take, drop, Error, Result, ok, throw, ◌>>=◌, ◌>>◌, require,
}
use solana_proxy.Bytes.{Bytes}
use solana_proxy.Script.Sorting.Texts.{same_text}
use solana_proxy.Script.Keys.{PublicKeys}

-- `data[i]`, as a number of rounds: none when it is `undefined`.
abbrev pub rounds : Option ℕ → ℕ
rounds none = 0
rounds (some n) = n

abbrev pub is_one : Option ℕ → Bool
is_one none = false
is_one (some m) = m == 1

-- `Buffer.slice(start, end)`, which stops at the end of the data.
unfoldable pub buffer_slice : ℕ → ℕ → Bytes → Bytes
buffer_slice start end bytes = take (end - start) (drop start bytes)

module _ (k : PublicKeys) where
  open k use {PublicKey, new_public_key, default, equals, to_base58}

  pub record Account : Type 0 where
    pub owner : PublicKey
    pub account_data : Bytes

  -- The key at `signerOffset + i * signerSize`.
  unfoldable pub signer_at : Bytes → ℕ → PublicKey
  unfolding buffer_slice
  signer_at bytes i =
      let start = 3 + i * 32 in new_public_key (buffer_slice start (start + 32) bytes)

  -- The loop from `i`, with `n` rounds left: the keys that it pushes.
  unfoldable pub signers_from : Bytes → ℕ → ℕ → List PublicKey
  signers_from bytes i zero = []
  signers_from bytes i (suc n) =
      let rest = signers_from bytes (suc i) n in
      if not (equals (signer_at bytes i) default) then signer_at bytes i ∷ rest else rest

  -- `signers.find((s) => s.toBase58() == signer.toBase58())`, as a test.
  unfoldable pub is_found : List PublicKey → PublicKey → Bool
  is_found [] signer = false
  is_found (s ∷ signers) signer =
      if same_text (to_base58 s) (to_base58 signer) then true else is_found signers signer

  unfoldable pub expect_signers : List PublicKey → List PublicKey → Result (Unit {0})
  expect_signers signers [] = ok tt
  expect_signers signers (signer ∷ expected) =
      require (is_found signers signer) (Error.signer_not_found (to_base58 signer))
      >> expect_signers signers expected

  unfoldable pub check_multisig_signers :
      PublicKey → PublicKey → Account → List PublicKey → Result (List PublicKey)
  check_multisig_signers token_program token_2022_program account expected = do
    require (equals account.owner token_program || equals account.owner token_2022_program)
        Error.not_a_multisig
    require (is_one (get_elem? account.account_data 0)) Error.not_one_required_signer
    expect_signers (signers_from account.account_data 0 (rounds (get_elem? account.account_data 1)))
        expected
    ok (signers_from account.account_data 0 (rounds (get_elem? account.account_data 1)))
