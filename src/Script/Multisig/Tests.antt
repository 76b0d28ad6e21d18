-- ===== src/Script/Multisig/Tests.antt =====
-- The signer check on a small multisig account, with keys that are numbers.
use solana_proxy.Prelude.{
  ℕ, ◌≡◌, ◌≢◌, ◌↔◌, refl, ◌⊎◌, [], ◌∷◌, some, get_elem?, All, ok, throw, Error, replicate,
}
use solana_proxy.Script.Sorting.Texts.{same_text}
use solana_proxy.Script.Keys.Sample.{sample_keys, sample_keys-IsLawful}
use solana_proxy.Script.Multisig.{
  Account, check_multisig_signers, signers_from, signer_at, buffer_slice, expect_signers, is_found,
}
use solana_proxy.Script.Multisig.Laws.{
  check_multisig_signers_sound, check_multisig_signers_complete, multisig_data,
}
use mathlib.Core.List.{Memᴰ}

-- Two signers, 5 and 9, and an empty slot.
abbrev account : Account sample_keys
account = record {
  owner = 70;
  account_data = multisig_data sample_keys sample_keys-IsLawful 1 (5 ∷ 0 ∷ 9 ∷ []) (replicate 64 0);
}

check_multisig_signers_sound_example :
    ((account.owner ≡ 70) ⊎ (account.owner ≡ 71))
    × (get_elem? account.account_data 0 ≡ some 1)
    × All (λ (p : ℕ). p ≢ 0) (5 ∷ 9 ∷ [])
    × All (λ (p : ℕ). Memᴰ p (5 ∷ 9 ∷ [])) (9 ∷ [])
unfolding check_multisig_signers signers_from signer_at buffer_slice expect_signers is_found
    same_text
check_multisig_signers_sound_example =
    check_multisig_signers_sound sample_keys sample_keys-IsLawful 70 71 account (9 ∷ [])
      (5 ∷ 9 ∷ []) refl

check_multisig_signers_complete_example :
    (check_multisig_signers sample_keys 70 71 account (9 ∷ []) ≡ ok (5 ∷ 9 ∷ []))
    ↔ All (λ (p : ℕ). Memᴰ p (5 ∷ 9 ∷ [])) (9 ∷ [])
check_multisig_signers_complete_example =
    check_multisig_signers_complete sample_keys sample_keys-IsLawful 70 71 (5 ∷ 0 ∷ 9 ∷ [])
      (replicate 64 0) (9 ∷ [])

missing_signer :
    check_multisig_signers sample_keys 70 71 account (8 ∷ [])
    ≡ throw (Error.signer_not_found (8 ∷ []))
unfolding check_multisig_signers signers_from signer_at buffer_slice expect_signers is_found
    same_text
missing_signer = refl
