-- ===== src/Script/Multisig/Laws.antt =====
-- What a passed check says about a multisig account, and that the check passes on the layout of the
-- token program.
use solana_proxy.Prelude.{
  ℕ, zero, suc, ◌+◌, ◌-◌, append_assoc, ◌*◌, ◌≡◌, ◌≢◌, ◌↔◌, refl, sym, ap, ◌∙◌, ◌⊎◌, inl, inr, true,
  not, ◌||◌, Option, none, some, subst, List, [], ◌∷◌, ◌++◌, if◌then◌else◌, length, take, drop,
  get_elem?, take-append_length, drop-append_length, All, ok, >>=-eq-ok, ◌>>◌, Bool-cases, arith,
}
use solana_proxy.Bytes.{Bytes}
use solana_proxy.Script.Sorting.Texts.{same_text, same_iff_lem}
use solana_proxy.Script.Keys.{PublicKeys, IsLawful}
use solana_proxy.Script.Multisig.{
  Account, signer_at, buffer_slice, signers_from, is_found, expect_signers, check_multisig_signers,
  rounds, is_one,
}
use mathlib.Core.List.{Memᴰ}
use native.Mathlib.Nat.{zero-add, suc-add}

drop_add {ℓ} : {A : Type ℓ} (i j : ℕ) (xs : List A) → drop (i + j) xs ≡ drop j (drop i xs)
drop_add zero j xs = rw (zero-add j) refl
drop_add (suc i) zero [] = rw (suc-add i 0) refl
drop_add (suc i) (suc j) [] = rw (suc-add i (suc j)) refl
drop_add (suc i) j (x ∷ xs) = rw (suc-add i j) (drop_add i j xs)

window : (i : ℕ) → 3 + i * 32 + 32 - (3 + i * 32) ≡ 32
window i = omega arith

stride : (i : ℕ) → 3 + suc i * 32 ≡ 3 + i * 32 + 32
stride i = omega arith

is_one-eq : (o : Option ℕ) → is_one o ≡ true → o ≡ some 1
is_one-eq none h = cc
is_one-eq (some m) h = ap some (ground (arith, h))

module _ (k : PublicKeys) (lawful : IsLawful k) where
  open k use {PublicKey, default, equals, to_buffer, to_base58}

  abbrev pub non_default : List PublicKey → List PublicKey
  non_default [] = []
  non_default (p ∷ ps) = if not (equals p default) then p ∷ non_default ps else non_default ps

  abbrev pub buffers : List PublicKey → Bytes
  buffers [] = []
  buffers (p ∷ ps) = to_buffer p ++ buffers ps

  is_found-Memᴰ :
      (signers : List PublicKey) (p : PublicKey) → is_found k signers p ≡ true → Memᴰ p signers
  unfolding is_found
  is_found-Memᴰ [] p h = ground (arith, h)
  is_found-Memᴰ (s ∷ signers) p h = elim (Bool-cases (same_text (to_base58 s) (to_base58 p))) [
    | inl same ↦
        Memᴰ.head
          (sym (lawful.to_base58_injective s p ((same_iff_lem (to_base58 s) (to_base58 p)).0 same)))
    | inr other ↦ Memᴰ.tail (is_found-Memᴰ signers p (rw other at h))
  ]

  Memᴰ-is_found :
      (signers : List PublicKey) (p : PublicKey) → Memᴰ p signers → is_found k signers p ≡ true
  unfolding is_found
  Memᴰ-is_found [] p m = elim m [ ]
  Memᴰ-is_found (s ∷ signers) p (Memᴰ.head e) =
      rw e (rw ((same_iff_lem (to_base58 s) (to_base58 s)).1 refl) refl)
  Memᴰ-is_found (s ∷ signers) p (Memᴰ.tail m) = ground (arith, Memᴰ-is_found signers p m)

  first_key : (p : PublicKey) (rest : Bytes) → k.new_public_key (take 32 (to_buffer p ++ rest)) ≡ p
  first_key p rest =
      ap (λ n. k.new_public_key (take n (to_buffer p ++ rest))) (sym (lawful.length_to_buffer p))
      ∙ ap k.new_public_key (take-append_length (to_buffer p) rest)
      ∙ lawful.new_to_buffer p

  past_key : (p : PublicKey) (rest : Bytes) → drop 32 (to_buffer p ++ rest) ≡ rest
  past_key p rest =
      ap (λ n. drop n (to_buffer p ++ rest)) (sym (lawful.length_to_buffer p))
      ∙ drop-append_length (to_buffer p) rest

  signers_from-buffers :
      (bytes rest : Bytes) (i : ℕ) (ps : List PublicKey)
      → drop (3 + i * 32) bytes ≡ buffers ps ++ rest
      → signers_from k bytes i (length ps) ≡ non_default ps
  unfolding signers_from signer_at buffer_slice
  signers_from-buffers bytes rest i [] h = refl
  signers_from-buffers bytes rest i (p ∷ ps) h =
      let found : drop (3 + i * 32) bytes ≡ to_buffer p ++ (buffers ps ++ rest) =
        h ∙ append_assoc (to_buffer p) (buffers ps) rest in
      let here : signer_at k bytes i ≡ p =
        ap (λ n. k.new_public_key (take n (drop (3 + i * 32) bytes))) (window i)
        ∙ ap (λ d. k.new_public_key (take 32 d)) found
        ∙ first_key p (buffers ps ++ rest) in
      let next : drop (3 + suc i * 32) bytes ≡ buffers ps ++ rest =
        ap (λ n. drop n bytes) (stride i)
        ∙ drop_add (3 + i * 32) 32 bytes
        ∙ ap (λ d. drop 32 d) found
        ∙ past_key p (buffers ps ++ rest) in
      rw (here, signers_from-buffers bytes rest (suc i) ps next) refl

  expect_signers_sound :
      (signers expected : List PublicKey)
      → expect_signers k signers expected ≡ ok tt
      → All (λ p. Memᴰ p signers) expected
  unfolding expect_signers
  expect_signers_sound signers [] _ = tt
  expect_signers_sound signers (p ∷ ps) h = elim (Bool-cases (is_found k signers p)) [
    | inl found ↦ (is_found-Memᴰ signers p found, expect_signers_sound signers ps (rw found at h))
    | inr missing ↦ cc (rw missing at h)
  ]

  expect_signers_complete :
      (signers expected : List PublicKey)
      → All (λ p. Memᴰ p signers) expected
      → expect_signers k signers expected ≡ ok tt
  unfolding expect_signers
  expect_signers_complete signers [] _ = refl
  expect_signers_complete signers (p ∷ ps) (m, ms) =
      rw (Memᴰ-is_found signers p m) (expect_signers_complete signers ps ms)

  signers_from-not_default :
      (bytes : Bytes) (i n : ℕ) → All (λ p. p ≢ default) (signers_from k bytes i n)
  unfolding signers_from
  signers_from-not_default bytes i zero = tt
  signers_from-not_default bytes i (suc n) =
      elim (Bool-cases (equals (signer_at k bytes i) default)) [
        | inl is_default ↦ rw is_default (signers_from-not_default bytes (suc i) n)
        | inr other ↦ rw other (
          λ e. cc (other, (lawful.equals_iff (signer_at k bytes i) default).1 e),
          signers_from-not_default bytes (suc i) n,
        )
      ]

  owned_by :
      (p q owner : PublicKey)
      → (equals owner p || equals owner q) ≡ true
      → (owner ≡ p) ⊎ (owner ≡ q)
  owned_by p q owner h = elim (Bool-cases (equals owner p)) [
    | inl e ↦ inl ((lawful.equals_iff owner p).0 e)
    | inr n ↦ inr ((lawful.equals_iff owner q).0 (rw n at h))
  ]

  -- When the check passes, the account is owned by one of the two token programs, asks for one
  -- signature, none of the signers that it answers is the default key, and every expected signer is
  -- among them.
  pub check_multisig_signers_sound :
      (token token_2022 : PublicKey) (account : Account k) (expected signers : List PublicKey)
      → check_multisig_signers k token token_2022 account expected ≡ ok signers
      → ((account.owner ≡ token) ⊎ (account.owner ≡ token_2022))
        × (get_elem? account.account_data 0 ≡ some 1)
        × All (λ p. p ≢ default) signers
        × All (λ p. Memᴰ p signers) expected
  unfolding check_multisig_signers
  check_multisig_signers_sound token token_2022 account expected signers h =
      let all_signers =
        signers_from k account.account_data 0 (rounds (get_elem? account.account_data 1)) in
      elim (Bool-cases (equals account.owner token || equals account.owner token_2022)) [
        | inr foreign ↦ cc (rw foreign at h)
        | inl owned ↦ elim (Bool-cases (is_one (get_elem? account.account_data 0))) [
          | inr many ↦ cc (rw (owned, many) at h)
          | inl one ↦
              let after : (expect_signers k all_signers expected >> ok all_signers) ≡ ok signers =
                rw (owned, one) at h in
              let (u, found, answer) =
                >>=-eq-ok (expect_signers k all_signers expected) (λ _. ok all_signers) after in
              subst
                (λ s.
                  ((account.owner ≡ token) ⊎ (account.owner ≡ token_2022))
                  × (get_elem? account.account_data 0 ≡ some 1)
                  × All (λ p. p ≢ default) s
                  × All (λ p. Memᴰ p s) expected)
                (cc answer)
                (
                  owned_by token token_2022 account.owner owned,
                  is_one-eq (get_elem? account.account_data 0) one,
                  signers_from-not_default account.account_data 0
                      (rounds (get_elem? account.account_data 1)),
                  expect_signers_sound all_signers expected found,
                )
        ]
      ]

  -- The account's data as the token program lays it out: the number of required signers, that of
  -- all, a flag, and the keys, 32 bytes each, before what is left of the room for eleven.
  abbrev pub multisig_data : ℕ → List PublicKey → Bytes → Bytes
  multisig_data required signers rest = required ∷ length signers ∷ 1 ∷ buffers signers ++ rest

  check_multisig_signers-data :
      (token token_2022 : PublicKey) (keys : List PublicKey) (rest : Bytes)
      (expected : List PublicKey)
      → check_multisig_signers k token token_2022
          (record { owner = token; account_data = multisig_data 1 keys rest })
          expected
        ≡ (expect_signers k (non_default keys) expected >> ok (non_default keys))
  unfolding check_multisig_signers
  check_multisig_signers-data token token_2022 keys rest expected =
      rw
        (
          (lawful.equals_iff token token).1 refl,
          signers_from-buffers (multisig_data 1 keys rest) rest 0 keys refl,
        )
        refl

  -- On an account of the token program that asks for one signature of the given keys, the check
  -- answers the keys that are not the default key, exactly when every expected signer is among them.
  pub check_multisig_signers_complete :
      (token token_2022 : PublicKey) (keys : List PublicKey) (rest : Bytes)
      (expected : List PublicKey)
      → (check_multisig_signers k token token_2022
            (record { owner = token; account_data = multisig_data 1 keys rest })
            expected
          ≡ ok (non_default keys))
        ↔ All (λ p. Memᴰ p (non_default keys)) expected
  check_multisig_signers_complete token token_2022 keys rest expected =
      let reduced = check_multisig_signers-data token token_2022 keys rest expected in
      (
        λ h. expect_signers_sound (non_default keys) expected (found_of (sym reduced ∙ h)),
        λ m. reduced ∙ rw (expect_signers_complete (non_default keys) expected m) refl,
      )
    where
      found_of :
          (expect_signers k (non_default keys) expected >> ok (non_default keys))
            ≡ ok (non_default keys)
          → expect_signers k (non_default keys) expected ≡ ok tt
      found_of e =
          (>>=-eq-ok (expect_signers k (non_default keys) expected) (λ _. ok (non_default keys))
            e).1
