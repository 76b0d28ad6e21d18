-- ===== src/Script/Oft/Laws.antt =====
-- What the tasks rely on of the token program and of the waiting for an account, and what a checked
-- multisig then is.
use solana_proxy.Prelude.{
  ℕ, ◌≡◌, ◌≢◌, subst, ◌⊎◌, true, Option, some, List, [], ◌∷◌, map, ok, All, get_elem?,
  account_not_found,
}
use solana_proxy.Script.Keys.{PublicKeys, IsLawful}
use solana_proxy.Script.Multisig.{Account, check_multisig_signers}
use solana_proxy.Script.Multisig.Laws.{check_multisig_signers_sound}
use solana_proxy.Script.Oft.{
  Cluster, Instruction, MintInfo, AuthorityType, mint_tokens, freeze_account,
  set_compute_unit_price, set_compute_unit_limit, set_authority,
}
use solana_proxy.Script.Steps.{query-eq-ok, answered-eq-ok, >>=-eq-ok}
use solana_proxy.Script.Oft.Minters.{
  assert_account_initialized, check_multisig, create_mint_authority_multisig, new_mint_authority,
}
use mathlib.Core.List.{Memᴰ}

module _ (k : PublicKeys) where
  open k use {PublicKey}

  -- The authority that changes, the old one and the new one.
  pub record Change : Type 0 where
    pub authority_type : AuthorityType
    pub current : PublicKey
    pub next : PublicKey

  abbrev pub change_instructions : PublicKey → PublicKey → List Change → List (Instruction k)
  change_instructions program mint changes =
      map (λ c. set_authority program mint c.current c.authority_type c.next) changes

  abbrev pub with_authority : AuthorityType → PublicKey → MintInfo k → MintInfo k
  with_authority mint_tokens key info = record info { mint_authority = some key }
  with_authority freeze_account key info = record info { freeze_authority = some key }

  abbrev pub after_changes : List Change → MintInfo k → MintInfo k
  after_changes [] info = info
  after_changes (c ∷ changes) info =
      after_changes changes (with_authority c.authority_type c.next info)

  -- A confirmed transaction of changes is of a mint that is there, and makes these changes; and when the
  -- waiting ends with an account, that is what the connection then answers.
  pub record KeepsItsWord (cluster : Cluster k) : Type 0 where
    pub changed :
        (price limit : ℕ) (mint : PublicKey) (c : Change) (changes : List Change)
        (w w' : cluster.World)
        → cluster.send_and_confirm
            (set_compute_unit_price price
              ∷ set_compute_unit_limit limit
              ∷ change_instructions cluster.token_program mint (c ∷ changes))
            w
          ≡ (true, w')
        → (info : MintInfo k) × (cluster.get_mint cluster.token_program mint w ≡ some info)
          × (cluster.get_mint cluster.token_program mint w'
              ≡ some (after_changes (c ∷ changes) info))
    pub waited :
        (asked : cluster.World → Option (Account k)) (w w' : cluster.World) (account : Account k)
        → cluster.back_off asked w ≡ (some account, w')
        → asked w' ≡ some account

  module _ (lawful : IsLawful k) (cluster : Cluster k) where
    -- An account at `key`, in some state of the chain, of one of the token programs, that asks for one
    -- signature and has all `expected` among the signers that are read from it.
    abbrev pub IsOneOf : PublicKey → List PublicKey → Type 0
    IsOneOf key expected =
        (w : cluster.World) × (account : Account k) × (signers : List PublicKey)
        × (cluster.get_account_info key w ≡ some account)
        × ((account.owner ≡ cluster.token_program) ⊎ (account.owner ≡ cluster.token_2022_program))
        × (get_elem? account.account_data 0 ≡ some 1)
        × All (λ p. p ≢ k.default) signers
        × All (λ p. Memᴰ p signers) expected

    check_multisig-eq-ok :
        (key : PublicKey) (expected : List PublicKey) (w : cluster.World) {signers : List PublicKey}
        {w' : cluster.World}
        → KeepsItsWord cluster
        → check_multisig k cluster key expected w ≡ (ok signers, w')
        → IsOneOf key expected
    unfolding check_multisig assert_account_initialized
    check_multisig-eq-ok key expected w {signers} word h =
        let (account, w1, found, checked) =
          >>=-eq-ok (assert_account_initialized k cluster key) _ w h in
        let there =
          word.waited (cluster.get_account_info key) w w1 account
            (answered-eq-ok account_not_found _ found) in
        let (passed, _) =
          query-eq-ok
            (λ _.
              check_multisig_signers k cluster.token_program cluster.token_2022_program account
                expected)
            w1 checked in
        let (owner, one, real, members) =
          check_multisig_signers_sound k lawful cluster.token_program cluster.token_2022_program
            account expected signers passed in
        (w1, account, signers, there, owner, one, real, members)

    -- The account that the tasks make the authority.
    pub new_mint_authority-IsOneOf :
        (oft_store program : PublicKey) (additional : List PublicKey) (w : cluster.World)
        {answer : PublicKey} {w' : cluster.World}
        → KeepsItsWord cluster
        → new_mint_authority k cluster oft_store program additional w ≡ (ok answer, w')
        → IsOneOf answer (oft_store ∷ additional)
    unfolding new_mint_authority
    new_mint_authority-IsOneOf oft_store program additional w word h =
        let (key, w1, made, h1) =
          >>=-eq-ok (create_mint_authority_multisig k cluster oft_store program additional) _ w h in
        let (signers, w2, checked, h2) =
          >>=-eq-ok (check_multisig k cluster key (oft_store ∷ additional)) _ w1 h1 in
        let (same, _) = query-eq-ok (λ _. ok key) w2 h2 in
        subst (λ p. IsOneOf p (oft_store ∷ additional)) (cc same)
          (check_multisig-eq-ok key (oft_store ∷ additional) w1 word checked)
