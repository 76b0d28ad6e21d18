-- ===== src/Script/Oft/Authority/Laws.antt =====
-- Whose the mint is after lz:oft:solana:setauthority.
use solana_proxy.Prelude.{
  ℕ, ◌≡◌, refl, sym, ap, ◌∙◌, subst, none, some, List, [], ◌∷◌, ok, throw, or_throw, call_failed,
  private_key_missing, no_freeze_authority,
}
use solana_proxy.Script.Keys.{PublicKeys, IsLawful}
use solana_proxy.Script.Constants.Lz.{EndpointIds}
use solana_proxy.Script.Oft.{
  Cluster, MintInfo, AuthorityType, mint_tokens, freeze_account, set_authority,
}
use solana_proxy.Script.Steps.{after, query-eq-ok, query->>=-eq-ok, >>=-eq-ok}
use solana_proxy.Script.Oft.ComputeUnits.{submit-eq-ok}
use solana_proxy.Script.Oft.Minters.{additional_minters, new_mint_authority}
use solana_proxy.Script.Oft.Laws.{KeepsItsWord, IsOneOf, with_authority, new_mint_authority-IsOneOf}
use solana_proxy.Script.Oft.Authority.{
  SetAuthorityArgs, current_authority, change_authority, change_authorities, set_authorities,
}

module _ (ids : EndpointIds) (k : PublicKeys) (lawful : IsLawful k) (cluster : Cluster k)
    (word : KeepsItsWord k cluster) where
  open k use {PublicKey, from_base58}
  open cluster use {World, token_program, oft_store, get_mint}

  -- A round that was confirmed put the new authority in place of one that was there.
  change_authority-eq-ok :
      (eid price_scale : ℕ) (mint next : PublicKey) (t : AuthorityType) (w : World) {u : Unit {0}}
      {w' : World}
      → change_authority ids k cluster eid price_scale token_program mint next t w ≡ (ok u, w')
      → (info : MintInfo k) × (get_mint token_program mint w ≡ some info)
        × (get_mint token_program mint w' ≡ some (with_authority k t next info))
  unfolding change_authority
  change_authority-eq-ok eid price_scale mint next t w h =
      let (info, _, h1) =
        query->>=-eq-ok (λ w. or_throw call_failed (get_mint token_program mint w)) _ w h in
      let (current, _, h2) = query->>=-eq-ok (λ _. current_authority k t info) _ w h1 in
      let (price, limit, sent) =
        submit-eq-ok ids k cluster eid price_scale
          (set_authority token_program mint current t next ∷ []) w h2 in
      word.changed price limit mint (record { authority_type = t; current = current; next = next })
        [] w _ sent

  some_injective : {A : Type 0} {a b : A} → some a ≡ some b → a ≡ b
  some_injective h = cc h

  change_authority-without_freeze :
      (eid price_scale : ℕ) (mint next : PublicKey) (w : World) (info : MintInfo k)
      → get_mint token_program mint w ≡ some info
      → info.freeze_authority ≡ none
      → change_authority ids k cluster eid price_scale token_program mint next freeze_account w
        ≡ (throw no_freeze_authority, w)
  unfolding change_authority current_authority
  change_authority-without_freeze eid price_scale mint next w info there none_yet =
      rw there (rw none_yet refl)

  -- A mint that has no freeze authority: once the first round is confirmed, the loop throws in the second,
  -- and the mint authority has already passed to the new account.
  pub change_authorities-without_freeze :
      (eid price_scale : ℕ) (mint next : PublicKey) (w w' : World) (info : MintInfo k)
      → get_mint token_program mint w ≡ some info
      → info.freeze_authority ≡ none
      → change_authority ids k cluster eid price_scale token_program mint next mint_tokens w
        ≡ (ok tt, w')
      → (change_authorities ids k cluster eid price_scale token_program mint next
            (mint_tokens ∷ freeze_account ∷ [])
            w
          ≡ (throw no_freeze_authority, w'))
        × (get_mint token_program mint w' ≡ some (record info { mint_authority = some next }))
  unfolding change_authorities
  change_authorities-without_freeze eid price_scale mint next w w' info there none_yet first =
      let (before, there', here) =
        change_authority-eq-ok eid price_scale mint next mint_tokens w first in
      let same : before ≡ info = some_injective (sym there' ∙ there) in
      let now : get_mint token_program mint w' ≡ some (record info { mint_authority = some next }) =
        here ∙ ap (λ i. some (with_authority k mint_tokens next i)) same in
      (
        ap
              (λ r. after r (λ _.
                change_authorities ids k cluster eid price_scale token_program mint next
                  (freeze_account ∷ [])))
              first
            ∙ ap
                (λ r. after r (λ _.
                  change_authorities ids k cluster eid price_scale token_program mint next []))
                (change_authority-without_freeze eid price_scale mint next w'
                  (record info { mint_authority = some next }) now none_yet),
        now,
      )

  abbrev both_set : PublicKey → MintInfo k → MintInfo k
  both_set next info = record info { mint_authority = some next; freeze_authority = some next }

  change_both :
      (eid price_scale : ℕ) (mint next : PublicKey) (w last : World)
      → change_authorities ids k cluster eid price_scale token_program mint next
          (mint_tokens ∷ freeze_account ∷ [])
          w
        ≡ (ok tt, last)
      → (info : MintInfo k) × (get_mint token_program mint w ≡ some info)
        × (get_mint token_program mint last ≡ some (both_set next info))
  unfolding change_authorities
  change_both eid price_scale mint next w last h =
      let (_, w1, first, h1) =
        >>=-eq-ok
          (change_authority ids k cluster eid price_scale token_program mint next mint_tokens) _ w
          h in
      let (_, w2, second, h2) =
        >>=-eq-ok
          (change_authority ids k cluster eid price_scale token_program mint next freeze_account) _
          w1 h1 in
      let (_, same) = query-eq-ok (λ _. ok tt) w2 h2 in
      let (info, there, here) =
        change_authority-eq-ok eid price_scale mint next mint_tokens w first in
      let (info', there', here') =
        change_authority-eq-ok eid price_scale mint next freeze_account w1 second in
      let next_info : info' ≡ with_authority k mint_tokens next info =
        some_injective (sym there' ∙ here) in
      (
        info,
        there,
        ap (get_mint token_program mint) same
            ∙ here'
            ∙ ap (λ i. some (with_authority k freeze_account next i)) next_info,
      )

  -- Whenever setauthority, for the first token program, goes through: the mint has one account as both
  -- authorities, and that account asks for one signature, with the OFT's store and every additional minter
  -- among its signers.
  pub set_authorities-eq-ok :
      (args : SetAuthorityArgs) (w last : World)
      → from_base58 args.token_program ≡ token_program
      → set_authorities ids k cluster args w ≡ (ok tt, last)
      → (minters : List PublicKey) × (authority : PublicKey) × (info : MintInfo k)
        × (additional_minters k cluster args.additional_minters args.only_oft_store ≡ ok minters)
        × (get_mint token_program (from_base58 args.mint) last ≡ some info)
        × (info.mint_authority ≡ some authority)
        × (info.freeze_authority ≡ some authority)
        × IsOneOf k lawful cluster authority
            (oft_store (from_base58 args.program_id) (from_base58 args.escrow) ∷ minters)
  unfolding set_authorities change_authorities
  set_authorities-eq-ok args w last first_program h =
      let program = from_base58 args.token_program in
      let mint = from_base58 args.mint in
      let store = oft_store (from_base58 args.program_id) (from_base58 args.escrow) in
      let (_, _, h1) = query->>=-eq-ok (λ _. or_throw private_key_missing cluster.wallet) _ w h in
      let (minters, minters_ok, h2) =
        query->>=-eq-ok
          (λ _. additional_minters k cluster args.additional_minters args.only_oft_store) _ w h1 in
      let (authority, w3, made, h3) =
        >>=-eq-ok (new_mint_authority k cluster store program minters) _ w h2 in
      let h4 =
        subst
          (λ p.
            change_authorities ids k cluster args.eid args.price_scale p mint authority
              (mint_tokens ∷ freeze_account ∷ []) w3
            ≡ (ok tt, last))
          first_program h3 in
      let (info, there, both) = change_both args.eid args.price_scale mint authority w3 last h4 in
      (
        minters,
        authority,
        both_set authority info,
        minters_ok,
        both,
        refl,
        refl,
        new_mint_authority-IsOneOf k lawful cluster store program minters w word made,
      )
