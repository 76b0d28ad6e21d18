-- ===== src/Script/Oft/Create/Laws.antt =====
-- Whose a new token is after lz:oft:solana:create.
use solana_proxy.Prelude.{
  ◌≡◌, ◌≤◌, refl, subst, Bool, true, false, not, ◌&&◌, ◌||◌, some, List, [], ◌∷◌, Result, ok, Error,
  require, ltb, ◌>>◌, or_throw, arith, private_key_missing, custom_token_program, minting_with_mint,
  too_few_local_decimals, if◌then◌else◌,
}
use solana_proxy.Script.Number.{codes}
use solana_proxy.Script.Sorting.Texts.{same_text, same_iff_lem}
use solana_proxy.Script.Keys.{PublicKeys, IsLawful}
use solana_proxy.Script.Constants.Lz.{EndpointIds}
use solana_proxy.Script.Oft.{Cluster, MintInfo, mint_tokens, freeze_account}
use solana_proxy.Script.Steps.{lift, query->>=-eq-ok, >>=-eq-ok}
use solana_proxy.Script.Oft.ComputeUnits.{submit, submit-eq-ok}
use solana_proxy.Script.Oft.Minters.{additional_minters, new_mint_authority}
use solana_proxy.Script.Oft.Laws.{KeepsItsWord, IsOneOf, new_mint_authority-IsOneOf}
use solana_proxy.Script.Oft.Create.{
  CreateOftArgs, is_maba, has_amount, check_arguments, oft_instructions, authority_instructions,
}
use solana_proxy.Script.Oft.Create.Task.{create_token, pass_authorities, create_oft, mint_of}

require-eq-ok :
    (b : Bool) (e : Error) (next : Result (Unit {0}))
    → (require b e >> next) ≡ ok tt
    → (b ≡ true) × (next ≡ ok tt)
require-eq-ok false e next h = cc h
require-eq-ok true e next h = (refl, h)

last-eq-ok : (b : Bool) (e : Error) → require b e ≡ ok tt → b ≡ true
last-eq-ok false e h = cc h
last-eq-ok true e h = refl

or_false : (a b : Bool) → (a || b) ≡ true → b ≡ false → a ≡ true
or_false true b h k = refl
or_false false b h k = cc (h, k)

module _ (ids : EndpointIds) (k : PublicKeys) (lawful : IsLawful k) (cluster : Cluster k)
    (word : KeepsItsWord k cluster) where
  open k use {PublicKey, from_base58, to_base58}
  open cluster use {World, token_program, oft_store, get_mint}

  -- Arguments that pass, of a token that is new.
  check_arguments-eq-ok :
      (args : CreateOftArgs)
      → is_maba args ≡ false
      → check_arguments k cluster args ≡ ok tt
      → (codes args.token_program ≡ to_base58 token_program)
        × (args.shared_decimals ≤ args.local_decimals)
  unfolding check_arguments
  check_arguments-eq-ok args fresh h =
      let (program, h1) =
        require-eq-ok
          (same_text (codes args.token_program) (to_base58 token_program) || is_maba args)
          custom_token_program _ h in
      let (_, h2) =
        require-eq-ok (not (is_maba args && has_amount args.amount)) minting_with_mint _ h1 in
      let enough =
        last-eq-ok (not (ltb args.local_decimals args.shared_decimals)) too_few_local_decimals h2 in
      let same : same_text (codes args.token_program) (to_base58 token_program) ≡ true =
        or_false (same_text (codes args.token_program) (to_base58 token_program)) (is_maba args)
          program fresh in
      (
        (same_iff_lem (codes args.token_program) (to_base58 token_program)).0 same,
        ground (arith, enough),
      )

  pass_authorities-eq-ok :
      (args : CreateOftArgs) (owner mint mint_authority : PublicKey) (w last : World)
      → is_maba args ≡ false
      → pass_authorities ids k cluster args owner mint mint_authority w ≡ (ok tt, last)
      → (info : MintInfo k) × (get_mint token_program mint last ≡ some info)
        × (info.mint_authority ≡ some mint_authority)
        × (info.freeze_authority ≡ some mint_authority)
  unfolding pass_authorities
  pass_authorities-eq-ok args owner mint mint_authority w last fresh h =
      let sent =
        subst
          (λ b.
            (if b
                then lift (ok tt)
                else submit ids k cluster args.eid args.price_scale
                    (authority_instructions k cluster owner mint mint_authority))
              w
            ≡ (ok tt, last))
          fresh h in
      let (price, limit, done) =
        submit-eq-ok ids k cluster args.eid args.price_scale
          (authority_instructions k cluster owner mint mint_authority) w sent in
      let (info, _, here) =
        word.changed price limit mint
          (record { authority_type = mint_tokens; current = owner; next = mint_authority })
          (record { authority_type = freeze_account; current = owner; next = mint_authority } ∷ [])
          w last done in
      (
        record info {
          mint_authority = some mint_authority;
          freeze_authority = some mint_authority;
        },
        here,
        refl,
        refl,
      )

  -- Whenever lz:oft:solana:create of a new token goes through: the token program is the first one, the token
  -- has at least as many decimals as the OFT shares, and the mint that was generated has one account as both
  -- authorities, which asks for one signature and has the OFT's store and every additional minter among its
  -- signers.
  pub create_oft-eq-ok :
      (args : CreateOftArgs) (lock_box generated : PublicKey) (w last : World)
      → is_maba args ≡ false
      → create_oft ids k cluster args lock_box generated w ≡ (ok tt, last)
      → (codes args.token_program ≡ to_base58 token_program)
        × (args.shared_decimals ≤ args.local_decimals)
        × (minters : List PublicKey) × (authority : PublicKey) × (info : MintInfo k)
        × (additional_minters k cluster args.additional_minters args.only_oft_store ≡ ok minters)
        × (get_mint token_program generated last ≡ some info)
        × (info.mint_authority ≡ some authority)
        × (info.freeze_authority ≡ some authority)
        × IsOneOf k lawful cluster authority
            (oft_store (from_base58 args.program_id) lock_box ∷ minters)
  unfolding create_oft
  create_oft-eq-ok args lock_box generated w last fresh h =
      let store = oft_store (from_base58 args.program_id) lock_box in
      let (_, accepted, h1) = query->>=-eq-ok (λ _. check_arguments k cluster args) _ w h in
      let (owner, _, h2) =
        query->>=-eq-ok (λ _. or_throw private_key_missing cluster.wallet) _ w h1 in
      let (minters, minters_ok, h3) =
        query->>=-eq-ok
          (λ _. additional_minters k cluster args.additional_minters args.only_oft_store) _ w h2 in
      let (authority, w4, made, h4) =
        >>=-eq-ok (new_mint_authority k cluster store (from_base58 args.token_program) minters) _ w
          h3 in
      let (_, w5, _, h5) =
        >>=-eq-ok (create_token ids k cluster args owner (mint_of ids k cluster args generated)) _
          w4 h4 in
      let (_, w6, _, h6) =
        >>=-eq-ok
          (submit ids k cluster args.eid args.price_scale
            (oft_instructions k cluster args owner (mint_of ids k cluster args generated) lock_box))
          _ w5 h5 in
      let (info, there, minting, freezing) =
        pass_authorities-eq-ok args owner (mint_of ids k cluster args generated) authority w6 last
          fresh h6 in
      let (program, enough) = check_arguments-eq-ok args fresh accepted in
      (
        program,
        enough,
        minters,
        authority,
        info,
        minters_ok,
        subst
            (λ b.
              get_mint token_program (if b then from_base58 args.mint else generated) last
              ≡ some info)
            fresh there,
        minting,
        freezing,
        new_mint_authority-IsOneOf k lawful cluster store (from_base58 args.token_program) minters w
            word made,
      )
