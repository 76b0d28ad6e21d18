-- ===== src/Script/Dvns/Laws.antt =====
-- What `equalDVNs` decides, and when `orderly:getconfig` has nothing to send.
use solana_proxy.Prelude.{
  ℕ, ◌≡◌, refl, sym, ap, ◌∙◌, subst, ◌↔◌, true, false, List, [], ◌∷◌, length, ◌==◌, suc, Bool-cases,
  arith, inl, inr,
}
use solana_proxy.Script.Sorting.{Order, sort}
use solana_proxy.Script.Sorting.Laws.{sort-perm, sort-Permᴰ, length-sort}
use solana_proxy.Script.Dvns.{
  equal_dvns, same_elements, get_config, Onchain, UlnConfig, ConfigParam, executor_param, uln_param,
  send_params, receive_params, library_transactions, with_required_dvns,
}
use mathlib.Core.List.{Perm, Permᴰ}
use mathlib.Core.List.Perm
use mathlib.Core.List.Permᴰ
use mathlib.Core.Logic.{∥∥₁_elim}
use mathlib.Core.Bool.{Bool-set}

module _ {ℓ} {A : Type ℓ} ⦃o : Order A⦄ where
  same_elements_refl : (as' : List A) → same_elements as' as' ≡ true
  unfolding same_elements
  same_elements_refl [] = refl
  same_elements_refl (a ∷ as') = rw ((o.same_iff a a).1 refl) (same_elements_refl as')

  same_elements-eq :
      (as' bs : List A) → length as' ≡ length bs → same_elements as' bs ≡ true → as' ≡ bs
  unfolding same_elements
  same_elements-eq [] [] _ _ = refl
  same_elements-eq [] (b ∷ bs) l e = ground arith
  same_elements-eq (a ∷ as') [] l e = ground arith
  same_elements-eq (a ∷ as') (b ∷ bs) l e = ground (arith, o.same_iff a b, same_elements-eq as' bs)

  length-Permᴰ : {as' bs : List A} → Permᴰ as' bs → length as' ≡ length bs
  length-Permᴰ Permᴰ.nil = refl
  length-Permᴰ (Permᴰ.cons _ p) = ap suc (length-Permᴰ p)
  length-Permᴰ (Permᴰ.swap _ _) = refl
  length-Permᴰ (Permᴰ.trans p q) = length-Permᴰ p ∙ length-Permᴰ q

  equal_dvns_complete : (as' bs : List A) → Permᴰ as' bs → equal_dvns as' bs ≡ true
  unfolding equal_dvns
  equal_dvns_complete as' bs p =
      rw (length-Permᴰ p, sort-Permᴰ p) (ground (arith, same_elements_refl (sort bs)))

  equal_dvns_sound : (as' bs : List A) → equal_dvns as' bs ≡ true → Perm as' bs
  unfolding equal_dvns
  equal_dvns_sound as' bs e = elim (Bool-cases (length as' == length bs)) [
    | inl same ↦ Perm.trans (Perm.symm (sort-perm as')) (
        subst (λ l. Perm l bs)
          (sym (
            same_elements-eq (sort as') (sort bs)
              (ground (arith, length-sort as', length-sort bs, same)) (ground (arith, e, same))))
          (sort-perm bs))
    | inr differ ↦ absurd (ground (arith, e, differ))
  ]

  -- `equalDVNs` answers yes exactly for two lists of the same DVNs, each as often as in the other.
  pub equal_dvns_lem : (as' bs : List A) → (equal_dvns as' bs ≡ true) ↔ Perm as' bs
  equal_dvns_lem as' bs = (
    equal_dvns_sound as' bs,
    λ p. ∥∥₁_elim p (Bool-set (equal_dvns as' bs) true) (equal_dvns_complete as' bs),
  )

  -- The configuration that a pathway has once the endpoint has taken the parameters in order.
  abbrev pub after_params : List (ConfigParam A) → UlnConfig A → UlnConfig A
  after_params [] uln = uln
  after_params (executor_param eid c ∷ ps) uln = after_params ps uln
  after_params (uln_param eid c ∷ ps) uln = after_params ps c

  equal_dvns_refl : (as' : List A) → equal_dvns as' as' ≡ true
  equal_dvns_refl as' = equal_dvns_complete as' as' (Permᴰ.refl as')

  -- With `setConfig` and without `forceSet`, `orderly:getconfig` sends no transaction exactly when
  -- neither library is a default one and both lists of required DVNs are the configured ones.
  pub get_config-settled :
      (eid : ℕ) (send receive : List A) (chain : Onchain A)
      → (get_config eid send receive (record { set_config_flag = true; force_set = false }) chain
          ≡ [])
        ↔ ((chain.is_default_send_lib ≡ false)
            × (chain.is_default_receive_lib ≡ false)
            × (equal_dvns chain.send_uln.required_dvns send ≡ true)
            × (equal_dvns chain.receive_uln.required_dvns receive ≡ true))
  unfolding get_config library_transactions
  get_config-settled eid send receive chain = ground arith

  -- Run with `setConfig` a second time, after the endpoint has left both default libraries and taken
  -- the parameters of the first run, `orderly:getconfig` sends nothing.
  pub get_config-twice :
      (eid : ℕ) (send receive : List A) (chain chain' : Onchain A)
      → chain'.is_default_send_lib ≡ false
      → chain'.is_default_receive_lib ≡ false
      → chain'.send_uln ≡ after_params (send_params eid send chain) chain.send_uln
      → chain'.receive_uln ≡ after_params (receive_params eid receive chain) chain.receive_uln
      → get_config eid send receive (record { set_config_flag = true; force_set = false }) chain'
        ≡ []
  unfolding send_params receive_params with_required_dvns
  get_config-twice eid send receive chain chain' s r su ru =
      (get_config-settled eid send receive chain').1 (s, r, send_lem, receive_lem)
    where
      send_lem : equal_dvns chain'.send_uln.required_dvns send ≡ true
      send_lem = rw su (ground (arith, equal_dvns_refl send))

      receive_lem : equal_dvns chain'.receive_uln.required_dvns receive ≡ true
      receive_lem = rw ru (ground (arith, equal_dvns_refl receive))
