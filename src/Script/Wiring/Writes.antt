-- ===== src/Script/Wiring/Writes.antt =====
-- Two writes at different names of the table, in either order.
use solana_proxy.Prelude.{
  ◌≡◌, refl, sym, ap, ◌∙◌, subst, true, false, ◌&&◌, Bool-cases, inl, inr, String, Option, none,
  some, str_eq, eq_iff,
}
use mathlib.Core.Path.{fun_ext}
use solana_proxy.Script.Wiring.{Devtools, ActiveConfig, Configs, extended, write}

pub str_eq_self : (s : String) → str_eq s s ≡ true
str_eq_self s = (eq_iff s s).1 refl

str_eq_comm : (s t : String) → str_eq s t ≡ str_eq t s
str_eq_comm s t = elim (Bool-cases (str_eq s t)) [
  | inl h ↦ h ∙ sym ((eq_iff t s).1 (sym ((eq_iff s t).0 h)))
  | inr h ↦ elim (Bool-cases (str_eq t s)) [
    | inl k ↦ (eq_iff s t).1 (sym ((eq_iff t s).0 k)) ∙ sym k
    | inr k ↦ h ∙ sym k
  ]
]

module _ (tools : Devtools) where
  abbrev Row : Type 0
  Row = Option (String → Option (ActiveConfig tools))

  not_both :
      (x r r' : String)
      → str_eq r r' ≡ false
      → str_eq x r ≡ true
      → str_eq x r' ≡ true
      → true ≡ false
  not_both x r r' apart h k =
      let e : r ≡ r' = sym ((eq_iff x r).0 h) ∙ (eq_iff x r').0 k in sym ((eq_iff r r').1 e) ∙ apart

  rows-commute :
      (o : Row) (r r' x : String) (a b : ActiveConfig tools)
      → str_eq r r' ≡ false
      → extended tools (some (extended tools o r' b)) r a x
        ≡ extended tools (some (extended tools o r a)) r' b x
  rows-commute none r r' x a b apart = elim (Bool-cases (str_eq x r)) [
    | inl h ↦ elim (Bool-cases (str_eq x r')) [
      | inl k ↦ cc (not_both x r r' apart h k)
      | inr k ↦ rw (h, k) refl
    ]
    | inr h ↦ rw h refl
  ]
  rows-commute (some row) r r' x a b apart = elim (Bool-cases (str_eq x r)) [
    | inl h ↦ elim (Bool-cases (str_eq x r')) [
      | inl k ↦ cc (not_both x r r' apart h k)
      | inr k ↦ rw (h, k) refl
    ]
    | inr h ↦ rw h refl
  ]

  pub at_name :
      (l r : String) (a : ActiveConfig tools) (c : Configs tools)
      → write tools l r a c l ≡ some (extended tools (c l) r a)
  unfolding write
  at_name l r a c = rw (str_eq_self l) refl

  pub off_name :
      (l r q : String) (a : ActiveConfig tools) (c : Configs tools)
      → str_eq q l ≡ false
      → write tools l r a c q ≡ c q
  unfolding write
  off_name l r q a c h = rw h refl

  same_row :
      (l r r' : String) (a b : ActiveConfig tools) (c : Configs tools)
      → str_eq r r' ≡ false
      → write tools l r a (write tools l r' b c) l ≡ write tools l r' b (write tools l r a c) l
  same_row l r r' a b c apart =
      at_name l r a (write tools l r' b c)
      ∙ ap (λ o. some (extended tools o r a)) (at_name l r' b c)
      ∙ ap some (fun_ext (λ x. rows-commute (c l) r r' x a b apart))
      ∙ sym (
          at_name l r' b (write tools l r a c)
          ∙ ap (λ o. some (extended tools o r' b)) (at_name l r a c))

  other_row :
      (l l' r r' : String) (a b : ActiveConfig tools) (c : Configs tools)
      → str_eq l l' ≡ false
      → write tools l r a (write tools l' r' b c) l ≡ write tools l' r' b (write tools l r a c) l
  other_row l l' r r' a b c apart =
      at_name l r a (write tools l' r' b c)
      ∙ ap (λ o. some (extended tools o r a)) (off_name l' r' l b c apart)
      ∙ sym (off_name l' r' l b (write tools l r a c) apart ∙ at_name l r a c)

  -- At the name of the first write.
  at_first :
      (l l' r r' : String) (a b : ActiveConfig tools) (c : Configs tools)
      → (str_eq l l' && str_eq r r') ≡ false
      → write tools l r a (write tools l' r' b c) l ≡ write tools l' r' b (write tools l r a c) l
  at_first l l' r r' a b c apart = elim (Bool-cases (str_eq l l')) [
    | inl same ↦
        subst
          (λ n.
            write tools l r a (write tools n r' b c) l ≡ write tools n r' b (write tools l r a c) l)
          ((eq_iff l l').0 same) (same_row l r r' a b c (rw same at apart))
    | inr other ↦ other_row l l' r r' a b c other
  ]

  pub apart_comm :
      (l l' r r' : String)
      → (str_eq l l' && str_eq r r') ≡ false
      → (str_eq l' l && str_eq r' r) ≡ false
  apart_comm l l' r r' h =
      ap (λ b. b && str_eq r' r) (str_eq_comm l' l)
      ∙ ap (λ b. str_eq l l' && b) (str_eq_comm r' r)
      ∙ h

  pub writes-commute :
      (l l' r r' : String) (a b : ActiveConfig tools) (c : Configs tools)
      → (str_eq l l' && str_eq r r') ≡ false
      → write tools l r a (write tools l' r' b c) ≡ write tools l' r' b (write tools l r a c)
  writes-commute l l' r r' a b c apart = fun_ext (λ q. at q)
    where
      at :
          (q : String)
          → write tools l r a (write tools l' r' b c) q
            ≡ write tools l' r' b (write tools l r a c) q
      at q = elim (Bool-cases (str_eq q l)) [
        | inl h ↦
            subst
              (λ n.
                write tools l r a (write tools l' r' b c) n
                ≡ write tools l' r' b (write tools l r a c) n)
              (sym ((eq_iff q l).0 h)) (at_first l l' r r' a b c apart)
        | inr h ↦ elim (Bool-cases (str_eq q l')) [
          | inl k ↦
              subst
                (λ n.
                  write tools l r a (write tools l' r' b c) n
                  ≡ write tools l' r' b (write tools l r a c) n)
                (sym ((eq_iff q l').0 k))
                (sym (at_first l' l r' r b a c (apart_comm l l' r r' apart)))
          | inr k ↦
              off_name l r q a (write tools l' r' b c) h
              ∙ off_name l' r' q b c k
              ∙ sym (off_name l' r' q b (write tools l r a c) k ∙ off_name l r q a c h)
        ]
      ]
