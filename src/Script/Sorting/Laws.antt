-- ===== src/Script/Sorting/Laws.antt =====
-- Sorting rearranges, and two rearrangements sort alike.
use solana_proxy.Prelude.{
  ◌≡◌, suc, length, refl, ap, ◌∙◌, inl, inr, List, [], ◌∷◌, Bool-cases, arith,
}
use solana_proxy.Script.Sorting.{Order, insert, sort}
use mathlib.Core.List.{Perm, Permᴰ}
use mathlib.Core.List.Perm

module _ {ℓ} {A : Type ℓ} ⦃o : Order A⦄ where
  insert_comm : (a b : A) (cs : List A) → insert a (insert b cs) ≡ insert b (insert a cs)
  unfolding insert
  insert_comm a b [] = ground (arith, o.total a b, o.antisym a b)
  insert_comm a b (c ∷ cs) = ground (
    arith,
    o.total a b,
    o.antisym a b,
    o.transitive a b c,
    o.transitive b a c,
    insert_comm a b cs,
  )

  insert-perm : (a : A) (bs : List A) → Perm (insert a bs) (a ∷ bs)
  unfolding insert
  insert-perm a [] = Perm.refl (a ∷ [])
  insert-perm a (b ∷ bs) = elim (Bool-cases (o.lte a b)) [
    | inl le ↦ rw le (Perm.refl (a ∷ b ∷ bs))
    | inr gt ↦ rw gt (Perm.trans (Perm.cons b (insert-perm a bs)) (Perm.swap a b bs))
  ]

  pub sort-perm : (as' : List A) → Perm (sort as') as'
  unfolding sort
  sort-perm [] = Perm.refl []
  sort-perm (a ∷ as') = Perm.trans (insert-perm a (sort as')) (Perm.cons a (sort-perm as'))

  pub sort-Permᴰ : {as' bs : List A} → Permᴰ as' bs → sort as' ≡ sort bs
  unfolding sort
  sort-Permᴰ Permᴰ.nil = refl
  sort-Permᴰ (Permᴰ.cons {a} {b} {l₁} {l₂} e p) = rw e (ap (insert b) (sort-Permᴰ p))
  sort-Permᴰ (Permᴰ.swap {a} {b} {a'} {b'} {l} e f) = rw (e, f) (insert_comm b' a' (sort l))
  sort-Permᴰ (Permᴰ.trans p q) = sort-Permᴰ p ∙ sort-Permᴰ q

  length-insert : (a : A) (bs : List A) → length (insert a bs) ≡ suc (length bs)
  unfolding insert
  length-insert a [] = refl
  length-insert a (b ∷ bs) = ground (arith, length-insert a bs)

  pub length-sort : (as' : List A) → length (sort as') ≡ length as'
  unfolding sort
  length-sort [] = refl
  length-sort (a ∷ as') = length-insert a (sort as') ∙ ap suc (length-sort as')
