-- ===== src/Script/Sorting/Texts.antt =====
-- The order in which `sort` puts texts: that of their code units, the shorter of two first when it
-- begins the longer.
use solana_proxy.Prelude.{
  ℕ, ◌≡◌, ◌↔◌, refl, ◌⊎◌, inl, inr, Bool, true, false, List, [], ◌∷◌, if◌then◌else◌, ltb, leb, ◌==◌,
  arith,
}
use solana_proxy.Script.Sorting.{Order}

unfoldable pub text_lte : List ℕ → List ℕ → Bool
text_lte [] _ = true
text_lte (a ∷ as') [] = false
text_lte (a ∷ as') (b ∷ bs) = if ltb a b then true else if a == b then text_lte as' bs else false

unfoldable pub same_text : List ℕ → List ℕ → Bool
same_text [] [] = true
same_text (a ∷ as') (b ∷ bs) = if a == b then same_text as' bs else false
same_text _ _ = false

pub total_lem : (as' bs : List ℕ) → (text_lte as' bs ≡ true) ⊎ (text_lte bs as' ≡ true)
unfolding text_lte
total_lem [] bs = inl refl
total_lem (a ∷ as') [] = inr refl
total_lem (a ∷ as') (b ∷ bs) = ground (arith, total_lem as' bs)

pub antisym_lem : (as' bs : List ℕ) → text_lte as' bs ≡ true → text_lte bs as' ≡ true → as' ≡ bs
unfolding text_lte
antisym_lem [] [] _ _ = refl
antisym_lem [] (b ∷ bs) _ h = ground (arith, h)
antisym_lem (a ∷ as') [] h _ = ground (arith, h)
antisym_lem (a ∷ as') (b ∷ bs) h k = ground (arith, antisym_lem as' bs)

pub transitive_lem :
    (as' bs cs : List ℕ) → text_lte as' bs ≡ true → text_lte bs cs ≡ true → text_lte as' cs ≡ true
unfolding text_lte
transitive_lem [] bs cs _ _ = refl
transitive_lem (a ∷ as') [] cs h _ = ground (arith, h)
transitive_lem (a ∷ as') (b ∷ bs) [] _ k = ground (arith, k)
transitive_lem (a ∷ as') (b ∷ bs) (c ∷ cs) h k = ground (arith, transitive_lem as' bs cs)

same_refl : (as' : List ℕ) → same_text as' as' ≡ true
unfolding same_text
same_refl [] = refl
same_refl (a ∷ as') = ground (arith, same_refl as')

same_sound : (as' bs : List ℕ) → same_text as' bs ≡ true → as' ≡ bs
unfolding same_text
same_sound [] [] _ = refl
same_sound [] (b ∷ bs) h = ground (arith, h)
same_sound (a ∷ as') [] h = ground (arith, h)
same_sound (a ∷ as') (b ∷ bs) h = ground (arith, same_sound as' bs)

pub same_iff_lem : (as' bs : List ℕ) → (same_text as' bs ≡ true) ↔ (as' ≡ bs)
same_iff_lem as' bs = (same_sound as' bs, λ e. rw e (same_refl bs))

instance unfoldable pub texts : Order (List ℕ)
texts = record {
  lte = text_lte;
  total = total_lem;
  antisym = antisym_lem;
  transitive = transitive_lem;
  same = same_text;
  same_iff = same_iff_lem;
}

pub numbers_total : (a b : ℕ) → (leb a b ≡ true) ⊎ (leb b a ≡ true)
numbers_total a b = ground arith

pub numbers_antisym : (a b : ℕ) → leb a b ≡ true → leb b a ≡ true → a ≡ b
numbers_antisym a b h k = ground (arith, h, k)

pub numbers_transitive : (a b c : ℕ) → leb a b ≡ true → leb b c ≡ true → leb a c ≡ true
numbers_transitive a b c h k = ground (arith, h, k)

pub numbers_same : (a b : ℕ) → ((a == b) ≡ true) ↔ (a ≡ b)
numbers_same a b = ground arith

-- `(a, b) => a - b`.
instance unfoldable pub numbers : Order ℕ
numbers = record {
  lte = leb;
  total = numbers_total;
  antisym = numbers_antisym;
  transitive = numbers_transitive;
  same = λ a b. a == b;
  same_iff = numbers_same;
}
