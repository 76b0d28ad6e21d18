-- ===== src/Script/Sorting.antt =====
-- `Array.prototype.sort`: the sorted rearrangement for an order that is given as a test. It has one
-- result only, whatever the algorithm, so insertion stands for it.
pub mod Laws
pub mod Texts
use solana_proxy.Prelude.{ℕ, ◌≡◌, ◌⊎◌, ◌↔◌, Bool, true, List, [], ◌∷◌, if◌then◌else◌}

-- A comparison that decides a total order, and the test `===` of its values.
pub record Order {ℓ} (A : Type ℓ) : Type ℓ where
  pub lte : A → A → Bool
  pub total : (a b : A) → (lte a b ≡ true) ⊎ (lte b a ≡ true)
  pub antisym : (a b : A) → lte a b ≡ true → lte b a ≡ true → a ≡ b
  pub transitive : (a b c : A) → lte a b ≡ true → lte b c ≡ true → lte a c ≡ true
  pub same : A → A → Bool
  pub same_iff : (a b : A) → (same a b ≡ true) ↔ (a ≡ b)

module _ {ℓ} {A : Type ℓ} ⦃o : Order A⦄ where
  unfoldable pub insert : A → List A → List A
  insert a [] = a ∷ []
  insert a (b ∷ bs) = if o.lte a b then a ∷ b ∷ bs else b ∷ insert a bs

  unfoldable pub sort : List A → List A
  unfolding insert
  sort [] = []
  sort (a ∷ as') = insert a (sort as')
