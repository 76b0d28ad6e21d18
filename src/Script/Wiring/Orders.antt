-- ===== src/Script/Wiring/Orders.antt =====
-- Lists whose elements are pairwise apart, and what a reordering keeps.
use solana_proxy.Prelude.{subst, List, [], ◌∷◌, All}
use mathlib.Core.List.{Permᴰ}

module _ {ℓ κ} {A : Type ℓ} (P : A → Type κ) where
  pub All-Permᴰ : {l l' : List A} → Permᴰ l l' → All P l → All P l'
  All-Permᴰ Permᴰ.nil h = h
  All-Permᴰ (Permᴰ.cons e p) (h, hs) = (subst P e h, All-Permᴰ p hs)
  All-Permᴰ (Permᴰ.swap e e') (h, (h', hs)) = (subst P e' h', (subst P e h, hs))
  All-Permᴰ (Permᴰ.trans p q) h = All-Permᴰ q (All-Permᴰ p h)

module _ {ℓ κ} {A : Type ℓ} (Apart : A → A → Type κ) where
  abbrev pub AllApart : List A → Type κ
  AllApart [] = Unit
  AllApart (a ∷ as') = All (Apart a) as' × AllApart as'

  module _ (apart_sym : (a b : A) → Apart a b → Apart b a) where
    pub AllApart-Permᴰ : {l l' : List A} → Permᴰ l l' → AllApart l → AllApart l'
    AllApart-Permᴰ Permᴰ.nil h = h
    AllApart-Permᴰ (Permᴰ.cons {b = b} {l₂ = l₂} e p) (h, hs) =
        (subst (λ a. All (Apart a) l₂) e (All-Permᴰ (Apart _) p h), AllApart-Permᴰ p hs)
    AllApart-Permᴰ (Permᴰ.swap {a = a} {b = b} {b' = b'} {l = l} e e') ((h, k), (k', hs)) = (
      (
        subst (λ x. Apart x b') e' (subst (Apart b) e (apart_sym a b h)),
        subst (λ x. All (Apart x) l) e' k',
      ),
      (subst (λ x. All (Apart x) l) e k, hs),
    )
    AllApart-Permᴰ (Permᴰ.trans p q) h = AllApart-Permᴰ q (AllApart-Permᴰ p h)
