-- ===== src/Prelude/Tables.antt =====
-- JavaScript objects that serve as tables, `T[key]`, as association lists with distinct keys. The
-- keys that every object inherits (`toString` and the like) are left out.
use Prim.Native.String.{String}
use mathlib.Core.Path.{◌≡◌, refl, sym, subst}
use mathlib.Core.Logic.{inl, inr}
use mathlib.Core.Bool.{Bool, true, false, ◌||◌}
use mathlib.Core.Option.{Option, none, some}
use mathlib.Core.List.{List, [], ◌∷◌}
use text.Mathlib.Text.{◌==◌}
use text.Mathlib.TextEquality.{eq_iff}
use solana_proxy.Prelude.Tests.{if◌then◌else◌, is_some, Bool-cases}
use solana_proxy.Prelude.Lists.{All}

-- `none` is `undefined`.
abbrev pub lookup {ℓ} : {V : Type ℓ} → String → List (String × V) → Option V
lookup k [] = none
lookup k ((j, v) ∷ m) = if k == j then some v else lookup k m

-- `keys.includes(k)`
abbrev pub includes : String → List String → Bool
includes k [] = false
includes k (j ∷ m) = k == j || includes k m

abbrev pub keys {ℓ} : {V : Type ℓ} → List (String × V) → List String
keys [] = []
keys ((j, v) ∷ m) = j ∷ keys m

pub is_some-lookup {ℓ} :
    {V : Type ℓ} (k : String) (m : List (String × V)) → is_some (lookup k m) ≡ includes k (keys m)
is_some-lookup k [] = refl
is_some-lookup k ((j, v) ∷ m) = elim (Bool-cases (k == j)) [
  | inl same ↦ rw same refl
  | inr other ↦ rw other (is_some-lookup k m)
]

-- What holds of every listed text holds of one that the list includes.
pub includes-All {ℓ} :
    (P : String → Type ℓ) (k : String) (m : List String) → All P m → includes k m ≡ true → P k
includes-All P k [] ps h = cc
includes-All P k (j ∷ m) (p, ps) h = elim (Bool-cases (k == j)) [
  | inl same ↦ subst P (sym ((eq_iff k j).0 same)) p
  | inr other ↦ includes-All P k m ps (rw other at h)
]
