-- ===== src/Script/Fees.antt =====
-- tasks/utils/getFee.ts, getPrioritizationFees; the fees are those that
-- `Connection.getRecentPrioritizationFees` answers.
pub mod Bounds
mod Tests
use solana_proxy.Prelude.{
  ℕ, ◌+◌, ◌-◌, ◌/◌, ◌%◌, Bool, not, List, [], ◌∷◌, Option, none, some, if◌then◌else◌, length,
  get_elem?, ◌==◌, ltb,
}
use solana_proxy.Script.Sorting.{sort}
use solana_proxy.Script.Sorting.Texts.{numbers}

pub record FeeSummary : Type 0 where
  pub average_fee_including_zeros : ℕ
  pub average_fee_excluding_zeros : ℕ
  pub median_fee : ℕ

-- `reduce((acc, fee) => acc + fee, acc)`.
unfoldable pub sum_from : ℕ → List ℕ → ℕ
sum_from acc [] = acc
sum_from acc (fee ∷ fees) = sum_from (acc + fee) fees

unfoldable pub average : List ℕ → ℕ
unfolding sum_from
average fees = if ltb 0 (length fees) then sum_from 0 fees / length fees else 0

unfoldable pub non_zero_fees : List ℕ → List ℕ
non_zero_fees [] = []
non_zero_fees (fee ∷ fees) = if not (fee == 0) then fee ∷ non_zero_fees fees else non_zero_fees fees

-- An element that is read out of range is `undefined`, which no arithmetic below sees: see the bounds.
abbrev pub element : List ℕ → ℕ → Option ℕ
element fees i = get_elem? fees i

abbrev pub midpoint : Option ℕ → Option ℕ → Option ℕ
midpoint (some lower) (some upper) = some ((lower + upper) / 2)
midpoint _ _ = none

unfoldable pub median_at : List ℕ → ℕ → Option ℕ
median_at sorted_fees mid_index =
    if not (length sorted_fees % 2 == 0)
    then element sorted_fees mid_index
    else midpoint (element sorted_fees (mid_index - 1)) (element sorted_fees mid_index)

unfoldable pub median_of : List ℕ → Option ℕ
median_of sorted_fees =
    if ltb 0 (length sorted_fees) then median_at sorted_fees (length sorted_fees / 2) else some 0

abbrev pub summary_of : ℕ → ℕ → Option ℕ → Option FeeSummary
summary_of including excluding none = none
summary_of including excluding (some median) = some (record {
  average_fee_including_zeros = including;
  average_fee_excluding_zeros = excluding;
  median_fee = median;
})

unfoldable pub get_prioritization_fees : List ℕ → Option FeeSummary
get_prioritization_fees fees =
    if length fees == 0
    then some (record {
      average_fee_including_zeros = 0;
      average_fee_excluding_zeros = 0;
      median_fee = 0;
    })
    else summary_of (average fees) (average (non_zero_fees fees))
        (median_of (sort (non_zero_fees fees)))
