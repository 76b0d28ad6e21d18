-- ===== src/Script/Fees/Tests.antt =====
-- The three figures for the fees 0, 5, 9 and 0.
use solana_proxy.Prelude.{ℕ, ◌≡◌, refl, List, [], ◌∷◌, some}
use solana_proxy.Script.Sorting.{sort, insert}
use solana_proxy.Script.Sorting.Texts.{numbers}
use solana_proxy.Script.Fees.{
  get_prioritization_fees, average, sum_from, non_zero_fees, median_of, median_at,
}

abbrev fees : List ℕ
fees = 0 ∷ 9 ∷ 5 ∷ 0 ∷ []

get_prioritization_fees_of_fees :
    get_prioritization_fees fees
    ≡ some (record {
      average_fee_including_zeros = 3;
      average_fee_excluding_zeros = 7;
      median_fee = 7;
    })
unfolding get_prioritization_fees average sum_from non_zero_fees median_of median_at sort insert
    numbers
get_prioritization_fees_of_fees = refl
