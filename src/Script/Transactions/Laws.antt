-- ===== src/Script/Transactions/Laws.antt =====
-- How the loop of requests ends.
use solana_proxy.Prelude.{
  ℕ, zero, suc, ◌+◌, ◌*◌, ◌≡◌, ◌≤◌, ◌<◌, ◌⊎◌, inl, inr, refl, subst, Option, none, some, Result, ok,
  throw, Error, not_retrieved, arith,
}
use solana_proxy.Script.Transactions.{Retrieval, retry, get_transaction_with_retries}

from_zero : (i : ℕ) → 0 + i ≡ i
from_zero i = omega arith

module _ {ℓ} {Transaction : Type ℓ} where
  answer_cases :
      (r : Result (Option Transaction))
      → (r ≡ ok none) ⊎ (((tx : Transaction) × (r ≡ ok (some tx))) ⊎ ((e : Error) × (r ≡ throw e)))
  answer_cases (ok none) = inl refl
  answer_cases (ok (some tx)) = inr (inl (tx, refl))
  answer_cases (throw e) = inr (inr (e, refl))

  abbrev pub ended : Result Transaction → ℕ → ℕ → Retrieval Transaction
  ended answer requests waited = record { answer = answer; requests = requests; waited = waited }

  -- The loop ended after `c` answers that were null: it gave up, or the next answer settled it.
  abbrev Ends :
      (ℕ → Result (Option Transaction)) → ℕ → ℕ → ℕ → ℕ → ℕ → Retrieval Transaction → Type ℓ
  Ends get_transaction delay rounds attempts waited c run =
      ((c ≡ rounds) × (run ≡ ended (throw not_retrieved) (attempts + c) (waited + c * delay)))
      ⊎ (((tx : Transaction) × (c < rounds)
            × (get_transaction (attempts + c) ≡ ok (some tx))
            × (run ≡ ended (ok tx) (attempts + c + 1) (waited + c * delay)))
          ⊎ ((e : Error) × (c < rounds)
              × (get_transaction (attempts + c) ≡ throw e)
              × (run ≡ ended (throw e) (attempts + c + 1) (waited + c * delay))))

  abbrev Nulls : (ℕ → Result (Option Transaction)) → ℕ → ℕ → Type ℓ
  Nulls get_transaction attempts c = (i : ℕ) → i < c → get_transaction (attempts + i) ≡ ok none

  Nulls-suc :
      (g : ℕ → Result (Option Transaction)) (attempts c : ℕ)
      → g attempts ≡ ok none
      → Nulls g (attempts + 1) c
      → Nulls g attempts (c + 1)
  Nulls-suc g attempts c h rest zero l = let e : attempts + 0 ≡ attempts = omega arith in rw e h
  Nulls-suc g attempts c h rest (suc i) l =
      let e : attempts + suc i ≡ attempts + 1 + i = omega arith in rw e (rest i (omega arith))

  -- One more null in front.
  Ends-suc :
      (g : ℕ → Result (Option Transaction)) (delay rounds attempts waited c : ℕ)
      (run : Retrieval Transaction)
      → Ends g delay rounds (attempts + 1) (waited + delay) c run
      → Ends g delay (suc rounds) attempts waited (c + 1) run
  Ends-suc g delay rounds attempts waited c run h =
      let a : attempts + 1 + c ≡ attempts + (c + 1) = omega arith in
      let w : waited + delay + c * delay ≡ waited + (c + 1) * delay = grind arith in
      elim (rw (a, w) at h) [
        | inl (p, q) ↦ inl (omega (arith, p), q)
        | inr (inl (tx, p, q, r)) ↦ inr (inl (tx, omega (arith, p), q, r))
        | inr (inr (e, p, q, r)) ↦ inr (inr (e, omega (arith, p), q, r))
      ]

  retry-Ends :
      (g : ℕ → Result (Option Transaction)) (delay rounds attempts waited : ℕ)
      → (c : ℕ) × (c ≤ rounds)
        × Nulls g attempts c
        × Ends g delay rounds attempts waited c (retry Transaction g delay rounds attempts waited)
  unfolding retry
  retry-Ends g delay zero attempts waited =
      let a : attempts + 0 ≡ attempts = omega arith in
      let w : waited + 0 * delay ≡ waited = omega arith in
      (0, omega arith, (λ i l. elim l [ ]), inl (refl, rw (a, w) refl))
  retry-Ends g delay (suc rounds) attempts waited =
      let a : attempts + 0 ≡ attempts = omega arith in
      let w : waited + 0 * delay ≡ waited = omega arith in
      elim (answer_cases (g attempts)) [
        | inl h ↦
            let (c, l, nulls, ends) = retry-Ends g delay rounds (attempts + 1) (waited + delay) in
            (
              c + 1,
              omega (arith, l),
              Nulls-suc g attempts c h nulls,
              rw (h, retry) (Ends-suc g delay rounds attempts waited c _ ends),
            )
        | inr (inl (tx, h)) ↦
            let first : g (attempts + 0) ≡ ok (some tx) = rw a h in
            (
              0,
              omega arith,
              (λ i l. elim l [ ]),
              inr (inl (tx, omega arith, first, rw (h, retry, a, w) refl)),
            )
        | inr (inr (e, h)) ↦
            let first : g (attempts + 0) ≡ throw e = rw a h in
            (
              0,
              omega arith,
              (λ i l. elim l [ ]),
              inr (inr (e, omega arith, first, rw (h, retry, a, w) refl)),
            )
      ]

  -- The first `c` answers are null.
  abbrev pub AllNull : (ℕ → Result (Option Transaction)) → ℕ → Type ℓ
  AllNull g zero = Unit
  AllNull g (suc c) = AllNull g c × (g c ≡ ok none)

  nulls_below :
      (g : ℕ → Result (Option Transaction)) (c : ℕ)
      → ((i : ℕ) → i < c → g i ≡ ok none)
      → AllNull g c
  nulls_below g zero h = tt
  nulls_below g (suc c) h = (nulls_below g c (λ i l. h i (omega (arith, l))), h c (omega arith))

  -- How a loop over `get_transaction` ended: after `c` null answers, a delay for each of them.
  abbrev pub Ending : (ℕ → Result (Option Transaction)) → ℕ → ℕ → Retrieval Transaction → Type ℓ
  Ending get_transaction max_retries delay run =
      (c : ℕ) × (c ≤ max_retries)
      × AllNull get_transaction c
      × (((c ≡ max_retries) × (run ≡ ended (throw not_retrieved) c (c * delay)))
          ⊎ (((tx : Transaction) × (c < max_retries)
                × (get_transaction c ≡ ok (some tx))
                × (run ≡ ended (ok tx) (c + 1) (c * delay)))
              ⊎ ((e : Error) × (c < max_retries)
                  × (get_transaction c ≡ throw e)
                  × (run ≡ ended (throw e) (c + 1) (c * delay)))))

  -- Whatever the connection answers, the loop ends, after at most `maxRetries` requests: there is a number
  -- `c` of answers that were null, one delay was waited for each of them, and either they were all
  -- `maxRetries` answers and the function throws, or the next answer was a transaction, which is
  -- returned, or a failure of the connection, which is passed on.
  pub get_transaction_with_retries-ends :
      (get_transaction : ℕ → Result (Option Transaction)) (max_retries delay : ℕ)
      → Ending get_transaction max_retries delay
          (get_transaction_with_retries Transaction get_transaction max_retries delay)
  unfolding get_transaction_with_retries
  get_transaction_with_retries-ends get_transaction max_retries delay =
      let (c, l, nulls, ends) = retry-Ends get_transaction delay max_retries 0 0 in
      let z : 0 + c ≡ c = omega arith in
      let w : 0 + c * delay ≡ c * delay = omega arith in
      (
        c,
        l,
        nulls_below get_transaction c
            (λ i h. subst (λ (n : ℕ). get_transaction n ≡ ok none) (from_zero i) (nulls i h)),
        rw (z, w) at ends,
      )
