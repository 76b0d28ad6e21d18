-- ===== src/Program/RateLimiter/Laws.antt =====
-- The limiter never holds more than its capacity, and lets through no more than what it held and has
-- been refilled with.
use solana_proxy.Prelude.{
  ℕ, ◌+◌, ◌-◌, ◌*◌, ◌≤◌, ◌≡◌, ◌⊎◌, sym, ap, ◌∙◌, refl, subst, true, Option, none, some, List, [],
  ◌∷◌, leb, arith, Bool-cases, inl, inr,
}
use solana_proxy.Program.Outcome.{Outcome, ProxyError, done, failed}
use solana_proxy.Program.RateLimiter.{
  RateLimiter, RateLimitParams, new_tokens, refill, set_rate, set_capacity, try_consume,
  unwrap_or_default, with_capacity, with_rate, update_rate_limiter, Consumed, consume_one,
  consume_all,
}
use native.Mathlib.Nat

abbrev pub IsBounded : RateLimiter → Type 0
IsBounded limiter = limiter.tokens ≤ limiter.capacity

refill-IsBounded : (now extra : ℕ) (limiter : RateLimiter) → IsBounded (refill now extra limiter)
unfolding refill
refill-IsBounded now extra limiter = omega arith

new_tokens-le :
    (now : ℕ) (limiter : RateLimiter)
    → new_tokens now 0 limiter ≤ (now - limiter.last_refill_time) * limiter.refill_per_second
unfolding new_tokens
new_tokens-le now limiter = ground arith

refill-le :
    (now : ℕ) (limiter : RateLimiter)
    → (refill now 0 limiter).tokens
      ≤ limiter.tokens + (now - limiter.last_refill_time) * limiter.refill_per_second
unfolding refill
refill-le now limiter = omega (arith, new_tokens-le now limiter)

refill-capacity :
    (now extra : ℕ) (limiter : RateLimiter) → (refill now extra limiter).capacity ≡ limiter.capacity
unfolding refill
refill-capacity now extra limiter = refl

refill_keeps :
    (now : ℕ) (limiter : RateLimiter)
    → ((refill now 0 limiter).capacity ≡ limiter.capacity)
      × ((refill now 0 limiter).refill_per_second ≡ limiter.refill_per_second)
      × ((refill now 0 limiter).last_refill_time ≡ now)
unfolding refill
refill_keeps now limiter = (refl, refl, refl)

enough_left : (tokens amount : ℕ) → leb amount tokens ≡ true → tokens - amount + amount ≡ tokens
enough_left tokens amount h = ground (arith, h)

-- What a successful consumption leaves.
try_consume-eq-done :
    (now amount : ℕ) (limiter limiter' : RateLimiter)
    → try_consume now amount limiter ≡ done limiter'
    → (limiter'.tokens + amount ≡ (refill now 0 limiter).tokens)
      × (limiter'.capacity ≡ limiter.capacity)
      × (limiter'.refill_per_second ≡ limiter.refill_per_second)
      × (limiter'.last_refill_time ≡ now)
unfolding try_consume
try_consume-eq-done now amount limiter limiter' h =
    elim (Bool-cases (leb amount ((refill now 0 limiter).tokens))) [
      | inr few ↦ cc (rw few at h)
      | inl enough ↦
          subst
            (λ (l : RateLimiter).
              (l.tokens + amount ≡ (refill now 0 limiter).tokens)
              × (l.capacity ≡ limiter.capacity)
              × (l.refill_per_second ≡ limiter.refill_per_second)
              × (l.last_refill_time ≡ now))
            (cc (rw enough at h))
            (
              enough_left (refill now 0 limiter).tokens amount enough,
              (refill_keeps now limiter).0,
              (refill_keeps now limiter).1,
              (refill_keeps now limiter).2,
            )
    ]

set_capacity-IsBounded :
    (now capacity : ℕ) (limiter : RateLimiter) → IsBounded (set_capacity now capacity limiter)
unfolding set_capacity
set_capacity-IsBounded now capacity limiter = omega arith

set_rate-IsBounded : (now rate : ℕ) (limiter : RateLimiter) → IsBounded (set_rate now rate limiter)
unfolding set_rate
set_rate-IsBounded now rate limiter = refill-IsBounded now 0 limiter

try_consume-IsBounded :
    (now amount : ℕ) (limiter limiter' : RateLimiter)
    → try_consume now amount limiter ≡ done limiter'
    → IsBounded limiter'
try_consume-IsBounded now amount limiter limiter' h =
    let (left, capacity, _, _) = try_consume-eq-done now amount limiter limiter' h in
    omega (arith, left, capacity, refill-IsBounded now 0 limiter, refill-capacity now 0 limiter)

with_capacity-IsBounded :
    (now : ℕ) (capacity : Option ℕ) (limiter : RateLimiter)
    → IsBounded limiter
    → IsBounded (with_capacity now capacity limiter)
with_capacity-IsBounded now none limiter h = h
with_capacity-IsBounded now (some capacity) limiter h = set_capacity-IsBounded now capacity limiter

with_rate-IsBounded :
    (now : ℕ) (rate : Option ℕ) (limiter : RateLimiter)
    → IsBounded limiter
    → IsBounded (with_rate now rate limiter)
with_rate-IsBounded now none limiter h = h
with_rate-IsBounded now (some rate) limiter h = set_rate-IsBounded now rate limiter

abbrev pub AreBounded : Option RateLimiter → Type 0
AreBounded none = Unit
AreBounded (some limiter) = IsBounded limiter

unwrap_or_default-IsBounded :
    (limiter : Option RateLimiter) → AreBounded limiter → IsBounded (unwrap_or_default limiter)
unwrap_or_default-IsBounded none _ = omega arith
unwrap_or_default-IsBounded (some limiter) h = h

-- Whatever `update_rate_limiter` makes of a limiter that holds at most its capacity, or of none, holds
-- at most its capacity.
pub update_rate_limiter-IsBounded :
    (now : ℕ) (limiter : Option RateLimiter) (params : Option RateLimitParams)
    → AreBounded limiter
    → AreBounded (update_rate_limiter now limiter params)
unfolding update_rate_limiter
update_rate_limiter-IsBounded now limiter none h = tt
update_rate_limiter-IsBounded now limiter (some params) h =
    with_rate-IsBounded now (RateLimitParams.refill_per_second params) _ (
      with_capacity-IsBounded now (RateLimitParams.capacity params) (unwrap_or_default limiter)
        (unwrap_or_default-IsBounded limiter h))

-- Requests whose times do not go back, from `start` and up to `end`.
abbrev pub Ordered : ℕ → ℕ → List (ℕ × ℕ) → Type 0
Ordered start end [] = start ≤ end
Ordered start end ((now, amount) ∷ requests) = (start ≤ now) × Ordered now end requests

Ordered-le : (start end : ℕ) (requests : List (ℕ × ℕ)) → Ordered start end requests → start ≤ end
Ordered-le start end [] h = h
Ordered-le start end ((now, amount) ∷ requests) (le, h) =
    omega (arith, le, Ordered-le now end requests h)

Outcome-cases {ℓ} :
    {A : Type ℓ} (o : Outcome A) → ((a : A) × (o ≡ done a)) ⊎ ((e : ProxyError) × (o ≡ failed e))
Outcome-cases (done a) = inl (a, refl)
Outcome-cases (failed e) = inr (e, refl)

spend :
    (end now last result total amount tokens left time rate rate' refilled : ℕ)
    → result ≤ total + amount + left + (end - time) * rate'
    → left + amount ≡ refilled
    → rate' ≡ rate
    → time ≡ now
    → refilled ≤ tokens + (now - last) * rate
    → last ≤ now
    → now ≤ end
    → result ≤ total + tokens + (end - last) * rate
spend end now last result total amount tokens left time rate rate' refilled r l e t f a b =
    let split : (end - last) * rate ≡ (end - now) * rate + (now - last) * rate =
      ap (λ n. n * rate) (omega (arith, a, b)) ∙ Nat.add-mul (end - now) (now - last) rate in
    let same : (end - time) * rate' ≡ (end - now) * rate = rw (e, t) refl in
    omega (arith, r, l, f, split, same)

-- The bound, with the outcome of the first consumption left open.
abbrev Within : ℕ → ℕ → List (ℕ × ℕ) → Consumed → Outcome RateLimiter → Type 0
Within end amount requests c o =
    (consume_all requests (consume_one c.total c.limiter amount o)).total
    ≤ c.total + c.limiter.tokens + (end - c.limiter.last_refill_time) * c.limiter.refill_per_second

-- Requests that come from the limiter's last refill on, in the order of their times, get together at
-- most what the limiter held and what it was refilled with until the end.
pub consume_all-le :
    (start end : ℕ) (requests : List (ℕ × ℕ)) (c : Consumed)
    → Ordered start end requests
    → c.limiter.last_refill_time ≤ start
    → (consume_all requests c).total
      ≤ c.total
        + c.limiter.tokens
        + (end - c.limiter.last_refill_time) * c.limiter.refill_per_second
unfolding consume_all
consume_all-le start end [] c h le = omega arith
consume_all-le start end ((now, amount) ∷ requests) c (after, h) le =
    elim (Outcome-cases (try_consume now amount c.limiter)) [
      | inl (limiter, consumed) ↦
          let (left, _, rate, time) = try_consume-eq-done now amount c.limiter limiter consumed in
          subst (Within end amount requests c) (sym consumed) (
            spend end now c.limiter.last_refill_time _ c.total amount c.limiter.tokens
              limiter.tokens limiter.last_refill_time c.limiter.refill_per_second
              limiter.refill_per_second ((refill now 0 c.limiter).tokens)
              (consume_all-le now end requests
                (record { total = c.total + amount; limiter = limiter }) h (omega (arith, time)))
              left rate time (refill-le now c.limiter) (omega (arith, after, le))
              (Ordered-le now end requests h))
      | inr (e, refused) ↦
          subst (Within end amount requests c) (sym refused)
            (consume_all-le now end requests c h (omega (arith, after, le)))
    ]
