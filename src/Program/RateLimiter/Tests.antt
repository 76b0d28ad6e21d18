-- ===== src/Program/RateLimiter/Tests.antt =====
-- A limiter of 10 tokens, refilled with 2 in a second.
use solana_proxy.Prelude.{ℕ, ◌≡◌, ◌≤◌, ◌+◌, ◌-◌, ◌*◌, refl, List, [], ◌∷◌, arith}
use solana_proxy.Program.RateLimiter.{Consumed, consume_all, try_consume, refill, new_tokens}
use solana_proxy.Program.RateLimiter.Laws.{consume_all-le}

abbrev start : Consumed
start = record {
  total = 0;
  limiter = record { capacity = 10; tokens = 3; refill_per_second = 2; last_refill_time = 100 };
}

abbrev requests : List (ℕ × ℕ)
requests = (101, 4) ∷ (102, 9) ∷ (103, 2) ∷ []

-- The second request is refused.
consume_all_of_requests : (consume_all requests start).total ≡ 6
unfolding consume_all try_consume refill new_tokens
consume_all_of_requests = refl

consume_all-le_example : (consume_all requests start).total ≤ 0 + 3 + (105 - 100) * 2
consume_all-le_example =
    consume_all-le 101 105 requests start (omega arith, (omega arith, (omega arith, omega arith)))
      (omega arith)
