-- ===== src/Program/RateLimiter.antt =====
-- `RateLimiter` of programs/solana-proxy/src/state/peer_config.rs, and the `update_rate_limiter` of
-- set_peer_config.rs. The clock's time is an argument; one before 1970 would panic.
pub mod Laws
mod Tests
use solana_proxy.Prelude.{
  ℕ, ◌+◌, ◌-◌, ◌*◌, ◌^◌, min, Bool, Option, none, some, List, [], ◌∷◌, if◌then◌else◌, ltb, leb,
}
use solana_proxy.Program.Outcome.{Outcome, done, failed, rate_limit_exceeded}

pub record RateLimiter : Type 0 where
  pub capacity : ℕ
  pub tokens : ℕ
  pub refill_per_second : ℕ
  pub last_refill_time : ℕ

abbrev pub u64_max : ℕ
u64_max = 2 ^ 64 - 1

abbrev pub saturating_add : ℕ → ℕ → ℕ
saturating_add a b = min (a + b) u64_max

abbrev pub saturating_mul : ℕ → ℕ → ℕ
saturating_mul a b = min (a * b) u64_max

-- `new_tokens` of `refill`.
unfoldable pub new_tokens : ℕ → ℕ → RateLimiter → ℕ
new_tokens now extra_tokens limiter =
    if ltb limiter.last_refill_time now
    then saturating_add extra_tokens
        (saturating_mul (now - limiter.last_refill_time) limiter.refill_per_second)
    else extra_tokens

unfoldable pub refill : ℕ → ℕ → RateLimiter → RateLimiter
refill now extra_tokens limiter = record {
  capacity = limiter.capacity;
  tokens =
      min limiter.capacity (saturating_add limiter.tokens (new_tokens now extra_tokens limiter));
  refill_per_second = limiter.refill_per_second;
  last_refill_time = now;
}

unfoldable pub set_rate : ℕ → ℕ → RateLimiter → RateLimiter
set_rate now rate limiter = record (refill now 0 limiter) { refill_per_second = rate }

unfoldable pub set_capacity : ℕ → ℕ → RateLimiter → RateLimiter
set_capacity now capacity limiter = record limiter {
  capacity = capacity;
  tokens = capacity;
  last_refill_time = now;
}

unfoldable pub try_consume : ℕ → ℕ → RateLimiter → Outcome RateLimiter
try_consume now amount limiter =
    if leb amount ((refill now 0 limiter).tokens)
    then done (record (refill now 0 limiter) { tokens = (refill now 0 limiter).tokens - amount })
    else failed rate_limit_exceeded

pub record RateLimitParams : Type 0 where
  pub refill_per_second : Option ℕ
  pub capacity : Option ℕ

-- `RateLimiter::default()`
abbrev pub default_limiter : RateLimiter
default_limiter = record { capacity = 0; tokens = 0; refill_per_second = 0; last_refill_time = 0 }

abbrev pub unwrap_or_default : Option RateLimiter → RateLimiter
unwrap_or_default none = default_limiter
unwrap_or_default (some limiter) = limiter

abbrev pub with_capacity : ℕ → Option ℕ → RateLimiter → RateLimiter
with_capacity now none limiter = limiter
with_capacity now (some capacity) limiter = set_capacity now capacity limiter

abbrev pub with_rate : ℕ → Option ℕ → RateLimiter → RateLimiter
with_rate now none limiter = limiter
with_rate now (some rate) limiter = set_rate now rate limiter

unfoldable pub update_rate_limiter :
    ℕ → Option RateLimiter → Option RateLimitParams → Option RateLimiter
update_rate_limiter now limiter none = none
update_rate_limiter now limiter (some params) = some (
    with_rate now (RateLimitParams.refill_per_second params)
      (with_capacity now (RateLimitParams.capacity params) (unwrap_or_default limiter)))

-- Consumptions in a row, at their times; one that fails leaves the limiter as it was. The sum of what
-- was consumed, and the limiter at the end.
pub record Consumed : Type 0 where
  pub total : ℕ
  pub limiter : RateLimiter

abbrev pub consume_one : ℕ → RateLimiter → ℕ → Outcome RateLimiter → Consumed
consume_one total limiter amount (done limiter') = record {
  total = total + amount;
  limiter = limiter';
}
consume_one total limiter amount (failed e) = record { total = total; limiter = limiter }

unfoldable pub consume_all : List (ℕ × ℕ) → Consumed → Consumed
consume_all [] c = c
consume_all ((now, amount) ∷ requests) c =
    consume_all requests (consume_one c.total c.limiter amount (try_consume now amount c.limiter))
