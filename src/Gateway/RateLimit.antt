-- ===== src/Gateway/RateLimit.antt =====
-- apps/api-gateway-nest/src/infrastructure/rate-limit/redis-rate-limit.adapter.ts: counters of
-- requests in Redis. Redis is a parameter; warnings are left out.
use jira_microservices_lab.Common.{
  ℕ, Text, Bool, true, false, Option, none, some, ltb, leb, ◌==◌, if◌then◌else◌,
}

-- What a command of Redis comes to: none if it fails, and the state after it.
abbrev pub Reply : Type 0 → Type 0 → Type 0
Reply Store A = Option A × Store

-- The connection (which a client that has one leaves as it is) and the commands. INCR replies with
-- the new count, GET with the number that is stored or null, TTL with the seconds that are left or
-- (as a negative number) with none.
pub record Redis (Store : Type 0) : Type 0 where
  pub ensure_connected : Store → Reply Store (Unit {0})
  pub incr : Text → Store → Reply Store ℕ
  pub expire : Text → ℕ → Store → Reply Store (Unit {0})
  pub ttl : Text → Store → Reply Store (Option ℕ)
  pub get_count : Text → Store → Reply Store (Option ℕ)

pub record RateLimitResult : Type 0 where
  pub limited : Bool
  pub count : ℕ
  pub limit : ℕ
  pub ttl_seconds : ℕ
  pub fail_open : Bool

-- Go on unless a command failed.
abbrev pub then_do :
    {Store A B : Type 0} → Reply Store A → (A → Store → Reply Store B) → Reply Store B
then_do (none, s) f = (none, s)
then_do (some a, s) f = f a s

abbrev pub counted : ℕ → ℕ → ℕ → RateLimitResult
counted limit count seconds = record {
  limited = ltb limit count;
  count = count;
  limit = limit;
  ttl_seconds = seconds;
  fail_open = false;
}

-- When Redis fails, nobody is limited.
abbrev pub or_open : {Store : Type 0} → ℕ → Reply Store RateLimitResult → RateLimitResult × Store
or_open limit (some r, s) = (r, s)
or_open limit (none, s) =
    (record { limited = false; count = 0; limit = limit; ttl_seconds = 0; fail_open = true }, s)

-- `Number(rawCount ?? 0)`
abbrev pub or_zero : Option ℕ → ℕ
or_zero none = 0
or_zero (some n) = n

abbrev pub at_limit : {Store : Type 0} → ℕ → Reply Store (Option ℕ) → Bool × Store
at_limit limit (some count, s) = (leb limit (or_zero count), s)
at_limit limit (none, s) = (false, s)

module _ {Store : Type 0} (redis : Redis Store) where
  -- The first hit starts the window.
  abbrev pub start_window : ℕ → Text → ℕ → Store → Reply Store (Unit {0})
  start_window count key window s = if count == 1 then redis.expire key window s else (some tt, s)

  -- The seconds that are left; a window that has no end is started again.
  abbrev pub remaining : Text → ℕ → Option ℕ → Store → Reply Store ℕ
  remaining key window none s = then_do (redis.expire key window s) (λ u s2. (some window, s2))
  remaining key window (some seconds) s = (some seconds, s)

  unfoldable pub try_hit : Text → ℕ → ℕ → Store → Reply Store RateLimitResult
  try_hit key limit window s = then_do (redis.ensure_connected s) (λ u s1.
      then_do (redis.incr key s1) (λ count s2. then_do (start_window count key window s2) (λ v s3.
        then_do (redis.ttl key s3) (λ left s4.
          then_do (remaining key window left s4)
            (λ seconds s5. (some (counted limit count seconds), s5))))))

  unfoldable pub hit : Text → ℕ → ℕ → Store → RateLimitResult × Store
  unfolding try_hit
  hit key limit window s = or_open limit (try_hit key limit window s)

  unfoldable pub is_at_limit : Text → ℕ → Store → Bool × Store
  is_at_limit key limit s =
      at_limit limit (then_do (redis.ensure_connected s) (λ u s1. redis.get_count key s1))
