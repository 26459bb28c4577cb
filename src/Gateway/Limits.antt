-- ===== src/Gateway/Limits.antt =====
-- apps/api-gateway-nest/src/services/auth.service.ts over
-- apps/api-gateway-nest/src/infrastructure/rate-limit/redis-rate-limit.adapter.ts: how many requests
-- reach the service behind the gateway within one window.
use jira_microservices_lab.Common.{
  ℕ, suc, ◌≡◌, refl, ap, sym, ◌∙◌, subst, Text, text_eq, Bool, false, Option, none, some, ltb, leb,
  ◌==◌, arith, if_cases,
}
use jira_microservices_lab.Gateway.RateLimit.{
  Redis, RateLimitResult, Reply, then_do, start_window, remaining, counted, or_open, or_zero,
  try_hit, hit, at_limit, is_at_limit,
}

-- A Redis whose commands succeed and whose counters do not run out meanwhile: `count` is the number
-- that a key stands for. INCR adds one to its key, the other commands leave the counters alone.
pub record Counting {Store : Type 0} (redis : Redis Store) : Type 0 where
  pub count : Text → Store → ℕ
  pub connected : (s : Store) → (redis.ensure_connected s).0 ≡ some tt
  pub connected_count :
      (key : Text) (s : Store) → count key (redis.ensure_connected s).1 ≡ count key s
  pub added : (key : Text) (s : Store) → (redis.incr key s).0 ≡ some (suc (count key s))
  pub added_count : (key : Text) (s : Store) → count key (redis.incr key s).1 ≡ suc (count key s)
  pub added_other :
      (key other : Text) (s : Store)
      → text_eq key other ≡ false
      → count other (redis.incr key s).1 ≡ count other s
  pub expires : (key : Text) (window : ℕ) (s : Store) → (redis.expire key window s).0 ≡ some tt
  pub expires_count :
      (key other : Text) (window : ℕ) (s : Store)
      → count other (redis.expire key window s).1 ≡ count other s
  pub left : Text → Store → Option ℕ
  pub lives : (key : Text) (s : Store) → (redis.ttl key s).0 ≡ some (left key s)
  pub lives_count : (key other : Text) (s : Store) → count other (redis.ttl key s).1 ≡ count other s
  pub stored : Text → Store → Option ℕ
  pub shows : (key : Text) (s : Store) → (redis.get_count key s).0 ≡ some (stored key s)
  pub shows_number : (key : Text) (s : Store) → or_zero (stored key s) ≡ count key s
  pub shows_count :
      (key other : Text) (s : Store) → count other (redis.get_count key s).1 ≡ count other s

some_injective : {A : Type 0} (a b : A) → some a ≡ some b → a ≡ b
some_injective a b h = ground arith

-- A command that succeeds is followed by the next.
then_do-some :
    {Store A B : Type 0} (r : Reply Store A) (a : A) (f : A → Store → Reply Store B)
    → r.0 ≡ some a
    → then_do r f ≡ f a r.1
then_do-some (none, s) a f h = cc
then_do-some (some b, s) a f h = ap (λ (x : _). f x s) (some_injective b a h)

module _ {Store : Type 0} (redis : Redis Store) (law : Counting redis) where
  -- A command succeeds and leaves the counters alone.
  Keeps : {A : Type 0} → Store → Reply Store A → Type 0
  Keeps {A} s r = (a : A) × (r.0 ≡ some a) × ((key : Text) → law.count key r.1 ≡ law.count key s)

  expire-Keeps : (key : Text) (window : ℕ) (s : Store) → Keeps s (redis.expire key window s)
  unfolding Keeps
  expire-Keeps key window s =
      (tt, law.expires key window s, λ other. law.expires_count key other window s)

  start_window-Keeps :
      (n : ℕ) (key : Text) (window : ℕ) (s : Store) → Keeps s (start_window redis n key window s)
  unfolding Keeps
  start_window-Keeps n key window s =
      if_cases (Keeps s) (n == 1) _ _ (λ e. expire-Keeps key window s)
        (λ e. (tt, refl, λ other. refl))

  remaining-Keeps :
      (key : Text) (window : ℕ) (left : Option ℕ) (s : Store)
      → Keeps s (remaining redis key window left s)
  unfolding Keeps
  remaining-Keeps key window none s =
      let e =
        then_do-some (redis.expire key window s) tt (λ u s2. (some window, s2))
          (law.expires key window s) in
      (
        window,
        ap (λ (r : Reply Store ℕ). r.0) e,
        λ other.
            ap (λ (r : Reply Store ℕ). law.count other r.1) e
            ∙ law.expires_count key other window s,
      )
  remaining-Keeps key window (some n) s = (n, refl, λ other. refl)

  -- What a hit does, as the counters see it.
  unfoldable pub Hits : Text → ℕ → Store → RateLimitResult × Store → Type 0
  Hits key limit s after =
      (after.0.limited ≡ ltb limit (suc (law.count key s)))
      × (law.count key after.1 ≡ suc (law.count key s))
      × ((other : Text) → text_eq key other ≡ false → law.count other after.1 ≡ law.count other s)

  pub hit-Hits :
      (key : Text) (limit window : ℕ) (s : Store) → Hits key limit s (hit redis key limit window s)
  unfolding Hits Keeps hit
  hit-Hits key limit window s =
      let s1 = (redis.ensure_connected s).1 in
      let n = suc (law.count key s1) in
      let s2 = (redis.incr key s1).1 in
      let (u, e3, k3) = start_window-Keeps n key window s2 in
      let s3 = (start_window redis n key window s2).1 in
      let s4 = (redis.ttl key s3).1 in
      let (seconds, e5, k5) = remaining-Keeps key window (law.left key s3) s4 in
      let s5 = (remaining redis key window (law.left key s3) s4).1 in
      let e : try_hit redis key limit window s ≡ (some (counted limit n seconds), s5) =
        then_do-some (redis.ensure_connected s) tt _ (law.connected s)
        ∙ then_do-some (redis.incr key s1) n _ (law.added key s1)
        ∙ then_do-some (start_window redis n key window s2) u _ e3
        ∙ then_do-some (redis.ttl key s3) (law.left key s3) _ (law.lives key s3)
        ∙ then_do-some (remaining redis key window (law.left key s3) s4) seconds _ e5 in
      let kept : (other : Text) → law.count other s5 ≡ law.count other s2 =
        λ other. k5 other ∙ law.lives_count key other s3 ∙ k3 other in
      let before = law.connected_count key s in
      subst (λ r. Hits key limit s (or_open limit r)) (sym e)
        (
          ap (λ m. ltb limit (suc m)) before,
          kept key ∙ law.added_count key s1 ∙ ap suc before,
          λ other apart.
              kept other ∙ law.added_other key other s1 apart ∙ law.connected_count other s,
        )

  -- What the look at a counter tells, which stays as it is.
  unfoldable pub Looks : Text → ℕ → Store → Bool × Store → Type 0
  Looks key limit s after =
      (after.0 ≡ leb limit (law.count key s))
      × ((other : Text) → law.count other after.1 ≡ law.count other s)

  pub is_at_limit-Looks :
      (key : Text) (limit : ℕ) (s : Store) → Looks key limit s (is_at_limit redis key limit s)
  unfolding Looks is_at_limit
  is_at_limit-Looks key limit s =
      let s1 = (redis.ensure_connected s).1 in
      let e =
        then_do-some (redis.ensure_connected s) tt (λ u s1. redis.get_count key s1)
          (law.connected s) in
      let r = redis.get_count key s1 in
      subst (λ r. Looks key limit s (at_limit limit r)) (sym e)
        (
          tells r (law.stored key s1) (law.shows key s1)
              ∙ ap (leb limit) (law.shows_number key s1 ∙ law.connected_count key s),
          λ other.
              ap (law.count other) (leaves r)
              ∙ law.shows_count key other s1
              ∙ law.connected_count other s,
        )
    where
      tells :
          (r : Reply Store (Option ℕ)) (o : Option ℕ)
          → r.0 ≡ some o
          → (at_limit limit r).0 ≡ leb limit (or_zero o)
      tells (none, s2) o h = cc
      tells (some p, s2) o h = ap (λ (q : Option ℕ). leb limit (or_zero q)) (some_injective p o h)

      leaves : (r : Reply Store (Option ℕ)) → (at_limit limit r).1 ≡ r.1
      leaves (none, s2) = refl
      leaves (some p, s2) = refl
