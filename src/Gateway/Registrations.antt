-- ===== src/Gateway/Registrations.antt =====
-- apps/api-gateway-nest/src/services/auth.service.ts: runs of `register`, one request after the
-- other.
use jira_microservices_lab.Common.{ℕ, ◌+◌, ◌-◌, ◌≤◌, Text, List, [], ◌∷◌, arith, length, if_cases}
use jira_microservices_lab.Json.{Value}
use jira_microservices_lab.Gateway.Errors.{Outcome}
use jira_microservices_lab.Gateway.RateLimit.{Redis, hit}
use jira_microservices_lab.Gateway.Services.{Upstream, Handled, register_key, register}
use jira_microservices_lab.Gateway.Limits.{Counting, Hits, hit-Hits}
use jira_microservices_lab.Gateway.Guesses.{Request}

module _ {Store : Type 0} (redis : Redis Store) (to_lower_case : Text → Text)
    (upstream : Upstream → Outcome Value) where
  -- The calls of the IAM service that requests to register from one address lead to.
  unfoldable pub registrations : Text → List Request → Store → ℕ
  registrations client_ip [] s = 0
  registrations client_ip (r ∷ rs) s =
      let handled = register redis to_lower_case upstream r.body client_ip r.correlation_id s in
      length handled.calls + registrations client_ip rs handled.store

  module _ (law : Counting redis) where
    -- Within a window at most five requests to register from one address reach the IAM service, less
    -- those that are counted already, if the commands of Redis succeed and its counters do not run
    -- out.
    registrations_bounded :
        (client_ip : Text) (rs : List Request) (s : Store)
        → registrations client_ip rs s ≤ 5 - law.count (register_key client_ip) s
    unfolding registrations register Hits
    registrations_bounded client_ip [] s = omega arith
    registrations_bounded client_ip (r ∷ rs) s =
        let key = register_key client_ip in
        let (tested, counted, others) = hit-Hits redis law key 5 600 s in
        let (result, after) = hit redis key 5 600 s in
        let rest = registrations_bounded client_ip rs after in
        if_cases
          (λ (h : Handled Store).
            length h.calls + registrations client_ip rs h.store ≤ 5 - law.count key s)
          result.limited _ _ (λ e. ground (arith, e, tested, counted, rest))
          (λ e. ground (arith, e, tested, counted, rest))
