-- ===== src/Gateway/Guesses.antt =====
-- apps/api-gateway-nest/src/services/auth.service.ts: runs of `login`, one request after the
-- other.
use jira_microservices_lab.Common.{
  ℕ, suc, ◌+◌, ◌-◌, ◌≡◌, ◌≤◌, refl, ap, sym, ◌∙◌, subst, Text, codes, text_eq, text_eq_sound, Bool,
  true, false, Option, none, some, List, [], ◌∷◌, if◌then◌else◌, arith, length, if_cases,
}
use jira_microservices_lab.Json.{Value}
use jira_microservices_lab.Gateway.Errors.{Thrown, Outcome, returns, throws}
use jira_microservices_lab.Gateway.RateLimit.{Redis, hit, is_at_limit}
use jira_microservices_lab.Gateway.Services.{
  Upstream, iam_call, Handled, login_key, email_key, is_invalid_credentials, email_from_body,
  count_failure, attempt, check_email, login,
}
use jira_microservices_lab.Gateway.Limits.{Counting, Hits, hit-Hits, Looks, is_at_limit-Looks}

pub record Request : Type 0 where
  pub body : Value
  pub client_ip : Text
  pub correlation_id : Text

module _ {Store : Type 0} (redis : Redis Store) (to_lower_case : Text → Text)
    (upstream : Upstream → Outcome Value) where
  abbrev pub is_for : Text → Option Text → Bool
  is_for email none = false
  is_for email (some e) = text_eq e email

  -- The calls of the IAM service that requests to log in with one email lead to, among others.
  unfoldable pub guesses : Text → List Request → Store → ℕ
  guesses email [] s = 0
  guesses email (r ∷ rs) s =
      let handled = login redis to_lower_case upstream r.body r.client_ip r.correlation_id s in
      let rest = guesses email rs handled.store in
      if is_for email (email_from_body to_lower_case r.body)
      then length handled.calls + rest
      else rest

  module _ (law : Counting redis) where
    email_key-apart :
        (a b : Text) → text_eq a b ≡ false → text_eq (email_key a) (email_key b) ≡ false
    unfolding text_eq codes
    email_key-apart a b h = h

    login_key-apart : (a b : Text) → text_eq (login_key a) (email_key b) ≡ false
    unfolding text_eq codes
    login_key-apart a b = refl

    -- A request that is not for the email leaves its counter alone.
    count_failure-other :
        (email : Text) (o : Option Text) (outcome : Outcome Value) (s : Store)
        → is_for email o ≡ false
        → law.count (email_key email) (count_failure redis to_lower_case upstream o outcome s)
          ≡ law.count (email_key email) s
    unfolding Hits
    count_failure-other email o (returns v) s h = refl
    count_failure-other email none (throws t) s h = refl
    count_failure-other email (some e) (throws t) s h =
        let (tested, counted, others) = hit-Hits redis law (email_key e) 5 300 s in
        if_cases (λ (x : Store). law.count (email_key email) x ≡ law.count (email_key email) s)
          (is_invalid_credentials t) _ _
          (λ yes. others (email_key email) (email_key-apart e email h)) (λ no. refl)

    check_email-other :
        (email : Text) (body : Value) (correlation_id : Text) (o : Option Text) (s : Store)
        → is_for email o ≡ false
        → law.count
            (email_key email)
            (check_email redis to_lower_case upstream body correlation_id o s).store
          ≡ law.count (email_key email) s
    unfolding Looks
    check_email-other email body correlation_id none s h =
        count_failure-other email none (upstream (iam_call "login" body correlation_id)) s h
    check_email-other email body correlation_id (some e) s h =
        let (tested, kept) = is_at_limit-Looks redis law (email_key e) 5 s in
        let (full, after) = is_at_limit redis (email_key e) 5 s in
        if_cases
          (λ (x : Handled Store).
            law.count (email_key email) x.store ≡ law.count (email_key email) s)
          full _ _ (λ yes. kept (email_key email))
          (λ no.
            count_failure-other email (some e) (upstream (iam_call "login" body correlation_id))
              after h
            ∙ kept (email_key email))

    -- The IAM service rejects a password.
    abbrev pub Rejects : Value → Text → Type 0
    Rejects body correlation_id =
        (t : Thrown) × (upstream (iam_call "login" body correlation_id) ≡ throws t)
        × (is_invalid_credentials t ≡ true)

    attempt-same :
        (email : Text) (body : Value) (correlation_id : Text) (s : Store)
        → Rejects body correlation_id
        → law.count
            (email_key email)
            (attempt redis to_lower_case upstream body correlation_id (some email) s).store
          ≡ suc (law.count (email_key email) s)
    unfolding Hits
    attempt-same email body correlation_id s (t, thrown, invalid) =
        let (tested, counted, others) = hit-Hits redis law (email_key email) 5 300 s in
        ap
          (λ o.
            law.count (email_key email)
              (count_failure redis to_lower_case upstream (some email) o s))
          thrown
        ∙ if_cases
            (λ (x : Store). law.count (email_key email) x ≡ suc (law.count (email_key email) s))
            (is_invalid_credentials t) _ _ (λ yes. counted)
            (λ no. absurd (ground (arith, invalid, no)))

    check_email-same :
        (email : Text) (body : Value) (correlation_id : Text) (s : Store)
        → Rejects body correlation_id
        → let handled =
            check_email redis to_lower_case upstream body correlation_id (some email) s in
          length handled.calls + (5 - law.count (email_key email) handled.store)
          ≤ 5 - law.count (email_key email) s
    unfolding Looks
    check_email-same email body correlation_id s h =
        let key = email_key email in
        let (tested, kept) = is_at_limit-Looks redis law key 5 s in
        let (full, after) = is_at_limit redis key 5 s in
        if_cases
          (λ (x : Handled Store).
            length x.calls + (5 - law.count key x.store) ≤ 5 - law.count key s)
          full _ _ (λ yes. ground (arith, kept key))
          (λ no.
            ground (arith, no, tested, kept key, attempt-same email body correlation_id after h))

    login-other :
        (email : Text) (r : Request) (s : Store)
        → is_for email (email_from_body to_lower_case r.body) ≡ false
        → law.count
            (email_key email)
            (login redis to_lower_case upstream r.body r.client_ip r.correlation_id s).store
          ≡ law.count (email_key email) s
    unfolding login Hits
    login-other email r s h =
        let (tested, counted, others) = hit-Hits redis law (login_key r.client_ip) 10 60 s in
        let (result, after) = hit redis (login_key r.client_ip) 10 60 s in
        let kept = others (email_key email) (login_key-apart r.client_ip email) in
        if_cases
          (λ (x : Handled Store).
            law.count (email_key email) x.store ≡ law.count (email_key email) s)
          result.limited _ _ (λ yes. kept)
          (λ no.
            check_email-other email r.body r.correlation_id (email_from_body to_lower_case r.body)
              after h
            ∙ kept)

    login-same :
        (email : Text) (r : Request) (s : Store)
        → email_from_body to_lower_case r.body ≡ some email
        → Rejects r.body r.correlation_id
        → let handled = login redis to_lower_case upstream r.body r.client_ip r.correlation_id s in
          length handled.calls + (5 - law.count (email_key email) handled.store)
          ≤ 5 - law.count (email_key email) s
    unfolding login Hits
    login-same email r s h rejects =
        let key = email_key email in
        let (tested, counted, others) = hit-Hits redis law (login_key r.client_ip) 10 60 s in
        let (result, after) = hit redis (login_key r.client_ip) 10 60 s in
        let kept = others key (login_key-apart r.client_ip email) in
        let step =
          subst
            (λ o.
              let handled =
                check_email redis to_lower_case upstream r.body r.correlation_id o after in
              length handled.calls + (5 - law.count key handled.store) ≤ 5 - law.count key after)
            (sym h) (check_email-same email r.body r.correlation_id after rejects) in
        if_cases
          (λ (x : Handled Store).
            length x.calls + (5 - law.count key x.store) ≤ 5 - law.count key s)
          result.limited _ _ (λ yes. ground (arith, kept))
          (λ no.
            subst
              (λ n.
                length
                    (check_email redis to_lower_case upstream r.body r.correlation_id
                      (email_from_body to_lower_case r.body) after).calls
                  + (5
                      - law.count key
                          (check_email redis to_lower_case upstream r.body r.correlation_id
                            (email_from_body to_lower_case r.body) after).store)
                ≤ 5 - n)
              kept step)

    is_for-some : (email : Text) (o : Option Text) → is_for email o ≡ true → o ≡ some email
    is_for-some email none h = cc
    is_for-some email (some e) h = ap (λ (t : Text). some t) (text_eq_sound e email h)

    -- Within a window at most five attempts to log in with one email reach the IAM service, less those
    -- that are counted already, from whatever addresses and among whatever other requests to log in:
    -- if the IAM service rejects the password of each, if the requests come one after the other, and
    -- if the commands of Redis succeed and its counters do not run out meanwhile.
    pub guesses_bounded :
        (email : Text) (rs : List Request) (s : Store)
        → ((r : Request)
            → email_from_body to_lower_case r.body ≡ some email
            → Rejects r.body r.correlation_id)
        → guesses email rs s ≤ 5 - law.count (email_key email) s
    unfolding guesses
    guesses_bounded email [] s wrong = omega arith
    guesses_bounded email (r ∷ rs) s wrong =
        let o = email_from_body to_lower_case r.body in
        let handled = login redis to_lower_case upstream r.body r.client_ip r.correlation_id s in
        let rest = guesses_bounded email rs handled.store wrong in
        if_cases (λ n. n ≤ 5 - law.count (email_key email) s) (is_for email o) _ _
          (λ yes.
            let e = is_for-some email o yes in
            omega (arith, login-same email r s e (wrong r e), rest))
          (λ no.
            subst (λ n. guesses email rs handled.store ≤ 5 - n) (login-other email r s no) rest)
