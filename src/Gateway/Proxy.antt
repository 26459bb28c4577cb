-- ===== src/Gateway/Proxy.antt =====
-- apps/api-gateway-nest/src/presentation/issues/issues.controller.ts against
-- apps/issue-service-nest/src/presentation/issues.controller.ts and planning.controller.ts: the
-- gateway as a proxy of the issue service.
use jira_microservices_lab.Common.{
  ◌≡◌, refl, ◌⊎◌, inl, inr, Text, List, [], ◌∷◌, ◌++◌, false, some, All, ◌==◌, if_cases, arith, ap,
  sym, codes,
}
use mathlib.Core.List.{append_assoc, append-nil}
use jira_microservices_lab.Json.{Value, Fields, undefined}
use jira_microservices_lab.Presentation.Routes.{
  Segment, word, param, path_of, IssueRequest, IssueRoute, issue_routes, planning_routes,
}
use jira_microservices_lab.Gateway.Client.{of_user, Forward}
use jira_microservices_lab.Gateway.Adapters.Issues.{search_of}
use jira_microservices_lab.Gateway.Routes.{
  GatewayRequest, GatewayRoute, context, query_of, gateway_routes,
}

-- The handler of a route does not read the body, or the query string.
abbrev pub IgnoresBody : IssueRoute → Type 0
IgnoresBody i =
    (r : IssueRequest) (b : Value)
    → i.handle r
      ≡ i.handle (record {
        params = r.params;
        query = r.query;
        body = b;
        user_header = r.user_header;
        correlation_header = r.correlation_header;
        fresh = r.fresh;
      })

abbrev pub IgnoresQuery : IssueRoute → Type 0
IgnoresQuery i =
    (r : IssueRequest) (q : Fields)
    → i.handle r
      ≡ i.handle (record {
        params = r.params;
        query = q;
        body = r.body;
        user_header = r.user_header;
        correlation_header = r.correlation_header;
        fresh = r.fresh;
      })

-- The query string of a URL with its question mark: from the first question mark on, and nothing if
-- there is none, or nothing after it.
abbrev pub IsSearch : Text → Text → Type 0
IsSearch url search =
    (All (λ c. (c == b'?') ≡ false) url × (search ≡ []))
    ⊎ ((path query : Text) × All (λ c. (c == b'?') ≡ false) path
        × (url ≡ path ++ b'?' ∷ query)
        × (((query ≡ []) × (search ≡ [])) ⊎ (search ≡ b'?' ∷ query)))

search_of-IsSearch : (url : Text) → IsSearch url (search_of (query_of url))
search_of-IsSearch [] = inl (tt, refl)
search_of-IsSearch (c ∷ url) =
    let rest = search_of-IsSearch url in
    if_cases (λ (t : Text). IsSearch (c ∷ url) (search_of t)) (c == b'?') url (query_of url)
      (λ e. inr ([], url, tt, ap (λ x. x ∷ url) (ground (arith, e)), searched url))
      (λ e. below e rest)
  where
    below :
        (c == b'?') ≡ false
        → IsSearch url (search_of (query_of url))
        → IsSearch (c ∷ url) (search_of (query_of url))
    below e (inl (n, s)) = inl ((e, n), s)
    below e (inr (path, query, n, u, s)) = inr (c ∷ path, query, (e, n), ap (λ t. c ∷ t) u, s)

    searched :
        (query : Text) → ((query ≡ []) × (search_of query ≡ [])) ⊎ (search_of query ≡ b'?' ∷ query)
    searched [] = inl (refl, refl)
    searched (d ∷ t) = inr refl

-- One route passes requests on to another: its method and, below another first word, its pattern are
-- those of the other; the request is forwarded to the path of the other's pattern for the encoded
-- parameters, as the user of the request; and the body and the query string go with it, unless the
-- other does not read them.
pub record PassesOn (forward : Forward) (encode : Text → Text) (g : GatewayRoute) (i : IssueRoute)
    : Type 0 where
  pub below : List Segment
  pub same_method : g.method ≡ i.method
  pub from_gateway : g.pattern ≡ word "api" ∷ below
  pub to_issue_service : i.pattern ≡ word "internal" ∷ below
  pub sent : GatewayRequest → Value
  pub search : GatewayRequest → Text
  pub path : GatewayRequest → Text
  pub path_lem :
      (r : GatewayRequest) → path r ≡ path_of (λ name. encode (r.params name)) i.pattern ++ search r
  pub forwards :
      (r : GatewayRequest)
      → g.handle r
        ≡ forward i.method
            (path r)
            (sent r)
            (record { correlation_id = r.correlation_id; user_id = some r.user.id })
  pub with_body : ((r : GatewayRequest) → sent r ≡ r.body) ⊎ IgnoresBody i
  pub with_query : ((r : GatewayRequest) → IsSearch r.url (search r)) ⊎ IgnoresQuery i

-- Each route passes requests on to the one at the same place.
abbrev pub AllPassOn : Forward → (Text → Text) → List GatewayRoute → List IssueRoute → Type 0
AllPassOn forward encode [] [] = Unit {0}
AllPassOn forward encode [] (i ∷ is) = ⊥
AllPassOn forward encode (g ∷ gs) [] = ⊥
AllPassOn forward encode (g ∷ gs) (i ∷ is) =
    PassesOn forward encode g i × AllPassOn forward encode gs is

module _ (forward : Forward) (encode : Text → Text) where
  -- The path of a route, for the parameters of a request.
  abbrev path_for : IssueRoute → GatewayRequest → Text
  path_for i r = path_of (λ name. encode (r.params name)) i.pattern

  with_body_PassesOn :
      (g : GatewayRoute) (i : IssueRoute) (p : List Segment)
      → g.method ≡ i.method
      → g.pattern ≡ word "api" ∷ p
      → i.pattern ≡ word "internal" ∷ p
      → ((r : GatewayRequest)
          → g.handle r ≡ forward i.method (path_for i r) r.body (of_user (context r)))
      → IgnoresQuery i
      → PassesOn forward encode g i
  with_body_PassesOn g i p m a b f q = record {
    below = p;
    same_method = m;
    from_gateway = a;
    to_issue_service = b;
    sent = λ r. r.body;
    search = λ r. [];
    path = path_for i;
    path_lem = λ r. sym (append-nil (path_for i r));
    forwards = f;
    with_body = inl (λ r. refl);
    with_query = inr q;
  }

  without_body_PassesOn :
      (g : GatewayRoute) (i : IssueRoute) (p : List Segment)
      → g.method ≡ i.method
      → g.pattern ≡ word "api" ∷ p
      → i.pattern ≡ word "internal" ∷ p
      → ((r : GatewayRequest)
          → g.handle r ≡ forward i.method (path_for i r) undefined (of_user (context r)))
      → IgnoresBody i
      → IgnoresQuery i
      → PassesOn forward encode g i
  without_body_PassesOn g i p m a b f body q = record {
    below = p;
    same_method = m;
    from_gateway = a;
    to_issue_service = b;
    sent = λ r. undefined;
    search = λ r. [];
    path = path_for i;
    path_lem = λ r. sym (append-nil (path_for i r));
    forwards = f;
    with_body = inr body;
    with_query = inr q;
  }

  -- Every route of the gateway for issues, epics and sprints passes requests on to the route of the
  -- issue service with the same method and, below /internal in place of /api, the same pattern: for the
  -- encoded parameters, as the user of the request and with its correlation identifier, and with the body
  -- and the query string if the issue service reads them. These are all its routes.
  pub routes_pass_on :
      AllPassOn forward encode (gateway_routes forward encode) (issue_routes ++ planning_routes)
  unfolding codes
  routes_pass_on = (
    with_body_PassesOn _ _ _ refl refl refl (λ r. refl) (λ q s. refl),
    (
      record {
        below = word "projects" ∷ param "projectId" ∷ word "issues" ∷ [];
        same_method = refl;
        from_gateway = refl;
        to_issue_service = refl;
        sent = λ r. undefined;
        search = λ r. search_of (query_of r.url);
        path = λ r.
            codes "/internal/projects/"
            ++ (encode (r.params "projectId") ++ (codes "/issues" ++ search_of (query_of r.url)));
        path_lem = λ r.
            ap (λ t. codes "/internal/projects/" ++ t)
              (sym (
                append_assoc (encode (r.params "projectId")) (codes "/issues")
                  (search_of (query_of r.url))));
        forwards = λ r. refl;
        with_body = inr (λ q b. refl);
        with_query = inl (λ r. search_of-IsSearch r.url);
      },
      (
        without_body_PassesOn _ _ _ refl refl refl (λ r. refl) (λ q b. refl) (λ q s. refl),
        (
          with_body_PassesOn _ _ _ refl refl refl (λ r. refl) (λ q s. refl),
          (
            with_body_PassesOn _ _ _ refl refl refl (λ r. refl) (λ q s. refl),
            (
              with_body_PassesOn _ _ _ refl refl refl (λ r. refl) (λ q s. refl),
              (
                with_body_PassesOn _ _ _ refl refl refl (λ r. refl) (λ q s. refl),
                (
                  without_body_PassesOn _ _ _ refl refl refl (λ r. refl) (λ q b. refl)
                      (λ q s. refl),
                  (
                    without_body_PassesOn _ _ _ refl refl refl (λ r. refl) (λ q b. refl)
                        (λ q s. refl),
                    (
                      without_body_PassesOn _ _ _ refl refl refl (λ r. refl) (λ q b. refl)
                          (λ q s. refl),
                      (
                        with_body_PassesOn _ _ _ refl refl refl (λ r. refl) (λ q s. refl),
                        (
                          with_body_PassesOn _ _ _ refl refl refl (λ r. refl) (λ q s. refl),
                          (
                            without_body_PassesOn _ _ _ refl refl refl (λ r. refl) (λ q b. refl)
                                (λ q s. refl),
                            (
                              with_body_PassesOn _ _ _ refl refl refl (λ r. refl) (λ q s. refl),
                              (
                                without_body_PassesOn _ _ _ refl refl refl (λ r. refl) (λ q b. refl)
                                    (λ q s. refl),
                                tt,
                              ),
                            ),
                          ),
                        ),
                      ),
                    ),
                  ),
                ),
              ),
            ),
          ),
        ),
      ),
    ),
  )
