-- ===== src/Tests/Client.antt =====
-- The session and the requests of the web client, with a stand-in for JSON.
use jira_microservices_lab.Common.{
  suc, ◌≡◌, ◌≢◌, ◌≤◌, refl, codes, true, none, some, List, [], ◌∷◌, length, All, arith,
}
use jira_microservices_lab.Json.{Value, str, obj, field, end}
use jira_microservices_lab.Gateway.Client.{JsonText}
use jira_microservices_lab.WebClient.Session.{
  AuthState, loaded, is_truthy, session_value, set_session, hydrate,
}
use jira_microservices_lab.WebClient.Session.Stored.{
  hydrated, cleared, signed_in, run_events, IsStored, run_events-IsStored, hydrate-set_session,
}
use jira_microservices_lab.WebClient.Interceptors.{failure, Tokens}
use jira_microservices_lab.WebClient.Sharing.{
  RetryableRequest, ClientEvent, made, answered, refresh_settled, resumed, run_client,
}
use jira_microservices_lab.WebClient.Sharing.OneRefresh.{new_client, run_client_shares}
use jira_microservices_lab.WebClient.Sharing.NoneLost.{GoesOn, run_client-GoesOn}

abbrev token : Value
token = str (codes "a")

abbrev ann : Value
ann = obj (field "email" (str (codes "ann@x")) end)

-- The text "j" stands for this session.
abbrev json : JsonText
json = record { stringify = λ v. codes "j"; parse = λ t. some (session_value token ann) }

run_events-IsStored_example :
    IsStored json
      (run_events json (hydrated ∷ cleared ∷ signed_in token ann ∷ []) (loaded (some (codes "j"))))
run_events-IsStored_example =
    run_events-IsStored json (some (codes "j")) (hydrated ∷ cleared ∷ signed_in token ann ∷ [])

token_filled : (is_truthy token ≡ true) × (codes "j" ≢ [])
unfolding codes
token_filled = (refl, λ h. absurd (ground arith))

hydrate-set_session_example :
    hydrate json (loaded (set_session json token ann (loaded none)).stored)
    ≡ set_session json token ann (loaded none)
hydrate-set_session_example =
    hydrate-set_session json token ann (loaded none) token_filled.0 refl token_filled.1 refl

-- Two requests are on_rejection, share one refresh, and the first of them is sent again.
abbrev new_tokens : Tokens
new_tokens = record { access_token = codes "b"; user = ann }

abbrev events : List ClientEvent
events =
    made none
    ∷ made none
    ∷ answered 0 (failure (some 401))
    ∷ answered 1 (failure (some 401))
    ∷ refresh_settled 0 (some new_tokens)
    ∷ resumed 0
    ∷ []

abbrev ann_session : AuthState
ann_session = set_session json token ann (loaded none)

one_post : (run_client json events (new_client ann_session)).posts ≡ 1
unfolding run_client set_session codes
one_post = refl

run_client_shares_example :
    (length (run_client json events (new_client ann_session)).in_flight ≤ 1)
    × ((run_client json events (new_client ann_session)).posts
        ≤ suc (length (run_client json events (new_client ann_session)).settled))
    × All
        (λ (r : RetryableRequest). r.sends ≤ 2)
        (run_client json events (new_client ann_session)).requests
run_client_shares_example = run_client_shares json ann_session events

run_client-GoesOn_example :
    All
      (λ (r : RetryableRequest). GoesOn (run_client json events (new_client ann_session)) r.phase)
      (run_client json events (new_client ann_session)).requests
run_client-GoesOn_example = run_client-GoesOn json ann_session events
