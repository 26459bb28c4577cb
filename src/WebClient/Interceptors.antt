-- ===== src/WebClient/Interceptors.antt =====
-- apps/web-client/src/lib/interceptors.ts: a request with the access token of the session, and with
-- new tokens once more when it is rejected. The toast is left out. `World` is the state of what lies
-- outside: `send` is a request with its Authorization header, `refresh` one for new tokens, which is
-- not shared with other requests here.
use jira_microservices_lab.Common.{
  ℕ, zero, suc, Text, Bool, true, false, ◌&&◌, not, Option, none, some, [], ◌∷◌, ◌++◌, ◌==◌, codes,
  if◌then◌else◌,
}
use jira_microservices_lab.Json.{Value, str, as_text}
use jira_microservices_lab.Gateway.Client.{JsonText}
use jira_microservices_lab.WebClient.Session.{AuthState, set_session, clear_session}

-- What a request comes to: a response, or an error with the status of its response.
pub data Sent : Type 0 where
  response : Value → Sent
  failure : Option ℕ → Sent

pub record Tokens : Type 0 where
  pub access_token : Text
  pub user : Value

-- The store, what lies outside, and the numbers of requests and of refreshes so far.
pub record Page (World : Type 0) : Type 0 where
  pub session : AuthState
  pub world : World
  pub sends : ℕ
  pub refreshes : ℕ

-- `if (token)`
abbrev pub bearer_of : Value → Option Text
bearer_of token = elim (as_text token) [
  | none ↦ none
  | some t ↦ elim t [ [] ↦ none | c ∷ s ↦ some (codes "Bearer " ++ (c ∷ s)) ]
]

abbrev pub is_unauthorized : Option ℕ → Bool
is_unauthorized none = false
is_unauthorized (some status) = status == 401

module _ {World : Type 0} (json : JsonText) (send : Option Text → World → Sent × World)
    (refresh : World → Option Tokens × World) where
  -- The request interceptor: the Authorization header is that of the session, or else the one that
  -- the request has.
  abbrev pub header_for : Option Text → AuthState → Option Text
  header_for given session = elim (bearer_of session.access_token) [
    | none ↦ given
    | some t ↦ some t
  ]

  abbrev pub sent_once : Option Text → Page World → Sent × Page World
  sent_once given page =
      let (result, world) = send (header_for given page.session) page.world in
      (
        result,
        record {
          session = page.session;
          world = world;
          sends = suc page.sends;
          refreshes = page.refreshes;
        },
      )

  -- `refreshSession`, whose tokens become the session; without them the session is cleared.
  abbrev pub refreshed : Option Tokens → World → Page World → Page World
  refreshed none world page = record {
    session = clear_session json page.session;
    world = world;
    sends = page.sends;
    refreshes = suc page.refreshes;
  }
  refreshed (some t) world page = record {
    session = set_session json (str t.access_token) t.user page.session;
    world = world;
    sends = page.sends;
    refreshes = suc page.refreshes;
  }

  abbrev pub cleared : Page World → Page World
  cleared page = record {
    session = clear_session json page.session;
    world = page.world;
    sends = page.sends;
    refreshes = page.refreshes;
  }

  -- The response interceptor; `again` is `instance(originalRequest)`, with `_retry` set.
  module _ (again : Option Text → Page World → Option (Sent × Page World)) where
    abbrev pub retry_with :
        Option ℕ → Page World → Option Tokens × World → Option (Sent × Page World)
    retry_with status page (none, world) = some (failure status, refreshed none world page)
    retry_with status page (some t, world) =
        again (some (codes "Bearer " ++ t.access_token)) (refreshed (some t) world page)

    abbrev pub on_unauthorized : Option ℕ → Page World → Bool → Option (Sent × Page World)
    on_unauthorized status page false = some (failure status, cleared page)
    on_unauthorized status page true = retry_with status page (refresh page.world)

    abbrev pub on_result : Bool → Sent × Page World → Option (Sent × Page World)
    on_result retried (response v, page) = some (response v, page)
    on_result retried (failure status, page) =
        if is_unauthorized status && not retried
        then on_unauthorized status page page.session.is_authenticated
        else some (failure status, page)

  -- A request through both interceptors, which may call itself; none means that the fuel did not
  -- suffice.
  unfoldable pub instance_of : ℕ → Bool → Option Text → Page World → Option (Sent × Page World)
  unfolding set_session clear_session
  instance_of zero retried given page = none
  instance_of (suc fuel) retried given page =
      on_result (instance_of fuel true) retried (sent_once given page)
