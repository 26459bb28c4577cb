-- ===== src/WebClient/Sharing.antt =====
-- apps/web-client/src/lib/interceptors.ts: several requests that run at the same time and share one
-- refresh of the tokens. An event is what settles next: everything between two events runs without a
-- break. The toast is left out.
pub mod OneRefresh
pub mod NoneLost
use jira_microservices_lab.Common.{
  ℕ, zero, suc, Text, Bool, true, false, ◌&&◌, not, Option, none, some, List, [], ◌∷◌, ◌++◌, ◌==◌,
  codes, any_of, keep, length, if◌then◌else◌,
}
use jira_microservices_lab.Json.{Value, str}
use jira_microservices_lab.Gateway.Client.{JsonText}
use jira_microservices_lab.WebClient.Session.{AuthState, set_session, clear_session}
use jira_microservices_lab.WebClient.Interceptors.{
  Sent, response, failure, Tokens, bearer_of, is_unauthorized,
}

-- Where a request is: sent, with `_retry` and the header that it has; waiting for a refresh, by the
-- number of its promise, to be sent again, with the status of the error; or over.
pub data Phase : Type 0 where
  sending : Bool → Option Text → Phase
  waiting : ℕ → Option ℕ → Phase
  over : Sent → Phase

pub record RetryableRequest : Type 0 where
  pub phase : Phase
  pub sends : ℕ

-- The store, `refreshPromise` as a number, how many refreshes were posted, those that are on their
-- way, those that came to an end, with what they came to, and the requests.
pub record Client : Type 0 where
  pub session : AuthState
  pub refresh_promise : Option ℕ
  pub posts : ℕ
  pub in_flight : List ℕ
  pub settled : List (ℕ × Option Tokens)
  pub requests : List RetryableRequest

-- What happens next: a request is made; a request gets its answer; a refresh comes to its end; a
-- request that waited for one goes on; the user signs in; the user signs out.
pub data ClientEvent : Type 0 where
  made : Option Text → ClientEvent
  answered : ℕ → Sent → ClientEvent
  refresh_settled : ℕ → Option Tokens → ClientEvent
  resumed : ℕ → ClientEvent
  signed_in : Value → Value → ClientEvent
  signed_out : ClientEvent

-- The request interceptor.
abbrev pub authorized : Option Text → AuthState → Option Text
authorized given session = elim (bearer_of session.access_token) [ none ↦ given | some t ↦ some t ]

abbrev pub nth : ℕ → List RetryableRequest → Option RetryableRequest
nth n [] = none
nth zero (r ∷ rs) = some r
nth (suc n) (r ∷ rs) = nth n rs

abbrev pub replace : ℕ → RetryableRequest → List RetryableRequest → List RetryableRequest
replace n q [] = []
replace zero q (r ∷ rs) = q ∷ rs
replace (suc n) q (r ∷ rs) = r ∷ replace n q rs

abbrev pub find_settled : ℕ → List (ℕ × Option Tokens) → Option (Option Tokens)
find_settled n [] = none
find_settled n ((m, result) ∷ rest) = if m == n then some result else find_settled n rest

abbrev pub in_phase : Phase → RetryableRequest → RetryableRequest
in_phase phase r = record { phase = phase; sends = r.sends }

abbrev pub sent_again : Option Text → RetryableRequest → RetryableRequest
sent_again header r = record { phase = sending true header; sends = suc r.sends }

abbrev pub with_request : ℕ → RetryableRequest → Client → Client
with_request n r c = record c { requests = replace n r c.requests }

abbrev pub with_session : AuthState → Client → Client
with_session session c = record c { session = session }

-- `refreshSession`: the number of the promise that is returned.
abbrev pub promised : Option ℕ → Client → ℕ
promised none c = c.posts
promised (some n) c = n

abbrev pub posted : Option ℕ → Client → Client
posted (some n) c = c
posted none c = record c {
  refresh_promise = some c.posts;
  posts = suc c.posts;
  in_flight = c.posts ∷ c.in_flight;
}

abbrev pub with_nth : Option RetryableRequest → (RetryableRequest → Client) → Client → Client
with_nth none f c = c
with_nth (some r) f c = f r

module _ (json : JsonText) where
  -- The response interceptor, up to where it waits.
  abbrev pub on_rejection : ℕ → Option ℕ → RetryableRequest → Client → Client
  on_rejection n status r c =
      if c.session.is_authenticated
      then with_request n (in_phase (waiting (promised c.refresh_promise c) status) r)
          (posted c.refresh_promise c)
      else with_request n (in_phase (over (failure status)) r)
          (with_session (clear_session json c.session) c)

  abbrev pub on_answer : ℕ → RetryableRequest → Phase → Sent → Client → Client
  on_answer n r (sending retried header) (response v) c =
      with_request n (in_phase (over (response v)) r) c
  on_answer n r (sending retried header) (failure status) c =
      if is_unauthorized status && not retried
      then on_rejection n status r c
      else with_request n (in_phase (over (failure status)) r) c
  on_answer n r (waiting m status) result c = c
  on_answer n r (over last) result c = c

  -- After the wait: the request is sent again, or the session ends.
  abbrev pub on_settled : ℕ → RetryableRequest → Option ℕ → Option (Option Tokens) → Client → Client
  on_settled n r status none c = c
  on_settled n r status (some none) c =
      with_request n (in_phase (over (failure status)) r)
        (with_session (clear_session json c.session) c)
  on_settled n r status (some (some t)) c =
      with_request n
        (sent_again (authorized (some (codes "Bearer " ++ t.access_token)) c.session) r) c

  abbrev pub on_resume : ℕ → RetryableRequest → Phase → Client → Client
  on_resume n r (sending retried header) c = c
  on_resume n r (waiting m status) c = on_settled n r status (find_settled m c.settled) c
  on_resume n r (over last) c = c

  -- `then` sets the session if there are tokens, and `finally` frees the place for another refresh.
  abbrev pub renewed : Option Tokens → AuthState → AuthState
  renewed none session = session
  renewed (some t) session = set_session json (str t.access_token) t.user session

  abbrev pub on_refresh : ℕ → Option Tokens → Client → Client
  on_refresh n result c =
      if any_of (λ m. m == n) c.in_flight
      then record {
        session = renewed result c.session;
        refresh_promise = none;
        posts = c.posts;
        in_flight = keep (λ m. not (m == n)) c.in_flight;
        settled = (n, result) ∷ c.settled;
        requests = c.requests;
      }
      else c

  unfoldable pub client_step : ClientEvent → Client → Client
  unfolding set_session clear_session
  client_step (made header) c = record c {
    requests =
        c.requests
        ++ record { phase = sending false (authorized header c.session); sends = 1 } ∷ [];
  }
  client_step (answered n result) c =
      with_nth (nth n c.requests) (λ r. on_answer n r r.phase result c) c
  client_step (refresh_settled n result) c = on_refresh n result c
  client_step (resumed n) c = with_nth (nth n c.requests) (λ r. on_resume n r r.phase c) c
  client_step (signed_in token user) c = with_session (set_session json token user c.session) c
  client_step signed_out c = with_session (clear_session json c.session) c

  unfoldable pub run_client : List ClientEvent → Client → Client
  unfolding client_step
  run_client [] c = c
  run_client (e ∷ es) c = run_client es (client_step e c)
