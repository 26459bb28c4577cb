-- ===== src/WebClient/Sharing/OneRefresh.antt =====
-- apps/web-client/src/lib/interceptors.ts: what holds after any sequence of events.
use jira_microservices_lab.Common.{
  ℕ, zero, suc, ◌+◌, ◌≡◌, ◌≤◌, refl, true, false, ◌&&◌, not, Option, none, some, List, [], ◌∷◌,
  ◌++◌, ◌==◌, any_of, keep, length, All, if_cases, All-imp, ap, sym, ◌∙◌, subst, arith,
}
use jira_microservices_lab.Gateway.Client.{JsonText}
use jira_microservices_lab.WebClient.Session.{AuthState}
use jira_microservices_lab.WebClient.Interceptors.{Sent, response, failure, Tokens, is_unauthorized}
use jira_microservices_lab.WebClient.Sharing.{
  Phase, sending, waiting, over, RetryableRequest, Client, ClientEvent, made, answered,
  refresh_settled, resumed, signed_in, signed_out, nth, replace, find_settled, with_request,
  with_session, posted, on_rejection, on_answer, on_settled, on_resume, on_refresh, with_nth,
  client_step, run_client,
}

-- The place for a refresh is free when none is on its way, and taken by the only one otherwise.
abbrev pub HoldsPlace : Option ℕ → List ℕ → Type 0
HoldsPlace none in_flight = in_flight ≡ []
HoldsPlace (some n) in_flight = in_flight ≡ n ∷ []

-- A request has been sent once before it waits, and at most once more after.
abbrev MaySend : Phase → ℕ → Type 0
MaySend (sending false header) sends = sends ≤ 1
MaySend (sending true header) sends = sends ≤ 2
MaySend (waiting m status) sends = sends ≤ 1
MaySend (over last) sends = sends ≤ 2

abbrev IsSparing : RetryableRequest → Type 0
IsSparing r = MaySend r.phase r.sends

pub record IsShared (c : Client) : Type 0 where
  pub place : HoldsPlace c.refresh_promise c.in_flight
  counted : c.posts ≡ length c.settled + length c.in_flight
  sparing : All IsSparing c.requests

All-replace :
    (n : ℕ) (r : RetryableRequest) (rs : List RetryableRequest)
    → IsSparing r
    → All IsSparing rs
    → All IsSparing (replace n r rs)
All-replace n r [] p h = tt
All-replace zero r (q ∷ rs) p h = (p, h.1)
All-replace (suc n) r (q ∷ rs) p h = (h.0, All-replace n r rs p h.1)

All-made :
    (r : RetryableRequest) (rs : List RetryableRequest)
    → IsSparing r
    → All IsSparing rs
    → All IsSparing (rs ++ r ∷ [])
All-made r [] p h = (p, tt)
All-made r (q ∷ rs) p h = (h.0, All-made r rs p h.1)

with_request-IsShared :
    (n : ℕ) (r : RetryableRequest) (c : Client)
    → IsSparing r
    → IsShared c
    → IsShared (with_request n r c)
with_request-IsShared n r c p h = record {
  place = h.place;
  counted = h.counted;
  sparing = All-replace n r c.requests p h.sparing;
}

with_session-IsShared : (s : AuthState) (c : Client) → IsShared c → IsShared (with_session s c)
with_session-IsShared s c h = record { place = h.place; counted = h.counted; sparing = h.sparing }

with_nth-IsShared :
    (n : ℕ) (rs : List RetryableRequest) (f : RetryableRequest → Client) (c : Client)
    → All IsSparing rs
    → ((r : RetryableRequest) → IsSparing r → IsShared (f r))
    → IsShared c
    → IsShared (with_nth (nth n rs) f c)
with_nth-IsShared n [] f c a g h = h
with_nth-IsShared zero (r ∷ rs) f c a g h = g r a.0
with_nth-IsShared (suc n) (r ∷ rs) f c a g h = with_nth-IsShared n rs f c a.1 g h

posted-IsShared :
    (o : Option ℕ) (c : Client) → c.refresh_promise ≡ o → IsShared c → IsShared (posted o c)
posted-IsShared (some n) c e h = h
posted-IsShared none c e h =
    let free : c.in_flight ≡ [] = subst (λ o. HoldsPlace o c.in_flight) e h.place in
    let posts = h.counted in
    record { place = ap (λ xs. c.posts ∷ xs) free; counted = omega arith; sparing = h.sparing }

only_left :
    (m n : ℕ)
    → any_of (λ k. k == n) (m ∷ []) ≡ true
    → (keep (λ k. not (k == n)) (m ∷ []) ≡ []) × (length (m ∷ []) ≡ 1)
only_left m n e = ground arith

-- The end of a refresh that is on its way leaves none.
none_left :
    (o : Option ℕ) (n : ℕ) (xs : List ℕ)
    → HoldsPlace o xs
    → any_of (λ m. m == n) xs ≡ true
    → (keep (λ m. not (m == n)) xs ≡ []) × (length xs ≡ 1)
none_left none n xs h e = absurd (ground (arith, h))
none_left (some m) n xs h e = rw h (only_left m n (ap (any_of (λ k. k == n)) (sym h) ∙ e))

-- The state of the client before its first request.
abbrev pub new_client : AuthState → Client
new_client session = record {
  session = session;
  refresh_promise = none;
  posts = 0;
  in_flight = [];
  settled = [];
  requests = [];
}

pub new_client-IsShared : (session : AuthState) → IsShared (new_client session)
new_client-IsShared session = record { place = refl; counted = refl; sparing = tt }

few_sends : (phase : Phase) (sends : ℕ) → MaySend phase sends → sends ≤ 2
few_sends (sending false header) sends h = omega arith
few_sends (sending true header) sends h = h
few_sends (waiting m status) sends h = omega arith
few_sends (over last) sends h = h

at_most_one : (o : Option ℕ) (xs : List ℕ) → HoldsPlace o xs → length xs ≤ 1
at_most_one none xs h = rw h (omega arith)
at_most_one (some n) xs h = rw h (omega arith)

module _ (json : JsonText) where
  on_refresh-IsShared :
      (n : ℕ) (result : Option Tokens) (c : Client)
      → IsShared c
      → IsShared (on_refresh json n result c)
  on_refresh-IsShared n result c h =
      if_cases IsShared (any_of (λ m. m == n) c.in_flight) _ c
        (λ e.
          let (gone, one) = none_left c.refresh_promise n c.in_flight h.place e in
          let posts = h.counted in
          let left = ap (λ xs. length xs) gone in
          record { place = gone; counted = omega arith; sparing = h.sparing })
        (λ e. h)

  on_rejection-IsShared :
      (n : ℕ) (status : Option ℕ) (r : RetryableRequest) (c : Client)
      → r.sends ≤ 1
      → IsShared c
      → IsShared (on_rejection json n status r c)
  on_rejection-IsShared n status r c p h =
      if_cases IsShared c.session.is_authenticated _ _
        (λ e. with_request-IsShared n _ _ p (posted-IsShared c.refresh_promise c refl h))
        (λ e. with_request-IsShared n _ _ (omega arith) (with_session-IsShared _ c h))

  on_answer-IsShared :
      (n : ℕ) (r : RetryableRequest) (phase : Phase) (result : Sent) (c : Client)
      → MaySend phase r.sends
      → IsShared c
      → IsShared (on_answer json n r phase result c)
  on_answer-IsShared n r (sending false header) (response v) c p h =
      with_request-IsShared n _ c (omega arith) h
  on_answer-IsShared n r (sending true header) (response v) c p h = with_request-IsShared n _ c p h
  on_answer-IsShared n r (sending false header) (failure status) c p h =
      if_cases IsShared (is_unauthorized status && not false) _ _
        (λ e. on_rejection-IsShared n status r c p h)
        (λ e. with_request-IsShared n _ c (omega arith) h)
  on_answer-IsShared n r (sending true header) (failure status) c p h =
      if_cases IsShared (is_unauthorized status && not true) _ _ (λ e. absurd (ground (arith, e)))
        (λ e. with_request-IsShared n _ c p h)
  on_answer-IsShared n r (waiting m status) result c p h = h
  on_answer-IsShared n r (over last) result c p h = h

  on_settled-IsShared :
      (n : ℕ) (r : RetryableRequest) (status : Option ℕ) (found : Option (Option Tokens))
      (c : Client)
      → r.sends ≤ 1
      → IsShared c
      → IsShared (on_settled json n r status found c)
  on_settled-IsShared n r status none c p h = h
  on_settled-IsShared n r status (some none) c p h =
      with_request-IsShared n _ _ (omega arith) (with_session-IsShared _ c h)
  on_settled-IsShared n r status (some (some t)) c p h = with_request-IsShared n _ c (omega arith) h

  on_resume-IsShared :
      (n : ℕ) (r : RetryableRequest) (phase : Phase) (c : Client)
      → MaySend phase r.sends
      → IsShared c
      → IsShared (on_resume json n r phase c)
  on_resume-IsShared n r (sending retried header) c p h = h
  on_resume-IsShared n r (waiting m status) c p h =
      on_settled-IsShared n r status (find_settled m c.settled) c p h
  on_resume-IsShared n r (over last) c p h = h

  pub client_step-IsShared :
      (e : ClientEvent) (c : Client) → IsShared c → IsShared (client_step json e c)
  unfolding client_step
  client_step-IsShared (made header) c h = record {
    place = h.place;
    counted = h.counted;
    sparing = All-made _ c.requests (omega arith) h.sparing;
  }
  client_step-IsShared (answered n result) c h =
      with_nth-IsShared n c.requests _ c h.sparing
        (λ r p. on_answer-IsShared n r r.phase result c p h) h
  client_step-IsShared (refresh_settled n result) c h = on_refresh-IsShared n result c h
  client_step-IsShared (resumed n) c h =
      with_nth-IsShared n c.requests _ c h.sparing (λ r p. on_resume-IsShared n r r.phase c p h) h
  client_step-IsShared (signed_in token user) c h = with_session-IsShared _ c h
  client_step-IsShared signed_out c h = with_session-IsShared _ c h

  run_client-IsShared :
      (es : List ClientEvent) (c : Client) → IsShared c → IsShared (run_client json es c)
  unfolding run_client
  run_client-IsShared [] c h = h
  run_client-IsShared (e ∷ es) c h =
      run_client-IsShared es (client_step json e c) (client_step-IsShared e c h)

  -- Whatever requests run at the same time and in whatever order their answers, the ends of refreshes,
  -- signing in and signing out come: at most one refresh of the tokens is on its way, between two ends
  -- of refreshes at most one is posted, and each request is sent at most twice.
  pub run_client_shares :
      (session : AuthState) (es : List ClientEvent)
      → (length (run_client json es (new_client session)).in_flight ≤ 1)
        × ((run_client json es (new_client session)).posts
            ≤ suc (length (run_client json es (new_client session)).settled))
        × All
            (λ (r : RetryableRequest). r.sends ≤ 2)
            (run_client json es (new_client session)).requests
  run_client_shares session es =
      let c = run_client json es (new_client session) in
      let h = run_client-IsShared es (new_client session) (new_client-IsShared session) in
      let one = at_most_one c.refresh_promise c.in_flight h.place in
      let posts = h.counted in
      (
        one,
        omega arith,
        All-imp IsSparing _ c.requests (λ r p. few_sends r.phase r.sends p) h.sparing,
      )
