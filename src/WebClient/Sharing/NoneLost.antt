-- ===== src/WebClient/Sharing/NoneLost.antt =====
-- apps/web-client/src/lib/interceptors.ts: the requests that wait for a refresh.
use jira_microservices_lab.Common.{
  ℕ, zero, suc, ◌≡◌, refl, ◌⊎◌, inl, inr, true, ◌&&◌, not, Option, none, some, List, [], ◌∷◌, ◌++◌,
  ◌==◌, any_of, All, All-imp, is_some, if_cases, Bool-cases, ap, sym, ◌∙◌, subst, arith,
}
use jira_microservices_lab.Gateway.Client.{JsonText}
use jira_microservices_lab.WebClient.Session.{AuthState, clear_session}
use jira_microservices_lab.WebClient.Interceptors.{Sent, response, failure, Tokens, is_unauthorized}
use jira_microservices_lab.WebClient.Sharing.{
  Phase, sending, waiting, over, RetryableRequest, Client, ClientEvent, made, answered,
  refresh_settled, resumed, signed_in, signed_out, nth, replace, find_settled, with_request,
  with_session, promised, posted, on_rejection, on_answer, on_settled, on_resume, on_refresh,
  with_nth, client_step, run_client,
}
use jira_microservices_lab.WebClient.Sharing.OneRefresh.{
  HoldsPlace, IsShared, client_step-IsShared, new_client, new_client-IsShared,
}

-- The promise is the present one, or it has come to an end.
abbrev IsKept : Option ℕ → List (ℕ × Option Tokens) → ℕ → Type 0
IsKept place settled m = (place ≡ some m) ⊎ (is_some (find_settled m settled) ≡ true)

abbrev IsExpected : Option ℕ → List (ℕ × Option Tokens) → Phase → Type 0
IsExpected place settled (sending retried header) = Unit
IsExpected place settled (waiting m status) = IsKept place settled m
IsExpected place settled (over last) = Unit

abbrev AllExpected : Option ℕ → List (ℕ × Option Tokens) → List RetryableRequest → Type 0
AllExpected place settled rs = All (λ (r : RetryableRequest). IsExpected place settled r.phase) rs

abbrev NoneLost : Client → Type 0
NoneLost c = AllExpected c.refresh_promise c.settled c.requests

AllExpected-replace :
    (place : Option ℕ) (settled : List (ℕ × Option Tokens)) (n : ℕ) (r : RetryableRequest)
    (rs : List RetryableRequest)
    → IsExpected place settled r.phase
    → AllExpected place settled rs
    → AllExpected place settled (replace n r rs)
AllExpected-replace place settled n r [] p h = tt
AllExpected-replace place settled zero r (q ∷ rs) p h = (p, h.1)
AllExpected-replace place settled (suc n) r (q ∷ rs) p h =
    (h.0, AllExpected-replace place settled n r rs p h.1)

AllExpected-made :
    (place : Option ℕ) (settled : List (ℕ × Option Tokens)) (r : RetryableRequest)
    (rs : List RetryableRequest)
    → IsExpected place settled r.phase
    → AllExpected place settled rs
    → AllExpected place settled (rs ++ r ∷ [])
AllExpected-made place settled r [] p h = (p, tt)
AllExpected-made place settled r (q ∷ rs) p h = (h.0, AllExpected-made place settled r rs p h.1)

IsExpected-imp :
    (o p : Option ℕ) (s t : List (ℕ × Option Tokens))
    → ((m : ℕ) → IsKept o s m → IsKept p t m)
    → (phase : Phase) → IsExpected o s phase
    → IsExpected p t phase
IsExpected-imp o p s t f (sending retried header) h = tt
IsExpected-imp o p s t f (waiting m status) h = f m h
IsExpected-imp o p s t f (over last) h = tt

posted-NoneLost :
    (o : Option ℕ) (c : Client) → c.refresh_promise ≡ o → NoneLost c → NoneLost (posted o c)
posted-NoneLost (some n) c e h = h
posted-NoneLost none c e h =
    All-imp _ _ c.requests
      (λ r x.
        IsExpected-imp c.refresh_promise (some c.posts) c.settled c.settled
          (λ m k. elim k [ inl f ↦ absurd (ground (arith, e, f)) | inr f ↦ inr f ]) r.phase x)
      h

-- The promise that a request is given is the present one.
promised-IsKept :
    (o : Option ℕ) (c : Client)
    → c.refresh_promise ≡ o
    → (posted o c).refresh_promise ≡ some (promised o c)
promised-IsKept (some n) c e = e
promised-IsKept none c e = refl

-- The refresh that ends is the present one, if there is one.
only_place :
    (o : Option ℕ) (n m : ℕ) (xs : List ℕ)
    → HoldsPlace o xs
    → any_of (λ k. k == n) xs ≡ true
    → o ≡ some m
    → (n == m) ≡ true
only_place none n m xs h a e = absurd (ground (arith, e))
only_place (some k) n m xs h a e =
    let only : any_of (λ j. j == n) (k ∷ []) ≡ true = ap (any_of (λ j. j == n)) (sym h) ∙ a in
    ground (arith, e)

settled-IsKept :
    (o : Option ℕ) (n : ℕ) (result : Option Tokens) (xs : List ℕ)
    (settled : List (ℕ × Option Tokens))
    → HoldsPlace o xs
    → any_of (λ k. k == n) xs ≡ true
    → (m : ℕ) → IsKept o settled m
    → IsKept none ((n, result) ∷ settled) m
settled-IsKept o n result xs settled h a m (inl e) =
    let same = only_place o n m xs h a e in inr (rw same refl)
settled-IsKept o n result xs settled h a m (inr e) =
    inr (elim (Bool-cases (n == m)) [ inl s ↦ rw s refl | inr s ↦ rw s e ])

with_request-NoneLost :
    (n : ℕ) (r : RetryableRequest) (c : Client)
    → IsExpected c.refresh_promise c.settled r.phase
    → NoneLost c
    → NoneLost (with_request n r c)
with_request-NoneLost n r c p h = AllExpected-replace c.refresh_promise c.settled n r c.requests p h

with_nth-NoneLost :
    (n : ℕ) (rs : List RetryableRequest) (f : RetryableRequest → Client) (c : Client)
    → ((r : RetryableRequest) → NoneLost (f r))
    → NoneLost c
    → NoneLost (with_nth (nth n rs) f c)
with_nth-NoneLost n [] f c g h = h
with_nth-NoneLost zero (r ∷ rs) f c g h = g r
with_nth-NoneLost (suc n) (r ∷ rs) f c g h = with_nth-NoneLost n rs f c g h

-- A request that waits can go on when its refresh ends, or at once.
abbrev pub GoesOn : Client → Phase → Type 0
GoesOn c (sending retried header) = Unit
GoesOn c (waiting m status) = (c.in_flight ≡ m ∷ []) ⊎ (is_some (find_settled m c.settled) ≡ true)
GoesOn c (over last) = Unit

module _ (json : JsonText) where
  on_refresh-NoneLost :
      (n : ℕ) (result : Option Tokens) (c : Client)
      → IsShared c
      → NoneLost c
      → NoneLost (on_refresh json n result c)
  on_refresh-NoneLost n result c s h =
      if_cases NoneLost (any_of (λ m. m == n) c.in_flight) _ c
        (λ e.
          All-imp _ _ c.requests
            (λ r x.
              IsExpected-imp c.refresh_promise none c.settled ((n, result) ∷ c.settled)
                (settled-IsKept c.refresh_promise n result c.in_flight c.settled s.place e) r.phase
                x)
            h)
        (λ e. h)

  on_rejection-NoneLost :
      (n : ℕ) (status : Option ℕ) (r : RetryableRequest) (c : Client)
      → NoneLost c
      → NoneLost (on_rejection json n status r c)
  on_rejection-NoneLost n status r c h =
      if_cases NoneLost c.session.is_authenticated _ _
        (λ e.
          with_request-NoneLost n _ (posted c.refresh_promise c)
            (inl (promised-IsKept c.refresh_promise c refl))
            (posted-NoneLost c.refresh_promise c refl h))
        (λ e. with_request-NoneLost n _ (with_session (clear_session json c.session) c) tt h)

  on_answer-NoneLost :
      (n : ℕ) (r : RetryableRequest) (phase : Phase) (result : Sent) (c : Client)
      → NoneLost c
      → NoneLost (on_answer json n r phase result c)
  on_answer-NoneLost n r (sending retried header) (response v) c h =
      with_request-NoneLost n _ c tt h
  on_answer-NoneLost n r (sending retried header) (failure status) c h =
      if_cases NoneLost (is_unauthorized status && not retried) _ _
        (λ e. on_rejection-NoneLost n status r c h) (λ e. with_request-NoneLost n _ c tt h)
  on_answer-NoneLost n r (waiting m status) result c h = h
  on_answer-NoneLost n r (over last) result c h = h

  on_settled-NoneLost :
      (n : ℕ) (r : RetryableRequest) (status : Option ℕ) (found : Option (Option Tokens))
      (c : Client)
      → NoneLost c
      → NoneLost (on_settled json n r status found c)
  on_settled-NoneLost n r status none c h = h
  on_settled-NoneLost n r status (some none) c h =
      with_request-NoneLost n _ (with_session (clear_session json c.session) c) tt h
  on_settled-NoneLost n r status (some (some t)) c h = with_request-NoneLost n _ c tt h

  on_resume-NoneLost :
      (n : ℕ) (r : RetryableRequest) (phase : Phase) (c : Client)
      → NoneLost c
      → NoneLost (on_resume json n r phase c)
  on_resume-NoneLost n r (sending retried header) c h = h
  on_resume-NoneLost n r (waiting m status) c h =
      on_settled-NoneLost n r status (find_settled m c.settled) c h
  on_resume-NoneLost n r (over last) c h = h

  client_step-NoneLost :
      (e : ClientEvent) (c : Client) → IsShared c → NoneLost c → NoneLost (client_step json e c)
  unfolding client_step
  client_step-NoneLost (made header) c s h =
      AllExpected-made c.refresh_promise c.settled _ c.requests tt h
  client_step-NoneLost (answered n result) c s h =
      with_nth-NoneLost n c.requests _ c (λ r. on_answer-NoneLost n r r.phase result c h) h
  client_step-NoneLost (refresh_settled n result) c s h = on_refresh-NoneLost n result c s h
  client_step-NoneLost (resumed n) c s h =
      with_nth-NoneLost n c.requests _ c (λ r. on_resume-NoneLost n r r.phase c h) h
  client_step-NoneLost (signed_in token user) c s h = h
  client_step-NoneLost signed_out c s h = h

  run_from :
      (es : List ClientEvent) (c : Client)
      → IsShared c
      → NoneLost c
      → IsShared (run_client json es c) × NoneLost (run_client json es c)
  unfolding run_client
  run_from [] c s h = (s, h)
  run_from (e ∷ es) c s h =
      run_from es (client_step json e c) (client_step-IsShared json e c s)
        (client_step-NoneLost e c s h)

  goes_on :
      (c : Client)
      → HoldsPlace c.refresh_promise c.in_flight
      → (phase : Phase) → IsExpected c.refresh_promise c.settled phase
      → GoesOn c phase
  goes_on c place (sending retried header) h = tt
  goes_on c place (waiting m status) (inl e) = inl (subst (λ o. HoldsPlace o c.in_flight) e place)
  goes_on c place (waiting m status) (inr e) = inr e
  goes_on c place (over last) h = tt

  -- No request is left waiting: whatever the events and their order, the refresh that a request waits
  -- for is the one on its way, or it has come to an end, so that the request can go on.
  pub run_client-GoesOn :
      (session : AuthState) (es : List ClientEvent)
      → All
          (λ (r : RetryableRequest). GoesOn (run_client json es (new_client session)) r.phase)
          (run_client json es (new_client session)).requests
  run_client-GoesOn session es =
      let c = run_client json es (new_client session) in
      let (shared, kept) = run_from es (new_client session) (new_client-IsShared session) tt in
      All-imp _ _ c.requests (λ r x. goes_on c shared.place r.phase x) kept
