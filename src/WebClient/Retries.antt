-- ===== src/WebClient/Retries.antt =====
-- apps/web-client/src/lib/interceptors.ts: how often a request is sent.
use jira_microservices_lab.Common.{
  ℕ, suc, ◌+◌, ◌≡◌, ◌≤◌, refl, Text, codes, Bool, true, false, ◌&&◌, not, Option, none, some, ◌++◌,
  arith, if_cases,
}
use jira_microservices_lab.Gateway.Client.{JsonText}
use jira_microservices_lab.WebClient.Interceptors.{
  Sent, response, failure, Tokens, Page, is_unauthorized, sent_once, refreshed, cleared, retry_with,
  on_unauthorized, on_result, instance_of,
}

module _ {World : Type 0} (json : JsonText) (send : Option Text → World → Sent × World)
    (refresh : World → Option Tokens × World) where
  -- A request ends after at most so many more sends and refreshes.
  Ends : ℕ → ℕ → Page World → Option (Sent × Page World) → Type 0
  Ends sends refreshes page ended =
      (result : Sent) × (after : Page World) × (ended ≡ some (result, after))
      × (after.sends ≤ page.sends + sends)
      × (after.refreshes ≤ page.refreshes + refreshes)

  retried_Ends :
      (again : Option Text → Page World → Option (Sent × Page World)) (result : Sent)
      (page : Page World)
      → Ends 0 0 page (on_result json send refresh again true (result, page))
  unfolding Ends
  retried_Ends again (response v) page = (response v, page, refl, omega arith, omega arith)
  retried_Ends again (failure status) page =
      if_cases (Ends 0 0 page) (is_unauthorized status && not true) _ _
        (λ e. absurd (ground (arith, e)))
        (λ e. (failure status, page, refl, omega arith, omega arith))

  module _ (again : Option Text → Page World → Option (Sent × Page World))
      (more : (given : Option Text) (page : Page World) → Ends 1 0 page (again given page)) where
    retry_Ends :
        (status : Option ℕ) (page : Page World) (renewed : Option Tokens × World)
        → Ends 1 1 page (retry_with json send refresh again status page renewed)
    unfolding Ends
    retry_Ends status page (none, world) = (
      failure status,
      refreshed json send refresh none world page,
      refl,
      omega arith,
      omega arith,
    )
    retry_Ends status page (some t, world) =
        let (result, after, e, sends, refreshes) =
          more (some (codes "Bearer " ++ t.access_token))
            (refreshed json send refresh (some t) world page) in
        (result, after, e, omega (arith, sends), omega (arith, refreshes))

    unauthorized_Ends :
        (status : Option ℕ) (page : Page World) (signed_in : Bool)
        → Ends 1 1 page (on_unauthorized json send refresh again status page signed_in)
    unfolding Ends
    unauthorized_Ends status page false =
        (failure status, cleared json send refresh page, refl, omega arith, omega arith)
    unauthorized_Ends status page true = retry_Ends status page (refresh page.world)

    first_Ends :
        (result : Sent) (page : Page World)
        → Ends 1 1 page (on_result json send refresh again false (result, page))
    unfolding Ends
    first_Ends (response v) page = (response v, page, refl, omega arith, omega arith)
    first_Ends (failure status) page =
        if_cases (Ends 1 1 page) (is_unauthorized status && not false) _ _
          (λ e. unauthorized_Ends status page page.session.is_authenticated)
          (λ e. (failure status, page, refl, omega arith, omega arith))

  again_Ends :
      (fuel : ℕ) (given : Option Text) (page : Page World)
      → Ends 1 0 page (instance_of json send refresh (suc fuel) true given page)
  unfolding instance_of Ends
  again_Ends fuel given page =
      let (result, sent) = sent_once json send refresh given page in
      let (last, after, e, sends, refreshes) =
        retried_Ends (instance_of json send refresh fuel true) result sent in
      (last, after, e, omega (arith, sends), omega (arith, refreshes))

  -- A request is sent at most twice and refreshes the tokens at most once, whatever is answered, and
  -- it comes to an end: the calls of the interceptor nest no deeper than two.
  instance_of_bounded :
      (fuel : ℕ) (given : Option Text) (page : Page World)
      → (result : Sent) × (after : Page World) × (instance_of json send refresh
            (suc (suc fuel))
            false
            given
            page
          ≡ some (result, after))
        × (after.sends ≤ page.sends + 2)
        × (after.refreshes ≤ page.refreshes + 1)
  unfolding instance_of Ends
  instance_of_bounded fuel given page =
      let (result, sent) = sent_once json send refresh given page in
      let (last, after, e, sends, refreshes) =
        first_Ends (instance_of json send refresh (suc fuel) true) (again_Ends fuel) result sent in
      (last, after, e, omega (arith, sends), omega (arith, refreshes))
