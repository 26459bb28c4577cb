-- ===== src/WebClient/Session/Stored.antt =====
-- apps/web-client/src/features/auth/store.ts: what is stored while a user is signed in.
use jira_microservices_lab.Common.{
  ◌≡◌, ◌≢◌, refl, ap, ◌∙◌, ◌⊎◌, inl, inr, Text, Bool, true, false, Option, none, some, List, [],
  ◌∷◌, arith, if_cases,
}
use jira_microservices_lab.Json.{Value, get, is_nullish}
use jira_microservices_lab.Gateway.Client.{JsonText}
use jira_microservices_lab.WebClient.Session.{
  AuthState, loaded, is_truthy, session_value, set_session, clear_session, only_hydrated,
  from_parsed, from_stored, hydrate,
}

-- What happens to the store after the page is loaded.
pub data Event : Type 0 where
  hydrated cleared : Event
  signed_in : Value → Value → Event

module _ (json : JsonText) where
  abbrev pub after_event : Event → AuthState → AuthState
  after_event hydrated state = hydrate json state
  after_event cleared state = clear_session json state
  after_event (signed_in access_token user) state = set_session json access_token user state

  unfoldable pub run_events : List Event → AuthState → AuthState
  run_events [] state = state
  run_events (e ∷ es) state = run_events es (after_event e state)

  -- A signed-in user's session is the one that is stored.
  abbrev pub IsStored : AuthState → Type 0
  IsStored state =
      (state.is_authenticated ≡ false)
      ⊎ (state.stored ≡ some (json.stringify (session_value state.access_token state.user)))

  -- Before it is hydrated the store has no user, and then its session is stored.
  abbrev pub IsSound : AuthState → Type 0
  IsSound state = IsStored state × ((state.is_hydrated ≡ true) ⊎ (state.is_authenticated ≡ false))

  only_hydrated-IsSound :
      (item : Option Text) (state : AuthState)
      → state.is_authenticated ≡ false
      → IsSound (only_hydrated json item state)
  only_hydrated-IsSound item state h = (inl h, inl refl)

  from_parsed-IsSound :
      (parsed : Option Value) (state : AuthState)
      → state.is_authenticated ≡ false
      → IsSound (from_parsed json parsed state)
  from_parsed-IsSound none state h = only_hydrated-IsSound none state h
  from_parsed-IsSound (some session) state h =
      if_cases IsSound (is_nullish session) _ _ (λ e. only_hydrated-IsSound none state h)
        (λ e. (inr refl, inl refl))

  from_stored-IsSound :
      (item : Option Text) (state : AuthState)
      → state.is_authenticated ≡ false
      → IsSound (from_stored json item state)
  from_stored-IsSound none state h = only_hydrated-IsSound none state h
  from_stored-IsSound (some []) state h = only_hydrated-IsSound (some []) state h
  from_stored-IsSound (some (c ∷ s)) state h = from_parsed-IsSound (json.parse (c ∷ s)) state h

  after_event-IsSound :
      (e : Event) (state : AuthState) → IsSound state → IsSound (after_event e state)
  unfolding hydrate set_session clear_session
  after_event-IsSound hydrated state h =
      if_cases IsSound state.is_hydrated _ _ (λ e. h)
        (λ e. from_stored-IsSound state.stored state (not_signed_in e h.1))
    where
      not_signed_in : {a b : Bool} → a ≡ false → (a ≡ true) ⊎ (b ≡ false) → b ≡ false
      not_signed_in e (inl k) = absurd (ground (arith, e, k))
      not_signed_in e (inr k) = k
  after_event-IsSound cleared state h = (inl refl, inl refl)
  after_event-IsSound (signed_in access_token user) state h = (inr refl, inl refl)

  run_events-IsSound :
      (es : List Event) (state : AuthState) → IsSound state → IsSound (run_events es state)
  unfolding run_events
  run_events-IsSound [] state h = h
  run_events-IsSound (e ∷ es) state h =
      run_events-IsSound es (after_event e state) (after_event-IsSound e state h)

  -- From whatever item of the local storage a page starts, and whatever events follow: while the
  -- store says that a user is signed in, the local storage, if it accepts every item, holds that user
  -- and access token.
  pub run_events-IsStored :
      (item : Option Text) (es : List Event) → IsStored (run_events es (loaded item))
  run_events-IsStored item es = (run_events-IsSound es (loaded item) (inr_false, inr refl)).0
    where
      inr_false : IsStored (loaded item)
      inr_false = inl refl

  -- A user who signed in is still signed in when the page is loaded again, with the same access token,
  -- if the token and the user are not empty and parsing gives back the JSON that was stored, which is
  -- not empty.
  pub hydrate-set_session :
      (access_token user : Value) (state : AuthState)
      → is_truthy access_token ≡ true
      → is_truthy user ≡ true
      → json.stringify (session_value access_token user) ≢ []
      → json.parse (json.stringify (session_value access_token user))
        ≡ some (session_value access_token user)
      → hydrate json (loaded (set_session json access_token user state).stored)
        ≡ set_session json access_token user state
  unfolding hydrate set_session get
  hydrate-set_session access_token user state t u filled back =
      let item = json.stringify (session_value access_token user) in
      read item (loaded (some item)) filled
      ∙ ap (λ (o : Option Value). from_parsed json o (loaded (some item))) back
      ∙ rw (t, u) refl
    where
      read :
          (item : Text) (page : AuthState)
          → item ≢ []
          → from_stored json (some item) page ≡ from_parsed json (json.parse item) page
      read [] page h = absurd (h refl)
      read (c ∷ s) page h = refl
