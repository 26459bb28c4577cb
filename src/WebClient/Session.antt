-- ===== src/WebClient/Session.antt =====
-- apps/web-client/src/features/auth/store.ts: the session of the user, in the store and in the local
-- storage of the browser, which is taken to accept every item. JSON is a parameter.
pub mod Stored
use jira_microservices_lab.Common.{
  ℕ, zero, suc, Text, Bool, true, false, ◌&&◌, Option, none, some, List, [], ◌∷◌, if◌then◌else◌,
}
use jira_microservices_lab.Json.{
  Value, Number, nat, neg, fraction, Fields, Items, end, field, undefined, null, bool, num, str,
  arr, obj, get, is_nullish,
}
use jira_microservices_lab.Gateway.Errors.{object_or_empty}
use jira_microservices_lab.Gateway.Client.{JsonText}

-- The store, with the item of the local storage.
pub record AuthState : Type 0 where
  pub user : Value
  pub access_token : Value
  pub is_authenticated : Bool
  pub is_hydrated : Bool
  pub stored : Option Text

-- A page that was just loaded.
abbrev pub loaded : Option Text → AuthState
loaded item = record {
  user = null;
  access_token = null;
  is_authenticated = false;
  is_hydrated = false;
  stored = item;
}

-- `Boolean(value)`; a JSON number is not NaN.
abbrev pub is_truthy : Value → Bool
is_truthy undefined = false
is_truthy null = false
is_truthy (bool b) = b
is_truthy (num (nat zero)) = false
is_truthy (num (nat (suc n))) = true
is_truthy (num (neg n)) = true
is_truthy (num fraction) = true
is_truthy (str []) = false
is_truthy (str (c ∷ s)) = true
is_truthy (arr items) = true
is_truthy (obj fields) = true

abbrev pub session_value : Value → Value → Value
session_value access_token user = obj (field "accessToken" access_token (field "user" user end))

module _ (json : JsonText) where
  unfoldable pub set_session : Value → Value → AuthState → AuthState
  set_session access_token user state = record {
    user = user;
    access_token = access_token;
    is_authenticated = true;
    is_hydrated = true;
    stored = some (json.stringify (session_value access_token user));
  }

  unfoldable pub clear_session : AuthState → AuthState
  clear_session state = record {
    user = null;
    access_token = null;
    is_authenticated = false;
    is_hydrated = true;
    stored = none;
  }

  -- `set({ isHydrated: true })`
  abbrev pub only_hydrated : Option Text → AuthState → AuthState
  only_hydrated item state = record {
    user = state.user;
    access_token = state.access_token;
    is_authenticated = state.is_authenticated;
    is_hydrated = true;
    stored = item;
  }

  -- The session that was read, which is stored again.
  abbrev pub restored : Value → Value → AuthState
  restored access_token user = record {
    user = user;
    access_token = access_token;
    is_authenticated = is_truthy access_token && is_truthy user;
    is_hydrated = true;
    stored = some (json.stringify (session_value access_token user));
  }

  -- A text that is no JSON, or a value that has no properties, is removed.
  abbrev pub from_parsed : Option Value → AuthState → AuthState
  from_parsed none state = only_hydrated none state
  from_parsed (some session) state =
      if is_nullish session
      then only_hydrated none state
      else restored (get "accessToken" (object_or_empty session))
          (get "user" (object_or_empty session))

  abbrev pub from_stored : Option Text → AuthState → AuthState
  from_stored none state = only_hydrated none state
  from_stored (some []) state = only_hydrated (some []) state
  from_stored (some (c ∷ s)) state = from_parsed (json.parse (c ∷ s)) state

  unfoldable pub hydrate : AuthState → AuthState
  unfolding get
  hydrate state = if state.is_hydrated then state else from_stored state.stored state
