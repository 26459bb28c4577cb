-- ===== src/IssueService/Start/Secret.antt =====
-- apps/issue-service-nest/src/main.ts against
-- apps/api-gateway-nest/src/infrastructure/http-clients/internal-service-http.client.ts: the secret
-- that the services share.
use jira_microservices_lab.Common.{
  ◌≡◌, ◌≢◌, refl, ◌↔◌, ◌⊎◌, inl, inr, Text, codes, true, none, some, [], ◌∷◌, text_eq, text_eq_iff,
  text_eq_refl, starts_with, ap, ◌∙◌, arith, Bool, false, Option, if◌then◌else◌,
}
use jira_microservices_lab.Json.{Value, undefined, null, bool, num, str, arr, obj, get, field, end}
use jira_microservices_lab.Presentation.{Header, absent, once, many}
use jira_microservices_lab.Gateway.Client.{
  Method, ClientOptions, CallContext, JsonText, request_of, sends_json, user_header,
}
use jira_microservices_lab.IssueService.Start.{supplied_text, check_secret}

-- A header of a request that `fetch` was given.
abbrev pub header_of : Value → Header
header_of undefined = absent
header_of null = absent
header_of (bool b) = absent
header_of (num n) = absent
header_of (str t) = once t
header_of (arr items) = absent
header_of (obj fields) = absent

-- The header, if there is one, has the bytes of the secret.
abbrev pub Carries : (Text → Text) → Text → Header → Type 0
Carries utf8 secret supplied = (t : Text) × (supplied ≡ once t) × (utf8 t ≡ utf8 secret)

same_bytes-Carries :
    (utf8 : Text → Text) (secret : Text) (supplied : Header)
    → utf8 [] ≢ utf8 secret
    → utf8 (supplied_text supplied) ≡ utf8 secret
    → Carries utf8 secret supplied
same_bytes-Carries utf8 secret absent n h = absurd (n h)
same_bytes-Carries utf8 secret (once t) n h = (t, refl, h)
same_bytes-Carries utf8 secret (many ts) n h = absurd (n h)

Carries-same_bytes :
    (utf8 : Text → Text) (secret : Text) (supplied : Header)
    → Carries utf8 secret supplied
    → utf8 (supplied_text supplied) ≡ utf8 secret
Carries-same_bytes utf8 secret supplied (t, e, h) = ap (λ s. utf8 (supplied_text s)) e ∙ h

check_secret_passes :
    (utf8 : Text → Text) (secret url : Text) (supplied : Header)
    → (check_secret utf8 secret url supplied ≡ none) ↔ (
        (starts_with url (codes "/health") ≡ true)
        ⊎ (text_eq (utf8 (supplied_text supplied)) (utf8 secret) ≡ true))
unfolding check_secret
check_secret_passes utf8 secret url supplied = grind arith

-- A request goes on exactly if its address starts with /health, or it has the header once, with the
-- bytes of the secret. This takes it that the bytes of the secret are not those of the empty text.
pub check_secret_iff :
    (utf8 : Text → Text) (secret url : Text) (supplied : Header)
    → utf8 [] ≢ utf8 secret
    → (check_secret utf8 secret url supplied ≡ none)
      ↔ ((starts_with url (codes "/health") ≡ true) ⊎ Carries utf8 secret supplied)
check_secret_iff utf8 secret url supplied n =
    let (to, from) = check_secret_passes utf8 secret url supplied in
    let (sound, complete) = text_eq_iff (utf8 (supplied_text supplied)) (utf8 secret) in
    (
      λ h. elim (to h) [
        | inl e ↦ inl e
        | inr e ↦ inr (same_bytes-Carries utf8 secret supplied n (sound e))
      ],
      λ h. elim h [
        | inl e ↦ from (inl e)
        | inr c ↦ from (inr (complete (Carries-same_bytes utf8 secret supplied c)))
      ],
    )

-- The secret stands in the headers after those that a request may or may not have.
secret_kept :
    (typed : Bool) (user : Option Text) (id secret : Text)
    → get "x-internal-service-secret" (
        (if typed then field "content-type" (str (codes "application/json")) else λ rest. rest) (
          user_header user (
            field "x-correlation-id"
              (str id)
              (field "x-internal-service-secret" (str secret) end))))
      ≡ str secret
unfolding get
secret_kept true none id secret = refl
secret_kept true (some []) id secret = refl
secret_kept true (some (c ∷ s)) id secret = refl
secret_kept false none id secret = refl
secret_kept false (some []) id secret = refl
secret_kept false (some (c ∷ s)) id secret = refl

-- Every request that the gateway forwards, with its secret, is let through by a service that was
-- started with the same secret, whatever the method, the body and the user.
forwarded_admitted :
    (utf8 : Text → Text) (json : JsonText) (options : ClientOptions) (secret url : Text)
    (method : Method) (path : Text) (body : Value) (context : CallContext)
    → check_secret utf8 secret url (
        header_of (
          get "x-internal-service-secret"
            (request_of json options secret method path body context).headers))
      ≡ none
unfolding request_of get
forwarded_admitted utf8 json options secret url method path body context =
    let kept =
      secret_kept (sends_json options.send_json_body method) context.user_id context.correlation_id
        secret in
    (check_secret_passes utf8 secret url _).1 (inr (rw kept (text_eq_refl (utf8 secret))))
