-- ===== src/IssueService/Start/Correlation.antt =====
-- apps/issue-service-nest/src/main.ts with request-context.ts and domain-exception.filter.ts of
-- apps/issue-service-nest/src/presentation: the identifier of a request.
use jira_microservices_lab.Common.{◌≡◌, ◌≢◌, refl, ◌⊎◌, inl, inr, Text, [], ◌∷◌, arith}
use jira_microservices_lab.Json.{str, get}
use jira_microservices_lab.Domain.Errors.{ok, err}
use jira_microservices_lab.Application.Access.{RequestContext}
use jira_microservices_lab.Presentation.{
  Header, absent, once, many, context_required, Thrown, error, http, request_context,
  error_response,
}
use jira_microservices_lab.Domain.Errors.{domain, failure}
use jira_microservices_lab.IssueService.Start.{assign_correlation_id}

assign_correlation_id_filled :
    (fresh : Text) (supplied : Header) → fresh ≢ [] → assign_correlation_id fresh supplied ≢ []
unfolding assign_correlation_id
assign_correlation_id_filled fresh absent f = f
assign_correlation_id_filled fresh (once []) f = f
assign_correlation_id_filled fresh (once (c ∷ s)) f = λ h. absurd (ground arith)
assign_correlation_id_filled fresh (many ts) f = f

error_id :
    (request_id id : Text) (thrown : Thrown)
    → get "correlationId" (error_response request_id (once id) thrown).body ≡ str id
unfolding get error_response
error_id request_id id (error (domain e)) = refl
error_id request_id id (error failure) = refl
error_id request_id id (http status message) = refl

-- The identifier in the context of a request, for one that names a user, or its refusal.
context_or_refused :
    (id other : Text) (user : Header)
    → id ≢ []
    → ((context : RequestContext) × (request_context other user (once id) ≡ ok context)
        × (context.correlation_id ≡ id))
      ⊎ (request_context other user (once id) ≡ err context_required)
unfolding request_context
context_or_refused [] other user f = absurd (f refl)
context_or_refused (c ∷ s) other absent f = inr refl
context_or_refused (c ∷ s) other (once []) f = inr refl
context_or_refused (c ∷ s) other (once (u ∷ v)) f = inl (_, refl, refl)
context_or_refused (c ∷ s) other (many ts) f = inr refl

supplied_or_fresh :
    (fresh : Text) (supplied : Header)
    → (supplied ≡ once (assign_correlation_id fresh supplied))
      ⊎ (assign_correlation_id fresh supplied ≡ fresh)
unfolding assign_correlation_id
supplied_or_fresh fresh absent = inr refl
supplied_or_fresh fresh (once []) = inr refl
supplied_or_fresh fresh (once (c ∷ s)) = inl refl
supplied_or_fresh fresh (many ts) = inr refl

-- The identifier that the hook for it sets for a request, which is the one supplied or a fresh
-- one, is in the body of every error that the filter answers, also when no user is named; and it
-- is the one in the context of the handlers, whatever else is drawn, unless the context is
-- refused because no user is named: if fresh identifiers are not empty.
pub one_correlation_id :
    (fresh other request_id : Text) (user supplied : Header) (thrown : Thrown)
    → fresh ≢ []
    → ((supplied ≡ once (assign_correlation_id fresh supplied))
        ⊎ (assign_correlation_id fresh supplied ≡ fresh))
      × (get "correlationId"
            (error_response request_id (once (assign_correlation_id fresh supplied)) thrown).body
          ≡ str (assign_correlation_id fresh supplied))
      × (((context : RequestContext) × (request_context other user
                (once (assign_correlation_id fresh supplied))
              ≡ ok context)
            × (context.correlation_id ≡ assign_correlation_id fresh supplied))
          ⊎ (request_context other user (once (assign_correlation_id fresh supplied))
              ≡ err context_required))
one_correlation_id fresh other request_id user supplied thrown f =
    let id = assign_correlation_id fresh supplied in
    (
      supplied_or_fresh fresh supplied,
      error_id request_id id thrown,
      context_or_refused id other user (assign_correlation_id_filled fresh supplied f),
    )
