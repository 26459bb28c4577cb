-- ===== src/Presentation/Answers.antt =====
-- apps/issue-service-nest/src/presentation/request-context.ts: the context that a request gets.
use jira_microservices_lab.Common.{◌≡◌, ◌≢◌, Text, [], arith}
use jira_microservices_lab.Domain.Errors.{ok}
use jira_microservices_lab.Application.Access.{RequestContext}
use jira_microservices_lab.Presentation.{Header, once, request_context}

-- A request that gets through carries a user from a header given once, and neither the user nor the
-- correlation identifier is empty, if a fresh identifier is not.
request_context_ok :
    (fresh : Text) (user correlation : Header) (context : RequestContext)
    → fresh ≢ []
    → request_context fresh user correlation ≡ ok context
    → (user ≡ once context.user_id) × (context.user_id ≢ []) × (context.correlation_id ≢ [])
unfolding request_context
request_context_ok fresh user correlation context f h = ground arith
