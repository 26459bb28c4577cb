-- ===== src/IssueService/Start.antt =====
-- apps/issue-service-nest/src/main.ts: what the service does with a request before a controller sees
-- it. `utf8` stands for `Buffer.from(text, 'utf8')`, as the list of the bytes.
pub mod Secret
pub mod Correlation
use jira_microservices_lab.Common.{
  ℕ, Text, codes, Bool, Option, none, some, [], ◌∷◌, text_eq, starts_with, if◌then◌else◌,
}
use jira_microservices_lab.Json.{Fields, end, field, str, obj}
use jira_microservices_lab.Presentation.{Header, absent, once, many, Response}

-- `typeof supplied === 'string' ? supplied : ''`
abbrev pub supplied_text : Header → Text
supplied_text absent = []
supplied_text (once t) = t
supplied_text (many ts) = []

abbrev pub auth_required : Response
auth_required = record {
  status = 401;
  body = field "code" (str (codes "INTERNAL_SERVICE_AUTH_REQUIRED")) (
      field "message" (str (codes "Valid internal service credentials are required"))
        (field "details" (obj end) end));
}

-- The hook for the secret: the answer that ends the request, or `none` if the request goes on. The
-- bytes are compared for their length, and then one by one.
unfoldable pub check_secret : (Text → Text) → Text → Text → Header → Option Response
check_secret utf8 internal_service_secret url supplied =
    if starts_with url (codes "/health")
    then none
    else if text_eq (utf8 (supplied_text supplied)) (utf8 internal_service_secret)
    then none
    else some auth_required

-- The hook for the identifier, which it writes to the header of the request and to that of the
-- reply; `fresh` is the value of `randomUUID()`.
unfoldable pub assign_correlation_id : Text → Header → Text
assign_correlation_id fresh absent = fresh
assign_correlation_id fresh (once []) = fresh
assign_correlation_id fresh (once (c ∷ s)) = c ∷ s
assign_correlation_id fresh (many ts) = fresh
