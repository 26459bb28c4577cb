-- ===== src/Lib.antt =====
-- Verification of three programs of this repository that work together: the issue service, which
-- keeps the issues of a project, their comments and history, and the events that announce each change
-- to other services; the API gateway in front of it; and the parts of the web client that send
-- requests, read lists of issues and errors, offer changes on the board, keep the session and renew its
-- tokens.
--
-- The parts and how they interact. A request reaches a handler of IssueApplicationService. It
-- validates the body, reads the issue, asks the project service whether the user may see or change
-- it, checks the version that the client expects, and then calls one operation of
-- PostgresIssueRepository. That operation is one transaction, which changes the issue under the
-- condition that its version is still the expected one, and adds a history row and an event. The
-- outbox operations claim the waiting events and record whether they were published; the publisher
-- polls them and sends the events to a broker.
--
-- A browser talks to the gateway only. The gateway identifies the user by a token, limits the requests
-- to sign in with counters in Redis, forwards the other requests to the service that they are for, and
-- turns the errors of the services into its own, which the web client shows to the user. The web
-- client reads a list of issues page by page, with a cursor that the issue service hands out.
--
-- Which file models what:
--   Common, Json       lists, options, numbers and text; the values of a parsed JSON body. A
--                      JavaScript string is the list of its UTF-16 code units.
--   Domain             apps/issue-service-nest/src/domain/issue.ts, errors.ts and planning.ts: the
--                      validators (Values), the workflow of statuses (Issue) and the data.
--   Repository         apps/issue-service-nest/src/infrastructure/postgres-issue.repository.ts and
--                      database.ts, over the tables of apps/issue-service-nest/migrations: Db (the
--                      tables and `transaction`), Table, Statements, Payloads and Recipients (the
--                      statements and the values that they store), Writes (the operations, named as
--                      in the source), Outbox. Sequences is about the numbers of the issues, and
--                      Creation and Changes about what the operations store. Steps makes any sequence of these operations a history.
--                      Progress is about when they succeed; Planning and Reads are the tables of
--                      epics and sprints (postgres-planning.repository.ts) and the lists.
--   Application        apps/issue-service-nest/src/application/issue-application.service.ts: Access
--                      and Input (the private checks), Plans (what a handler does before it writes)
--                      and Handlers (the handlers, named as in the source). Concurrency is about
--                      other requests that run between the reads and the write of a handler.
--                      Planning is planning-application.service.ts. ListQuery is
--                      issue-list-query.ts, with the base64url of `Buffer` as a parameter.
--   Publisher          apps/issue-service-nest/src/infrastructure/outbox.publisher.ts: one poll, with
--                      what the broker and the database answer as a parameter, Outside. Messages are
--                      what it sends.
--   IssueService       apps/issue-service-nest/src: ProjectAccess is
--                      infrastructure/project-access.client.ts, Health health/health.controller.ts and
--                      Start the hooks of main.ts. Refusals, Backlog, Secret and Correlation put them
--                      beside the use cases, the outbox, the gateway and Presentation.
--   Presentation       apps/issue-service-nest/src/presentation/request-context.ts and
--                      domain-exception.filter.ts.
--                      Routes is issues.controller.ts and planning.controller.ts.
--   Gateway            apps/api-gateway-nest/src: Errors, Client, Adapters, RateLimit and Services are
--                      common/errors, infrastructure and services; Filter, Guard, Routes, Projects and
--                      Cookies are the filter, the guard and the controllers under presentation.
--                      Limits states what is relied on of Redis; Guesses and Registrations run requests
--                      to sign in one after the other; Proxy compares the routes with those of the
--                      issue service; Health is presentation/health/health.service.ts; Failures and
--                      Sessions are about what is thrown and where refresh tokens go.
--   WebClient          apps/web-client/src: Issues is the function listIssues of features/issue/api.ts
--                      with its loop, ApiError is lib/apiError.ts, Session features/auth/store.ts and
--                      Interceptors lib/interceptors.ts for one request, with Retries about it, and
--                      Sharing for requests that run at the same time. Issues/Complete puts
--                      the loop over the handler of the issue service, Errors follows an error
--                      through all three. Requests has the requests of features/issue/api.ts and, in
--                      Projects, of features/project/api.ts, with Served about the routes that take
--                      them. Board and Roadmap are features/issue/components/Board/Board.tsx and
--                      Roadmap/Roadmap.tsx, Forms IssueDetailModal/IssueDetailModal.tsx, and
--                      Cache the hooks beside them and lib/queryClient.ts: what they compute, not
--                      what they draw.
--   Tests              runs at concrete inputs.
--
-- Conventions. An operation takes the tables and returns its result with the tables after it; what
-- throws returns an error. Values that a request draws from outside (identifiers, times, the trace
-- context) are a record, Env, which also says which texts PostgreSQL takes as a UUID. The answers of the project service are a parameter, a function of type
-- ProjectAccess, of which nothing is assumed; IssueService.ProjectAccess makes one of the HTTP answers.
-- Times are numbers of microseconds. The single statements of PostgreSQL are taken to be atomic. The recursions are structural but for two
-- that run on fuel: the loop of the web client over the pages, for which one more than the number of
-- the listed issues is enough, and the request of the web client that repeats itself, for which two
-- is enough. INTEGER columns stop at 2147483647, where the database fails,
-- and so do the operations here.
-- Case mapping and white space follow JavaScript on the characters that the validators can accept;
-- `localeCompare` is taken on lower-case UUIDs, where it is the order of code units.
--
-- Dates of epics and sprints are the texts that the row types of the source declare, whatever the
-- driver makes of a DATE column.
--
-- What the code calls outside is a parameter: fetch, JSON, jwt.verify, encodeURIComponent, Redis, how
-- the framework reads a path, and of PostgreSQL to_char, the cast to TIMESTAMPTZ, the type UUID and
-- ILIKE. What a theorem relies on of them is among
-- its hypotheses.
--
-- Not modelled: the tracing and the start of the servers, and the controller for notifications, since
-- they are wiring of frameworks; log lines; what the components of the web client draw, their forms
-- but those for an issue that exists, and React Query; and the services in Java, C# and Go, which are other programs behind HTTP.
pub mod Common
pub mod Json
pub mod Domain
pub mod Repository
pub mod Application
pub mod Gateway
pub mod WebClient
pub mod Publisher
pub mod IssueService
pub mod Presentation
pub mod Tests
