-- ===== src/Lib.antt =====
-- A verification library for the URL shortening platform: its domain, its use cases, and the
-- repositories and caches behind them.
--
-- The program. Two services share the packages below. The API service creates, lists, updates and
-- deletes short URLs for the workspaces that own them; the redirect service answers a short code
-- with the URL to go to. URLs are rows of a PostgreSQL table, written on the primary and read from
-- a replica; Redis holds positive and negative cache entries of short codes, and the token buckets
-- of the rate limiter. A redirect asks the positive entry, then the negative entry, then the
-- replica, and starts a goroutine that writes what it learnt to the cache; a creation writes to the
-- cache before it answers; an update or a delete invalidates both entries. A worker sends the
-- deliveries of webhooks and records what became of them. Each redirect is captured as an event,
-- which waits in a bounded channel until a goroutine writes it with others of its batch; exports
-- turn the events of a workspace into files, which are downloaded with a signed token. In front of
-- the handlers an API key or a token becomes claims, the claims a membership, and the role of the
-- member decides what may be done; a deny list holds the tokens that were revoked. A handler turns a
-- decoded request into a call of a use case and its result into a response, notes on the pending
-- event of the audit what it changed, and sends an event to the webhooks. The audit's middleware
-- hands that event to a service that writes the log in batches.
--
-- Which file is about which part:
--   Errors: the sentinel errors of internal/domain/url/errors.go and
--     internal/application/apperrors/errors.go; `translate_error` is translateError of
--     internal/infrastructure/postgres/errors.go.
--   Urls/Entity: internal/domain/url/entity.go (`validate`, `is_expired`, `can_redirect`).
--   Urls/Repository: internal/infrastructure/postgres/url_repository.go, one function per method; a
--     table is a list of rows, with the constraints of
--     deployments/migrations/000001_create_urls_table.up.sql.
--   Urls/Cache: internal/infrastructure/redis/url_cache.go over a list of bindings with expiry.
--   Urls/Store: the primary, the replica and the cache that the use cases share.
--   Shorten: internal/application/shorten (`handle` is Handler.Handle, `persist` its retry loop) and
--     pkg/shortcode/generator.go.
--   Resolve: internal/application/resolve (`handle` with the goroutines it starts as a list of tasks,
--     `run_task` what a goroutine does) and the statuses of
--     internal/interfaces/http/handler/redirect.go (`status_of`).
--   Manage: internal/application/url (`get`, `list`, `update_url`, `delete_url`).
--   Lifecycle: sequences of these use cases, and what may come between them.
--   RateLimit: internal/domain/ratelimit/policy.go, internal/infrastructure/redis/ratelimit.go
--     (`take_token` is the Lua script, `check` the call) and
--     internal/interfaces/http/middleware/ratelimit.go (`rate_limit`).
--   Access: internal/domain/auth and the middleware of internal/interfaces/http/middleware that decides
--     who gets in: apikey.go (`api_key_auth`), auth.go (`authenticate`), workspace.go (`workspace_auth`,
--     `require_action`), and their chain (`protected`) as cmd/api/main.go puts it in front of the routes
--     below a workspace; a route for the creation of URLs, and the download of exports, are registered
--     outside it. Access/DenyList is internal/infrastructure/auth/denylist.go (`revoke`, `revoke_all`,
--     `is_revoked`).
--   ApiKeys: internal/domain/apikey, pkg/keyutil, internal/application/apikey (`create_key`,
--     `revoke_key`, `list_keys`) and internal/infrastructure/postgres/apikey_repository.go with
--     deployments/migrations/000003_create_api_keys.up.sql.
--   Analytics: internal/application/analytics/ingestion_service.go (`capture`, the cases of the drainer
--     `receive`, `tick` and `stop`, `shutdown`, `flush`), pkg/useragent, pkg/geoip, pkg/iphasher and
--     internal/infrastructure/postgres/analytics_repository.go. Analytics/Query is
--     internal/domain/analytics/query.go with the statements of
--     internal/infrastructure/postgres/analytics_query_repository.go, and Analytics/Queries the three
--     use cases on them (`summarize`, `time_series`, `break_down`).
--   Audit: internal/domain/audit, internal/application/audit/service.go (`capture`, `build_event`, the
--     cases of the drainer, `shutdown`), internal/infrastructure/postgres/audit_repository.go with
--     deployments/migrations/000004_create_audit_logs.up.sql, and
--     internal/interfaces/http/middleware/audit.go (`audit_action`).
--   Exports: internal/domain/export, internal/application/export (`create_export`, `process_one`),
--     internal/infrastructure/postgres/export_repository.go, pkg/signedurl, internal/infrastructure/storage
--     and the download of internal/interfaces/http/handler/export.go.
--   Workspaces: internal/domain/workspace, internal/infrastructure/postgres/workspace_repository.go
--     with deployments/migrations/000002_create_workspaces.up.sql, and internal/application/workspace
--     (`create_workspace`, `invite`, `get_workspace`, and in Workspaces/Lists `list_workspaces` and
--     `read_members`).
--   Handlers: internal/interfaces/http/response and, in internal/interfaces/http/handler, url.go
--     (`get_url`, `list_urls_page`, `patch_url`, `remove_url`), shorten.go (`post_url`), apikey.go
--     (`post_key`, `get_keys`, `delete_key`), webhook.go, workspace.go and analytics.go; Tokens is
--     revokeTokenHandler of cmd/api/main.go.
--   Webhooks: internal/domain/webhook and internal/application/webhook: the worker that delivers
--     (`process_delivery`, of which `load_hook` reads the hook and `report` sends and records; the
--     workers of several processes take these as steps in any order), and in Webhooks/Registration `register`, `delete_hook`, `list_webhooks` and
--     `dispatch`; the statements that they run are those of
--     internal/infrastructure/postgres/webhook_repository.go. Webhooks/Signature is pkg/webhooksig.
--
-- How it is modelled. Texts are lists of bytes, and `strings.ToLower` is exact on ASCII. Times are
-- numbers of nanoseconds, in the rate limiter of milliseconds. A pair of a value and an error is a
-- result; a wrapped error is its sentinel. What is not code of the repository is an argument: the
-- parser of `net/url`, the draws of `crypto/rand`, SHA-256, HMAC and bcrypt, base64 decoders, the
-- parsing and validation of tokens, the writers of CSV and JSON lines, new identifiers, the
-- readings of the clock, the faults of the database server, and whether a command to Redis is lost.
-- They are fields of a record `Outside` of each use case. A statement of the database is atomic,
-- and a fault comes before it has an effect; the trigger's `NOW()` is the use case's reading of the
-- clock. JSON documents in the cache are the records that they encode. RFC 3339 times in answers
-- are kept as numbers, and identifiers are ordered by bytes.
--
-- Bounds. The retry loop of a creation makes at most three attempts and recurs on those that are
-- left; the expiry in a download's signature is written with fuel for nineteen digits, as many as an
-- int64 has; all other loops recur on the list that they run over. The token bucket counts whole
-- units instead of floating point tokens: a token is `window` units and a millisecond refills
-- `limit` units, so that the arithmetic is exact where the script rounds its floating point numbers.
--
-- A handler is given the decoded body, if there is one, and the parameters of the path and the query
-- as texts; it returns the response, the state, and the pending event as it annotated it. Of a problem
-- the type, the status and the instance are kept. Buckets of time are those of UTC.
--
-- An event service is a sequence of steps, one for each capture and each case of its drainer, in
-- any order; only what may not happen at once is one step. The counts of a batch are written in the
-- order in which their codes first occur, where Go's maps have no order.
--
-- Not modelled: the stream of clicks, which is a component of its own; the order in which the
-- worker claims a batch of deliveries, and its polling loop; the percentages of a breakdown; log
-- lines, spans and metrics; the decoding of HTTP requests and the encoding of answers;
-- configuration, the routing but for the chain in front of a workspace's routes and the start of
-- the programs; the frontend and the deployments.
pub mod Prelude
pub mod Errors
pub mod Urls
pub mod Shorten
pub mod Resolve
pub mod Manage
pub mod Lifecycle
pub mod Access
pub mod RateLimit
pub mod Workspaces
pub mod ApiKeys
pub mod Webhooks
pub mod Analytics
pub mod Audit
pub mod Exports
pub mod Handlers
mod Samples
