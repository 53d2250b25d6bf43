-- ===== src/Lib.antt =====
-- The Revora backend: a TypeScript service for offerings of revenue shares. This library models
-- the parts of it that keep state or decide something, each in a module of its own, and proves
-- what makes them correct.
--
-- How the parts interact. A request passes the middlewares (rate limit, idempotency keys,
-- webhook signatures) to a handler; sessions, tokens and the accounts behind them say who sends
-- it; the offering guard says which changes of status are legal; the distribution engine splits
-- the revenue of a period over the holders and writes the payouts through a repository. Each
-- part is its own state and its own operations, and they are modelled as such; where one part
-- calls another, the definition calls the other's definition (WebhookAuth uses WebhookSignature,
-- PasswordReset uses ResetLimiter, Access uses Session, Reconciliation uses Reports, Sync uses
-- Catalog) or takes an interface (Refresh over a repository, Distribution over its effects).
--
-- Parts and files (paths from the repository's root).
-- - Common holds what the parts share: tests, lists, maps keyed by strings in insertion order,
--   integers over the native numbers, and the text functions of JavaScript (trim, toLowerCase,
--   toUpperCase, includes, length, parseInt).
-- - Offering models src/lib/offeringStatusGuard.ts: canTransition is can_transition,
--   enforceTransition is enforce_transition. Offering.Lifecycle proves which statuses are
--   reached and how.
-- - Distribution models src/services/distributionEngine.ts: withRetry is with_retry, and
--   distribute is distribute, distribute_period, distribute_balances, compute_payouts, persist
--   and persist_payouts, one for each of its steps. The repositories are effects on a world of
--   any type. Distribution.Retry, Rounding, Conservation, Stored and Negative are about what the
--   attempts, the rounding, the payouts and the rows of the table come to.
-- - Session models src/lib/sessionStore.ts: the store is a map and the flag of its timer; get,
--   touch, create, delete, stats, sweep and stop are the methods. Session.Lookup, Sweep and
--   Accounting are its proofs.
-- - RateLimit models src/middleware/rateLimit.ts: increment and reset are the in-memory store,
--   handle is the middleware, handle_all a sequence of requests. RateLimit.Window is its proof.
-- - Idempotency models src/middleware/idempotency.ts: check_and_reserve, save, release and
--   prune_expired are the store; arrive is the middleware up to next(), finish and close are the
--   listeners of the response. Idempotency.Bodies has the wrappers of res.json and res.send.
--   Idempotency.Exclusion has the events as a step relation, Idempotency.Replay a request that
--   is repeated.
-- - WebhookSignature models src/lib/webhookSignature.ts: sign_webhook_payload,
--   verify_webhook_payload, extract_signature_from_headers, assert_valid_webhook_signature and
--   verify_webhook, with check_timestamp for the replay protection. Its proofs are Authenticity
--   and Freshness.
-- - WebhookAuth models src/middleware/webhookAuth.ts: webhook_auth, webhook_verify and
--   webhook_auth_with_provider are the three middlewares. WebhookAuth.Agreement relates them.
-- - Delivery models src/services/webhookService.ts: emit starts the deliveries of an event,
--   deliver is one of them, deliver_from its loop, request_headers what it sends.
--   Delivery.Attempts says how a delivery ends, Delivery.Acceptance how the webhook middleware
--   receives one.
-- - Refresh models src/auth/refresh (refreshService.ts, types.ts, repositoryAdapter.ts) and what
--   it uses of src/db/repositories/sessionRepository.ts: refresh is the service over the
--   interface RefreshTokenRepository, session_repository the adapter over the rows of the
--   sessions table. Refresh.Reuse and Refresh.Revocation are its proofs.
-- - ResetLimiter models src/services/passwordResetRateLimiter.ts and PasswordReset models
--   src/services/passwordResetService.ts, over their tables. ResetLimiter.Rejection,
--   PasswordReset.Requests and PasswordReset.SingleUse are the proofs.
-- - WebhookReceiver models src/routes/webhooks.ts: receive and receive_for_endpoint are the two
--   routers, validate_webhook_event and process what follows the signature.
--   WebhookReceiver.Replay is its proof.
-- - Catalog models src/db/repositories/offeringRepository.ts, the rows of the offerings table.
--   Catalog.Updates is about what an update leaves.
-- - Sync models src/services/offeringSyncService.ts over Catalog, with the contract as a
--   parameter. Sync.Convergence is its proof.
-- - Reports models src/services/revenueService.ts (submit_report) and the queries of
--   src/db/repositories/revenueReportRepository.ts; Reports.Amount is the form of an amount.
--   Reports.Periods is its proof.
-- - Reconciliation models src/services/revenueReconciliationService.ts over Reports and the
--   tables of runs and investments; Reconciliation.Submissions has the checks of single records,
--   Reconciliation.Handlers the handlers of src/routes/reconciliationRoutes.ts. Its proofs are
--   Balance, Submissions and Entitlement. Its numbers are a parameter, the record Double:
--   parseFloat, toFixed(2), the arithmetic and the comparisons of doubles, in the places where
--   the service uses them.
-- - Investments models src/services/investmentService.ts over Catalog, and the insertion and the
--   listings of src/db/repositories/investmentRepository.ts. Investments.Active is its proof.
-- - Snapshots models src/services/balanceSnapshotService.ts and the queries of
--   src/db/repositories/balanceSnapshotRepository.ts that it uses. Its proofs are Idempotence
--   and Aggregation.
-- - Milestone models src/vaults/milestoneValidationRoute.ts over the interfaces of its
--   repositories, which src/index.ts fills with maps in memory. Milestone.Once is its proof.
-- - Claims models src/lib/jwt.ts: validate_claims, get_jwt_secret, issue_token and verify_token,
--   over the two functions of the jsonwebtoken package. Claims.Window is its proof.
-- - Access models src/middleware/session.ts over Session; Access.Tokens models
--   src/middleware/auth.ts and src/middleware/authWithSession.ts over the sessions table of
--   Refresh. Access.Registry is a proof.
-- - Accounts models src/db/repositories/userRepository.ts, src/utils/password.ts and
--   src/lib/hash.ts; Accounts.Strength models src/lib/passwordStrength.ts, Accounts.Register
--   src/auth/register, src/services/startupAuthService.ts and src/routes/startupAuth.ts,
--   Accounts.Login src/auth/login and src/auth/logout, Accounts.ChangePassword
--   src/auth/changePassword. Accounts.Sessions, Lifetime, Formats and Passwords are the proofs;
--   they relate the login to the middlewares of Access and the three services to each other.
-- - Errors models src/lib/errors.ts and src/middleware/errorHandler.ts. Errors.Disclosure is its
--   proof.
-- - Pages models src/lib/pagination.ts. Pages.Bounds is its proof.
--
-- Conventions. Clock readings, random ids and random tokens are arguments. In Distribution
-- amounts of money are whole cents, with exact arithmetic, where the source computes with
-- floating point: a share that is half a cent may be rounded the other way there. Times are
-- natural numbers of milliseconds; a number that the source reads from a text may be negative
-- and is an integer. Change of case is that of the ASCII letters. Node's HMAC and hash
-- functions, the JSON parser, the mailer, the network and the token service are parameters. A
-- SQL query is the operation on the rows that its text spells, and the constraints of the
-- migrations make an INSERT fail; a query that fails for another reason is modelled in
-- PasswordReset, where a transaction depends on it, and as the errors of the effects in
-- Distribution.
--
-- Bounds and fuel. with_retry and deliver recurse on the attempts that are left, as many as
-- maxRetries, and so are total. The generations of descendants in Refresh are as many as the
-- table has rows, which is enough where every session stands behind its parent; so are the
-- ancestors that a cascade of a DELETE follows in Accounts.Login.
--
-- Not modelled: the repositories of notifications, audit logs, webhooks and payouts (SQL over a
-- connection pool), the other routes and handlers, the Stellar network clients, mail delivery,
-- logging, CORS, health and documentation routes, the reading of the environment, and the
-- regular expressions of sanitizing and of the validation of requests. Requests that interleave
-- are modelled in Idempotency only.
pub mod Common
pub mod Offering
pub mod Distribution
pub mod Session
pub mod RateLimit
pub mod Idempotency
pub mod WebhookSignature
pub mod WebhookAuth
pub mod Refresh
pub mod ResetLimiter
pub mod PasswordReset
pub mod Delivery
pub mod WebhookReceiver
pub mod Catalog
pub mod Sync
pub mod Reports
pub mod Reconciliation
pub mod Investments
pub mod Snapshots
pub mod Milestone
pub mod Claims
pub mod Access
pub mod Accounts
pub mod Errors
pub mod Pages
