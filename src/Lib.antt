-- ===== src/Lib.antt =====
-- A model of the core of the Sintius platform: exact money, approvals, tenants and their commands,
-- the transactional outbox and inbox, trusted contexts, authentication, permissions, event envelopes,
-- audit, identifiers and idempotent execution, with theorems about them.
--
-- How the parts interact. A credential is checked and gives a principal (Authentication), whose
-- request is resolved to a trusted context (Context) and checked for a permission (Access). A command
-- runs at most once per key and tenant (Idempotency), changes an aggregate (Tenant, Approval), records
-- an audit event (Audit) and appends an envelope (Event) to the queue (Outbox), from which a
-- dispatcher publishes the events of each stream in order; a consumer takes each of them once
-- (Outbox.Inbox). Amounts are exact decimals (Money). Every call ends in a value, a cataloged problem
-- or another error (Problem).
--
-- Files and sources.
--   Prelude           shared names: Booleans, lists, integers, JavaScript strings as UTF-16 units
--   Problem, Time     platform/problem-model/src/catalog.ts; dates as milliseconds
--   Money             platform/money/src/decimal.ts, money.ts and currency.ts: Rounding is
--                     roundedQuotient, Decimal the class of that name with its texts in Decimal/Text, Amount
--                     the class Money, Allocation the function allocate
--   Uuid              platform/id/src/uuid7.ts
--   Event             platform/event-envelope/src/index.ts: the types and scopes, Build the envelope, Uri the
--                     encoding of a tenant in its source
--   Audit             platform/audit/src: Policy is policy.ts, Recorder is recorder.ts and model.ts, Reader is
--                     reader.ts
--   Authentication    modules/identity-tenant/application/authentication.ts and authentication-ports.ts: Claims
--                     holds the checks, Entry what each entry point asks, Session the attempt
--   Approval          modules/audit-governance: Types and Decide are domain/approval.ts, Commands is
--                     application/approval-commands.ts on infrastructure/postgres/approval-persistence.ts
--   Tenant            modules/identity-tenant: Transitions is domain/tenant.ts, Requests, Stored and
--                     Commands are application/tenant-commands.ts with domain/approval-defaults.ts, Store is infrastructure/postgres/tenant-persistence.ts
--   Outbox            platform/outbox: Queue is infrastructure/postgres/store.ts and append.ts, Dispatcher is
--                     src/dispatcher.ts, Inbox is src/inbox.ts, Operations is src/operations.ts
--   Context           platform/tenant-context/src/context.ts and platform.ts
--   Cache             platform/tenant-context/src/memory-store.ts
--   Access            modules/identity-tenant: Permissions is domain/authorization.ts, Authorizer and
--                     Roles are application/authorization.ts, with application/platform-authorization.ts and
--                     infrastructure/postgres/security-persistence.ts; Personas is domain/persona-matrix.ts
--   Idempotency       platform/idempotency: Executor is src/executor.ts on infrastructure/postgres/store.ts, Payload
--                     is platform/tenant-context/src/command.ts
--   Examples          runs on concrete data
-- In each of these, the other files hold proofs.
--
-- State and errors. An operation of an aggregate returns the new snapshot; one of a table returns the new
-- table, and a transaction that throws leaves the old one. A row set is a list in the order of its
-- numbers, or a function of its unique key. What other workers do at the same time is an explicit
-- sequence of statements: a step relation for the queue, and a parameter between the statements of
-- a dispatch pass.
--
-- Bounds. Instants count milliseconds from the earliest date, up to the last one; bigint values are
-- unbounded integers and a decimal has at most 38 digits. The only fuel is that of the decimal digits of n,
-- which is n + 1 and so exceeds their number. Sequence numbers and versions are natural numbers.
--
-- Parameters. The publisher, the stores that may throw, the request hash and the hash of audit evidence,
-- the redactor of sensitive text, the date parser and the ISO text of an instant, the signature
-- verifier, the handler of a consumer, random bytes, the answers of the weak sets of issued objects,
-- and, in the approval commands, the calls that record audit facts and events.
--
-- Not modelled: the texts of amounts, proration, the text of canonical JSON, the mapping of errors to
-- responses, redaction, tenant-scoped jobs and cache keys, statistics of the queue and its delivery to
-- consumers, the HTTP server, telemetry and the connection handling of PostgreSQL.
pub mod Prelude
pub mod Problem
pub mod Time
pub mod Money
pub mod Approval
pub mod Tenant
pub mod Uuid
pub mod Event
pub mod Audit
pub mod Authentication
pub mod Outbox
pub mod Context
pub mod Access
pub mod Cache
pub mod Idempotency
pub mod Examples
