-- ===== src/Lib.antt =====
-- Memory Router: a verification library beside memory_router/.
--
-- The router stands between agents and the memory service Hindsight. What it finds unsafe goes,
-- encrypted, to a quarantine: rows of a database that reviewers approve, reject or postpone.
--
-- Common.antt: tests, results with the errors of errors.py, and Common/Table.antt, the statements that
-- the repositories send to their tables (SELECT, COUNT, SUM, UPDATE, DELETE) as functions on lists.
-- Quarantine.antt: the rows, the statuses and the transactions of repository.py and db.py. A
-- transaction returns its new state or an error, which rolls back. A row is found by its id; the ids
-- are unique by the primary key, which is a hypothesis where it is needed.
-- Review.antt: review_repository.py. Review/Guards.antt has the checks and `_mutate_review`,
-- Review/Actions.antt and Review/Recovery.antt the operations under the names of the source, and
-- Review/Machine.antt the state machine over one item, Review/Moves.antt what one command may do to
-- it. Review/Refines relates the two, operation by operation; Review/Commands.antt runs schedules of operations, each one a transaction, so that a
-- list of commands is one interleaving of any number of reviewers. Review/Claiming.antt is about one
-- claim and its end.
-- Admission.antt: `QuarantineRepository.store`, the capacity checks and the writes.
-- Json.antt: canonical.py's checks and the byte count of limits.py, over JSON values.
-- Facade.antt: facade_routes.py and the scope of a route (principals.py); Facade/Table.antt is the table.
-- Paths.antt: the dot segments of paths.py, and in Paths/Decoding.antt the decoding of a segment. Tokens.antt: the bearer tokens of auth.py.
-- Validation.antt: the readers of bodies of validation.py.
-- Dispatch.antt: request_dispatch.py, from an authenticated request to the policy, the facade or a
-- denial; the facade's routes and the order of the handlers are in Dispatch/Forwarding.antt.
-- Dispatch/Monitor.antt has a monitor that checks each call of a service against the grants.
-- OpenClaw.antt: openclaw.py and openclaw_contracts.py, the requests that the facade passes on.
-- OpenClaw/Segments.antt and OpenClaw/Filled.antt are about the segments of their paths.
-- Application.antt: the gates of app.py: rates, tokens, principals and bodies. Application/Routes.antt
-- has the routes of the administration, Application/Serve.antt the entry of every request but the
-- probes, which makes the dependencies of the dispatcher; Application/Gates.antt has a service
-- of the administration behind a check of each call, by the token or by the principal's grants.
-- Limits.antt: the bounds and the charges of limits.py.
-- Policy.antt: policy.py. Its environment stands for the scan, the quarantine store, the limits and the
-- memory service; Policy/Recall decides on recalled memories, Policy/Retain on what is written.
-- Envelope.antt: the decrypted object of envelope.py, its checks and its canonical text.
-- QuarantineStore.antt: quarantine_store.py up to the write: the id of an item, its charge, its row.
-- Administration.antt: admin.py above the review operations, the memory service and the clock. A stage
-- is the tables and the rest of the world; other requests work between its transactions (`wait`).
-- Administration/Approval.antt approves, Administration/Decisions.antt rejects, postpones and
-- reconciles.
-- Maintenance.antt: the cleanup and the sweep of maintenance.py, over the tables of Quarantine.antt.
-- Sessions.antt: human_auth_store.py, the logins and sessions of human reviewers as three tables, which
-- are in Sessions/Tables.antt.
-- Sessions/Caps.antt has the schedules of its operations; each operation is one transaction.
-- RateLimit.antt: rate_limit.py over PostgreSQL: the leases of concurrent requests, and in
-- RateLimit/Windows.antt a session's `consume_many_distinct`. Times there are milliseconds.
-- Principals.antt: principals.py from the parsed token on: authentication, limits, grants and the
-- access policies of banks. The token's grammar and the loader of the registry are left out.
--
-- Times are the ISO texts that the router writes, compared as texts by code points;
-- `datetime.fromisoformat` is a parameter. Hashes, random identifiers and the callbacks of other
-- components are parameters. The messages of errors, the random id of an event and the unique
-- indexes other than the primary key are left out. The two loops over a stack of JSON values
-- run on fuel, one more than the number of values; all other loops go over lists.
--
-- Not modelled: the HTTP layer, the start and stop of the process, the clients of Hindsight and of the login provider, and the logging,
-- which are I/O; the encryption, a third-party library; the scan of contents; the listing and
-- the statistics of the administration; the order of the steps of `QuarantineStore.put`; the pruning of events, the heartbeat of a lease and the
-- in-memory limiter.
pub mod Common
pub mod Json
pub mod Quarantine
pub mod Review
pub mod Admission
pub mod Sessions
pub mod RateLimit
pub mod Principals
pub mod Facade
pub mod Paths
pub mod Tokens
pub mod Validation
pub mod Dispatch
pub mod OpenClaw
pub mod Application
pub mod Limits
pub mod Policy
pub mod Envelope
pub mod QuarantineStore
pub mod Administration
pub mod Maintenance
