-- ===== src/Lib.antt =====
-- n8n-operator: a service that prepares, gates, approves and executes n8n workflows, and keeps an
-- audit log of all of it.
--
-- Every use case of src/n8n_operator/core/service.py runs in one `session_scope` on the database. It
-- reads an operation with lazy expiry, asks the authorization evaluator, and moves the operation by
-- `_apply_and_audit`: the state machine's gate, a compare-and-set on the row's version, one event and
-- one entry of the audit chain.
--
-- Base, Json: numbers, lists, texts, and the JSON encoding that hashes are taken of.
-- StateMachine: src/n8n_operator/core/state_machine.py. StateMachine/Legal has the documented
-- diagram as a relation.
-- Authorization: src/n8n_operator/core/authorization.py; Roles has the capability table, Glob and
-- Like the workflow scopes, Evaluate the evaluator.
-- Audit: src/n8n_operator/audit/chain.py and writer.py, with the methods of the audit log's
-- repository; the table is the list of its rows.
-- Service/Outcome: errors and sessions. A session is a function from the database to a value with the
-- pending database, or to an error with the database that was committed before it, if any; Steps has
-- the lemmas on sequences of steps.
-- Service/Store: the tables (src/n8n_operator/storage/models.py) as lists of rows in one record, and
-- the statements of src/n8n_operator/storage/repository.py that the use cases run.
-- Service/Transition: `_apply_and_audit`, `_apply_lazy_expiry` and the reads; Contract and Read say
-- what they return, Selected has the compare-and-set.
-- Service/Registry, Access, Ports, Execute, Handles, Approve, Idempotency, Validation, Eligible,
-- Notify, Prepare, Retry, Report, Sweep, Reconcile, Routing, Reload, Discovery, Drift, Listing, Redeliver, Oversight: the use cases and what they call, function
-- by function under the source's names. Prepare has the preparation step by step, with the sessions that
-- may come between its lookup and its insertion as a function on the database; Retry what
-- `prepare_operation` and `retry_operation` resolve before it; Report the outcome of an execution and the
-- two sessions of a dispatch; Sweep the expiry sweep and the alerts; Routing the requests for approval;
-- Notify the deliveries that are made once. Children say what they return: Execute/Contract, Execute/Progress, Approve/Quorum,
-- Prepare/Replay, Prepare/Refusals, Notify/Dedup, Eligible/Members, Handles/Binding,
-- Validation/Pointer.
-- Service/History: what every use case may do to the database. Service/Sessions: the calls;
-- Service/Calls: sequences of them; Service/Lifecycle: the abstract view that they refine.
-- Redaction: src/n8n_operator/core/redaction.py, with Scrub and Cap on what is left of secrets and sizes.
-- Diff: src/n8n_operator/core/definition_diff.py; Values has Python's equality and the bound on a value,
-- Definitions the nodes and the budget, Complete that the diff misses nothing.
-- Registry: src/n8n_operator/registry/schema.py and loader.py; Rules has the load-time rules, Overlays
-- those on overlays, Service/Reload puts both into the database, Sound and Strict what they ensure of the entries that Service works with.
-- N8n: src/n8n_operator/n8n/canonicalization.py and preflight.py; Checks has the single checks, Preflight
-- the adapter that the use cases call through PreflightPort.
-- Examples: runs on small inputs.
--
-- Texts are lists of code points and instants are natural numbers. SHA-256, the ISO format of an
-- instant, new ids and tokens, the time, the errors of the JSON schema library, the update along a
-- JSONPath, what a notification sink says, and n8n's answers to a preflight, a dispatch and a
-- lookup are parameters, as are the NFC form of a text, Python's equality of two printed numbers,
-- what the JSON schema and JSONPath libraries accept, SQL's LIKE with the database's comparison of
-- characters (SQLite's has no regard to the case of ASCII letters), and the HTTP client. Calls run
-- one after the other, as the database's write lock orders them; a row that another session has
-- moved since it was read is a row whose version is not the table's. Whether a session still holds
-- the object of a row that it has read, which `Session.get` then returns as it was read, is a
-- parameter too, and so is the `seq` that the database gives a row of the audit log. That the ORM's
-- bulk update may also change such an object in the session is not modelled. A rollback inside a
-- call goes back to the database where the call's transaction began, with what other sessions have
-- committed. The paged read runs on fuel, one more than the number of rows, since each round that
-- goes on has read a row. The loop that shortens a preview has a round for each character; each
-- round removes one at least. The walk up the parents of a retry has the ten rounds of the source.
-- The tables' primary keys are the hypothesis that ids are distinct.
--
-- Not modelled: metrics, approval status, exports, publishing anchors and provisioning; reading and
-- parsing registry files; the n8n client's HTTP; the MCP, web and command line layers, the sinks
-- themselves, configuration and migrations. A row's details that no modelled use case reads are
-- left out, as are the messages of errors and of rule violations. Limits are natural numbers: the
-- negative ones, which overlays may have, are left out.
pub mod Base
pub mod Json
pub mod Audit
pub mod StateMachine
pub mod Authorization
pub mod Redaction
pub mod Diff
pub mod Service
pub mod Registry
pub mod N8n
pub mod Examples
