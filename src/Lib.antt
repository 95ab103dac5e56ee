-- ===== src/Lib.antt =====
-- Paari payment protocol: an agent proposes a payment, governance and the user's mandates decide it,
-- a bounded authorization is minted, consumed once at a payment provider, and settled.
--
-- The parts and their files. Each models the code of the same name.
--   * Transitions: app/transitions.py, the states of a provider transaction and their table.
--   * Governance, Config: app/governance.py and app/config.py, policy results and the posture.
--   * Models, Models/Rows: app/models.py, the tables. `Db` is the whole database, one list for each
--     table, oldest row first; a query is `select` or `first`, an update `update_where`.
--   * Host: what is taken from outside the repository (text functions, hashing, signatures, tokens,
--     canonical JSON). A theorem that needs a law of them names it as a hypothesis.
--   * Mandates with Spend, Signature, Check, Evaluate, Sweep: app/mandates.py and
--     app/mandate_signing.py. Mandates/View (`_mandate_view` and the routes that show a mandate or a
--     binding), Mandates/Consent (requests and rows) and Mandates/Routes (the routes that make, end
--     and bind one, with Mandates/Routes/History for sequences of these requests): app/routers/v1.py.
--   * Audit: app/audit.py, the hash chain of each transaction.
--   * Exec: one request. A session has the rows it reads (`work`), what was last committed (`saved`)
--     and the calls that reached a provider; `commit`, `rollback` and exceptions are as in the code,
--     and `serve` loses what was not committed, as `get_db` does. Exec/Keeps has the rules for
--     invariants, one for each way to build an action, and Exec/Runs rules for one run from its start.
--   * Payments: app/routers/payments.py. Authenticate (`_authenticate`, with `verify_request_proof`
--     of app/security.py), Records, Verdict and Intent (`submit_payment_intent`), StepUp (the
--     parent's approval), Execution (`_revalidate_execution`), Settlement (`_consume_agentic_settlement`), Consume
--     (`consume_authorization`), Webhook (`razorpay_webhook`), Refund (`refund_authorization`), and
--     History: sequences of these requests.
--   * Payments/Revoke: `revoke_authorization` of app/routers/v1.py.
--   * Reconcile, Reconcile/Confirm: `reconcile_one` and `confirm_capture` of app/reconcile.py.
--     Reconcile/Worker: `reconcile_pending`, and `_run_batch` of app/reconcile_worker.py.
--     Reconcile/Manual: `manual_reconcile` of app/routers/v1.py.
--   * Evidence: `collect_proof_bundle` of app/proof_bundle.py, with Evidence/Artifacts.
--     Evidence/Routes: `get_proof_bundle` and `query_audit` of app/routers/v1.py.
--   * Providers/Reference: app/providers/reference_autonomous.py, a state with each operation on it,
--     and what it answers to one request of the autonomous path. Providers/Accounts: whose
--     credentials a payment is made with (app/provider_accounts.py, app/providers/razorpay.py,
--     app/providers/agentic.py).
--   * Registry: who may administer the registry (app/security.py), with Parents
--     (app/routers/parents.py and the parents' routes of v1.py), Agents, Revoke
--     (app/routers/agents.py), Protocol (`v1_register_agent` of v1.py), Rotate (`rotate_agent_key` of
--     v1.py) and Login (app/routers/auth.py).
--   * Serialization: app/serialization.py and the gates of app/mandates.py, on PostgreSQL.
--   * Envelope: app/protocol/envelope.py. Ratelimit: app/ratelimit.py, on the table of buckets.
--   * LlmAgent: llm_agent/ with Tools (tools.py), Broker (broker.py) and Loop (loop.py). What the
--     model, the server and the drawn identifiers are in a run is given by functions.
--   * Tests: a small database, and the theorems applied to it.
-- A handler is an action on the session; it calls the parts above as the code does, and what the
-- provider answers during one request is a record of answers, an argument of the handler.
--
-- Choices. Amounts are natural numbers: a negative amount meets the same refusals as 0. Times are in
-- seconds, and one request reads the clock once. A comparison `amount > limit - spent` is written
-- `limit < amount + spent`, and `amount > 0.8 * limit` is `4 * limit < 5 * amount`. A message is its
-- fixed text and the text put into it; the cut to 2000 characters, and the state or the provider's
-- status inside a message, are left out. An allowlist that is NULL is the empty list, which every
-- reader treats alike. Columns that are only shown to a reader are left out. In an evaluation the gates
-- of app/serialization.py are an argument (acquired or not) with the database before and after. The
-- order of requests is explicit: in a history each runs on what the one before has committed. No
-- definition uses fuel: every loop is over a list, or over the turns that `run_goal` is given.
--
-- A key that cannot be read counts as one under which no signature verifies, where the code answers
-- with a server error. An adapter of app/providers/razorpay.py is one without an HTTP client of its own.
--
-- Not modelled: the clients (sdk, examples, scripts) and the chat client of llm_agent/model.py, which
-- only call the service; the HTTP calls of app/providers and the loading of an adapter by its name;
-- signed cards, the discovery document and the constant artifacts of a proof bundle, which no decision
-- reads; the SQLite path of app/serialization.py, and the thread and alerts of
-- app/reconcile_worker.py.
pub mod Prelude
pub mod Transitions
pub mod Governance
pub mod Models
pub mod Host
pub mod Mandates
pub mod Audit
pub mod Envelope
pub mod Exec
pub mod Config
pub mod Payments
pub mod Reconcile
pub mod LlmAgent
pub mod Registry
pub mod Serialization
pub mod Evidence
pub mod Providers
pub mod Ratelimit
pub mod Tests
