-- ===== src/Payments/Consume.antt =====
-- `consume_authorization` of app/routers/payments.py: one use of a bounded authorization.
pub mod Ledger
pub mod Grants
pub mod Worker
pub mod Others
pub mod Paths
pub mod Reads
pub mod Reserve
pub mod Guards
pub mod SingleUse
use paari_payments_protocol.Prelude.{
  ltb, if◌then◌else◌, ◌==◌, number_eq, text_eq, length, select, first, update_where, ℕ, ◌+◌, ◌<◌,
  String, Bool, true, not, ◌&&◌, Option, none, some, [], ◌∷◌, ◌++◌,
}
use paari_payments_protocol.Transitions.{TxnState, provider_submitted, failed, provider_unknown}
use paari_payments_protocol.Models.{ParentAuthority, Agent}
use paari_payments_protocol.Models.Rows.{
  Message, says, Detail, BoundedAuthorization, Db, str, num, txn_state,
}
use paari_payments_protocol.Host.{Host}
use paari_payments_protocol.Config.{MandatePolicy, Environment, mandate_policy, is_autonomous}
use paari_payments_protocol.Audit
use paari_payments_protocol.Exec.{
  Exec, exn_text, pure, raise, gets, ◌>>=◌, ◌>>◌, modify, commit, rollback, call, answer, require,
  catch, audit, Exn, Result, http, paari, timeout, not_configured, other, agentic_unavailable, Call,
}
use paari_payments_protocol.Payments.Authenticate.{
  HttpRequest, resolve_session_token, authenticate, parent_for,
}
use paari_payments_protocol.Payments.Records.{record_provider_txn, parent_id_of}
use paari_payments_protocol.Payments.Execution.{
  revalidate_execution, find_txn, modify_txn, no_row, transition_txn, try_transition, set_error,
  close_with,
}
use paari_payments_protocol.Payments.Settlement.{
  set_provenance, same_value, consume_agentic_settlement, Provenance, AgenticAnswers,
  ConsumeResponse,
}

-- A provider order, as create_payment returns it.
pub record ProviderOrder : Type 0 where
  pub id : Option String
  pub receipt : String
  pub amount : Option ℕ
  pub currency : Option String

-- What the world answers during one consume request.
pub record ConsumeAnswers : Type 0 where
  -- get_agentic_provider(org_id), and the adapter's answers
  pub agentic_provider : Result AgenticAnswers
  -- _provider_for(db, org_id)
  pub provider_for : Result Unit
  pub provenance : Option Provenance
  pub create_payment : Result ProviderOrder

abbrev pub find_authorization : String → Db → Option BoundedAuthorization
find_authorization id db =
    first (λ (a : BoundedAuthorization). a.authorization_id == id) db.authorizations

abbrev pub is_spendable : String → BoundedAuthorization → Bool
is_spendable id a = a.authorization_id == id && ltb a.usage_count a.max_usage

-- The atomic reservation: `UPDATE ... SET usage_count = usage_count + 1 WHERE usage_count <
-- max_usage`, and the guard on its row count.
unfoldable pub reserve : String → Exec Unit
reserve id = do
  reserved ← gets λ db. length (select (is_spendable id) db.authorizations)
  if not (reserved == 1)
      then (do rollback; raise (http 409 (says "Authorization already used or revoked")))
      else modify λ db. record db {
        authorizations =
            update_where (is_spendable id) (λ a. record a { usage_count = a.usage_count + 1 })
              db.authorizations;
      }

unfoldable pub provider_order_matches : Host → BoundedAuthorization → ProviderOrder → Bool
provider_order_matches h auth o =
    o.receipt == auth.authorization_id && same_value h auth o.amount o.currency

abbrev pub no_capability : Message
no_capability =
    says
      "Autonomous payment requested but no provider-native agentic settlement capability is configured for this organization"

abbrev pub unknown_answer : String → Exec ConsumeResponse
unknown_answer id = pure (record {
  status_code = 502;
  authorization_id = id;
  consumed = true;
  remaining_uses = 0;
  state = provider_unknown;
  razorpay_order_id = none;
  razorpay_payment_id = none;
})

module _ (h : Host) (env : Environment) (now : ℕ) (w : ConsumeAnswers) (auth : BoundedAuthorization)
    (agent : Agent) (parent : Option ParentAuthority) (causal : Detail) where
  abbrev consume_entry : String → Detail → Audit.Entry
  consume_entry kind detail = record {
    transaction_id = auth.transaction_id;
    agent_id = agent.agent_id;
    parent_id = parent_id_of parent;
    kind = kind;
    detail = detail ++ causal;
    org_id = some auth.org_id;
  }

  -- An order that matches: the row is submitted and audited.
  unfoldable pub accept_order : ProviderOrder → Exec ConsumeResponse
  accept_order order = do
    let id = auth.authorization_id
    modify_txn id λ t. set_provenance w.provenance (record t { razorpay_order_id = order.id })
    row ← gets (find_txn id)
    old ← require row no_row
    transition_txn id provider_submitted
    modify_txn id λ t. record t { updated_at = now }
    audit h now (
        consume_entry "authorization_consumed" (
          ("authorization_id", str id)
          ∷ ("remaining_uses", num 0)
          ∷ ("previous_state", txn_state old.state)
          ∷ ("current_state", txn_state provider_submitted)
          ∷ []))
    order_id ← require order.id (other "id")
    audit h now (
        consume_entry "order_submitted" (
          ("authorization_id", str id)
          ∷ ("razorpay_order_id", str order_id)
          ∷ ("amount_minor_units", num auth.amount_minor_units)
          ∷ ("currency", str auth.currency)
          ∷ ("previous_state", txn_state old.state)
          ∷ ("current_state", txn_state provider_submitted)
          ∷ []))
    commit
    pure (record {
      status_code = 200;
      authorization_id = id;
      consumed = true;
      remaining_uses = 0;
      state = provider_submitted;
      razorpay_order_id = some order_id;
      razorpay_payment_id = old.razorpay_payment_id;
    })

  -- The human-checkout path.
  unfoldable pub create_order : Exec ConsumeResponse
  unfolding accept_order
  create_order = do
    let id = auth.authorization_id
    answer w.provider_for
    call (Call.create_payment id auth.amount_minor_units auth.currency)
    order ← answer w.create_payment
    if not (provider_order_matches h auth order)
        then (do
          transition_txn id failed
          set_error id (says "Provider order did not match authorization bounds")
          commit
          raise (http 502 (says "Provider order failed Paari authorization integrity checks")))
        else accept_order order

  -- The inner handler: what an exception of the autonomous path turns into.
  unfoldable pub agentic_failure : Exn → Exec ConsumeResponse
  agentic_failure (timeout e) = do
    close_with auth.authorization_id provider_unknown
        (record { text = "Provider autonomous payment timeout: "; about = e })
    unknown_answer auth.authorization_id
  agentic_failure (http status detail) = raise (http status detail)
  agentic_failure (paari status code detail) = raise (paari status code detail)
  agentic_failure e = do
    close_with auth.authorization_id failed
        (record { text = "Autonomous provider execution failed: "; about = exn_text e })
    raise (
        http 502 (
          says
            "Autonomous provider execution failed; authorization remains spent and requires reconciliation"))

  -- Autonomous mode without a capable provider.
  unfoldable pub no_autonomous_provider : Exec ConsumeResponse
  no_autonomous_provider = do
    close_with auth.authorization_id failed no_capability
    raise (http 503 no_capability)

  -- Which path is taken: a capable provider is always preferred, and autonomous mode has no other.
  unfoldable pub choose_path : AgenticAnswers → MandatePolicy → Exec ConsumeResponse
  unfolding create_order agentic_failure no_autonomous_provider
  choose_path agentic posture =
      if agentic.supports_autonomous_settlement
      then catch (consume_agentic_settlement h now auth agent parent causal agentic) agentic_failure
      else if is_autonomous posture.mode
      then no_autonomous_provider
      else create_order

  -- The body of the outer `try`.
  unfoldable pub execute : Exec ConsumeResponse
  unfolding choose_path
  execute = do
    agentic ← answer w.agentic_provider
    posture ← mandate_policy h env
    choose_path agentic posture

  -- The handlers of the outer `try`.
  unfoldable pub execution_failure : Exn → Exec ConsumeResponse
  execution_failure (http status detail) = raise (http status detail)
  execution_failure (paari status code detail) = raise (paari status code detail)
  execution_failure (timeout e) = do
    try_transition auth.authorization_id provider_unknown
    modify_txn auth.authorization_id λ t. record t {
      last_error = some (record { text = "Provider timeout: "; about = e });
      updated_at = now;
    }
    commit
    unknown_answer auth.authorization_id
  execution_failure (not_configured e) = do
    close_with auth.authorization_id failed (says e)
    raise (http 502 (says "Payment provider is not configured for this organization"))
  execution_failure agentic_unavailable = do
    close_with auth.authorization_id failed (says "Agentic provider configuration is unavailable")
    raise (http 503 (says "Agentic provider configuration is unavailable"))
  execution_failure (other e) = do
    try_transition auth.authorization_id failed
    modify_txn auth.authorization_id λ t. record t { last_error = some (says e); updated_at = now }
    commit
    raise (http 502 (says "Provider execution failed; authorization remains spent"))

-- What stands before the `try`: the row of the transaction is found or made, and the attempt is
-- counted and committed with the reservation.
unfoldable pub begin_attempt : Host → ℕ → BoundedAuthorization → Exec Unit
begin_attempt h now auth = do
  row ← gets (find_txn auth.authorization_id)
  elim row [ some t ↦ pure tt | none ↦ do record_provider_txn h now auth; pure tt ]
  modify_txn auth.authorization_id λ t. record t { attempts = t.attempts + 1; updated_at = now }
  commit

unfoldable pub consume_authorization :
    Host → Environment → HttpRequest → ConsumeAnswers → String → Exec ConsumeResponse
unfolding begin_attempt
consume_authorization h env q w id = do
  found ← gets (find_authorization id)
  auth ← require found (http 404 (says "Authorization not found"))
  token ← resolve_session_token h q
  authenticate h env q token (some auth.agent_id)
  agent ← revalidate_execution h env q.now auth
  reserve id
  begin_attempt h q.now auth
  parent ← gets (parent_for agent)
  causal ← gets λ db. Audit.causal_labels db auth.intent_id
  catch (execute h env q.now w auth agent parent causal)
      (execution_failure h env q.now w auth agent parent causal)
