-- ===== src/Payments/Refund.antt =====
-- `refund_authorization` of app/routers/payments.py.
use paari_payments_protocol.Prelude.{
  ◌==◌, number_eq, text_eq, ℕ, String, not, Option, none, some, ◌∷◌,
}
use paari_payments_protocol.Transitions.{TxnState, is_state, paid, refunded}
use paari_payments_protocol.Models.Rows.{
  BoundedAuthorization, ProviderTransaction, says, str, num, txn_state,
}
use paari_payments_protocol.Host.{Host}
use paari_payments_protocol.Config.{Environment}
use paari_payments_protocol.Audit
use paari_payments_protocol.Exec.{
  Exec, pure, raise, gets, ◌>>=◌, ◌>>◌, commit, call, answer, require, raise_if, audit, Result,
  http, Call,
}
use paari_payments_protocol.Mandates.Signature.{present}
use paari_payments_protocol.Payments.Authenticate.{
  HttpRequest, resolve_session_token, authenticate, parent_for, find_agent,
}
use paari_payments_protocol.Payments.Records.{parent_id_of}
use paari_payments_protocol.Payments.Execution.{find_txn, modify_txn, set_error}
use paari_payments_protocol.Payments.Consume.{find_authorization}
use paari_payments_protocol.Reconcile.{Read, got, lost, attempt_transition}

-- What the provider answers: `_provider_for`, and the id of the refund that it made.
pub record RefundAnswers : Type 0 where
  pub provider_for : Result Unit
  pub refund : Read (Option String)

abbrev pub refund_amount : Option ℕ → Option BoundedAuthorization → ℕ
refund_amount (some n) auth = n
refund_amount none none = 0
refund_amount none (some a) = a.amount_minor_units

module _ (h : Host) (env : Environment) (q : HttpRequest) (w : RefundAnswers) where
  -- The refund has been made: the row and its audit event.
  unfoldable pub record_refund :
      ProviderTransaction
      → Option BoundedAuthorization
      → String
      → ℕ
      → Option String
      → Exec (TxnState × Option String)
  record_refund t auth payment_id amount refund_id = do
    moved ← attempt_transition t.authorization_id refunded
    raise_if (not moved) (http 409 (says "Cannot transition to REFUNDED"))
    modify_txn t.authorization_id λ u. record u { updated_at = q.now }
    agent ← gets (find_agent t.agent_id)
    parent ← gets λ db. elim agent [ none ↦ none | some a ↦ parent_for a db ]
    causal ← gets λ db. Audit.causal_labels db t.intent_id
    audit h q.now (record {
      transaction_id = elim auth [ none ↦ t.authorization_id | some a ↦ a.transaction_id ];
      agent_id = t.agent_id;
      parent_id = parent_id_of parent;
      kind = "refund_issued";
      detail =
          ("authorization_id", str t.authorization_id)
          ∷ ("payment_id", str payment_id)
          ∷ ("amount_minor_units", num amount)
          ∷ ("from_state", txn_state t.state)
          ∷ ("to_state", txn_state refunded)
          ∷ ("provider_environment", str t.provider_environment)
          ∷ causal;
      org_id = some t.org_id;
    })
    commit
    pure (refunded, refund_id)

  unfoldable pub refund_authorization : String → Option ℕ → Exec (TxnState × Option String)
  unfolding record_refund
  refund_authorization id requested = do
    row ← gets (find_txn id)
    t ← require row (http 404 (says "Authorization not found"))
    token ← resolve_session_token h q
    authenticate h env q token (some t.agent_id)
    raise_if (not (is_state t.state paid)) (http 409 (says "Cannot refund a payment in this state"))
    payment_id ←
        require (present t.razorpay_payment_id)
          (http 409 (says "No provider payment id recorded for this transaction"))
    auth ← gets (find_authorization id)
    let amount = refund_amount requested auth
    raise_if (amount == 0) (http 400 (says "Refund amount must be positive"))
    answer w.provider_for
    call (Call.refund_payment payment_id amount)
    elim w.refund [
      | lost e ↦ do
        set_error id (says e)
        commit
        raise (http 502 (record { text = "Provider refund failed: "; about = e }))
      | got refund_id ↦ record_refund t auth payment_id amount refund_id
    ]
