-- ===== src/Payments/Consume/Others.antt =====
-- A refund and a webhook leave the account of every authorization as it is.
use paari_payments_protocol.Prelude.{number_eq, text_eq, ℕ, String, refl, not, Option}
use paari_payments_protocol.Transitions.{TxnState}
use paari_payments_protocol.Models.Rows.{BoundedAuthorization, ProviderTransaction, says}
use paari_payments_protocol.Host.{Host}
use paari_payments_protocol.Config.{Environment}
use paari_payments_protocol.Exec.{
  Result, ok, err, http, paari, timeout, not_configured, other, agentic_unavailable, raise,
  raise_if, commit, ◌>>◌,
}
use paari_payments_protocol.Exec.Keeps.{
  Keeps, keeps_rules, Keeps-bind, Keeps-gets, Keeps-require, Keeps-if, Keeps-elim, Keeps-pure,
  Keeps-raise, Keeps-raise_if, Keeps-answer,
}
use paari_payments_protocol.Payments.Authenticate.{HttpRequest}
use paari_payments_protocol.Payments.Execution.{set_error}
use paari_payments_protocol.Payments.Consume.Ledger.{Ledger, commit-Keeps, call-Keeps}
use paari_payments_protocol.Payments.Consume.Guards.{
  audit-Keeps, modify_txn-Keeps, set_error-Keeps, resolve_session_token-Keeps, authenticate-Keeps,
}
use paari_payments_protocol.Reconcile.{Read, got, lost}
use paari_payments_protocol.Payments.Refund.{RefundAnswers, record_refund, refund_authorization}
use paari_payments_protocol.Payments.Webhook.{
  webhook_target, guard_org, reject_value, after_webhook, apply_webhook, handle_event, verify_event,
  razorpay_webhook, WebhookEvent, WebhookAnswers,
}
use paari_payments_protocol.Payments.Consume.Reads.{attempt_transition-Keeps, confirm_capture-Keeps}

module _ (id : String) where
  record_refund-Keeps :
      (h : Host) (env : Environment) (q : HttpRequest) (w : RefundAnswers) (t : ProviderTransaction)
      (auth : Option BoundedAuthorization) (payment_id : String) (amount : ℕ)
      (refund_id : Option String)
      → Keeps (Ledger id 0 0) (record_refund h env q w t auth payment_id amount refund_id)
  unfolding record_refund
  record_refund-Keeps h env q w t auth payment_id amount refund_id =
      search (keeps_rules, attempt_transition-Keeps, modify_txn-Keeps, audit-Keeps, commit-Keeps)
        depth 40

  pub refund_authorization-Keeps :
      (h : Host) (env : Environment) (q : HttpRequest) (w : RefundAnswers) (wanted : String)
      (requested : Option ℕ)
      → Keeps (Ledger id 0 0) (refund_authorization h env q w wanted requested)
  unfolding refund_authorization
  refund_authorization-Keeps h env q w wanted requested = Keeps-bind _ _ (Keeps-gets _) (λ row.
      Keeps-bind _ _ (Keeps-require _ _) (λ t.
        Keeps-bind _ _ (resolve_session_token-Keeps id 0 h q) (λ token.
          Keeps-bind _ _ (authenticate-Keeps id 0 h env q token _) (λ u.
            Keeps-bind _ _ (Keeps-raise_if _ _) (λ v.
              Keeps-bind _ _ (Keeps-require _ _) (λ payment_id.
                Keeps-bind _ _ (Keeps-gets _) (λ auth. Keeps-bind _ _ (Keeps-raise_if _ _) (λ x.
                  Keeps-bind _ _ (Keeps-answer _) (λ y.
                    Keeps-bind _ _ (call-Keeps id 0 0 _ refl)
                      (λ z. refunded t auth payment_id _ w.refund))))))))))
    where
      refunded :
          (t : ProviderTransaction) (auth : Option BoundedAuthorization) (payment_id : String)
          (amount : ℕ) (r : Read (Option String))
          → Keeps (Ledger id 0 0) (elim r [
            | lost e ↦ do
              set_error wanted (says e)
              commit
              raise (http 502 (record { text = "Provider refund failed: "; about = e }))
            | got refund_id ↦ record_refund h env q w t auth payment_id amount refund_id
          ])
      refunded t auth payment_id amount (lost e) =
          search (keeps_rules, set_error-Keeps, commit-Keeps)
      refunded t auth payment_id amount (got refund_id) =
          record_refund-Keeps h env q w t auth payment_id amount refund_id

module _ (id : String) (h : Host) (e : WebhookEvent) (w : WebhookAnswers) where
  after_webhook-Keeps :
      (wanted : String) (target : TxnState)
      → Keeps (Ledger id 0 0) (after_webhook h e w wanted target)
  unfolding after_webhook
  after_webhook-Keeps wanted target = Keeps-bind _ _ (Keeps-gets _) (λ row.
      Keeps-bind _ _ (Keeps-require _ _) (λ t.
        Keeps-if _ _ _
          (Keeps-bind _ _ (confirm_capture-Keeps id h e.now w.reads t) (λ s. Keeps-pure _))
          (Keeps-pure _)))

  apply_webhook-Keeps :
      (t : ProviderTransaction) (auth : BoundedAuthorization) (order_id event_id : String)
      (target : TxnState)
      → Keeps (Ledger id 0 0) (apply_webhook h e w t auth order_id event_id target)
  unfolding apply_webhook
  apply_webhook-Keeps t auth order_id event_id target =
      search
        (
          keeps_rules, attempt_transition-Keeps, modify_txn-Keeps, audit-Keeps, commit-Keeps,
          after_webhook-Keeps,
        )
        depth 40

  reject_value-Keeps :
      (auth : BoundedAuthorization) (order_id : String)
      → Keeps (Ledger id 0 0) (reject_value h e w auth order_id)
  unfolding reject_value
  reject_value-Keeps auth order_id = search (keeps_rules, audit-Keeps, commit-Keeps)

  guard_org-Keeps :
      (t : ProviderTransaction) (auth : BoundedAuthorization) (order_id : String)
      → Keeps (Ledger id 0 0) (guard_org h e w t auth order_id)
  unfolding guard_org
  guard_org-Keeps t auth order_id = Keeps-elim _ _ _ (Keeps-pure _) (λ (expected, actual).
      Keeps-bind _ _ (audit-Keeps id 0 _ _ _)
        (λ u. Keeps-bind _ _ (commit-Keeps id 0) (λ v. Keeps-raise _)))

  handle_event-Keeps :
      (t : ProviderTransaction) (auth : BoundedAuthorization) (order_id : String)
      → Keeps (Ledger id 0 0) (handle_event h e w t auth order_id)
  unfolding handle_event
  handle_event-Keeps t auth order_id = Keeps-bind _ _ (guard_org-Keeps t auth order_id) (λ u.
      Keeps-bind _ _ (Keeps-gets _) (λ seen. Keeps-if _ _ _ (Keeps-pure _) (
        Keeps-elim (webhook_target e.event) _ _ (Keeps-pure _) (λ target.
          Keeps-if _ _ _ (reject_value-Keeps auth order_id)
            (apply_webhook-Keeps t auth order_id _ target)))))

  verify_event-Keeps : Keeps (Ledger id 0 0) (verify_event h e w)
  unfolding verify_event
  verify_event-Keeps = outcome w.provider_for
    where
      outcome :
          (r : Result Unit)
          → Keeps (Ledger id 0 0) (elim r [
            | err (not_configured m) ↦ raise (http 500 (says "Webhook secret is not configured"))
            | err other_error ↦ raise other_error
            | ok u ↦
                raise_if (not w.signature_is_valid) (http 401 (says "Invalid webhook signature"))
          ])
      outcome (ok u) = Keeps-raise_if _ _
      outcome (err (http s m)) = Keeps-raise _
      outcome (err (paari s c m)) = Keeps-raise _
      outcome (err (timeout m)) = Keeps-raise _
      outcome (err (not_configured m)) = Keeps-raise _
      outcome (err (other m)) = Keeps-raise _
      outcome (err agentic_unavailable) = Keeps-raise _

  pub razorpay_webhook-Keeps : Keeps (Ledger id 0 0) (razorpay_webhook h e w)
  unfolding razorpay_webhook
  razorpay_webhook-Keeps = Keeps-bind _ _ (Keeps-raise_if _ _) (λ u.
      Keeps-bind _ _ (Keeps-raise_if _ _) (λ v. Keeps-bind _ _ verify_event-Keeps (λ x.
        Keeps-elim _ _ _ (Keeps-pure _) (λ order_id. Keeps-bind _ _ (Keeps-gets _) (λ row.
          Keeps-elim row _ _ (Keeps-pure _) (λ t. Keeps-bind _ _ (Keeps-gets _) (λ auth.
            Keeps-elim auth _ _ (Keeps-pure _) (λ a. handle_event-Keeps t a order_id))))))))
