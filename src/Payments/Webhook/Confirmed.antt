-- ===== src/Payments/Webhook/Confirmed.antt =====
-- A webhook settles nothing by itself: without a direct read that says `captured` no transaction
-- becomes paid.
use paari_payments_protocol.Prelude.{
  refl, ◌||◌, ◌==◌, number_eq, text_eq, length, select, update_where, ℕ, ◌≤◌, String, ◌≡◌, Bool,
  true, false, ◌||◌, Option, none, some, List, [], ◌∷◌, arith, if◌then◌else◌, text_or, is_some, not,
}
use paari_payments_protocol.Transitions.{TxnState, is_state, paid, provider_unknown}
use paari_payments_protocol.Models.Rows.{
  says, BoundedAuthorization, ProviderTransaction, Detail, Message, Db,
}
use paari_payments_protocol.Host.{Host}
use paari_payments_protocol.Audit
use paari_payments_protocol.Exec.{
  modify, commit, audit, serve, Call, Session, Result, ok, err, pure, raise, raise_if, http, paari,
  timeout, not_configured, other, agentic_unavailable,
}
use paari_payments_protocol.Exec.Keeps.{
  Keeps, keeps_rules, Keeps-bind, Keeps-gets, Keeps-require, Keeps-if, Keeps-elim, Keeps-pure,
  Keeps-raise, Keeps-raise_if,
}
use paari_payments_protocol.Mandates.Signature.{present}
use paari_payments_protocol.Payments.Execution.{modify_txn, set_error}
use paari_payments_protocol.Payments.Webhook.{
  webhook_target, guard_org, reject_value, after_webhook, apply_webhook, handle_event, verify_event,
  razorpay_webhook, WebhookEvent, WebhookAnswers, unsupported_event,
}
use paari_payments_protocol.Payments.Settlement.{same_value, ProviderPayment}
use paari_payments_protocol.Reconcile.{Read, got, lost, ReadAnswers, attempt_transition, audit_txn}
use paari_payments_protocol.Reconcile.Confirm.{
  state_now, unsettle, confirm_payment, confirm_read, confirm_capture,
}
use paari_payments_protocol.Payments.Webhook.Announced.{
  is_paid, paid_rows, says_captured, reads_captured, read_payment-captured,
}

record PaidAtMost (n : ℕ) (s : Session) : Type 0 where
  work : paid_rows s.work ≤ n
  saved : paid_rows s.saved ≤ n

paid-update_where :
    (p : ProviderTransaction → Bool) (f : ProviderTransaction → ProviderTransaction)
    → ((t : ProviderTransaction) → is_paid (f t) ≡ true → is_paid t ≡ true)
    → (xs : List ProviderTransaction)
    → length (select is_paid (update_where p f xs)) ≤ length (select is_paid xs)
paid-update_where p f mono [] = ground arith
paid-update_where p f mono (x ∷ xs) = ground (arith, paid-update_where p f mono xs, mono x)

module _ (n : ℕ) where
  commit-paid : Keeps (PaidAtMost n) commit
  unfolding commit
  commit-paid = record { holds = λ s p. record { work = p.work; saved = p.work } }

  audit-paid : (h : Host) (now : ℕ) (e : Audit.Entry) → Keeps (PaidAtMost n) (audit h now e)
  unfolding audit Audit.record_audit modify
  audit-paid h now e = record { holds = λ s p. record { work = p.work; saved = p.saved } }

  modify_txn-paid :
      (id : String) (f : ProviderTransaction → ProviderTransaction)
      → ((t : ProviderTransaction) → is_paid (f t) ≡ true → is_paid t ≡ true)
      → Keeps (PaidAtMost n) (modify_txn id f)
  unfolding modify_txn modify
  modify_txn-paid id f mono = record {
    holds = λ s p. record {
      work = omega (
        arith,
        p.work,
        paid-update_where (λ t. t.authorization_id == id) f mono s.work.transactions,
      );
      saved = p.saved;
    };
  }

  set_error-paid : (id : String) (m : Message) → Keeps (PaidAtMost n) (set_error id m)
  unfolding set_error
  set_error-paid id m = modify_txn-paid id _ (λ t e. e)

  attempt_transition-paid :
      (id : String) (to : TxnState)
      → is_state to paid ≡ false
      → Keeps (PaidAtMost n) (attempt_transition id to)
  unfolding attempt_transition
  attempt_transition-paid id to ne = Keeps-bind _ _ (Keeps-gets _) (λ row.
      Keeps-bind _ _ (Keeps-require _ _) (λ t.
        Keeps-if _ _ _
          (Keeps-bind _ _ (modify_txn-paid id _ (λ u e. grind (arith, ne, e))) (λ x. Keeps-pure _))
          (Keeps-pure _)))

  audit_txn-paid :
      (h : Host) (now : ℕ) (t : ProviderTransaction) (kind : String) (detail : Detail)
      → Keeps (PaidAtMost n) (audit_txn h now t kind detail)
  unfolding audit_txn
  audit_txn-paid h now t kind detail = search (keeps_rules, audit-paid)

  state_now-paid : (h : Host) (now : ℕ) (id : String) → Keeps (PaidAtMost n) (state_now h now id)
  unfolding state_now
  state_now-paid h now id = search keeps_rules

  unsettle-paid :
      (h : Host) (now : ℕ) (t : ProviderTransaction) (p : ProviderPayment)
      → Keeps (PaidAtMost n) (unsettle h now t p)
  unfolding unsettle
  unsettle-paid h now t p =
      Keeps-bind _ _ (attempt_transition-paid _ provider_unknown refl) (λ moved.
        Keeps-if _ _ _ (state_now-paid h now _) (
          Keeps-bind _ _ (modify_txn-paid _ _ (λ u e. e))
            (λ x. search (keeps_rules, audit_txn-paid, commit-paid, state_now-paid))))

  confirm_payment-paid :
      (h : Host) (now : ℕ) (t : ProviderTransaction) (auth : BoundedAuthorization)
      (p : ProviderPayment)
      → (h.lower p.status == "captured") ≡ false
      → Keeps (PaidAtMost n) (confirm_payment h now t auth p)
  unfolding confirm_payment
  confirm_payment-paid h now t auth p e =
      rw e (Keeps-if _ _ _ (unsettle-paid h now t p) (state_now-paid h now _))

  confirm_read-paid :
      (h : Host) (now : ℕ) (t : ProviderTransaction) (auth : BoundedAuthorization)
      (r : Read (Option ProviderPayment))
      → says_captured h r ≡ false
      → Keeps (PaidAtMost n) (confirm_read h now t auth r)
  unfolding confirm_read
  confirm_read-paid h now t auth (lost m) e =
      Keeps-bind _ _ (set_error-paid _ _)
        (λ u. Keeps-bind _ _ commit-paid (λ v. state_now-paid h now _))
  confirm_read-paid h now t auth (got none) e = state_now-paid h now _
  confirm_read-paid h now t auth (got (some p)) e = confirm_payment-paid h now t auth p e

  confirm_capture-paid :
      (h : Host) (now : ℕ) (w : ReadAnswers) (t : ProviderTransaction)
      → reads_captured h w ≡ false
      → Keeps (PaidAtMost n) (confirm_capture h now w t)
  unfolding confirm_capture
  confirm_capture-paid h now w t e = Keeps-bind _ _ (Keeps-gets _) (λ found.
      Keeps-elim found _ _ (state_now-paid h now _)
        (λ auth. confirm_read-paid h now t auth _ (read_payment-captured h w _ _ e)))

module _ (n : ℕ) (h : Host) (e : WebhookEvent) (w : WebhookAnswers)
    (unread : reads_captured h w.reads ≡ false) where
  after_webhook-paid :
      (id : String) (target : TxnState) → Keeps (PaidAtMost n) (after_webhook h e w id target)
  unfolding after_webhook
  after_webhook-paid id target = Keeps-bind _ _ (Keeps-gets _) (λ row.
      Keeps-bind _ _ (Keeps-require _ _) (λ t.
        Keeps-if _ _ _
          (Keeps-bind _ _ (confirm_capture-paid n h e.now w.reads t unread) (λ s. Keeps-pure _))
          (Keeps-pure _)))

  -- No event announces PAID.
  webhook_target-unpaid :
      (event : String) (to : TxnState) → webhook_target event ≡ some to → is_state to paid ≡ false
  webhook_target-unpaid event to eq = ground (arith, eq)

  apply_webhook-paid :
      (t : ProviderTransaction) (auth : BoundedAuthorization) (order_id event_id : String)
      (target : TxnState)
      → is_state target paid ≡ false
      → Keeps (PaidAtMost n) (apply_webhook h e w t auth order_id event_id target)
  unfolding apply_webhook
  apply_webhook-paid t auth order_id event_id target ne =
      Keeps-bind _ _ (attempt_transition-paid n _ target ne) (λ moved.
        Keeps-bind _ _ (Keeps-gets _) (λ agent. Keeps-bind _ _ (Keeps-gets _) (λ parent.
          Keeps-bind _ _ (Keeps-gets _) (λ causal. Keeps-if _ _ _ (Keeps-pure _) (
            Keeps-bind _ _ (modify_txn-paid n _ _ (λ u p. p)) (λ x.
              Keeps-bind _ _ (audit-paid n _ _ _)
                (λ y. Keeps-bind _ _ (commit-paid n) (λ z. after_webhook-paid _ target))))))))

  reject_value-paid :
      (auth : BoundedAuthorization) (order_id : String)
      → Keeps (PaidAtMost n) (reject_value h e w auth order_id)
  unfolding reject_value
  reject_value-paid auth order_id = search (keeps_rules, audit-paid, commit-paid)

  guard_org-paid :
      (t : ProviderTransaction) (auth : BoundedAuthorization) (order_id : String)
      → Keeps (PaidAtMost n) (guard_org h e w t auth order_id)
  unfolding guard_org
  guard_org-paid t auth order_id = Keeps-elim _ _ _ (Keeps-pure _) (λ (expected, actual).
      Keeps-bind _ _ (audit-paid n _ _ _)
        (λ u. Keeps-bind _ _ (commit-paid n) (λ v. Keeps-raise _)))

  handle_event-paid :
      (t : ProviderTransaction) (auth : BoundedAuthorization) (order_id : String)
      → Keeps (PaidAtMost n) (handle_event h e w t auth order_id)
  unfolding handle_event
  handle_event-paid t auth order_id = Keeps-bind _ _ (guard_org-paid t auth order_id) (λ u.
      Keeps-bind _ _ (Keeps-gets _)
        (λ seen. Keeps-if _ _ _ (Keeps-pure _) (targeted (webhook_target e.event) refl)))
    where
      targeted :
          (o : Option TxnState)
          → webhook_target e.event ≡ o
          → Keeps (PaidAtMost n) (elim o [
            | none ↦ pure unsupported_event
            | some target ↦
                if not (is_some e.payment.currency)
                  || not (same_value h auth e.payment.amount e.payment.currency)
                then reject_value h e w auth order_id
                else apply_webhook h e w t auth order_id
                    (text_or (present e.event_id) e.body_digest)
                    target
          ])
      targeted none eq = Keeps-pure _
      targeted (some target) eq =
          Keeps-if _ _ _ (reject_value-paid auth order_id)
            (apply_webhook-paid t auth order_id _ target (webhook_target-unpaid e.event target eq))

  verify_event-paid : Keeps (PaidAtMost n) (verify_event h e w)
  unfolding verify_event
  verify_event-paid = outcome w.provider_for
    where
      outcome :
          (r : Result Unit)
          → Keeps (PaidAtMost n) (elim r [
            | err (not_configured m) ↦ raise (http 500 (says "Webhook secret is not configured"))
            | err other_error ↦ raise other_error
            | ok u ↦
                raise_if (not w.signature_is_valid) (http 401 (says "Invalid webhook signature"))
          ])
      outcome (ok u) = Keeps-raise_if _ _
      outcome (err (http s m)) = Keeps-raise _
      outcome (err (paari s c m)) = Keeps-raise _
      outcome (err (timeout m)) = Keeps-raise _
      outcome (err (not_configured m)) = Keeps-raise _
      outcome (err (other m)) = Keeps-raise _
      outcome (err agentic_unavailable) = Keeps-raise _

  razorpay_webhook-paid : Keeps (PaidAtMost n) (razorpay_webhook h e w)
  unfolding razorpay_webhook
  razorpay_webhook-paid = Keeps-bind _ _ (Keeps-raise_if _ _) (λ u.
      Keeps-bind _ _ (Keeps-raise_if _ _) (λ v. Keeps-bind _ _ verify_event-paid (λ x.
        Keeps-elim _ _ _ (Keeps-pure _) (λ order_id. Keeps-bind _ _ (Keeps-gets _) (λ row.
          Keeps-elim row _ _ (Keeps-pure _) (λ t.
            Keeps-bind _ _ (Keeps-gets _) (λ auth.
              Keeps-elim auth _ _ (Keeps-pure _) (λ a. handle_event-paid t a order_id))))))))

-- If no read of the provider says `captured` (neither of the payment nor of the last attempt on the
-- order), then no webhook, whatever its body and its signature, makes the number of paid
-- transactions that are committed grow.
pub webhook_alone_never_settles :
    (h : Host) (e : WebhookEvent) (w : WebhookAnswers) (db : Db) (calls : List Call)
    → reads_captured h w.reads ≡ false
    → let (result, db', calls') = serve (razorpay_webhook h e w) db calls in
      paid_rows db' ≤ paid_rows db
unfolding serve
webhook_alone_never_settles h e w db calls unread =
    ((razorpay_webhook-paid (paid_rows db) h e w unread).holds
      (record { work = db; saved = db; calls = calls })
      (record { work = omega arith; saved = omega arith })).saved
