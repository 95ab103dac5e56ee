-- ===== src/Payments/Consume/Reads.antt =====
-- The direct reads of app/reconcile.py leave the account of every authorization as it is.
use paari_payments_protocol.Prelude.{number_eq, text_eq, ℕ, String, Option, none, some}
use paari_payments_protocol.Transitions.{TxnState}
use paari_payments_protocol.Models.Rows.{BoundedAuthorization, ProviderTransaction, Detail, says}
use paari_payments_protocol.Host.{Host}
use paari_payments_protocol.Exec.{pure, other, raise, commit, ◌>>◌, ◌>>=◌}
use paari_payments_protocol.Exec.Keeps.{
  Keeps, keeps_rules, Keeps-bind, Keeps-gets, Keeps-if, Keeps-elim, Keeps-pure, Keeps-raise,
  Keeps-when,
}
use paari_payments_protocol.Mandates.Signature.{present}
use paari_payments_protocol.Payments.Execution.{set_error, modify_txn}
use paari_payments_protocol.Payments.Settlement.{ProviderPayment}
use paari_payments_protocol.Payments.Consume.Ledger.{Ledger, commit-Keeps}
use paari_payments_protocol.Payments.Consume.Guards.{audit-Keeps, modify_txn-Keeps, set_error-Keeps}
use paari_payments_protocol.Reconcile.{
  amount_differs, currency_differs, provider_status_to_state, attempt_transition, read_payment,
  audit_txn, answer_state, close_as, value_mismatch, finish, apply_target, apply_payment,
  apply_read, recover_order, reconcile_open, reconcile_one, Read, ProviderOrderStatus, ReadAnswers,
  got, lost,
}
use paari_payments_protocol.Reconcile.Confirm.{
  state_now, confirmation_mismatch, settle, unsettle, confirm_payment, confirm_read,
  confirm_capture,
}

module _ (id : String) where
  pub attempt_transition-Keeps :
      (wanted : String) (to : TxnState) → Keeps (Ledger id 0 0) (attempt_transition wanted to)
  unfolding attempt_transition
  attempt_transition-Keeps wanted to = search (keeps_rules, modify_txn-Keeps)

  pub audit_txn-Keeps :
      (h : Host) (now : ℕ) (t : ProviderTransaction) (kind : String) (detail : Detail)
      → Keeps (Ledger id 0 0) (audit_txn h now t kind detail)
  unfolding audit_txn
  audit_txn-Keeps h now t kind detail = search (keeps_rules, audit-Keeps)

module _ (id : String) (h : Host) (now : ℕ) where
  state_now-Keeps : (wanted : String) → Keeps (Ledger id 0 0) (state_now h now wanted)
  unfolding state_now
  state_now-Keeps wanted = search keeps_rules

  confirmation_mismatch-Keeps :
      (t : ProviderTransaction) (text : String) (detail : Detail)
      → Keeps (Ledger id 0 0) (confirmation_mismatch h now t text detail)
  unfolding confirmation_mismatch
  confirmation_mismatch-Keeps t text detail =
      search (keeps_rules, set_error-Keeps, audit_txn-Keeps, commit-Keeps, state_now-Keeps)

  settle-Keeps :
      (t : ProviderTransaction) (auth : BoundedAuthorization) (p : ProviderPayment)
      → Keeps (Ledger id 0 0) (settle h now t auth p)
  unfolding settle
  settle-Keeps t auth p =
      search
        (
          keeps_rules, attempt_transition-Keeps, modify_txn-Keeps, audit_txn-Keeps, commit-Keeps,
          state_now-Keeps,
        )
        depth 20

  unsettle-Keeps :
      (t : ProviderTransaction) (p : ProviderPayment) → Keeps (Ledger id 0 0) (unsettle h now t p)
  unfolding unsettle
  unsettle-Keeps t p =
      search
        (
          keeps_rules, attempt_transition-Keeps, modify_txn-Keeps, audit_txn-Keeps, commit-Keeps,
          state_now-Keeps,
        )
        depth 20

  confirm_payment-Keeps :
      (t : ProviderTransaction) (auth : BoundedAuthorization) (p : ProviderPayment)
      → Keeps (Ledger id 0 0) (confirm_payment h now t auth p)
  unfolding confirm_payment
  confirm_payment-Keeps t auth p =
      search
        (keeps_rules, confirmation_mismatch-Keeps, settle-Keeps, unsettle-Keeps, state_now-Keeps)
        depth 20

  confirm_read-Keeps :
      (t : ProviderTransaction) (auth : BoundedAuthorization) (r : Read (Option ProviderPayment))
      → Keeps (Ledger id 0 0) (confirm_read h now t auth r)
  unfolding confirm_read
  confirm_read-Keeps t auth (lost m) =
      search (keeps_rules, set_error-Keeps, commit-Keeps, state_now-Keeps)
  confirm_read-Keeps t auth (got none) = state_now-Keeps _
  confirm_read-Keeps t auth (got (some p)) = confirm_payment-Keeps t auth p

  pub confirm_capture-Keeps :
      (w : ReadAnswers) (t : ProviderTransaction)
      → Keeps (Ledger id 0 0) (confirm_capture h now w t)
  unfolding confirm_capture
  confirm_capture-Keeps w t =
      Keeps-bind _ _ (Keeps-gets _)
        (λ found. Keeps-elim found _ _ (state_now-Keeps _) (λ auth. confirm_read-Keeps t auth _))

module _ (id : String) (h : Host) (now : ℕ) (w : ReadAnswers) (auth : BoundedAuthorization)
    (t : ProviderTransaction) where
  answer_state-Keeps :
      (status : String) → Keeps (Ledger id 0 0) (answer_state h now w auth t status)
  unfolding answer_state
  answer_state-Keeps status = Keeps-bind _ _ (Keeps-gets _) (λ row. Keeps-pure _)

  close_as-Keeps :
      (to : TxnState) (label : String) (ref : Option String)
      → Keeps (Ledger id 0 0) (close_as h now w auth t to label ref)
  unfolding close_as
  close_as-Keeps to label ref =
      search
        (
          keeps_rules, attempt_transition-Keeps, modify_txn-Keeps, audit_txn-Keeps, commit-Keeps,
          answer_state-Keeps,
        )
        depth 20

  value_mismatch-Keeps :
      (p : ProviderPayment) (text : String)
      → Keeps (Ledger id 0 0) (value_mismatch h now w auth t p text)
  unfolding value_mismatch
  value_mismatch-Keeps p text =
      search (keeps_rules, set_error-Keeps, audit_txn-Keeps, commit-Keeps, answer_state-Keeps) depth
        20

  finish-Keeps :
      (target : TxnState) (p : ProviderPayment)
      → Keeps (Ledger id 0 0) (finish h now w auth t target p)
  unfolding finish
  finish-Keeps target p =
      Keeps-bind _ _
        (Keeps-when _ _
          (Keeps-elim (present p.id) _ _ (Keeps-pure _) (λ ref. modify_txn-Keeps id 0 _ _)))
        (λ u. search (keeps_rules, modify_txn-Keeps, commit-Keeps, answer_state-Keeps))

  apply_target-Keeps :
      (target : TxnState) (p : ProviderPayment)
      → Keeps (Ledger id 0 0) (apply_target h now w auth t target p)
  unfolding apply_target
  apply_target-Keeps target p =
      search
        (keeps_rules, finish-Keeps, attempt_transition-Keeps, audit_txn-Keeps, answer_state-Keeps)
        depth 20

  apply_payment-Keeps :
      (p : ProviderPayment) → Keeps (Ledger id 0 0) (apply_payment h now w auth t p)
  unfolding apply_payment
  apply_payment-Keeps p = Keeps-if _ _ _ (close_as-Keeps _ _ _) (
      Keeps-elim (provider_status_to_state (h.lower p.status)) _ _ (answer_state-Keeps _) (λ target.
        Keeps-if (amount_differs auth p.amount) _ _
          (value_mismatch-Keeps p "provider payment amount mismatch")
          (Keeps-if (currency_differs h auth p.currency) _ _
            (value_mismatch-Keeps p "provider payment currency mismatch")
            (apply_target-Keeps target p))))

  apply_read-Keeps :
      (order_id : Option String) (r : Read (Option ProviderPayment))
      → Keeps (Ledger id 0 0) (apply_read h now w auth t order_id r)
  unfolding apply_read
  apply_read-Keeps order_id (lost e) =
      search (keeps_rules, set_error-Keeps, commit-Keeps, answer_state-Keeps)
  apply_read-Keeps order_id (got none) = search (keeps_rules, commit-Keeps, answer_state-Keeps)
  apply_read-Keeps order_id (got (some p)) =
      Keeps-elim _ _ _ (apply_payment-Keeps p) (λ (to, ref). close_as-Keeps to "order_id" ref)

  recover_order-Keeps : Keeps (Ledger id 0 0) (recover_order h now w auth t)
  unfolding recover_order
  recover_order-Keeps = Keeps-if _ _ _ (recovered w.missing_order) (Keeps-pure _)
    where
      recovered :
          (r : Read (Option ProviderOrderStatus))
          → Keeps (Ledger id 0 0) (elim r [
            | lost e ↦ raise (other e)
            | got none ↦ pure t.razorpay_order_id
            | got (some order) ↦ elim (present order.id) [
              | none ↦ pure t.razorpay_order_id
              | some ref ↦ do
                modify_txn t.authorization_id λ u. record u { razorpay_order_id = some ref }
                pure (some ref)
            ]
          ])
      recovered (lost e) = Keeps-raise _
      recovered (got none) = Keeps-pure _
      recovered (got (some order)) =
          Keeps-elim (present order.id) _ _ (Keeps-pure _)
            (λ ref. Keeps-bind _ _ (modify_txn-Keeps id 0 _ _) (λ u. Keeps-pure _))

  reconcile_open-Keeps : Keeps (Ledger id 0 0) (reconcile_open h now w auth t)
  unfolding reconcile_open
  reconcile_open-Keeps = opened w.provider_for
    where
      opened :
          (r : Read Unit)
          → Keeps (Ledger id 0 0) (elim r [
            | lost e ↦ do
              set_error t.authorization_id (says e)
              commit
              answer_state h now w auth t "unreconciled"
            | got u ↦ do
              order_id ← recover_order h now w auth t
              apply_read h now w auth t order_id (read_payment w t.razorpay_payment_id order_id)
          ])
      opened (lost e) = search (keeps_rules, set_error-Keeps, commit-Keeps, answer_state-Keeps)
      opened (got u) = Keeps-bind _ _ recover_order-Keeps (λ order_id. apply_read-Keeps order_id _)

pub reconcile_one-Keeps :
    (id : String) (h : Host) (now : ℕ) (w : ReadAnswers) (wanted : String)
    → Keeps (Ledger id 0 0) (reconcile_one h now w wanted)
unfolding reconcile_one
reconcile_one-Keeps id h now w wanted = Keeps-bind _ _ (Keeps-gets _) (λ row.
    Keeps-elim row _ _ (Keeps-pure _) (λ t. Keeps-if _ _ _ (Keeps-pure _) (
      Keeps-bind _ _ (Keeps-gets _)
        (λ auth. Keeps-elim auth _ _ (Keeps-pure _) (λ a. reconcile_open-Keeps id h now w a t)))))
