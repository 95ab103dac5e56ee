-- ===== src/Reconcile/Confirm.antt =====
-- `confirm_capture` of app/reconcile.py: a capture that the provider announced is asked for once
-- more before it counts as paid.
use paari_payments_protocol.Prelude.{
  Option, if◌then◌else◌, ◌==◌, number_eq, text_eq, ℕ, String, not, none, some, [], ◌∷◌, ◌++◌,
}
use paari_payments_protocol.Transitions.{TxnState, provider_unknown, paid}
use paari_payments_protocol.Models.Rows.{
  Detail, BoundedAuthorization, ProviderTransaction, says, str, num, txn_state,
}
use paari_payments_protocol.Host.{Host}
use paari_payments_protocol.Audit
use paari_payments_protocol.Exec.{Exec, pure, gets, ◌>>=◌, ◌>>◌, commit, require}
use paari_payments_protocol.Mandates.Signature.{present}
use paari_payments_protocol.Payments.Execution.{find_txn, modify_txn, no_row, set_error}
use paari_payments_protocol.Payments.Settlement.{ProviderPayment}
use paari_payments_protocol.Payments.Consume.{find_authorization}
use paari_payments_protocol.Reconcile.{
  Read, got, lost, ReadAnswers, read_payment, amount_differs, currency_differs, num?, audit_txn,
  attempt_transition,
}

module _ (h : Host) (now : ℕ) where
  unfoldable pub state_now : String → Exec TxnState
  state_now id = do row ← gets (find_txn id); t ← require row no_row; pure t.state

  -- A read that contradicts the authorization.
  unfoldable pub confirmation_mismatch : ProviderTransaction → String → Detail → Exec TxnState
  unfolding state_now
  confirmation_mismatch t text detail = do
    set_error t.authorization_id (says text)
    audit_txn h now t "reconcile_value_mismatch"
        (detail ++ ("stage", str "capture_confirmation") ∷ [])
    commit
    state_now t.authorization_id

  -- The provider says `captured`, for this value.
  unfoldable pub settle :
      ProviderTransaction → BoundedAuthorization → ProviderPayment → Exec TxnState
  unfolding state_now
  settle t auth p = do
    let id = t.authorization_id
    moved ← attempt_transition id paid
    if not moved then state_now id else do
      modify_txn id λ u. record u {
        razorpay_payment_id = elim (present p.id) [
          | none ↦ u.razorpay_payment_id
          | some r ↦ some r
        ];
        updated_at = now;
      }
      audit_txn h now t "settlement_confirmed" (
          ("from_state", txn_state t.state)
          ∷ ("to_state", txn_state paid)
          ∷ ("payment_id", Audit.opt p.id)
          ∷ ("amount_minor_units", num auth.amount_minor_units)
          ∷ ("currency", str auth.currency)
          ∷ ("provider_environment", str t.provider_environment)
          ∷ [])
      commit
      state_now id

  -- The provider says that the capture has failed.
  unfoldable pub unsettle : ProviderTransaction → ProviderPayment → Exec TxnState
  unfolding state_now
  unsettle t p = do
    let id = t.authorization_id
    moved ← attempt_transition id provider_unknown
    if not moved then state_now id else do
      modify_txn id λ u. record u {
        last_error = some (record {
          text = "provider reports failed after capture event: ";
          about = p.error_code;
        });
        updated_at = now;
      }
      audit_txn h now t "settlement_not_confirmed" (
          ("from_state", txn_state t.state)
          ∷ ("to_state", txn_state provider_unknown)
          ∷ ("payment_id", Audit.opt p.id)
          ∷ ("provider_status", str (h.lower p.status))
          ∷ ("provider_environment", str t.provider_environment)
          ∷ [])
      commit
      state_now id

  unfoldable pub confirm_payment :
      ProviderTransaction → BoundedAuthorization → ProviderPayment → Exec TxnState
  unfolding confirmation_mismatch settle unsettle state_now
  confirm_payment t auth p =
      let status = h.lower p.status in
      if status == "captured"
      then (if amount_differs auth p.amount
          then confirmation_mismatch t "confirmation amount mismatch" (
              ("provider_amount", num? p.amount)
              ∷ ("authorized_amount", num auth.amount_minor_units)
              ∷ [])
          else if currency_differs h auth p.currency
          then confirmation_mismatch t "confirmation currency mismatch" (
              ("provider_currency", Audit.opt p.currency)
              ∷ ("authorized_currency", str auth.currency)
              ∷ [])
          else settle t auth p)
      else if status == "failed"
      then unsettle t p
      else state_now t.authorization_id

  -- What the read of the payment gives.
  unfoldable pub confirm_read :
      ProviderTransaction → BoundedAuthorization → Read (Option ProviderPayment) → Exec TxnState
  unfolding confirm_payment state_now
  confirm_read t auth (lost e) = do
    set_error t.authorization_id (record { text = "capture confirmation unavailable: "; about = e })
    commit
    state_now t.authorization_id
  confirm_read t auth (got none) = state_now t.authorization_id
  confirm_read t auth (got (some p)) = confirm_payment t auth p

  unfoldable pub confirm_capture : ReadAnswers → ProviderTransaction → Exec TxnState
  unfolding confirm_read state_now
  confirm_capture w t = do
    found ← gets (find_authorization t.authorization_id)
    elim found [
      | none ↦ state_now t.authorization_id
      | some auth ↦ confirm_read t auth (read_payment w t.razorpay_payment_id t.razorpay_order_id)
    ]
