-- ===== src/Reconcile.antt =====
-- app/reconcile.py: the direct reads that settle a transaction after the provider was asked.
pub mod Confirm
pub mod Worker
pub mod Manual
use paari_payments_protocol.Prelude.{
  if◌then◌else◌, ◌==◌, number_eq, text_eq, first, get_last?, is_some, contains, ℕ, String, Bool,
  true, false, not, ◌&&◌, Option, none, some, List, [], ◌∷◌,
}
use paari_payments_protocol.Transitions.{
  TxnState, is_state, is_terminal, transition, provider_authorized, provider_unknown, failed,
  captured, paid, declined, cancelled, expired,
}
use paari_payments_protocol.Models.{Agent, ParentAuthority}
use paari_payments_protocol.Models.Rows.{
  BoundedAuthorization, ProviderTransaction, Detail, Value, Message, says, Db, str, num, null,
  txn_state,
}
use paari_payments_protocol.Host.{Host}
use paari_payments_protocol.Audit
use paari_payments_protocol.Exec.{
  Exec, pure, raise, gets, ◌>>=◌, ◌>>◌, modify, commit, require, when, audit, other, answer,
}
use paari_payments_protocol.Mandates.Signature.{present}
use paari_payments_protocol.Payments.Authenticate.{parent_for, find_agent}
use paari_payments_protocol.Payments.Records.{parent_id_of}
use paari_payments_protocol.Payments.Execution.{find_txn, modify_txn, no_row, set_error}
use paari_payments_protocol.Payments.Settlement.{ProviderPayment}
use paari_payments_protocol.Payments.Consume.{find_authorization}

-- What a read of the provider gives: a value, or the text of the exception that it raises.
pub data Read (A : Type 0) : Type 0 where
  got : A → Read A
  lost : String → Read A

pub record ProviderOrderStatus : Type 0 where
  pub id : Option String
  pub status : String

-- What the provider answers during one reconciliation; `none` is an empty answer.
pub record ReadAnswers : Type 0 where
  -- get_provider(), get_provider_for_org(db, org_id)
  pub provider_for : Read Unit
  pub get_payment : Read (Option ProviderPayment)
  pub fetch_payments : Read (List ProviderPayment)
  -- fetch_order_by_receipt, for a missing order id and for the status of the order
  pub missing_order : Read (Option ProviderOrderStatus)
  pub order_status : Read (Option ProviderOrderStatus)

pub record Outcome : Type 0 where
  pub status : String
  pub state : Option TxnState

-- `_PROVIDER_STATUS_TO_STATE`
abbrev pub provider_status_to_state : String → Option TxnState
provider_status_to_state status =
    if status == "captured"
    then some paid
    else if status == "failed"
    then some failed
    else if status == "authorized"
    then some provider_authorized
    else none

-- `_ORDER_STATUS_TO_STATE`, which the code writes out as two branches
abbrev pub order_status_to_state : String → Option TxnState
order_status_to_state status =
    if status == "cancelled"
    then some cancelled
    else if status == "expired"
    then some expired
    else none

abbrev pub is_decline : String → Bool
is_decline code =
    contains code ("card_declined" ∷ "insufficient_funds" ∷ "bank_declined" ∷ "declined" ∷ [])

-- `try: transition_txn(txn, to) except IllegalTransitionError`: whether the row has moved.
unfoldable pub attempt_transition : String → TxnState → Exec Bool
unfolding modify_txn
attempt_transition id to = do
  row ← gets (find_txn id)
  t ← require row no_row
  if is_some (transition t.state to)
      then (do modify_txn id λ u. record u { state = to }; pure true)
      else pure false

-- The payment that the row refers to: by its payment id, else the last attempt on its order.
unfoldable pub read_payment :
    ReadAnswers → Option String → Option String → Read (Option ProviderPayment)
read_payment w payment_id order_id = elim (present payment_id) [
  | some p ↦ w.get_payment
  | none ↦ elim (present order_id) [
    | none ↦ got none
    | some o ↦ elim (w.fetch_payments) [ lost e ↦ lost e | got attempts ↦ got (get_last? attempts) ]
  ]
]

abbrev pub amount_differs : BoundedAuthorization → Option ℕ → Bool
amount_differs auth none = false
amount_differs auth (some a) = not (a == auth.amount_minor_units)

abbrev pub currency_differs : Host → BoundedAuthorization → Option String → Bool
currency_differs h auth currency = elim (present currency) [
  | none ↦ false
  | some c ↦ not (h.upper c == h.upper auth.currency)
]

abbrev pub num? : Option ℕ → Value
num? none = null
num? (some n) = num n

module _ (h : Host) (now : ℕ) where
  -- `_trace_key` and `_audit`
  unfoldable pub audit_txn : ProviderTransaction → String → Detail → Exec Unit
  audit_txn t kind detail = do
    auth ← gets (find_authorization t.authorization_id)
    agent ← gets (find_agent t.agent_id)
    parent ← gets λ db. elim agent [ none ↦ none | some a ↦ parent_for a db ]
    audit h now (record {
      transaction_id = elim auth [ none ↦ t.authorization_id | some a ↦ a.transaction_id ];
      agent_id = t.agent_id;
      parent_id = parent_id_of parent;
      kind = kind;
      detail = detail;
      org_id = some t.org_id;
    })

module _ (h : Host) (now : ℕ) (w : ReadAnswers) (auth : BoundedAuthorization)
    (t : ProviderTransaction) where
  abbrev id : String
  id = t.authorization_id

  unfoldable pub answer_state : String → Exec Outcome
  answer_state status = do
    row ← gets (find_txn t.authorization_id)
    pure (record { status = status; state = elim row [ none ↦ none | some u ↦ some u.state ] })

  -- A status of the order or of the payment that ends the transaction.
  unfoldable pub close_as : TxnState → String → Option String → Exec Outcome
  unfolding attempt_transition audit_txn answer_state
  close_as to label ref = do
    moved ← attempt_transition id to
    if not moved then answer_state "unreconciled" else do
      modify_txn id λ u. record u { reconciled_at = some now; updated_at = now }
      audit_txn h now t "reconciled" (
          ("from_state", txn_state t.state)
          ∷ ("to_state", txn_state to)
          ∷ (label, Audit.opt ref)
          ∷ ("provider_environment", str t.provider_environment)
          ∷ [])
      commit
      answer_state "reconciled"

  unfoldable pub value_mismatch : ProviderPayment → String → Exec Outcome
  unfolding audit_txn answer_state
  value_mismatch p text = do
    set_error id (says text)
    audit_txn h now t "reconcile_value_mismatch" (
        ("provider_amount", num? p.amount)
        ∷ ("authorized_amount", num auth.amount_minor_units)
        ∷ ("provider_currency", Audit.opt p.currency)
        ∷ ("authorized_currency", str auth.currency)
        ∷ [])
    commit
    answer_state "unreconciled"

  -- What follows the move, or the absence of one: the payment id of a settled row, the times.
  unfoldable pub finish : TxnState → ProviderPayment → Exec Outcome
  unfolding answer_state
  finish target p = do
    when (is_state target paid) (elim (present p.id) [
      | none ↦ pure tt
      | some ref ↦ modify_txn id λ u. record u { razorpay_payment_id = some ref }
    ])
    modify_txn id λ u. record u { reconciled_at = some now; updated_at = now }
    commit
    answer_state "reconciled"

  -- The provider's word is taken if it matches the authorization.
  unfoldable pub apply_target : TxnState → ProviderPayment → Exec Outcome
  unfolding attempt_transition audit_txn finish answer_state
  apply_target target p = if is_state target t.state then finish target p else do
    moved ← attempt_transition id target
    causal ← gets λ db. Audit.causal_labels db t.intent_id
    if not moved then answer_state "unreconciled" else do
      audit_txn h now t "reconciled" (
          ("from_state", txn_state t.state)
          ∷ ("to_state", txn_state target)
          ∷ ("payment_id", Audit.opt p.id)
          ∷ ("amount_minor_units", num auth.amount_minor_units)
          ∷ ("currency", str auth.currency)
          ∷ ("provider_environment", str t.provider_environment)
          ∷ causal)
      finish target p

  unfoldable pub apply_payment : ProviderPayment → Exec Outcome
  unfolding close_as value_mismatch apply_target answer_state
  apply_payment p =
      let status = h.lower p.status in
      if status == "failed" && is_decline (h.lower p.error_code)
      then close_as declined "payment_id" p.id
      else elim (provider_status_to_state status) [
        | none ↦ answer_state "unreconciled"
        | some target ↦
            if amount_differs auth p.amount
            then value_mismatch p "provider payment amount mismatch"
            else if currency_differs h auth p.currency
            then value_mismatch p "provider payment currency mismatch"
            else apply_target target p
      ]

  -- The status of the order, where there is one; an exception of this read counts as no order.
  unfoldable pub order_ends : Option String → Option (TxnState × Option String)
  order_ends order_id = elim (present order_id) [
    | none ↦ none
    | some o ↦ elim w.order_status [
      | lost e ↦ none
      | got none ↦ none
      | got (some order) ↦ elim (order_status_to_state (h.lower order.status)) [
        | none ↦ none
        | some to ↦ some (to, order.id)
      ]
    ]
  ]

  unfoldable pub apply_read : Option String → Read (Option ProviderPayment) → Exec Outcome
  unfolding close_as apply_payment order_ends answer_state
  apply_read order_id (lost e) = do set_error id (says e); commit; answer_state "unreconciled"
  apply_read order_id (got none) = do commit; answer_state "unreconciled"
  apply_read order_id (got (some p)) = elim (order_ends order_id) [
    | some (to, ref) ↦ close_as to "order_id" ref
    | none ↦ apply_payment p
  ]

  -- The order id of a row whose execution is unknown is looked up by its receipt.
  unfoldable pub recover_order : Exec (Option String)
  recover_order =
      if is_state t.state provider_unknown && not (is_some (present t.razorpay_order_id))
      then elim w.missing_order [
        | lost e ↦ raise (other e)
        | got none ↦ pure t.razorpay_order_id
        | got (some order) ↦ elim (present order.id) [
          | none ↦ pure t.razorpay_order_id
          | some ref ↦ do
            modify_txn id λ u. record u { razorpay_order_id = some ref }
            pure (some ref)
        ]
      ]
      else pure t.razorpay_order_id

  unfoldable pub reconcile_open : Exec Outcome
  unfolding recover_order apply_read answer_state
  reconcile_open = elim w.provider_for [
    | lost e ↦ do set_error id (says e); commit; answer_state "unreconciled"
    | got u ↦ do
      order_id ← recover_order
      apply_read order_id (read_payment w t.razorpay_payment_id order_id)
  ]

unfoldable pub reconcile_one : Host → ℕ → ReadAnswers → String → Exec Outcome
unfolding reconcile_open
reconcile_one h now w wanted = do
  row ← gets (find_txn wanted)
  elim row [
    | none ↦ pure (record { status = "not_found"; state = none })
    | some t ↦
        if is_terminal t.state
        then pure (record { status = "terminal"; state = some t.state })
        else do
          auth ← gets λ db.
              first
                (λ (a : BoundedAuthorization). a.authorization_id == wanted && a.org_id == t.org_id)
                db.authorizations
          elim auth [
            | none ↦ pure (record { status = "unreconciled"; state = some t.state })
            | some a ↦ reconcile_open h now w a t
          ]
  ]
