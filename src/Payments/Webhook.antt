-- ===== src/Payments/Webhook.antt =====
-- `razorpay_webhook` of app/routers/payments.py: an event that the provider announces.
pub mod Announced
pub mod Confirmed
use text.Mathlib.Text.{starts_with}
use paari_payments_protocol.Prelude.{
  text_or, is_some, if◌then◌else◌, ◌==◌, number_eq, text_eq, first, any, ℕ, String, Bool, false,
  not, ◌||◌, Option, none, some, [], ◌∷◌,
}
use paari_payments_protocol.Transitions.{TxnState, is_state, provider_authorized, captured, failed}
use paari_payments_protocol.Models.Rows.{
  BoundedAuthorization, ProviderTransaction, says, Db, str, num, txn_state,
}
use paari_payments_protocol.Host.{Host}
use paari_payments_protocol.Audit
use paari_payments_protocol.Exec.{
  Exec, pure, raise, gets, ◌>>=◌, ◌>>◌, commit, require, raise_if, audit, Result, ok, err, http,
  paari, not_configured, webhook_org_mismatch, other,
}
use paari_payments_protocol.Mandates.Signature.{present}
use paari_payments_protocol.Payments.Authenticate.{parent_for, find_agent}
use paari_payments_protocol.Payments.Records.{parent_id_of}
use paari_payments_protocol.Payments.Execution.{find_txn, modify_txn, no_row}
use paari_payments_protocol.Payments.Settlement.{ProviderPayment, same_value}
use paari_payments_protocol.Payments.Consume.{find_authorization}
use paari_payments_protocol.Reconcile.{ReadAnswers, attempt_transition, num?}
use paari_payments_protocol.Reconcile.Confirm.{confirm_capture}

-- A webhook request: its body, parsed, and the outcome of the checks that the provider makes.
pub record WebhookEvent : Type 0 where
  pub now : ℕ
  pub body_is_empty : Bool
  pub body_is_json : Bool
  -- hashlib.sha256(raw).hexdigest()
  pub body_digest : String
  pub event : String
  pub event_id : Option String
  pub account_id : Option String
  pub payment : ProviderPayment

-- What the provider adapter says during one webhook.
pub record WebhookAnswers : Type 0 where
  -- _provider_for: for the organization of the transaction, before and after it is found again
  pub provider_for : Result Unit
  -- provider.verify_webhook(raw, signature)
  pub signature_is_valid : Bool
  -- the adapter's key_id in the org guard; `none` is the RazorpayConfigError
  pub key_id : Option String
  pub reads : ReadAnswers

pub data WebhookOutcome : Type 0 where
  ignored unknown_order unknown_authorization duplicate_ignored : WebhookOutcome
  rejected_value_mismatch illegal_transition unsupported_event : WebhookOutcome
  applied : TxnState → WebhookOutcome

-- The states that the three payment events announce.
abbrev pub webhook_target : String → Option TxnState
webhook_target event_type =
    if event_type == "payment.authorized"
    then some provider_authorized
    else if event_type == "payment.captured"
    then some captured
    else if event_type == "payment.failed"
    then some failed
    else none

-- A row that a query finds by its order id.
abbrev pub find_order : String → Db → Option ProviderTransaction
find_order order_id db =
    first
      (λ (t : ProviderTransaction). elim t.razorpay_order_id [
        | none ↦ false
        | some o ↦ o == order_id
      ])
      db.transactions

abbrev pub has_event : String → ProviderTransaction → Bool
has_event event_id t = elim t.webhook_event_id [ none ↦ false | some e ↦ e == event_id ]

-- The account of the event, where it is an API key, is not the key of the organization.
unfoldable pub org_mismatch : WebhookEvent → WebhookAnswers → Option (String × String)
org_mismatch e w = elim (present e.account_id) [
  | none ↦ none
  | some actual ↦
      if starts_with actual "rzp_"
      then elim (present w.key_id) [
        | none ↦ none
        | some expected ↦ if actual == expected then none else some (expected, actual)
      ]
      else none
]

module _ (h : Host) (e : WebhookEvent) (w : WebhookAnswers) where
  -- The organization's guard, with its audit event.
  unfoldable pub guard_org : ProviderTransaction → BoundedAuthorization → String → Exec Unit
  guard_org t auth order_id = elim (org_mismatch e w) [
    | none ↦ pure tt
    | some (expected, actual) ↦ do
      audit h e.now (record {
        transaction_id = auth.transaction_id;
        agent_id = auth.agent_id;
        parent_id = none;
        kind = "webhook_rejected_org_mismatch";
        detail =
            ("from_state", txn_state t.state)
            ∷ ("to_state", txn_state t.state)
            ∷ ("expected_key_id", str expected)
            ∷ ("actual_account_id", str actual)
            ∷ ("order_id", str order_id)
            ∷ ("payment_id", Audit.opt e.payment.id)
            ∷ ("event_type", str e.event)
            ∷ [];
        org_id = some t.org_id;
      })
      commit
      raise (paari 403 webhook_org_mismatch "Webhook event org does not match authorization owner")
  ]

  unfoldable pub reject_value : BoundedAuthorization → String → Exec WebhookOutcome
  reject_value auth order_id = do
    audit h e.now (record {
      transaction_id = auth.transaction_id;
      agent_id = auth.agent_id;
      parent_id = none;
      kind = "webhook_rejected_value_mismatch";
      detail =
          ("event_type", str e.event)
          ∷ ("order_id", str order_id)
          ∷ ("provider_amount", num? e.payment.amount)
          ∷ ("provider_currency", Audit.opt e.payment.currency)
          ∷ ("authorized_amount", num auth.amount_minor_units)
          ∷ ("authorized_currency", str auth.currency)
          ∷ [];
      org_id = some auth.org_id;
    })
    commit
    pure rejected_value_mismatch

  -- After a capture the provider is asked; any other state stands as announced.
  unfoldable pub after_webhook : String → TxnState → Exec WebhookOutcome
  after_webhook id target = do
    row ← gets (find_txn id)
    t ← require row no_row
    if is_state target captured
        then (do s ← confirm_capture h e.now w.reads t; pure (applied s))
        else pure (applied t.state)

  -- The move to the announced state, recorded and committed.
  unfoldable pub apply_webhook :
      ProviderTransaction → BoundedAuthorization → String → String → TxnState → Exec WebhookOutcome
  unfolding after_webhook
  apply_webhook t auth order_id event_id target = do
    let id = t.authorization_id
    moved ← attempt_transition id target
    agent ← gets (find_agent t.agent_id)
    parent ← gets λ db. elim agent [ none ↦ none | some a ↦ parent_for a db ]
    causal ← gets λ db. Audit.causal_labels db t.intent_id
    if not moved then pure illegal_transition else do
      modify_txn id λ u. record u {
        webhook_event_id = some event_id;
        razorpay_payment_id =
            if e.event == "payment.captured" then e.payment.id else u.razorpay_payment_id;
        updated_at = e.now;
      }
      audit h e.now (record {
        transaction_id = auth.transaction_id;
        agent_id = t.agent_id;
        parent_id = parent_id_of parent;
        kind = "webhook_applied";
        detail =
            ("event_type", str e.event)
            ∷ ("event_id", str event_id)
            ∷ ("from_state", txn_state t.state)
            ∷ ("to_state", txn_state target)
            ∷ ("order_id", str order_id)
            ∷ ("payment_id", Audit.opt e.payment.id)
            ∷ ("amount_minor_units", num auth.amount_minor_units)
            ∷ ("currency", str auth.currency)
            ∷ ("provider_environment", str t.provider_environment)
            ∷ causal;
        org_id = some t.org_id;
      })
      commit
      after_webhook id target

  -- From the transaction and the authorization on.
  unfoldable pub handle_event :
      ProviderTransaction → BoundedAuthorization → String → Exec WebhookOutcome
  unfolding guard_org reject_value apply_webhook
  handle_event t auth order_id = do
    guard_org t auth order_id
    let event_id = text_or (present e.event_id) e.body_digest
    seen ← gets λ db. any (has_event event_id) db.transactions
    if has_event event_id t || seen then pure duplicate_ignored else elim (webhook_target e.event) [
      | none ↦ pure unsupported_event
      | some target ↦
          if not (is_some e.payment.currency)
            || not (same_value h auth e.payment.amount e.payment.currency)
          then reject_value auth order_id
          else apply_webhook t auth order_id event_id target
    ]

  -- `_provider_for` and `verify_webhook`
  unfoldable pub verify_event : Exec Unit
  verify_event = elim w.provider_for [
    | err (not_configured m) ↦ raise (http 500 (says "Webhook secret is not configured"))
    | err other_error ↦ raise other_error
    | ok u ↦ raise_if (not w.signature_is_valid) (http 401 (says "Invalid webhook signature"))
  ]

  unfoldable pub razorpay_webhook : Exec WebhookOutcome
  unfolding verify_event handle_event
  razorpay_webhook = do
    raise_if e.body_is_empty (http 400 (says "Empty webhook body"))
    raise_if (not e.body_is_json) (http 400 (says "Invalid webhook JSON"))
    verify_event
    elim (present e.payment.order_id) [
      | none ↦ pure ignored
      | some order_id ↦ do
        row ← gets (find_order order_id)
        elim row [
          | none ↦ pure unknown_order
          | some t ↦ do
            auth ← gets (find_authorization t.authorization_id)
            elim auth [ none ↦ pure unknown_authorization | some a ↦ handle_event t a order_id ]
        ]
    ]
