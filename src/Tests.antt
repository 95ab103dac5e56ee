-- ===== src/Tests.antt =====
-- Tests on a small database, and the theorems applied to it.
mod Trust
mod Consent
mod Data
mod Routes
mod Surface
use text.Mathlib.Text.{starts_with}
use paari_payments_protocol.Prelude.{
  eq_iff, ◌==◌, number_eq, text_eq, select, is_empty, All, ◌+◌, ◌≤◌, String, ◌≡◌, refl, ◌↔◌, ◌⊎◌,
  true, false, none, some, [], ◌∷◌, arith, List, text_or,
}
use paari_payments_protocol.Transitions.{
  provider_submitted, captured, paid, refunded, reversed, transition, member,
}
use paari_payments_protocol.Transitions.Paths.{
  stop, step, IsSettled, paid_is_final, refund_needs_paid, terminal_accepts,
}
use paari_payments_protocol.Governance.{allow}
use paari_payments_protocol.Models.{AgentStatus, ParentStatus, MandateStatus, UserPaymentMandate}
use paari_payments_protocol.Models.Rows.{
  PaymentIntent, BoundedAuthorization, ProviderTransaction, Db,
}
use paari_payments_protocol.Host.{Host}
use paari_payments_protocol.Config.{Environment}
use paari_payments_protocol.Exec.{serve, ok}
use paari_payments_protocol.Mandates.{Proposal, MandateState, resolve_state, none_ever, in_scope}
use paari_payments_protocol.Mandates.Check.{
  refusal, check_currency, check_amount, check_merchant, check_category, check_hourly, check_daily,
  check_merchant_budget, check_category_budget,
}
use paari_payments_protocol.Mandates.Signature.{check_mandate_signature}
use paari_payments_protocol.Mandates.Check.Permits.{Permits, refusal-none_iff, HasRoom}
use paari_payments_protocol.Mandates.Evaluate.{evaluate_mandate}
use paari_payments_protocol.Mandates.Evaluate.Tightest.{
  evaluate_mandate-ok_iff, state-evaluate_mandate, live_mandates,
}
use paari_payments_protocol.Mandates.Spend.{
  spend_since, daily_spend, hourly_spend, merchant_daily_spend,
}
use paari_payments_protocol.Mandates.Budget.{
  with_intent, IsCharged, Fits, accepted_total, accepted_within_budgets, charged_in_full,
  currency_spelling_uncharged,
}
use paari_payments_protocol.Audit.{Entry, record_audit, verify_chain}
use paari_payments_protocol.Audit.Chain.{record_audit_verified}
use paari_payments_protocol.Payments.Authenticate.{HttpRequest}
use paari_payments_protocol.Payments.Settlement.{ProviderPayment}
use paari_payments_protocol.Payments.Consume.{ConsumeAnswers}
use paari_payments_protocol.Payments.Consume.Ledger.{charges, used}
use paari_payments_protocol.Payments.History.{
  Event, consume, webhook, reconcile, handle_all, charged_at_most_once,
}
use paari_payments_protocol.Payments.Webhook.{WebhookEvent, WebhookAnswers, razorpay_webhook}
use paari_payments_protocol.Payments.Webhook.Confirmed.{webhook_alone_never_settles}
use paari_payments_protocol.Payments.Webhook.Announced.{paid_rows}
use paari_payments_protocol.Reconcile.{got, lost, ReadAnswers}
use paari_payments_protocol.Tests.Data.{
  plain, bare, mandate, intent, proposal, small_db, submitted_db, capture_event, unreadable,
  history, entry,
}

paid_is_final_example : IsSettled reversed
unfolding transition
paid_is_final_example = paid_is_final (step {t = reversed} refl stop)

refund_needs_paid_example :
    member paid (provider_submitted ∷ captured ∷ paid ∷ refunded ∷ []) ≡ true
unfolding transition
refund_needs_paid_example = refund_needs_paid (
    step {t = provider_submitted} refl
      (step {t = captured} refl (step {t = paid} refl (step {t = refunded} refl stop))))

terminal_accepts_example :
    (transition paid refunded ≡ some refunded)
    ↔ ((paid ≡ paid) × ((refunded ≡ refunded) ⊎ (refunded ≡ reversed)))
terminal_accepts_example = terminal_accepts paid refunded refl

refusal-none_iff_example :
    (refusal plain small_db 1000 false mandate proposal ≡ none)
    ↔ Permits plain small_db 1000 false mandate proposal
refusal-none_iff_example = refusal-none_iff plain small_db 1000 mandate proposal false

evaluate_mandate-ok_iff_example :
    ((evaluate_mandate plain 1000 false small_db true small_db "agent-1" "default" proposal).ok
      ≡ true)
    ↔ ((is_empty (live_mandates small_db "agent-1" "default" 1000) ≡ false)
        × (true ≡ true)
        × (is_empty (live_mandates small_db "agent-1" "default" 1000) ≡ false)
        × All
            (λ m. Permits plain small_db 1000 false m proposal)
            (live_mandates small_db "agent-1" "default" 1000))
evaluate_mandate-ok_iff_example =
    evaluate_mandate-ok_iff plain 1000 false small_db small_db "agent-1" "default" proposal true

state-evaluate_mandate_example :
    ((evaluate_mandate plain 1000 false small_db true small_db "agent-1" "default" proposal).state
      ≡ resolve_state small_db "agent-1" "default" 1000)
    × ((resolve_state small_db "agent-1" "default" 1000 ≡ MandateState.active)
        ↔ (is_empty (live_mandates small_db "agent-1" "default" 1000) ≡ false))
    × ((resolve_state small_db "agent-1" "default" 1000 ≡ none_ever)
        ↔ (is_empty (select (in_scope small_db "agent-1" "default") small_db.mandates) ≡ true))
state-evaluate_mandate_example =
    state-evaluate_mandate plain 1000 false small_db "agent-1" "default" proposal

intent-IsCharged : IsCharged mandate 1000 (intent "INR")
intent-IsCharged = record {
  same_org = refl;
  same_agent = refl;
  same_currency = refl;
  not_denied = refl;
  made_now = refl;
  begun = omega arith;
}

-- Three payments of 4000: the first is accepted, and leaves too little in the hour for another.
accepted_within_budgets_example : Fits plain 1000 false mandate small_db (
    accepted_total plain 1000 false mandate small_db
      (intent "INR" ∷ intent "INR" ∷ intent "INR" ∷ []))
unfolding daily_spend spend_since hourly_spend
accepted_within_budgets_example =
    accepted_within_budgets plain 1000 false mandate
      (intent "INR" ∷ intent "INR" ∷ intent "INR" ∷ []) small_db
      (intent-IsCharged, (intent-IsCharged, (intent-IsCharged, tt))) (omega arith, omega arith)

charged_in_full_example :
    (daily_spend plain (with_intent small_db (intent "INR")) mandate 1000
      ≡ daily_spend plain small_db mandate 1000 + 4000)
    × (hourly_spend plain (with_intent small_db (intent "INR")) mandate 1000
        ≡ hourly_spend plain small_db mandate 1000 + 4000)
charged_in_full_example =
    charged_in_full plain small_db mandate 1000 (intent "INR") intent-IsCharged

currency_spelling_uncharged_example :
    spend_since plain (with_intent small_db (intent "inr")) mandate 100 1000 none none
    ≡ spend_since plain small_db mandate 100 1000 none none
currency_spelling_uncharged_example =
    currency_spelling_uncharged plain small_db mandate 100 1000 none none (intent "inr")
      (λ e. ground (arith, (eq_iff "inr" "INR").1 e))

record_audit_verified_example :
    verify_chain plain (record_audit plain 1000 entry small_db) "txn-1" ≡ true
unfolding verify_chain
record_audit_verified_example = record_audit_verified plain 1000 entry small_db "txn-1" refl

abbrev pub audited_db : Db
audited_db = record_audit plain 1000 entry small_db

charged_at_most_once_example :
    let (db, calls) = handle_all plain bare history small_db [] in
    (charges "auth-1" calls ≤ used "auth-1" db) × (used "auth-1" db ≤ 1)
charged_at_most_once_example =
    charged_at_most_once "auth-1" plain bare history small_db []
      (record { within = ((omega arith, omega arith), tt); unique = omega arith }) (omega arith)

webhook_alone_never_settles_example :
    let (result, db, calls) =
      serve (razorpay_webhook plain capture_event unreadable) submitted_db [] in
    paid_rows db ≤ paid_rows submitted_db
webhook_alone_never_settles_example =
    webhook_alone_never_settles plain capture_event unreadable submitted_db [] refl
