-- ===== src/Mandates/View.antt =====
-- `_mandate_view` of app/routers/v1.py, and the two routes that show a mandate and its provider
-- binding to the agent.
pub mod Remaining
use paari_payments_protocol.Prelude.{
  if◌then◌else◌, ◌==◌, number_eq, text_eq, first, sum_of, ℕ, ◌-◌, String, Bool, true, false, ◌&&◌,
  Option, none, some,
}
use paari_payments_protocol.Governance.{MandateReason}
use paari_payments_protocol.Models.{UserPaymentMandate, PaymentInstrumentBinding}
use paari_payments_protocol.Models.Rows.{says, Db}
use paari_payments_protocol.Host.{Host}
use paari_payments_protocol.Config.{Environment}
use paari_payments_protocol.Exec.{Exec, gets, pure, require, raise, ◌>>=◌, http}
use paari_payments_protocol.Payments.Authenticate.{HttpRequest, resolve_session_token, authenticate}
use paari_payments_protocol.Mandates.{active_mandates, resolve_state, MandateState, lapsed}
use paari_payments_protocol.Mandates.Spend.{
  daily_spend, hourly_spend, merchant_daily_spend, category_daily_spend,
}
use paari_payments_protocol.Mandates.Signature.{present, verify_mandate_signature}

-- What a view adds to the mandate's own columns.
pub record MandateView : Type 0 where
  pub mandate : UserPaymentMandate
  pub daily_spent : ℕ
  pub daily_remaining : ℕ
  pub hourly_spent : ℕ
  pub hourly_remaining : Option ℕ
  pub merchant_daily_spent : Option ℕ
  pub category_daily_spent : Option ℕ
  pub signature_valid : Option Bool

-- `n or None`
abbrev pub nonzero : ℕ → Option ℕ
nonzero n = if n == 0 then none else some n

abbrev pub is_accepted : Option MandateReason → Bool
is_accepted none = true
is_accepted (some r) = false

module _ (h : Host) (db : Db) (now : ℕ) where
  -- `max(0, limit - spent)` is the subtraction of the natural numbers
  unfoldable pub mandate_view : UserPaymentMandate → MandateView
  mandate_view m = record {
    mandate = m;
    daily_spent = daily_spend h db m now;
    daily_remaining = m.max_daily_amount - daily_spend h db m now;
    hourly_spent = hourly_spend h db m now;
    hourly_remaining = elim m.max_per_hour [
      | none ↦ none
      | some n ↦ some (n - hourly_spend h db m now)
    ];
    merchant_daily_spent =
        nonzero (sum_of (λ s. merchant_daily_spend h db m s now) m.allowed_merchants);
    category_daily_spent =
        nonzero (sum_of (λ s. category_daily_spend h db m s now) m.allowed_categories);
    signature_valid = elim (present m.signature_b64) [
      | none ↦ none
      | some s ↦ some (is_accepted (verify_mandate_signature h m))
    ];
  }

-- `active_mandate` of app/mandates.py
abbrev pub active_mandate : Db → String → String → ℕ → Option UserPaymentMandate
active_mandate db agent_id org_id now = first (λ m. true) (active_mandates db agent_id org_id now)

abbrev is_lapsed : MandateState → Bool
is_lapsed MandateState.none_ever = false
is_lapsed MandateState.lapsed = true
is_lapsed MandateState.active = false

module _ (h : Host) (env : Environment) (q : HttpRequest) where
  -- `get_active_user_payment_mandate`; the session token is the header's only
  unfoldable pub get_active_user_payment_mandate : String → Exec MandateView
  unfolding mandate_view
  get_active_user_payment_mandate agent_id = do
    token ← resolve_session_token h (record q { body_token = "" })
    caller ← authenticate h env q token (some agent_id)
    let agent = caller.0
    found ← gets (λ db. active_mandate db agent.agent_id agent.org_id q.now)
    state ← gets (λ db. resolve_state db agent.agent_id agent.org_id q.now)
    m ← require found (
        http 404 (
          says (
            if is_lapsed state
            then "No active user payment mandate: a mandate exists for this agent but it has expired or been revoked"
            else "No active user payment mandate")))
    gets (λ db. mandate_view h db q.now m)

  -- `get_provider_binding`
  unfoldable pub get_provider_binding : String → Exec PaymentInstrumentBinding
  get_provider_binding mandate_id = do
    token ← resolve_session_token h (record q { body_token = "" })
    caller ← authenticate h env q token none
    found ← gets (λ db.
        first
          (λ (b : PaymentInstrumentBinding).
            b.mandate_id == mandate_id && b.org_id == (caller.0).org_id)
          db.bindings)
    require found (http 404 (says "No provider binding for this mandate"))
