-- ===== src/Mandates/Spend.antt =====
-- app/mandates.py: what an agent has spent in a rolling window.
use paari_payments_protocol.Prelude.{
  ltb, leb, if◌then◌else◌, ◌==◌, number_eq, text_eq, select, sum_of, ℕ, ◌-◌, String, Bool, true,
  false, not, ◌&&◌, Option, none, some,
}
use paari_payments_protocol.Governance.{is_deny}
use paari_payments_protocol.Models.{UserPaymentMandate}
use paari_payments_protocol.Models.Rows.{Db, PaymentIntent}
use paari_payments_protocol.Host.{Host}

-- HOUR and DAY, in seconds
abbrev pub hour : ℕ
hour = 3600

abbrev pub day : ℕ
day = 86400

-- `_window_start`
unfoldable pub window_start : ℕ → ℕ → UserPaymentMandate → ℕ
window_start now delta m =
    let start = now - delta in if ltb start m.valid_from then m.valid_from else start

-- The optional narrowing of `_spend_since` by one text column; SQL compares NULL to nothing.
abbrev pub narrowed : Host → Option String → Option String → Bool
narrowed h none column = true
narrowed h (some wanted) none = false
narrowed h (some wanted) (some v) = h.sql_lower v == h.casefold wanted

-- The filter of `_spend_since`.
unfoldable pub counts :
    Host → UserPaymentMandate → ℕ → ℕ → Option String → Option String → PaymentIntent → Bool
counts h m start now merchant category i =
    i.org_id == m.org_id
    && i.agent_id == m.agent_id
    && leb start i.created_at
    && leb i.created_at now
    && not (is_deny i.decision)
    && i.currency == m.currency
    && narrowed h merchant (some i.merchant)
    && narrowed h category i.merchant_category

unfoldable pub spend_since :
    Host → Db → UserPaymentMandate → ℕ → ℕ → Option String → Option String → ℕ
unfolding counts
spend_since h db m start now merchant category =
    sum_of (λ i. i.amount_minor_units) (select (counts h m start now merchant category) db.intents)

unfoldable pub daily_spend : Host → Db → UserPaymentMandate → ℕ → ℕ
daily_spend h db m now = spend_since h db m (window_start now day m) now none none

unfoldable pub hourly_spend : Host → Db → UserPaymentMandate → ℕ → ℕ
hourly_spend h db m now = spend_since h db m (window_start now hour m) now none none

unfoldable pub merchant_daily_spend : Host → Db → UserPaymentMandate → String → ℕ → ℕ
merchant_daily_spend h db m merchant now =
    spend_since h db m (window_start now day m) now (some merchant) none

unfoldable pub category_daily_spend : Host → Db → UserPaymentMandate → String → ℕ → ℕ
category_daily_spend h db m category now =
    spend_since h db m (window_start now day m) now none (some category)
