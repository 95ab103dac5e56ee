-- ===== src/Mandates/View/Remaining.antt =====
-- The remaining budgets that a view reports, against what the checks of a payment accept.
use paari_payments_protocol.Prelude.{ℕ, ◌≤◌, ◌<◌, Option, none, some, ◌≡◌, refl, ◌↔◌, arith}
use paari_payments_protocol.Models.{UserPaymentMandate}
use paari_payments_protocol.Models.Rows.{Db}
use paari_payments_protocol.Host.{Host}
use paari_payments_protocol.Mandates.{Proposal}
use paari_payments_protocol.Mandates.Check.{check_daily, check_hourly}
use paari_payments_protocol.Mandates.View.{mandate_view}

-- An amount is within a remaining budget, where there is one.
abbrev pub IsWithin : ℕ → Option ℕ → Type 0
IsWithin amount none = Unit
IsWithin amount (some left) = amount ≤ left

module _ (h : Host) (db : Db) (now : ℕ) (m : UserPaymentMandate) (p : Proposal)
    (positive : 0 < p.amount_minor_units) where
  daily_iff :
      (check_daily h db now m p ≡ none)
      ↔ (p.amount_minor_units ≤ (mandate_view h db now m).daily_remaining)
  unfolding check_daily mandate_view
  daily_iff = ground arith

  hourly_iff :
      (o : Option ℕ)
      → (check_hourly h db now (record m { max_per_hour = o }) p ≡ none)
        ↔ IsWithin p.amount_minor_units
            (mandate_view h db now (record m { max_per_hour = o })).hourly_remaining
  unfolding check_hourly mandate_view
  hourly_iff none = (λ e. tt, λ e. refl)
  hourly_iff (some n) = ground arith

-- A view tells what may still be paid: a positive amount passes the daily check of a mandate exactly
-- when it is at most the view's daily remainder, and the hourly check exactly when the view has no
-- hourly remainder or the amount is at most that.
pub remaining_is_payable :
    (h : Host) (db : Db) (now : ℕ) (m : UserPaymentMandate) (p : Proposal)
    → 0 < p.amount_minor_units
    → ((check_daily h db now m p ≡ none)
        ↔ (p.amount_minor_units ≤ (mandate_view h db now m).daily_remaining))
      × ((check_hourly h db now m p ≡ none)
          ↔ IsWithin p.amount_minor_units (mandate_view h db now m).hourly_remaining)
remaining_is_payable h db now m p positive =
    (daily_iff h db now m p positive, hourly_iff h db now m p positive m.max_per_hour)
