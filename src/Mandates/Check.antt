-- ===== src/Mandates/Check.antt =====
-- `_check_one` of app/mandates.py: one mandate against one proposed payment. Each early return is a
-- refusal; the first refusal in the order of the code is the answer.
pub mod Permits
use paari_payments_protocol.Prelude.{
  ltb, if◌then◌else◌, ◌==◌, number_eq, text_eq, first, is_empty, contains, ℕ, ◌+◌, ◌-◌, ◌<◌, Bool,
  true, false, not, ◌&&◌, Option, none, some, List, [], ◌∷◌, map,
}
use paari_payments_protocol.Governance.{
  MandateReason, currency_not_mandated, over_per_transaction, merchant_not_permitted,
  category_not_permitted, category_required, category_required_for_budget, over_hourly, over_daily,
  over_merchant, over_category, review_above, constraints_passed,
}
use paari_payments_protocol.Models.{UserPaymentMandate}
use paari_payments_protocol.Models.Rows.{Db}
use paari_payments_protocol.Host.{Host}
use paari_payments_protocol.Mandates.{MandateDecision, MandateState, Proposal}
use paari_payments_protocol.Mandates.Spend.{
  daily_spend, hourly_spend, merchant_daily_spend, category_daily_spend,
}
use paari_payments_protocol.Mandates.Signature.{check_mandate_signature, present}

infixr 20 ◌or_else◌
-- The next early return, if the one before did not return.
abbrev pub ◌or_else◌ : Option MandateReason → Option MandateReason → Option MandateReason
none or_else next = next
some r or_else next = some r

abbrev pub refuse_if : Bool → MandateReason → Option MandateReason
refuse_if true r = some r
refuse_if false r = none

module _ (h : Host) where
  unfoldable pub check_currency : UserPaymentMandate → Proposal → Option MandateReason
  check_currency m p =
      refuse_if (not (h.upper p.currency == h.upper m.currency))
        (currency_not_mandated p.currency m.currency)

  unfoldable pub check_amount : UserPaymentMandate → Proposal → Option MandateReason
  check_amount m p =
      refuse_if (ltb m.max_per_transaction p.amount_minor_units)
        (over_per_transaction p.amount_minor_units m.max_per_transaction)

  unfoldable pub check_merchant : UserPaymentMandate → Proposal → Option MandateReason
  check_merchant m p =
      let allowed = map h.casefold m.allowed_merchants in
      refuse_if (not (is_empty allowed) && not (contains (h.casefold p.merchant) allowed))
        (merchant_not_permitted p.merchant)

  unfoldable pub check_category : UserPaymentMandate → Proposal → Option MandateReason
  check_category m p =
      let allowed = map h.casefold m.allowed_categories in
      if is_empty allowed then none else elim (present p.merchant_category) [
        | none ↦ some category_required
        | some c ↦ refuse_if (not (contains (h.casefold c) allowed)) (category_not_permitted c)
      ]

  module _ (db : Db) (now : ℕ) where
    -- `amount > limit - spent` on integers is `limit < amount + spent`; `limit - spent` on the
    -- natural numbers is `max(limit - spent, 0)`
    unfoldable pub check_hourly : UserPaymentMandate → Proposal → Option MandateReason
    check_hourly m p =
        let spent = hourly_spend h db m now in
        elim m.max_per_hour [
          | none ↦ none
          | some limit ↦
              refuse_if (ltb limit (p.amount_minor_units + spent))
                (over_hourly p.amount_minor_units (limit - spent))
        ]

    unfoldable pub check_daily : UserPaymentMandate → Proposal → Option MandateReason
    check_daily m p =
        let spent = daily_spend h db m now in
        refuse_if (ltb m.max_daily_amount (p.amount_minor_units + spent))
          (over_daily p.amount_minor_units (m.max_daily_amount - spent))

    unfoldable pub check_merchant_budget : UserPaymentMandate → Proposal → Option MandateReason
    check_merchant_budget m p =
        let spent = merchant_daily_spend h db m p.merchant now in
        elim m.max_per_merchant_per_day [
          | none ↦ none
          | some limit ↦
              refuse_if (ltb limit (p.amount_minor_units + spent))
                (over_merchant p.amount_minor_units p.merchant (limit - spent))
        ]

    unfoldable pub check_category_budget : UserPaymentMandate → Proposal → Option MandateReason
    check_category_budget m p = elim m.max_category_per_day [
      | none ↦ none
      | some limit ↦ elim (present p.merchant_category) [
        | none ↦ some category_required_for_budget
        | some c ↦
            let spent = category_daily_spend h db m c now in
            refuse_if (ltb limit (p.amount_minor_units + spent))
              (over_category p.amount_minor_units c (limit - spent))
      ]
    ]

    -- The refusal of `_check_one`, if there is one.
    unfoldable pub refusal : Bool → UserPaymentMandate → Proposal → Option MandateReason
    refusal require_signed m p =
        check_mandate_signature h require_signed m
        or_else check_currency m p
        or_else check_amount m p
        or_else check_merchant m p
        or_else check_category m p
        or_else check_hourly m p
        or_else check_daily m p
        or_else check_merchant_budget m p
        or_else check_category_budget m p

    abbrev pub decision_of : UserPaymentMandate → Bool → Bool → List MandateReason → MandateDecision
    decision_of m ok review reasons = record {
      ok = ok;
      review = review;
      reasons = reasons;
      mandate = some m;
      state = MandateState.active;
      evaluated = [];
    }

    abbrev pub needs_review : UserPaymentMandate → Proposal → Option ℕ
    needs_review m p = elim m.require_review_above [
      | none ↦ none
      | some bound ↦ if ltb bound p.amount_minor_units then some bound else none
    ]

    unfoldable pub check_one : Bool → UserPaymentMandate → Proposal → MandateDecision
    check_one require_signed m p = elim (refusal require_signed m p) [
      | some r ↦ decision_of m false false (r ∷ [])
      | none ↦ elim (needs_review m p) [
        | some bound ↦ decision_of m true true (review_above bound p.amount_minor_units ∷ [])
        | none ↦ decision_of m true false (constraints_passed ∷ [])
      ]
    ]
