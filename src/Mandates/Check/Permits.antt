-- ===== src/Mandates/Check/Permits.antt =====
-- What a mandate permits, said without reference to the order of the checks in app/mandates.py.
use paari_payments_protocol.Prelude.{
  number_eq, text_eq, is_empty, contains, ℕ, ◌+◌, ◌≤◌, String, ◌≡◌, ◌↔◌, ◌⊎◌, Bool, true, false,
  Option, none, some, List, map, arith, eq_iff, Option-cases, refl, inl, inr,
}
use paari_payments_protocol.Models.{UserPaymentMandate}
use paari_payments_protocol.Models.Rows.{Db}
use paari_payments_protocol.Host.{Host}
use paari_payments_protocol.Mandates.{Proposal}
use paari_payments_protocol.Mandates.Spend.{
  daily_spend, hourly_spend, merchant_daily_spend, category_daily_spend,
}
use paari_payments_protocol.Mandates.Signature.{
  present, canonical_payload_bytes, check_mandate_signature,
}
use paari_payments_protocol.Mandates.Check.{
  check_currency, check_amount, check_merchant, check_category, check_hourly, check_daily,
  check_merchant_budget, check_category_budget, refusal,
}

-- A list that names nobody allows everybody.
abbrev pub Allows : Host → List String → String → Type 0
Allows h allowed name =
    (is_empty (map h.casefold allowed) ≡ true)
    ⊎ (contains (h.casefold name) (map h.casefold allowed) ≡ true)

-- The signature that a mandate carries is valid, and one is carried if one is required.
abbrev pub IsSigned : Host → Bool → UserPaymentMandate → Type 0
IsSigned h require_signed m =
    ((present m.signature_b64 ≡ none) × (require_signed ≡ false))
    ⊎ ((signature : String) × (key : String) × (present m.signature_b64 ≡ some signature)
        × (present m.user_public_key_pem ≡ some key)
        × (h.verify_signature key (canonical_payload_bytes h m) signature ≡ true))

-- A budget that is set has room for the amount.
abbrev pub HasRoom : Option ℕ → ℕ → ℕ → Type 0
HasRoom none amount spent = Unit
HasRoom (some limit) amount spent = amount + spent ≤ limit

-- A category that is known, and what is asked of it.
abbrev pub Category : Option String → (String → Type 0) → Type 0
Category none P = ⊥
Category (some c) P = P c

abbrev pub HasCategoryRoom : Host → Db → ℕ → UserPaymentMandate → Proposal → Option ℕ → Type 0
HasCategoryRoom h db now m p none = Unit
HasCategoryRoom h db now m p (some limit) =
    Category (present p.merchant_category)
      λ c. p.amount_minor_units + category_daily_spend h db m c now ≤ limit

pub record Permits (h : Host) (db : Db) (now : ℕ) (require_signed : Bool) (m : UserPaymentMandate)
    (p : Proposal) : Type 0 where
  pub signature : IsSigned h require_signed m
  pub currency : h.upper p.currency ≡ h.upper m.currency
  pub per_transaction : p.amount_minor_units ≤ m.max_per_transaction
  pub merchant : Allows h m.allowed_merchants p.merchant
  pub category :
      (is_empty (map h.casefold m.allowed_categories) ≡ true)
      ⊎ Category
          (present p.merchant_category)
          (λ c. contains (h.casefold c) (map h.casefold m.allowed_categories) ≡ true)
  pub hourly : HasRoom m.max_per_hour p.amount_minor_units (hourly_spend h db m now)
  pub daily : p.amount_minor_units + daily_spend h db m now ≤ m.max_daily_amount
  pub merchant_budget :
      HasRoom m.max_per_merchant_per_day p.amount_minor_units
        (merchant_daily_spend h db m p.merchant now)
  pub category_budget : HasCategoryRoom h db now m p m.max_category_per_day

module _ (h : Host) (db : Db) (now : ℕ) (m : UserPaymentMandate) (p : Proposal) where
  signature_iff :
      (require_signed : Bool)
      → (check_mandate_signature h require_signed m ≡ none) ↔ IsSigned h require_signed m
  unfolding check_mandate_signature
  signature_iff r = elim (Option-cases (present m.signature_b64)) [
    | inl e ↦ rw e (ground arith)
    | inr (s, e) ↦ elim (Option-cases (present m.user_public_key_pem)) [
      | inl f ↦ rw (e, f) ((λ q. cc), ground arith)
      | inr (k, f) ↦ rw (e, f) ((λ q. inr (s, k, refl, refl, ground arith)), ground arith)
    ]
  ]

  currency_iff : (check_currency h m p ≡ none) ↔ (h.upper p.currency ≡ h.upper m.currency)
  unfolding check_currency
  currency_iff = ground (arith, eq_iff (h.upper p.currency) (h.upper m.currency))

  amount_iff : (check_amount h m p ≡ none) ↔ (p.amount_minor_units ≤ m.max_per_transaction)
  unfolding check_amount
  amount_iff = ground arith

  merchant_iff : (check_merchant h m p ≡ none) ↔ Allows h m.allowed_merchants p.merchant
  unfolding check_merchant
  merchant_iff = ground arith

  category_iff : (check_category h m p ≡ none) ↔ (
      (is_empty (map h.casefold m.allowed_categories) ≡ true)
      ⊎ Category
          (present p.merchant_category)
          (λ c. contains (h.casefold c) (map h.casefold m.allowed_categories) ≡ true))
  unfolding check_category
  category_iff = elim (Option-cases (present p.merchant_category)) [
    | inl e ↦ rw e (ground arith)
    | inr (c, e) ↦ rw e (ground arith)
  ]

  hourly_iff :
      (check_hourly h db now m p ≡ none)
      ↔ HasRoom m.max_per_hour p.amount_minor_units (hourly_spend h db m now)
  unfolding check_hourly
  hourly_iff = ground arith

  daily_iff :
      (check_daily h db now m p ≡ none)
      ↔ (p.amount_minor_units + daily_spend h db m now ≤ m.max_daily_amount)
  unfolding check_daily
  daily_iff = ground arith

  merchant_budget_iff :
      (check_merchant_budget h db now m p ≡ none)
      ↔ HasRoom m.max_per_merchant_per_day p.amount_minor_units
          (merchant_daily_spend h db m p.merchant now)
  unfolding check_merchant_budget
  merchant_budget_iff = ground arith

  category_budget_iff :
      (check_category_budget h db now m p ≡ none)
      ↔ HasCategoryRoom h db now m p m.max_category_per_day
  unfolding check_category_budget
  category_budget_iff = elim (Option-cases m.max_category_per_day) [
    | inl e ↦ rw e (ground arith)
    | inr (limit, e) ↦ elim (Option-cases (present p.merchant_category)) [
      | inl f ↦ rw (e, f) (ground arith)
      | inr (c, f) ↦ rw (e, f) (ground arith)
    ]
  ]

  -- `_check_one` raises no objection to a payment exactly when the mandate permits it.
  pub refusal-none_iff :
      (require_signed : Bool)
      → (refusal h db now require_signed m p ≡ none) ↔ Permits h db now require_signed m p
  unfolding refusal
  refusal-none_iff r = ground (
    arith,
    signature_iff r,
    currency_iff,
    amount_iff,
    merchant_iff,
    category_iff,
    hourly_iff,
    daily_iff,
    merchant_budget_iff,
    category_budget_iff,
  )
