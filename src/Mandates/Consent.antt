-- ===== src/Mandates/Consent.antt =====
-- The requests of the mandate routes of app/routers/v1.py, and the rows that they make.
use Prim.Native.String.{◌++◌ as text_append}
use paari_payments_protocol.Prelude.{
  if◌then◌else◌, ◌==◌, number_eq, text_eq, text_or, first, is_some, ℕ, String, Bool, false, ◌||◌,
  Option, none, some, List, [], ◌∷◌,
}
use paari_payments_protocol.Models.{
  UserPaymentMandate, MandateStatus, PaymentInstrumentBinding, Agent,
}
use paari_payments_protocol.Models.Rows.{Db, Value, null, str, num, flag}
use paari_payments_protocol.Host.{Host}
use paari_payments_protocol.Audit
use paari_payments_protocol.Payments.Authenticate.{parent_for}
use paari_payments_protocol.Payments.Records.{parent_id_of}
use paari_payments_protocol.Mandates.Signature.{mandate_payload, verify_payload, present}

-- schemas.CreatePaymentMandateRequest; a negative limit counts as 0, which meets the same refusal
pub record CreatePaymentMandateRequest : Type 0 where
  pub mandate_id : Option String
  pub user_id : String
  pub agent_id : String
  pub max_per_transaction : ℕ
  pub max_daily_amount : ℕ
  pub max_per_hour : Option ℕ
  pub max_per_merchant_per_day : Option ℕ
  pub max_category_per_day : Option ℕ
  pub currency : String
  pub allowed_merchants : List String
  pub allowed_categories : List String
  pub require_review_above : Option ℕ
  pub valid_from : Option ℕ
  pub expires_at : ℕ
  pub user_public_key_pem : Option String
  pub mandate_signature_b64 : Option String
  pub signing_key_id : Option String

-- schemas.BindProviderMandateRequest, without the references that are only shown
pub record BindProviderMandateRequest : Type 0 where
  pub provider : String
  pub provider_mandate_ref : String
  pub currency : String
  pub max_amount_minor_units : ℕ
  pub expires_at : Option ℕ

abbrev pub find_mandate : String → Db → Option UserPaymentMandate
find_mandate id db = first (λ (m : UserPaymentMandate). m.mandate_id == id) db.mandates

abbrev pub time_or : Option ℕ → ℕ → ℕ
time_or none d = d
time_or (some t) d = t

-- `value is not None and value <= 0`
abbrev pub is_zero : Option ℕ → Bool
is_zero none = false
is_zero (some n) = n == 0

abbrev pub opt_num : Option ℕ → Value
opt_num none = null
opt_num (some n) = num n

-- A given text that is not empty.
abbrev pub is_given : Option String → Bool
is_given o = is_some (present o)

abbrev pub key_id_or : Option String → String
key_id_or o = text_or (present o) "user-key-1"

abbrev pub is_signed_request : CreatePaymentMandateRequest → Bool
is_signed_request req = is_given req.mandate_signature_b64 || is_given req.user_public_key_pem

-- The row that a request makes; `drawn` is the identifier that is drawn where none is given.
unfoldable pub new_mandate :
    Host → ℕ → String → Agent → CreatePaymentMandateRequest → UserPaymentMandate
new_mandate h now drawn agent req = record {
  mandate_id = text_or req.mandate_id drawn;
  org_id = agent.org_id;
  user_id = req.user_id;
  agent_id = agent.agent_id;
  max_per_transaction = req.max_per_transaction;
  max_daily_amount = req.max_daily_amount;
  max_per_hour = req.max_per_hour;
  max_per_merchant_per_day = req.max_per_merchant_per_day;
  max_category_per_day = req.max_category_per_day;
  currency = h.upper req.currency;
  allowed_merchants = req.allowed_merchants;
  allowed_categories = req.allowed_categories;
  require_review_above = req.require_review_above;
  valid_from = time_or req.valid_from now;
  expires_at = req.expires_at;
  status = MandateStatus.active;
  revoked_at = none;
  signing_key_id = if is_signed_request req then some (key_id_or req.signing_key_id) else none;
  signature_b64 = if is_signed_request req then req.mandate_signature_b64 else none;
  user_public_key_pem = if is_signed_request req then req.user_public_key_pem else none;
  signed_at = if is_signed_request req then some now else none;
}

unfoldable pub mandate_created : Agent → Option String → UserPaymentMandate → Audit.Entry
mandate_created agent parent_id m = record {
  transaction_id = text_append "mandate:" m.mandate_id;
  agent_id = agent.agent_id;
  parent_id = parent_id;
  kind = "user_mandate_created";
  detail =
      ("mandate_id", str m.mandate_id)
      ∷ ("user_id", str m.user_id)
      ∷ ("max_per_transaction", num m.max_per_transaction)
      ∷ ("max_daily_amount", num m.max_daily_amount)
      ∷ ("max_per_hour", opt_num m.max_per_hour)
      ∷ ("max_per_merchant_per_day", opt_num m.max_per_merchant_per_day)
      ∷ ("max_category_per_day", opt_num m.max_category_per_day)
      ∷ ("currency", str m.currency)
      ∷ ("signed", flag (is_given m.signature_b64))
      ∷ ("signing_key_id", Audit.opt m.signing_key_id)
      ∷ [];
  org_id = some agent.org_id;
}

-- The signature is checked before the row is flushed, so that the payload has the identifier that
-- the request gave, and no drawn one.
abbrev pub signature_rejected : Host → CreatePaymentMandateRequest → UserPaymentMandate → Bool
signature_rejected h req m =
    is_some (verify_payload h (record (mandate_payload m) { mandate_id = req.mandate_id }) m)

abbrev pub end_mandate : ℕ → UserPaymentMandate → UserPaymentMandate
end_mandate now m = record m { status = MandateStatus.revoked; revoked_at = some now }

abbrev pub parent_of_agent : Option Agent → Db → Option String
parent_of_agent none db = none
parent_of_agent (some agent) db = parent_id_of (parent_for agent db)

unfoldable pub new_binding :
    Host → String → UserPaymentMandate → BindProviderMandateRequest → PaymentInstrumentBinding
new_binding h drawn m req = record {
  binding_id = drawn;
  org_id = m.org_id;
  mandate_id = m.mandate_id;
  provider = req.provider;
  provider_mandate_ref = req.provider_mandate_ref;
  currency = h.upper req.currency;
  max_amount_minor_units = req.max_amount_minor_units;
  status = "active";
  expires_at = req.expires_at;
}
