-- ===== src/Mandates/Signature.antt =====
-- app/mandate_signing.py, and `check_mandate_signature` of app/mandates.py.
pub mod Valid
pub mod RoundTrip
use Prim.Native.String.{compare}
use text.Mathlib.Text.{is_le}
use paari_payments_protocol.Prelude.{
  if◌then◌else◌, ◌==◌, number_eq, text_eq, sorted, ℕ, String, Bool, Option, none, some,
}
use paari_payments_protocol.Governance.{
  MandateReason, unsigned_mandate, no_signer_key, signature_failed,
}
use paari_payments_protocol.Models.{UserPaymentMandate}
use paari_payments_protocol.Host.{Host, MandatePayload}

-- `mandate_payload`; `valid_from` is never NULL, so `issued_at` is always taken from it
unfoldable pub mandate_payload : UserPaymentMandate → MandatePayload
mandate_payload m = record {
  mandate_id = some m.mandate_id;
  user_id = m.user_id;
  agent_id = m.agent_id;
  org_id = m.org_id;
  currency = m.currency;
  max_per_transaction = m.max_per_transaction;
  max_daily_amount = m.max_daily_amount;
  max_per_hour = m.max_per_hour;
  max_per_merchant_per_day = m.max_per_merchant_per_day;
  max_category_per_day = m.max_category_per_day;
  allowed_merchants = sorted (λ s t. is_le (compare s t)) m.allowed_merchants;
  allowed_categories = sorted (λ s t. is_le (compare s t)) m.allowed_categories;
  require_review_above = m.require_review_above;
  issued_at = m.valid_from;
  expires_at = m.expires_at;
}

unfoldable pub canonical_payload_bytes : Host → UserPaymentMandate → String
canonical_payload_bytes h m = h.canonical_mandate (mandate_payload m)

-- A column that may be NULL or empty, as Python's `if` reads it.
abbrev pub present : Option String → Option String
present none = none
present (some s) = if s == "" then none else some s

-- The check of a mandate whose payload is given: `none` is a valid signature.
abbrev pub verify_payload : Host → MandatePayload → UserPaymentMandate → Option MandateReason
verify_payload h payload m = elim (present m.signature_b64) [
  | none ↦ some unsigned_mandate
  | some signature ↦ elim (present m.user_public_key_pem) [
    | none ↦ some no_signer_key
    | some key ↦
        if h.verify_signature key (h.canonical_mandate payload) signature
        then none
        else some signature_failed
  ]
]

-- `verify_mandate_signature`. The caller has seen a signature.
unfoldable pub verify_mandate_signature : Host → UserPaymentMandate → Option MandateReason
unfolding canonical_payload_bytes
verify_mandate_signature h m = verify_payload h (mandate_payload m) m

-- `sign_mandate`: the signed row
unfoldable pub sign_mandate : Host → ℕ → String → String → UserPaymentMandate → UserPaymentMandate
unfolding canonical_payload_bytes
sign_mandate h now user_private_key_pem signing_key_id m = record m {
  signing_key_id = some signing_key_id;
  signature_b64 = some (h.sign_with_private_key user_private_key_pem (canonical_payload_bytes h m));
  user_public_key_pem = some (h.public_pem_of user_private_key_pem);
  signed_at = some now;
}

-- `check_mandate_signature`: `none` is acceptance
unfoldable pub check_mandate_signature : Host → Bool → UserPaymentMandate → Option MandateReason
unfolding verify_mandate_signature
check_mandate_signature h require_signed m = elim (present m.signature_b64) [
  | none ↦ if require_signed then some unsigned_mandate else none
  | some signature ↦ verify_mandate_signature h m
]
