-- ===== src/Mandates/Signature/Valid.antt =====
-- What `verify_mandate_signature` of app/mandate_signing.py has seen of a payload that it accepts.
use paari_payments_protocol.Prelude.{
  if◌then◌else◌, text_eq, String, true, none, some, ◌≡◌, arith, Option-cases, inl, inr,
}
use paari_payments_protocol.Governance.{signature_failed}
use paari_payments_protocol.Models.{UserPaymentMandate}
use paari_payments_protocol.Host.{Host, MandatePayload}
use paari_payments_protocol.Mandates.Signature.{present, verify_payload}

module _ (h : Host) (payload : MandatePayload) where
  accepted-payload :
      (m : UserPaymentMandate) (signature key : String)
      → present m.signature_b64 ≡ some signature
      → present m.user_public_key_pem ≡ some key
      → verify_payload h payload m ≡ (
          if h.verify_signature key (h.canonical_mandate payload) signature
          then none
          else some signature_failed)
  accepted-payload m signature key s k = ground (arith, s, k)

  -- An accepted payload has a signature and a key, which verify.
  pub verify_payload-none :
      (m : UserPaymentMandate)
      → verify_payload h payload m ≡ none
      → (signature : String) × (key : String) × (present m.signature_b64 ≡ some signature)
        × (present m.user_public_key_pem ≡ some key)
        × (h.verify_signature key (h.canonical_mandate payload) signature ≡ true)
  verify_payload-none m e = elim (Option-cases (present m.signature_b64)) [
    | inl s ↦ ground (arith, s, e)
    | inr (signature, s) ↦ elim (Option-cases (present m.user_public_key_pem)) [
      | inl k ↦ ground (arith, s, k, e)
      | inr (key, k) ↦
          (signature, key, s, k, ground (arith, accepted-payload m signature key s k, e))
    ]
  ]
