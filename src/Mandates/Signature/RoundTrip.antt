-- ===== src/Mandates/Signature/RoundTrip.antt =====
-- `sign_mandate` of app/mandate_signing.py and the check of the stored row, and what becomes of a
-- signature that `create_user_payment_mandate` accepts.
use paari_payments_protocol.Prelude.{
  ◌==◌, text_eq, eq_iff, ℕ, String, Bool, true, false, Option, none, some, List, ◌≡◌, ◌≢◌, [], ◌∷◌,
  ◌++◌, sym, arith, Bool-cases, Option-cases, inl, inr, ◌∙◌,
}
use paari_payments_protocol.Governance.{signature_failed}
use paari_payments_protocol.Models.{UserPaymentMandate, MandateStatus, Agent}
use paari_payments_protocol.Models.Rows.{Db}
use paari_payments_protocol.Host.{Host, MandatePayload}
use paari_payments_protocol.Exec.{Call}
use paari_payments_protocol.Exec.Runs.{Runs, opened, Runs-weaken, Runs-sure}
use paari_payments_protocol.Registry.{AdminConfig}
use paari_payments_protocol.Mandates.Signature.{
  mandate_payload, canonical_payload_bytes, verify_payload, verify_mandate_signature, sign_mandate,
  check_mandate_signature,
}
use paari_payments_protocol.Mandates.Routes.{create_user_payment_mandate}
use paari_payments_protocol.Mandates.Consent.{
  CreatePaymentMandateRequest, new_mandate, is_signed_request, signature_rejected,
}
use paari_payments_protocol.Mandates.Signature.Valid.{verify_payload-none}
use paari_payments_protocol.Mandates.Routes.Accepts.{
  IsAcceptable, signed, create_user_payment_mandate-returns,
}
use paari_payments_protocol.Mandates.Routes.Steps.{create_user_payment_mandate-IsConsented}

is_empty_text : (s : String) → s ≢ "" → (s == "") ≡ false
is_empty_text s ne = elim (Bool-cases (s == "")) [
  | inl e ↦ ground (arith, ne (ground (arith, eq_iff s "", e)))
  | inr e ↦ e
]

-- A mandate that `sign_mandate` signs is accepted by the check of an evaluation, whether unsigned
-- mandates are permitted or not, and also after it was revoked or has expired: if what a private key
-- signs verifies under its public key, and neither signatures nor the public key are empty.
pub check-sign_mandate :
    (h : Host) (now : ℕ) (key key_id : String) (m : UserPaymentMandate) (require_signed : Bool)
    (status : MandateStatus) (revoked_at : Option ℕ)
    → ((message : String)
        → h.verify_signature (h.public_pem_of key) message (h.sign_with_private_key key message)
          ≡ true)
    → ((message : String) → h.sign_with_private_key key message ≢ "")
    → h.public_pem_of key ≢ ""
    → check_mandate_signature h require_signed
        (record (sign_mandate h now key key_id m) { status = status; revoked_at = revoked_at })
      ≡ none
unfolding check_mandate_signature verify_mandate_signature sign_mandate canonical_payload_bytes
    mandate_payload
check-sign_mandate h now key key_id m require_signed status revoked_at verifies signed named =
    let message = canonical_payload_bytes h m in
    ground (
      arith,
      verifies message,
      is_empty_text (h.sign_with_private_key key message) (signed message),
      is_empty_text (h.public_pem_of key) named,
    )

module _ (h : Host) (req : CreatePaymentMandateRequest) where
  void :
      (require_signed : Bool) (m : UserPaymentMandate)
      → req.mandate_id ≡ none
      → ((key s t signature : String)
          → h.verify_signature key s signature ≡ true
          → h.verify_signature key t signature ≡ true
          → s ≡ t)
      → ((p q : MandatePayload)
          → h.canonical_mandate p ≡ h.canonical_mandate q
          → p.mandate_id ≡ q.mandate_id)
      → signature_rejected h req m ≡ false
      → check_mandate_signature h require_signed m ≡ some signature_failed
  unfolding check_mandate_signature verify_mandate_signature canonical_payload_bytes mandate_payload
  void require_signed m unnamed one_text tells accepted =
      let draft : MandatePayload = record (mandate_payload m) { mandate_id = req.mandate_id } in
      let e : verify_payload h draft m ≡ none =
        ground (arith, accepted, Option-cases (verify_payload h draft m)) in
      let (signature, key, s, k, v) = verify_payload-none h draft m e in
      elim (Bool-cases
        (h.verify_signature key (h.canonical_mandate (mandate_payload m)) signature)) [
          | inl w ↦
              let same = tells draft (mandate_payload m) (one_text key _ _ signature v w) in
              ground (arith, sym unnamed ∙ same)
          | inr w ↦ ground (arith, s, k, w)
        ]

-- A signature over a payload without an identifier is accepted, and void: a request of an
-- administrator that is acceptable, names no identifier and is signed accordingly is not refused, and
-- the row that it stores fails the check of every evaluation; if a signature verifies for one text
-- only, and the canonical text of a payload tells its identifier.
pub unnamed_signature_is_void :
    (h : Host) (admin : AdminConfig) (key : String) (now : ℕ) (drawn : String)
    (req : CreatePaymentMandateRequest) (require_signed : Bool) (db : Db) (calls : List Call)
    (agent : Agent) (signer signature : String)
    → req.mandate_id ≡ none
    → IsAcceptable h admin key now drawn req db agent signer signature
    → ((key s t signature : String)
        → h.verify_signature key s signature ≡ true
        → h.verify_signature key t signature ≡ true
        → s ≡ t)
    → ((p q : MandatePayload)
        → h.canonical_mandate p ≡ h.canonical_mandate q
        → p.mandate_id ≡ q.mandate_id)
    → Runs
        (opened db calls)
        (λ v t.
          (t.saved.mandates ≡ db.mandates ++ v.mandate ∷ [])
          × (check_mandate_signature h require_signed v.mandate ≡ some signature_failed))
        (λ t. ⊥)
        (create_user_payment_mandate h admin key now drawn req)
unnamed_signature_is_void h admin key now drawn req require_signed db calls agent signer signature
      unnamed k one_text tells =
    let asked : is_signed_request req ≡ true =
      signed h admin key now db calls drawn req agent signer signature k in
    Runs-sure _ _ _ _ _
      (Runs-weaken _ _ _ _ _
        (λ v t l.
          let c = l.0 in
          let m = new_mandate h now drawn c.agent req in
          let accepted : signature_rejected h req m ≡ false = ground (arith, asked, c.signature) in
          (
            rw (c.row) c.stored,
            rw (c.row) (void h req require_signed m unnamed one_text tells accepted),
          ))
        (create_user_payment_mandate-IsConsented h admin key now db calls drawn req))
      (create_user_payment_mandate-returns h admin key now db calls drawn req agent signer signature
        k)
