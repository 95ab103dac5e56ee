-- ===== src/Tests/Consent.antt =====
-- Tests of the mandate routes, and the theorems applied to them.
use Prim.Native.String.{◌++◌ as text_append}
use text.Mathlib.Text.{starts_with}
use text.Mathlib.TextLemmas.{append_cancel_left}
use text.Mathlib.TextPositions.{starts_with-append}
use paari_payments_protocol.Prelude.{
  ◌==◌, ◌++◌, inl, number_eq, text_eq, eq_iff, any, String, ◌≡◌, ◌≢◌, ◌↔◌, refl, sym, ap, true,
  false, Option, none, some, List, [], ◌∷◌, ◌≤◌, arith, ◌∙◌, eq_refl,
}
use paari_payments_protocol.Governance.{signature_failed}
use paari_payments_protocol.Models.{UserPaymentMandate, MandateStatus}
use paari_payments_protocol.Host.{Host}
use paari_payments_protocol.Exec.Runs.{Runs, opened}
use paari_payments_protocol.Mandates.{active_mandates}
use paari_payments_protocol.Mandates.Check.{check_daily, check_hourly}
use paari_payments_protocol.Mandates.Signature.{sign_mandate, check_mandate_signature}
use paari_payments_protocol.Mandates.Signature.RoundTrip.{
  check-sign_mandate, unnamed_signature_is_void,
}
use paari_payments_protocol.Mandates.View.{mandate_view}
use paari_payments_protocol.Mandates.View.Remaining.{IsWithin, remaining_is_payable}
use paari_payments_protocol.Mandates.Routes.{
  create_user_payment_mandate, revoke_user_payment_mandate,
}
use paari_payments_protocol.Mandates.Consent.{
  CreatePaymentMandateRequest, BindProviderMandateRequest, new_mandate,
}
use paari_payments_protocol.Mandates.Routes.Accepts.{IsAcceptable}
use paari_payments_protocol.Mandates.Routes.History.{MandateEvent, mandate_history}
use paari_payments_protocol.Mandates.Routes.Sound.{IsSound, mandate_history-IsSound}
use paari_payments_protocol.Mandates.Routes.Final.{revocation_is_final}
use paari_payments_protocol.Tests.Data.{agent_1, plain, small_db, mandate, proposal}
use paari_payments_protocol.Tests.Trust.{different, admin}

abbrev create_request : CreatePaymentMandateRequest
create_request = record {
  mandate_id = none;
  user_id = "user-1";
  agent_id = "agent-1";
  max_per_transaction = 500;
  max_daily_amount = 900;
  max_per_hour = none;
  max_per_merchant_per_day = none;
  max_category_per_day = none;
  currency = "INR";
  allowed_merchants = [];
  allowed_categories = [];
  require_review_above = none;
  valid_from = none;
  expires_at = 5000;
  user_public_key_pem = none;
  mandate_signature_b64 = none;
  signing_key_id = none;
}

abbrev bind_request : BindProviderMandateRequest
bind_request = record {
  provider = "reference-autonomous";
  provider_mandate_ref = "ref-1";
  currency = "INR";
  max_amount_minor_units = 5000;
  expires_at = none;
}

abbrev mandate_requests : List MandateEvent
mandate_requests =
    MandateEvent.bind "admin" 1000 "bnd-1" "mnd-1" bind_request
    ∷ MandateEvent.create "admin" 1100 "mnd-2" create_request
    ∷ MandateEvent.revoke "admin" 1200 "mnd-1" "lost"
    ∷ MandateEvent.sweep 1300
    ∷ []

mandate_history-IsSound_example : IsSound (mandate_history plain admin mandate_requests small_db)
mandate_history-IsSound_example =
    mandate_history-IsSound plain admin mandate_requests small_db (record {
      bounded =
          (record { positive = omega arith; ordered = omega arith; window = omega arith }, tt);
      covered = tt;
    })

revocation_is_final_example :
    Runs
      (opened small_db [])
      (λ v t.
        any
          (λ (m : UserPaymentMandate). m.mandate_id == "mnd-1")
          (active_mandates
            (mandate_history plain admin mandate_requests t.saved)
            "agent-1"
            "default"
            1300)
        ≡ false)
      (λ t. t.saved ≡ small_db)
      (revoke_user_payment_mandate plain admin "admin" 1000 "mnd-1" "lost")
revocation_is_final_example =
    revocation_is_final plain admin "admin" "mnd-1" "lost" 1000 mandate_requests "agent-1" "default"
      1300 small_db

remaining_is_payable_example :
    ((check_daily plain small_db 1000 mandate proposal ≡ none)
      ↔ (4000 ≤ (mandate_view plain small_db 1000 mandate).daily_remaining))
    × ((check_hourly plain small_db 1000 mandate proposal ≡ none)
        ↔ IsWithin 4000 (mandate_view plain small_db 1000 mandate).hourly_remaining)
remaining_is_payable_example =
    remaining_is_payable plain small_db 1000 mandate proposal (omega arith)

-- Texts that start alike.
starts_differ : (s t u : String) → starts_with u s ≡ false → text_append s t ≢ u
starts_differ s t u d e =
    let given = starts_with-append s t in let seen = ap (λ (x : String). starts_with x s) e in cc

abbrev id_text : Option String → String
id_text none = "null"
id_text (some id) = text_append "id:" id

id_text-inj : (o p : Option String) → id_text o ≡ id_text p → o ≡ p
id_text-inj none none e = refl
id_text-inj none (some t) e = ground (arith, starts_differ "id:" t "null" refl (sym e))
id_text-inj (some s) none e = ground (arith, starts_differ "id:" s "null" refl e)
id_text-inj (some s) (some t) e = ap some (append_cancel_left "id:" s t e)

-- A host whose signatures are the signed text behind a mark.
abbrev pub marking : Host
marking = record plain {
  sign_with_private_key = λ key message. text_append "s" message;
  verify_signature = λ key message signature. text_append "s" message == signature;
  canonical_mandate = λ p. id_text p.mandate_id;
}

marks_one_text :
    (key s t signature : String)
    → marking.verify_signature key s signature ≡ true
    → marking.verify_signature key t signature ≡ true
    → s ≡ t
marks_one_text key s t signature e f =
    let one = (eq_iff (text_append "s" s) signature).0 e in
    let two = (eq_iff (text_append "s" t) signature).0 f in
    append_cancel_left "s" s t (one ∙ sym two)

check-sign_mandate_example :
    check_mandate_signature marking true (record (sign_mandate marking 1000 "key" "key-1" mandate) {
      status = MandateStatus.revoked;
      revoked_at = some 2000;
    })
    ≡ none
check-sign_mandate_example =
    check-sign_mandate marking 1000 "key" "key-1" mandate true MandateStatus.revoked (some 2000)
      (λ message. eq_refl (text_append "s" message)) (λ message. starts_differ "s" message "" refl)
      (different "key" "" refl)

-- A creation that is signed without an identifier.
abbrev pub voided_request : CreatePaymentMandateRequest
voided_request = record create_request {
  user_public_key_pem = some "user-key";
  mandate_signature_b64 = some "snull";
}

acceptable :
    IsAcceptable marking admin "admin" 1000 "mnd-2" voided_request small_db agent_1 "user-key"
      "snull"
unfolding new_mandate
acceptable = record {
  owner = refl;
  consent = record { given = refl; key_matches = refl; in_charge = inl refl };
  window = omega arith;
  positive = omega arith;
  ordered = omega arith;
  hourly = refl;
  merchant = refl;
  category = refl;
  currency = refl;
  unused = refl;
  signer_given = (refl, refl);
  signature_given = (refl, refl);
  verified = refl;
}

unnamed_signature_is_void_example :
    Runs
      (opened small_db [])
      (λ v t.
        (t.saved.mandates ≡ small_db.mandates ++ v.mandate ∷ [])
        × (check_mandate_signature marking false v.mandate ≡ some signature_failed))
      (λ t. ⊥)
      (create_user_payment_mandate marking admin "admin" 1000 "mnd-2" voided_request)
unnamed_signature_is_void_example =
    unnamed_signature_is_void marking admin "admin" 1000 "mnd-2" voided_request false small_db []
      agent_1 "user-key" "snull" refl acceptable marks_one_text
      (λ p q. id_text-inj p.mandate_id q.mandate_id)
