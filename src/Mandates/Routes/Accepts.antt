-- ===== src/Mandates/Routes/Accepts.antt =====
-- What a request for a mandate needs for `create_user_payment_mandate` of app/routers/v1.py to accept it.
use paari_payments_protocol.Prelude.{
  ◌==◌, number_eq, text_eq, text_or, eq_iff, is_some, ℕ, ◌≤◌, ◌<◌, String, true, false, ◌&&◌, none,
  some, List, ◌≡◌, refl, ap, arith,
}
use paari_payments_protocol.Models.{Agent, UserPaymentMandate}
use paari_payments_protocol.Models.Rows.{Db}
use paari_payments_protocol.Host.{Host}
use paari_payments_protocol.Audit
use paari_payments_protocol.Exec.{Exec, ◌>>=◌, gets, modify, commit, audit, Call, Session}
use paari_payments_protocol.Exec.Runs.{
  Runs, opened, Runs-gets, Runs-returns, Runs-pass, Runs-bind, Runs-passed, require-returns,
}
use paari_payments_protocol.Payments.Authenticate.{find_agent}
use paari_payments_protocol.Registry.{AdminConfig, require_admin_org, is_admin_key}
use paari_payments_protocol.Mandates.View.{mandate_view}
use paari_payments_protocol.Mandates.Signature.{mandate_payload}
use paari_payments_protocol.Mandates.Consent.{
  find_mandate, CreatePaymentMandateRequest, new_mandate, time_or, is_zero, is_given,
  signature_rejected, is_signed_request,
}
use paari_payments_protocol.Mandates.Routes.{
  store_mandate, write_mandate, create_user_payment_mandate,
}
use paari_payments_protocol.Mandates.Routes.Terms.{IsAdministrator}

-- A request by an administrator for a known agent, with limits in order, a window that is not empty,
-- the agent's currency and an identifier that is not in use, signed with a key over a payload.
pub record IsAcceptable (h : Host) (admin : AdminConfig) (key : String) (now : ℕ) (drawn : String)
    (req : CreatePaymentMandateRequest) (db : Db) (agent : Agent) (signer signature : String)
    : Type 0 where
  pub owner : find_agent req.agent_id db ≡ some agent
  pub consent : IsAdministrator admin key agent.org_id
  pub window : time_or req.valid_from now < req.expires_at
  pub positive : 0 < req.max_per_transaction
  pub ordered : req.max_per_transaction ≤ req.max_daily_amount
  pub hourly : is_zero req.max_per_hour ≡ false
  pub merchant : is_zero req.max_per_merchant_per_day ≡ false
  pub category : is_zero req.max_category_per_day ≡ false
  pub currency : h.upper req.currency ≡ h.upper agent.currency
  pub unused : find_mandate (text_or req.mandate_id drawn) db ≡ none
  pub signer_given : (req.user_public_key_pem ≡ some signer) × ((signer == "") ≡ false)
  pub signature_given : (req.mandate_signature_b64 ≡ some signature) × ((signature == "") ≡ false)
  pub verified :
      h.verify_signature signer
        (h.canonical_mandate (record (mandate_payload (new_mandate h now drawn agent req)) {
          mandate_id = req.mandate_id;
        }))
        signature
      ≡ true

module _ (h : Host) (admin : AdminConfig) (key : String) (now : ℕ) (db : Db)
    (calls : List Call) where
  abbrev Returned : {A : Type 0} → A → Session → Type 0
  Returned a t = Unit

  admits :
      {A : Type 0} (org : String) (m : Exec A)
      → IsAdministrator admin key org
      → Runs (opened db calls) Returned (λ t. ⊥) m
      → Runs (opened db calls) Returned (λ t. ⊥) (require_admin_org admin key org >>= λ u. m)
  unfolding require_admin_org is_admin_key
  admits org m o k =
      Runs-bind _ _ _ (λ u t. t ≡ opened db calls) _ _
        (Runs-pass _ _ _ _ _ _ (ground (arith, o.given, eq_iff key admin.api_key, o.key_matches)) (
          Runs-passed _ _ _ _ _
            (ground (arith, o.in_charge, eq_iff admin.admin_org "", eq_iff admin.admin_org org))
            refl))
        (λ u t same. rw same k)

  write_mandate-returns :
      (agent : Agent) (m : UserPaymentMandate)
      → Runs (opened db calls) Returned (λ t. ⊥) (write_mandate h admin key now agent m)
  unfolding write_mandate mandate_view gets audit modify commit ◌>>=◌ Audit.record_audit
  write_mandate-returns agent m = record { holds = tt }

  store_mandate-returns :
      (agent : Agent) (m : UserPaymentMandate)
      → find_mandate m.mandate_id db ≡ none
      → Runs (opened db calls) Returned (λ t. ⊥) (store_mandate h admin key now agent m)
  unfolding store_mandate
  store_mandate-returns agent m free =
      Runs-gets _ _ _ _ _ (Runs-pass _ _ _ _ _ _ (ap is_some free) (write_mandate-returns agent m))

  module _ (drawn : String) (req : CreatePaymentMandateRequest) (agent : Agent)
      (signer signature : String)
      (k : IsAcceptable h admin key now drawn req db agent signer signature) where
    pub signed : is_signed_request req ≡ true
    signed = ground (arith, k.signer_given, k.signature_given)

    given : (is_given req.user_public_key_pem && is_given req.mandate_signature_b64) ≡ true
    given = ground (arith, k.signer_given, k.signature_given)

    not_rejected : signature_rejected h req (new_mandate h now drawn agent req) ≡ false
    unfolding new_mandate
    not_rejected = ground (arith, k.signer_given, k.signature_given, signed, k.verified)

    -- A request that is acceptable is accepted.
    pub create_user_payment_mandate-returns :
        Runs
          (opened db calls)
          Returned
          (λ t. ⊥)
          (create_user_payment_mandate h admin key now drawn req)
    unfolding create_user_payment_mandate new_mandate
    create_user_payment_mandate-returns = Runs-gets _ _ _ _ _ (
        Runs-returns _ _ _ agent _ _ (require-returns _ _ agent _ k.owner) (
          admits agent.org_id _ k.consent (
            Runs-pass _ _ _ _ _ _ (ground (arith, k.window)) (
              Runs-pass _ _ _ _ _ _ (ground (arith, k.positive, k.ordered)) (
                Runs-pass _ _ _ _ _ _ (ground (arith, k.ordered)) (
                  Runs-pass _ _ _ _ _ _ k.hourly (
                    Runs-pass _ _ _ _ _ _ k.merchant (
                      Runs-pass _ _ _ _ _ _ k.category (
                        Runs-pass _ _ _ _ _ _
                          (ground (
                            arith,
                            k.currency,
                            eq_iff (h.upper req.currency) (h.upper agent.currency),
                          ))
                          (Runs-pass _ _ _ _ _ _ (ground (arith, given)) (
                            Runs-pass _ _ _ _ _ _ (ground (arith, not_rejected)) (
                              store_mandate-returns agent (new_mandate h now drawn agent req)
                                k.unused))))))))))))
