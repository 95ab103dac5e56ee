-- ===== src/Mandates/Routes/Terms.antt =====
-- What a request of the mandate routes of app/routers/v1.py may do to the tables.
use paari_payments_protocol.Prelude.{
  ◌==◌, ◌⊎◌, number_eq, text_eq, is_some, update_where, ℕ, ◌≤◌, ◌<◌, String, Bool, false, true,
  ◌&&◌, Option, none, some, [], ◌∷◌, ◌++◌, ◌≡◌, refl,
}
use paari_payments_protocol.Models.{
  UserPaymentMandate, MandateStatus, is_active_mandate, PaymentInstrumentBinding, Agent,
}
use paari_payments_protocol.Models.Rows.{Db}
use paari_payments_protocol.Host.{Host}
use paari_payments_protocol.Payments.Authenticate.{find_agent}
use paari_payments_protocol.Registry.{AdminConfig}
use paari_payments_protocol.Mandates.Signature.{present, mandate_payload}
use paari_payments_protocol.Mandates.View.{MandateView}
use paari_payments_protocol.Mandates.Consent.{
  find_mandate, CreatePaymentMandateRequest, new_mandate, signature_rejected, is_signed_request,
}

-- Per-transaction and daily limits that are positive and in order, and a validity window that is not empty.
pub record IsBounded (m : UserPaymentMandate) : Type 0 where
  pub positive : 0 < m.max_per_transaction
  pub ordered : m.max_per_transaction ≤ m.max_daily_amount
  pub window : m.valid_from < m.expires_at

-- What no route changes in a stored mandate.
pub record SameTerms (m n : UserPaymentMandate) : Type 0 where
  pub mandate_id : n.mandate_id ≡ m.mandate_id
  pub org_id : n.org_id ≡ m.org_id
  pub max_per_transaction : n.max_per_transaction ≡ m.max_per_transaction
  pub max_daily_amount : n.max_daily_amount ≡ m.max_daily_amount
  pub valid_from : n.valid_from ≡ m.valid_from
  pub expires_at : n.expires_at ≡ m.expires_at

pub data Step (db after : Db) : Type 0 where
  same : after.mandates ≡ db.mandates → after.bindings ≡ db.bindings → Step db after
  -- a new mandate
  made :
      (m : UserPaymentMandate)
      → find_mandate m.mandate_id db ≡ none
      → IsBounded m
      → after.mandates ≡ db.mandates ++ m ∷ []
      → after.bindings ≡ db.bindings
      → Step db after
  -- mandates that end
  ended :
      (p : UserPaymentMandate → Bool) (f : UserPaymentMandate → UserPaymentMandate)
      → ((m : UserPaymentMandate) → SameTerms m (f m) × (is_active_mandate (f m).status ≡ false))
      → after.mandates ≡ update_where p f db.mandates
      → after.bindings ≡ db.bindings
      → Step db after
  -- a provider reference for a mandate
  bound :
      (m : UserPaymentMandate) (b : PaymentInstrumentBinding)
      → find_mandate b.mandate_id db ≡ some m
      → b.max_amount_minor_units ≤ m.max_per_transaction
      → b.org_id ≡ m.org_id
      → after.mandates ≡ db.mandates
      → after.bindings ≡ db.bindings ++ b ∷ []
      → Step db after

pub none_found : {A : Type 0} (o : Option A) → is_some o ≡ false → o ≡ none
none_found none e = refl
none_found (some a) e = cc

-- The key of an administrator, who is bound to no organization or to this one.
pub record IsAdministrator (admin : AdminConfig) (key org_id : String) : Type 0 where
  pub given : (key == "") ≡ false
  pub key_matches : key ≡ admin.api_key
  pub in_charge : (admin.admin_org ≡ "") ⊎ (admin.admin_org ≡ org_id)

-- A row that says what was requested, for an agent.
pub record IsRequested (h : Host) (now : ℕ) (agent : Agent) (req : CreatePaymentMandateRequest)
    (m : UserPaymentMandate) : Type 0 where
  pub holder : (m.user_id ≡ req.user_id) × (m.agent_id ≡ agent.agent_id) × (m.org_id ≡ agent.org_id)
  pub amounts :
      (m.max_per_transaction ≡ req.max_per_transaction)
      × (m.max_daily_amount ≡ req.max_daily_amount)
      × (m.max_per_hour ≡ req.max_per_hour)
      × (m.max_per_merchant_per_day ≡ req.max_per_merchant_per_day)
      × (m.max_category_per_day ≡ req.max_category_per_day)
      × (m.require_review_above ≡ req.require_review_above)
  pub lists :
      (m.allowed_merchants ≡ req.allowed_merchants)
      × (m.allowed_categories ≡ req.allowed_categories)
  pub currency : m.currency ≡ h.upper agent.currency
  pub in_force : (m.status ≡ MandateStatus.active) × (m.expires_at ≡ req.expires_at)

-- A request that is not signed, or that has a key under which its signature verifies for the payload
-- of the row, with the identifier that the request names.
pub data IsSigned (h : Host) (req : CreatePaymentMandateRequest) (m : UserPaymentMandate)
    : Type 0 where
  unsigned :
      present req.mandate_signature_b64 ≡ none
      → present req.user_public_key_pem ≡ none
      → IsSigned h req m
  signed_by :
      (signer signature : String)
      → present req.mandate_signature_b64 ≡ some signature
      → present req.user_public_key_pem ≡ some signer
      → h.verify_signature signer
          (h.canonical_mandate (record (mandate_payload m) { mandate_id = req.mandate_id }))
          signature
        ≡ true
      → IsSigned h req m

-- What an accepted creation has checked, and has done.
pub record IsConsented (h : Host) (admin : AdminConfig) (key : String) (now : ℕ) (drawn : String)
    (req : CreatePaymentMandateRequest) (db : Db) (v : MandateView) (after : Db) : Type 0 where
  pub agent : Agent
  pub consent : IsAdministrator admin key agent.org_id
  pub requested : IsRequested h now agent req v.mandate
  pub owner : find_agent req.agent_id db ≡ some agent
  pub row : v.mandate ≡ new_mandate h now drawn agent req
  pub stored : after.mandates ≡ db.mandates ++ new_mandate h now drawn agent req ∷ []
  pub others : (after.bindings ≡ db.bindings) × (after.intents ≡ db.intents)
  pub unused : find_mandate (new_mandate h now drawn agent req).mandate_id db ≡ none
  pub limits : IsBounded (new_mandate h now drawn agent req)
  pub currency : h.upper req.currency ≡ h.upper agent.currency
  pub valid : IsSigned h req v.mandate
  pub signature :
      (is_signed_request req && signature_rejected h req (new_mandate h now drawn agent req))
      ≡ false
