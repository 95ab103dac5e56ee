-- ===== src/Models.antt =====
-- app/models.py: the rows of the database, column by column. Columns that are only shown to a
-- reader (names, contacts, purposes, labels, creation times that nothing reads) are left out, and
-- so are surrogate keys where the program looks rows up by their public identifier.
-- A time is a number of seconds.
pub mod Rows
use paari_payments_protocol.Prelude.{ℕ, String, Bool, true, false, Option, List}

pub data AgentStatus : Type 0 where
  pending active revoked : AgentStatus

abbrev pub is_active_agent : AgentStatus → Bool
is_active_agent AgentStatus.active = true
is_active_agent _ = false

pub data ParentStatus : Type 0 where
  pending_verification active rejected suspended revoked : ParentStatus

abbrev pub is_active_parent : ParentStatus → Bool
is_active_parent ParentStatus.active = true
is_active_parent _ = false

pub data MandateStatus : Type 0 where
  active revoked expired : MandateStatus

abbrev pub is_active_mandate : MandateStatus → Bool
is_active_mandate MandateStatus.active = true
is_active_mandate _ = false

pub record ParentAuthority : Type 0 where
  pub id : ℕ
  pub parent_id : String
  pub org_id : String
  pub public_key_pem : String
  pub status : ParentStatus
  pub trust_tier : String
  pub kyb_provider_ref : Option String

pub record Agent : Type 0 where
  pub id : ℕ
  pub agent_id : String
  pub org_id : String
  pub parent_pk : ℕ
  pub delegation_id : String
  pub public_key_pem : String
  pub old_public_key_pem : Option String
  pub key_sunset_at : Option ℕ
  pub granted_capabilities : List String
  pub payment_limit_minor_units : ℕ
  pub currency : String
  pub status : AgentStatus
  pub valid_until : Option ℕ
  pub protocol_version : Option String

pub record Credential : Type 0 where
  pub credential_id : String
  pub org_id : String
  pub agent_pk : ℕ
  pub issued_at : ℕ
  pub expires_at : ℕ
  pub revoked : Bool
  pub superseded_by : Option String
  pub rotates_at : Option ℕ

pub record UserPaymentMandate : Type 0 where
  pub mandate_id : String
  pub org_id : String
  pub user_id : String
  pub agent_id : String
  pub max_per_transaction : ℕ
  pub max_daily_amount : ℕ
  pub max_per_hour : Option ℕ
  pub max_per_merchant_per_day : Option ℕ
  pub max_category_per_day : Option ℕ
  pub currency : String
  -- NULL and the empty list mean the same to every reader: no allowlist
  pub allowed_merchants : List String
  pub allowed_categories : List String
  pub require_review_above : Option ℕ
  pub valid_from : ℕ
  pub expires_at : ℕ
  pub status : MandateStatus
  pub revoked_at : Option ℕ
  pub signing_key_id : Option String
  pub signature_b64 : Option String
  pub user_public_key_pem : Option String
  pub signed_at : Option ℕ

pub record PaymentInstrumentBinding : Type 0 where
  pub binding_id : String
  pub org_id : String
  pub mandate_id : String
  pub provider : String
  pub provider_mandate_ref : String
  pub currency : String
  pub max_amount_minor_units : ℕ
  pub status : String
  pub expires_at : Option ℕ
