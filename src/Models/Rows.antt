-- ===== src/Models/Rows.antt =====
-- app/models.py: the rows that a payment writes, the audit log, and the database as a whole.
use paari_payments_protocol.Prelude.{ℕ, String, Bool, Option, List}
use paari_payments_protocol.Governance.{Reason, PolicyResult, GovernanceDecision}
use paari_payments_protocol.Transitions.{TxnState}
use paari_payments_protocol.Models.{
  ParentAuthority, Agent, Credential, UserPaymentMandate, PaymentInstrumentBinding,
}

pub record PaymentIntent : Type 0 where
  pub intent_id : String
  pub org_id : String
  pub agent_id : String
  pub transaction_id : String
  pub idempotency_key : String
  pub mandate_id : Option String
  pub merchant : String
  pub amount_minor_units : ℕ
  pub currency : String
  pub action : String
  pub purpose : String
  pub merchant_category : Option String
  pub llm_run_id : Option String
  pub llm_model : Option String
  pub llm_tool_call_id : Option String
  pub llm_tool_name : Option String
  pub llm_attributed : Bool
  pub decision : GovernanceDecision
  pub reasons : List Reason
  pub mfa_required : Bool
  pub mfa_verified : Bool
  pub review_expires_at : Option ℕ
  pub created_at : ℕ

pub record MfaChallenge : Type 0 where
  pub challenge_id : String
  pub intent_id : String
  pub org_id : String
  pub nonce : String
  pub expires_at : ℕ
  pub used : Bool

pub record BoundedAuthorization : Type 0 where
  pub authorization_id : String
  pub org_id : String
  pub intent_id : String
  pub mandate_id : Option String
  pub agent_id : String
  pub transaction_id : String
  pub merchant : String
  pub amount_minor_units : ℕ
  pub currency : String
  pub token : String
  pub expires_at : ℕ
  pub max_usage : ℕ
  pub usage_count : ℕ

-- A text that the program composes: a fixed part, and the text put into it.
pub record Message : Type 0 where
  pub text : String
  pub about : String

abbrev pub says : String → Message
says s = record { text = s; about = "" }

pub record ProviderTransaction : Type 0 where
  pub authorization_id : String
  pub intent_id : String
  pub agent_id : String
  pub org_id : String
  pub state : TxnState
  pub razorpay_order_id : Option String
  pub razorpay_payment_id : Option String
  pub webhook_event_id : Option String
  pub provider_environment : String
  pub provider_key_id_prefix : Option String
  pub provider_api_base : Option String
  pub attempts : ℕ
  pub last_error : Option Message
  pub updated_at : ℕ
  pub reconciled_at : Option ℕ

-- The values in the `detail` of an audit event.
pub data Value : Type 0 where
  null : Value
  str : String → Value
  num : ℕ → Value
  flag : Bool → Value
  txn_state : TxnState → Value
  decided : GovernanceDecision → Value
  reasons : List Reason → Value
  policies : List PolicyResult → Value

-- A dict literal.
abbrev pub Detail : Type 0
Detail = List (String × Value)

pub record AuditEvent : Type 0 where
  pub org_id : String
  pub transaction_id : String
  pub agent_id : String
  pub parent_id : Option String
  pub kind : String
  pub detail : Detail
  pub prev_hash : String
  pub event_hash : String
  pub created_at : ℕ
  pub hash_version : ℕ

pub record RequestProof : Type 0 where
  pub jti : String
  pub agent_id : String
  pub org_id : String
  pub issued_at : ℕ
  pub expires_at : ℕ

pub record DelegationRecord : Type 0 where
  pub delegation_id : String
  pub org_id : String
  pub parent_pk : ℕ
  pub agent_public_key_fingerprint : String
  pub granted_capabilities : List String
  pub payment_limit_minor_units : ℕ
  pub currency : String
  pub issued_at : ℕ
  pub expires_at : ℕ
  pub consumed : Bool
  pub consumed_at : Option ℕ

pub record RevocationRecord : Type 0 where
  pub revocation_id : String
  pub org_id : String
  pub agent_id : String
  pub consumed_at : ℕ

pub record AuthNonce : Type 0 where
  pub nonce : String
  pub org_id : String
  pub agent_id : String
  pub expires_at : ℕ
  pub used : Bool

pub record Organization : Type 0 where
  pub org_id : String
  pub name : String

pub record RateBucket : Type 0 where
  pub org_id : String
  pub scope : String
  pub window_start : ℕ
  pub count : ℕ

pub record ProviderAccount : Type 0 where
  pub org_id : String
  pub is_default : Bool

-- One table for each class, oldest row first.
pub record Db : Type 0 where
  pub parents : List ParentAuthority
  pub agents : List Agent
  pub credentials : List Credential
  pub mandates : List UserPaymentMandate
  pub bindings : List PaymentInstrumentBinding
  pub intents : List PaymentIntent
  pub challenges : List MfaChallenge
  pub authorizations : List BoundedAuthorization
  pub transactions : List ProviderTransaction
  pub audit_events : List AuditEvent
  pub request_proofs : List RequestProof
  pub delegations : List DelegationRecord
  pub revocations : List RevocationRecord
  pub nonces : List AuthNonce
  pub organizations : List Organization
  pub rate_buckets : List RateBucket
  pub provider_accounts : List ProviderAccount
