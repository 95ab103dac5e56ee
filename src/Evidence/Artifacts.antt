-- ===== src/Evidence/Artifacts.antt =====
-- The artifacts of a proof bundle (app/proof_bundle.py).
use text.Mathlib.Text.{starts_with}
use paari_payments_protocol.Prelude.{
  if◌then◌else◌, ◌==◌, number_eq, text_eq, text_or, first, is_some, ℕ, String, Bool, true, false,
  ◌||◌, Option, none, some, List, [], ◌∷◌,
}
use paari_payments_protocol.Transitions.{TxnState, is_terminal}
use paari_payments_protocol.Models.{
  ParentAuthority, Agent, AgentStatus, Credential, UserPaymentMandate,
}
use paari_payments_protocol.Models.Rows.{
  PaymentIntent, BoundedAuthorization, ProviderTransaction, AuditEvent, Value, policies, Detail,
  DelegationRecord, AuthNonce, Message,
}
use paari_payments_protocol.Mandates.Signature.{present}

-- A result, a ValueError with its message, or another exception.
pub data Found (A : Type 0) : Type 0 where
  found : A → Found A
  value_error : Message → Found A
  crashed : String → Found A

infixl 5 ◌>>=◌
unfoldable pub ◌>>=◌ : {A B : Type 0} → Found A → (A → Found B) → Found B
found a >>= f = f a
value_error m >>= f = value_error m
crashed e >>= f = crashed e

-- `if row is None: raise ValueError(...)`
abbrev pub known : {A : Type 0} → Option A → Message → Found A
known none m = value_error m
known (some a) m = found a

-- `query.one_or_none()`
abbrev pub one_or_none : {A : Type 0} → List A → Found (Option A)
one_or_none [] = found none
one_or_none (a ∷ []) = found (some a)
one_or_none (a ∷ b ∷ rest) = crashed "MultipleResultsFound"

-- `_settlement_source`
unfoldable pub settlement_source : String → String
settlement_source environment =
    if environment == "test" || environment == "live"
    then "provider"
    else if environment == "simulated"
    then "simulator"
    else "unattributed"

-- The payment_execution and payment_result of a bundle.
pub record PaymentResult : Type 0 where
  pub authorization_id : String
  pub transaction_id : String
  pub provider : String
  pub provider_payment_id : Option String
  pub provider_environment : String
  pub provider_key_id_prefix : Option String
  pub provider_api_base : Option String
  pub provider_order_id : Option String
  pub webhook_event : Option String
  pub webhook_verified : Bool
  pub settlement_source : String
  pub final_state : TxnState
  pub terminal : Bool

abbrev pub environment_of : ProviderTransaction → String
environment_of t = if t.provider_environment == "" then "unknown" else t.provider_environment

unfoldable pub payment_result : PaymentIntent → ProviderTransaction → PaymentResult
unfolding settlement_source
payment_result i t = record {
  authorization_id = t.authorization_id;
  transaction_id = i.transaction_id;
  provider =
      if starts_with (text_or t.provider_api_base "") "in-memory://"
      then "reference-autonomous"
      else "razorpay";
  provider_payment_id = t.razorpay_payment_id;
  provider_environment = environment_of t;
  provider_key_id_prefix = t.provider_key_id_prefix;
  provider_api_base = t.provider_api_base;
  provider_order_id = t.razorpay_order_id;
  webhook_event = t.webhook_event_id;
  webhook_verified = is_some t.webhook_event_id;
  settlement_source = settlement_source (environment_of t);
  final_state = t.state;
  terminal = is_terminal t.state;
}

-- One entry of the audit record.
pub record AuditEntry : Type 0 where
  pub kind : String
  pub actor : String
  pub transaction_id : String
  pub detail : Detail
  pub previous_state : Option Value
  pub current_state : Option Value
  pub reasons : Value
  pub prev_hash : String
  pub event_hash : String

-- `detail.get(key)`
abbrev pub lookup : String → Detail → Option Value
lookup key [] = none
lookup key ((k, v) ∷ rest) = if k == key then some v else lookup key rest

abbrev pub value_or : Option Value → Option Value → Option Value
value_or none d = d
value_or (some v) d = some v

unfoldable pub audit_entry : AuditEvent → AuditEntry
audit_entry e = record {
  kind = e.kind;
  actor = e.agent_id;
  transaction_id = e.transaction_id;
  detail = e.detail;
  previous_state = value_or (lookup "previous_state" e.detail) (lookup "from_state" e.detail);
  current_state = value_or (lookup "current_state" e.detail) (lookup "to_state" e.detail);
  reasons = elim (lookup "reasons" e.detail) [ none ↦ Value.reasons [] | some v ↦ v ];
  prev_hash = e.prev_hash;
  event_hash = e.event_hash;
}

-- The policy results of the first decision on record.
abbrev pub decided_policies : List AuditEvent → Value
decided_policies events = elim (first (λ (e : AuditEvent). e.kind == "intent_decided") events) [
  | none ↦ policies []
  | some e ↦ elim (lookup "policy_results" e.detail) [ none ↦ policies [] | some v ↦ v ]
]

pub data CredentialStatus : Type 0 where
  revoked superseded active : CredentialStatus

abbrev pub is_active_credential : CredentialStatus → Bool
is_active_credential CredentialStatus.revoked = false
is_active_credential CredentialStatus.superseded = false
is_active_credential CredentialStatus.active = true

abbrev pub credential_status : Credential → CredentialStatus
credential_status c =
    if c.revoked then CredentialStatus.revoked else elim (present c.superseded_by) [
      | none ↦ CredentialStatus.active
      | some s ↦ CredentialStatus.superseded
    ]

abbrev pub is_revoked_agent : AgentStatus → Bool
is_revoked_agent AgentStatus.pending = false
is_revoked_agent AgentStatus.active = false
is_revoked_agent AgentStatus.revoked = true

-- The causal chain of the payment.
pub record CausalProvenance : Type 0 where
  pub llm_attributed : Bool
  pub llm_run_id : Option String
  pub llm_model : Option String
  pub llm_tool_call_id : Option String
  pub llm_tool_name : Option String
  pub authorization_id : String
  pub provider_order_id : Option String
  pub provider_payment_id : Option String
  pub provider_environment : Option String

-- What `collect_proof_bundle` returns. An artifact that copies a row is the row.
pub record ProofBundle : Type 0 where
  pub transaction_id : String
  pub created_at : ℕ
  pub parent_trust : ParentAuthority
  pub delegation : DelegationRecord
  pub agent_identity : Agent
  pub credential : Credential
  pub credential_status : CredentialStatus
  pub authenticated : Bool
  pub last_nonce : Option AuthNonce
  pub payment_intent : PaymentIntent
  pub causal_provenance : CausalProvenance
  pub policy_results : Value
  pub user_payment_mandate : Option UserPaymentMandate
  pub signature_valid : Option Bool
  pub bounded_authorization : Option BoundedAuthorization
  pub payment_result : Option PaymentResult
  pub chain_verified : Bool
  pub events : List AuditEntry
  pub revoked : Bool
  pub revocation_id : Option String
