-- ===== src/Evidence.antt =====
-- app/proof_bundle.py: the evidence of one payment, assembled from the stored rows. The discovery
-- document and the signatures of the agent card are left out, and so are constant entries.
pub mod Artifacts
pub mod Honest
pub mod Routes
use Prim.Native.String.{◌++◌ as text_append}
use text.Mathlib.Text.{starts_with}
use paari_payments_protocol.Prelude.{
  ltb, if◌then◌else◌, ◌==◌, number_eq, text_eq, text_or, first, get_last?, select, is_some, ℕ,
  String, Bool, true, false, not, ◌&&◌, ◌||◌, Option, none, some, List, [], ◌∷◌, map,
}
use paari_payments_protocol.Governance.{Reason, PolicyResult, GovernanceDecision}
use paari_payments_protocol.Transitions.{TxnState, is_terminal}
use paari_payments_protocol.Models.{
  ParentAuthority, Agent, AgentStatus, is_active_agent, ParentStatus, Credential,
  UserPaymentMandate,
}
use paari_payments_protocol.Models.Rows.{
  Db, PaymentIntent, BoundedAuthorization, ProviderTransaction, AuditEvent, Value, null, reasons,
  policies, Detail, DelegationRecord, RevocationRecord, AuthNonce, Message,
}
use paari_payments_protocol.Host.{Host}
use paari_payments_protocol.Audit.{verify_chain, of_transaction}
use paari_payments_protocol.Payments.Authenticate.{find_agent, parent_for}
use paari_payments_protocol.Mandates.Signature.{present, verify_mandate_signature}
use paari_payments_protocol.Mandates.View.{is_accepted}
use paari_payments_protocol.Mandates.Consent.{find_mandate}
use paari_payments_protocol.Registry.{find_delegation}
use paari_payments_protocol.Registry.Agents.{newest}
use paari_payments_protocol.Evidence.Artifacts.{
  ◌>>=◌, Found, known, one_or_none, payment_result, audit_entry, decided_policies,
  is_active_credential, credential_status, is_revoked_agent, CausalProvenance, ProofBundle, crashed,
  revoked, found, value_error,
}

-- The mandate of an intent.
abbrev pub mandate_of : PaymentIntent → Db → Option UserPaymentMandate
mandate_of i db = elim (present i.mandate_id) [ none ↦ none | some id ↦ find_mandate id db ]

abbrev pub signature_evidence : Host → Option UserPaymentMandate → Option Bool
signature_evidence h none = none
signature_evidence h (some m) = elim (present m.signature_b64) [
  | none ↦ none
  | some s ↦ some (is_accepted (verify_mandate_signature h m))
]

-- `auth.authorization_id` of an authorization that may be None: the attribute of None does not exist.
abbrev pub attribute : Option BoundedAuthorization → Found String
attribute none = crashed "AttributeError"
attribute (some a) = found a.authorization_id

-- The provider's row of an authorization.
unfoldable pub provider_rows :
    Option BoundedAuthorization → List ProviderTransaction → List ProviderTransaction
provider_rows none ts = []
provider_rows (some a) ts =
    select (λ (t : ProviderTransaction). t.authorization_id == a.authorization_id) ts

abbrev pub unknown : String → String → Message
unknown text about = record { text = text; about = about }

-- The one intent with a transaction identifier.
abbrev pub only_intent : String → List PaymentIntent → Found PaymentIntent
only_intent id [] = value_error (unknown "unknown transaction_id: " id)
only_intent id (i ∷ []) = found i
only_intent id (i ∷ j ∷ rest) = value_error (unknown "ambiguous transaction_id: " id)

unfoldable pub causal_provenance :
    PaymentIntent → String → Option ProviderTransaction → CausalProvenance
causal_provenance i authorization_id t = record {
  llm_attributed = i.llm_attributed;
  llm_run_id = i.llm_run_id;
  llm_model = i.llm_model;
  llm_tool_call_id = i.llm_tool_call_id;
  llm_tool_name = i.llm_tool_name;
  authorization_id = authorization_id;
  provider_order_id = elim t [ none ↦ none | some t ↦ t.razorpay_order_id ];
  provider_payment_id = elim t [ none ↦ none | some t ↦ t.razorpay_payment_id ];
  provider_environment = elim t [ none ↦ none | some t ↦ some t.provider_environment ];
}

-- `collect_proof_bundle`
unfoldable pub collect_proof_bundle : Host → Db → String → Found ProofBundle
unfolding payment_result audit_entry provider_rows causal_provenance
collect_proof_bundle h db transaction_id = do
  intent ←
      only_intent transaction_id
        (select (λ (i : PaymentIntent). i.transaction_id == transaction_id) db.intents)
  agent ←
      known (find_agent intent.agent_id db)
        (unknown "unknown agent for transaction: " transaction_id)
  parent ← known (parent_for agent db) (unknown "unknown parent for agent " agent.agent_id)
  delegation ←
      known (find_delegation agent.delegation_id db)
        (unknown "unknown delegation for agent " agent.agent_id)
  credential ←
      known (newest (select (λ (c : Credential). c.agent_pk == agent.id) db.credentials))
        (unknown "unknown credential for agent " agent.agent_id)
  auth ←
      one_or_none
        (select (λ (a : BoundedAuthorization). a.intent_id == intent.intent_id) db.authorizations)
  txn ← one_or_none (provider_rows auth db.transactions)
  revocation ←
      one_or_none (select (λ (r : RevocationRecord). r.agent_id == agent.agent_id) db.revocations)
  authorization_id ← attribute auth
  let events = select (of_transaction transaction_id) db.audit_events
  let mandate = mandate_of intent db
  let last_nonce =
      get_last? (select (λ (n : AuthNonce). n.agent_id == agent.agent_id && n.used) db.nonces)
  found (record {
    transaction_id = transaction_id;
    created_at = intent.created_at;
    parent_trust = parent;
    delegation = delegation;
    agent_identity = agent;
    credential = credential;
    credential_status = credential_status credential;
    authenticated =
        is_some last_nonce
        && is_active_credential (credential_status credential)
        && is_active_agent agent.status;
    last_nonce = last_nonce;
    payment_intent = intent;
    causal_provenance = causal_provenance intent authorization_id txn;
    policy_results = decided_policies events;
    user_payment_mandate = mandate;
    signature_valid = signature_evidence h mandate;
    bounded_authorization = auth;
    payment_result = elim txn [ none ↦ none | some t ↦ some (payment_result intent t) ];
    chain_verified = verify_chain h db transaction_id;
    events = map audit_entry events;
    revoked = is_revoked_agent agent.status || is_some revocation;
    revocation_id = elim revocation [ none ↦ none | some r ↦ some r.revocation_id ];
  })
