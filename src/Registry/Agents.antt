-- ===== src/Registry/Agents.antt =====
-- `register_agent` and `get_agent_card` of app/routers/agents.py, and `v1_register_agent` of
-- app/routers/v1.py: an agent is bound to a key that its parent delegated to. The signed cards, which
-- only show the row, are left out.
use paari_payments_protocol.Prelude.{
  ltb, if◌then◌else◌, ◌==◌, number_eq, text_eq, text_or, select, first, is_some, ℕ, ◌+◌, String,
  true, false, not, ◌&&◌, Option, none, some, List, [], ◌∷◌, ◌++◌,
}
use paari_payments_protocol.Models.{
  ParentAuthority, Agent, AgentStatus, Credential, is_active_parent,
}
use paari_payments_protocol.Models.Rows.{says, DelegationRecord, str}
use paari_payments_protocol.Host.{Host, DelegationDocument, CredentialClaims}
use paari_payments_protocol.Audit
use paari_payments_protocol.Exec.{
  Exec, pure, gets, ◌>>=◌, ◌>>◌, modify, commit, require, raise_if, audit, parent_revoked, http,
  paari,
}
use paari_payments_protocol.Payments.Authenticate.{keep_if, find_agent}
use paari_payments_protocol.Registry.{
  find_parent, find_delegation, trust_refusal, labelled, credential_ttl, earlier,
}

-- The identifiers that a registration draws.
pub record NewIds : Type 0 where
  pub agent_pk : ℕ
  pub agent_id : String
  pub credential_id : String

-- schemas.AgentRegistrationRequest, as far as it is kept
pub record AgentRegistration : Type 0 where
  pub public_key_pem : String
  pub delegation : DelegationDocument
  pub delegation_signature_b64 : String

-- The credential and when it expires.
pub record Registered : Type 0 where
  pub agent : Agent
  pub credential_jwt : String
  pub credential_expires_at : ℕ

-- The row that marks a delegation as used.
abbrev pub consumed_delegation : ℕ → String → ℕ → String → DelegationDocument → DelegationRecord
consumed_delegation now org_id parent_pk fingerprint d = record {
  delegation_id = d.delegation_id;
  org_id = org_id;
  parent_pk = parent_pk;
  agent_public_key_fingerprint = fingerprint;
  granted_capabilities = d.granted_capabilities;
  payment_limit_minor_units = d.payment_limit_minor_units;
  currency = d.currency;
  issued_at = d.issued_at;
  expires_at = d.expires_at;
  consumed = true;
  consumed_at = some now;
}

-- The agent: capabilities and limits come only from the delegation, the organization from the parent.
abbrev pub delegated_agent :
    NewIds → ParentAuthority → DelegationDocument → String → Option String → Agent
delegated_agent ids parent d key version = record {
  id = ids.agent_pk;
  agent_id = ids.agent_id;
  org_id = parent.org_id;
  parent_pk = parent.id;
  delegation_id = d.delegation_id;
  public_key_pem = key;
  old_public_key_pem = none;
  key_sunset_at = none;
  granted_capabilities = d.granted_capabilities;
  payment_limit_minor_units = d.payment_limit_minor_units;
  currency = d.currency;
  status = AgentStatus.active;
  valid_until = some d.expires_at;
  protocol_version = version;
}

-- `issue_credential_jwt` for an agent
abbrev pub credential_claims : ℕ → String → Agent → String → CredentialClaims
credential_claims now credential_id a version = record {
  sub = a.agent_id;
  jti = credential_id;
  iat = now;
  exp = now + credential_ttl;
  protocol_version = version;
  capabilities = a.granted_capabilities;
  payment_limit_minor_units = a.payment_limit_minor_units;
  currency = a.currency;
}

-- The row of a new credential, which never outlives the delegation.
abbrev pub new_credential : ℕ → String → String → ℕ → ℕ → Credential
new_credential now credential_id org_id agent_pk delegation_expires_at = record {
  credential_id = credential_id;
  org_id = org_id;
  agent_pk = agent_pk;
  issued_at = now;
  expires_at = earlier (now + credential_ttl) delegation_expires_at;
  revoked = false;
  superseded_by = none;
  rotates_at = none;
}

abbrev pub delegation_entry : String → String → String → String → Option String → Audit.Entry
delegation_entry delegation_id agent_id parent_id kind org_id = record {
  transaction_id = labelled "delegation:" delegation_id;
  agent_id = agent_id;
  parent_id = some parent_id;
  kind = kind;
  detail = [];
  org_id = org_id;
}

unfoldable pub add_delegation : DelegationRecord → Exec Unit
add_delegation d = modify λ db. record db { delegations = db.delegations ++ d ∷ [] }

unfoldable pub add_agent : Agent → Exec Unit
add_agent a = modify λ db. record db { agents = db.agents ++ a ∷ [] }

unfoldable pub add_credential : Credential → Exec Unit
add_credential c = modify λ db. record db { credentials = db.credentials ++ c ∷ [] }

module _ (h : Host) (now : ℕ) (ids : NewIds) where
  -- `register_agent`, after its checks
  unfoldable pub bind_agent : ParentAuthority → AgentRegistration → String → Exec Registered
  unfolding add_delegation add_agent add_credential
  bind_agent parent req fingerprint = do
    let d = req.delegation
    let agent = delegated_agent ids parent d req.public_key_pem none
    let credential = new_credential now ids.credential_id "default" ids.agent_pk d.expires_at
    add_delegation (consumed_delegation now "default" parent.id fingerprint d)
    add_agent agent
    commit
    add_credential credential
    commit
    audit h now
        (record (delegation_entry d.delegation_id ids.agent_id parent.parent_id
          "delegation_consumed" none) { detail = ("delegation_id", str d.delegation_id) ∷ [] })
    audit h now
        (record (delegation_entry d.delegation_id ids.agent_id parent.parent_id "credential_issued"
          none) { detail = ("credential_id", str ids.credential_id) ∷ [] })
    commit
    pure (record {
      agent = agent;
      credential_jwt = h.encode_credential (credential_claims now ids.credential_id agent "1.0");
      credential_expires_at = credential.expires_at;
    })

  -- `register_agent`
  unfoldable pub register_agent : AgentRegistration → Exec Registered
  unfolding bind_agent
  register_agent req = do
    let d = req.delegation
    found ← gets (find_parent d.parent_id)
    parent ←
        require (keep_if (λ (p : ParentAuthority). is_active_parent p.status) found)
          (paari 401 parent_revoked "Unknown, unverified, or revoked parent authority")
    raise_if (is_some (trust_refusal parent))
        (paari 401 parent_revoked (text_or (trust_refusal parent) ""))
    raise_if
        (not (
          h.verify_signature parent.public_key_pem (h.canonical_delegation d)
            req.delegation_signature_b64))
        (http 401 (says "Delegation signature verification failed"))
    raise_if (ltb d.expires_at now) (http 401 (says "Delegation has expired"))
    let fingerprint = h.sha256 req.public_key_pem
    raise_if (not (d.agent_public_key_fingerprint == fingerprint))
        (http 401 (says "Delegation is not bound to this agent's public key"))
    existing ← gets (find_delegation d.delegation_id)
    raise_if (is_some existing) (http 409 (says "Delegation has already been consumed"))
    bind_agent parent req fingerprint

-- `get_agent_card` and `v1_get_card`: what the card is made of, with the newest credential in force
abbrev pub newest : List Credential → Option Credential
newest [] = none
newest (c ∷ cs) = elim (newest cs) [
  | none ↦ some c
  | some d ↦ some (if ltb c.issued_at d.issued_at then d else c)
]

unfoldable pub get_agent_card : String → Exec (Agent × Option ParentAuthority × String)
get_agent_card agent_id = do
  found ← gets (find_agent agent_id)
  agent ← require found (http 404 (says "Agent not found"))
  parent ← gets λ db. first (λ (p : ParentAuthority). p.id == agent.parent_pk) db.parents
  held ← gets λ db.
      newest (select (λ (c : Credential). c.agent_pk == agent.id && not c.revoked) db.credentials)
  pure (agent, parent, elim held [ none ↦ "" | some c ↦ c.credential_id ])
