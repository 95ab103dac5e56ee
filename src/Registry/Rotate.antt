-- ===== src/Registry/Rotate.antt =====
-- `rotate_agent_key` of app/routers/v1.py: a parent delegates an agent's authority to a new key.
use paari_payments_protocol.Prelude.{
  ltb, leb, ◌==◌, number_eq, text_eq, text_or, update_where, is_some, ℕ, ◌+◌, ◌-◌, String, true,
  not, ◌&&◌, ◌||◌, some, [], ◌∷◌,
}
use paari_payments_protocol.Models.{
  ParentAuthority, Agent, Credential, is_active_agent, is_active_parent,
}
use paari_payments_protocol.Models.Rows.{says, str}
use paari_payments_protocol.Host.{Host, DelegationDocument}
use paari_payments_protocol.Exec.{
  Exec, pure, gets, ◌>>=◌, ◌>>◌, modify, commit, require, raise_if, when, audit, http,
}
use paari_payments_protocol.Payments.Authenticate.{
  keep_if, find_agent, parent_for, clock_skew_leeway_seconds,
}
use paari_payments_protocol.Registry.{
  AdminConfig, is_admin_key, require_admin_org, find_delegation, labelled, modify_agent,
}
use paari_payments_protocol.Registry.Agents.{
  consumed_delegation, add_delegation, add_credential, new_credential, credential_claims,
}

-- KEY_SUNSET_GRACE, and the age at which a rotation document is stale
abbrev pub key_sunset_grace : ℕ
key_sunset_grace = 86400

abbrev pub rotation_max_age : ℕ
rotation_max_age = 300

-- RotateKeyRequest, where the delegation has all its fields
pub record RotateKeyRequest : Type 0 where
  pub new_public_key_pem : String
  pub delegation : DelegationDocument
  pub delegation_signature_b64 : String

-- The agent under its new key; the old one stays good until the sunset.
abbrev pub rotated : ℕ → RotateKeyRequest → Agent → Agent
rotated now req a = record a {
  old_public_key_pem = some a.public_key_pem;
  key_sunset_at = some (now + key_sunset_grace);
  public_key_pem = req.new_public_key_pem;
  delegation_id = req.delegation.delegation_id;
  granted_capabilities = req.delegation.granted_capabilities;
  payment_limit_minor_units = req.delegation.payment_limit_minor_units;
  currency = req.delegation.currency;
  valid_until = some req.delegation.expires_at;
}

module _ (h : Host) (admin : AdminConfig) (key : String) (now : ℕ) where
  -- The writes of `rotate_agent_key`.
  unfoldable pub apply_rotation : Agent → ParentAuthority → String → RotateKeyRequest → Exec String
  unfolding add_delegation add_credential modify_agent
  apply_rotation agent parent credential_id req = do
    let d = req.delegation
    add_delegation
        (consumed_delegation now parent.org_id parent.id (h.sha256 req.new_public_key_pem) d)
    modify_agent agent.agent_id (rotated now req)
    modify λ db. record db {
      credentials =
          update_where (λ (c : Credential). c.agent_pk == agent.id && not c.revoked)
            (λ c. record c {
              revoked = true;
              superseded_by = some credential_id;
              rotates_at = some now;
            })
            db.credentials;
    }
    add_credential (new_credential now credential_id agent.org_id agent.id d.expires_at)
    audit h now (record {
      transaction_id = labelled "delegation:" d.delegation_id;
      agent_id = agent.agent_id;
      parent_id = some parent.parent_id;
      kind = "key_rotated";
      detail =
          ("credential_id", str credential_id)
          ∷ ("key_sunset_at", str (h.isoformat (now + key_sunset_grace)))
          ∷ [];
      org_id = some agent.org_id;
    })
    commit
    pure (
        h.encode_credential (
          credential_claims now credential_id (rotated now req agent)
            (text_or agent.protocol_version "1.0")))

  -- `rotate_agent_key`; `credential_id` is new
  unfoldable pub rotate_agent_key : String → String → RotateKeyRequest → Exec String
  unfolding apply_rotation
  rotate_agent_key credential_id agent_id req = do
    let d = req.delegation
    found ← gets (find_agent agent_id)
    agent ←
        require (keep_if (λ (a : Agent). is_active_agent a.status) found)
          (http 401 (says "Agent not eligible for rotation"))
    vouching ← gets (parent_for agent)
    parent ←
        require (keep_if (λ (p : ParentAuthority). is_active_parent p.status) vouching)
          (http 401 (says "Parent authority is no longer active"))
    when (is_admin_key admin key) (require_admin_org admin key parent.org_id)
    raise_if
        (not (
          h.verify_signature parent.public_key_pem (h.canonical_delegation d)
            req.delegation_signature_b64))
        (http 401 (says "Rotation delegation signature verification failed"))
    raise_if
        (ltb (now + clock_skew_leeway_seconds) d.issued_at
          || ltb rotation_max_age (now - d.issued_at)
          || ltb rotation_max_age (d.issued_at - now))
        (http 401 (says "Rotation delegation is stale or issued in the future"))
    raise_if (not (d.parent_id == parent.parent_id))
        (http 401 (says "Rotation delegation belongs to a different parent"))
    raise_if (leb d.expires_at now) (http 401 (says "Rotation delegation has expired"))
    raise_if (not (d.agent_public_key_fingerprint == h.sha256 req.new_public_key_pem))
        (http 401 (says "Rotation delegation is not bound to new key"))
    held ← gets (find_delegation d.delegation_id)
    raise_if (is_some held) (http 409 (says "Rotation delegation already consumed"))
    apply_rotation agent parent credential_id req
