-- ===== src/Registry/Protocol.antt =====
-- `v1_register_agent` of app/routers/v1.py: registration by a signed envelope.
use paari_payments_protocol.Prelude.{
  ltb, leb, ◌==◌, text_eq, number_eq, is_empty, is_some, ℕ, ◌+◌, String, not, ◌&&◌, ◌||◌, Option,
  none, some, List, [], ◌∷◌,
}
use paari_payments_protocol.Models.{ParentAuthority, is_active_parent}
use paari_payments_protocol.Models.Rows.{str}
use paari_payments_protocol.Host.{Host, DelegationDocument}
use paari_payments_protocol.Exec.{
  Exec, pure, gets, ◌>>=◌, ◌>>◌, commit, require, raise_if, audit, paari, parent_revoked,
  unsupported_protocol_version, envelope_signature_invalid, delegation_expired, ErrorCode,
  limit_exceeded,
}
use paari_payments_protocol.Envelope.{
  Crypto, Fields, Json, text, number, object, other_json, get_item, verify_envelope, is_text,
}
use paari_payments_protocol.Payments.Authenticate.{keep_if, clock_skew_leeway_seconds}
use paari_payments_protocol.Registry.{find_parent, find_delegation}
use paari_payments_protocol.Registry.Agents.{
  NewIds, Registered, consumed_delegation, delegated_agent, credential_claims, new_credential,
  delegation_entry, add_delegation, add_agent, add_credential,
}

-- The delegation in a payload: its canonical text, its fields, and the times as `int` reads them. A
-- limit that is not positive is 0, and one that `int` does not read is left out.
pub record PayloadDelegation : Type 0 where
  pub canonical : String
  pub delegation_id : String
  pub parent_id : String
  pub agent_public_key_fingerprint : String
  pub granted_capabilities : List String
  pub payment_limit_minor_units : ℕ
  pub currency : String
  pub issued_at : Option ℕ
  pub expires_at : Option ℕ

-- The entries of the payload that are read; `none` is a delegation without its required fields.
pub record RegisterPayload : Type 0 where
  pub public_key_pem : String
  pub delegation : Option PayloadDelegation
  pub delegation_signature_b64 : String

-- `timedelta(days=366)`
abbrev pub max_delegation_lifetime : ℕ
max_delegation_lifetime = 31622400

abbrev pub object_text : Option Json → Option String
object_text none = none
object_text (some (object o)) = some o
object_text (some (text t)) = none
object_text (some (number n)) = none
object_text (some (other_json t)) = none

abbrev pub document_of : PayloadDelegation → ℕ → ℕ → DelegationDocument
document_of d issued expires = record {
  delegation_id = d.delegation_id;
  parent_id = d.parent_id;
  agent_public_key_fingerprint = d.agent_public_key_fingerprint;
  granted_capabilities = d.granted_capabilities;
  payment_limit_minor_units = d.payment_limit_minor_units;
  currency = d.currency;
  issued_at = issued;
  expires_at = expires;
}

module _ (h : Host) (c : Crypto) (read_payload : String → RegisterPayload) (now : ℕ)
    (ids : NewIds) where
  -- The writes, in one transaction.
  unfoldable pub v1_bind_agent :
      ParentAuthority → DelegationDocument → String → String → Exec Registered
  unfolding add_delegation add_agent add_credential
  v1_bind_agent parent d key fingerprint = do
    let agent = delegated_agent ids parent d key (some "1.0")
    let credential = new_credential now ids.credential_id parent.org_id ids.agent_pk d.expires_at
    add_delegation (consumed_delegation now parent.org_id parent.id fingerprint d)
    add_agent agent
    add_credential credential
    audit h now
        (record (delegation_entry d.delegation_id ids.agent_id parent.parent_id
          "delegation_consumed" (some parent.org_id)) {
            detail = ("delegation_id", str d.delegation_id) ∷ ("protocol", str "1.0") ∷ [];
          })
    audit h now
        (record (delegation_entry d.delegation_id ids.agent_id parent.parent_id "credential_issued"
          (some parent.org_id)) { detail = ("credential_id", str ids.credential_id) ∷ [] })
    commit
    pure (record {
      agent = agent;
      credential_jwt = h.encode_credential (credential_claims now ids.credential_id agent "1.0");
      credential_expires_at = credential.expires_at;
    })

  -- The checks of the delegation, for a key that signed the envelope.
  unfoldable pub v1_check_delegation :
      RegisterPayload → PayloadDelegation → String → Exec Registered
  unfolding v1_bind_agent
  v1_check_delegation payload d fingerprint = do
    found ← gets (find_parent d.parent_id)
    parent ←
        require (keep_if (λ (p : ParentAuthority). is_active_parent p.status) found)
          (paari 401 parent_revoked "Unknown, unverified, or revoked parent authority")
    raise_if
        (not
          (h.verify_signature parent.public_key_pem d.canonical payload.delegation_signature_b64))
        (paari 401 envelope_signature_invalid "Delegation signature verification failed")
    issued ← require d.issued_at (paari 400 delegation_expired "Delegation timestamps invalid")
    expires ← require d.expires_at (paari 400 delegation_expired "Delegation timestamps invalid")
    raise_if (ltb (now + clock_skew_leeway_seconds) issued)
        (paari 401 delegation_expired "Delegation is issued in the future")
    raise_if (leb expires now) (paari 401 delegation_expired "Delegation has expired")
    raise_if (ltb (issued + max_delegation_lifetime) expires)
        (paari 400 delegation_expired "Delegation lifetime exceeds protocol maximum")
    raise_if (not (d.agent_public_key_fingerprint == fingerprint))
        (paari 401 envelope_signature_invalid "Delegation is not bound to this agent's public key")
    existing ← gets (find_delegation d.delegation_id)
    raise_if (is_some existing)
        (paari 409 envelope_signature_invalid "Delegation has already been consumed")
    raise_if (is_empty d.granted_capabilities) (
        paari 400 ErrorCode.capability_not_delegated
          "Delegation must grant at least one capability")
    raise_if (d.payment_limit_minor_units == 0)
        (paari 400 limit_exceeded "Delegated payment limit must be positive")
    v1_bind_agent parent (document_of d issued expires) payload.public_key_pem fingerprint

  -- `v1_register_agent` of an envelope that is a JSON object
  unfoldable pub v1_register_agent : Fields → Exec Registered
  unfolding v1_check_delegation
  v1_register_agent envelope = do
    raise_if
        (not (
          is_text "1.0" (get_item "version" envelope)
          && is_text "paari" (get_item "protocol" envelope)))
        (paari 400 unsupported_protocol_version "Unsupported protocol version")
    body ←
        require (object_text (get_item "payload" envelope))
          (paari 400 envelope_signature_invalid "Envelope has no payload")
    let payload = read_payload body
    let key = payload.public_key_pem
    raise_if (key == "" || not (verify_envelope c key envelope "paari" now))
        (paari 401 envelope_signature_invalid "Envelope signature verification failed")
    raise_if (not (is_text (h.sha256 key) (get_item "sender" envelope))) (
        paari 401 envelope_signature_invalid
          "Envelope sender is not bound to the registering agent key")
    d ←
        require payload.delegation
          (paari 400 envelope_signature_invalid "Delegation missing required fields")
    v1_check_delegation payload d (h.sha256 key)
