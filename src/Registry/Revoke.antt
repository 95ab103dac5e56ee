-- ===== src/Registry/Revoke.antt =====
-- `revoke_agent` of app/routers/agents.py: an administrator, or the agent's parent by a signed
-- document, ends an agent's authority.
use paari_payments_protocol.Prelude.{
  ltb, ◌==◌, number_eq, text_eq, first, update_where, is_some, ℕ, ◌-◌, String, true, not, ◌||◌, [],
  ◌∷◌, ◌++◌,
}
use paari_payments_protocol.Models.{ParentAuthority, Agent, AgentStatus, Credential}
use paari_payments_protocol.Models.Rows.{says, RevocationRecord, str, num}
use paari_payments_protocol.Host.{Host}
use paari_payments_protocol.Exec.{
  Exec, pure, gets, ◌>>=◌, ◌>>◌, modify, commit, require, raise_if, when, http,
}
use paari_payments_protocol.Payments.Authenticate.{find_agent, parent_for}
use paari_payments_protocol.Registry.{AdminConfig, is_admin_key, modify_agent}

-- REVOCATION_MAX_AGE_SECONDS
abbrev pub revocation_max_age_seconds : ℕ
revocation_max_age_seconds = 300

-- schemas.AgentRevokeRequest; an absent field counts as an empty text or as 0, as `not` does
pub record AgentRevokeRequest : Type 0 where
  pub revocation_id : String
  pub issued_at : ℕ
  pub parent_signature_b64 : String

-- What the parent signs.
unfoldable pub revocation_document : Host → Agent → ParentAuthority → AgentRevokeRequest → String
revocation_document h agent parent req = h.canonical_detail (
    ("action", str "revoke_agent")
    ∷ ("agent_id", str agent.agent_id)
    ∷ ("parent_id", str parent.parent_id)
    ∷ ("revocation_id", str req.revocation_id)
    ∷ ("issued_at", num req.issued_at)
    ∷ [])

-- The checks where the caller has no admin key; the document is then used up.
unfoldable pub parent_authorizes : Host → ℕ → Agent → AgentRevokeRequest → Exec Unit
unfolding revocation_document
parent_authorizes h now agent req = do
  raise_if (req.revocation_id == "" || req.issued_at == 0 || req.parent_signature_b64 == "") (
      http 401
        (says "Revocation requires admin credentials or a parent-signed revocation document"))
  found ← gets (parent_for agent)
  parent ← require found (http 401 (says "Parent authority not found for this agent"))
  raise_if
      (ltb revocation_max_age_seconds (now - req.issued_at)
        || ltb revocation_max_age_seconds (req.issued_at - now))
      (http 401 (says "Revocation signature has expired - request a fresh one"))
  used ←
      gets
        λ db. first (λ (r : RevocationRecord). r.revocation_id == req.revocation_id) db.revocations
  raise_if (is_some used) (http 409 (says "Revocation document has already been used"))
  raise_if
      (not (
        h.verify_signature parent.public_key_pem (revocation_document h agent parent req)
          req.parent_signature_b64))
      (http 401 (says "Revocation signature verification failed"))
  modify λ db. record db {
    revocations =
        db.revocations
        ++ record {
          revocation_id = req.revocation_id;
          org_id = "default";
          agent_id = agent.agent_id;
          consumed_at = now;
        }
          ∷ [];
  }

-- The agent and its credentials are revoked.
unfoldable pub end_agent : Agent → Exec Unit
unfolding modify_agent
end_agent agent = do
  modify_agent agent.agent_id λ a. record a { status = AgentStatus.revoked }
  modify λ db. record db {
    credentials =
        update_where (λ (c : Credential). c.agent_pk == agent.id) (λ c. record c { revoked = true })
          db.credentials;
  }
  commit

-- `revoke_agent`
unfoldable pub revoke_agent :
    Host → AdminConfig → String → ℕ → String → AgentRevokeRequest → Exec String
unfolding parent_authorizes end_agent
revoke_agent h admin key now agent_id req = do
  found ← gets (find_agent agent_id)
  agent ← require found (http 404 (says "Agent not found"))
  when (not (is_admin_key admin key)) (parent_authorizes h now agent req)
  end_agent agent
  pure agent.agent_id
