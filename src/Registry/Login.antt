-- ===== src/Registry/Login.antt =====
-- app/routers/auth.py: an agent proves that it holds its key, by a nonce that is used once.
use paari_payments_protocol.Prelude.{
  ltb, if◌then◌else◌, ◌==◌, number_eq, text_eq, text_or, first, update_where, ℕ, ◌+◌, String, Bool,
  true, false, not, ◌&&◌, ◌||◌, Option, none, some, [], ◌∷◌, ◌++◌,
}
use paari_payments_protocol.Models.{Agent, Credential, is_active_agent}
use paari_payments_protocol.Models.Rows.{says, AuthNonce, str}
use paari_payments_protocol.Host.{Host, NewSession}
use paari_payments_protocol.Exec.{
  Exec, pure, gets, ◌>>=◌, ◌>>◌, modify, commit, require, raise_if, audit, Exn, http,
}
use paari_payments_protocol.Payments.Authenticate.{keep_if, find_agent, parent_for}
use paari_payments_protocol.Registry.{labelled}

-- CHALLENGE_NONCE_TTL and SESSION_TOKEN_TTL
abbrev pub challenge_nonce_ttl : ℕ
challenge_nonce_ttl = 120

abbrev pub session_token_ttl : ℕ
session_token_ttl = 900

abbrev not_eligible : Exn
not_eligible = http 401 (says "Agent not eligible to authenticate")

-- `create_challenge`; `nonce` is new
unfoldable pub create_challenge : ℕ → String → String → Exec (String × ℕ)
create_challenge now nonce agent_id = do
  found ← gets (find_agent agent_id)
  agent ← require (keep_if (λ (a : Agent). is_active_agent a.status) found) not_eligible
  modify λ db. record db {
    nonces =
        db.nonces
        ++ record {
          nonce = nonce;
          org_id = "default";
          agent_id = agent.agent_id;
          expires_at = now + challenge_nonce_ttl;
          used = false;
        }
          ∷ [];
  }
  commit
  pure (nonce, now + challenge_nonce_ttl)

-- schemas.VerifyRequest
pub record VerifyRequest : Type 0 where
  pub agent_id : String
  pub nonce : String
  pub signature_b64 : String
  pub credential_jwt : String

abbrev pub challenge_of : VerifyRequest → AuthNonce → Bool
challenge_of req n = n.nonce == req.nonce && n.agent_id == req.agent_id

-- The key that signed the nonce, by its fingerprint: the current one, or in the grace window after a
-- rotation the previous one.
unfoldable pub proven_key : Host → ℕ → Agent → VerifyRequest → Option String
proven_key h now agent req =
    if h.verify_signature agent.public_key_pem req.nonce req.signature_b64
    then some (h.sha256 agent.public_key_pem)
    else elim agent.old_public_key_pem [
      | none ↦ none
      | some old ↦ elim agent.key_sunset_at [
        | none ↦ none
        | some sunset ↦
            if not (old == "")
              && ltb now sunset
              && h.verify_signature old req.nonce req.signature_b64
            then some (h.sha256 old)
            else none
      ]
    ]

-- Marks the nonce as used.
unfoldable pub burn_nonce : VerifyRequest → Exec Unit
burn_nonce req = modify λ db. record db {
  nonces = update_where (challenge_of req) (λ n. record n { used = true }) db.nonces;
}

-- What a proof of possession is answered with: the nonce is burned, and a session token is issued.
unfoldable pub open_session :
    Host → ℕ → String → VerifyRequest → Agent → Credential → String → Exec (NewSession × String)
unfolding burn_nonce
open_session h now jti req agent credential fingerprint = do
  burn_nonce req
  commit
  parent ← gets (parent_for agent)
  audit h now (record {
    transaction_id = labelled "auth:" req.nonce;
    agent_id = agent.agent_id;
    parent_id = elim parent [ none ↦ none | some p ↦ some p.parent_id ];
    kind = "challenge_verified";
    detail = ("credential_id", str credential.credential_id) ∷ [];
    org_id = none;
  })
  commit
  let session : NewSession = record {
    sub = agent.agent_id;
    jti = jti;
    credential_id = credential.credential_id;
    iat = now;
    exp = now + session_token_ttl;
    protocol_version = text_or agent.protocol_version "legacy";
    capabilities = agent.granted_capabilities;
    payment_limit_minor_units = agent.payment_limit_minor_units;
    jkt = fingerprint;
  }
  pure (session, h.encode_session session)

-- `verify_challenge`; `jti` is new. It answers the session token's claims and the token.
unfoldable pub verify_challenge : Host → ℕ → String → VerifyRequest → Exec (NewSession × String)
unfolding proven_key open_session
verify_challenge h now jti req = do
  found ← gets (find_agent req.agent_id)
  agent ← require (keep_if (λ (a : Agent). is_active_agent a.status) found) not_eligible
  claims ←
      require (h.decode_credential now req.credential_jwt)
        (http 401 (says "Invalid or expired credential"))
  raise_if (not (claims.sub == agent.agent_id)) (http 401 (says "Credential does not match agent"))
  held ← gets λ db. first (λ (c : Credential). c.credential_id == claims.jti) db.credentials
  credential ←
      require (keep_if (λ (c : Credential). not c.revoked) held)
        (http 401 (says "Credential has been revoked"))
  raise_if (ltb credential.expires_at now) (http 401 (says "Credential has expired"))
  sought ← gets λ db. first (challenge_of req) db.nonces
  require (keep_if (λ (n : AuthNonce). not (n.used || ltb n.expires_at now)) sought)
      (http 401 (says "Challenge invalid, expired, or already used"))
  fingerprint ←
      require (proven_key h now agent req) (http 401 (says "Signature verification failed"))
  open_session h now jti req agent credential fingerprint
