-- ===== src/Payments/Authenticate.antt =====
-- `_resolve_session_token`, `_authenticate` and `_key_for_session` of app/routers/payments.py, and
-- `verify_request_proof` of app/security.py.
use Prim.Native.String.{slice, len}
use text.Mathlib.Text.{starts_with}
use paari_payments_protocol.Prelude.{
  ltb, leb, if◌then◌else◌, ◌==◌, number_eq, text_eq, first, is_some, ℕ, ◌+◌, ◌-◌, String, Bool,
  false, not, ◌&&◌, ◌||◌, Option, none, some, [], ◌∷◌, ◌++◌,
}
use paari_payments_protocol.Models.{
  is_active_agent, is_active_parent, ParentAuthority, Agent, Credential,
}
use paari_payments_protocol.Models.Rows.{says, RequestProof, Db}
use paari_payments_protocol.Host.{Host, SessionClaims, ProofClaims}
use paari_payments_protocol.Config.{Environment, is_one}
use paari_payments_protocol.Exec.{
  Exec, pure, raise, gets, require, raise_if, when, Exn, session_invalid, proof_replayed,
  parent_revoked, agent_revoked, http, paari, ◌>>=◌, ◌>>◌, modify,
}

-- An HTTP request as the handlers read it, and the time at which it is handled. `path` has the
-- query.
pub record HttpRequest : Type 0 where
  pub now : ℕ
  pub method : String
  pub path : String
  pub body_token : String
  pub authorization : String
  pub proof : String

abbrev pub keep_if {ℓ} : {A : Type ℓ} → (A → Bool) → Option A → Option A
keep_if p none = none
keep_if p (some a) = if p a then some a else none

-- A time column that may be NULL, against the clock.
abbrev pub passed : Option ℕ → ℕ → Bool
passed none now = false
passed (some t) now = ltb t now

unfoldable pub resolve_session_token : Host → HttpRequest → Exec String
resolve_session_token h q =
    let header_token =
      if starts_with (h.lower q.authorization) "bearer "
      then h.strip (slice q.authorization 7 (len q.authorization))
      else "" in
    if not (header_token == "") && not (q.body_token == "") && not (header_token == q.body_token)
    then raise (http 400 (says "Authorization header and body session token do not match"))
    else pure (if header_token == "" then q.body_token else header_token)

-- `_key_for_session`: the key only; `none` is the InvalidTokenError
unfoldable pub key_for_session : Host → ℕ → Agent → SessionClaims → Option String
key_for_session h now agent claims =
    let current = h.sha256 agent.public_key_pem in
    if claims.jkt == current || claims.jkt == ""
    then some agent.public_key_pem
    else elim (agent.old_public_key_pem) [
      | none ↦ none
      | some old ↦ elim (agent.key_sunset_at) [
        | none ↦ none
        | some sunset ↦ if ltb now sunset && claims.jkt == h.sha256 old then some old else none
      ]
    ]

-- REQUEST_PROOF_TTL and CLOCK_SKEW_LEEWAY_SECONDS
abbrev pub request_proof_ttl : ℕ
request_proof_ttl = 90

abbrev pub clock_skew_leeway_seconds : ℕ
clock_skew_leeway_seconds = 60

abbrev proof_exn : Exn
proof_exn = paari 401 proof_replayed "Paari request proof invalid or replayed"

-- The checks of `verify_request_proof` before the database is read.
unfoldable pub proof_claims_ok : Host → HttpRequest → String → String → ProofClaims → Bool
proof_claims_ok h q token agent_id c =
    let window = request_proof_ttl + clock_skew_leeway_seconds in
    c.alg == "EdDSA"
    && c.typ == "paari-proof"
    && c.sub == agent_id
    && leb (q.now - c.iat) window
    && leb (c.iat - q.now) window
    && c.htm == h.upper q.method
    && c.htu == q.path
    && c.ath == h.access_token_hash token
    && not (c.jti == "")

unfoldable pub verify_request_proof : Host → HttpRequest → String → Agent → String → Exec Unit
unfolding proof_claims_ok
verify_request_proof h q token agent key = do
  c ← require (h.decode_proof q.now q.proof key) proof_exn
  raise_if (not (proof_claims_ok h q token agent.agent_id c)) proof_exn
  existing ← gets (λ db. first (λ (r : RequestProof). r.jti == c.jti) db.request_proofs)
  raise_if (is_some existing) proof_exn
  modify λ db. record db {
    request_proofs =
        db.request_proofs
        ++ record {
          jti = c.jti;
          agent_id = agent.agent_id;
          org_id = if agent.org_id == "" then "default" else agent.org_id;
          issued_at = c.iat;
          expires_at = c.iat + request_proof_ttl;
        }
          ∷ [];
  }

unfoldable pub parent_for : Agent → Db → Option ParentAuthority
parent_for agent db = first (λ (p : ParentAuthority). p.id == agent.parent_pk) db.parents

abbrev pub find_agent : String → Db → Option Agent
find_agent agent_id db = first (λ (a : Agent). a.agent_id == agent_id) db.agents

module _ (h : Host) (env : Environment) (q : HttpRequest) where
  -- The part of `_authenticate` that the request proof is for.
  unfoldable pub check_proof : String → Agent → SessionClaims → Exec Unit
  unfolding verify_request_proof
  check_proof token agent claims =
      when (claims.protocol_version == "1.0" || is_one env.require_request_proof) do
        raise_if (q.proof == "") (paari 401 proof_replayed "Paari-Proof-JWT is required")
        key ← require (key_for_session h q.now agent claims) proof_exn
        verify_request_proof h q token agent key

  unfoldable pub authenticate : String → Option String → Exec (Agent × SessionClaims)
  unfolding check_proof
  authenticate token expected = do
    claims ←
        require (h.decode_session q.now token)
          (paari 401 session_invalid "Session token invalid or expired")
    raise_if (elim expected [ none ↦ false | some e ↦ not (e == "") && not (claims.sub == e) ])
        (paari 403 session_invalid "Session token does not belong to this agent")
    found ← gets (find_agent claims.sub)
    agent ←
        require (keep_if (λ (a : Agent). is_active_agent a.status) found)
          (paari 401 agent_revoked "Agent is no longer active")
    held ←
        gets
          λ db. first (λ (c : Credential). c.credential_id == claims.credential_id) db.credentials
    require (keep_if (λ (c : Credential). not (c.revoked || ltb c.expires_at q.now)) held)
        (paari 401 session_invalid "Credential is revoked or expired")
    parent ← gets (parent_for agent)
    require (keep_if (λ (p : ParentAuthority). is_active_parent p.status) parent)
        (paari 401 parent_revoked "Parent authority is no longer active")
    raise_if (passed agent.valid_until q.now)
        (paari 401 session_invalid "Agent delegation has expired")
    check_proof token agent claims
    pure (agent, claims)
