-- ===== src/Payments/StepUp.antt =====
-- `request_mfa_challenge` and `verify_mfa_challenge` of app/routers/payments.py.
use paari_payments_protocol.Prelude.{
  ltb, ◌==◌, number_eq, text_eq, first, update_where, ℕ, ◌+◌, String, Bool, true, false, not, ◌&&◌,
  ◌||◌, Option, none, some, [], ◌∷◌, ◌++◌,
}
use paari_payments_protocol.Governance.{is_review, step_up_verified, allow}
use paari_payments_protocol.Models.{is_active_agent, is_active_parent, ParentAuthority, Agent}
use paari_payments_protocol.Models.Rows.{
  says, PaymentIntent, MfaChallenge, BoundedAuthorization, Db, str, num,
}
use paari_payments_protocol.Host.{Host}
use paari_payments_protocol.Config.{Environment}
use paari_payments_protocol.Audit
use paari_payments_protocol.Exec.{
  Exec, pure, gets, ◌>>=◌, ◌>>◌, modify, commit, require, raise_if, audit, Exn, http,
}
use paari_payments_protocol.Payments.Authenticate.{
  keep_if, resolve_session_token, parent_for, find_agent, authenticate, HttpRequest,
}
use paari_payments_protocol.Payments.Records.{
  intent_causal, mint_bounded_authorization, record_provider_txn,
}
use paari_payments_protocol.Payments.Intent.{response_of}
use paari_payments_protocol.Payments.Verdict.{IntentResponse}

-- MFA_CHALLENGE_TTL
abbrev pub mfa_challenge_ttl : ℕ
mfa_challenge_ttl = 300

abbrev pub find_intent : String → Db → Option PaymentIntent
find_intent intent_id db = first (λ (i : PaymentIntent). i.intent_id == intent_id) db.intents

-- The context that the parent signs: the challenge, bound to the exact intent.
unfoldable pub context_to_sign : Host → MfaChallenge → PaymentIntent → String
context_to_sign h c i = h.canonical_detail (
    ("purpose", str "paari_mfa_step_up")
    ∷ ("challenge_id", str c.challenge_id)
    ∷ ("intent_id", str i.intent_id)
    ∷ ("agent_id", str i.agent_id)
    ∷ ("transaction_id", str i.transaction_id)
    ∷ ("merchant", str i.merchant)
    ∷ ("amount_minor_units", num i.amount_minor_units)
    ∷ ("currency", str i.currency)
    ∷ ("nonce", str c.nonce)
    ∷ [])

abbrev pub awaits_step_up : PaymentIntent → Bool
awaits_step_up i = is_review i.decision && i.mfa_required

-- `request_mfa_challenge`; `challenge_id` and `nonce` are fresh
unfoldable pub request_mfa_challenge :
    Host → Environment → HttpRequest → String → String → String → Exec (MfaChallenge × String)
request_mfa_challenge h env q intent_id challenge_id nonce = do
  found ← gets (find_intent intent_id)
  i ← require found (http 404 (says "Payment intent not found"))
  token ← resolve_session_token h q
  authenticate h env q token (some i.agent_id)
  raise_if (not (awaits_step_up i))
      (http 400 (says "This intent does not require step-up approval"))
  let c : MfaChallenge = record {
    challenge_id = challenge_id;
    intent_id = i.intent_id;
    org_id = i.org_id;
    nonce = nonce;
    expires_at = q.now + mfa_challenge_ttl;
    used = false;
  }
  modify λ db. record db {
    challenges =
        update_where (λ (d : MfaChallenge). d.intent_id == i.intent_id && not d.used)
          (λ d. record d { used = true }) db.challenges
        ++ c ∷ [];
  }
  commit
  pure (c, context_to_sign h c i)

-- schemas.MFAVerifyRequest
pub record MfaVerifyRequest : Type 0 where
  pub intent_id : String
  pub challenge_id : String
  pub parent_signature_b64 : String

-- What the approval writes: the challenge is burned, and the intent is allowed.
unfoldable pub approve : MfaChallenge → PaymentIntent → Db → Db
approve c i db = record db {
  challenges =
      update_where (λ (d : MfaChallenge). d.challenge_id == c.challenge_id)
        (λ d. record d { used = true }) db.challenges;
  intents =
      update_where (λ (j : PaymentIntent). j.intent_id == i.intent_id)
        (λ j. record j {
          decision = allow;
          mfa_verified = true;
          reasons = j.reasons ++ step_up_verified ∷ [];
        })
        db.intents;
}

abbrev pub approved : PaymentIntent → PaymentIntent
approved i = record i {
  decision = allow;
  mfa_verified = true;
  reasons = i.reasons ++ step_up_verified ∷ [];
}

unfoldable pub mfa_verified_entry :
    Agent → ParentAuthority → MfaChallenge → PaymentIntent → Audit.Entry
mfa_verified_entry agent parent c i = record {
  transaction_id = i.transaction_id;
  agent_id = agent.agent_id;
  parent_id = some parent.parent_id;
  kind = "mfa_verified";
  detail = ("challenge_id", str c.challenge_id) ∷ ("intent_id", str i.intent_id) ∷ intent_causal i;
  org_id = some agent.org_id;
}

unfoldable pub step_up_minted_entry :
    Host → Agent → ParentAuthority → PaymentIntent → BoundedAuthorization → Audit.Entry
step_up_minted_entry h agent parent i auth = record {
  transaction_id = i.transaction_id;
  agent_id = agent.agent_id;
  parent_id = some parent.parent_id;
  kind = "authorization_minted";
  detail =
      ("authorization_id", str auth.authorization_id)
      ∷ ("amount_minor_units", num auth.amount_minor_units)
      ∷ ("currency", str auth.currency)
      ∷ ("merchant", str auth.merchant)
      ∷ ("expires_at", str (h.isoformat auth.expires_at))
      ∷ intent_causal i;
  org_id = some agent.org_id;
}

abbrev pub inactive_exn : Exn
inactive_exn = http 401 (says "Agent or parent authority is no longer active")

-- `verify_mfa_challenge`
unfoldable pub verify_mfa_challenge : Host → ℕ → MfaVerifyRequest → Exec IntentResponse
unfolding mfa_verified_entry step_up_minted_entry approve
verify_mfa_challenge h now req = do
  found ← gets (find_intent req.intent_id)
  i ←
      require (keep_if awaits_step_up found)
        (http 400 (says "This intent is not awaiting step-up approval"))
  sought ← gets λ db.
      first (λ (c : MfaChallenge). c.challenge_id == req.challenge_id && c.intent_id == i.intent_id)
        db.challenges
  c ←
      require (keep_if (λ (c : MfaChallenge). not (c.used || ltb c.expires_at now)) sought)
        (http 401 (says "MFA challenge invalid, expired, or already used"))
  known ← gets (find_agent i.agent_id)
  agent ← require (keep_if (λ (a : Agent). is_active_agent a.status) known) inactive_exn
  vouching ← gets (parent_for agent)
  parent ←
      require (keep_if (λ (p : ParentAuthority). is_active_parent p.status) vouching) inactive_exn
  raise_if
      (not
        (h.verify_signature parent.public_key_pem (context_to_sign h c i) req.parent_signature_b64))
      (http 401 (says "Step-up signature verification failed"))
  modify (approve c i)
  auth ← mint_bounded_authorization h now (approved i)
  record_provider_txn h now auth
  audit h now (mfa_verified_entry agent parent c i)
  audit h now (step_up_minted_entry h agent parent i auth)
  commit
  pure (record (response_of (approved i) (some auth)) {
    mfa_required = true;
    review_expires_at = none;
    mandate_id = none;
  })
