-- ===== src/Payments/Intent.antt =====
-- `submit_payment_intent` and `_deny` of app/routers/payments.py.
use paari_payments_protocol.Prelude.{
  leb, if◌then◌else◌, ◌==◌, number_eq, text_eq, length, select, first, is_empty, ℕ, ◌-◌, String,
  Bool, false, not, ◌&&◌, Option, none, some, [], ◌∷◌, ◌++◌,
}
use paari_payments_protocol.Governance.{is_review, idempotent_replay, deny}
use paari_payments_protocol.Models.{ParentAuthority, Agent, UserPaymentMandate}
use paari_payments_protocol.Models.Rows.{says, PaymentIntent, BoundedAuthorization, Db, str, num}
use paari_payments_protocol.Host.{Host}
use paari_payments_protocol.Config.{Environment, mandate_policy}
use paari_payments_protocol.Audit
use paari_payments_protocol.Exec.{
  Exec, pure, gets, ◌>>=◌, ◌>>◌, commit, raise_if, audit, http, when,
}
use paari_payments_protocol.Mandates.{active_mandates, Proposal}
use paari_payments_protocol.Mandates.Evaluate.{evaluate_mandate}
use paari_payments_protocol.Payments.Authenticate.{
  HttpRequest, resolve_session_token, authenticate, parent_for,
}
use paari_payments_protocol.Payments.Records.{
  intent_causal, parent_id_of, existing_intent, record_intent, mint_bounded_authorization,
  record_provider_txn, PaymentIntentRequest, Verdict,
}
use paari_payments_protocol.Payments.Verdict.{
  velocity_window, IntentResponse, sanitised, Denial, ◌else_deny◌, check_parent, check_delegation,
  check_mandate, policy_results_of, needs_step_up, verdict_of,
}

-- The number of the agent's intents in the velocity window.
unfoldable pub recent_count : String → ℕ → Db → ℕ
recent_count agent_id now db = length (
    select
      (λ (i : PaymentIntent). i.agent_id == agent_id && leb (now - velocity_window) i.created_at)
      db.intents)

abbrev pub proposal_of : PaymentIntentRequest → Proposal
proposal_of req = record {
  merchant = req.merchant;
  amount_minor_units = req.amount_minor_units;
  currency = req.currency;
  merchant_category = req.merchant_category;
}

abbrev pub mandate_id_of : Option UserPaymentMandate → Option String
mandate_id_of none = none
mandate_id_of (some m) = some m.mandate_id

abbrev pub response_of : PaymentIntent → Option BoundedAuthorization → IntentResponse
response_of i auth = record {
  intent_id = i.intent_id;
  transaction_id = i.transaction_id;
  decision = i.decision;
  reasons = i.reasons;
  mfa_required = i.mfa_required;
  authorization = auth;
  review_expires_at = i.review_expires_at;
  mandate_id = i.mandate_id;
}

-- The answer to a new request: the identifiers of the row, and the verdict that was reached.
abbrev pub answer_of :
    PaymentIntent → Verdict → Option BoundedAuthorization → Option String → IntentResponse
answer_of i v auth mandate_id = record {
  intent_id = i.intent_id;
  transaction_id = i.transaction_id;
  decision = v.decision;
  reasons = v.reasons;
  mfa_required = v.mfa_required;
  authorization = auth;
  review_expires_at = v.review_expires_at;
  mandate_id = mandate_id;
}

abbrev pub denied : Denial → Verdict
denied d = record {
  decision = deny;
  reasons = d.reasons;
  mfa_required = false;
  review_expires_at = none;
  policy_results = d.policy ∷ [];
}

-- The idempotent replay: the original decision, with its authorization if it has one.
unfoldable pub replay : PaymentIntent → Exec IntentResponse
replay i = do
  auth ←
      gets λ db. first (λ (a : BoundedAuthorization). a.intent_id == i.intent_id) db.authorizations
  pure (record (response_of i auth) { reasons = i.reasons ++ idempotent_replay ∷ [] })

module _ (h : Host) (now : ℕ) (fresh : String) where
  -- `_deny`
  unfoldable pub deny_intent : Agent → PaymentIntentRequest → Denial → Exec IntentResponse
  deny_intent agent req d = do
    i ← record_intent h now fresh agent req (denied d)
    pure (answer_of i (denied d) none i.mandate_id)

  unfoldable pub minted_entry :
      Agent → Option String → PaymentIntent → BoundedAuthorization → Audit.Entry
  minted_entry agent parent_id i auth = record {
    transaction_id = i.transaction_id;
    agent_id = agent.agent_id;
    parent_id = parent_id;
    kind = "authorization_minted";
    detail =
        ("authorization_id", str auth.authorization_id)
        ∷ ("amount_minor_units", num auth.amount_minor_units)
        ∷ ("currency", str auth.currency)
        ∷ ("merchant", str auth.merchant)
        ∷ ("expires_at", str (h.isoformat auth.expires_at))
        ∷ ("previous_state", str "AUTHORIZED")
        ∷ ("current_state", str "AUTHORIZED")
        ∷ intent_causal i;
    org_id = some agent.org_id;
  }

  -- What follows the verdict: a REVIEW is recorded and parked, an ALLOW is recorded and minted.
  unfoldable pub settle_verdict :
      Agent → Option ParentAuthority → PaymentIntentRequest → Verdict → Exec IntentResponse
  unfolding minted_entry
  settle_verdict agent parent req v = do
    i ← record_intent h now fresh agent req v
    if is_review v.decision then pure (answer_of i v none req.mandate_id) else do
      auth ← mint_bounded_authorization h now i
      record_provider_txn h now auth
      audit h now (minted_entry agent (parent_id_of parent) i auth)
      commit
      pure (answer_of i v (some auth) req.mandate_id)

  -- The governance of a new request, from the first check of the parent on. The gates are acquired
  -- on a committed session; `acquired` is their answer.
  unfoldable pub govern : Environment → Bool → Agent → PaymentIntentRequest → Exec IntentResponse
  govern env acquired agent req = do
    parent ← gets (parent_for agent)
    elim (check_parent parent else_deny check_delegation agent req now) [
      | some d ↦ deny_intent agent req d
      | none ↦ do
        posture ← mandate_policy h env
        before ← gets λ db. db
        when (not (is_empty (active_mandates before agent.agent_id agent.org_id now))) commit
        after ← gets λ db. db
        let d =
            evaluate_mandate h now posture.require_signed_mandate before acquired after
              agent.agent_id agent.org_id (proposal_of req)
        elim (check_mandate posture d) [
          | some refusal ↦ deny_intent agent req refusal
          | none ↦ do
            let bound = record req { mandate_id = mandate_id_of d.mandate }
            recent ← gets (recent_count agent.agent_id now)
            let mfa = needs_step_up agent req
            settle_verdict agent parent bound
                (verdict_of now mfa (policy_results_of agent req d recent mfa))
        ]
    ]

-- `submit_payment_intent`
unfoldable pub submit_payment_intent :
    Host → Environment → HttpRequest → String → Bool → PaymentIntentRequest → Exec IntentResponse
submit_payment_intent h env q fresh acquired req = do
  token ← resolve_session_token h q
  session ← authenticate h env q token none
  let agent : Agent = session.0
  raise_if (not (req.agent_id == "") && not (req.agent_id == agent.agent_id))
      (http 403 (says "agent_id does not match authenticated session"))
  let clean = sanitised h req
  existing ← gets (existing_intent agent.agent_id req.idempotency_key)
  elim existing [ some i ↦ replay i | none ↦ govern h q.now fresh env acquired agent clean ]
