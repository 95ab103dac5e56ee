-- ===== src/Payments/Records.antt =====
-- `_llm_attributed`, `_record_intent`, `_mint_bounded_authorization` and `_record_provider_txn` of
-- app/routers/payments.py.
use paari_payments_protocol.Prelude.{
  if◌then◌else◌, ◌==◌, number_eq, text_eq, first, ℕ, ◌+◌, String, Bool, false, not, ◌&&◌, ◌||◌,
  Option, none, some, List, [], ◌∷◌, ◌++◌, is_some,
}
use paari_payments_protocol.Transitions.{TxnState}
use paari_payments_protocol.Governance.{Reason, GovernanceDecision, PolicyResult}
use paari_payments_protocol.Models.{ParentAuthority, Agent}
use paari_payments_protocol.Models.Rows.{
  Detail, PaymentIntent, BoundedAuthorization, ProviderTransaction, Value, Db, str, num, flag,
  decided, policies,
}
use paari_payments_protocol.Host.{Host}
use paari_payments_protocol.Audit
use paari_payments_protocol.Exec.{
  Exec, pure, gets, ◌>>=◌, ◌>>◌, commit, rollback, audit, modify, raise_if, other,
}
use paari_payments_protocol.Payments.Authenticate.{parent_for}

-- schemas.PaymentIntentRequest, without the fields that HttpRequest has. Its labels are normalised
-- by `submit_payment_intent` before they are read.
pub record PaymentIntentRequest : Type 0 where
  pub agent_id : String
  pub transaction_id : String
  pub idempotency_key : String
  pub merchant : String
  pub amount_minor_units : ℕ
  pub currency : String
  pub action : String
  pub purpose : String
  pub merchant_category : Option String
  pub mandate_id : Option String
  pub llm_run_id : Option String
  pub llm_model : Option String
  pub llm_tool_call_id : Option String
  pub llm_tool_name : Option String

-- BOUNDED_AUTHORIZATION_TTL, in seconds
abbrev pub bounded_authorization_ttl : ℕ
bounded_authorization_ttl = 120

-- Python's truth of an optional text.
abbrev pub given : Option String → Bool
given none = false
given (some s) = not (s == "")

-- `_llm_attributed`
unfoldable pub llm_attributed : PaymentIntentRequest → Bool
llm_attributed r =
    given r.llm_run_id || given r.llm_model || given r.llm_tool_call_id || given r.llm_tool_name

-- `_llm_causal`, as it is put into a detail
abbrev pub llm_causal : PaymentIntentRequest → Detail
llm_causal r =
    ("llm_run_id", Audit.opt r.llm_run_id)
    ∷ ("llm_model", Audit.opt r.llm_model)
    ∷ ("llm_tool_call_id", Audit.opt r.llm_tool_call_id)
    ∷ ("llm_tool_name", Audit.opt r.llm_tool_name)
    ∷ []

-- The same labels, read from the stored intent.
abbrev pub intent_causal : PaymentIntent → Detail
intent_causal i =
    ("llm_run_id", Audit.opt i.llm_run_id)
    ∷ ("llm_model", Audit.opt i.llm_model)
    ∷ ("llm_tool_call_id", Audit.opt i.llm_tool_call_id)
    ∷ ("llm_tool_name", Audit.opt i.llm_tool_name)
    ∷ []

-- What the verdict adds to the request.
pub record Verdict : Type 0 where
  pub decision : GovernanceDecision
  pub reasons : List Reason
  pub mfa_required : Bool
  pub review_expires_at : Option ℕ
  pub policy_results : List PolicyResult

-- The row of `_record_intent`; `fresh` is the new uuid.
unfoldable pub intent_row : String → ℕ → Agent → PaymentIntentRequest → Verdict → PaymentIntent
intent_row fresh now agent req v = record {
  intent_id = fresh;
  org_id = agent.org_id;
  agent_id = agent.agent_id;
  transaction_id = req.transaction_id;
  idempotency_key = req.idempotency_key;
  mandate_id = req.mandate_id;
  merchant = req.merchant;
  amount_minor_units = req.amount_minor_units;
  currency = req.currency;
  action = req.action;
  purpose = req.purpose;
  merchant_category = req.merchant_category;
  llm_run_id = req.llm_run_id;
  llm_model = req.llm_model;
  llm_tool_call_id = req.llm_tool_call_id;
  llm_tool_name = req.llm_tool_name;
  llm_attributed = llm_attributed req;
  decision = v.decision;
  reasons = v.reasons;
  mfa_required = v.mfa_required;
  mfa_verified = false;
  review_expires_at = v.review_expires_at;
  created_at = now;
}

abbrev pub parent_id_of : Option ParentAuthority → Option String
parent_id_of none = none
parent_id_of (some p) = some p.parent_id

-- The query by the unique constraint on (agent_id, idempotency_key).
abbrev pub existing_intent : String → String → Db → Option PaymentIntent
existing_intent agent_id key db =
    first (λ (i : PaymentIntent). i.agent_id == agent_id && i.idempotency_key == key) db.intents

module _ (h : Host) (now : ℕ) where
  -- The row of `_mint_bounded_authorization`, with its token.
  unfoldable pub minted : PaymentIntent → BoundedAuthorization
  minted i = record {
    authorization_id = i.intent_id;
    org_id = i.org_id;
    intent_id = i.intent_id;
    mandate_id = i.mandate_id;
    agent_id = i.agent_id;
    transaction_id = i.transaction_id;
    merchant = i.merchant;
    amount_minor_units = i.amount_minor_units;
    currency = i.currency;
    token = h.encode_authorization (record {
      jti = i.intent_id;
      sub = i.agent_id;
      iat = now;
      exp = now + bounded_authorization_ttl;
      intent_id = i.intent_id;
      transaction_id = i.transaction_id;
      merchant = i.merchant;
      amount_minor_units = i.amount_minor_units;
      currency = i.currency;
      max_usage = 1;
      mandate_id = i.mandate_id;
    });
    expires_at = now + bounded_authorization_ttl;
    max_usage = 1;
    usage_count = 0;
  }

  -- The row of `_record_provider_txn`.
  unfoldable pub new_txn : BoundedAuthorization → ProviderTransaction
  new_txn auth = record {
    authorization_id = auth.authorization_id;
    intent_id = auth.intent_id;
    agent_id = auth.agent_id;
    org_id = auth.org_id;
    state = TxnState.authorized;
    razorpay_order_id = none;
    razorpay_payment_id = none;
    webhook_event_id = none;
    provider_environment = "unknown";
    provider_key_id_prefix = none;
    provider_api_base = none;
    attempts = 0;
    last_error = none;
    updated_at = now;
    reconciled_at = none;
  }

  -- The provenance event: `llm_tool_call` only if an LLM origin was claimed.
  unfoldable pub proposed_entry :
      Agent → PaymentIntentRequest → Option String → PaymentIntent → Audit.Entry
  proposed_entry agent req parent_id i = record {
    transaction_id = req.transaction_id;
    agent_id = agent.agent_id;
    parent_id = parent_id;
    kind = if llm_attributed req then "llm_tool_call" else "payment_proposed";
    detail =
        if llm_attributed req
        then llm_causal req
          ++ ("intent_id", str i.intent_id)
            ∷ ("action", str req.action)
            ∷ ("mandate_id", Audit.opt req.mandate_id)
            ∷ []
        else ("intent_id", str i.intent_id)
          ∷ ("action", str req.action)
          ∷ ("mandate_id", Audit.opt req.mandate_id)
          ∷ ("llm_attributed", flag false)
          ∷ [];
    org_id = some agent.org_id;
  }

  unfoldable pub decided_entry :
      Agent → PaymentIntentRequest → Option String → PaymentIntent → Verdict → Audit.Entry
  decided_entry agent req parent_id i v = record {
    transaction_id = req.transaction_id;
    agent_id = agent.agent_id;
    parent_id = parent_id;
    kind = "intent_decided";
    detail =
        ("intent_id", str i.intent_id)
        ∷ ("decision", decided v.decision)
        ∷ ("reasons", Value.reasons v.reasons)
        ∷ ("policy_results", policies v.policy_results)
        ∷ ("amount_minor_units", num req.amount_minor_units)
        ∷ ("currency", str req.currency)
        ∷ ("merchant", str req.merchant)
        ∷ ("merchant_category", Audit.opt req.merchant_category)
        ∷ ("action", str req.action)
        ∷ ("mandate_id", Audit.opt req.mandate_id)
        ∷ llm_causal req;
    org_id = some agent.org_id;
  }

  -- `_record_intent`. The unique constraint on (agent_id, idempotency_key) is checked by the flush:
  -- on a conflict the session is rolled back, and the existing row is returned.
  unfoldable pub record_intent :
      String → Agent → PaymentIntentRequest → Verdict → Exec PaymentIntent
  unfolding proposed_entry decided_entry
  record_intent fresh agent req v = do
    let i = intent_row fresh now agent req v
    clash ← gets (existing_intent agent.agent_id req.idempotency_key)
    elim clash [
      | some row ↦ do rollback; pure row
      | none ↦ do
        modify λ db. record db { intents = db.intents ++ i ∷ [] }
        parent ← gets (parent_for agent)
        audit h now (proposed_entry agent req (parent_id_of parent) i)
        audit h now (decided_entry agent req (parent_id_of parent) i v)
        commit
        pure i
    ]

  -- The flush checks that `authorization_id` is unique: an IntegrityError that nothing catches.
  -- `_mint_bounded_authorization`: one use, two minutes, the exact bounds of the intent.
  unfoldable pub mint_bounded_authorization : PaymentIntent → Exec BoundedAuthorization
  unfolding minted
  mint_bounded_authorization i = do
    let auth = minted i
    clash ← gets λ db.
        first (λ (a : BoundedAuthorization). a.authorization_id == i.intent_id) db.authorizations
    raise_if (is_some clash) (other "IntegrityError")
    modify λ db. record db { authorizations = db.authorizations ++ auth ∷ [] }
    pure auth

  -- `_record_provider_txn`, in state AUTHORIZED
  unfoldable pub record_provider_txn : BoundedAuthorization → Exec ProviderTransaction
  unfolding new_txn
  record_provider_txn auth = do
    let txn = new_txn auth
    modify λ db. record db { transactions = db.transactions ++ txn ∷ [] }
    pure txn
