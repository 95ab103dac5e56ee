-- ===== src/Tests/Data.antt =====
-- A small database, a host, and requests for the tests.
use text.Mathlib.Text.{starts_with}
use paari_payments_protocol.Prelude.{
  ◌==◌, number_eq, text_eq, String, true, false, none, some, [], ◌∷◌, List, text_or,
}
use paari_payments_protocol.Transitions.{provider_submitted}
use paari_payments_protocol.Governance.{allow}
use paari_payments_protocol.Models.{
  Agent, AgentStatus, ParentStatus, MandateStatus, UserPaymentMandate,
}
use paari_payments_protocol.Models.Rows.{
  PaymentIntent, BoundedAuthorization, ProviderTransaction, Db,
}
use paari_payments_protocol.Host.{Host}
use paari_payments_protocol.Config.{Environment}
use paari_payments_protocol.Exec.{ok}
use paari_payments_protocol.Mandates.{Proposal}
use paari_payments_protocol.Audit.{Entry}
use paari_payments_protocol.Payments.Authenticate.{HttpRequest}
use paari_payments_protocol.Payments.Settlement.{ProviderPayment}
use paari_payments_protocol.Payments.Consume.{ConsumeAnswers}
use paari_payments_protocol.Payments.History.{Event, consume, webhook, reconcile}
use paari_payments_protocol.Payments.Webhook.{WebhookEvent, WebhookAnswers}
use paari_payments_protocol.Reconcile.{got, lost, ReadAnswers}

-- A host whose texts stand for themselves.
abbrev pub plain : Host
plain = record {
  upper = λ s. s;
  lower = λ s. s;
  strip = λ s. s;
  casefold = λ s. s;
  sql_lower = λ s. s;
  strip120 = λ s. s;
  rstrip_slash = λ s. s;
  word_chars = λ s. s;
  hmac_sha256 = λ secret body. body;
  contains_text = λ part text. starts_with text part;
  isoformat = λ t. "";
  sha256 = λ s. s;
  access_token_hash = λ s. s;
  canonical_detail = λ d. "";
  canonical_mandate = λ p. text_or p.mandate_id "";
  sign_with_private_key = λ key message. message;
  public_pem_of = λ key. key;
  canonical_event = λ p. p.prev_hash;
  verify_signature = λ key text signature. text == signature;
  canonical_delegation = λ d. d.delegation_id;
  is_ed25519_pem = λ pem. true;
  encode_authorization = λ c. c.jti;
  encode_credential = λ c. c.jti;
  decode_credential = λ now token. none;
  encode_session = λ c. c.jti;
  decode_session = λ now token.
      some (record { sub = token; credential_id = "cred-1"; protocol_version = "0.9"; jkt = "" });
  decode_proof = λ now proof key. none;
}

abbrev pub bare : Environment
bare = record {
  mode = none;
  require_user_mandate = none;
  require_signed_mandate = none;
  require_request_proof = none;
}

abbrev pub mandate : UserPaymentMandate
mandate = record {
  mandate_id = "mnd-1";
  org_id = "default";
  user_id = "user-1";
  agent_id = "agent-1";
  max_per_transaction = 5000;
  max_daily_amount = 9000;
  max_per_hour = some 8000;
  max_per_merchant_per_day = some 7000;
  max_category_per_day = none;
  currency = "INR";
  allowed_merchants = "shop" ∷ [];
  allowed_categories = [];
  require_review_above = none;
  valid_from = 100;
  expires_at = 9000000;
  status = MandateStatus.active;
  revoked_at = none;
  signing_key_id = none;
  signature_b64 = none;
  user_public_key_pem = none;
  signed_at = none;
}

abbrev pub intent : String → PaymentIntent
intent currency = record {
  intent_id = "auth-1";
  org_id = "default";
  agent_id = "agent-1";
  transaction_id = "txn-1";
  idempotency_key = "key-1";
  mandate_id = some "mnd-1";
  merchant = "shop";
  amount_minor_units = 4000;
  currency = currency;
  action = "pay";
  purpose = "order";
  merchant_category = none;
  llm_run_id = none;
  llm_model = none;
  llm_tool_call_id = none;
  llm_tool_name = none;
  llm_attributed = false;
  decision = allow;
  reasons = [];
  mfa_required = false;
  mfa_verified = false;
  review_expires_at = none;
  created_at = 1000;
}

abbrev pub proposal : Proposal
proposal = record {
  merchant = "shop";
  amount_minor_units = 4000;
  currency = "INR";
  merchant_category = none;
}

abbrev pub authorization : BoundedAuthorization
authorization = record {
  authorization_id = "auth-1";
  org_id = "default";
  intent_id = "auth-1";
  mandate_id = none;
  agent_id = "agent-1";
  transaction_id = "txn-1";
  merchant = "shop";
  amount_minor_units = 4000;
  currency = "INR";
  token = "auth-1";
  expires_at = 2000;
  max_usage = 1;
  usage_count = 0;
}

abbrev pub transaction : ProviderTransaction
transaction = record {
  authorization_id = "auth-1";
  intent_id = "auth-1";
  agent_id = "agent-1";
  org_id = "default";
  state = provider_submitted;
  razorpay_order_id = some "order-1";
  razorpay_payment_id = none;
  webhook_event_id = none;
  provider_environment = "sandbox";
  provider_key_id_prefix = none;
  provider_api_base = none;
  attempts = 1;
  last_error = none;
  updated_at = 1000;
  reconciled_at = none;
}

abbrev pub agent_1 : Agent
agent_1 = record {
  id = 1;
  agent_id = "agent-1";
  org_id = "default";
  parent_pk = 1;
  delegation_id = "delegation-1";
  public_key_pem = "agent-key";
  old_public_key_pem = none;
  key_sunset_at = none;
  granted_capabilities = "payments" ∷ [];
  payment_limit_minor_units = 5000;
  currency = "INR";
  status = AgentStatus.active;
  valid_until = none;
  protocol_version = none;
}

abbrev pub small_db : Db
small_db = record {
  parents =
      record {
        id = 1;
        parent_id = "parent-1";
        org_id = "default";
        public_key_pem = "parent-key";
        status = ParentStatus.active;
        trust_tier = "verified";
        kyb_provider_ref = none;
      }
      ∷ [];
  agents = agent_1 ∷ [];
  credentials =
      record {
        credential_id = "cred-1";
        org_id = "default";
        agent_pk = 1;
        issued_at = 100;
        expires_at = 5000;
        revoked = false;
        superseded_by = none;
        rotates_at = none;
      }
      ∷ [];
  mandates = mandate ∷ [];
  bindings = [];
  intents = [];
  challenges = [];
  authorizations = authorization ∷ [];
  transactions = [];
  audit_events = [];
  request_proofs = [];
  delegations = [];
  revocations = [];
  nonces = [];
  organizations = [];
  rate_buckets = [];
  provider_accounts = [];
}

abbrev pub submitted_db : Db
submitted_db = record small_db { transactions = transaction ∷ [] }

abbrev pub request : HttpRequest
request = record {
  now = 1000;
  method = "POST";
  path = "/v1/payments/authorizations/auth-1/consume";
  body_token = "agent-1";
  authorization = "";
  proof = "";
}

abbrev pub payment : ProviderPayment
payment = record {
  id = some "pay-1";
  status = "captured";
  amount = some 4000;
  currency = some "INR";
  order_id = some "order-1";
  error_code = "";
}

-- A provider without autonomous settlement, which creates the order that it is asked for.
abbrev pub order_provider : ConsumeAnswers
order_provider = record {
  agentic_provider = ok (record {
    supports_autonomous_settlement = false;
    provenance = none;
    validate_mandate = ok false;
    authorize_payment = ok none;
    capture_payment = ok "";
    get_payment = ok payment;
  });
  provider_for = ok tt;
  provenance = none;
  create_payment = ok (record {
    id = some "order-1";
    receipt = "auth-1";
    amount = some 4000;
    currency = some "INR";
  });
}

abbrev no_reads : ReadAnswers
no_reads = record {
  provider_for = got tt;
  get_payment = lost "timeout";
  fetch_payments = got [];
  missing_order = got none;
  order_status = got none;
}

abbrev pub capture_event : WebhookEvent
capture_event = record {
  now = 1100;
  body_is_empty = false;
  body_is_json = true;
  body_digest = "digest";
  event = "payment.captured";
  event_id = some "evt-1";
  account_id = none;
  payment = payment;
}

abbrev pub unreadable : WebhookAnswers
unreadable = record {
  provider_for = ok tt;
  signature_is_valid = true;
  key_id = none;
  reads = no_reads;
}

-- Two attempts to consume, with the capture announced in between, and a reconciliation.
abbrev pub history : List Event
history =
    consume request order_provider "auth-1"
    ∷ webhook capture_event unreadable
    ∷ consume request order_provider "auth-1"
    ∷ reconcile 1200 no_reads "auth-1"
    ∷ []

abbrev pub entry : Entry
entry = record {
  transaction_id = "txn-1";
  agent_id = "agent-1";
  parent_id = none;
  kind = "intent_decided";
  detail = [];
  org_id = none;
}
