-- ===== src/Tests/Surface.antt =====
-- Tests of the autonomous settlement, the proof bundle and the providers, and the
-- theorems applied to them.
use text.Mathlib.Text.{starts_with}
use paari_payments_protocol.Host.{Host}
use paari_payments_protocol.Prelude.{
  ◌==◌, text_eq, ◌≡◌, ◌↔◌, ◌⊎◌, refl, true, false, none, some, [], ◌∷◌, if◌then◌else◌, ◌||◌, Bool,
}
use paari_payments_protocol.Transitions.{authorized, transition}
use paari_payments_protocol.Models.{PaymentInstrumentBinding}
use paari_payments_protocol.Models.Rows.{Db, BoundedAuthorization, ProviderTransaction}
use paari_payments_protocol.Exec.{
  Call, Result, ok, err, serve, answer, ◌>>=◌, modify, audit, commit,
}
use paari_payments_protocol.Exec.Runs.{Runs, opened}
use paari_payments_protocol.Mandates.Routes.{
  create_user_payment_mandate, revoke_user_payment_mandate, store_mandate, write_mandate,
  write_revocation,
}
use paari_payments_protocol.Payments.Authenticate.{
  HttpRequest, resolve_session_token, authenticate, check_proof, parent_for,
}
use paari_payments_protocol.Payments.Settlement.{
  AgenticAnswers, active_provider_binding, consume_agentic_settlement, corroborated,
}
use paari_payments_protocol.Payments.Settlement.Settles.{Settled, agentic_settlement_settles}
use paari_payments_protocol.Payments.Settlement.Row.{Never}
use paari_payments_protocol.Evidence.{collect_proof_bundle}
use paari_payments_protocol.Evidence.Artifacts.{settlement_source}
use paari_payments_protocol.Evidence.Routes.{
  get_proof_bundle, query_audit, header_token, bundle_answer,
}
use paari_payments_protocol.Evidence.Routes.Reads.{IsOwnTrail, query_audit-IsOwnTrail}
use paari_payments_protocol.Evidence.Routes.Replay.{Replays, reads_can_be_replayed}
use paari_payments_protocol.Registry.{is_admin_key, require_admin_org}
use paari_payments_protocol.Audit.{record_audit}
use paari_payments_protocol.Registry.Delegation.{Untouched}
use paari_payments_protocol.Mandates.View.{get_active_user_payment_mandate, get_provider_binding}
use paari_payments_protocol.Providers.Reference.{reference_answers}
use paari_payments_protocol.Providers.Reference.Settles.{reference_provider_settles}
use paari_payments_protocol.Providers.Accounts.{
  Environ, RazorpayAdapter, RequestTarget, request_client, provenance, get_config,
}
use paari_payments_protocol.Providers.Accounts.Honest.{provider_is_source_iff}
use paari_payments_protocol.Tests.{audited_db}
use paari_payments_protocol.Tests.Data.{
  agent_1, plain, bare, small_db, intent, authorization, transaction, request, payment,
}
use paari_payments_protocol.Tests.Trust.{admin}
use paari_payments_protocol.Tests.Consent.{marking, voided_request}

-- The authorization under the mandate, with a binding at a provider.
abbrev bound_authorization : BoundedAuthorization
bound_authorization = record authorization { mandate_id = some "mnd-1" }

abbrev binding : PaymentInstrumentBinding
binding = record {
  binding_id = "bnd-1";
  org_id = "default";
  mandate_id = "mnd-1";
  provider = "reference-autonomous";
  provider_mandate_ref = "ref-1";
  currency = "INR";
  max_amount_minor_units = 5000;
  status = "active";
  expires_at = none;
}

abbrev new_transaction : ProviderTransaction
new_transaction = record transaction { state = authorized }

abbrev bound_db : Db
bound_db = record small_db {
  bindings = binding ∷ [];
  authorizations = bound_authorization ∷ [];
  transactions = new_transaction ∷ [];
  intents = intent "INR" ∷ [];
}

abbrev settling : AgenticAnswers
settling = record {
  supports_autonomous_settlement = true;
  provenance = none;
  validate_mandate = ok true;
  authorize_payment = ok (some "pay-1");
  capture_payment = ok "captured";
  get_payment = ok payment;
}

agentic_settlement_settles_example :
    Runs
      (opened bound_db [])
      (Settled "auth-1" (
        Call.authorize_payment "auth-1" "ref-1" 4000 "INR" "shop"
        ∷ Call.capture_payment "pay-1" 4000 "INR"
        ∷ []))
      Never
      (consume_agentic_settlement plain 1000 bound_authorization agent_1 none [] settling)
unfolding active_provider_binding transition corroborated
agentic_settlement_settles_example =
    agentic_settlement_settles plain 1000 bound_authorization agent_1 none [] settling "pay-1"
      "captured" payment binding new_transaction bound_db [] refl refl refl refl refl refl refl refl
      refl

reference_provider_settles_example :
    Runs
      (opened bound_db [])
      (Settled "auth-1" (
        Call.authorize_payment "auth-1" "ref-1" 4000 "INR" "shop"
        ∷ Call.capture_payment "pay_ref_auth-1" 4000 "INR"
        ∷ []))
      Never
      (consume_agentic_settlement plain 1000 bound_authorization agent_1 none [] (
        reference_answers plain
          (record { mandates = []; payments = [] })
          bound_authorization
          "ref-1"))
unfolding active_provider_binding transition
reference_provider_settles_example =
    reference_provider_settles plain 1000 bound_authorization agent_1 none []
      (record { mandates = []; payments = [] }) binding new_transaction bound_db [] refl refl refl
      refl refl refl

-- The database with all rows that a proof bundle needs.
abbrev evidence_db : Db
evidence_db = record bound_db {
  delegations =
      record {
        delegation_id = "delegation-1";
        org_id = "default";
        parent_pk = 1;
        agent_public_key_fingerprint = "agent-key";
        granted_capabilities = "payments" ∷ [];
        payment_limit_minor_units = 5000;
        currency = "INR";
        issued_at = 100;
        expires_at = 5000;
        consumed = true;
        consumed_at = some 100;
      }
      ∷ [];
}

-- The request of the agent, with its session token in the header.
abbrev reading : HttpRequest
reading = record request { method = "GET"; authorization = "bearer agent-1" }

-- Requests that are answered.
abbrev is_ok : {A : Type 0} → Result A → Bool
is_ok (ok a) = true
is_ok (err e) = false

bundle_answered :
    is_ok (serve (get_proof_bundle plain bare reading "txn-1") evidence_db []).0 ≡ true
unfolding serve get_proof_bundle header_token resolve_session_token authenticate check_proof
    collect_proof_bundle bundle_answer ◌>>=◌ parent_for answer
    paari_payments_protocol.Evidence.Artifacts.◌>>=◌
bundle_answered = refl

trail_answered : is_ok (serve (query_audit plain bare reading "txn-1") audited_db []).0 ≡ true
unfolding serve query_audit header_token resolve_session_token authenticate check_proof record_audit
    ◌>>=◌ parent_for
trail_answered = refl

mandate_made :
    is_ok
      (serve
        (create_user_payment_mandate marking admin "admin" 1000 "mnd-2" voided_request)
        small_db
        []).0
    ≡ true
unfolding serve create_user_payment_mandate store_mandate write_mandate require_admin_org
    is_admin_key ◌>>=◌ modify audit commit
mandate_made = refl

mandate_ended :
    is_ok
      (serve (revoke_user_payment_mandate plain admin "admin" 1000 "mnd-1" "lost") small_db []).0
    ≡ true
unfolding serve revoke_user_payment_mandate write_revocation require_admin_org is_admin_key ◌>>=◌
    modify audit commit
mandate_ended = refl

query_audit-IsOwnTrail_example :
    Runs
      (opened audited_db [])
      (λ r t. IsOwnTrail plain reading "txn-1" audited_db r × Untouched audited_db [] t)
      (Untouched audited_db [])
      (query_audit plain bare reading "txn-1")
query_audit-IsOwnTrail_example = query_audit-IsOwnTrail plain bare reading "txn-1" audited_db

reads_can_be_replayed_example :
    Replays (get_proof_bundle plain bare reading "txn-1") evidence_db []
    × Replays (query_audit plain bare reading "txn-1") evidence_db []
    × Replays (get_active_user_payment_mandate plain bare reading "txn-1") evidence_db []
    × Replays (get_provider_binding plain bare reading "txn-1") evidence_db []
reads_can_be_replayed_example = reads_can_be_replayed plain bare reading "txn-1" evidence_db []

-- The variables of a tenant beside the default ones, and the tenant's account.
abbrev environ : Environ
environ name =
    if name == "RAZORPAY_KEY_ID" || name == "RAZORPAY_KEY_ID__tenant"
    then some (if name == "RAZORPAY_KEY_ID" then "rzp_test_default" else "rzp_live_tenant")
    else if name == "RAZORPAY_API_BASE"
    then none
    else some name

abbrev tenant_adapter : RazorpayAdapter
tenant_adapter = record {
  key_id_override = "rzp_live_tenant";
  key_secret_override = "RAZORPAY_KEY_SECRET__tenant";
  webhook_secret_override = "RAZORPAY_WEBHOOK_SECRET__tenant";
}

abbrev tenant_db : Db
tenant_db = record small_db {
  provider_accounts = record { org_id = "tenant"; is_default = false } ∷ [];
}

abbrev tenant_target : RequestTarget
tenant_target = record {
  base_url = "https://api.razorpay.com/v1";
  key_id = "rzp_live_tenant";
  key_secret = "RAZORPAY_KEY_SECRET__tenant";
}

provider_is_source_iff_example :
    (settlement_source (provenance plain environ tenant_adapter).provider_environment ≡ "provider")
    ↔ (((tenant_target.base_url ≡ "https://api.razorpay.com/v1") ⊎ (tenant_target.base_url ≡ ""))
        × ((starts_with "rzp_live_tenant" "rzp_test_" ≡ true)
            ⊎ (starts_with "rzp_live_tenant" "rzp_live_" ≡ true)))
unfolding request_client get_config
provider_is_source_iff_example =
    provider_is_source_iff plain environ tenant_adapter tenant_target (λ s. refl) refl

-- A host that drops the dash of an identifier.
abbrev dashless : Host
dashless = record plain { word_chars = λ s. if s == "org-a" then "orga" else s }

abbrev two_tenants : Db
two_tenants = record small_db {
  provider_accounts =
      record { org_id = "org-a"; is_default = false }
      ∷ record { org_id = "orga"; is_default = false }
      ∷ [];
}
