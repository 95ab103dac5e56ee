-- ===== src/Tests/Trust.antt =====
-- Tests of parents, registrations and revocations, and the theorems applied to them.
use paari_payments_protocol.Prelude.{
  ◌==◌, number_eq, text_eq, eq_iff, String, ◌≡◌, ◌≢◌, refl, false, none, some, [], ◌∷◌, arith,
}
use paari_payments_protocol.Models.{ParentStatus, ParentAuthority}
use paari_payments_protocol.Models.Rows.{Db}
use paari_payments_protocol.Exec.Runs.{Runs, opened}
use paari_payments_protocol.Payments.Consume.{consume_authorization}
use paari_payments_protocol.Registry.{AdminConfig, is_admin_key}
use paari_payments_protocol.Registry.Parents.{approve_parent, reject_parent}
use paari_payments_protocol.Registry.Lifecycle.{revoked_parent_returns, status_of}
use paari_payments_protocol.Registry.Agents.{NewIds, AgentRegistration, register_agent}
use paari_payments_protocol.Registry.Delegation.{register_agent-IsDelegated, IsDelegated, Untouched}
use paari_payments_protocol.Registry.Revoke.{AgentRevokeRequest, revoke_agent}
use paari_payments_protocol.Registry.KillSwitch.{revoked_agent_cannot_spend}
use paari_payments_protocol.Tests.Data.{
  plain, bare, small_db, authorization, request, order_provider,
}

pub different : (s t : String) → (s == t) ≡ false → s ≢ t
different s t d e = ground (arith, eq_iff s t)

abbrev pub admin : AdminConfig
admin = record { api_key = "admin"; admin_org = "" }

abbrev revoked_parent : ParentAuthority
revoked_parent = record {
  id = 1;
  parent_id = "parent-1";
  org_id = "default";
  public_key_pem = "parent-key";
  status = ParentStatus.revoked;
  trust_tier = "verified";
  kyb_provider_ref = none;
}

abbrev revoked_db : Db
revoked_db = record small_db { parents = revoked_parent ∷ [] }

revoked_parent_returns_example :
    Runs
      (opened revoked_db [])
      (λ a t. ⊥)
      (Untouched revoked_db [])
      (approve_parent admin "admin" "parent-1")
    × Runs
        (opened revoked_db [])
        (λ a t.
          Runs
            (opened t.saved t.calls)
            (λ b u.
              (b.status ≡ ParentStatus.active)
              × (status_of "parent-1" u.saved ≡ some ParentStatus.active))
            (λ u. ⊥)
            (approve_parent admin "admin" "parent-1"))
        (λ t. ⊥)
        (reject_parent admin "admin" "parent-1")
unfolding is_admin_key
revoked_parent_returns_example =
    revoked_parent_returns admin "admin" "parent-1" revoked_parent revoked_db [] refl refl refl refl

abbrev no_document : AgentRevokeRequest
no_document = record { revocation_id = ""; issued_at = 0; parent_signature_b64 = "" }

revoked_agent_cannot_spend_example :
    Runs
      (opened small_db [])
      (λ a t.
        (t.calls ≡ [])
        × Runs
            (opened t.saved t.calls)
            (λ r u. ⊥)
            (Untouched t.saved t.calls)
            (consume_authorization plain bare request order_provider "auth-1"))
      (Untouched small_db [])
      (revoke_agent plain admin "admin" 1000 "agent-1" no_document)
revoked_agent_cannot_spend_example =
    revoked_agent_cannot_spend plain bare admin "admin" 1000 "agent-1" no_document request
      order_provider "auth-1" authorization small_db [] (different "agent-1" "" refl) refl refl

abbrev pub ids : NewIds
ids = record { agent_pk = 2; agent_id = "agent-2"; credential_id = "cred-2" }

abbrev pub registration : AgentRegistration
registration = record {
  public_key_pem = "new-key";
  delegation = record {
    delegation_id = "delegation-2";
    parent_id = "parent-1";
    agent_public_key_fingerprint = "new-key";
    granted_capabilities = "payments" ∷ [];
    payment_limit_minor_units = 4000;
    currency = "INR";
    issued_at = 900;
    expires_at = 90000;
  };
  delegation_signature_b64 = "delegation-2";
}

register_agent-IsDelegated_example :
    Runs
      (opened small_db [])
      (λ r t. IsDelegated plain 1000 ids registration small_db r t.saved × (t.calls ≡ []))
      (Untouched small_db [])
      (register_agent plain 1000 ids registration)
register_agent-IsDelegated_example =
    register_agent-IsDelegated plain 1000 ids registration small_db []
