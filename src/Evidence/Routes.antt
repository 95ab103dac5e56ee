-- ===== src/Evidence/Routes.antt =====
-- The routes of app/routers/v1.py that show evidence to an agent.
pub mod Caller
pub mod Reads
pub mod Replay
use Prim.Native.String.{◌++◌ as text_append}
use paari_payments_protocol.Prelude.{
  if◌then◌else◌, ◌==◌, text_eq, number_eq, all, is_empty, select, ℕ, String, Bool, true, false, not,
  Option, none, some, List,
}
use paari_payments_protocol.Models.Rows.{says, Db, AuditEvent, Message}
use paari_payments_protocol.Host.{Host}
use paari_payments_protocol.Audit.{of_transaction, verify_chain}
use paari_payments_protocol.Config.{Environment}
use paari_payments_protocol.Exec.{
  Exec, Result, pure, raise, gets, require, raise_if, answer, ◌>>=◌, ◌>>◌, http, other, ok, err,
}
use paari_payments_protocol.Payments.Authenticate.{HttpRequest, resolve_session_token, authenticate}
use paari_payments_protocol.Evidence.{collect_proof_bundle}
use paari_payments_protocol.Evidence.Artifacts.{Found, found, value_error, crashed, ProofBundle}

-- The session token of the Authorization header, which these routes need.
unfoldable pub header_token : Host → HttpRequest → Exec String
header_token h q = do
  token ← resolve_session_token h (record q { body_token = "" })
  raise_if (token == "") (http 401 (says "Authorization: Bearer <session-token> is required"))
  pure token

-- The translation of the collector's errors.
unfoldable pub bundle_answer : Host → Found ProofBundle → Result ProofBundle
bundle_answer h (found b) = ok b
bundle_answer h (value_error m) =
    let text = text_append m.text m.about in
    err (
      if h.contains_text "unknown" text
      then http 404 m
      else if h.contains_text "ambiguous" text
      then http 409 (record m {
        about = text_append m.about " — bundle is per-payment-request; use intent_id via audit";
      })
      else other text)
bundle_answer h (crashed e) = err (other e)

-- The answer of `query_audit`.
pub record AuditAnswer : Type 0 where
  pub chain_verified : Bool
  pub events : List AuditEvent

module _ (h : Host) (env : Environment) (q : HttpRequest) where
  -- `get_proof_bundle`
  unfoldable pub get_proof_bundle : String → Exec ProofBundle
  unfolding header_token bundle_answer
  get_proof_bundle transaction_id = do
    token ← header_token h q
    caller ← authenticate h env q token none
    collected ← gets (λ db. collect_proof_bundle h db transaction_id)
    bundle ← answer (bundle_answer h collected)
    raise_if (not (bundle.agent_identity.agent_id == caller.0.agent_id))
        (http 403 (says "This proof bundle does not belong to your agent"))
    pure bundle

  -- `query_audit`
  unfoldable pub query_audit : String → Exec AuditAnswer
  unfolding header_token
  query_audit transaction_id = do
    token ← header_token h q
    caller ← authenticate h env q token none
    events ← gets (λ db. select (of_transaction transaction_id) db.audit_events)
    raise_if (is_empty events) (http 404 (says "No audit trail for this transaction"))
    raise_if (not (all (λ (e : AuditEvent). e.agent_id == caller.0.agent_id) events))
        (http 403 (says "This audit trail does not belong to your agent"))
    raise_if (not (all (λ (e : AuditEvent). e.org_id == caller.0.org_id) events))
        (http 403 (says "Cross-organization audit access denied"))
    verified ← gets (λ db. verify_chain h db transaction_id)
    pure (record { chain_verified = verified; events = events })
