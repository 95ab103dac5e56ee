-- ===== src/Evidence/Routes/Reads.antt =====
-- The evidence routes of app/routers/v1.py: what they show is the caller's own, and they save nothing.
use paari_payments_protocol.Prelude.{
  ◌==◌, text_eq, number_eq, eq_iff, all, All, is_empty, select, String, true, false, not, none,
  List, [], ◌∷◌, ◌≡◌, ap, arith,
}
use paari_payments_protocol.Models.{Agent}
use paari_payments_protocol.Models.Rows.{Db, AuditEvent}
use paari_payments_protocol.Host.{Host}
use paari_payments_protocol.Audit.{of_transaction, verify_chain, verify_events, genesis_hash}
use paari_payments_protocol.Config.{Environment}
use paari_payments_protocol.Exec.Runs.{Runs, opened, Runs-gets, Runs-raise_if, Runs-pure}
use paari_payments_protocol.Payments.Authenticate.{HttpRequest}
use paari_payments_protocol.Registry.Delegation.{Untouched}
use paari_payments_protocol.Evidence.{collect_proof_bundle}
use paari_payments_protocol.Evidence.Artifacts.{found, ProofBundle}
use paari_payments_protocol.Evidence.Routes.{query_audit, AuditAnswer}
use paari_payments_protocol.Evidence.Routes.Caller.{IsCaller, with_caller}

-- What `query_audit` shows, to whom.
pub record IsOwnTrail (h : Host) (q : HttpRequest) (id : String) (db : Db) (r : AuditAnswer)
    : Type 0 where
  caller : Agent
  is_caller : IsCaller h q db caller
  whole : r.events ≡ select (of_transaction id) db.audit_events
  some_event : is_empty r.events ≡ false
  own :
      All (λ (e : AuditEvent). (e.agent_id ≡ caller.agent_id) × (e.org_id ≡ caller.org_id)) r.events
  verified : r.chain_verified ≡ verify_chain h db id

all-own :
    (a : Agent) (es : List AuditEvent)
    → all (λ (e : AuditEvent). e.agent_id == a.agent_id) es ≡ true
    → all (λ (e : AuditEvent). e.org_id == a.org_id) es ≡ true
    → All (λ (e : AuditEvent). (e.agent_id ≡ a.agent_id) × (e.org_id ≡ a.org_id)) es
all-own a [] e f = tt
all-own a (x ∷ es) e f =
    ground (arith, eq_iff x.agent_id a.agent_id, eq_iff x.org_id a.org_id, all-own a es)

trail :
    (h : Host) (q : HttpRequest) (id : String) (db work : Db) (caller : Agent)
    → IsCaller h q db caller
    → work.audit_events ≡ db.audit_events
    → is_empty (select (of_transaction id) work.audit_events) ≡ false
    → not (
        all
          (λ (e : AuditEvent). e.agent_id == caller.agent_id)
          (select (of_transaction id) work.audit_events))
      ≡ false
    → not (
        all
          (λ (e : AuditEvent). e.org_id == caller.org_id)
          (select (of_transaction id) work.audit_events))
      ≡ false
    → IsOwnTrail h q id db (record {
      chain_verified = verify_chain h work id;
      events = select (of_transaction id) work.audit_events;
    })
unfolding verify_chain
trail h q id db work caller c w some_event mine ours =
    let events = select (of_transaction id) work.audit_events in
    record {
      caller = caller;
      is_caller = c;
      whole = ap (select (of_transaction id)) w;
      some_event = some_event;
      own = all-own caller events (ground (arith, mine)) (ground (arith, ours));
      verified =
          ap
            (λ (es : List AuditEvent). verify_events h genesis_hash (select (of_transaction id) es))
            w;
    }

-- What `get_proof_bundle` shows, to whom.
pub record IsOwnBundle (h : Host) (q : HttpRequest) (id : String) (db : Db) (b : ProofBundle)
    : Type 0 where
  caller : Agent
  is_caller : IsCaller h q db caller
  collected : collect_proof_bundle h db id ≡ found b
  own : b.agent_identity.agent_id ≡ caller.agent_id

-- An audit trail goes to its agent: a query that is answered has in its header the session
-- token of an active agent, with a credential that is neither revoked nor expired and an active
-- parent, and shows every event of the transaction, all of them this agent's and its organization's,
-- and whether the chain verifies; neither an answer nor a refusal changes the database or calls a
-- provider.
pub query_audit-IsOwnTrail :
    (h : Host) (env : Environment) (q : HttpRequest) (id : String) (db : Db)
    → Runs
        (opened db [])
        (λ r t. IsOwnTrail h q id db r × Untouched db [] t)
        (Untouched db [])
        (query_audit h env q id)
unfolding query_audit
query_audit-IsOwnTrail h env q id db = with_caller h env q db [] _ none _ λ caller t c k.
    let (rows, e) = k.proofs in
    Runs-gets _ _ _ _ _ (
      Runs-raise_if _ _ _ _ _ _ (k.saved, k.calls_made)
        λ some_event.
          Runs-raise_if _ _ _ _ _ _ (k.saved, k.calls_made)
            λ mine.
              Runs-raise_if _ _ _ _ _ _ (k.saved, k.calls_made)
                λ ours. Runs-gets _ _ _ _ _ (
                  Runs-pure _ _ _ _ (
                    trail h q id db t.work caller.0 c (ap (λ (d : Db). d.audit_events) e) some_event
                        mine ours,
                    (k.saved, k.calls_made),
                  )))
