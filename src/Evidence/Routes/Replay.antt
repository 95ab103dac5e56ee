-- ===== src/Evidence/Routes/Replay.antt =====
-- "Verify a Paari proof and burn its jti" (app/security.py), on the routes of app/routers/v1.py that
-- only read: nothing commits the burned identifier.
use paari_payments_protocol.Prelude.{String, Option, List, ◌≡◌, refl, number_eq, text_eq}
use paari_payments_protocol.Models.{Agent}
use paari_payments_protocol.Models.Rows.{Db}
use paari_payments_protocol.Host.{Host, SessionClaims}
use paari_payments_protocol.Config.{Environment}
use paari_payments_protocol.Exec.{Exec, modify, serve, Call}
use paari_payments_protocol.Exec.Runs.{opened}
use paari_payments_protocol.Exec.Keeps.{Keeps, keeps_rules}
use paari_payments_protocol.Payments.Authenticate.{
  HttpRequest, authenticate, resolve_session_token, check_proof, verify_request_proof,
}
use paari_payments_protocol.Registry.Delegation.{Untouched}
use paari_payments_protocol.Mandates.View.{get_active_user_payment_mandate, get_provider_binding}
use paari_payments_protocol.Evidence.Routes.{header_token, get_proof_bundle, query_audit}

module _ (db : Db) (calls : List Call) where
  modify-Keeps : (f : Db → Db) → Keeps (Untouched db calls) (modify f)
  unfolding modify
  modify-Keeps f = record { holds = λ s p. p }

  module _ (h : Host) (q : HttpRequest) where
    resolve-Keeps : (q : HttpRequest) → Keeps (Untouched db calls) (resolve_session_token h q)
    unfolding resolve_session_token
    resolve-Keeps q = search keeps_rules

    header_token-Keeps : Keeps (Untouched db calls) (header_token h q)
    unfolding header_token
    header_token-Keeps = search (keeps_rules, resolve-Keeps)

    verify-Keeps :
        (token key : String) (agent : Agent)
        → Keeps (Untouched db calls) (verify_request_proof h q token agent key)
    unfolding verify_request_proof
    verify-Keeps token key agent = search (keeps_rules, modify-Keeps)

    check_proof-Keeps :
        (env : Environment) (token : String) (agent : Agent) (claims : SessionClaims)
        → Keeps (Untouched db calls) (check_proof h env q token agent claims)
    unfolding check_proof
    check_proof-Keeps env token agent claims = search (keeps_rules, verify-Keeps)

    authenticate-Keeps :
        (env : Environment) (token : String) (expected : Option String)
        → Keeps (Untouched db calls) (authenticate h env q token expected)
    unfolding authenticate
    authenticate-Keeps env token expected = search (keeps_rules, check_proof-Keeps) depth 30

  served :
      {A : Type 0} (m : Exec A)
      → Keeps (Untouched db calls) m
      → ((serve m db calls).1 ≡ db) × ((serve m db calls).2 ≡ calls)
  unfolding serve
  served m k = k.holds (opened db calls) (refl, refl)

module _ (h : Host) (env : Environment) (q : HttpRequest) (id : String) (db : Db)
    (calls : List Call) where
  get_proof_bundle-Keeps : Keeps (Untouched db calls) (get_proof_bundle h env q id)
  unfolding get_proof_bundle
  get_proof_bundle-Keeps = search (keeps_rules, header_token-Keeps, authenticate-Keeps) depth 30

  query_audit-Keeps : Keeps (Untouched db calls) (query_audit h env q id)
  unfolding query_audit
  query_audit-Keeps = search (keeps_rules, header_token-Keeps, authenticate-Keeps) depth 30

  get_active-Keeps : Keeps (Untouched db calls) (get_active_user_payment_mandate h env q id)
  unfolding get_active_user_payment_mandate
  get_active-Keeps = search (keeps_rules, resolve-Keeps, authenticate-Keeps) depth 30

  get_provider_binding-Keeps : Keeps (Untouched db calls) (get_provider_binding h env q id)
  unfolding get_provider_binding
  get_provider_binding-Keeps = search (keeps_rules, resolve-Keeps, authenticate-Keeps) depth 30

-- A request saves nothing, and is answered alike when it is sent again.
abbrev pub Replays : {A : Type 0} → Exec A → Db → List Call → Type 0
Replays m db calls =
    ((serve m db calls).1 ≡ db)
    × (serve m (serve m db calls).1 (serve m db calls).2 ≡ serve m db calls)

replays :
    {A : Type 0} (m : Exec A) (db : Db) (calls : List Call)
    → Keeps (Untouched db calls) m
    → Replays m db calls
replays m db calls k = let (e, f) = served db calls m k in (e, λ i. serve m (e i) (f i))

-- A request proof is not used up by reading: any request for a proof bundle, an audit trail, the
-- active mandate or a provider binding leaves the committed database, where used proofs are kept, as
-- it was, and the same request, sent again at the same time, is answered as before.
pub reads_can_be_replayed :
    (h : Host) (env : Environment) (q : HttpRequest) (id : String) (db : Db) (calls : List Call)
    → Replays (get_proof_bundle h env q id) db calls
      × Replays (query_audit h env q id) db calls
      × Replays (get_active_user_payment_mandate h env q id) db calls
      × Replays (get_provider_binding h env q id) db calls
reads_can_be_replayed h env q id db calls = (
  replays _ db calls (get_proof_bundle-Keeps h env q id db calls),
  replays _ db calls (query_audit-Keeps h env q id db calls),
  replays _ db calls (get_active-Keeps h env q id db calls),
  replays _ db calls (get_provider_binding-Keeps h env q id db calls),
)
