-- ===== src/Evidence/Routes/Caller.antt =====
-- The caller of an evidence route of app/routers/v1.py, and what its authentication changes.
use Prim.Native.String.{slice, len}
use text.Mathlib.Text.{starts_with}
use paari_payments_protocol.Prelude.{
  if◌then◌else◌, ◌==◌, ltb, first, eq_iff, text_eq, number_eq, String, true, false, not, ◌||◌,
  Option, some, List, ◌≡◌, refl, sym, ap, ◌∙◌, arith,
}
use paari_payments_protocol.Models.{
  Agent, Credential, ParentAuthority, is_active_agent, is_active_parent,
}
use paari_payments_protocol.Models.Rows.{Db, RequestProof}
use paari_payments_protocol.Host.{Host, SessionClaims}
use paari_payments_protocol.Config.{Environment}
use paari_payments_protocol.Exec.{Exec, modify, ◌>>=◌, Session, Call}
use paari_payments_protocol.Exec.Runs.{
  Runs, opened, Runs-gets, Runs-require, Runs-raise_if, Runs-bind, Runs-if, Runs-pure, Runs-raise,
  Runs-when,
}
use paari_payments_protocol.Payments.Authenticate.{
  HttpRequest, find_agent, parent_for, passed, authenticate, resolve_session_token, check_proof,
  verify_request_proof,
}
use paari_payments_protocol.Registry.Delegation.{Untouched, keep_if-some}
use paari_payments_protocol.Evidence.Routes.{header_token}

-- The token of an Authorization header.
abbrev pub bearer : Host → HttpRequest → String
bearer h q =
    if starts_with (h.lower q.authorization) "bearer "
    then h.strip (slice q.authorization 7 (len q.authorization))
    else ""

-- The caller: the active agent that the session token of the header is for, with a credential that
-- is neither revoked nor expired and an active parent.
pub record IsCaller (h : Host) (q : HttpRequest) (db : Db) (agent : Agent) : Type 0 where
  pub claims : SessionClaims
  pub given : (bearer h q == "") ≡ false
  pub decoded : h.decode_session q.now (bearer h q) ≡ some claims
  pub known : find_agent claims.sub db ≡ some agent
  pub is_active : is_active_agent agent.status ≡ true
  pub credential : Credential
  pub held :
      first (λ (c : Credential). c.credential_id == claims.credential_id) db.credentials
      ≡ some credential
  pub current : not (credential.revoked || ltb credential.expires_at q.now) ≡ true
  pub parent : ParentAuthority
  pub trusted : parent_for agent db ≡ some parent
  pub parent_is_active : is_active_parent parent.status ≡ true
  pub delegated : passed agent.valid_until q.now ≡ false

-- A session that has flushed request proofs, and nothing else.
pub record Flushed (db : Db) (calls : List Call) (t : Session) : Type 0 where
  pub saved : t.saved ≡ db
  pub calls_made : t.calls ≡ calls
  pub proofs : (rows : List RequestProof) × (t.work ≡ record db { request_proofs = rows })

module _ (h : Host) (env : Environment) (q : HttpRequest) (db : Db) (calls : List Call) where
  opened-Flushed : Flushed db calls (opened db calls)
  opened-Flushed = record { saved = refl; calls_made = refl; proofs = (db.request_proofs, refl) }

  -- The state is still the one at the start, and the token is the header's.
  abbrev IsPresented : String → Session → Type 0
  IsPresented token t = (t ≡ opened db calls) × (token ≡ bearer h q)

  own_text : (s : String) → (if s == "" then "" else s) ≡ s
  own_text s = ground (arith, eq_iff s "")

  header_token-Runs :
      Runs
        (opened db calls)
        (λ a t. IsPresented a t × ((a == "") ≡ false))
        (Untouched db calls)
        (header_token h q)
  unfolding header_token resolve_session_token
  header_token-Runs =
      Runs-bind _ _ _ IsPresented _ _
        (Runs-if _ _ _ _ _ _ (Runs-raise _ _ _ _ (refl, refl))
          (Runs-pure _ _ _ _ (refl, own_text (bearer h q))))
        λ token t k.
          rw (k.0) (Runs-raise_if _ _ _ _ _ _ (refl, refl) λ e. Runs-pure _ _ _ _ ((refl, k.1), e))

  verify_request_proof-Runs :
      (token key : String) (agent : Agent)
      → Runs
          (opened db calls)
          (λ a t. Flushed db calls t)
          (Untouched db calls)
          (verify_request_proof h q token agent key)
  unfolding verify_request_proof modify
  verify_request_proof-Runs token key agent =
      Runs-require _ _ _ _ _ _ (refl, refl)
        λ c d.
          Runs-raise_if _ _ _ _ _ _ (refl, refl)
            λ e. Runs-gets _ _ _ _ _ (
              Runs-raise_if _ _ _ _ _ _ (refl, refl)
                λ f. record {
                  holds = record { saved = refl; calls_made = refl; proofs = (_, refl) };
                })

  check_proof-Runs :
      (token : String) (agent : Agent) (claims : SessionClaims)
      → Runs
          (opened db calls)
          (λ a t. Flushed db calls t)
          (Untouched db calls)
          (check_proof h env q token agent claims)
  unfolding check_proof
  check_proof-Runs token agent claims = Runs-when _ _ _ _ _ opened-Flushed (
      Runs-raise_if _ _ _ _ _ _ (refl, refl)
        λ e.
          Runs-require _ _ _ _ _ _ (refl, refl) λ key k. verify_request_proof-Runs token key agent)

  authenticate-Runs :
      (token : String) (expected : Option String)
      → token ≡ bearer h q
      → (token == "") ≡ false
      → Runs
          (opened db calls)
          (λ a t. IsCaller h q db a.0 × Flushed db calls t)
          (Untouched db calls)
          (authenticate h env q token expected)
  unfolding authenticate
  authenticate-Runs token expected same given =
      Runs-require _ _ _ _ _ _ (refl, refl)
        λ claims c.
          Runs-raise_if _ _ _ _ _ _ (refl, refl)
            λ own. Runs-gets _ _ _ _ _ (
              Runs-require _ _ _ _ _ _ (refl, refl)
                λ agent a. Runs-gets _ _ _ _ _ (
                  Runs-require _ _ _ _ _ _ (refl, refl)
                    λ credential d. Runs-gets _ _ _ _ _ (
                      Runs-require _ _ _ _ _ _ (refl, refl)
                        λ parent p.
                          Runs-raise_if _ _ _ _ _ _ (refl, refl)
                            λ v.
                              Runs-bind _ _ _ (λ u t. Flushed db calls t) _ _
                                (check_proof-Runs token agent claims)
                                λ u t k. Runs-pure _ _ _ _ (
                                  let (f, g) =
                                    keep_if-some (λ (a : Agent). is_active_agent a.status)
                                      (find_agent claims.sub db) agent a in
                                  let (m, n) =
                                    keep_if-some
                                      (λ (c : Credential).
                                        not (c.revoked || ltb c.expires_at q.now))
                                      _ credential d in
                                  let (x, y) =
                                    keep_if-some
                                      (λ (p : ParentAuthority). is_active_parent p.status)
                                      (parent_for agent db) parent p in
                                  (
                                    record {
                                      claims = claims;
                                      given = ap (λ (s : String). s == "") (sym same) ∙ given;
                                      decoded = ap (h.decode_session q.now) (sym same) ∙ c;
                                      known = f;
                                      is_active = g;
                                      credential = credential;
                                      held = m;
                                      current = n;
                                      parent = parent;
                                      trusted = x;
                                      parent_is_active = y;
                                      delegated = v;
                                    },
                                    k,
                                  )))))

  -- The rest of a route after the caller is known, on a session that differs by request proofs.
  pub with_caller :
      {A : Type 0} (Q : A → Session → Type 0) (expected : Option String)
      (f : Agent × SessionClaims → Exec A)
      → ((caller : Agent × SessionClaims) (t : Session)
          → IsCaller h q db caller.0
          → Flushed db calls t
          → Runs t Q (Untouched db calls) (f caller))
      → Runs
          (opened db calls)
          Q
          (Untouched db calls)
          (header_token h q >>= λ token. authenticate h env q token expected >>= f)
  with_caller Q expected f rest =
      Runs-bind _ _ _ (λ a t. IsPresented a t × ((a == "") ≡ false)) _ _ header_token-Runs
        λ token t k. rw (k.0.0) (
          Runs-bind _ _ _ (λ a u. IsCaller h q db a.0 × Flushed db calls u) _ _
            (authenticate-Runs token expected (k.0.1) (k.1)) λ caller u l. rest caller u l.0 l.1)
