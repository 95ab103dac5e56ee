-- ===== src/Registry/KillSwitch.antt =====
-- app/routers/agents.py, revoke_agent, and app/routers/payments.py, consume_authorization: a revoked
-- agent spends nothing more.
use paari_payments_protocol.Prelude.{
  ◌≡◌, ◌≢◌, refl, sym, ap, ◌∙◌, Bool, true, false, not, ◌&&◌, ◌==◌, text_eq, number_eq, eq_iff,
  Option, none, some, List, String, ℕ, first, update_where, first-update_where, first_holds, arith,
}
use paari_payments_protocol.Models.{Agent, AgentStatus, is_active_agent, Credential}
use paari_payments_protocol.Models.Rows.{Db, BoundedAuthorization}
use paari_payments_protocol.Host.{Host}
use paari_payments_protocol.Config.{Environment}
use paari_payments_protocol.Exec.{◌>>=◌, ◌>>◌, modify, commit, pure, Call, Session, when}
use paari_payments_protocol.Exec.Runs.{
  opened, Runs, Runs-gets, Runs-returns, Runs-raise_if, Runs-weaken, require-returns, Runs-require,
  Runs-pure, Runs-bind, Runs-raise, Runs-if,
}
use paari_payments_protocol.Payments.Authenticate.{
  HttpRequest, keep_if, find_agent, authenticate, resolve_session_token,
}
use paari_payments_protocol.Payments.Consume.{
  ConsumeAnswers, find_authorization, consume_authorization,
}
use paari_payments_protocol.Registry.{AdminConfig, is_admin_key, modify_agent}
use paari_payments_protocol.Registry.Revoke.{
  AgentRevokeRequest, revoke_agent, parent_authorizes, end_agent,
}
use paari_payments_protocol.Registry.Delegation.{Untouched}

abbrev active_agent : String → Db → Option Agent
active_agent id db = keep_if (λ (a : Agent). is_active_agent a.status) (find_agent id db)

not_found :
    (id sub : String) (db : Db) (agent : Agent)
    → id ≢ ""
    → active_agent id db ≡ none
    → (not (id == "") && not (sub == id)) ≡ false
    → active_agent sub db ≡ some agent
    → ⊥
not_found id sub db agent named off same found =
    let e : sub ≡ id = ground (arith, eq_iff id "", eq_iff sub id) in
    let n : none ≡ some agent = sym off ∙ ap (λ (t : String). active_agent t db) (sym e) ∙ found in
    cc

module _ (h : Host) (env : Environment) (q : HttpRequest) (id : String) where
  -- A session whose agent is not active is refused, whatever the token says.
  authenticate-refuses :
      (token : String) (s : Session)
      → id ≢ ""
      → active_agent id s.work ≡ none
      → Runs s
          (λ a t. ⊥)
          (λ t. (t.saved ≡ s.saved) × (t.calls ≡ s.calls))
          (authenticate h env q token (some id))
  unfolding authenticate
  authenticate-refuses token s named off =
      Runs-require _ _ _ _ _ _ (refl, refl)
        λ claims c.
          Runs-raise_if _ _ _ _ _ _ (refl, refl)
            λ same. Runs-gets _ _ _ _ _ (
              Runs-require _ _ _ _ _ _ (refl, refl)
                λ agent found. elim (not_found id claims.sub s.work agent named off same found) [ ])

  resolve-Runs :
      (db : Db) (calls : List Call)
      → Runs
          (opened db calls)
          (λ a t. t ≡ opened db calls)
          (Untouched db calls)
          (resolve_session_token h q)
  unfolding resolve_session_token
  resolve-Runs db calls =
      Runs-if _ _ _ _ _ _ (Runs-raise _ _ _ _ (refl, refl)) (Runs-pure _ _ _ _ refl)

  pub consume-refuses :
      (w : ConsumeAnswers) (auth : BoundedAuthorization) (wanted : String) (db : Db)
      (calls : List Call)
      → find_authorization wanted db ≡ some auth
      → auth.agent_id ≡ id
      → id ≢ ""
      → active_agent id db ≡ none
      → Runs
          (opened db calls)
          (λ a t. ⊥)
          (Untouched db calls)
          (consume_authorization h env q w wanted)
  unfolding consume_authorization
  consume-refuses w auth wanted db calls found owner named off = Runs-gets _ _ _ _ _ (
      Runs-returns _ _ _ auth _ _ (require-returns _ _ auth _ found) (
        Runs-bind _ _ _ (λ a t. t ≡ opened db calls) _ _ (resolve-Runs db calls)
          λ token t same.
            Runs-bind _ _ _ (λ a u. ⊥) _ _ (refusing t token same)
              λ a u none_left. elim none_left [ ]))
    where
      refusing :
          (t : Session) (token : String)
          → t ≡ opened db calls
          → Runs t (λ a u. ⊥) (Untouched db calls) (authenticate h env q token (some auth.agent_id))
      refusing t token same =
          rw (same, owner) (authenticate-refuses token (opened db calls) named off)

find_agent-ended :
    (id : String) (a : Agent) (agents : List Agent)
    → first (λ (b : Agent). b.agent_id == id) agents ≡ some a
    → keep_if
        (λ (b : Agent). is_active_agent b.status)
        (first
          (λ (b : Agent). b.agent_id == id)
          (update_where
            (λ (b : Agent). b.agent_id == a.agent_id)
            (λ (b : Agent). record b { status = AgentStatus.revoked })
            agents))
      ≡ none
find_agent-ended id a agents e =
    let it = λ (b : Agent). b.agent_id == id in
    let same : a.agent_id ≡ id = ground (arith, first_holds it agents a e, eq_iff a.agent_id id) in
    rw (same) (
      rw
        (first-update_where it it (λ (b : Agent). record b { status = AgentStatus.revoked }) agents
          (λ b. refl))
        (rw e (rw (first_holds it agents a e) refl)))

-- The database after the agent has been ended.
abbrev ended : Agent → Db → Db
ended agent db = record db {
  agents =
      update_where (λ (b : Agent). b.agent_id == agent.agent_id)
        (λ b. record b { status = AgentStatus.revoked }) db.agents;
  credentials =
      update_where (λ (c : Credential). c.agent_pk == agent.id) (λ c. record c { revoked = true })
        db.credentials;
}

module _ (h : Host) (now : ℕ) (req : AgentRevokeRequest) (agent : Agent) (db : Db)
    (calls : List Call) where
  -- What a revocation may change before it ends the agent.
  record IsChecked (t : Session) : Type 0 where
    same_agents : t.work.agents ≡ db.agents
    same_authorizations : t.work.authorizations ≡ db.authorizations
    same_calls : t.calls ≡ calls

  parent_authorizes-Runs :
      Runs
        (opened db calls)
        (λ a t. IsChecked t)
        (Untouched db calls)
        (parent_authorizes h now agent req)
  unfolding parent_authorizes modify
  parent_authorizes-Runs =
      Runs-raise_if _ _ _ _ _ _ (refl, refl)
        λ a. Runs-gets _ _ _ _ _ (
          Runs-require _ _ _ _ _ _ (refl, refl)
            λ parent p.
              Runs-raise_if _ _ _ _ _ _ (refl, refl)
                λ b. Runs-gets _ _ _ _ _ (
                  Runs-raise_if _ _ _ _ _ _ (refl, refl)
                    λ c.
                      Runs-raise_if _ _ _ _ _ _ (refl, refl)
                        λ d. record {
                          holds = record {
                            same_agents = refl;
                            same_authorizations = refl;
                            same_calls = refl;
                          };
                        }))

  authorized-Runs :
      (b : Bool)
      → Runs
          (opened db calls)
          (λ a t. IsChecked t)
          (Untouched db calls)
          (when b (parent_authorizes h now agent req))
  unfolding pure
  authorized-Runs true = parent_authorizes-Runs
  authorized-Runs false = record {
    holds = record { same_agents = refl; same_authorizations = refl; same_calls = refl };
  }

  end_agent-Runs :
      (t : Session)
      → IsChecked t
      → Runs t
          (λ a u.
            (u.saved.agents ≡ (ended agent db).agents)
            × (u.saved.authorizations ≡ db.authorizations)
            × (u.calls ≡ calls))
          (Untouched db calls)
          (end_agent agent >> pure agent.agent_id)
  unfolding end_agent modify_agent modify commit ◌>>=◌ pure
  end_agent-Runs t k = record {
    holds = (rw (k.same_agents) refl, k.same_authorizations, k.same_calls);
  }

-- The kill switch: if an agent with a name is revoked, by an administrator or by its parent, then on
-- the database that this leaves no consume request for an authorization of that agent returns: it is
-- refused, it leaves the database as it was, and no provider is called. A revocation that is refused
-- leaves the database as it was, and no revocation calls a provider.
pub revoked_agent_cannot_spend :
    (h : Host) (env : Environment) (admin : AdminConfig) (key : String) (now : ℕ) (id : String)
    (req : AgentRevokeRequest) (q : HttpRequest) (w : ConsumeAnswers) (wanted : String)
    (auth : BoundedAuthorization) (db : Db) (calls : List Call)
    → id ≢ ""
    → find_authorization wanted db ≡ some auth
    → auth.agent_id ≡ id
    → Runs
        (opened db calls)
        (λ a t.
          (t.calls ≡ calls)
          × Runs
              (opened t.saved t.calls)
              (λ r u. ⊥)
              (Untouched t.saved t.calls)
              (consume_authorization h env q w wanted))
        (Untouched db calls)
        (revoke_agent h admin key now id req)
unfolding revoke_agent
revoked_agent_cannot_spend h env admin key now id req q w wanted auth db calls named found owner =
    Runs-gets _ _ _ _ _ (
      Runs-require _ _ _ _ _ _ (refl, refl)
        λ agent a.
          Runs-bind _ _ _ (λ u t. IsChecked h now req agent db calls t) _ _
            (authorized-Runs h now req agent db calls (not (is_admin_key admin key)))
            λ u t k.
              Runs-weaken _ _ _ _ _
                (λ v s (agents, auths, same). (
                  same,
                  consume-refuses h env q id w auth wanted s.saved s.calls
                      (ap
                          (λ xs.
                            first (λ (b : BoundedAuthorization). b.authorization_id == wanted) xs)
                          auths
                        ∙ found)
                      owner named
                      (ap
                          (λ xs.
                            keep_if (λ (b : Agent). is_active_agent b.status)
                              (first (λ (b : Agent). b.agent_id == id) xs))
                          agents
                        ∙ find_agent-ended id agent db.agents a),
                ))
                (end_agent-Runs h now req agent db calls t k))
