-- ===== src/Registry/Consumption.antt =====
-- What one registration, by either route, does to the table of delegations (app/routers/agents.py and
-- app/routers/v1.py).
use paari_payments_protocol.Prelude.{
  text_eq, number_eq, is_some, ℕ, String, Bool, true, false, Option, none, some, [], ◌∷◌, ◌++◌, ◌≡◌,
  refl,
}
use paari_payments_protocol.Models.{Agent, ParentAuthority}
use paari_payments_protocol.Models.Rows.{Db, DelegationRecord}
use paari_payments_protocol.Host.{Host, DelegationDocument}
use paari_payments_protocol.Audit
use paari_payments_protocol.Exec.{
  ◌>>=◌, modify, commit, pure, audit, Session, Result, ok, err, when,
}
use paari_payments_protocol.Exec.Runs.{
  Runs, opened, Ending, Runs-gets, Runs-require, Runs-raise_if, Runs-bind, Runs-pure, Runs-last,
}
use paari_payments_protocol.Envelope.{Crypto}
use paari_payments_protocol.Registry.{
  AdminConfig, find_delegation, is_admin_key, require_admin_org, modify_agent,
}
use paari_payments_protocol.Registry.Agents.{
  NewIds, AgentRegistration, Registered, register_agent, add_delegation, add_agent, add_credential,
  consumed_delegation,
}
use paari_payments_protocol.Registry.Rotate.{RotateKeyRequest, rotate_agent_key, apply_rotation}
use paari_payments_protocol.Registry.Protocol.{
  RegisterPayload, PayloadDelegation, v1_check_delegation, v1_bind_agent, document_of,
}
use paari_payments_protocol.Registry.Delegation.{register_agent-IsDelegated, IsDelegated}

-- A delegation is used up: it was unknown, and is the one row that is added.
pub record Consumes (id : String) (db : Db) (after : Db) : Type 0 where
  pub unused : find_delegation id db ≡ none
  pub consumed :
      (d : DelegationRecord) × (d.delegation_id ≡ id)
      × (after.delegations ≡ db.delegations ++ d ∷ [])

is_some-none : (o : Option DelegationRecord) → is_some o ≡ false → o ≡ none
is_some-none none e = refl
is_some-none (some d) e = cc

module _ (h : Host) (now : ℕ) (db : Db) where
  apply_rotation-Consumes :
      (admin : AdminConfig) (key : String) (agent : Agent) (parent : ParentAuthority)
      (credential_id : String) (req : RotateKeyRequest)
      → is_some (find_delegation req.delegation.delegation_id db) ≡ false
      → Runs
          (opened db [])
          (λ a t. Consumes req.delegation.delegation_id db t.saved)
          (λ t. t.saved ≡ db)
          (apply_rotation h admin key now agent parent credential_id req)
  unfolding apply_rotation add_delegation add_credential modify_agent audit modify commit pure ◌>>=◌
      Audit.record_audit
  apply_rotation-Consumes admin key agent parent credential_id req u = record {
    holds = record {
      unused = is_some-none (find_delegation req.delegation.delegation_id db) u;
      consumed = (
        consumed_delegation now parent.org_id parent.id (h.sha256 req.new_public_key_pem)
            req.delegation,
        refl,
        refl,
      );
    };
  }

  admin_check :
      (b : Bool) (admin : AdminConfig) (key org : String)
      → Runs
          (opened db [])
          (λ a t. t ≡ opened db [])
          (λ t. t.saved ≡ db)
          (when b (require_admin_org admin key org))
  unfolding require_admin_org
  admin_check false admin key org = Runs-pure _ _ _ tt refl
  admin_check true admin key org =
      Runs-raise_if _ _ _ _ _ _ refl (λ e. Runs-last _ _ _ _ _ refl refl)

  pub rotate_agent_key-Consumes :
      (admin : AdminConfig) (key credential_id agent_id : String) (req : RotateKeyRequest)
      → Runs
          (opened db [])
          (λ a t. Consumes req.delegation.delegation_id db t.saved)
          (λ t. t.saved ≡ db)
          (rotate_agent_key h admin key now credential_id agent_id req)
  unfolding rotate_agent_key
  rotate_agent_key-Consumes admin key credential_id agent_id req = Runs-gets _ _ _ _ _ (
      Runs-require _ _ _ _ _ _ refl λ agent a. Runs-gets _ _ _ _ _ (
        Runs-require _ _ _ _ _ _ refl λ parent p.
          Runs-bind _ _ _ (λ u t. t ≡ opened db []) _ _
            (admin_check (is_admin_key admin key) admin key parent.org_id)
            λ u t same. rw same (
              Runs-raise_if _ _ _ _ _ _ refl λ b. Runs-raise_if _ _ _ _ _ _ refl λ c.
                Runs-raise_if _ _ _ _ _ _ refl λ d. Runs-raise_if _ _ _ _ _ _ refl λ e.
                  Runs-raise_if _ _ _ _ _ _ refl λ f. Runs-gets _ _ _ _ _ (
                    Runs-raise_if _ _ _ _ _ _ refl
                      λ g. apply_rotation-Consumes admin key agent parent credential_id req g))))

  pub register_agent-Consumes :
      (ids : NewIds) (req : AgentRegistration)
      → Runs
          (opened db [])
          (λ a t. Consumes req.delegation.delegation_id db t.saved)
          (λ t. t.saved ≡ db)
          (register_agent h now ids req)
  register_agent-Consumes ids req = record {
    holds =
        go (register_agent h now ids req (opened db [])).0
          (register_agent h now ids req (opened db [])).1
          (register_agent-IsDelegated h now ids req db []).holds;
  }
    where
      go :
          (r : Result Registered) (t : Session)
          → Ending
              (λ a u. IsDelegated h now ids req db a u.saved × (u.calls ≡ []))
              (λ u. (u.saved ≡ db) × (u.calls ≡ []))
              r
              t
          → Ending (λ a u. Consumes req.delegation.delegation_id db u.saved) (λ u. u.saved ≡ db) r t
      go (ok a) t (k, same) = record { unused = k.unused; consumed = k.consumed }
      go (err e) t (k, same) = k

  module _ (c : Crypto) (read_payload : String → RegisterPayload) (ids : NewIds) where
    v1_bind_agent-Consumes :
        (parent : ParentAuthority) (d : DelegationDocument) (key fingerprint : String)
        → is_some (find_delegation d.delegation_id db) ≡ false
        → Runs
            (opened db [])
            (λ a t. Consumes d.delegation_id db t.saved)
            (λ t. t.saved ≡ db)
            (v1_bind_agent h c read_payload now ids parent d key fingerprint)
    unfolding v1_bind_agent add_delegation add_agent add_credential audit modify commit pure ◌>>=◌
        Audit.record_audit
    v1_bind_agent-Consumes parent d key fingerprint u = record {
      holds = record {
        unused = is_some-none (find_delegation d.delegation_id db) u;
        consumed = (consumed_delegation now parent.org_id parent.id fingerprint d, refl, refl);
      };
    }

    pub v1_check_delegation-Consumes :
        (payload : RegisterPayload) (d : PayloadDelegation) (fingerprint : String)
        → Runs
            (opened db [])
            (λ a t. Consumes d.delegation_id db t.saved)
            (λ t. t.saved ≡ db)
            (v1_check_delegation h c read_payload now ids payload d fingerprint)
    unfolding v1_check_delegation
    v1_check_delegation-Consumes payload d fingerprint = Runs-gets _ _ _ _ _ (
        Runs-require _ _ _ _ _ _ refl λ parent p. Runs-raise_if _ _ _ _ _ _ refl λ a.
          Runs-require _ _ _ _ _ _ refl λ issued i. Runs-require _ _ _ _ _ _ refl λ expires x.
            Runs-raise_if _ _ _ _ _ _ refl λ b. Runs-raise_if _ _ _ _ _ _ refl λ e.
              Runs-raise_if _ _ _ _ _ _ refl λ f. Runs-raise_if _ _ _ _ _ _ refl λ g.
                Runs-gets _ _ _ _ _ (
                  Runs-raise_if _ _ _ _ _ _ refl λ u. Runs-raise_if _ _ _ _ _ _ refl λ k.
                    Runs-raise_if _ _ _ _ _ _ refl λ l.
                      v1_bind_agent-Consumes parent (document_of d issued expires)
                        payload.public_key_pem fingerprint u))
