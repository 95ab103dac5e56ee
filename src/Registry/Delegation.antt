-- ===== src/Registry/Delegation.antt =====
-- app/routers/agents.py, "capabilities/limits coming ONLY from the verified delegation": what a
-- registration or a key rotation may give an agent.
use paari_payments_protocol.Prelude.{
  ◌==◌, number_eq, text_eq, Bool-cases, first, is_some, first-append_none, ℕ, ◌+◌, ◌≤◌, ◌≡◌, refl,
  ◌⊎◌, inl, inr, Bool, true, not, Option, none, some, List, [], ◌∷◌, ◌++◌, arith, eq_refl, eq_iff,
  ltb, false,
}
use paari_payments_protocol.Models.{ParentAuthority, AgentStatus, Credential, is_active_parent}
use paari_payments_protocol.Models.Rows.{Db, DelegationRecord}
use paari_payments_protocol.Host.{Host, CredentialClaims}
use paari_payments_protocol.Audit
use paari_payments_protocol.Registry.Agents.{
  consumed_delegation, new_credential, delegated_agent, credential_claims,
}
use paari_payments_protocol.Exec.{◌>>=◌, modify, commit, pure, audit, Call, Session}
use paari_payments_protocol.Audit
use paari_payments_protocol.Exec.Runs.{Runs-raise_if, Runs-require, Runs-gets, opened, Runs}
use paari_payments_protocol.Payments.Authenticate.{keep_if}
use paari_payments_protocol.Registry.{find_parent, find_delegation}
use paari_payments_protocol.Registry.Agents.{
  add_delegation, add_agent, add_credential, bind_agent, register_agent, NewIds, AgentRegistration,
  Registered,
}

-- A refused request leaves the database and the providers as they were.
abbrev pub Untouched : Db → List Call → Session → Type 0
Untouched db calls t = (t.saved ≡ db) × (t.calls ≡ calls)

pub keep_if-some :
    {A : Type 0} (p : A → Bool) (o : Option A) (a : A)
    → keep_if p o ≡ some a
    → (o ≡ some a) × (p a ≡ true)
keep_if-some p none a h = ground (arith)
keep_if-some p (some b) a h = elim (Bool-cases (p b)) [
  | inl e ↦ ground (arith, e)
  | inr e ↦ ground (arith, e)
]

pub first-appended :
    (ds : List DelegationRecord) (d : DelegationRecord)
    → first (λ (x : DelegationRecord). x.delegation_id == d.delegation_id) ds ≡ none
    → first (λ (x : DelegationRecord). x.delegation_id == d.delegation_id) (ds ++ d ∷ []) ≡ some d
first-appended ds d h = ground (
  arith,
  eq_refl d.delegation_id,
  first-append_none (λ (x : DelegationRecord). x.delegation_id == d.delegation_id) ds (d ∷ []),
)

module _ (h : Host) (now : ℕ) (ids : NewIds) (req : AgentRegistration) where
  -- The row of the new credential, which is the agent's and in force until the delegation expires,
  -- or for 90 days where that is shorter.
  record HasCredential (db : Db) (r : Registered) (after : Db) : Type 0 where
    credential : Credential
    added : after.credentials ≡ db.credentials ++ credential ∷ []
    owned : (credential.agent_pk ≡ r.agent.id) × (credential.revoked ≡ false)
    shown : r.credential_expires_at ≡ credential.expires_at
    ends :
        ((credential.expires_at ≡ req.delegation.expires_at)
          × (req.delegation.expires_at ≤ now + 7776000))
        ⊎ ((credential.expires_at ≡ now + 7776000) × (now + 7776000 ≤ req.delegation.expires_at))

  -- The signed credential: it claims what was delegated, for 90 days, whenever the delegation expires.
  record IsClaimed (r : Registered) : Type 0 where
    claims : CredentialClaims
    jwt : r.credential_jwt ≡ h.encode_credential claims
    subject : claims.sub ≡ r.agent.agent_id
    capabilities : claims.capabilities ≡ req.delegation.granted_capabilities
    limit : claims.payment_limit_minor_units ≡ req.delegation.payment_limit_minor_units
    currency : claims.currency ≡ req.delegation.currency
    lifetime : (claims.iat ≡ now) × (claims.exp ≡ now + 7776000)

  -- What the answer of a registration and the database after it satisfy.
  pub record IsDelegated (db : Db) (r : Registered) (after : Db) : Type 0 where
    parent : ParentAuthority
    found : find_parent req.delegation.parent_id db ≡ some parent
    vouches : is_active_parent parent.status ≡ true
    signed :
        h.verify_signature parent.public_key_pem
          (h.canonical_delegation req.delegation)
          req.delegation_signature_b64
        ≡ true
    current : now ≤ req.delegation.expires_at
    bound : req.delegation.agent_public_key_fingerprint ≡ h.sha256 req.public_key_pem
    pub unused : find_delegation req.delegation.delegation_id db ≡ none
    pub consumed :
        (d : DelegationRecord) × (d.delegation_id ≡ req.delegation.delegation_id)
        × (after.delegations ≡ db.delegations ++ d ∷ [])
    burned : is_some (find_delegation req.delegation.delegation_id after) ≡ true
    registered : after.agents ≡ db.agents ++ r.agent ∷ []
    key : r.agent.public_key_pem ≡ req.public_key_pem
    owner : (r.agent.parent_pk ≡ parent.id) × (r.agent.org_id ≡ parent.org_id)
    capabilities : r.agent.granted_capabilities ≡ req.delegation.granted_capabilities
    limit :
        (r.agent.payment_limit_minor_units ≡ req.delegation.payment_limit_minor_units)
        × (r.agent.currency ≡ req.delegation.currency)
    tenure :
        (r.agent.status ≡ AgentStatus.active)
        × (r.agent.valid_until ≡ some req.delegation.expires_at)
        × (r.agent.delegation_id ≡ req.delegation.delegation_id)
    issued : HasCredential db r after
    signed_claims : IsClaimed r

  bind_agent-IsDelegated :
      (db : Db) (calls : List Call) (parent : ParentAuthority)
      → keep_if
          (λ (q : ParentAuthority). is_active_parent q.status)
          (find_parent req.delegation.parent_id db)
        ≡ some parent
      → not (
          h.verify_signature parent.public_key_pem
            (h.canonical_delegation req.delegation)
            req.delegation_signature_b64)
        ≡ false
      → ltb req.delegation.expires_at now ≡ false
      → not (req.delegation.agent_public_key_fingerprint == h.sha256 req.public_key_pem) ≡ false
      → is_some (find_delegation req.delegation.delegation_id db) ≡ false
      → Runs
          (opened db calls)
          (λ r t. IsDelegated db r t.saved × (t.calls ≡ calls))
          (Untouched db calls)
          (bind_agent h now ids parent req (h.sha256 req.public_key_pem))
  unfolding bind_agent add_delegation add_agent add_credential audit modify commit pure ◌>>=◌
      Audit.record_audit
  bind_agent-IsDelegated db calls parent p v x b u =
      let d = req.delegation in
      let fingerprint = h.sha256 req.public_key_pem in
      let (f, a) =
        keep_if-some (λ (q : ParentAuthority). is_active_parent q.status)
          (find_parent d.parent_id db) parent p in
      let none_used : find_delegation d.delegation_id db ≡ none = ground (arith, u) in
      record {
        holds = (
          record {
            parent = parent;
            found = f;
            vouches = a;
            signed = ground (arith, v);
            current = ground (arith, x);
            bound = ground (arith, b, eq_iff d.agent_public_key_fingerprint fingerprint);
            unused = none_used;
            consumed = (consumed_delegation now "default" parent.id fingerprint d, refl, refl);
            burned =
                rw
                  (first-appended db.delegations
                    (consumed_delegation now "default" parent.id fingerprint d) none_used)
                  refl;
            registered = refl;
            key = refl;
            owner = (refl, refl);
            capabilities = refl;
            limit = (refl, refl);
            tenure = (refl, refl, refl);
            issued = record {
              credential = new_credential now ids.credential_id "default" ids.agent_pk d.expires_at;
              added = refl;
              owned = (refl, refl);
              shown = refl;
              ends = ground arith;
            };
            signed_claims = record {
              claims =
                  credential_claims now ids.credential_id
                    (delegated_agent ids parent d req.public_key_pem none) "1.0";
              jwt = refl;
              subject = refl;
              capabilities = refl;
              limit = refl;
              currency = refl;
              lifetime = (refl, refl);
            };
          },
          refl,
        );
      }

  -- A registration that returns has a found and active parent, a delegation that this parent signed,
  -- that is in date, bound to the presented key and not used before; it marks the delegation as used
  -- and adds one active agent, with the presented key, the parent's organization, exactly the delegated
  -- capabilities, limit and currency, valid until the delegation expires, and one credential row of
  -- this agent, which ends with the delegation or after 90 days, whichever comes first. The signed
  -- credential claims the same, but for 90 days in any case. A registration that is refused leaves the
  -- database as it was, and neither calls a provider.
  pub register_agent-IsDelegated :
      (db : Db) (calls : List Call)
      → Runs
          (opened db calls)
          (λ r t. IsDelegated db r t.saved × (t.calls ≡ calls))
          (Untouched db calls)
          (register_agent h now ids req)
  unfolding register_agent
  register_agent-IsDelegated db calls = Runs-gets _ _ _ _ _ (
      Runs-require _ _ _ _ _ _ (refl, refl)
        λ parent p.
          Runs-raise_if _ _ _ _ _ _ (refl, refl)
            λ t.
              Runs-raise_if _ _ _ _ _ _ (refl, refl)
                λ v.
                  Runs-raise_if _ _ _ _ _ _ (refl, refl)
                    λ x.
                      Runs-raise_if _ _ _ _ _ _ (refl, refl)
                        λ b. Runs-gets _ _ _ _ _ (
                          Runs-raise_if _ _ _ _ _ _ (refl, refl)
                            λ u. bind_agent-IsDelegated db calls parent p v x b u))
