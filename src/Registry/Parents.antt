-- ===== src/Registry/Parents.antt =====
-- app/routers/parents.py, and the routes on parents and organizations of app/routers/v1.py.
use text.Mathlib.Text.{starts_with, find?}
use paari_payments_protocol.Prelude.{
  ◌==◌, number_eq, text_eq, text_or, first, update_where, any, is_some, contains, ℕ, String, Bool,
  true, false, not, ◌&&◌, ◌||◌, Option, none, some, List, [], ◌∷◌, ◌++◌,
}
use paari_payments_protocol.Models.{
  ParentAuthority, ParentStatus, Agent, Credential, is_active_parent,
}
use paari_payments_protocol.Models.Rows.{says, Organization, str}
use paari_payments_protocol.Host.{Host}
use paari_payments_protocol.Exec.{
  Exec, pure, gets, ◌>>=◌, ◌>>◌, modify, commit, require, raise_if, when, audit, Exn, http,
}
use paari_payments_protocol.Payments.Authenticate.{keep_if}
use paari_payments_protocol.Registry.{
  AdminConfig, require_admin_org, find_parent, modify_parent, labelled,
}

-- schemas.ParentRegistrationRequest, without the name
pub record ParentRegistration : Type 0 where
  pub parent_type : String
  pub contact : String
  pub public_key_pem : String

-- schemas.ParentStatusResponse
pub record ParentAnswer : Type 0 where
  pub parent_id : String
  pub status : ParentStatus
  pub trust_tier : String

abbrev parent_answer : ParentAuthority → ParentAnswer
parent_answer p = record { parent_id = p.parent_id; status = p.status; trust_tier = p.trust_tier }

abbrev pub is_revoked : ParentStatus → Bool
is_revoked ParentStatus.revoked = true
is_revoked _ = false

abbrev no_parent : Exn
no_parent = http 404 (says "Parent authority not found")

abbrev parent_types : List String
parent_types = "company" ∷ "developer" ∷ "platform" ∷ "agent" ∷ "idp" ∷ []

-- `register_parent`; `id` and `parent_id` are new
unfoldable pub register_parent : Host → ℕ → String → ParentRegistration → Exec ParentAnswer
register_parent h id parent_id req = do
  raise_if (not (contains req.parent_type parent_types)) (http 400 (says "Invalid parent_type"))
  raise_if (not (is_some (find? req.contact "@")) && not (starts_with req.contact "http"))
      (http 400 (says "Contact must be a verifiable email or URL"))
  raise_if (h.strip req.public_key_pem == "" || not (h.is_ed25519_pem req.public_key_pem))
      (http 400 (says "Invalid parent public key; expected Ed25519 PEM"))
  let parent : ParentAuthority = record {
    id = id;
    parent_id = parent_id;
    org_id = "default";
    public_key_pem = req.public_key_pem;
    status = ParentStatus.pending_verification;
    trust_tier = "self_asserted";
    kyb_provider_ref = none;
  }
  modify λ db. record db { parents = db.parents ++ parent ∷ [] }
  commit
  pure (parent_answer parent)

module _ (admin : AdminConfig) (key : String) where
  -- `approve_parent`
  unfoldable pub approve_parent : String → Exec ParentAnswer
  approve_parent parent_id = do
    found ← gets (find_parent parent_id)
    parent ← require found no_parent
    require_admin_org admin key parent.org_id
    raise_if (is_revoked parent.status) (http 409 (says "Parent authority has been revoked"))
    modify_parent parent_id
        λ p. record p { status = ParentStatus.active; trust_tier = "admin_approved" }
    commit
    pure (
        parent_answer
          (record parent { status = ParentStatus.active; trust_tier = "admin_approved" }))

  -- `reject_parent`
  unfoldable pub reject_parent : String → Exec ParentAnswer
  reject_parent parent_id = do
    found ← gets (find_parent parent_id)
    parent ← require found no_parent
    require_admin_org admin key parent.org_id
    modify_parent parent_id λ p. record p { status = ParentStatus.rejected }
    commit
    pure (parent_answer (record parent { status = ParentStatus.rejected }))

  -- The credentials of all agents of a parent are revoked.
  abbrev pub owned_by : ℕ → List Agent → Credential → Bool
  owned_by parent_pk agents c =
      any (λ (a : Agent). a.parent_pk == parent_pk && a.id == c.agent_pk) agents

  unfoldable pub revoke_credentials_of : ℕ → Exec Unit
  revoke_credentials_of parent_pk = modify λ db. record db {
    credentials =
        update_where (λ (c : Credential). owned_by parent_pk db.agents c && not c.revoked)
          (λ c. record c { revoked = true }) db.credentials;
  }

  -- `revoke_parent`
  unfoldable pub revoke_parent : String → Exec ParentAnswer
  unfolding revoke_credentials_of
  revoke_parent parent_id = do
    found ← gets (find_parent parent_id)
    parent ← require found no_parent
    require_admin_org admin key parent.org_id
    modify_parent parent_id λ p. record p { status = ParentStatus.revoked }
    revoke_credentials_of parent.id
    commit
    pure (parent_answer (record parent { status = ParentStatus.revoked }))

  -- `rotate_parent_key`
  unfoldable pub rotate_parent_key : Host → ℕ → String → String → Exec Unit
  rotate_parent_key h now parent_id new_key = do
    found ← gets (find_parent parent_id)
    parent ←
        require (keep_if (λ (p : ParentAuthority). is_active_parent p.status) found)
          (http 404 (says "Active parent authority not found"))
    require_admin_org admin key parent.org_id
    raise_if (not (h.is_ed25519_pem new_key))
        (http 400 (says "Invalid parent public key; expected Ed25519 PEM"))
    modify_parent parent_id λ p. record p { public_key_pem = new_key }
    audit h now (record {
      transaction_id = labelled "parent:" parent_id;
      agent_id = "";
      parent_id = some parent_id;
      kind = "parent_key_rotated";
      detail = ("fingerprint", str (h.sha256 new_key)) ∷ [];
      org_id = some parent.org_id;
    })
    commit

  -- `record_parent_kyb`
  unfoldable pub record_parent_kyb : Host → ℕ → String → String → Exec String
  record_parent_kyb h now parent_id provider_ref = do
    found ← gets (find_parent parent_id)
    parent ← require found no_parent
    require_admin_org admin key parent.org_id
    modify_parent parent_id
        λ p. record p { trust_tier = "kyb_verified"; kyb_provider_ref = some provider_ref }
    audit h now (record {
      transaction_id = labelled "parent:" parent_id;
      agent_id = "";
      parent_id = some parent_id;
      kind = "kyb_verified";
      detail = ("provider_ref", str provider_ref) ∷ [];
      org_id = some parent.org_id;
    })
    commit
    pure "kyb_verified"

  -- `create_org` with an optional parent to move into it
  unfoldable pub create_org : Host → ℕ → String → String → Option String → Exec Unit
  create_org h now org_id name parent_id = do
    require_admin_org admin key ""
    raise_if (org_id == "" || name == "") (http 400 (says "org_id and name are required"))
    held ← gets λ db. first (λ (o : Organization). o.org_id == org_id) db.organizations
    raise_if (is_some held) (http 409 (says "Organization already exists"))
    found ← gets (find_parent (text_or parent_id ""))
    raise_if (not (text_or parent_id "" == "") && not (is_some found)) no_parent
    modify λ db. record db {
      organizations = db.organizations ++ record { org_id = org_id; name = name } ∷ [];
    }
    when (not (text_or parent_id "" == ""))
        (modify_parent (text_or parent_id "") λ p. record p { org_id = org_id })
    audit h now (record {
      transaction_id = labelled "org:" org_id;
      agent_id = "";
      parent_id = parent_id;
      kind = "org_created";
      detail = ("org_id", str org_id) ∷ ("name", str name) ∷ [];
      org_id = some org_id;
    })
    commit
