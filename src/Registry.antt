-- ===== src/Registry.antt =====
-- The trust registry: who may administer it (app/security.py), and what app/routers/parents.py,
-- agents.py, auth.py and v1.py share.
pub mod Consumption
pub mod Parents
pub mod Agents
pub mod Revoke
pub mod Rotate
pub mod Login
pub mod Protocol
pub mod DelegationOnce
pub mod NonceOnce
pub mod KillSwitch
pub mod Lifecycle
pub mod Delegation
use Prim.Native.String.{◌++◌ as text_append}
use paari_payments_protocol.Prelude.{
  ltb, if◌then◌else◌, ◌==◌, number_eq, text_eq, first, update_where, ℕ, String, Bool, not, ◌&&◌,
  Option, none, some,
}
use paari_payments_protocol.Models.{ParentAuthority, ParentStatus, Agent, is_active_parent}
use paari_payments_protocol.Models.Rows.{says, Db, DelegationRecord}
use paari_payments_protocol.Exec.{Exec, ◌>>=◌, ◌>>◌, modify, raise_if, http}

-- PAARI_ADMIN_API_KEY and PAARI_ADMIN_ORG; an unset key is replaced by a random one at the start.
pub record AdminConfig : Type 0 where
  pub api_key : String
  pub admin_org : String

-- `is_admin_key`
unfoldable pub is_admin_key : AdminConfig → String → Bool
is_admin_key admin candidate = not (candidate == "") && candidate == admin.api_key

-- `require_admin_org`
unfoldable pub require_admin_org : AdminConfig → String → String → Exec Unit
unfolding is_admin_key
require_admin_org admin candidate target_org = do
  raise_if (not (is_admin_key admin candidate))
      (http 401 (says "Missing or invalid admin credentials"))
  raise_if (not (admin.admin_org == "") && not (admin.admin_org == target_org))
      (http 403 (says "Admin key is not authorized for this organization"))

abbrev pub find_parent : String → Db → Option ParentAuthority
find_parent parent_id db = first (λ (p : ParentAuthority). p.parent_id == parent_id) db.parents

-- A change of one parent's row.
unfoldable pub modify_parent : String → (ParentAuthority → ParentAuthority) → Exec Unit
modify_parent parent_id f = modify λ db. record db {
  parents = update_where (λ (p : ParentAuthority). p.parent_id == parent_id) f db.parents;
}

-- A change of one agent's row.
unfoldable pub modify_agent : String → (Agent → Agent) → Exec Unit
modify_agent agent_id f =
    modify
      λ db. record db { agents = update_where (λ (a : Agent). a.agent_id == agent_id) f db.agents }

abbrev pub find_delegation : String → Db → Option DelegationRecord
find_delegation delegation_id db =
    first (λ (d : DelegationRecord). d.delegation_id == delegation_id) db.delegations

-- The texts `f"delegation:{…}"`, `f"parent:{…}"` and the like.
abbrev pub labelled : String → String → String
labelled = text_append

-- `AdminApprovedTrustProvider.verify` of app/trust.py: the reason where it is refused
abbrev pub trust_refusal : ParentAuthority → Option String
trust_refusal p = if is_active_parent p.status then none else some "parent is not active"

-- CREDENTIAL_TTL
abbrev pub credential_ttl : ℕ
credential_ttl = 7776000

abbrev pub earlier : ℕ → ℕ → ℕ
earlier a b = if ltb b a then b else a
