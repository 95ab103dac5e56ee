-- ===== src/Registry/Lifecycle.antt =====
-- app/routers/parents.py: a revoked parent, which `approve_parent` refuses to approve.
use paari_payments_protocol.Prelude.{
  ◌∙◌, ◌==◌, number_eq, text_eq, first, update_where, first_holds, first-update_where, String, ◌≡◌,
  refl, ap, true, Option, none, some, List, false,
}
use paari_payments_protocol.Models.{ParentAuthority, ParentStatus}
use paari_payments_protocol.Models.Rows.{Db}
use paari_payments_protocol.Exec.{◌>>=◌, ◌>>◌, modify, commit, pure, raise, Call, Session, ok}
use paari_payments_protocol.Exec.Runs.{
  opened, Runs, Runs-gets, Runs-returns, Runs-raise_if, Runs-weaken, require-returns,
  raise_if-returns,
}
use paari_payments_protocol.Registry.{
  AdminConfig, is_admin_key, require_admin_org, find_parent, modify_parent,
}
use paari_payments_protocol.Registry.Parents.{
  approve_parent, reject_parent, ParentAnswer, is_revoked,
}
use paari_payments_protocol.Registry.Delegation.{Untouched}

module _ (admin : AdminConfig) (key : String) where
  require_admin_org-returns :
      (org : String) (s : Session)
      → is_admin_key admin key ≡ true
      → admin.admin_org ≡ ""
      → require_admin_org admin key org s ≡ (ok tt, s)
  unfolding require_admin_org ◌>>=◌ raise pure
  require_admin_org-returns org s k o = rw (k, o) refl

module _ (id : String) where
  find_parent-update :
      (f : ParentAuthority → ParentAuthority) (p : ParentAuthority) (ps : List ParentAuthority)
      → ((a : ParentAuthority) → (f a).parent_id ≡ a.parent_id)
      → first (λ (a : ParentAuthority). a.parent_id == id) ps ≡ some p
      → first
          (λ (a : ParentAuthority). a.parent_id == id)
          (update_where (λ (a : ParentAuthority). a.parent_id == id) f ps)
        ≡ some (f p)
  find_parent-update f p ps same e =
      let is_it = λ (a : ParentAuthority). a.parent_id == id in
      rw (first-update_where is_it is_it f ps (λ a. ap (λ (t : String). t == id) (same a)))
        (rw e (rw (first_holds is_it ps p e) refl))

-- What a change of one parent leaves.
abbrev with_parent : String → (ParentAuthority → ParentAuthority) → Db → Db
with_parent id f db = record db {
  parents = update_where (λ (a : ParentAuthority). a.parent_id == id) f db.parents;
}

abbrev reject_row : ParentAuthority → ParentAuthority
reject_row p = record p { status = ParentStatus.rejected }

abbrev approve_row : ParentAuthority → ParentAuthority
approve_row p = record p { status = ParentStatus.active; trust_tier = "admin_approved" }

-- The writes that an approval and a rejection end with.
writes-Runs :
    (id : String) (f : ParentAuthority → ParentAuthority) (a : ParentAnswer) (db : Db)
    (calls : List Call)
    → Runs
        (opened db calls)
        (λ b t. (b ≡ a) × (t.saved ≡ with_parent id f db) × (t.calls ≡ calls))
        (λ t. ⊥)
        (modify_parent id f >> (commit >> pure a))
unfolding modify_parent ◌>>=◌ modify commit pure
writes-Runs id f a db calls = record { holds = (refl, refl, refl) }

module _ (admin : AdminConfig) (key id : String) (p : ParentAuthority) (db : Db) (calls : List Call)
    (k : is_admin_key admin key ≡ true) (o : admin.admin_org ≡ "")
    (e : find_parent id db ≡ some p) where
  reject_parent-Runs :
      Runs
        (opened db calls)
        (λ a t.
          (a ≡ record {
            parent_id = p.parent_id;
            status = ParentStatus.rejected;
            trust_tier = p.trust_tier;
          })
          × (t.saved ≡ with_parent id reject_row db)
          × (t.calls ≡ calls))
        (λ t. ⊥)
        (reject_parent admin key id)
  unfolding reject_parent
  reject_parent-Runs = Runs-gets _ _ _ _ _ (
      Runs-returns _ _ _ p _ _ (require-returns _ _ p _ e) (
        Runs-returns _ _ _ tt _ _ (require_admin_org-returns admin key p.org_id _ k o)
          (writes-Runs id reject_row _ db calls)))

  approve_parent-Runs :
      is_revoked p.status ≡ false
      → Runs
          (opened db calls)
          (λ a t.
            (a ≡ record {
              parent_id = p.parent_id;
              status = ParentStatus.active;
              trust_tier = "admin_approved";
            })
            × (t.saved ≡ with_parent id approve_row db)
            × (t.calls ≡ calls))
          (λ t. ⊥)
          (approve_parent admin key id)
  unfolding approve_parent
  approve_parent-Runs r = Runs-gets _ _ _ _ _ (
      Runs-returns _ _ _ p _ _ (require-returns _ _ p _ e) (
        Runs-returns _ _ _ tt _ _ (require_admin_org-returns admin key p.org_id _ k o) (
          Runs-returns _ _ _ tt _ _ (raise_if-returns _ _ _ r)
            (writes-Runs id approve_row _ db calls))))

  approve_parent-refuses :
      is_revoked p.status ≡ true
      → Runs (opened db calls) (λ a t. ⊥) (Untouched db calls) (approve_parent admin key id)
  unfolding approve_parent
  approve_parent-refuses r = Runs-gets _ _ _ _ _ (
      Runs-returns _ _ _ p _ _ (require-returns _ _ p _ e) (
        Runs-returns _ _ _ tt _ _ (require_admin_org-returns admin key p.org_id _ k o)
          (Runs-raise_if _ _ _ _ _ _ (refl, refl) (λ f. cc))))

abbrev pub status_in : Option ParentAuthority → Option ParentStatus
status_in none = none
status_in (some p) = some p.status

-- The state of a parent in a database.
abbrev pub status_of : String → Db → Option ParentStatus
status_of id db = status_in (find_parent id db)

-- Revocation of a parent is not final: with the key of an administrator who is bound to no
-- organization, approving a revoked parent is refused and leaves the database as it was, but
-- rejecting it succeeds, and after that approving it succeeds, answers ACTIVE, and leaves the parent
-- ACTIVE in the database.
pub revoked_parent_returns :
    (admin : AdminConfig) (key id : String) (p : ParentAuthority) (db : Db) (calls : List Call)
    → is_admin_key admin key ≡ true
    → admin.admin_org ≡ ""
    → find_parent id db ≡ some p
    → p.status ≡ ParentStatus.revoked
    → Runs (opened db calls) (λ a t. ⊥) (Untouched db calls) (approve_parent admin key id)
      × Runs
          (opened db calls)
          (λ a t.
            Runs
              (opened t.saved t.calls)
              (λ b u.
                (b.status ≡ ParentStatus.active)
                × (status_of id u.saved ≡ some ParentStatus.active))
              (λ u. ⊥)
              (approve_parent admin key id))
          (λ t. ⊥)
          (reject_parent admin key id)
revoked_parent_returns admin key id p db calls k o e r =
    let now_rejected = find_parent-update id reject_row p db.parents (λ a. refl) e in
    let now_active =
      find_parent-update id approve_row (reject_row p) (with_parent id reject_row db).parents
        (λ a. refl) now_rejected in
    (
      approve_parent-refuses admin key id p db calls k o e (ap is_revoked r),
      Runs-weaken _ _ _ _ _
          (λ a t (shown, saved, same).
            rw (saved, same)
              (Runs-weaken _ _ _ _ _
                (λ b u (active, after, kept). (
                  ap (λ (c : ParentAnswer). c.status) active,
                  ap (status_of id) after ∙ ap status_in now_active,
                ))
                (approve_parent-Runs admin key id (reject_row p) (with_parent id reject_row db)
                  calls k o now_rejected refl)))
          (reject_parent-Runs admin key id p db calls k o e),
    )
