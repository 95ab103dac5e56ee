-- ===== src/Mandates/Routes/Final.antt =====
-- `revoke_user_payment_mandate` of app/routers/v1.py: a revoked mandate stays ended.
use paari_payments_protocol.Prelude.{
  ◌==◌, number_eq, text_eq, eq_iff, first, any, is_some, select, update_where, any-append,
  any-sorted, first-append, ℕ, String, Bool, true, false, ◌&&◌, Option, none, some, List, [], ◌∷◌,
  ◌++◌, ◌≡◌, refl, ap, subst, ◌∙◌, arith, Bool-cases, inl, inr,
}
use paari_payments_protocol.Models.{UserPaymentMandate, is_active_mandate}
use paari_payments_protocol.Models.Rows.{Db}
use paari_payments_protocol.Host.{Host}
use paari_payments_protocol.Exec.{Result, ok, err, Session}
use paari_payments_protocol.Exec.Runs.{Runs, opened, Ending}
use paari_payments_protocol.Registry.{AdminConfig}
use paari_payments_protocol.Mandates.{active_mandates, scope_query, is_live, in_scope, tighter}
use paari_payments_protocol.Mandates.View.{MandateView}
use paari_payments_protocol.Mandates.Routes.{revoke_user_payment_mandate}
use paari_payments_protocol.Mandates.Consent.{find_mandate, end_mandate}
use paari_payments_protocol.Mandates.Routes.Steps.{revoke_user_payment_mandate-Runs, Unchanged}
use paari_payments_protocol.Mandates.Routes.Terms.{Step, same, made, ended, bound, SameTerms}
use paari_payments_protocol.Mandates.Routes.History.{
  MandateEvent, mandate_history, after_event, after_event-Step,
}

module _ (id : String) where
  abbrev has_id : UserPaymentMandate → Bool
  has_id m = m.mandate_id == id

  abbrev is_open : UserPaymentMandate → Bool
  is_open m = m.mandate_id == id && is_active_mandate m.status

  -- The identifier is taken, and only by mandates that are not active.
  record IsOver (db : Db) : Type 0 where
    taken : is_some (find_mandate id db) ≡ true
    closed : any is_open db.mandates ≡ false

  any-ended :
      (p : UserPaymentMandate → Bool) (f : UserPaymentMandate → UserPaymentMandate)
      (ms : List UserPaymentMandate)
      → ((m : UserPaymentMandate) → SameTerms m (f m) × (is_active_mandate (f m).status ≡ false))
      → any is_open ms ≡ false
      → any is_open (update_where p f ms) ≡ false
  any-ended p f [] k e = refl
  any-ended p f (m ∷ ms) k e = ground (arith, (k m).1, any-ended p f ms k)

  first-ended :
      (p : UserPaymentMandate → Bool) (f : UserPaymentMandate → UserPaymentMandate)
      (ms : List UserPaymentMandate)
      → ((m : UserPaymentMandate) → SameTerms m (f m) × (is_active_mandate (f m).status ≡ false))
      → is_some (first has_id ms) ≡ true
      → is_some (first has_id (update_where p f ms)) ≡ true
  first-ended p f [] k e = e
  first-ended p f (m ∷ ms) k e =
      ground (arith, ap has_id_of (k m).0.mandate_id, first-ended p f ms k)
    where
      has_id_of : String → Bool
      has_id_of i = i == id

  revoked-closed :
      (now : ℕ) (ms : List UserPaymentMandate)
      → any is_open
          (update_where (λ (n : UserPaymentMandate). n.mandate_id == id) (end_mandate now) ms)
        ≡ false
  revoked-closed now [] = refl
  revoked-closed now (m ∷ ms) = ground (arith, revoked-closed now ms)

  first-revoked :
      (now : ℕ) (ms : List UserPaymentMandate)
      → is_some (first has_id ms) ≡ true
      → is_some (
          first has_id
            (update_where (λ (n : UserPaymentMandate). n.mandate_id == id) (end_mandate now) ms))
        ≡ true
  first-revoked now [] e = e
  first-revoked now (m ∷ ms) e = ground (arith, first-revoked now ms)

  Step-IsOver : (db after : Db) → Step db after → IsOver db → IsOver after
  Step-IsOver db after (same ms bs) o = record { taken = rw ms o.taken; closed = rw ms o.closed }
  Step-IsOver db after (made m u l ms bs) o = record {
    taken = rw ms (kept (first has_id db.mandates) refl);
    closed = rw ms (any-append is_open db.mandates (m ∷ []) ∙ ground (arith, o.closed, other));
  }
    where
      kept :
          (x : Option UserPaymentMandate)
          → first has_id db.mandates ≡ x
          → is_some (first has_id (db.mandates ++ m ∷ [])) ≡ true
      kept none e = ground (arith, e, o.taken)
      kept (some n) e = rw (first-append has_id db.mandates (m ∷ []) n e) refl

      other : (m.mandate_id == id) ≡ false
      other = elim (Bool-cases (m.mandate_id == id)) [
        | inl e ↦
            let i : m.mandate_id ≡ id = ground (arith, e, eq_iff m.mandate_id id) in
            ground (arith, subst (λ j. find_mandate j db ≡ none) i u, o.taken)
        | inr e ↦ e
      ]
  Step-IsOver db after (ended p f k ms bs) o = record {
    taken = rw ms (first-ended p f db.mandates k o.taken);
    closed = rw ms (any-ended p f db.mandates k o.closed);
  }
  Step-IsOver db after (bound m b n w q ms bs) o = record {
    taken = rw ms o.taken;
    closed = rw ms o.closed;
  }

  history-IsOver :
      (h : Host) (admin : AdminConfig) (es : List MandateEvent) (db : Db)
      → IsOver db
      → IsOver (mandate_history h admin es db)
  unfolding mandate_history
  history-IsOver h admin [] db o = o
  history-IsOver h admin (e ∷ es) db o =
      history-IsOver h admin es (after_event h admin e db)
        (Step-IsOver db (after_event h admin e db) (after_event-Step h admin e db) o)

  any-live :
      (db : Db) (a org : String) (t : ℕ) (ms : List UserPaymentMandate)
      → any is_open ms ≡ false
      → any has_id (select (is_live t) (select (in_scope db a org) ms)) ≡ false
  any-live db a org t [] e = refl
  any-live db a org t (m ∷ ms) e = ground (arith, any-live db a org t ms)

  not_live :
      (db : Db) (a org : String) (t : ℕ)
      → IsOver db
      → any has_id (active_mandates db a org t) ≡ false
  unfolding active_mandates scope_query
  not_live db a org t o =
      any-sorted has_id tighter (select (is_live t) (select (in_scope db a org) db.mandates))
      ∙ any-live db a org t db.mandates o.closed

-- A revocation is final: when a revocation of a mandate returns, after any history of mandate routes
-- and sweeps, no mandate with its identifier is among the active ones, for any agent, organization
-- and time; a revocation that is refused leaves the database as it was.
pub revocation_is_final :
    (h : Host) (admin : AdminConfig) (key id reason : String) (now : ℕ) (es : List MandateEvent)
    (agent_id org_id : String) (later : ℕ) (db : Db)
    → Runs
        (opened db [])
        (λ v t.
          any
            (λ (m : UserPaymentMandate). m.mandate_id == id)
            (active_mandates (mandate_history h admin es t.saved) agent_id org_id later)
          ≡ false)
        (λ t. t.saved ≡ db)
        (revoke_user_payment_mandate h admin key now id reason)
revocation_is_final h admin key id reason now es agent_id org_id later db = record {
  holds =
      go (revoke_user_payment_mandate h admin key now id reason (opened db [])).0
        (revoke_user_payment_mandate h admin key now id reason (opened db [])).1
        (revoke_user_payment_mandate-Runs h admin key now db [] id reason).holds;
}
  where
    go :
        (r : Result MandateView) (t : Session)
        → Ending
            (λ v u.
              (u.saved.mandates
                ≡ update_where
                    (λ (n : UserPaymentMandate). n.mandate_id == id)
                    (end_mandate now)
                    db.mandates)
              × (u.saved.bindings ≡ db.bindings)
              × (is_some (find_mandate id db) ≡ true))
            (Unchanged h admin key now db [])
            r
            t
        → Ending
            (λ v u.
              any
                (λ (m : UserPaymentMandate). m.mandate_id == id)
                (active_mandates (mandate_history h admin es u.saved) agent_id org_id later)
              ≡ false)
            (λ u. u.saved ≡ db)
            r
            t
    go (err e) t k = k.0
    go (ok v) t k = not_live id (mandate_history h admin es t.saved) agent_id org_id later (
        history-IsOver id h admin es t.saved (record {
          taken = rw (k.0) (first-revoked id now db.mandates k.2);
          closed = rw (k.0) (revoked-closed id now db.mandates);
        }))
