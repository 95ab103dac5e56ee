-- ===== src/Mandates/Routes/Steps.antt =====
-- What the mandate routes of app/routers/v1.py and the sweepers may do to the tables of mandates and
-- of provider bindings, as a step relation, and that each of them takes such a step.
use paari_payments_protocol.Prelude.{
  Bool-cases, Option-cases, inl, inr, ltb, leb, ◌==◌, number_eq, text_eq, eq_iff, first_holds,
  is_some, update_where, ℕ, String, true, false, not, ◌&&◌, ◌||◌, none, some, List, [], ◌∷◌, ◌++◌,
  ◌≡◌, refl, sym, subst, arith,
}
use paari_payments_protocol.Models.{UserPaymentMandate, Agent}
use paari_payments_protocol.Models.Rows.{Db}
use paari_payments_protocol.Host.{Host, MandatePayload}
use paari_payments_protocol.Audit
use paari_payments_protocol.Exec.{Exec, ◌>>=◌, gets, modify, commit, pure, audit, Call, Session}
use paari_payments_protocol.Exec.Runs.{
  Runs, opened, Runs-gets, Runs-require, Runs-raise_if, Runs-bind, Runs-last, Runs-last_if,
  Runs-weaken,
}
use paari_payments_protocol.Payments.Authenticate.{find_agent}
use paari_payments_protocol.Registry.{AdminConfig, require_admin_org, is_admin_key}
use paari_payments_protocol.Mandates.View.{MandateView, mandate_view}
use paari_payments_protocol.Mandates.Routes.{
  store_mandate, write_mandate, create_user_payment_mandate, revoke_user_payment_mandate,
  write_revocation, write_binding, bind_provider_mandate,
}
use paari_payments_protocol.Mandates.Signature.{present, mandate_payload, verify_payload}
use paari_payments_protocol.Mandates.Signature.Valid.{verify_payload-none}
use paari_payments_protocol.Mandates.Consent.{
  find_mandate, CreatePaymentMandateRequest, BindProviderMandateRequest, new_mandate, new_binding,
  time_or, signature_rejected, is_signed_request, end_mandate,
}
use paari_payments_protocol.Mandates.Routes.Terms.{
  IsSigned, unsigned, signed_by, IsAdministrator, IsRequested, IsBounded, Step, none_found,
  IsConsented, bound,
}

module _ (h : Host) (admin : AdminConfig) (key : String) (now : ℕ) (db : Db)
    (calls : List Call) where
  abbrev pub Unchanged : Session → Type 0
  Unchanged t = (t.saved ≡ db) × (t.calls ≡ calls)

  admin_check :
      {A : Type 0} (Q : A → Session → Type 0) (org : String) (f : Unit → Exec A)
      → Runs (opened db calls) Q Unchanged (f tt)
      → Runs (opened db calls) Q Unchanged (require_admin_org admin key org >>= f)
  unfolding require_admin_org
  admin_check Q org f k =
      Runs-bind _ _ _ (λ u t. t ≡ opened db calls) _ _
        (Runs-raise_if _ _ _ _ _ _ (refl, refl) (λ e. Runs-last _ _ _ _ _ (refl, refl) refl))
        (λ u t same. rw same k)

  -- The guard of an administrator, and what it has found.
  authorized_by :
      {A : Type 0} (Q : A → Session → Type 0) (org : String) (f : Unit → Exec A)
      → (IsAdministrator admin key org → Runs (opened db calls) Q Unchanged (f tt))
      → Runs (opened db calls) Q Unchanged (require_admin_org admin key org >>= f)
  unfolding require_admin_org is_admin_key
  authorized_by Q org f k =
      Runs-bind _ _ _ (λ u t. IsAdministrator admin key org × (t ≡ opened db calls)) _ _
        (Runs-raise_if _ _ _ _ _ _ (refl, refl)
          (λ e.
            Runs-last_if _ _ _ _ _ (refl, refl)
              λ o. (
                record {
                  given = ground (arith, e);
                  key_matches = ground (arith, e, eq_iff key admin.api_key);
                  in_charge =
                      ground (arith, o, eq_iff admin.admin_org "", eq_iff admin.admin_org org);
                },
                refl,
              )))
        (λ u t found. rw (found.1) (k (found.0)))

  -- What the write of a new mandate leaves.
  record Stored (m : UserPaymentMandate) (v : MandateView) (t : Session) : Type 0 where
    row : v.mandate ≡ m
    stored : t.saved.mandates ≡ db.mandates ++ m ∷ []
    others : (t.saved.bindings ≡ db.bindings) × (t.saved.intents ≡ db.intents)
    unused : find_mandate m.mandate_id db ≡ none
    untouched : t.calls ≡ calls

  write_mandate-Runs :
      (agent : Agent) (m : UserPaymentMandate)
      → find_mandate m.mandate_id db ≡ none
      → Runs (opened db calls) (Stored m) Unchanged (write_mandate h admin key now agent m)
  unfolding write_mandate mandate_view gets audit modify commit ◌>>=◌ Audit.record_audit
  write_mandate-Runs agent m free = record {
    holds = record {
      row = refl;
      stored = refl;
      others = (refl, refl);
      unused = free;
      untouched = refl;
    };
  }

  store_mandate-Runs :
      (agent : Agent) (m : UserPaymentMandate)
      → Runs (opened db calls) (Stored m) Unchanged (store_mandate h admin key now agent m)
  unfolding store_mandate
  store_mandate-Runs agent m = Runs-gets _ _ _ _ _ (
      Runs-raise_if _ _ _ _ _ _ (refl, refl) λ free. write_mandate-Runs agent m (none_found _ free))

  new_mandate-IsBounded :
      (drawn : String) (agent : Agent) (req : CreatePaymentMandateRequest)
      → leb req.expires_at (time_or req.valid_from now) ≡ false
      → (req.max_per_transaction == 0 || req.max_daily_amount == 0) ≡ false
      → ltb req.max_daily_amount req.max_per_transaction ≡ false
      → IsBounded (new_mandate h now drawn agent req)
  unfolding new_mandate
  new_mandate-IsBounded drawn agent req window positive ordered = record {
    positive = ground (arith, positive);
    ordered = ground (arith, ordered);
    window = ground (arith, window);
  }

  new_mandate-IsSigned :
      (drawn : String) (agent : Agent) (req : CreatePaymentMandateRequest)
      → (is_signed_request req && signature_rejected h req (new_mandate h now drawn agent req))
        ≡ false
      → IsSigned h req (new_mandate h now drawn agent req)
  unfolding new_mandate
  new_mandate-IsSigned drawn agent req accepted = elim (Bool-cases (is_signed_request req)) [
    | inl asked ↦
        let m = new_mandate h now drawn agent req in
        let draft : MandatePayload = record (mandate_payload m) { mandate_id = req.mandate_id } in
        let e : verify_payload h draft m ≡ none =
          ground (arith, asked, accepted, Option-cases (verify_payload h draft m)) in
        let (signature, signer, s, k, v) = verify_payload-none h draft m e in
        signed_by signer signature (ground (arith, asked, s)) (ground (arith, asked, k)) v
    | inr not_asked ↦
        unsigned (ground (arith, not_asked, Option-cases (present req.mandate_signature_b64)))
          (ground (arith, not_asked, Option-cases (present req.user_public_key_pem)))
  ]

  consented :
      (drawn : String) (agent : Agent) (req : CreatePaymentMandateRequest) (v : MandateView)
      (t : Session)
      → find_agent req.agent_id db ≡ some agent
      → IsBounded (new_mandate h now drawn agent req)
      → not (h.upper req.currency == h.upper agent.currency) ≡ false
      → (is_signed_request req && signature_rejected h req (new_mandate h now drawn agent req))
        ≡ false
      → IsAdministrator admin key agent.org_id
      → Stored (new_mandate h now drawn agent req) v t
      → IsConsented h admin key now drawn req db v t.saved × (t.calls ≡ calls)
  unfolding new_mandate
  consented drawn agent req v t a b c s o k = (
    record {
      agent = agent;
      consent = o;
      requested = subst (IsRequested h now agent req) (sym k.row) (record {
        holder = (refl, refl, refl);
        amounts = (refl, refl, refl, refl, refl, refl);
        lists = (refl, refl);
        currency = ground (arith, c, eq_iff (h.upper req.currency) (h.upper agent.currency));
        in_force = (refl, refl);
      });
      owner = a;
      row = k.row;
      stored = k.stored;
      others = k.others;
      unused = k.unused;
      limits = b;
      currency = ground (arith, c, eq_iff (h.upper req.currency) (h.upper agent.currency));
      valid = subst (IsSigned h req) (sym k.row) (new_mandate-IsSigned drawn agent req s);
      signature = s;
    },
    k.untouched,
  )

  pub create_user_payment_mandate-IsConsented :
      (drawn : String) (req : CreatePaymentMandateRequest)
      → Runs
          (opened db calls)
          (λ v t. IsConsented h admin key now drawn req db v t.saved × (t.calls ≡ calls))
          Unchanged
          (create_user_payment_mandate h admin key now drawn req)
  unfolding create_user_payment_mandate
  create_user_payment_mandate-IsConsented drawn req = Runs-gets _ _ _ _ _ (
      Runs-require _ _ _ _ _ _ (refl, refl)
        λ agent a. authorized_by _ agent.org_id _ λ office.
          (Runs-raise_if _ _ _ _ _ _ (refl, refl)
            λ window.
              Runs-raise_if _ _ _ _ _ _ (refl, refl)
                λ positive.
                  Runs-raise_if _ _ _ _ _ _ (refl, refl)
                    λ ordered.
                      Runs-raise_if _ _ _ _ _ _ (refl, refl)
                        λ hourly.
                          Runs-raise_if _ _ _ _ _ _ (refl, refl)
                            λ merchant.
                              Runs-raise_if _ _ _ _ _ _ (refl, refl)
                                λ category.
                                  Runs-raise_if _ _ _ _ _ _ (refl, refl)
                                    λ currency.
                                      Runs-raise_if _ _ _ _ _ _ (refl, refl)
                                        λ whole.
                                          Runs-raise_if _ _ _ _ _ _ (refl, refl)
                                            λ signature.
                                              Runs-weaken _ _ _ _ _
                                                (λ v t k.
                                                  consented drawn agent req v t a
                                                    (new_mandate-IsBounded drawn agent req window
                                                      positive ordered)
                                                    currency signature office k)
                                                (store_mandate-Runs agent
                                                  (new_mandate h now drawn agent req))))

  write_binding-Runs :
      (drawn id : String) (m : UserPaymentMandate) (req : BindProviderMandateRequest)
      → find_mandate id db ≡ some m
      → ltb m.max_per_transaction req.max_amount_minor_units ≡ false
      → Runs
          (opened db calls)
          (λ b t. Step db t.saved)
          Unchanged
          (write_binding h admin key now drawn m req)
  unfolding write_binding new_binding pure audit modify commit ◌>>=◌ Audit.record_audit
  write_binding-Runs drawn id m req e within =
      let same : m.mandate_id ≡ id = ground (
        arith,
        eq_iff m.mandate_id id,
        first_holds (λ (n : UserPaymentMandate). n.mandate_id == id) db.mandates m,
      ) in
      record {
        holds =
            bound m (new_binding h drawn m req)
              (subst (λ i. find_mandate i db ≡ some m) (sym same) e) (ground (arith, within)) refl
              refl refl;
      }

  write_revocation-Runs :
      (id reason : String) (m : UserPaymentMandate)
      → find_mandate id db ≡ some m
      → Runs
          (opened db calls)
          (λ v t.
            (t.saved.mandates
              ≡ update_where
                  (λ (n : UserPaymentMandate). n.mandate_id == id)
                  (end_mandate now)
                  db.mandates)
            × (t.saved.bindings ≡ db.bindings)
            × (is_some (find_mandate id db) ≡ true))
          Unchanged
          (write_revocation h admin key now id reason m)
  unfolding write_revocation mandate_view gets audit modify commit ◌>>=◌ Audit.record_audit
  write_revocation-Runs id reason m e = record { holds = (refl, refl, rw e refl) }

  -- A revocation ends the mandate, and no other.
  pub revoke_user_payment_mandate-Runs :
      (id reason : String)
      → Runs
          (opened db calls)
          (λ v t.
            (t.saved.mandates
              ≡ update_where
                  (λ (n : UserPaymentMandate). n.mandate_id == id)
                  (end_mandate now)
                  db.mandates)
            × (t.saved.bindings ≡ db.bindings)
            × (is_some (find_mandate id db) ≡ true))
          Unchanged
          (revoke_user_payment_mandate h admin key now id reason)
  unfolding revoke_user_payment_mandate
  revoke_user_payment_mandate-Runs id reason = Runs-gets _ _ _ _ _ (
      Runs-require _ _ _ _ _ _ (refl, refl)
        λ m e. admin_check _ m.org_id _ (write_revocation-Runs id reason m e))

  pub bind_provider_mandate-Runs :
      (drawn id : String) (req : BindProviderMandateRequest)
      → Runs
          (opened db calls)
          (λ b t. Step db t.saved)
          Unchanged
          (bind_provider_mandate h admin key now drawn id req)
  unfolding bind_provider_mandate
  bind_provider_mandate-Runs drawn id req = Runs-gets _ _ _ _ _ (
      Runs-require _ _ _ _ _ _ (refl, refl)
        λ m e. admin_check _ m.org_id _ (
          Runs-raise_if _ _ _ _ _ _ (refl, refl)
            λ a.
              Runs-raise_if _ _ _ _ _ _ (refl, refl)
                λ w.
                  Runs-raise_if _ _ _ _ _ _ (refl, refl)
                    λ c.
                      Runs-raise_if _ _ _ _ _ _ (refl, refl)
                        λ within. Runs-gets _ _ _ _ _ (
                          Runs-raise_if _ _ _ _ _ _ (refl, refl)
                            λ fresh. write_binding-Runs drawn id m req e within)))
