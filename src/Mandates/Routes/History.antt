-- ===== src/Mandates/Routes/History.antt =====
-- Histories of the mandate routes of app/routers/v1.py and of the sweepers, and that each request takes
-- a step.
use paari_payments_protocol.Prelude.{number_eq, text_eq, ℕ, String, List, [], ◌∷◌, refl}
use paari_payments_protocol.Models.{UserPaymentMandate}
use paari_payments_protocol.Models.Rows.{Db}
use paari_payments_protocol.Host.{Host}
use paari_payments_protocol.Exec.{Result, ok, err, serve, Session}
use paari_payments_protocol.Exec.Runs.{opened, Ending}
use paari_payments_protocol.Registry.{AdminConfig}
use paari_payments_protocol.Mandates.Sweep.{run_sweepers, is_elapsed, expire}
use paari_payments_protocol.Mandates.Sweep.Release.{run_sweepers-mandates, run_sweepers-bindings}
use paari_payments_protocol.Mandates.Routes.{
  create_user_payment_mandate, revoke_user_payment_mandate, bind_provider_mandate,
}
use paari_payments_protocol.Mandates.Consent.{
  CreatePaymentMandateRequest, BindProviderMandateRequest, end_mandate,
}
use paari_payments_protocol.Mandates.Routes.Steps.{
  create_user_payment_mandate-IsConsented, revoke_user_payment_mandate-Runs,
  bind_provider_mandate-Runs, Unchanged,
}
use paari_payments_protocol.Mandates.Routes.Terms.{Step, same, made, ended, SameTerms}

-- The requests, with the administrator's key, the time, and the identifier that is drawn.
pub data MandateEvent : Type 0 where
  create : String → ℕ → String → CreatePaymentMandateRequest → MandateEvent
  revoke : String → ℕ → String → String → MandateEvent
  bind : String → ℕ → String → String → BindProviderMandateRequest → MandateEvent
  sweep : ℕ → MandateEvent

module _ (h : Host) (admin : AdminConfig) where
  -- The committed database after one request.
  unfoldable pub after_event : MandateEvent → Db → Db
  after_event (create key now drawn req) db =
      let (r, db', calls) = serve (create_user_payment_mandate h admin key now drawn req) db [] in
      db'
  after_event (revoke key now id reason) db =
      let (r, db', calls) = serve (revoke_user_payment_mandate h admin key now id reason) db [] in
      db'
  after_event (bind key now drawn id req) db =
      let (r, db', calls) = serve (bind_provider_mandate h admin key now drawn id req) db [] in db'
  after_event (sweep now) db = (run_sweepers h now db).2

  unfoldable pub mandate_history : List MandateEvent → Db → Db
  unfolding after_event
  mandate_history [] db = db
  mandate_history (e ∷ es) db = mandate_history es (after_event e db)

  ended_by :
      {A : Type 0} (Q : A → Session → Type 0) (db : Db) (r : Result A) (t : Session)
      → ((a : A) (u : Session) → Q a u → Step db u.saved)
      → Ending Q (Unchanged h admin "" 0 db []) r t
      → Step db t.saved
  ended_by Q db (ok a) t f q = f a t q
  ended_by Q db (err e) t f q = rw (q.0) (same refl refl)

  pub after_event-Step : (e : MandateEvent) (db : Db) → Step db (after_event e db)
  unfolding after_event serve
  after_event-Step (create key now drawn req) db =
      ended_by _ db (create_user_payment_mandate h admin key now drawn req (opened db [])).0
        (create_user_payment_mandate h admin key now drawn req (opened db [])).1
        (λ v t k. made _ k.0.unused k.0.limits k.0.stored k.0.others.0)
        (create_user_payment_mandate-IsConsented h admin key now db [] drawn req).holds
  after_event-Step (revoke key now id reason) db =
      ended_by _ db (revoke_user_payment_mandate h admin key now id reason (opened db [])).0
        (revoke_user_payment_mandate h admin key now id reason (opened db [])).1
        (λ v t k. ended _ (end_mandate now) (λ m. (same_terms m, refl)) k.0 k.1)
        (revoke_user_payment_mandate-Runs h admin key now db [] id reason).holds
    where
      same_terms : (m : UserPaymentMandate) → SameTerms m (end_mandate now m)
      same_terms m = record {
        mandate_id = refl;
        org_id = refl;
        max_per_transaction = refl;
        max_daily_amount = refl;
        valid_from = refl;
        expires_at = refl;
      }
  after_event-Step (bind key now drawn id req) db =
      ended_by _ db (bind_provider_mandate h admin key now drawn id req (opened db [])).0
        (bind_provider_mandate h admin key now drawn id req (opened db [])).1 (λ b t k. k)
        (bind_provider_mandate-Runs h admin key now db [] drawn id req).holds
  after_event-Step (sweep now) db =
      ended (is_elapsed now) expire (λ m. (same_terms m, refl)) (run_sweepers-mandates h now db)
        (run_sweepers-bindings h now db)
    where
      same_terms : (m : UserPaymentMandate) → SameTerms m (expire m)
      same_terms m = record {
        mandate_id = refl;
        org_id = refl;
        max_per_transaction = refl;
        max_daily_amount = refl;
        valid_from = refl;
        expires_at = refl;
      }
