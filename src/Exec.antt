-- ===== src/Exec.antt =====
-- One request: a database session with its transaction, the calls that have reached a provider, and
-- exceptions. `get_db` closes the session, so that what was not committed is lost.
pub mod Keeps
pub mod Runs
use paari_payments_protocol.Prelude.{
  number_eq, text_eq, any, ℕ, String, Bool, true, false, not, Option, none, some, List, [], ◌∷◌,
  ◌++◌,
}
use paari_payments_protocol.Models.Rows.{Db, Message}
use paari_payments_protocol.Host.{Host}
use paari_payments_protocol.Audit

-- The calls that ask a provider to create, authorize, capture or give back a payment.
pub data Call : Type 0 where
  -- create_payment: authorization_id, amount, currency
  create_payment : String → ℕ → String → Call
  -- authorize_payment: authorization_id, provider_mandate_ref, amount, currency, merchant
  authorize_payment : String → String → ℕ → String → String → Call
  -- capture_payment: provider_payment_ref, amount, currency
  capture_payment : String → ℕ → String → Call
  -- refund: payment id, amount
  refund_payment : String → ℕ → Call

pub data ErrorCode : Type 0 where
  session_invalid proof_replayed parent_revoked agent_revoked webhook_org_mismatch : ErrorCode
  unsupported_protocol_version envelope_signature_invalid delegation_expired : ErrorCode
  capability_not_delegated limit_exceeded : ErrorCode

-- HTTPException, PaariHTTPException, httpx.TimeoutException, RazorpayConfigError,
-- AgenticProviderUnavailable, and any other exception.
pub data Exn : Type 0 where
  http : ℕ → Message → Exn
  paari : ℕ → ErrorCode → String → Exn
  timeout not_configured other : String → Exn
  agentic_unavailable : Exn

-- str(exc)
abbrev pub exn_text : Exn → String
exn_text (http status detail) = detail.text
exn_text (paari status code detail) = detail
exn_text (timeout e) = e
exn_text (not_configured e) = e
exn_text (other e) = e
exn_text agentic_unavailable = ""

pub data Result (A : Type 0) : Type 0 where
  ok : A → Result A
  err : Exn → Result A

-- `work` is what the session reads, `saved` what was last committed.
pub record Session : Type 0 where
  pub work : Db
  pub saved : Db
  pub calls : List Call

abbrev pub Exec : Type 0 → Type 0
Exec A = Session → Result A × Session

module _ {A : Type 0} where
  unfoldable pub pure : A → Exec A
  pure a s = (ok a, s)

  unfoldable pub raise : Exn → Exec A
  raise e s = (err e, s)

  unfoldable pub gets : (Db → A) → Exec A
  gets f s = (ok (f s.work), s)

module _ {A B : Type 0} where
  abbrev pub continue : Result A → (A → Exec B) → Exec B
  continue (ok a) f s = f a s
  continue (err e) f s = (err e, s)

  infixl 5 ◌>>=◌ ◌>>◌
  unfoldable pub ◌>>=◌ : Exec A → (A → Exec B) → Exec B
  unfolding pure raise gets
  ◌>>=◌ m f s = let (result, after) = m s in continue result f after

  abbrev pub ◌>>◌ : Exec A → Exec B → Exec B
  m >> n = m >>= λ _. n

-- A change to the rows of the session, `db.add` and `db.flush` included.
unfoldable pub modify : (Db → Db) → Exec (Unit {0})
modify f s = (ok tt, record s { work = f s.work })

-- `db.commit()`
unfoldable pub commit : Exec (Unit {0})
commit s = (ok tt, record s { saved = s.work })

-- `db.rollback()`
unfoldable pub rollback : Exec (Unit {0})
rollback s = (ok tt, record s { work = s.saved })

-- A call that reaches the provider; no rollback undoes it.
unfoldable pub call : Call → Exec (Unit {0})
call c s = (ok tt, record s { calls = s.calls ++ c ∷ [] })

-- What a provider call answers: a value, or an exception that it raises.
unfoldable pub answer : {A : Type 0} → Result A → Exec A
answer r s = (r, s)

abbrev pub require : {A : Type 0} → Option A → Exn → Exec A
require none e = raise e
require (some a) e = pure a

abbrev pub raise_if : Bool → Exn → Exec (Unit {0})
raise_if true e = raise e
raise_if false e = pure tt

abbrev pub when : Bool → Exec (Unit {0}) → Exec (Unit {0})
when true m = m
when false m = pure tt

abbrev pub recover : {A : Type 0} → Result A → (Exn → Exec A) → Exec A
recover (ok a) handler s = (ok a, s)
recover (err e) handler s = handler e s

-- `try: m except: handler`
unfoldable pub catch : {A : Type 0} → Exec A → (Exn → Exec A) → Exec A
catch m handler s = let (r, s') = m s in recover r handler s'

-- A whole request, on the database and the calls that it finds.
unfoldable pub serve : {A : Type 0} → Exec A → Db → List Call → Result A × Db × List Call
serve m db calls =
    let (r, s) = m (record { work = db; saved = db; calls = calls }) in (r, s.saved, s.calls)

-- `record_audit` in a session.
unfoldable pub audit : Host → ℕ → Audit.Entry → Exec (Unit {0})
unfolding modify
audit h now e = modify (Audit.record_audit h now e)
