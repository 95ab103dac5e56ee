-- ===== src/Payments/Settlement/Row.antt =====
-- Actions of the autonomous path that keep the row of an authorization, and the rules for runs that
-- get through (`_consume_agentic_settlement` of app/routers/payments.py).
use paari_payments_protocol.Prelude.{
  if◌then◌else◌, ◌==◌, number_eq, text_eq, first_holds, first-update_where, ℕ, String, Bool, true,
  false, some, List, [], ◌∷◌, ◌++◌, ◌≡◌, refl, ap, ◌∙◌,
}
use paari_payments_protocol.Transitions.{
  TxnState, transition, provider_submitted, provider_authorized, captured, paid,
}
use paari_payments_protocol.Models.Rows.{ProviderTransaction}
use paari_payments_protocol.Host.{Host}
use paari_payments_protocol.Audit
use paari_payments_protocol.Exec.{
  Exec, Exn, recover, ◌>>=◌, modify, call, answer, catch, audit, Session, Call, ok, err, Result,
}
use paari_payments_protocol.Exec.Runs.{Runs, Ending, Runs-gets, Runs-returns, require-returns}
use paari_payments_protocol.Payments.Execution.{find_txn, modify_txn, transition_txn}

-- The row of an authorization in a session, and the calls that were made.
pub record Has (id : String) (t : ProviderTransaction) (calls : List Call) (s : Session)
    : Type 0 where
  pub row : find_txn id s.work ≡ some t
  pub made : s.calls ≡ calls

abbrev pub Never : Session → Type 0
Never s = ⊥

module _ (id : String) (t : ProviderTransaction) (calls : List Call) (s : Session)
    (has : Has id t calls s) where
  -- A change of the row that keeps its key.
  pub modify_txn-Has :
      (f : ProviderTransaction → ProviderTransaction)
      → ((u : ProviderTransaction) → (f u).authorization_id ≡ u.authorization_id)
      → Runs s (λ a v. Has id (f t) calls v) Never (modify_txn id f)
  unfolding modify_txn modify
  modify_txn-Has f keep =
      let it = λ (u : ProviderTransaction). u.authorization_id == id in
      record {
        holds = record {
          row =
              first-update_where it it f s.work.transactions
                (λ a. ap (λ (k : String). k == id) (keep a))
              ∙ (rw (has.row) (rw (first_holds it s.work.transactions t has.row) refl));
          made = has.made;
        };
      }

  pub audit-Has :
      (h : Host) (now : ℕ) (e : Audit.Entry)
      → Runs s (λ a v. Has id t calls v) Never (audit h now e)
  unfolding audit modify Audit.record_audit
  audit-Has h now e = record { holds = record { row = has.row; made = has.made } }

  pub call-Has : (c : Call) → Runs s (λ a v. Has id t (calls ++ c ∷ []) v) Never (call c)
  unfolding call
  call-Has c = record {
    holds = record { row = has.row; made = ap (λ (cs : List Call). cs ++ c ∷ []) has.made };
  }

  pub transition_txn-Has :
      (to : TxnState)
      → transition t.state to ≡ some to
      → Runs s (λ a v. Has id (record t { state = to }) calls v) Never (transition_txn id to)
  unfolding transition_txn
  transition_txn-Has to legal = Runs-gets _ _ _ _ _ (
      Runs-returns _ _ _ t _ _ (require-returns _ _ t s has.row) (
        Runs-returns _ _ _ to _ _ (require-returns _ _ to s legal)
          (modify_txn-Has (λ u. record u { state = to }) (λ u. refl))))

module _ {A B : Type 0} (s : Session) (Q : B → Session → Type 0) where
  pub Runs-answer :
      (r : Result A) (a : A) (f : A → Exec B)
      → r ≡ ok a
      → Runs s Q Never (f a)
      → Runs s Q Never (answer r >>= f)
  unfolding answer
  Runs-answer r a f e k = Runs-returns s Q Never a (answer r) f (λ i. (e i, s)) k

module _ {A : Type 0} (s : Session) (Q : A → Session → Type 0) where
  pub Runs-else :
      (b : Bool) (m n : Exec A) → b ≡ false → Runs s Q Never n → Runs s Q Never (if b then m else n)
  Runs-else true m n e k = cc
  Runs-else false m n e k = k

  pub Runs-then :
      (b : Bool) (m n : Exec A) → b ≡ true → Runs s Q Never m → Runs s Q Never (if b then m else n)
  Runs-then true m n e k = k
  Runs-then false m n e k = cc

  pub Runs-catch : (m : Exec A) (f : Exn → Exec A) → Runs s Q Never m → Runs s Q Never (catch m f)
  unfolding catch
  Runs-catch m f k = record { holds = go (m s).0 (m s).1 k.holds }
    where
      go :
          (r : Result A) (t : Session)
          → Ending Q Never r t
          → Ending Q Never (recover r f t).0 (recover r f t).1
      go (ok a) t q = q
      go (err e) t none_left = elim none_left [ ]

pub submitted_authorized :
    transition provider_submitted provider_authorized ≡ some provider_authorized
unfolding transition
submitted_authorized = refl

pub authorized_captured : transition provider_authorized captured ≡ some captured
unfolding transition
authorized_captured = refl

pub captured_paid : transition captured paid ≡ some paid
unfolding transition
captured_paid = refl
