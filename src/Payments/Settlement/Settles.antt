-- ===== src/Payments/Settlement/Settles.antt =====
-- The success of `_consume_agentic_settlement` of app/routers/payments.py: what a provider has to answer
-- for a payment to be settled.
use paari_payments_protocol.Prelude.{
  number_eq, text_eq, contains, ℕ, String, true, not, Option, none, some, List, [], ◌∷◌, ◌++◌, ◌≡◌,
  refl, ap, ◌∙◌,
}
use paari_payments_protocol.Transitions.{
  TxnState, transition, provider_submitted, provider_authorized, captured, paid,
}
use paari_payments_protocol.Models.{ParentAuthority, Agent, PaymentInstrumentBinding}
use paari_payments_protocol.Models.Rows.{BoundedAuthorization, ProviderTransaction, Db, Detail}
use paari_payments_protocol.Host.{Host}
use paari_payments_protocol.Exec.{Exec, ◌>>=◌, call, answer, pure, Session, Call, ok}
use paari_payments_protocol.Exec.Runs.{
  Runs, opened, Runs-gets, Runs-returns, Runs-bind, Runs-pure, Runs-commit, require-returns,
}
use paari_payments_protocol.Payments.Execution.{find_txn, no_row}
use paari_payments_protocol.Payments.Settlement.{
  AgenticAnswers, ProviderPayment, ConsumeResponse, active_provider_binding, corroborated,
  set_provenance, consume_agentic_settlement, submit_and_capture, after_capture, confirm_readback,
  agentic_answer, audit_submitted, Provenance,
}
use paari_payments_protocol.Payments.Settlement.Row.{
  Has, Never, modify_txn-Has, audit-Has, call-Has, transition_txn-Has, Runs-answer, Runs-else,
  Runs-then, Runs-catch, submitted_authorized, authorized_captured, captured_paid,
}

-- The answer says PAID, the committed row is PAID, and these calls were made.
pub record Settled (id : String) (calls : List Call) (r : ConsumeResponse) (s : Session)
    : Type 0 where
  pub answered : r.state ≡ paid
  pub row : (t : ProviderTransaction) × (find_txn id s.saved ≡ some t) × (t.state ≡ paid)
  pub made : s.calls ≡ calls

module _ (h : Host) (now : ℕ) (auth : BoundedAuthorization) (agent : Agent)
    (parent : Option ParentAuthority) (causal : Detail) (w : AgenticAnswers) (ref : String)
    (calls : List Call) where
  answer-Settled :
      (t : ProviderTransaction) (s : Session)
      → Has auth.authorization_id t calls s
      → s.saved ≡ s.work
      → t.state ≡ paid
      → Runs s
          (Settled auth.authorization_id calls)
          Never
          (agentic_answer h now auth agent parent causal ref)
  unfolding agentic_answer
  answer-Settled t s has same done = Runs-gets _ _ _ _ _ (
      Runs-returns _ _ _ t _ _ (require-returns _ no_row t s has.row) (
        Runs-pure _ _ _ _
          (record { answered = done; row = (t, rw same has.row, done); made = has.made })))

  audit_submitted-Has :
      (t : ProviderTransaction) (old : Option ProviderTransaction) (s : Session)
      → Has auth.authorization_id t calls s
      → Runs s
          (λ a v. Has auth.authorization_id t calls v)
          Never
          (audit_submitted h now auth agent parent causal old ref)
  unfolding audit_submitted
  audit_submitted-Has t old s has =
      Runs-bind _ _ _ (λ a v. Has auth.authorization_id t calls v) _ _
        (audit-Has _ t calls s has h now _) λ a v k. audit-Has _ t calls v k h now _

  confirm_readback-Settled :
      (t : ProviderTransaction) (payment : ProviderPayment) (s : Session)
      → Has auth.authorization_id t calls s
      → t.state ≡ captured
      → w.get_payment ≡ ok payment
      → corroborated h auth payment ≡ true
      → Runs s
          (Settled auth.authorization_id calls)
          Never
          (confirm_readback h now auth agent parent causal w ref)
  unfolding confirm_readback
  confirm_readback-Settled t payment s has at_captured read agrees =
      Runs-answer _ _ _ payment _ read (
        Runs-else _ _ (not (corroborated h auth payment)) _ _ (ap not agrees) (
          Runs-bind _ _ _ (λ a v. Has auth.authorization_id (record t { state = paid }) calls v) _ _
            (transition_txn-Has _ t calls s has paid
              (ap (λ (x : TxnState). transition x paid) at_captured ∙ captured_paid))
            λ a v k.
              Runs-bind _ _ _
                (λ a v.
                  Has auth.authorization_id (record t { state = paid; updated_at = now }) calls v)
                _ _
                (modify_txn-Has _ (record t { state = paid }) calls v k
                  (λ u. record u { updated_at = now }) (λ u. refl))
                λ b x l.
                  Runs-bind _ _ _
                    (λ a v.
                      Has auth.authorization_id (record t { state = paid; updated_at = now }) calls
                        v)
                    _ _ (audit-Has _ _ calls x l h now _)
                    λ c y m. Runs-commit _ _ _ _ (
                      answer-Settled (record t { state = paid; updated_at = now })
                        (record y { saved = y.work }) (record { row = m.row; made = m.made }) refl
                        refl)))

  after_capture-Settled :
      (t : ProviderTransaction) (payment : ProviderPayment) (status : String) (s : Session)
      → Has auth.authorization_id t calls s
      → t.state ≡ provider_submitted
      → contains (h.lower status) ("captured" ∷ "already_captured" ∷ []) ≡ true
      → w.get_payment ≡ ok payment
      → corroborated h auth payment ≡ true
      → Runs s
          (Settled auth.authorization_id calls)
          Never
          (after_capture h now auth agent parent causal w ref status)
  unfolding after_capture
  after_capture-Settled t payment status s has submitted done read agrees =
      Runs-then _ _ (contains (h.lower status) ("captured" ∷ "already_captured" ∷ [])) _ _ done (
        Runs-bind _ _ _
          (λ a v. Has auth.authorization_id (record t { state = provider_authorized }) calls v) _ _
          (transition_txn-Has _ t calls s has provider_authorized (
            ap (λ (x : TxnState). transition x provider_authorized) submitted
            ∙ submitted_authorized))
          λ a v k.
            Runs-bind _ _ _
              (λ a v. Has auth.authorization_id (record t { state = captured }) calls v) _ _
              (transition_txn-Has _ (record t { state = provider_authorized }) calls v k captured
                authorized_captured)
              λ b x l.
                confirm_readback-Settled (record t { state = captured }) payment x l refl read
                  agrees)

module _ (h : Host) (now : ℕ) (auth : BoundedAuthorization) (agent : Agent)
    (parent : Option ParentAuthority) (causal : Detail) (w : AgenticAnswers) (ref status : String)
    (payment : ProviderPayment) where
  abbrev capture_call : Call
  capture_call = Call.capture_payment ref auth.amount_minor_units auth.currency

  -- The row once the payment is submitted.
  abbrev submitted_row : ProviderTransaction → ProviderTransaction
  submitted_row u =
      record (set_provenance w.provenance (record u { razorpay_payment_id = some ref })) {
        updated_at = now;
      }

  provenance_keeps :
      (o : Option Provenance) (u : ProviderTransaction)
      → ((set_provenance o u).authorization_id ≡ u.authorization_id)
        × ((set_provenance o u).state ≡ u.state)
  unfolding set_provenance
  provenance_keeps none u = (refl, refl)
  provenance_keeps (some p) u = (refl, refl)

  capture-Has :
      (t : ProviderTransaction) (calls : List Call) (s : Session)
      → Has auth.authorization_id t calls s
      → w.capture_payment ≡ ok status
      → Runs s
          (λ a v. (a ≡ some status) × Has auth.authorization_id t (calls ++ capture_call ∷ []) v)
          Never
          (call capture_call >>= λ u. answer w.capture_payment >>= λ a. pure (some a))
  capture-Has t calls s has captures =
      Runs-bind _ _ _ (λ a v. Has auth.authorization_id t (calls ++ capture_call ∷ []) v) _ _
        (call-Has _ t calls s has capture_call)
        λ a v k. Runs-answer v _ _ status _ captures (Runs-pure _ _ _ _ (refl, k))

  submit_and_capture-Settled :
      (t : ProviderTransaction) (calls : List Call) (s : Session)
      → Has auth.authorization_id t calls s
      → transition t.state provider_submitted ≡ some provider_submitted
      → w.capture_payment ≡ ok status
      → contains (h.lower status) ("captured" ∷ "already_captured" ∷ []) ≡ true
      → w.get_payment ≡ ok payment
      → corroborated h auth payment ≡ true
      → Runs s
          (Settled auth.authorization_id (calls ++ capture_call ∷ []))
          Never
          (submit_and_capture h now auth agent parent causal w ref)
  unfolding submit_and_capture
  submit_and_capture-Settled t calls s has legal captures done read agrees =
      let t1 : ProviderTransaction = record t { state = provider_submitted } in
      let t2 = submitted_row t1 in
      Runs-gets _ _ _ _ _ (
        Runs-bind _ _ _ (λ a v. Has auth.authorization_id t1 calls v) _ _
          (transition_txn-Has _ t calls s has provider_submitted legal)
          λ a v k.
            Runs-bind _ _ _ (λ a v. Has auth.authorization_id t2 calls v) _ _
              (modify_txn-Has _ t1 calls v k submitted_row (λ u.
                (provenance_keeps w.provenance (record u { razorpay_payment_id = some ref })).0))
              λ b x l.
                Runs-bind _ _ _ (λ a v. Has auth.authorization_id t2 calls v) _ _
                  (audit_submitted-Has h now auth agent parent causal w ref calls t2 _ x l)
                  λ c y m.
                    Runs-bind _ _ _
                      (λ a v.
                        (a ≡ some status)
                        × Has auth.authorization_id t2 (calls ++ capture_call ∷ []) v)
                      _ _ (Runs-catch _ _ _ _ (capture-Has t2 calls y m captures))
                      λ d z n. rw (n.0) (
                        after_capture-Settled h now auth agent parent causal w ref
                          (calls ++ capture_call ∷ []) t2 payment status z n.1
                          (provenance_keeps w.provenance
                            (record t1 { razorpay_payment_id = some ref })).1
                          done read agrees))

Runs-some :
    {A B : Type 0} (s : Session) (Q : B → Session → Type 0) (o : Option A) (a : A) (m : Exec B)
    (f : A → Exec B)
    → o ≡ some a
    → Runs s Q Never (f a)
    → Runs s Q Never (elim o [ none ↦ m | some x ↦ f x ])
Runs-some s Q none a m f e k = cc
Runs-some s Q (some x) a m f e k = rw (some_same e) k
  where
    some_same : some x ≡ some a → x ≡ a
    some_same e = cc

pure-returns : {A : Type 0} (a : A) (s : Session) → pure a s ≡ (ok a, s)
unfolding pure
pure-returns a s = refl

-- A provider that settles, settles: on a database that has an active binding of the mandate and a
-- provider transaction that may be submitted, if the provider says that its mandate is valid,
-- authorizes the payment, answers the capture as captured or already captured, and reads the payment
-- back as captured with the amount and the currency of the authorization, then the autonomous path
-- raises nothing, answers PAID, leaves the committed transaction in PAID, and makes one call to
-- authorize and one to capture.
pub agentic_settlement_settles :
    (h : Host) (now : ℕ) (auth : BoundedAuthorization) (agent : Agent)
    (parent : Option ParentAuthority) (causal : Detail) (w : AgenticAnswers) (ref status : String)
    (payment : ProviderPayment) (binding : PaymentInstrumentBinding) (t : ProviderTransaction)
    (db : Db) (calls : List Call)
    → active_provider_binding auth now db ≡ some binding
    → find_txn auth.authorization_id db ≡ some t
    → transition t.state provider_submitted ≡ some provider_submitted
    → w.validate_mandate ≡ ok true
    → w.authorize_payment ≡ ok (some ref)
    → w.capture_payment ≡ ok status
    → contains (h.lower status) ("captured" ∷ "already_captured" ∷ []) ≡ true
    → w.get_payment ≡ ok payment
    → corroborated h auth payment ≡ true
    → Runs
        (opened db calls)
        (Settled auth.authorization_id (
          (calls
            ++ Call.authorize_payment auth.authorization_id binding.provider_mandate_ref
                auth.amount_minor_units auth.currency auth.merchant
              ∷ [])
          ++ Call.capture_payment ref auth.amount_minor_units auth.currency ∷ []))
        Never
        (consume_agentic_settlement h now auth agent parent causal w)
unfolding consume_agentic_settlement
agentic_settlement_settles h now auth agent parent causal w ref status payment binding t db calls
      bound row legal valid authorizes captures done read agrees =
    let first_call : Call =
      Call.authorize_payment auth.authorization_id binding.provider_mandate_ref
        auth.amount_minor_units auth.currency auth.merchant in
    Runs-gets _ _ _ _ _ (
      Runs-some _ _ (active_provider_binding auth now db) binding _ _ bound (
        Runs-answer _ _ _ true _ valid (
          Runs-bind _ _ _ (λ a v. Has auth.authorization_id t (calls ++ first_call ∷ []) v) _ _
            (call-Has _ t calls (opened db calls) (record { row = row; made = refl }) first_call)
            λ a v k. Runs-answer _ _ _ (some ref) _ authorizes (
              Runs-returns _ _ _ ref _ _ (pure-returns ref v) (
                submit_and_capture-Settled h now auth agent parent causal w ref status payment t
                  (calls ++ first_call ∷ []) v k legal captures done read agrees)))))
