-- ===== src/Providers/Reference/Settles.antt =====
-- The reference provider with `_consume_agentic_settlement`: a first payment is settled.
use paari_payments_protocol.Prelude.{
  ◌==◌, number_eq, text_eq, eq_refl, eq_iff, first-append_none, first-update_where, update_where, ℕ,
  String, true, false, Option, none, some, List, [], ◌∷◌, ◌++◌, ◌≡◌, refl, ap, ◌∙◌, arith,
}
use paari_payments_protocol.Transitions.{transition, provider_submitted}
use paari_payments_protocol.Models.{ParentAuthority, Agent, PaymentInstrumentBinding}
use paari_payments_protocol.Models.Rows.{BoundedAuthorization, ProviderTransaction, Db, Detail}
use paari_payments_protocol.Host.{Host}
use paari_payments_protocol.Exec.{Call, ok, Result}
use paari_payments_protocol.Exec.Runs.{Runs, opened}
use paari_payments_protocol.Payments.Execution.{find_txn}
use paari_payments_protocol.Payments.Settlement.{
  ProviderPayment, active_provider_binding, corroborated, consume_agentic_settlement,
}
use paari_payments_protocol.Payments.Settlement.Settles.{Settled, agentic_settlement_settles}
use paari_payments_protocol.Payments.Settlement.Row.{Never}
use paari_payments_protocol.Providers.Reference.{
  Provider, Payment, find_payment, payment_id_of, authorize_payment, capture_payment, get_payment,
  validate_mandate, reference_answers, ref_of, differs, revoke_mandate,
}

-- The payment that is held for an authorization.
abbrev held : Host → BoundedAuthorization → String → Payment
held h auth status = record {
  payment_id = payment_id_of auth.authorization_id;
  amount = auth.amount_minor_units;
  currency = h.upper auth.currency;
  status = status;
}

abbrev read_back : Payment → ProviderPayment
read_back x = record {
  id = some x.payment_id;
  status = x.status;
  amount = some x.amount;
  currency = some x.currency;
  order_id = none;
  error_code = "";
}

valid_always : (ref : String) (p : Provider) → validate_mandate ref p ≡ true
unfolding validate_mandate
valid_always ref p = ground arith

module _ (h : Host) (p : Provider) (auth : BoundedAuthorization) (mandate_ref : String)
    (unknown : find_payment (payment_id_of auth.authorization_id) p ≡ none) where
  abbrev with_payment : Provider
  with_payment = record p { payments = p.payments ++ held h auth "authorized" ∷ [] }

  authorized :
      authorize_payment h auth.authorization_id mandate_ref auth.amount_minor_units auth.currency p
      ≡ (ok (payment_id_of auth.authorization_id), with_payment)
  unfolding authorize_payment
  authorized = ground (arith, valid_always mandate_ref p, unknown)

  found_payment :
      find_payment (payment_id_of auth.authorization_id) with_payment
      ≡ some (held h auth "authorized")
  found_payment =
      first-append_none (λ (x : Payment). x.payment_id == payment_id_of auth.authorization_id)
        p.payments (held h auth "authorized" ∷ []) unknown
      ∙ ground (arith, eq_refl (payment_id_of auth.authorization_id))

  not_different : differs h (held h auth "authorized") auth.amount_minor_units auth.currency ≡ false
  not_different = ground (arith, eq_refl (h.upper auth.currency))

  abbrev with_capture : Provider
  with_capture = record with_payment {
    payments =
        update_where (λ (y : Payment). y.payment_id == payment_id_of auth.authorization_id)
          (λ (y : Payment). record y { status = "captured" }) with_payment.payments;
  }

  captured :
      capture_payment h
        (payment_id_of auth.authorization_id)
        auth.amount_minor_units
        auth.currency
        with_payment
      ≡ (ok "captured", with_capture)
  unfolding capture_payment
  captured = ground (arith, found_payment, not_different)

  found_captured :
      find_payment (payment_id_of auth.authorization_id) with_capture
      ≡ some (held h auth "captured")
  found_captured =
      let it = λ (y : Payment). y.payment_id == payment_id_of auth.authorization_id in
      first-update_where it it (λ (y : Payment). record y { status = "captured" })
        with_payment.payments (λ a. refl)
      ∙ ground (arith, found_payment, eq_refl (payment_id_of auth.authorization_id))

  read :
      get_payment (payment_id_of auth.authorization_id) with_capture
      ≡ ok (read_back (held h auth "captured"))
  unfolding get_payment
  read = ground (arith, found_captured)

  answered : (reference_answers h p auth mandate_ref).validate_mandate ≡ ok true
  unfolding reference_answers
  answered = ap ok (valid_always mandate_ref p)

  answered_authorize :
      (reference_answers h p auth mandate_ref).authorize_payment
      ≡ ok (some (payment_id_of auth.authorization_id))
  unfolding reference_answers
  answered_authorize = ap (λ (r : Result String × Provider). ref_of r.0) authorized

  answered_capture : (reference_answers h p auth mandate_ref).capture_payment ≡ ok "captured"
  unfolding reference_answers
  answered_capture =
      ap
        (λ (r : Result String × Provider).
          (capture_payment h (payment_id_of auth.authorization_id) auth.amount_minor_units
            auth.currency r.1).0)
        authorized
      ∙ ap (λ (r : Result String × Provider). r.0) captured

  answered_read :
      (reference_answers h p auth mandate_ref).get_payment ≡ ok (read_back (held h auth "captured"))
  unfolding reference_answers
  answered_read =
      ap
        (λ (r : Result String × Provider).
          get_payment (payment_id_of auth.authorization_id)
            (capture_payment h (payment_id_of auth.authorization_id) auth.amount_minor_units
              auth.currency r.1).1)
        authorized
      ∙ (ap
            (λ (r : Result String × Provider).
              get_payment (payment_id_of auth.authorization_id) r.1)
            captured
          ∙ read)

  agrees :
      h.lower "captured" ≡ "captured"
      → h.upper (h.upper auth.currency) ≡ h.upper auth.currency
      → corroborated h auth (read_back (held h auth "captured")) ≡ true
  unfolding corroborated
  agrees low up = ground (
    arith,
    low,
    eq_iff (h.lower "captured") "captured",
    up,
    eq_iff (h.upper (h.upper auth.currency)) (h.upper auth.currency),
  )

-- With the reference provider the autonomous path settles a first payment: on a database that has an
-- active binding and a provider transaction that may be submitted, and a provider that holds no
-- payment under the reference of the authorization, the path raises nothing, answers PAID, leaves the
-- committed transaction in PAID, and authorizes and captures once; if `lower` leaves "captured" as it
-- is, and `upper` of the currency in upper case is itself.
pub reference_provider_settles :
    (h : Host) (now : ℕ) (auth : BoundedAuthorization) (agent : Agent)
    (parent : Option ParentAuthority) (causal : Detail) (p : Provider)
    (binding : PaymentInstrumentBinding) (t : ProviderTransaction) (db : Db) (calls : List Call)
    → active_provider_binding auth now db ≡ some binding
    → find_txn auth.authorization_id db ≡ some t
    → transition t.state provider_submitted ≡ some provider_submitted
    → find_payment (payment_id_of auth.authorization_id) p ≡ none
    → h.lower "captured" ≡ "captured"
    → h.upper (h.upper auth.currency) ≡ h.upper auth.currency
    → Runs
        (opened db calls)
        (Settled auth.authorization_id (
          (calls
            ++ Call.authorize_payment auth.authorization_id binding.provider_mandate_ref
                auth.amount_minor_units auth.currency auth.merchant
              ∷ [])
          ++ Call.capture_payment
              (payment_id_of auth.authorization_id)
              auth.amount_minor_units
              auth.currency
            ∷ []))
        Never
        (consume_agentic_settlement h now auth agent parent causal
          (reference_answers h p auth binding.provider_mandate_ref))
reference_provider_settles h now auth agent parent causal p binding t db calls bound row legal
      unknown low up =
    let ref = binding.provider_mandate_ref in
    agentic_settlement_settles h now auth agent parent causal (reference_answers h p auth ref)
      (payment_id_of auth.authorization_id) "captured" (read_back (held h auth "captured")) binding
      t db calls bound row legal (answered h p auth ref unknown)
      (answered_authorize h p auth ref unknown) (answered_capture h p auth ref unknown)
      (ground (arith, low, eq_iff (h.lower "captured") "captured"))
      (answered_read h p auth ref unknown) (agrees h p auth ref unknown low up)

-- The revocation of a mandate does not stop the reference provider: after it, as before, an
-- authorization under this mandate gets the same answer.
pub revocation_ignored :
    (h : Host) (p : Provider) (ref authorization_id currency : String) (amount : ℕ)
    → (authorize_payment h authorization_id ref amount currency (revoke_mandate ref p).1).0
      ≡ (authorize_payment h authorization_id ref amount currency p).0
unfolding authorize_payment revoke_mandate
revocation_ignored h p ref authorization_id currency amount =
    ground (arith, valid_always ref p, valid_always ref (revoke_mandate ref p).1)
