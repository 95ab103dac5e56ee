-- ===== src/Payments/Settlement.antt =====
-- `_active_provider_binding` and `_consume_agentic_settlement` of app/routers/payments.py: the
-- provider-native autonomous path.
pub mod Row
pub mod Settles
use paari_payments_protocol.Prelude.{
  ltb, if◌then◌else◌, ◌==◌, number_eq, text_eq, text_or, first, contains, ℕ, String, Bool, true,
  false, not, ◌&&◌, Option, none, some, List, [], ◌∷◌, ◌++◌,
}
use paari_payments_protocol.Transitions.{
  TxnState, provider_submitted, provider_authorized, captured, paid, failed, declined,
  provider_unknown,
}
use paari_payments_protocol.Models.{ParentAuthority, Agent, PaymentInstrumentBinding}
use paari_payments_protocol.Models.Rows.{
  says, Detail, BoundedAuthorization, Message, ProviderTransaction, Value, Db, null, str, num,
  txn_state,
}
use paari_payments_protocol.Host.{Host}
use paari_payments_protocol.Audit
use paari_payments_protocol.Exec.{
  Exec, exn_text, pure, raise, gets, ◌>>=◌, ◌>>◌, commit, call, answer, require, catch, audit,
  Result, http, other, Call,
}
use paari_payments_protocol.Payments.Records.{parent_id_of}
use paari_payments_protocol.Payments.Execution.{
  find_txn, modify_txn, no_row, transition_txn, set_error, close_with,
}

-- A payment as a provider reports it.
pub record ProviderPayment : Type 0 where
  pub id : Option String
  pub status : String
  pub amount : Option ℕ
  pub currency : Option String
  pub order_id : Option String
  pub error_code : String

-- `provenance()` of an adapter that has one.
pub record Provenance : Type 0 where
  pub provider_environment : String
  pub provider_key_id_prefix : Option String
  pub provider_api_base : Option String

-- What an autonomous provider (app/providers/agentic.py, AgenticPaymentProvider) answers during one
-- request.
pub record AgenticAnswers : Type 0 where
  pub supports_autonomous_settlement : Bool
  pub provenance : Option Provenance
  -- validate_mandate(...).get("valid")
  pub validate_mandate : Result Bool
  -- authorize_payment(...): provider_payment_ref or id
  pub authorize_payment : Result (Option String)
  -- capture_payment(...).get("status")
  pub capture_payment : Result String
  pub get_payment : Result ProviderPayment

-- schemas.ConsumeAuthorizationResponse, with the status code of the answer
pub record ConsumeResponse : Type 0 where
  pub status_code : ℕ
  pub authorization_id : String
  pub consumed : Bool
  pub remaining_uses : ℕ
  pub state : TxnState
  pub razorpay_order_id : Option String
  pub razorpay_payment_id : Option String

unfoldable pub active_provider_binding :
    BoundedAuthorization → ℕ → Db → Option PaymentInstrumentBinding
active_provider_binding auth now db = elim auth.mandate_id [
  | none ↦ none
  | some mandate_id ↦
      if mandate_id == ""
      then none
      else first
          (λ (b : PaymentInstrumentBinding).
            b.mandate_id == mandate_id
            && b.org_id == auth.org_id
            && b.status == "active"
            && elim b.expires_at [ none ↦ true | some t ↦ ltb now t ])
          db.bindings
]

unfoldable pub set_provenance : Option Provenance → ProviderTransaction → ProviderTransaction
set_provenance none t = record t {
  provider_environment = if t.provider_environment == "" then "unknown" else t.provider_environment;
}
set_provenance (some p) t = record t {
  provider_environment = p.provider_environment;
  provider_key_id_prefix = p.provider_key_id_prefix;
  provider_api_base = p.provider_api_base;
}

-- `str(payment.get("currency", "")).upper() == auth.currency.upper()` and the amount.
abbrev pub same_value : Host → BoundedAuthorization → Option ℕ → Option String → Bool
same_value h auth amount currency =
    elim amount [ none ↦ false | some a ↦ a == auth.amount_minor_units ]
    && h.upper (text_or currency "") == h.upper auth.currency

unfoldable pub corroborated : Host → BoundedAuthorization → ProviderPayment → Bool
corroborated h auth p = h.lower p.status == "captured" && same_value h auth p.amount p.currency

module _ (h : Host) (now : ℕ) (auth : BoundedAuthorization) (agent : Agent)
    (parent : Option ParentAuthority) (causal : Detail) where
  abbrev settlement_entry : String → Detail → Audit.Entry
  settlement_entry kind detail = record {
    transaction_id = auth.transaction_id;
    agent_id = agent.agent_id;
    parent_id = parent_id_of parent;
    kind = kind;
    detail = detail ++ causal;
    org_id = some auth.org_id;
  }

  -- The answer of the agentic path, in the state that the row has reached.
  unfoldable pub agentic_answer : String → Exec ConsumeResponse
  agentic_answer ref = do
    row ← gets (find_txn auth.authorization_id)
    t ← require row no_row
    pure (record {
      status_code = 200;
      authorization_id = auth.authorization_id;
      consumed = true;
      remaining_uses = 0;
      state = t.state;
      razorpay_order_id = none;
      razorpay_payment_id = some ref;
    })

  abbrev state_of : Option ProviderTransaction → Value
  state_of none = null
  state_of (some t) = txn_state t.state

  -- The two audit events of a submitted autonomous payment.
  unfoldable pub audit_submitted : Option ProviderTransaction → String → Exec Unit
  audit_submitted old ref = do
    audit h now (
        settlement_entry "authorization_consumed" (
          ("authorization_id", str auth.authorization_id)
          ∷ ("remaining_uses", num 0)
          ∷ ("previous_state", state_of old)
          ∷ ("current_state", txn_state provider_submitted)
          ∷ ("settlement_mode", str "provider-native-autonomous")
          ∷ []))
    audit h now (
        settlement_entry "provider_submitted" (
          ("authorization_id", str auth.authorization_id)
          ∷ ("provider_payment_ref", str ref)
          ∷ ("amount_minor_units", num auth.amount_minor_units)
          ∷ ("currency", str auth.currency)
          ∷ ("previous_state", state_of old)
          ∷ ("current_state", txn_state provider_submitted)
          ∷ ("settlement_source", str "agentic")
          ∷ []))

  -- After a capture that the provider announced: PAID only if the direct read agrees.
  unfoldable pub confirm_readback : AgenticAnswers → String → Exec ConsumeResponse
  unfolding agentic_answer
  confirm_readback agentic ref = do
    let id = auth.authorization_id
    payment ← answer agentic.get_payment
    if not (corroborated h auth payment)
        then (do
          set_error id (
              says
                "Provider readback did not corroborate captured amount/currency; reconciliation required")
          commit
          agentic_answer ref)
        else do
          transition_txn id paid
          modify_txn id λ t. record t { updated_at = now }
          audit h now (
              settlement_entry "agentic_settlement" (
                ("authorization_id", str id)
                ∷ ("provider_payment_ref", str ref)
                ∷ ("amount_minor_units", num auth.amount_minor_units)
                ∷ ("currency", str auth.currency)
                ∷ ("previous_state", txn_state provider_submitted)
                ∷ ("current_state", txn_state paid)
                ∷ ("settlement_source", str "provider-native-agentic")
                ∷ []))
          commit
          agentic_answer ref

  -- The row after a capture that is not announced as captured.
  unfoldable pub stop_at : String → TxnState → Message → Exec ConsumeResponse
  unfolding agentic_answer
  stop_at ref to m = do
    transition_txn auth.authorization_id to
    set_error auth.authorization_id m
    commit
    agentic_answer ref

  abbrev one_of : String → List String → Bool
  one_of s names = contains s names

  -- The branches on the status of the capture.
  unfoldable pub after_capture : AgenticAnswers → String → String → Exec ConsumeResponse
  unfolding confirm_readback stop_at
  after_capture agentic ref raw =
      let status = h.lower raw in
      if one_of status ("captured" ∷ "already_captured" ∷ [])
      then (do
        transition_txn auth.authorization_id provider_authorized
        transition_txn auth.authorization_id captured
        confirm_readback agentic ref)
      else if one_of status ("authorized" ∷ "pending" ∷ "processing" ∷ "created" ∷ [])
      then stop_at ref provider_authorized
          (record { text = "Provider capture pending: "; about = raw })
      else if one_of status ("failed" ∷ "declined" ∷ "cancelled" ∷ "canceled" ∷ [])
      then stop_at ref (if status == "failed" then failed else declined)
          (record { text = "Provider capture returned terminal failure: "; about = raw })
      else stop_at ref provider_unknown
          (record { text = "Provider capture outcome is unknown: "; about = raw })

  -- From the authorized payment on: submitted, audited, captured.
  unfoldable pub submit_and_capture : AgenticAnswers → String → Exec ConsumeResponse
  unfolding audit_submitted after_capture agentic_answer
  submit_and_capture agentic ref = do
    let id = auth.authorization_id
    old ← gets (find_txn id)
    transition_txn id provider_submitted
    modify_txn id λ t.
        record (set_provenance agentic.provenance (record t { razorpay_payment_id = some ref })) {
          updated_at = now;
        }
    audit_submitted old ref
    status ←
        catch
          (do
            call (Call.capture_payment ref auth.amount_minor_units auth.currency)
            s ← answer agentic.capture_payment
            pure (some s))
          (λ e. do
            close_with id provider_unknown
                (record { text = "Agentic capture outcome unknown: "; about = exn_text e })
            pure none)
    elim status [ none ↦ agentic_answer ref | some s ↦ after_capture agentic ref s ]

  unfoldable pub consume_agentic_settlement : AgenticAnswers → Exec ConsumeResponse
  unfolding submit_and_capture
  consume_agentic_settlement agentic = do
    let id = auth.authorization_id
    found ← gets (active_provider_binding auth now)
    elim found [
      | none ↦ do
        close_with id failed
            (says "Autonomous mode requires an active provider payment-instrument binding")
        raise (
            http 409
              (says "Autonomous mode requires an active provider payment-instrument binding"))
      | some binding ↦ do
        valid ← answer agentic.validate_mandate
        if not valid
            then (do
              close_with id failed (says "Provider mandate is not valid")
              raise (http 409 (says "Provider mandate is not active for autonomous payment")))
            else do
              call (
                  Call.authorize_payment id binding.provider_mandate_ref auth.amount_minor_units
                    auth.currency auth.merchant)
              paid_as ← answer agentic.authorize_payment
              ref ←
                  require paid_as
                    (other "Provider autonomous authorization returned no payment reference")
              submit_and_capture agentic ref
    ]
