-- ===== src/LlmAgent/Broker.antt =====
-- llm_agent/broker.py: the broker vets a tool call, and signs a request only for what it accepts.
pub mod Tally
pub mod Custody
use paari_payments_protocol.Prelude.{
  ltb, leb, if◌then◌else◌, ◌==◌, number_eq, text_eq, select, first, any, contains, ℕ, ◌+◌, ◌-◌,
  String, Bool, true, false, not, Option, none, some, List, [], ◌∷◌, ◌++◌,
}
use paari_payments_protocol.LlmAgent.Tools.{
  Texts, Checked, arg_of, validate, Arg, Args, text, int, clean, tool_args_error,
}

pub record CausalContext : Type 0 where
  pub run_id : String
  pub model : String
  pub tool_call_id : Option String
  pub tool_name : Option String

-- `_Pending`, without what is only shown to the model
pub record Pending : Type 0 where
  pub authorization_id : String
  pub transaction_id : String
  pub merchant : String
  pub amount_minor_units : ℕ
  pub currency : String

-- The requests that the client signs and sends. An intent says which
-- authorization it was granted (or none, ""), and a consume request whether it was answered.
pub data Sent : Type 0 where
  intent_sent : String → String → ℕ → String → Option CausalContext → String → Sent
  consume_sent : String → Bool → Sent
  mandate_read : Sent
  proof_read : String → Sent

pub record PaariBroker : Type 0 where
  pub max_amount_minor_units : ℕ
  pub currency : String
  pub max_consumes : ℕ
  pub causal : Option CausalContext
  pub pending : List Pending
  pub known_transactions : List String
  pub consumes : ℕ
  -- what the client has sent, newest last
  pub sent : List Sent

-- A new broker, with the dataclass's defaults
abbrev pub new_broker : ℕ → String → ℕ → Option CausalContext → PaariBroker
new_broker max currency max_consumes causal = record {
  max_amount_minor_units = max;
  currency = currency;
  max_consumes = max_consumes;
  causal = causal;
  pending = [];
  known_transactions = [];
  consumes = 0;
  sent = [];
}

-- How a call of the client ends: an object, something else, a PaariProtocolError with its status, or
-- another exception.
pub data Reply (A : Type 0) : Type 0 where
  body : A → Reply A
  not_an_object : Reply A
  protocol_error : ℕ → Reply A
  failed_call : Reply A

-- The answer to a payment intent, the decision in lower case.
pub record IntentBody : Type 0 where
  pub decision : String
  pub authorization_id : String

-- What the world answers during one tool call, and the transaction id that is drawn.
pub record Answers : Type 0 where
  pub transaction_id : String
  pub intent : Reply IntentBody
  pub consume : Reply String
  pub mandate : Reply Unit
  pub proof : Reply Unit

-- What a tool call answers; `escaped` is an exception that `execute` does not catch.
pub data ToolResult : Type 0 where
  delegation : ℕ → ToolResult
  authority : ToolResult
  authorized : Pending → ToolResult
  not_allowed : String → ToolResult
  executed : Pending → String → ToolResult
  proof_of : String → ToolResult
  refuse : String → ToolResult
  escaped : ToolResult

abbrev pub is_ok : ToolResult → Bool
is_ok (delegation n) = true
is_ok authority = true
is_ok (authorized p) = true
is_ok (executed p state) = true
is_ok (proof_of t) = true
is_ok (not_allowed d) = false
is_ok (refuse code) = false
is_ok escaped = false

abbrev pub is_pending : String → Pending → Bool
is_pending id p = p.authorization_id == id

abbrev pub send : Sent → PaariBroker → PaariBroker
send s b = record b { sent = b.sent ++ s ∷ [] }

abbrev pub text_arg : String → List (String × Arg) → String
text_arg key args = elim (arg_of key args) [ none ↦ "" | some v ↦ elim v [ text s ↦ s | _ ↦ "" ] ]

-- The amount; `none` where it is not positive.
abbrev pub amount_arg : List (String × Arg) → Option ℕ
amount_arg args = elim (arg_of "amount_minor_units" args) [
  | none ↦ none
  | some v ↦ elim v [ int n ↦ if n == 0 then none else some n | _ ↦ none ]
]

-- What the broker makes of the answer to an intent; `log` adds the intent, with what it was granted,
-- to what was sent.
unfoldable pub take_intent :
    Pending
    → (String → PaariBroker → PaariBroker)
    → Reply IntentBody
    → PaariBroker
    → ToolResult × PaariBroker
take_intent p log (body i) b =
    if not (i.decision == "allow")
    then (not_allowed i.decision, log "" b)
    else if i.authorization_id == ""
    then (refuse "NO_AUTHORIZATION", log "" b)
    else (
      authorized (record p { authorization_id = i.authorization_id }),
      log i.authorization_id (record b {
        pending =
            select (λ (q : Pending). not (is_pending i.authorization_id q)) b.pending
            ++ record p { authorization_id = i.authorization_id } ∷ [];
      }),
    )
take_intent p log not_an_object b = (escaped, log "" b)
take_intent p log (protocol_error status) b = (refuse "SERVER_REJECTED", log "" b)
take_intent p log failed_call b = (escaped, log "" b)

-- `_tool_propose_payment`
unfoldable pub tool_propose_payment :
    Texts → Answers → String → Option ℕ → String → PaariBroker → ToolResult × PaariBroker
unfolding take_intent
tool_propose_payment h w merchant none currency b = (refuse "BAD_AMOUNT", b)
tool_propose_payment h w merchant (some amount) currency b =
    if ltb b.max_amount_minor_units amount
    then (refuse "AMOUNT_OVER_LIMIT", b)
    else if not (h.upper currency == h.upper b.currency)
    then (refuse "UNSUPPORTED_CURRENCY", b)
    else take_intent
        (record {
          authorization_id = "";
          transaction_id = w.transaction_id;
          merchant = merchant;
          amount_minor_units = amount;
          currency = b.currency;
        })
        (λ granted. send (intent_sent w.transaction_id merchant amount b.currency b.causal granted))
        w.intent (record b { known_transactions = b.known_transactions ++ w.transaction_id ∷ [] })

-- What the broker makes of the answer to a consume request.
unfoldable pub take_consume : Pending → Reply String → PaariBroker → ToolResult × PaariBroker
take_consume p (body state) b = (
  executed p state,
  record (send (consume_sent p.authorization_id true) b) { consumes = b.consumes + 1 },
)
take_consume p not_an_object b = (escaped, send (consume_sent p.authorization_id false) b)
take_consume p (protocol_error status) b =
    (refuse "SERVER_REJECTED", send (consume_sent p.authorization_id false) b)
take_consume p failed_call b = (escaped, send (consume_sent p.authorization_id false) b)

-- `_tool_confirm_payment`: the authorization is taken out of the pending ones before it is sent
unfoldable pub tool_confirm_payment : Answers → String → PaariBroker → ToolResult × PaariBroker
unfolding take_consume
tool_confirm_payment w id b =
    if leb b.max_consumes b.consumes
    then (refuse "CONSUME_LIMIT", b)
    else elim (first (is_pending id) b.pending) [
      | none ↦ (refuse "UNKNOWN_AUTHORIZATION", b)
      | some p ↦
          take_consume p w.consume
            (record b { pending = select (λ (q : Pending). not (is_pending id q)) b.pending })
    ]

abbrev pub after_read : ToolResult → Reply Unit → PaariBroker → ToolResult × PaariBroker
after_read good (body u) b = (good, b)
after_read good not_an_object b = (escaped, b)
after_read good (protocol_error status) b = (refuse "SERVER_REJECTED", b)
after_read good failed_call b = (escaped, b)

-- `_tool_get_payment_authority`: any answer will do, and 404 has a code of its own
abbrev authority_answer : Reply Unit → ToolResult
authority_answer (body u) = authority
authority_answer not_an_object = authority
authority_answer (protocol_error status) =
    if status == 404 then refuse "NO_ACTIVE_MANDATE" else refuse "SERVER_REJECTED"
authority_answer failed_call = escaped

unfoldable pub tool_get_payment_authority : Answers → PaariBroker → ToolResult × PaariBroker
tool_get_payment_authority w b = (authority_answer w.mandate, send mandate_read b)

-- `_tool_read_proof`
unfoldable pub tool_read_proof : Answers → String → PaariBroker → ToolResult × PaariBroker
tool_read_proof w t b =
    if contains t b.known_transactions
    then after_read (proof_of t) w.proof (send (proof_read t) b)
    else (refuse "UNKNOWN_TRANSACTION", b)

module _ (h : Texts) (w : Answers) where
  -- The handler of a tool, on cleaned arguments.
  unfoldable pub handle_tool : String → List (String × Arg) → PaariBroker → ToolResult × PaariBroker
  unfolding tool_propose_payment tool_confirm_payment tool_get_payment_authority tool_read_proof
  handle_tool name args b =
      if name == "get_delegation"
      then (delegation (b.max_consumes - b.consumes), b)
      else if name == "get_payment_authority"
      then tool_get_payment_authority w b
      else if name == "propose_payment"
      then tool_propose_payment h w (text_arg "merchant" args) (amount_arg args)
          (text_arg "currency" args) b
      else if name == "confirm_payment"
      then tool_confirm_payment w (text_arg "authorization_id" args) b
      else tool_read_proof w (text_arg "transaction_id" args) b

  unfoldable pub run_checked : String → Checked → PaariBroker → ToolResult × PaariBroker
  unfolding handle_tool
  run_checked name (tool_args_error code) b = (refuse code, b)
  run_checked name (clean given) b = handle_tool name given b

  -- `execute`
  unfoldable pub broker_execute : String → Args → PaariBroker → ToolResult × PaariBroker
  unfolding run_checked
  broker_execute name args b = run_checked name (validate h name args) b
