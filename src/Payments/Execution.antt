-- ===== src/Payments/Execution.antt =====
-- `_revalidate_execution` of app/routers/payments.py, and the updates of a provider transaction that
-- the execution paths share.
use paari_payments_protocol.Prelude.{
  ltb, if◌then◌else◌, ◌==◌, number_eq, text_eq, select, first, update_where, is_empty, is_some,
  contains, ℕ, String, Bool, true, not, ◌&&◌, ◌||◌, Option, none, some, List, [], ◌∷◌, map,
}
use paari_payments_protocol.Transitions.{TxnState, transition}
use paari_payments_protocol.Models.{
  is_active_agent, is_active_parent, is_active_mandate, ParentAuthority, Agent, Credential,
  UserPaymentMandate,
}
use paari_payments_protocol.Models.Rows.{
  says, BoundedAuthorization, Message, ProviderTransaction, Db,
}
use paari_payments_protocol.Host.{Host}
use paari_payments_protocol.Config.{Environment, mandate_policy}
use paari_payments_protocol.Exec.{
  Exec, pure, gets, ◌>>=◌, ◌>>◌, modify, commit, require, raise_if, Exn, http, other,
}
use paari_payments_protocol.Mandates.Signature.{check_mandate_signature, present}
use paari_payments_protocol.Payments.Authenticate.{keep_if, passed, parent_for}
use paari_payments_protocol.Payments.StepUp.{find_intent}

abbrev pub forbidden : String → Exn
forbidden s = http 403 (says s)

-- The most recently issued of some credentials; the later row wins a tie.
abbrev pub latest : List Credential → Option Credential
latest [] = none
latest (c ∷ cs) = elim (latest cs) [
  | none ↦ some c
  | some d ↦ some (if ltb d.issued_at c.issued_at then c else d)
]

abbrev pub none_of : Host → List String → Option String → Bool
none_of h allowed name =
    let names = map h.casefold allowed in
    not (is_empty names)
    && elim (present name) [ none ↦ true | some n ↦ not (contains (h.casefold n) names) ]

module _ (h : Host) (env : Environment) (now : ℕ) where
  -- The checks of the mandate that the authorization is bound to.
  unfoldable pub revalidate_mandate :
      BoundedAuthorization → UserPaymentMandate → Bool → Option String → Exec Unit
  revalidate_mandate auth m require_signed category = do
    raise_if (ltb m.expires_at now || ltb now m.valid_from)
        (forbidden "User payment mandate is outside its validity window")
    raise_if (is_some (check_mandate_signature h require_signed m))
        (forbidden "user mandate signature verification failed")
    raise_if (ltb m.max_per_transaction auth.amount_minor_units)
        (forbidden "Authorization exceeds the current user mandate limit")
    raise_if (not (h.upper auth.currency == h.upper m.currency))
        (forbidden "Authorization currency no longer matches user mandate")
    raise_if
        (not (is_empty (map h.casefold m.allowed_merchants))
          && not (contains (h.casefold auth.merchant) (map h.casefold m.allowed_merchants)))
        (forbidden "Authorization merchant is no longer permitted by the user mandate")
    raise_if (none_of h m.allowed_categories category)
        (forbidden "Authorization category is no longer permitted by the user mandate")

  unfoldable pub revalidate_execution : BoundedAuthorization → Exec Agent
  unfolding revalidate_mandate
  revalidate_execution auth = do
    known ← gets λ db.
        first (λ (a : Agent). a.agent_id == auth.agent_id && a.org_id == auth.org_id) db.agents
    agent ←
        require (keep_if (λ (a : Agent). is_active_agent a.status) known)
          (forbidden "Agent is no longer active")
    parent ← gets (parent_for agent)
    require (keep_if (λ (p : ParentAuthority). is_active_parent p.status) parent)
        (forbidden "Parent authority is no longer active")
    raise_if (passed agent.valid_until now) (forbidden "Delegation expired")
    credential ← gets λ db.
        latest (select (λ (c : Credential). c.agent_pk == agent.id && not c.revoked) db.credentials)
    require (keep_if (λ (c : Credential). not (ltb c.expires_at now)) credential)
        (forbidden "No current valid credential")
    raise_if (ltb auth.expires_at now) (http 410 (says "Authorization has expired"))
    elim (present auth.mandate_id) [
      | none ↦ pure agent
      | some mandate_id ↦ do
        row ← gets λ db.
            first
              (λ (m : UserPaymentMandate).
                m.mandate_id == mandate_id
                && m.agent_id == agent.agent_id
                && m.org_id == agent.org_id)
              db.mandates
        m ←
            require (keep_if (λ (m : UserPaymentMandate). is_active_mandate m.status) row)
              (forbidden "User payment mandate is no longer active")
        posture ← mandate_policy h env
        intent ← gets (find_intent auth.intent_id)
        revalidate_mandate auth m posture.require_signed_mandate
            (elim intent [ none ↦ none | some i ↦ i.merchant_category ])
        pure agent
    ]

-- The provider transaction of an authorization, read and written through the session: the handlers
-- of the program hold the row object itself.
abbrev pub find_txn : String → Db → Option ProviderTransaction
find_txn id db = first (λ (t : ProviderTransaction). t.authorization_id == id) db.transactions

unfoldable pub modify_txn : String → (ProviderTransaction → ProviderTransaction) → Exec Unit
modify_txn id f = modify λ db. record db {
  transactions =
      update_where (λ (t : ProviderTransaction). t.authorization_id == id) f db.transactions;
}

abbrev pub no_row : Exn
no_row = other "no provider transaction"

-- `transition_txn(txn, to)`, with its IllegalTransitionError
unfoldable pub transition_txn : String → TxnState → Exec Unit
unfolding modify_txn
transition_txn id to = do
  row ← gets (find_txn id)
  t ← require row no_row
  require (transition t.state to) (other "Illegal transaction transition")
  modify_txn id λ u. record u { state = to }

-- `try: transition_txn(txn, to) except IllegalTransitionError: pass`
unfoldable pub try_transition : String → TxnState → Exec Unit
unfolding modify_txn
try_transition id to =
    modify_txn id
      λ u. record u { state = elim (transition u.state to) [ none ↦ u.state | some s ↦ s ] }

unfoldable pub set_error : String → Message → Exec Unit
unfolding modify_txn
set_error id m = modify_txn id λ t. record t { last_error = some m }

-- The end of a failed path: a last transition if it is legal, the error, and a commit.
unfoldable pub close_with : String → TxnState → Message → Exec Unit
close_with id to m = do try_transition id to; set_error id m; commit
