-- ===== src/Payments/Consume/Paths.antt =====
-- The execution paths of `consume_authorization`: each takes up the committed use at most once.
use paari_payments_protocol.Prelude.{
  if◌then◌else◌, ◌==◌, number_eq, text_eq, Bool-cases, ℕ, String, ◌≡◌, refl, ◌∙◌, inl, inr, not,
  Option,
}
use paari_payments_protocol.Models.{ParentAuthority, Agent}
use paari_payments_protocol.Models.Rows.{
  says, Detail, BoundedAuthorization, Message, ProviderTransaction,
}
use paari_payments_protocol.Host.{Host}
use paari_payments_protocol.Config.{Environment, MandatePolicy}
use paari_payments_protocol.Transitions.{TxnState, failed}
use paari_payments_protocol.Exec.{
  Exec, raise, ◌>>=◌, ◌>>◌, commit, call, catch, Exn, http, paari, timeout, not_configured, other,
  agentic_unavailable, Call,
}
use paari_payments_protocol.Exec.Keeps.{
  Keeps, Turns, keeps_rules, Turns-bind, Turns-Keeps, Turns-if, Turns-elim, Turns-catch,
  Keeps-answer, Keeps-gets, Keeps-pure, Keeps-bind, Keeps-raise, Keeps-elim, Keeps-catch,
  Keeps-require,
}
use paari_payments_protocol.Payments.Execution.{transition_txn, set_error}
use paari_payments_protocol.Payments.Settlement.{
  agentic_answer, audit_submitted, confirm_readback, stop_at, after_capture, submit_and_capture,
  consume_agentic_settlement, AgenticAnswers,
}
use paari_payments_protocol.Payments.Consume.{
  provider_order_matches, accept_order, create_order, agentic_failure, no_autonomous_provider,
  choose_path, execute, execution_failure, ProviderOrder, ConsumeAnswers,
}
use paari_payments_protocol.Payments.Consume.Ledger.{
  is_charge, Ledger-weaken, commit-Keeps, call-Keeps, call-charges, Ledger,
}
use paari_payments_protocol.Payments.Consume.Guards.{
  audit-Keeps, modify_txn-Keeps, transition_txn-Keeps, try_transition-Keeps, set_error-Keeps,
  close_with-Keeps, mandate_policy-Keeps,
}
use paari_payments_protocol.Payments.Consume.Reserve.{credit}

module _ (id : String) where
  -- From `k` committed uses, `m` takes up as many as it charges.
  abbrev pub Spends : {A : Type 0} → ℕ → Exec A → Type 0
  Spends k m = Turns (Ledger id k 0) (Ledger id 0 0) (Ledger id 0 0) m

  module _ {A : Type 0} (k : ℕ) (m : Exec A) where
    pub stays : Keeps (Ledger id k 0) m → Spends k m
    stays km = Turns-Keeps m km (Ledger-weaken id k 0) (Ledger-weaken id k 0)

    pub then-Spends :
        {B : Type 0} (f : A → Exec B)
        → Keeps (Ledger id k 0) m
        → ((a : A) → Spends k (f a))
        → Spends k (m >>= f)
    then-Spends f km kf = Turns-bind m f (Turns-Keeps m km (λ s l. l) (Ledger-weaken id k 0)) kf

    pub after-Spends :
        {B : Type 0} (f : A → Exec B)
        → Spends k m
        → ((a : A) → Keeps (Ledger id 0 0) (f a))
        → Spends k (m >>= f)
    after-Spends f km kf = Turns-bind m f km (λ a. Turns-Keeps (f a) (kf a) (λ s l. l) (λ s l. l))

  pub charge-Spends :
      (wanted : String) (c : Call)
      → is_charge id c ≡ (wanted == id)
      → Spends (credit wanted id) (call c)
  charge-Spends wanted c same = elim (Bool-cases (wanted == id)) [
    | inl e ↦ rw e (call-charges id c)
    | inr e ↦ rw e (stays 0 (call c) (call-Keeps id 0 0 c (same ∙ e)))
  ]

module _ (id : String) (h : Host) (now : ℕ) (auth : BoundedAuthorization) (agent : Agent)
    (parent : Option ParentAuthority) (causal : Detail) where
  agentic_answer-Keeps :
      (ref : String) → Keeps (Ledger id 0 0) (agentic_answer h now auth agent parent causal ref)
  unfolding agentic_answer
  agentic_answer-Keeps ref = search keeps_rules depth 40

  audit_submitted-Keeps :
      (old : Option ProviderTransaction) (ref : String)
      → Keeps (Ledger id 0 0) (audit_submitted h now auth agent parent causal old ref)
  unfolding audit_submitted
  audit_submitted-Keeps old ref = search (keeps_rules, audit-Keeps)

  confirm_readback-Keeps :
      (agentic : AgenticAnswers) (ref : String)
      → Keeps (Ledger id 0 0) (confirm_readback h now auth agent parent causal agentic ref)
  unfolding confirm_readback
  confirm_readback-Keeps agentic ref =
      search
        (
          keeps_rules, audit-Keeps, commit-Keeps, set_error-Keeps, modify_txn-Keeps,
          transition_txn-Keeps, agentic_answer-Keeps,
        )
        depth 40

  stop_at-Keeps :
      (ref : String) (to : TxnState) (m : Message)
      → Keeps (Ledger id 0 0) (stop_at h now auth agent parent causal ref to m)
  unfolding stop_at
  stop_at-Keeps ref to m =
      search
        (keeps_rules, commit-Keeps, set_error-Keeps, transition_txn-Keeps, agentic_answer-Keeps)
        depth 40

  after_capture-Keeps :
      (agentic : AgenticAnswers) (ref raw : String)
      → Keeps (Ledger id 0 0) (after_capture h now auth agent parent causal agentic ref raw)
  unfolding after_capture
  after_capture-Keeps agentic ref raw =
      search (keeps_rules, transition_txn-Keeps, confirm_readback-Keeps, stop_at-Keeps) depth 40

  -- The capture of what was authorized is no further charge.
  submit_and_capture-Keeps :
      (agentic : AgenticAnswers) (ref : String)
      → Keeps (Ledger id 0 0) (submit_and_capture h now auth agent parent causal agentic ref)
  unfolding submit_and_capture
  submit_and_capture-Keeps agentic ref = Keeps-bind _ _ (Keeps-gets _) (λ old.
      Keeps-bind _ _ (transition_txn-Keeps id 0 _ _) (λ t.
        Keeps-bind _ _ (modify_txn-Keeps id 0 _ _) (λ u.
          Keeps-bind _ _ (audit_submitted-Keeps old ref) (λ v.
            Keeps-bind _ _
              (Keeps-catch _ _
                (Keeps-bind _ _ (call-Keeps id 0 0 _ refl)
                  (λ c. Keeps-bind _ _ (Keeps-answer _) (λ s. Keeps-pure _)))
                (λ e. Keeps-bind _ _ (close_with-Keeps id 0 _ _ _) (λ w. Keeps-pure _)))
              (λ status.
                Keeps-elim status _ _ (agentic_answer-Keeps ref)
                  (λ s. after_capture-Keeps agentic ref s))))))

  consume_agentic_settlement-Spends :
      (agentic : AgenticAnswers)
      → Spends id
          (credit auth.authorization_id id)
          (consume_agentic_settlement h now auth agent parent causal agentic)
  unfolding consume_agentic_settlement
  consume_agentic_settlement-Spends agentic =
      let k = credit auth.authorization_id id in
      then-Spends id k _ _ (Keeps-gets _) (λ found.
        Turns-elim found _ _
          (stays id k _ (Keeps-bind _ _ (close_with-Keeps id k _ _ _) (λ u. Keeps-raise _)))
          (λ binding. then-Spends id k _ _ (Keeps-answer _) (λ valid.
            Turns-if (not valid) _ _
              (stays id k _ (Keeps-bind _ _ (close_with-Keeps id k _ _ _) (λ u. Keeps-raise _)))
              (after-Spends id k _ _ (charge-Spends id auth.authorization_id _ refl) (λ u.
                Keeps-bind _ _ (Keeps-answer _) (λ paid_as.
                  Keeps-bind _ _ (Keeps-require _ _)
                    (λ ref. submit_and_capture-Keeps agentic ref)))))))

module _ (id : String) (h : Host) (env : Environment) (now : ℕ) (w : ConsumeAnswers)
    (auth : BoundedAuthorization) (agent : Agent) (parent : Option ParentAuthority)
    (causal : Detail) where
  accept_order-Keeps :
      (order : ProviderOrder)
      → Keeps (Ledger id 0 0) (accept_order h env now w auth agent parent causal order)
  unfolding accept_order
  accept_order-Keeps order =
      search (keeps_rules, audit-Keeps, commit-Keeps, modify_txn-Keeps, transition_txn-Keeps) depth
        40

  refuse_order-Keeps :
      (order : ProviderOrder)
      → Keeps (Ledger id 0 0) (
          if not (provider_order_matches h auth order)
          then (do
            transition_txn auth.authorization_id failed
            set_error auth.authorization_id
                (says "Provider order did not match authorization bounds")
            commit
            raise (http 502 (says "Provider order failed Paari authorization integrity checks")))
          else accept_order h env now w auth agent parent causal order)
  refuse_order-Keeps order =
      search (keeps_rules, commit-Keeps, set_error-Keeps, transition_txn-Keeps, accept_order-Keeps)
        depth 40

  create_order-Spends :
      Spends id
        (credit auth.authorization_id id)
        (create_order h env now w auth agent parent causal)
  unfolding create_order
  create_order-Spends =
      let k = credit auth.authorization_id id in
      then-Spends id k _ _ (Keeps-answer _) (λ u.
        after-Spends id k _ _ (charge-Spends id auth.authorization_id _ refl)
          (λ v. Keeps-bind _ _ (Keeps-answer _) (λ order. refuse_order-Keeps order)))

  agentic_failure-Keeps :
      (e : Exn) → Keeps (Ledger id 0 0) (agentic_failure h env now w auth agent parent causal e)
  unfolding agentic_failure
  agentic_failure-Keeps (timeout e) = search (keeps_rules, close_with-Keeps)
  agentic_failure-Keeps (http status detail) = search (keeps_rules)
  agentic_failure-Keeps (paari status code detail) = search (keeps_rules)
  agentic_failure-Keeps (not_configured e) = search (keeps_rules, close_with-Keeps)
  agentic_failure-Keeps (other e) = search (keeps_rules, close_with-Keeps)
  agentic_failure-Keeps agentic_unavailable = search (keeps_rules, close_with-Keeps)

  choose_path-Spends :
      (agentic : AgenticAnswers) (posture : MandatePolicy)
      → Spends id
          (credit auth.authorization_id id)
          (choose_path h env now w auth agent parent causal agentic posture)
  unfolding choose_path no_autonomous_provider
  choose_path-Spends agentic posture =
      Turns-if _ _ _
        (Turns-catch _ _
          (consume_agentic_settlement-Spends id h now auth agent parent causal agentic)
          (λ e. stays id 0 _ (agentic_failure-Keeps e)))
        (Turns-if _ _ _
          (stays id _ _ (Keeps-bind _ _ (close_with-Keeps id _ _ _ _) (λ u. Keeps-raise _)))
          create_order-Spends)

  execution_failure-Keeps :
      (e : Exn) → Keeps (Ledger id 0 0) (execution_failure h env now w auth agent parent causal e)
  unfolding execution_failure
  execution_failure-Keeps (timeout e) =
      search (keeps_rules, try_transition-Keeps, modify_txn-Keeps, commit-Keeps) depth 20
  execution_failure-Keeps (http status detail) = search (keeps_rules)
  execution_failure-Keeps (paari status code detail) = search (keeps_rules)
  execution_failure-Keeps (not_configured e) = search (keeps_rules, close_with-Keeps)
  execution_failure-Keeps (other e) =
      search (keeps_rules, try_transition-Keeps, modify_txn-Keeps, commit-Keeps) depth 20
  execution_failure-Keeps agentic_unavailable = search (keeps_rules, close_with-Keeps)

  -- The `try` with its handlers.
  pub execute-Spends : Spends id (credit auth.authorization_id id) (
      catch
        (execute h env now w auth agent parent causal)
        (execution_failure h env now w auth agent parent causal))
  unfolding execute
  execute-Spends =
      let k = credit auth.authorization_id id in
      Turns-catch _ _
        (then-Spends id k _ _ (Keeps-answer _) (λ agentic.
          then-Spends id k _ _ (mandate_policy-Keeps id k h env)
            (λ posture. choose_path-Spends agentic posture)))
        (λ e. stays id 0 _ (execution_failure-Keeps e))
