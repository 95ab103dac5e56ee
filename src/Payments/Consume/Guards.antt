-- ===== src/Payments/Consume/Guards.antt =====
-- The guards of `consume_authorization`, and the updates of its rows, leave the account of every
-- authorization as it is.
use paari_payments_protocol.Prelude.{
  none, some, [], ◌∷◌, ◌++◌, number_eq, text_eq, ℕ, String, refl, Bool, Option,
}
use paari_payments_protocol.Models.Rows.{
  RequestProof, BoundedAuthorization, Message, ProviderTransaction,
}
use paari_payments_protocol.Host.{SessionClaims, Host}
use paari_payments_protocol.Audit
use paari_payments_protocol.Transitions.{TxnState}
use paari_payments_protocol.Exec.{modify, audit}
use paari_payments_protocol.Exec.Keeps.{
  Keeps-gets, Keeps-require, Keeps-raise_if, Keeps-elim, Keeps-raise, Keeps-pure, Keeps-bind, Keeps,
  keeps_rules,
}
use paari_payments_protocol.Models.{Agent, UserPaymentMandate}
use paari_payments_protocol.Config.{mandate_policy, Environment}
use paari_payments_protocol.Payments.Authenticate.{
  resolve_session_token, verify_request_proof, check_proof, authenticate, HttpRequest,
}
use paari_payments_protocol.Payments.Records.{record_provider_txn}
use paari_payments_protocol.Payments.Execution.{
  revalidate_mandate, revalidate_execution, modify_txn, transition_txn, try_transition, set_error,
  close_with,
}
use paari_payments_protocol.Payments.Consume.Ledger.{modify-Ledger, commit-Keeps, Ledger}

module _ (id : String) (k : ℕ) where
  pub audit-Keeps : (h : Host) (now : ℕ) (e : Audit.Entry) → Keeps (Ledger id k 0) (audit h now e)
  unfolding audit Audit.record_audit
  audit-Keeps h now e = modify-Ledger id k 0 _ (λ db. refl)

  pub modify_txn-Keeps :
      (wanted : String) (f : ProviderTransaction → ProviderTransaction)
      → Keeps (Ledger id k 0) (modify_txn wanted f)
  unfolding modify_txn
  modify_txn-Keeps wanted f = modify-Ledger id k 0 _ (λ db. refl)

  pub transition_txn-Keeps :
      (wanted : String) (to : TxnState) → Keeps (Ledger id k 0) (transition_txn wanted to)
  unfolding transition_txn
  transition_txn-Keeps wanted to = search (keeps_rules, modify_txn-Keeps)

  pub try_transition-Keeps :
      (wanted : String) (to : TxnState) → Keeps (Ledger id k 0) (try_transition wanted to)
  unfolding try_transition
  try_transition-Keeps wanted to = search (keeps_rules, modify_txn-Keeps)

  pub set_error-Keeps : (wanted : String) (m : Message) → Keeps (Ledger id k 0) (set_error wanted m)
  unfolding set_error
  set_error-Keeps wanted m = search (keeps_rules, modify_txn-Keeps)

  pub close_with-Keeps :
      (wanted : String) (to : TxnState) (m : Message)
      → Keeps (Ledger id k 0) (close_with wanted to m)
  unfolding close_with
  close_with-Keeps wanted to m =
      search (keeps_rules, try_transition-Keeps, set_error-Keeps, commit-Keeps)

  pub record_provider_txn-Keeps :
      (h : Host) (now : ℕ) (auth : BoundedAuthorization)
      → Keeps (Ledger id k 0) (record_provider_txn h now auth)
  unfolding record_provider_txn
  record_provider_txn-Keeps h now auth =
      Keeps-bind _ _ (modify-Ledger id k 0 _ (λ db. refl)) (λ u. Keeps-pure _)

  pub mandate_policy-Keeps :
      (h : Host) (env : Environment) → Keeps (Ledger id k 0) (mandate_policy h env)
  unfolding mandate_policy
  mandate_policy-Keeps h env = Keeps-elim _ _ _ (Keeps-raise _) (λ b. Keeps-pure _)

  pub resolve_session_token-Keeps :
      (h : Host) (q : HttpRequest) → Keeps (Ledger id k 0) (resolve_session_token h q)
  unfolding resolve_session_token
  resolve_session_token-Keeps h q = search keeps_rules

  verify_request_proof-Keeps :
      (h : Host) (q : HttpRequest) (token : String) (agent : Agent) (key : String)
      → Keeps (Ledger id k 0) (verify_request_proof h q token agent key)
  unfolding verify_request_proof
  verify_request_proof-Keeps h q token agent key = search (keeps_rules, add_proof)
    where
      add_proof :
          (r : RequestProof)
          → Keeps
              (Ledger id k 0)
              (modify λ db. record db { request_proofs = db.request_proofs ++ r ∷ [] })
      add_proof r = modify-Ledger id k 0 _ (λ db. refl)

  check_proof-Keeps :
      (h : Host) (env : Environment) (q : HttpRequest) (token : String) (agent : Agent)
      (claims : SessionClaims)
      → Keeps (Ledger id k 0) (check_proof h env q token agent claims)
  unfolding check_proof
  check_proof-Keeps h env q token agent claims = search (keeps_rules, verify_request_proof-Keeps)

  pub authenticate-Keeps :
      (h : Host) (env : Environment) (q : HttpRequest) (token : String) (expected : Option String)
      → Keeps (Ledger id k 0) (authenticate h env q token expected)
  unfolding authenticate
  authenticate-Keeps h env q token expected = search (keeps_rules, check_proof-Keeps) depth 40

  revalidate_mandate-Keeps :
      (h : Host) (env : Environment) (now : ℕ) (auth : BoundedAuthorization)
      (m : UserPaymentMandate) (signed : Bool) (category : Option String)
      → Keeps (Ledger id k 0) (revalidate_mandate h env now auth m signed category)
  unfolding revalidate_mandate
  revalidate_mandate-Keeps h env now auth m signed category = search keeps_rules depth 40

  pub revalidate_execution-Keeps :
      (h : Host) (env : Environment) (now : ℕ) (auth : BoundedAuthorization)
      → Keeps (Ledger id k 0) (revalidate_execution h env now auth)
  unfolding revalidate_execution
  revalidate_execution-Keeps h env now auth = Keeps-bind _ _ (Keeps-gets _) (λ known.
      Keeps-bind _ _ (Keeps-require _ _) (λ agent. Keeps-bind _ _ (Keeps-gets _) (λ parent.
        Keeps-bind _ _ (Keeps-require _ _) (λ p. Keeps-bind _ _ (Keeps-raise_if _ _) (λ u.
          Keeps-bind _ _ (Keeps-gets _) (λ credential. Keeps-bind _ _ (Keeps-require _ _) (λ c.
            Keeps-bind _ _ (Keeps-raise_if _ _) (λ v. Keeps-elim _ _ _ (Keeps-pure _) (λ mandate_id.
              Keeps-bind _ _ (Keeps-gets _) (λ row. Keeps-bind _ _ (Keeps-require _ _) (λ m.
                Keeps-bind _ _ (mandate_policy-Keeps h env) (λ posture.
                  Keeps-bind _ _ (Keeps-gets _) (λ intent.
                    Keeps-bind _ _
                      (revalidate_mandate-Keeps h env now auth m _
                        (elim intent [ none ↦ none | some i ↦ i.merchant_category ]))
                      (λ w. Keeps-pure agent))))))))))))))
