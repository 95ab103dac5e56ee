-- ===== src/Payments/Consume/SingleUse.antt =====
-- One authorization is charged at most once: the account of `Ledger` through the whole of
-- `consume_authorization`.
use paari_payments_protocol.Prelude.{
  number_eq, text_eq, ℕ, String, ◌≡◌, refl, sym, some, ◌==◌, first, first_holds, List,
}
use paari_payments_protocol.Models.Rows.{BoundedAuthorization}
use paari_payments_protocol.Host.{Host}
use paari_payments_protocol.Config.{Environment}
use paari_payments_protocol.Audit
use paari_payments_protocol.Exec.{
  Exec, Result, ok, err, Session, ◌>>=◌, ◌>>◌, ◌>>=◌, gets, ◌>>◌, catch,
}
use paari_payments_protocol.Exec.Keeps.{
  Keeps, Keeps-find, Post, Turns, Turns-bind, Turns-Keeps, Keeps-gets, Keeps-elim, Keeps-bind,
  Keeps-pure,
}
use paari_payments_protocol.Payments.Authenticate.{
  resolve_session_token, parent_for, authenticate, HttpRequest,
}
use paari_payments_protocol.Payments.Records.{record_provider_txn}
use paari_payments_protocol.Payments.Execution.{revalidate_execution, modify_txn}
use paari_payments_protocol.Payments.Consume.{
  find_authorization, consume_authorization, reserve, execute, execution_failure, begin_attempt,
  ConsumeAnswers,
}
use paari_payments_protocol.Payments.Consume.Ledger.{
  Ledger, Ledger-weaken, modify-Ledger, commit-Ledger,
}
use paari_payments_protocol.Payments.Consume.Guards.{
  resolve_session_token-Keeps, authenticate-Keeps, revalidate_execution-Keeps,
}
use paari_payments_protocol.Payments.Consume.Reserve.{credit, reserve-Turns}
use paari_payments_protocol.Payments.Consume.Paths.{Spends, execute-Spends, then-Spends}

module _ (id : String) where
  -- The reserved use is committed before any provider is reached.
  begin_attempt-Turns :
      (c : ℕ) (h : Host) (now : ℕ) (auth : BoundedAuthorization)
      → Turns (Ledger id 0 c) (Ledger id c 0) (Ledger id 0 0) (begin_attempt h now auth)
  unfolding begin_attempt record_provider_txn modify_txn
  begin_attempt-Turns c h now auth =
      let weaken = Ledger-weaken id 0 c in
      Turns-bind _ _ (Turns-Keeps _ (Keeps-gets _) (λ s l. l) weaken) (λ row.
        Turns-bind _ _
          (Turns-Keeps _
            (Keeps-elim row _ _
              (Keeps-bind _ _
                (Keeps-bind _ _ (modify-Ledger id 0 c _ (λ db. refl)) (λ u. Keeps-pure _))
                (λ u. Keeps-pure _))
              (λ t. Keeps-pure _))
            (λ s l. l) weaken)
          (λ u.
            Turns-bind _ _ (Turns-Keeps _ (modify-Ledger id 0 c _ (λ db. refl)) (λ s l. l) weaken)
              (λ v. commit-Ledger id c)))

  settles : {A : Type 0} {m : Exec A} → Spends id 0 m → Keeps (Ledger id 0 0) m
  settles {A} {m} t = record { holds = λ s p. go (m s).0 (m s).1 (t.holds s p) }
    where
      go : (r : Result A) (s : Session) → Post (Ledger id 0 0) (Ledger id 0 0) r s → Ledger id 0 0 s
      go (ok a) s p = p
      go (err e) s p = p

  -- From the authorization on.
  consume_found :
      (h : Host) (env : Environment) (q : HttpRequest) (w : ConsumeAnswers) (wanted : String)
      (auth : BoundedAuthorization)
      → auth.authorization_id ≡ wanted
      → Spends id 0 (do
        token ← resolve_session_token h q
        authenticate h env q token (some auth.agent_id)
        agent ← revalidate_execution h env q.now auth
        reserve wanted
        begin_attempt h q.now auth
        parent ← gets (parent_for agent)
        causal ← gets λ db. Audit.causal_labels db auth.intent_id
        catch
            (execute h env q.now w auth agent parent causal)
            (execution_failure h env q.now w auth agent parent causal))
  consume_found h env q w wanted auth same =
      then-Spends id 0 _ _ (resolve_session_token-Keeps id 0 h q) (λ token.
        then-Spends id 0 _ _ (authenticate-Keeps id 0 h env q token _) (λ u.
          then-Spends id 0 _ _ (revalidate_execution-Keeps id 0 h env q.now auth) (λ agent.
            Turns-bind _ _ (reserve-Turns id wanted) (λ v.
              Turns-bind _ _ (begin_attempt-Turns (credit wanted id) h q.now auth) (λ x.
                rw (sym same) (
                  then-Spends id (credit auth.authorization_id id) _ _ (Keeps-gets _) (λ parent.
                    then-Spends id (credit auth.authorization_id id) _ _ (Keeps-gets _)
                      (λ causal. execute-Spends id h env q.now w auth agent parent causal))))))))

  pub consume-Keeps :
      (h : Host) (env : Environment) (q : HttpRequest) (w : ConsumeAnswers) (wanted : String)
      → Keeps (Ledger id 0 0) (consume_authorization h env q w wanted)
  unfolding consume_authorization
  consume-Keeps h env q w wanted =
      Keeps-find {Q = λ auth. auth.authorization_id ≡ wanted} (find_authorization wanted) _ _
        (λ db auth eq. is_wanted db.authorizations auth eq)
        λ auth same. settles (consume_found h env q w wanted auth same)
    where
      is_wanted :
          (rows : List BoundedAuthorization) (auth : BoundedAuthorization)
          → first (λ (a : BoundedAuthorization). a.authorization_id == wanted) rows ≡ some auth
          → auth.authorization_id ≡ wanted
      is_wanted rows auth eq =
          ((text_eq.same_iff auth.authorization_id wanted).0) (first_holds _ rows auth eq)
