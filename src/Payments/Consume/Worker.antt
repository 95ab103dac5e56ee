-- ===== src/Payments/Consume/Worker.antt =====
-- The reconciliation worker leaves the account of every authorization as it is.
use paari_payments_protocol.Prelude.{number_eq, text_eq, ℕ, String, List, [], ◌∷◌}
use paari_payments_protocol.Models.Rows.{ProviderTransaction}
use paari_payments_protocol.Host.{Host}
use paari_payments_protocol.Exec.Keeps.{
  Keeps, keeps_rules, Keeps-bind, Keeps-gets, Keeps-if, Keeps-elim, Keeps-pure, Keeps-catch,
}
use paari_payments_protocol.Payments.Consume.Ledger.{Ledger, commit-Keeps}
use paari_payments_protocol.Payments.Consume.Guards.{
  modify_txn-Keeps, set_error-Keeps, authenticate-Keeps, resolve_session_token-Keeps,
}
use paari_payments_protocol.Payments.Consume.Reads.{
  attempt_transition-Keeps, audit_txn-Keeps, reconcile_one-Keeps,
}
use paari_payments_protocol.Reconcile.{ReadAnswers}
use paari_payments_protocol.Reconcile.Manual.{manual_reconcile}
use paari_payments_protocol.Config.{Environment}
use paari_payments_protocol.Payments.Authenticate.{HttpRequest}
use paari_payments_protocol.Reconcile.Worker.{
  dead_letter, count_attempt, run_one, run_rows, run_batch, reconcile_rows, reconcile_pending,
}

module _ (id : String) (h : Host) (now : ℕ) where
  dead_letter-Keeps : (t : ProviderTransaction) → Keeps (Ledger id 0 0) (dead_letter h now t)
  unfolding dead_letter
  dead_letter-Keeps t =
      search (keeps_rules, attempt_transition-Keeps, audit_txn-Keeps, set_error-Keeps) depth 20

  count_attempt-Keeps :
      (n : ℕ) (wanted : String) → Keeps (Ledger id 0 0) (count_attempt h now n wanted)
  unfolding count_attempt
  count_attempt-Keeps n wanted =
      search (keeps_rules, modify_txn-Keeps, dead_letter-Keeps, commit-Keeps) depth 20

  run_one-Keeps :
      (n : ℕ) (world : String → ReadAnswers) (t : ProviderTransaction)
      → Keeps (Ledger id 0 0) (run_one h now n world t)
  unfolding run_one
  run_one-Keeps n world t =
      Keeps-bind _ _
        (Keeps-catch _ _ (Keeps-bind _ _ (reconcile_one-Keeps id h now _ _) (λ o. Keeps-pure _))
          (λ e.
            Keeps-bind _ _ (set_error-Keeps id 0 _ _)
              (λ u. Keeps-bind _ _ (commit-Keeps id 0) (λ v. Keeps-pure _))))
        (λ settled.
          Keeps-elim settled _ _ (Keeps-pure _)
            (λ b. Keeps-if b _ _ (Keeps-pure _) (count_attempt-Keeps n _)))

  run_rows-Keeps :
      (n : ℕ) (world : String → ReadAnswers) (ts : List ProviderTransaction)
      → Keeps (Ledger id 0 0) (run_rows h now n world ts)
  unfolding run_rows
  run_rows-Keeps n world [] = Keeps-pure _
  run_rows-Keeps n world (t ∷ ts) =
      Keeps-bind _ _ (run_one-Keeps n world t) (λ u. run_rows-Keeps n world ts)

  pub run_batch-Keeps :
      (n : ℕ) (world : String → ReadAnswers) → Keeps (Ledger id 0 0) (run_batch h now n world)
  unfolding run_batch
  run_batch-Keeps n world = Keeps-bind _ _ (Keeps-gets _) (λ rows. run_rows-Keeps n world rows)

  reconcile_rows-Keeps :
      (world : String → ReadAnswers) (ts : List ProviderTransaction)
      → Keeps (Ledger id 0 0) (reconcile_rows h now world ts)
  unfolding reconcile_rows
  reconcile_rows-Keeps world [] = Keeps-pure _
  reconcile_rows-Keeps world (t ∷ ts) =
      Keeps-bind _ _ (reconcile_one-Keeps id h now _ _)
        (λ o. Keeps-bind _ _ (reconcile_rows-Keeps world ts) (λ n. Keeps-pure _))

  pub reconcile_pending-Keeps :
      (limit : ℕ) (world : String → ReadAnswers)
      → Keeps (Ledger id 0 0) (reconcile_pending h now limit world)
  unfolding reconcile_pending
  reconcile_pending-Keeps limit world =
      Keeps-bind _ _ (Keeps-gets _)
        (λ rows. Keeps-bind _ _ (reconcile_rows-Keeps world _) (λ n. Keeps-pure _))

  pub manual_reconcile-Keeps :
      (env : Environment) (q : HttpRequest) (w : ReadAnswers) (wanted : String)
      → Keeps (Ledger id 0 0) (manual_reconcile h env q w wanted)
  unfolding manual_reconcile
  manual_reconcile-Keeps env q w wanted =
      search (keeps_rules, resolve_session_token-Keeps, authenticate-Keeps, reconcile_one-Keeps)
        depth 20
