-- ===== src/Reconcile/Worker.antt =====
-- `_run_batch` of app/reconcile_worker.py, and `reconcile_pending` of app/reconcile.py: rows that are
-- not in a terminal state are asked about again. The thread, the interval, the logger and the alert
-- sink are left out.
use paari_payments_protocol.Prelude.{
  if◌then◌else◌, ◌==◌, number_eq, text_eq, leb, select, length, ℕ, zero, suc, ◌+◌, String, not,
  none, some, List, [], ◌∷◌,
}
use paari_payments_protocol.Transitions.{is_terminal, provider_unknown}
use paari_payments_protocol.Models.Rows.{ProviderTransaction, Db, says, str, num, txn_state}
use paari_payments_protocol.Host.{Host}
use paari_payments_protocol.Exec.{Exec, pure, gets, ◌>>=◌, ◌>>◌, commit, require, catch, exn_text}
use paari_payments_protocol.Payments.Execution.{find_txn, modify_txn, no_row, set_error}
use paari_payments_protocol.Reconcile.{ReadAnswers, reconcile_one, attempt_transition, audit_txn}

-- The rows that are not in a terminal state.
abbrev pub open_transactions : Db → List ProviderTransaction
open_transactions db =
    select (λ (t : ProviderTransaction). not (is_terminal t.state)) db.transactions

abbrev pub take : List ProviderTransaction → ℕ → List ProviderTransaction
take xs zero = []
take [] (suc n) = []
take (x ∷ xs) (suc n) = x ∷ take xs n

abbrev dead_letter_text : String
dead_letter_text = "dead-letter: exceeded max reconcile attempts"

module _ (h : Host) (now : ℕ) where
  -- The end of the attempts: the execution is unknown, if the row may still become so.
  unfoldable pub dead_letter : ProviderTransaction → Exec Unit
  dead_letter t = do
    moved ← attempt_transition t.authorization_id provider_unknown
    if moved
        then audit_txn h now t "reconcile_dead_letter" (
            ("from_state", txn_state t.state)
            ∷ ("to_state", txn_state provider_unknown)
            ∷ ("attempts", num t.attempts)
            ∷ ("reason", str dead_letter_text)
            ∷ [])
        else pure tt
    set_error t.authorization_id (says dead_letter_text)

  -- A row that was not settled: the attempt is counted, and too many end it.
  unfoldable pub count_attempt : ℕ → String → Exec Unit
  unfolding dead_letter
  count_attempt dead_letter_after id = do
    modify_txn id λ t. record t { attempts = t.attempts + 1 }
    row ← gets (find_txn id)
    t ← require row no_row
    if leb dead_letter_after t.attempts then dead_letter t else pure tt
    commit

  -- One row; an exception of the reconciliation is kept on the row.
  unfoldable pub run_one : ℕ → (String → ReadAnswers) → ProviderTransaction → Exec Unit
  unfolding count_attempt
  run_one dead_letter_after world t = do
    settled ←
        catch
          (do
            o ← reconcile_one h now (world t.authorization_id) t.authorization_id
            pure (some (o.status == "reconciled")))
          (λ e. do set_error t.authorization_id (says (exn_text e)); commit; pure none)
    elim settled [
      | none ↦ pure tt
      | some yes_settled ↦
          if yes_settled then pure tt else count_attempt dead_letter_after t.authorization_id
    ]

  unfoldable pub run_rows : ℕ → (String → ReadAnswers) → List ProviderTransaction → Exec Unit
  unfolding run_one
  run_rows dead_letter_after world [] = pure tt
  run_rows dead_letter_after world (t ∷ ts) = do
    run_one dead_letter_after world t
    run_rows dead_letter_after world ts

  -- `_run_batch`
  unfoldable pub run_batch : ℕ → (String → ReadAnswers) → Exec Unit
  unfolding run_rows
  run_batch dead_letter_after world = do
    rows ← gets open_transactions
    run_rows dead_letter_after world rows

  -- `reconcile_pending`: how many rows were looked at, and how many of them were settled
  unfoldable pub reconcile_rows : (String → ReadAnswers) → List ProviderTransaction → Exec ℕ
  reconcile_rows world [] = pure 0
  reconcile_rows world (t ∷ ts) = do
    o ← reconcile_one h now (world t.authorization_id) t.authorization_id
    n ← reconcile_rows world ts
    pure (if o.status == "reconciled" then n + 1 else n)

  unfoldable pub reconcile_pending : ℕ → (String → ReadAnswers) → Exec (ℕ × ℕ)
  unfolding reconcile_rows
  reconcile_pending limit world = do
    open_rows ← gets open_transactions
    let rows = take open_rows limit
    n ← reconcile_rows world rows
    pure (length rows, n)
