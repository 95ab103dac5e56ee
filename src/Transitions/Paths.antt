-- ===== src/Transitions/Paths.antt =====
-- Runs of app/transitions.py: what a sequence of accepted transitions can and cannot do.
use paari_payments_protocol.Prelude.{
  ◌≡◌, refl, ◌⊎◌, ◌↔◌, inl, inr, ◌||◌, Bool-cases, true, false, some, List, [], ◌∷◌, arith,
  number_eq, text_eq,
}
use paari_payments_protocol.Transitions.{
  TxnState, authorized, paid, refunded, reversed, is_terminal, transition, is_state, member,
}

-- The targets handed to `transition_txn` one after another, each of them accepted.
pub data Run : TxnState → List TxnState → TxnState → Type 0 where
  stop : {s : TxnState} → Run s [] s
  step :
      {s t u : TxnState} {ts : List TxnState}
      → transition s t ≡ some t
      → Run t ts u
      → Run s (t ∷ ts) u

abbrev pub IsSettled : TxnState → Type 0
IsSettled s = (s ≡ paid) ⊎ (s ≡ refunded) ⊎ (s ≡ reversed)

IsSettled-step : (s t : TxnState) → IsSettled s → transition s t ≡ some t → IsSettled t
unfolding transition
IsSettled-step s t h e = ground arith

Run-IsSettled : {s u : TxnState} {ts : List TxnState} → Run s ts u → IsSettled s → IsSettled u
Run-IsSettled stop h = h
Run-IsSettled (step {s = s} {t = t} e p) h = Run-IsSettled p (IsSettled-step s t h e)

-- A transaction that is paid never reopens: every sequence of accepted transitions from PAID ends
-- in PAID, REFUNDED or REVERSED.
pub paid_is_final : {ts : List TxnState} {u : TxnState} → Run paid ts u → IsSettled u
paid_is_final p = Run-IsSettled p (inl refl)

abbrev IsUnpaid : TxnState → Type 0
IsUnpaid s = is_state s paid || is_state s refunded || is_state s reversed ≡ false

IsUnpaid-step :
    (s t : TxnState) → IsUnpaid s → transition s t ≡ some t → is_state t paid ≡ false → IsUnpaid t
unfolding transition
IsUnpaid-step s t h e n = ground arith

settled_after_paid :
    {s u : TxnState} {ts : List TxnState}
    → Run s ts u
    → IsUnpaid s
    → IsSettled u
    → member paid ts ≡ true
settled_after_paid stop n h = ground arith
settled_after_paid (step {s = s} {t = t} {ts = ts} e p) n h = elim (Bool-cases (is_state t paid)) [
  | inl y ↦ ground arith
  | inr x ↦ ground (arith, settled_after_paid p (IsUnpaid-step s t n e x) h)
]

-- Money is refunded or reversed only after it was paid: every sequence of accepted transitions from
-- AUTHORIZED to REFUNDED passes through PAID.
pub refund_needs_paid : {ts : List TxnState} → Run authorized ts refunded → member paid ts ≡ true
refund_needs_paid p = settled_after_paid p refl (inr (inl refl))

-- PAID is the one terminal state that accepts transitions, and it accepts exactly those to REFUNDED
-- and to REVERSED.
pub terminal_accepts :
    (s t : TxnState)
    → is_terminal s ≡ true
    → (transition s t ≡ some t) ↔ ((s ≡ paid) × ((t ≡ refunded) ⊎ (t ≡ reversed)))
unfolding transition
terminal_accepts s t h = ground arith
