-- ===== src/Payments/Webhook/Announced.antt =====
-- What the reads of app/reconcile.py say, and which of its attempts they confirm.
use paari_payments_protocol.Prelude.{
  refl, ◌||◌, ◌==◌, number_eq, text_eq, length, select, get_last?, ℕ, String, ◌≡◌, Bool, false,
  ◌||◌, Option, none, some, List, arith,
}
use paari_payments_protocol.Transitions.{is_state, paid}
use paari_payments_protocol.Models.Rows.{ProviderTransaction, Db}
use paari_payments_protocol.Host.{Host}
use paari_payments_protocol.Mandates.Signature.{present}
use paari_payments_protocol.Payments.Settlement.{ProviderPayment}
use paari_payments_protocol.Reconcile.{Read, got, lost, ReadAnswers, read_payment}

abbrev pub is_paid : ProviderTransaction → Bool
is_paid t = is_state t.state paid

-- How many transactions are paid.
abbrev pub paid_rows : Db → ℕ
paid_rows db = length (select is_paid db.transactions)

-- Does this read say `captured`?
abbrev pub says_captured : Host → Read (Option ProviderPayment) → Bool
says_captured h (lost e) = false
says_captured h (got none) = false
says_captured h (got (some p)) = h.lower p.status == "captured"

abbrev pub last_attempt : Read (List ProviderPayment) → Read (Option ProviderPayment)
last_attempt (lost e) = lost e
last_attempt (got attempts) = got (get_last? attempts)

-- Does a read of the payment, or of the last attempt on the order, say `captured`?
abbrev pub reads_captured : Host → ReadAnswers → Bool
reads_captured h w =
    says_captured h w.get_payment || says_captured h (last_attempt w.fetch_payments)

pub read_payment-captured :
    (h : Host) (w : ReadAnswers) (payment_id order_id : Option String)
    → reads_captured h w ≡ false
    → says_captured h (read_payment w payment_id order_id) ≡ false
unfolding read_payment
read_payment-captured h w payment_id order_id e = by_ids (present payment_id) (present order_id)
  where
    by_ids :
        (p o : Option String)
        → says_captured h (elim p [
          | some x ↦ w.get_payment
          | none ↦ elim o [
            | none ↦ got none
            | some y ↦ elim w.fetch_payments [
              | lost m ↦ lost m
              | got attempts ↦ got (get_last? attempts)
            ]
          ]
        ])
          ≡ false
    by_ids (some x) o = ground (arith, e)
    by_ids none none = refl
    by_ids none (some y) = ground (arith, e)
