-- ===== src/Mandates/Sweep.antt =====
-- app/mandates.py: the lifecycle sweepers. Each commits what it changes, so that it is a function of
-- the committed database, with the number of rows that it changed.
pub mod Release
use Prim.Native.String.{◌++◌ as text_append}
use paari_payments_protocol.Prelude.{
  leb, ◌==◌, text_eq, number_eq, select, length, update_where, ℕ, String, Bool, false, ◌&&◌, Option,
  none, some, List, [], ◌∷◌, ◌++◌, map,
}
use paari_payments_protocol.Governance.{is_review, deny, review_window_expired}
use paari_payments_protocol.Models.{UserPaymentMandate, MandateStatus, is_active_mandate}
use paari_payments_protocol.Models.Rows.{Db, PaymentIntent, str}
use paari_payments_protocol.Host.{Host}
use paari_payments_protocol.Audit

-- The audit events of one sweep, in order.
unfoldable pub audit_all : Host → ℕ → List Audit.Entry → Db → Db
audit_all h now [] db = db
audit_all h now (e ∷ es) db = audit_all h now es (Audit.record_audit h now e db)

-- ACTIVE, and past `expires_at`.
abbrev pub is_elapsed : ℕ → UserPaymentMandate → Bool
is_elapsed now m = is_active_mandate m.status && leb m.expires_at now

abbrev pub expire : UserPaymentMandate → UserPaymentMandate
expire m = record m { status = MandateStatus.expired }

unfoldable pub expired_entry : Host → UserPaymentMandate → Audit.Entry
expired_entry h m = record {
  transaction_id = text_append "mandate:" m.mandate_id;
  agent_id = m.agent_id;
  parent_id = none;
  kind = "user_mandate_expired";
  detail = ("mandate_id", str m.mandate_id) ∷ ("expired_at", str (h.isoformat m.expires_at)) ∷ [];
  org_id = some m.org_id;
}

-- `sweep_expired_mandates`
unfoldable pub sweep_expired_mandates : Host → ℕ → Db → ℕ × Db
unfolding expired_entry audit_all
sweep_expired_mandates h now db =
    let rows = select (is_elapsed now) db.mandates in
    (
      length rows,
      audit_all h now (map (expired_entry h) rows)
          (record db { mandates = update_where (is_elapsed now) expire db.mandates }),
    )

-- Whether an optional time has come; NULL has not.
abbrev pub has_come : ℕ → Option ℕ → Bool
has_come now none = false
has_come now (some t) = leb t now

-- A parked REVIEW whose window has closed.
abbrev pub is_stale : ℕ → PaymentIntent → Bool
is_stale now i = is_review i.decision && has_come now i.review_expires_at

abbrev pub lapse : PaymentIntent → PaymentIntent
lapse i = record i { decision = deny; reasons = i.reasons ++ review_window_expired ∷ [] }

abbrev time_text : Host → Option ℕ → String
time_text h none = ""
time_text h (some t) = h.isoformat t

unfoldable pub review_expired_entry : Host → PaymentIntent → Audit.Entry
review_expired_entry h i = record {
  transaction_id = i.transaction_id;
  agent_id = i.agent_id;
  parent_id = none;
  kind = "intent_review_expired";
  detail =
      ("intent_id", str i.intent_id)
      ∷ ("previous_state", str "review")
      ∷ ("current_state", str "deny")
      ∷ ("review_expires_at", str (time_text h i.review_expires_at))
      ∷ [];
  org_id = some i.org_id;
}

-- `expire_stale_reviews`
unfoldable pub expire_stale_reviews : Host → ℕ → Db → ℕ × Db
unfolding review_expired_entry audit_all
expire_stale_reviews h now db =
    let rows = select (is_stale now) db.intents in
    (
      length rows,
      audit_all h now (map (review_expired_entry h) rows)
          (record db { intents = update_where (is_stale now) lapse db.intents }),
    )

-- `run_sweepers`
unfoldable pub run_sweepers : Host → ℕ → Db → ℕ × ℕ × Db
unfolding sweep_expired_mandates expire_stale_reviews
run_sweepers h now db =
    let (mandates, swept) = sweep_expired_mandates h now db in
    let (reviews, after) = expire_stale_reviews h now swept in (mandates, reviews, after)
