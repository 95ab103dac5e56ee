-- ===== src/Mandates/Sweep/Release.antt =====
-- app/mandates.py, "Resolving to LAPSED does NOT depend on this having run", "Denying on expiry
-- releases the reservation" and "both are idempotent".
use paari_payments_protocol.Prelude.{
  text_eq, number_eq, select, is_empty, sorted, sum_of, update_where, ℕ, ◌+◌, ◌≤◌, String, false,
  not, ◌&&◌, Option, List, [], ◌∷◌, map, ◌≡◌, refl, arith, ap, sym, ◌∙◌,
}
use paari_payments_protocol.Models.{UserPaymentMandate}
use paari_payments_protocol.Models.Rows.{Db, PaymentIntent}
use paari_payments_protocol.Host.{Host}
use paari_payments_protocol.Audit
use paari_payments_protocol.Mandates.{
  in_scope, is_live, active_mandates, resolve_state, scope_query, mandate_history_exists, tighter,
}
use paari_payments_protocol.Mandates.Spend.{spend_since, counts}
use paari_payments_protocol.Mandates.Sweep.{
  expired_entry, review_expired_entry, audit_all, is_elapsed, expire, is_stale, lapse,
  sweep_expired_mandates, expire_stale_reviews, run_sweepers,
}

audit_all-tables :
    (h : Host) (now : ℕ) (es : List Audit.Entry) (db : Db)
    → ((audit_all h now es db).mandates ≡ db.mandates)
      × ((audit_all h now es db).intents ≡ db.intents)
unfolding audit_all Audit.record_audit
audit_all-tables h now [] db = (refl, refl)
audit_all-tables h now (e ∷ es) db = audit_all-tables h now es (Audit.record_audit h now e db)

module _ (db : Db) (a o : String) (now t : ℕ) (later : now ≤ t) where
  live-expire :
      (ms : List UserPaymentMandate)
      → select (is_live t) (select (in_scope db a o) (update_where (is_elapsed now) expire ms))
        ≡ select (is_live t) (select (in_scope db a o) ms)
  live-expire [] = refl
  live-expire (m ∷ ms) = ground (arith, later, live-expire ms)

  scope-expire :
      (ms : List UserPaymentMandate)
      → is_empty (select (in_scope db a o) (update_where (is_elapsed now) expire ms))
        ≡ is_empty (select (in_scope db a o) ms)
  scope-expire [] = refl
  scope-expire (m ∷ ms) = ground (arith, scope-expire ms)

module _ (h : Host) (now : ℕ) (db : Db) where
  sweep_expired_mandates-mandates :
      (sweep_expired_mandates h now db).1.mandates
      ≡ update_where (is_elapsed now) expire db.mandates
  unfolding sweep_expired_mandates
  sweep_expired_mandates-mandates =
      (audit_all-tables h now (map (expired_entry h) (select (is_elapsed now) db.mandates))
        (record db { mandates = update_where (is_elapsed now) expire db.mandates })).0

  expire_stale_reviews-mandates : (expire_stale_reviews h now db).1.mandates ≡ db.mandates
  unfolding expire_stale_reviews
  expire_stale_reviews-mandates =
      (audit_all-tables h now (map (review_expired_entry h) (select (is_stale now) db.intents))
        (record db { intents = update_where (is_stale now) lapse db.intents })).0

  expire_stale_reviews-intents :
      (expire_stale_reviews h now db).1.intents ≡ update_where (is_stale now) lapse db.intents
  unfolding expire_stale_reviews
  expire_stale_reviews-intents =
      (audit_all-tables h now (map (review_expired_entry h) (select (is_stale now) db.intents))
        (record db { intents = update_where (is_stale now) lapse db.intents })).1

pub run_sweepers-mandates :
    (h : Host) (now : ℕ) (db : Db)
    → (run_sweepers h now db).2.mandates ≡ update_where (is_elapsed now) expire db.mandates
unfolding run_sweepers
run_sweepers-mandates h now db =
    expire_stale_reviews-mandates h now (sweep_expired_mandates h now db).1
    ∙ sweep_expired_mandates-mandates h now db

audit_all-bindings :
    (h : Host) (now : ℕ) (es : List Audit.Entry) (db : Db)
    → (audit_all h now es db).bindings ≡ db.bindings
unfolding audit_all Audit.record_audit
audit_all-bindings h now [] db = refl
audit_all-bindings h now (e ∷ es) db = audit_all-bindings h now es (Audit.record_audit h now e db)

sweep_expired_mandates-bindings :
    (h : Host) (now : ℕ) (db : Db) → (sweep_expired_mandates h now db).1.bindings ≡ db.bindings
unfolding sweep_expired_mandates
sweep_expired_mandates-bindings h now db =
    audit_all-bindings h now (map (expired_entry h) (select (is_elapsed now) db.mandates))
      (record db { mandates = update_where (is_elapsed now) expire db.mandates })

expire_stale_reviews-bindings :
    (h : Host) (now : ℕ) (db : Db) → (expire_stale_reviews h now db).1.bindings ≡ db.bindings
unfolding expire_stale_reviews
expire_stale_reviews-bindings h now db =
    audit_all-bindings h now (map (review_expired_entry h) (select (is_stale now) db.intents))
      (record db { intents = update_where (is_stale now) lapse db.intents })

pub run_sweepers-bindings :
    (h : Host) (now : ℕ) (db : Db) → (run_sweepers h now db).2.bindings ≡ db.bindings
unfolding run_sweepers
run_sweepers-bindings h now db =
    expire_stale_reviews-bindings h now (sweep_expired_mandates h now db).1
    ∙ sweep_expired_mandates-bindings h now db

-- The state of an agent, from the table of mandates alone.
active_mandates-table :
    (db : Db) (ms : List UserPaymentMandate) (a o : String) (t : ℕ)
    → db.mandates ≡ ms
    → active_mandates db a o t ≡ sorted tighter (select (is_live t) (select (in_scope db a o) ms))
unfolding active_mandates scope_query
active_mandates-table db ms a o t e = rw e refl

history-table :
    (db : Db) (ms : List UserPaymentMandate) (a o : String)
    → db.mandates ≡ ms
    → mandate_history_exists db a o ≡ not (is_empty (select (in_scope db a o) ms))
unfolding mandate_history_exists scope_query
history-table db ms a o e = rw e refl

same_active :
    (h : Host) (now t : ℕ) (a o : String) (db : Db)
    → now ≤ t
    → active_mandates (run_sweepers h now db).2 a o t ≡ active_mandates db a o t
same_active h now t a o db later =
    active_mandates-table (run_sweepers h now db).2 _ a o t (run_sweepers-mandates h now db)
    ∙ ap (sorted tighter) (live-expire db a o now t later db.mandates)
    ∙ sym (active_mandates-table db db.mandates a o t refl)

same_history :
    (h : Host) (now t : ℕ) (a o : String) (db : Db)
    → now ≤ t
    → mandate_history_exists (run_sweepers h now db).2 a o ≡ mandate_history_exists db a o
same_history h now t a o db later =
    history-table (run_sweepers h now db).2 _ a o (run_sweepers-mandates h now db)
    ∙ ap not (scope-expire db a o now t later db.mandates)
    ∙ sym (history-table db db.mandates a o refl)

-- Sweeping changes no decision: at every time from the sweep on, an agent has the same live mandates
-- in the same order, and the same state of ACTIVE, LAPSED or NONE, as if nothing had been swept.
pub sweep_changes_no_state :
    (h : Host) (now t : ℕ) (a o : String) (db : Db)
    → now ≤ t
    → (active_mandates (run_sweepers h now db).2 a o t ≡ active_mandates db a o t)
      × (resolve_state (run_sweepers h now db).2 a o t ≡ resolve_state db a o t)
unfolding resolve_state
sweep_changes_no_state h now t a o db later = (
  same_active h now t a o db later,
  rw (same_active h now t a o db later, same_history h now t a o db later) refl,
)

released :
    (h : Host) (now start t : ℕ) (m : UserPaymentMandate) (merchant category : Option String)
    (is : List PaymentIntent)
    → sum_of
          (λ (i : PaymentIntent). i.amount_minor_units)
          (select (counts h m start t merchant category) (update_where (is_stale now) lapse is))
        + sum_of
            (λ (i : PaymentIntent). i.amount_minor_units)
            (select (λ i. counts h m start t merchant category i && is_stale now i) is)
      ≡ sum_of
          (λ (i : PaymentIntent). i.amount_minor_units)
          (select (counts h m start t merchant category) is)
unfolding counts
released h now start t m merchant category [] = ground arith
released h now start t m merchant category (i ∷ is) =
    ground (arith, released h now start t m merchant category is, lapse-counts i)
  where
    lapse-counts : (i : PaymentIntent) → counts h m start t merchant category (lapse i) ≡ false
    lapse-counts i = ground arith

-- Denying a stale review gives its amount back: what a mandate's window counts after the sweep,
-- together with the amounts of the stale reviews that it counted, is what it counted before.
pub expiry_releases_budget :
    (h : Host) (now start t : ℕ) (m : UserPaymentMandate) (merchant category : Option String)
    (db : Db)
    → spend_since h (expire_stale_reviews h now db).1 m start t merchant category
        + sum_of
            (λ (i : PaymentIntent). i.amount_minor_units)
            (select (λ i. counts h m start t merchant category i && is_stale now i) db.intents)
      ≡ spend_since h db m start t merchant category
unfolding spend_since
expiry_releases_budget h now start t m merchant category db =
    rw (expire_stale_reviews-intents h now db)
      (released h now start t m merchant category db.intents)
