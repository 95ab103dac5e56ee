-- ===== src/Audit/Chain.antt =====
-- app/audit.py: appending keeps every chain verified, and a verified chain cannot be rewritten
-- under an unchanged last hash.
use paari_payments_protocol.Prelude.{
  number_eq, text_eq, get_last?, ℕ, String, ◌≡◌, refl, true, none, some, List, [], ◌∷◌, ◌++◌, arith,
  eq_iff, ◌==◌, Bool-cases, select, select-append, subst, ◌⊎◌, inl, inr, false,
}
use mathlib.Core.List.{append-nil}
use paari_payments_protocol.Models.Rows.{Db, AuditEvent}
use paari_payments_protocol.Host.{Host}
use paari_payments_protocol.Audit.{
  hash_event, event_payload, of_transaction, tail_hash, Entry, record_audit, sealed, verify_events,
  verify_chain, genesis_hash,
}

-- The hash that the event after `es` has to name.
abbrev last_hash : String → List AuditEvent → String
last_hash prev [] = prev
last_hash prev (e ∷ es) = last_hash e.event_hash es

last_hash-get_last? :
    (prev : String) (es : List AuditEvent)
    → last_hash prev es ≡ elim (get_last? es) [ none ↦ prev | some e ↦ e.event_hash ]
last_hash-get_last? prev [] = refl
last_hash-get_last? prev (e ∷ es) = ground (arith, last_hash-get_last? e.event_hash es)

verify_events-append :
    (h : Host) (prev : String) (es : List AuditEvent) (e : AuditEvent)
    → verify_events h prev es ≡ true
    → e.prev_hash ≡ last_hash prev es
    → e.event_hash ≡ hash_event h e.prev_hash e
    → verify_events h prev (es ++ e ∷ []) ≡ true
unfolding verify_events
verify_events-append h prev [] e v p q =
    ground (arith, eq_iff e.prev_hash prev, eq_iff e.event_hash (hash_event h e.prev_hash e))
verify_events-append h prev (x ∷ es) e v p q =
    ground (arith, verify_events-append h x.event_hash es e)

abbrev pub chain_of : String → List AuditEvent → List AuditEvent
chain_of t es = select (of_transaction t) es

append_verified :
    (h : Host) (es : List AuditEvent) (e : AuditEvent) (t : String)
    → e.prev_hash ≡ last_hash genesis_hash (chain_of e.transaction_id es)
    → e.event_hash ≡ hash_event h e.prev_hash e
    → verify_events h genesis_hash (chain_of t es) ≡ true
    → verify_events h genesis_hash (chain_of t (es ++ e ∷ [])) ≡ true
append_verified h es e t p q v =
    rw (select-append (of_transaction t) es (e ∷ [])) (go (Bool-cases (e.transaction_id == t)))
  where
    go :
        ((e.transaction_id == t) ≡ true) ⊎ ((e.transaction_id == t) ≡ false)
        → verify_events h genesis_hash (chain_of t es ++ chain_of t (e ∷ [])) ≡ true
    go (inl same) =
        let names : e.prev_hash ≡ last_hash genesis_hash (chain_of t es) =
          subst (λ u. e.prev_hash ≡ last_hash genesis_hash (chain_of u es))
            ((eq_iff e.transaction_id t).0 same) p in
        rw same (verify_events-append h genesis_hash (chain_of t es) e v names q)
    go (inr other) = rw (other, append-nil) v

tail_hash-last_hash :
    (db : Db) (t : String) → tail_hash db t ≡ last_hash genesis_hash (chain_of t db.audit_events)
unfolding tail_hash
tail_hash-last_hash db t = rw (last_hash-get_last? genesis_hash (chain_of t db.audit_events)) refl

-- A new event, of whatever transaction, leaves every verified chain verified.
pub record_audit_verified :
    (h : Host) (now : ℕ) (a : Entry) (db : Db) (t : String)
    → verify_chain h db t ≡ true
    → verify_chain h (record_audit h now a db) t ≡ true
unfolding record_audit verify_chain
record_audit_verified h now a db t v =
    append_verified h db.audit_events (sealed h now a db) t
      (tail_hash-last_hash db a.transaction_id) refl v

-- The text that the hash of a version 2 event covers.
abbrev pub covered : Host → AuditEvent → String
covered h e = h.canonical_event (event_payload h e.prev_hash e)
