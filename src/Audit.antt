-- ===== src/Audit.antt =====
-- app/audit.py: the hash-chained audit log.
pub mod Chain
use Prim.Native.String.{◌++◌ as text_append}
use paari_payments_protocol.Prelude.{
  if◌then◌else◌, ◌==◌, number_eq, text_eq, select, first, get_last?, ℕ, String, Bool, true, ◌&&◌,
  ◌||◌, Option, none, some, List, [], ◌∷◌, ◌++◌,
}
use paari_payments_protocol.Models.{Agent}
use paari_payments_protocol.Models.Rows.{Db, AuditEvent, Detail, Value, str, null, PaymentIntent}
use paari_payments_protocol.Host.{Host, EventPayload}

abbrev pub genesis_hash : String
genesis_hash = "GENESIS"

abbrev pub hash_version_1 : ℕ
hash_version_1 = 1

abbrev pub hash_version_2 : ℕ
hash_version_2 = 2

module _ (h : Host) where
  -- `_hash_event_v1`
  unfoldable pub hash_event_v1 : String → Detail → String
  hash_event_v1 prev detail = h.sha256 (text_append prev (h.canonical_detail detail))

  -- The payload of `_hash_event_v2`, from the columns of a row.
  abbrev pub event_payload : String → AuditEvent → EventPayload
  event_payload prev e = record {
    prev_hash = prev;
    kind = e.kind;
    agent_id = e.agent_id;
    parent_id = e.parent_id;
    org_id = e.org_id;
    transaction_id = e.transaction_id;
    created_at = h.isoformat e.created_at;
    detail = e.detail;
  }

  -- `_hash_event_v2`
  unfoldable pub hash_event_v2 : EventPayload → String
  hash_event_v2 p = h.sha256 (h.canonical_event p)

  -- `_hash_event` of a row; a stored version of 0 counts as 1
  unfoldable pub hash_event : String → AuditEvent → String
  unfolding hash_event_v1 hash_event_v2
  hash_event prev e =
      if e.hash_version == hash_version_1 || e.hash_version == 0
      then hash_event_v1 prev e.detail
      else hash_event_v2 (event_payload prev e)

abbrev pub of_transaction : String → AuditEvent → Bool
of_transaction t e = e.transaction_id == t

-- The org of an event: explicit, else the owning agent's, else 'default'.
abbrev pub owner_org : Db → String → Option String → String
owner_org db agent_id (some o) = o
owner_org db agent_id none = elim (first (λ (a : Agent). a.agent_id == agent_id) db.agents) [
  | none ↦ "default"
  | some a ↦ a.org_id
]

-- The hash of the last event of the transaction.
unfoldable pub tail_hash : Db → String → String
tail_hash db t = elim (get_last? (select (of_transaction t) db.audit_events)) [
  | none ↦ genesis_hash
  | some e ↦ e.event_hash
]

-- The arguments of `record_audit`.
pub record Entry : Type 0 where
  pub transaction_id : String
  pub agent_id : String
  pub parent_id : Option String
  pub kind : String
  pub detail : Detail
  pub org_id : Option String

-- The row before its hash is known.
abbrev pub unsealed : ℕ → Db → Entry → AuditEvent
unsealed now db a = record {
  org_id = owner_org db a.agent_id a.org_id;
  transaction_id = a.transaction_id;
  agent_id = a.agent_id;
  parent_id = a.parent_id;
  kind = a.kind;
  detail = a.detail;
  prev_hash = tail_hash db a.transaction_id;
  event_hash = "";
  created_at = now;
  hash_version = hash_version_2;
}

unfoldable pub sealed : Host → ℕ → Entry → Db → AuditEvent
unfolding hash_event
sealed h now a db =
    let e = unsealed now db a in record e { event_hash = hash_event h e.prev_hash e }

-- `record_audit`: append one event to the chain of its transaction.
unfoldable pub record_audit : Host → ℕ → Entry → Db → Db
unfolding sealed
record_audit h now a db = record db { audit_events = db.audit_events ++ sealed h now a db ∷ [] }

-- The loop of `verify_chain`, from the hash that the next event has to name.
unfoldable pub verify_events : Host → String → List AuditEvent → Bool
unfolding hash_event
verify_events h prev [] = true
verify_events h prev (e ∷ es) =
    e.prev_hash == prev
    && e.event_hash == hash_event h e.prev_hash e
    && verify_events h e.event_hash es

unfoldable pub verify_chain : Host → Db → String → Bool
unfolding verify_events
verify_chain h db t = verify_events h genesis_hash (select (of_transaction t) db.audit_events)

-- An optional text in a `detail`.
abbrev pub opt : Option String → Value
opt none = null
opt (some s) = str s

-- `causal_labels`, for the intent that was looked up
unfoldable pub causal_labels : Db → String → Detail
causal_labels db intent_id =
    elim (first (λ (i : PaymentIntent). i.intent_id == intent_id) db.intents) [
      | none ↦ []
      | some i ↦
          if i.llm_attributed
          then ("llm_run_id", opt i.llm_run_id)
            ∷ ("llm_model", opt i.llm_model)
            ∷ ("llm_tool_call_id", opt i.llm_tool_call_id)
            ∷ ("llm_tool_name", opt i.llm_tool_name)
            ∷ []
          else []
    ]
