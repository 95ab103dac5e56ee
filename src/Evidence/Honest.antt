-- ===== src/Evidence/Honest.antt =====
-- What a proof bundle of app/proof_bundle.py attests, and for which payments there is one.
use text.Mathlib.Text.{starts_with}
use paari_payments_protocol.Prelude.{
  text_or, ◌==◌, text_eq, number_eq, select, String, true, false, Option, none, some, List, [], ◌∷◌,
  ◌≡◌, ◌↔◌, ◌⊎◌, map,
}
use paari_payments_protocol.Models.Rows.{
  Db, PaymentIntent, BoundedAuthorization, ProviderTransaction, RevocationRecord, AuditEvent,
  Detail,
}
use paari_payments_protocol.Host.{Host}
use paari_payments_protocol.Audit.{verify_chain, genesis_hash, of_transaction}
use paari_payments_protocol.Transitions.{paid, transition_table}
use paari_payments_protocol.Evidence.Artifacts.{
  Found, found, value_error, crashed, settlement_source, payment_result, PaymentResult, ProofBundle,
  is_revoked_agent, AuditEntry,
}

abbrev IfFound : {A : Type 0} → (A → Type 0) → Found A → Type 0
IfFound Q (found a) = Q a
IfFound Q (value_error m) = Unit
IfFound Q (crashed e) = Unit

-- A result of `m`, if there is one, satisfies `Q`.
pub record Finds {A : Type 0} (Q : A → Type 0) (m : Found A) : Type 0 where
  pub holds : IfFound Q m

-- What `one_or_none` returns for the rows of a query.
abbrev Matches : {A : Type 0} → List A → Option A → Type 0
Matches {A} xs o = ((xs ≡ []) × (o ≡ none)) ⊎ ((a : A) × (xs ≡ a ∷ []) × (o ≡ some a))

-- What a result attests of a payment, as the row of the provider's transaction has it. It counts as
-- confirmed by a webhook exactly where an event is on record, and as terminal exactly where it is paid
-- or no transition leaves its state. The provider is named as the source exactly where the row is of
-- its test or live environment, and the simulator exactly where it is of the simulated one.
record IsAttested (i : PaymentIntent) (t : ProviderTransaction) (r : PaymentResult) : Type 0 where
  payment :
      (r.authorization_id ≡ t.authorization_id)
      × (r.transaction_id ≡ i.transaction_id)
      × (r.provider_payment_id ≡ t.razorpay_payment_id)
      × (r.provider_order_id ≡ t.razorpay_order_id)
  endpoint :
      (r.provider_key_id_prefix ≡ t.provider_key_id_prefix)
      × (r.provider_api_base ≡ t.provider_api_base)
  environment :
      ((t.provider_environment ≡ "") × (r.provider_environment ≡ "unknown"))
      ⊎ (r.provider_environment ≡ t.provider_environment)
  webhook :
      (r.webhook_event ≡ t.webhook_event_id)
      × ((r.webhook_verified ≡ false) ↔ (t.webhook_event_id ≡ none))
  state :
      (r.final_state ≡ t.state)
      × ((r.terminal ≡ true) ↔ ((t.state ≡ paid) ⊎ (transition_table t.state ≡ [])))
  provider :
      (r.settlement_source ≡ "provider")
      ↔ ((t.provider_environment ≡ "test") ⊎ (t.provider_environment ≡ "live"))
  name :
      (r.provider ≡ "reference-autonomous")
      ↔ (starts_with (text_or t.provider_api_base "") "in-memory://" ≡ true)
  simulator : (r.settlement_source ≡ "simulator") ↔ (t.provider_environment ≡ "simulated")

-- The result is there exactly where there is a row.
record IsResult (ts : List ProviderTransaction) (i : PaymentIntent) (r : Option PaymentResult)
    : Type 0 where
  row :
      ((ts ≡ []) × (r ≡ none))
      ⊎ ((t : ProviderTransaction) × (x : PaymentResult) × (ts ≡ t ∷ [])
          × (r ≡ some x)
          × IsAttested i t x)

-- What an entry shows of an event: its kind, actor, detail and hash.
abbrev Shown : Type 0
Shown = String × String × Detail × String

abbrev of_entry : AuditEntry → Shown
of_entry e = (e.kind, e.actor, e.detail, e.event_hash)

abbrev of_event : AuditEvent → Shown
of_event e = (e.kind, e.agent_id, e.detail, e.event_hash)

-- Each entry names the hash of the one before it.
abbrev IsLinked : String → List AuditEntry → Type 0
IsLinked prev [] = Unit
IsLinked prev (e ∷ es) = (e.prev_hash ≡ prev) × IsLinked e.event_hash es

-- What a bundle attests.
pub record IsHonest (h : Host) (db : Db) (id : String) (b : ProofBundle) : Type 0 where
  -- the one intent with the identifier
  intent : select (λ (i : PaymentIntent). i.transaction_id == id) db.intents ≡ b.payment_intent ∷ []
  -- and its one authorization
  authorization :
      (a : BoundedAuthorization) × (b.bounded_authorization ≡ some a)
      × (b.causal_provenance.authorization_id ≡ a.authorization_id)
      × (select
            (λ (a : BoundedAuthorization). a.intent_id == b.payment_intent.intent_id)
            db.authorizations
          ≡ a ∷ [])
      × IsResult
          (select
            (λ (t : ProviderTransaction). t.authorization_id == a.authorization_id)
            db.transactions)
          b.payment_intent
          b.payment_result
  chain : b.chain_verified ≡ verify_chain h db id
  -- the entries are all of the transaction's, in order, and linked if the chain counts as verified
  shown : map of_entry b.events ≡ map of_event (select (of_transaction id) db.audit_events)
  linked : (b.chain_verified ≡ false) ⊎ IsLinked genesis_hash b.events
  -- an agent that is revoked or has a revocation record is shown as revoked, and no other
  revoked : (b.revoked ≡ false) ↔ (
      (is_revoked_agent b.agent_identity.status ≡ false)
      × (select (λ (r : RevocationRecord). r.agent_id == b.agent_identity.agent_id) db.revocations
          ≡ []))
