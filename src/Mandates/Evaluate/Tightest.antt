-- ===== src/Mandates/Evaluate/Tightest.antt =====
-- app/mandates.py, "TIGHTEST WINS" and "LAPSED != NEVER-EXISTED": what `evaluate_mandate` accepts.
use paari_payments_protocol.Prelude.{
  number_eq, text_eq, first, is_empty, All, ℕ, String, ◌≡◌, refl, ◌↔◌, Bool, true, false, not, none,
  List, [], ◌∷◌, map, arith, select, All-sorted_iff, is_empty-sorted, is_empty-select,
}
use paari_payments_protocol.Models.{UserPaymentMandate}
use paari_payments_protocol.Models.Rows.{Db}
use paari_payments_protocol.Host.{Host}
use paari_payments_protocol.Mandates.{
  MandateDecision, MandateState, none_ever, Proposal, active_mandates, is_live, in_scope,
  mandate_history_exists, scope_query, resolve_state, tighter,
}
use paari_payments_protocol.Mandates.Check.{check_one}
use paari_payments_protocol.Mandates.Check.Permits.{Permits, refusal-none_iff}
use paari_payments_protocol.Mandates.Evaluate.{judge, intersection, evaluate_mandate}

-- A mandate governs a payment of this agent at this time.
abbrev pub Governs : Db → String → String → ℕ → UserPaymentMandate → Type 0
Governs db agent_id org_id now m = (in_scope db agent_id org_id m ≡ true) × (is_live now m ≡ true)

module _ (h : Host) (db : Db) (now : ℕ) (require_signed : Bool) (p : Proposal) where
  check_one-ok_iff :
      (m : UserPaymentMandate)
      → ((check_one h db now require_signed m p).ok ≡ true) ↔ Permits h db now require_signed m p
  unfolding check_one
  check_one-ok_iff m = ground (arith, refusal-none_iff h db now m p require_signed)

  abbrev Permitted : UserPaymentMandate → Type 0
  Permitted m = Permits h db now require_signed m p

  first-refused_iff :
      (ms : List UserPaymentMandate)
      → (first (λ d. not d.ok) (map (λ m. check_one h db now require_signed m p) ms) ≡ none)
        ↔ All Permitted ms
  first-refused_iff [] = (λ _. tt, λ _. refl)
  first-refused_iff (m ∷ ms) = ground (arith, check_one-ok_iff m, first-refused_iff ms)

  intersection-ok_iff :
      (g : UserPaymentMandate) (e : List String) (ds : List MandateDecision)
      → ((intersection g e ds).ok ≡ true) ↔ (first (λ d. not d.ok) ds ≡ none)
  unfolding intersection
  intersection-ok_iff g e ds = ground arith

  judge-ok_iff :
      (ms : List UserPaymentMandate)
      → ((judge h now require_signed db p ms).ok ≡ true)
        ↔ ((is_empty ms ≡ false) × All Permitted ms)
  unfolding judge
  judge-ok_iff [] = ground arith
  judge-ok_iff (m ∷ ms) =
      let k =
        intersection-ok_iff m (map (λ n. n.mandate_id) (m ∷ ms))
          (map (λ n. check_one h db now require_signed n p) (m ∷ ms)) in
      let r = first-refused_iff (m ∷ ms) in (λ e. (refl, r.0 (k.0 e)), λ q. k.1 (r.1 q.1))

judge-state :
    (h : Host) (now : ℕ) (r : Bool) (db : Db) (p : Proposal) (ms : List UserPaymentMandate)
    → is_empty ms ≡ false
    → (judge h now r db p ms).state ≡ MandateState.active
unfolding judge intersection
judge-state h now r db p [] e = ground arith
judge-state h now r db p (m ∷ ms) e = ground arith

-- The mandates of an agent that are live, in the order of the table.
abbrev pub live_mandates : Db → String → String → ℕ → List UserPaymentMandate
live_mandates db agent_id org_id now =
    select (is_live now) (select (in_scope db agent_id org_id) db.mandates)

All-active_iff :
    (P : UserPaymentMandate → Type 0) (db : Db) (a o : String) (now : ℕ)
    → All P (active_mandates db a o now) ↔ All P (live_mandates db a o now)
unfolding active_mandates
All-active_iff P db a o now = All-sorted_iff P tighter (live_mandates db a o now)

is_empty-active :
    (db : Db) (a o : String) (now : ℕ)
    → is_empty (active_mandates db a o now) ≡ is_empty (live_mandates db a o now)
unfolding active_mandates
is_empty-active db a o now = is_empty-sorted tighter (live_mandates db a o now)

module _ (h : Host) (now : ℕ) (require_signed : Bool) (before after : Db) (agent_id org_id : String)
    (p : Proposal) where
  -- A payment is accepted (with or without review) exactly when a mandate was live at the first
  -- resolution, the gates were acquired, and under the gate a mandate is live and every live
  -- mandate of the agent permits the payment.
  pub evaluate_mandate-ok_iff :
      (acquired : Bool)
      → ((evaluate_mandate h now require_signed before acquired after agent_id org_id p).ok ≡ true)
        ↔ ((is_empty (live_mandates before agent_id org_id now) ≡ false)
            × (acquired ≡ true)
            × (is_empty (live_mandates after agent_id org_id now) ≡ false)
            × All
                (λ m. Permits h after now require_signed m p)
                (live_mandates after agent_id org_id now))
  unfolding evaluate_mandate
  evaluate_mandate-ok_iff acquired =
      let e = is_empty-active before agent_id org_id now in
      let e' = is_empty-active after agent_id org_id now in
      let j =
        judge-ok_iff h after now require_signed p (active_mandates after agent_id org_id now) in
      let a =
        All-active_iff (λ m. Permits h after now require_signed m p) after agent_id org_id now in
      ground (arith, e, e', j, a)

-- Lapsed authority is not absent authority: where the gates are acquired and nothing changes in
-- between, the state of the decision is ACTIVE if a mandate is live, LAPSED if none is live but the
-- agent has ever had one, and NONE if it never had one.
pub state-evaluate_mandate :
    (h : Host) (now : ℕ) (require_signed : Bool) (db : Db) (a o : String) (p : Proposal)
    → ((evaluate_mandate h now require_signed db true db a o p).state ≡ resolve_state db a o now)
      × ((resolve_state db a o now ≡ MandateState.active)
          ↔ (is_empty (live_mandates db a o now) ≡ false))
      × ((resolve_state db a o now ≡ none_ever)
          ↔ (is_empty (select (in_scope db a o) db.mandates) ≡ true))
unfolding evaluate_mandate resolve_state mandate_history_exists scope_query
state-evaluate_mandate h now r db a o p =
    let scoped = select (in_scope db a o) db.mandates in
    let e = is_empty-active db a o now in
    let s = judge-state h now r db p (active_mandates db a o now) in
    let none_live = is_empty-select (is_live now) scoped in
    (ground (arith, e, s), ground (arith, e), ground (arith, e, none_live))
