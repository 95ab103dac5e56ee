-- ===== src/Mandates/Evaluate.antt =====
-- `evaluate_mandate` of app/mandates.py: every active mandate must permit the payment.
pub mod Tightest
use paari_payments_protocol.Prelude.{
  if◌then◌else◌, number_eq, text_eq, first, all, is_empty, ℕ, String, Bool, true, false, not,
  Option, none, some, List, [], ◌∷◌, ◌++◌, map,
}
use paari_payments_protocol.Governance.{
  MandateReason, constraints_passed, lapsed_mandate, no_mandate, contended,
}
use paari_payments_protocol.Models.{UserPaymentMandate}
use paari_payments_protocol.Models.Rows.{Db}
use paari_payments_protocol.Host.{Host}
use paari_payments_protocol.Mandates.{
  MandateDecision, MandateState, none_ever, lapsed, Proposal, active_mandates,
  mandate_history_exists,
}
use paari_payments_protocol.Mandates.Check.{check_one}

-- A decision that names no mandate that was evaluated.
abbrev pub refused :
    List MandateReason → Option UserPaymentMandate → MandateState → List String → MandateDecision
refused reasons mandate state evaluated = record {
  ok = false;
  review = false;
  reasons = reasons;
  mandate = mandate;
  state = state;
  evaluated = evaluated;
}

-- `tuple(r for d in decisions if d.review for r in d.reasons)`
abbrev pub review_reasons : List MandateDecision → List MandateReason
review_reasons [] = []
review_reasons (d ∷ ds) = (if d.review then d.reasons else []) ++ review_reasons ds

abbrev pub accepted : UserPaymentMandate → List String → Bool → List MandateReason → MandateDecision
accepted governing evaluated review reasons = record {
  ok = true;
  review = review;
  reasons = reasons;
  mandate = some governing;
  state = MandateState.active;
  evaluated = evaluated;
}

-- The combination of the decisions of all active mandates, `governing` the first of them.
unfoldable pub intersection :
    UserPaymentMandate → List String → List MandateDecision → MandateDecision
intersection governing evaluated decisions = elim (first (λ d. not d.ok) decisions) [
  | some d ↦ refused d.reasons d.mandate MandateState.active evaluated
  | none ↦
      let reviews = review_reasons decisions in
      if not (is_empty reviews)
      then accepted governing evaluated true reviews
      else accepted governing evaluated false (constraints_passed ∷ [])
]

module _ (h : Host) (now : ℕ) (require_signed : Bool) where
  -- What follows the second resolution, under the gate.
  unfoldable pub judge : Db → Proposal → List UserPaymentMandate → MandateDecision
  judge db p [] = refused (lapsed_mandate ∷ []) none lapsed []
  judge db p (governing ∷ rest) =
      intersection governing (map (λ m. m.mandate_id) (governing ∷ rest))
        (map (λ m. check_one h db now require_signed m p) (governing ∷ rest))

  -- `before` is the database at the first resolution, `acquired` the answer of
  -- `acquire_all_mandate_gates`, and `after` the database that is read under the gate.
  unfoldable pub evaluate_mandate : Db → Bool → Db → String → String → Proposal → MandateDecision
  evaluate_mandate before acquired after agent_id org_id p =
      elim (active_mandates before agent_id org_id now) [
        | [] ↦
            if mandate_history_exists before agent_id org_id
            then refused (lapsed_mandate ∷ []) none lapsed []
            else refused (no_mandate ∷ []) none none_ever []
        | governing ∷ rest ↦
            if acquired
            then judge after p (active_mandates after agent_id org_id now)
            else refused (contended ∷ []) (some governing) MandateState.active []
      ]
