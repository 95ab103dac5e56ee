-- ===== src/Payments/Verdict.antt =====
-- The checks of `submit_payment_intent` in app/routers/payments.py, and the verdict they give.
use paari_payments_protocol.Prelude.{
  ltb, leb, if◌then◌else◌, ◌==◌, number_eq, text_eq, select, is_empty, contains, ℕ, ◌+◌, ◌*◌,
  String, Bool, true, false, not, ◌&&◌, ◌||◌, Option, none, some, List, [], ◌∷◌, ◌++◌, map,
}
use paari_payments_protocol.Governance.{
  Reason, GovernanceDecision, PolicyResult, no_mandate, parent_not_trusted, parent_not_active,
  parent_active_detail, trust_not_active, delegation_has_expired, delegation_not_expired,
  amount_must_be_positive, amount_is_positive, capability_not_delegated, capability_delegated,
  over_delegated_limit, within_delegated_limit, currency_not_delegated, currency_delegated,
  from_mandate, joined, mandate_permits, mandate_needs_review, velocity, near_limit,
  all_checks_passed, allow, review,
}
use paari_payments_protocol.Models.{is_active_parent, ParentAuthority, Agent}
use paari_payments_protocol.Models.Rows.{BoundedAuthorization}
use paari_payments_protocol.Host.{Host}
use paari_payments_protocol.Config.{MandatePolicy, mandate_required}
use paari_payments_protocol.Mandates.{MandateDecision, MandateState, none_ever, lapsed}
use paari_payments_protocol.Payments.Authenticate.{passed}
use paari_payments_protocol.Payments.Records.{PaymentIntentRequest, Verdict}

abbrev pub velocity_window : ℕ
velocity_window = 60

abbrev pub velocity_max_intents : ℕ
velocity_max_intents = 5

abbrev pub review_ttl : ℕ
review_ttl = 300

-- schemas.PaymentIntentResponse
pub record IntentResponse : Type 0 where
  pub intent_id : String
  pub transaction_id : String
  pub decision : GovernanceDecision
  pub reasons : List Reason
  pub mfa_required : Bool
  pub authorization : Option BoundedAuthorization
  pub review_expires_at : Option ℕ
  pub mandate_id : Option String

-- The normalisation of a causal label: `v.strip()[:120] or None`.
abbrev pub normalise : Host → Option String → Option String
normalise h none = none
normalise h (some v) = if h.strip120 v == "" then none else some (h.strip120 v)

-- The request once `mandate_id` is cleared and the labels are normalised.
unfoldable pub sanitised : Host → PaymentIntentRequest → PaymentIntentRequest
sanitised h r = record r {
  mandate_id = none;
  llm_run_id = normalise h r.llm_run_id;
  llm_model = normalise h r.llm_model;
  llm_tool_call_id = normalise h r.llm_tool_call_id;
  llm_tool_name = normalise h r.llm_tool_name;
}

-- An early `_deny`: its reasons, and the policy result that failed.
pub record Denial : Type 0 where
  pub reasons : List Reason
  pub policy : PolicyResult

abbrev pub denial : Reason → String → Reason → Denial
denial reason name detail = record {
  reasons = reason ∷ [];
  policy = record { name = name; passed = false; detail = detail };
}

infixr 20 ◌else_deny◌
abbrev pub ◌else_deny◌ : Option Denial → Option Denial → Option Denial
none else_deny next = next
some d else_deny next = some d

abbrev pub deny_if : Bool → Denial → Option Denial
deny_if true d = some d
deny_if false d = none

-- The trust verdict of `AdminApprovedTrustProvider.verify` (app/trust.py): the parent is active.
unfoldable pub trust_approves : ParentAuthority → Bool
trust_approves p = is_active_parent p.status

-- The checks of the parent and of the delegation, in order.
unfoldable pub check_parent : Option ParentAuthority → Option Denial
unfolding trust_approves
check_parent none = some (denial parent_not_trusted "parent_check" parent_not_active)
check_parent (some p) =
    deny_if (not (is_active_parent p.status))
      (denial parent_not_trusted "parent_check" parent_not_active)
    else_deny deny_if (not (trust_approves p))
        (denial trust_not_active "trust_check" trust_not_active)

unfoldable pub check_delegation : Agent → PaymentIntentRequest → ℕ → Option Denial
check_delegation agent req now =
    let undelegated =
      not (contains req.action agent.granted_capabilities)
      && not (req.action == "payment.create") in
    let over = over_delegated_limit req.amount_minor_units agent.payment_limit_minor_units in
    let foreign = currency_not_delegated req.currency agent.currency in
    deny_if (passed agent.valid_until now)
      (denial delegation_has_expired "delegation_expiry" delegation_has_expired)
    else_deny deny_if (req.amount_minor_units == 0)
        (denial amount_must_be_positive "amount_check" amount_must_be_positive)
    else_deny deny_if undelegated (
        denial (capability_not_delegated req.action) "capability_check"
          (capability_not_delegated req.action))
    else_deny deny_if (ltb agent.payment_limit_minor_units req.amount_minor_units)
        (denial over "limit_check" over)
    else_deny deny_if (not (req.currency == agent.currency))
        (denial foreign "currency_check" foreign)

abbrev pub mandate_denial : List Reason → Reason → Denial
mandate_denial reasons detail = record {
  reasons = reasons;
  policy = record { name = "user_mandate_check"; passed = false; detail = detail };
}

-- The denials that follow the evaluation of the mandates.
unfoldable pub check_mandate : MandatePolicy → MandateDecision → Option Denial
check_mandate policy d =
    let own = mandate_denial (map from_mandate d.reasons) (joined d.reasons) in
    elim d.state [
      | lapsed ↦ some own
      | none_ever ↦
          deny_if (mandate_required policy)
            (mandate_denial (from_mandate no_mandate ∷ []) (from_mandate no_mandate))
      | MandateState.active ↦ deny_if (not d.ok) own
    ]

abbrev pub policy : String → Bool → Reason → PolicyResult
policy name passing detail = record { name = name; passed = passing; detail = detail }

abbrev pub when_list {ℓ} : {A : Type ℓ} → Bool → List A → List A
when_list true xs = xs
when_list false xs = []

-- The policy results of a payment that was not denied.
unfoldable pub policy_results_of :
    Agent → PaymentIntentRequest → MandateDecision → ℕ → Bool → List PolicyResult
policy_results_of agent req d recent mfa_required =
    policy "parent_check" true parent_active_detail
      ∷ policy "delegation_expiry" true delegation_not_expired
      ∷ policy "amount_check" true amount_is_positive
      ∷ policy "capability_check" true (capability_delegated req.action)
      ∷ policy "limit_check" true
          (within_delegated_limit req.amount_minor_units agent.payment_limit_minor_units)
      ∷ policy "currency_check" true (currency_delegated req.currency agent.currency)
      ∷ elim d.mandate [
        | none ↦ []
        | some m ↦
            policy "user_mandate_check" true (mandate_permits m.mandate_id)
            ∷ when_list d.review (policy "user_mandate_review" false mandate_needs_review ∷ [])
      ]
    ++ when_list (leb velocity_max_intents recent)
        (policy "velocity_check" false (velocity recent) ∷ [])
    ++ when_list mfa_required (policy "step_up_threshold" false near_limit ∷ [])

-- `amount > 0.8 * limit`, exact for every limit below 2 ^ 50
abbrev pub needs_step_up : Agent → PaymentIntentRequest → Bool
needs_step_up agent req = ltb (4 * agent.payment_limit_minor_units) (5 * req.amount_minor_units)

-- The verdict: REVIEW if a policy failed, else ALLOW. Only a REVIEW without step-up expires.
unfoldable pub verdict_of : ℕ → Bool → List PolicyResult → Verdict
verdict_of now mfa_required results =
    let failed = select (λ (r : PolicyResult). not r.passed) results in
    let reviewed = mfa_required || not (is_empty failed) in
    record {
      decision = if reviewed then review else allow;
      reasons = if is_empty failed then all_checks_passed ∷ [] else map (λ r. r.detail) failed;
      mfa_required = mfa_required;
      review_expires_at =
          if reviewed && not (is_empty failed) && not mfa_required
          then some (now + review_ttl)
          else none;
      policy_results = results;
    }
