-- ===== src/Governance.antt =====
-- app/governance.py, and the texts that the governance layer writes: each f-string of
-- app/mandates.py and app/routers/payments.py is a constructor that carries the values put into it.
use paari_payments_protocol.Prelude.{ℕ, String, Bool, List}

-- The reasons of app/mandates.py.
pub data MandateReason : Type 0 where
  -- check_mandate_signature
  unsigned_mandate no_signer_key signature_failed : MandateReason
  -- _check_one
  currency_not_mandated : String → String → MandateReason
  over_per_transaction : ℕ → ℕ → MandateReason
  merchant_not_permitted category_not_permitted : String → MandateReason
  category_required category_required_for_budget : MandateReason
  over_hourly over_daily : ℕ → ℕ → MandateReason
  over_merchant over_category : ℕ → String → ℕ → MandateReason
  review_above : ℕ → ℕ → MandateReason
  constraints_passed : MandateReason
  -- evaluate_mandate
  lapsed_mandate no_mandate contended : MandateReason

-- The reasons and policy details of app/routers/payments.py.
pub data Reason : Type 0 where
  parent_not_trusted parent_not_active parent_active_detail trust_not_active : Reason
  delegation_has_expired delegation_not_expired : Reason
  amount_must_be_positive amount_is_positive : Reason
  capability_not_delegated capability_delegated : String → Reason
  over_delegated_limit within_delegated_limit : ℕ → ℕ → Reason
  currency_not_delegated currency_delegated : String → String → Reason
  from_mandate : MandateReason → Reason
  -- '; '.join(reasons)
  joined : List MandateReason → Reason
  mandate_permits : String → Reason
  mandate_needs_review : Reason
  velocity : ℕ → Reason
  near_limit : Reason
  all_checks_passed : Reason
  step_up_verified : Reason
  review_window_expired : Reason
  idempotent_replay : Reason

-- models.GovernanceDecision
pub data GovernanceDecision : Type 0 where
  allow review deny : GovernanceDecision

abbrev pub is_deny : GovernanceDecision → Bool
is_deny deny = Bool.true
is_deny _ = Bool.false

abbrev pub is_review : GovernanceDecision → Bool
is_review review = Bool.true
is_review _ = Bool.false

pub record PolicyResult : Type 0 where
  pub name : String
  pub passed : Bool
  pub detail : Reason

-- `mfa_verified` keeps its default, False, at the one place that builds a result.
pub record GovernanceResult : Type 0 where
  pub decision : GovernanceDecision
  pub reasons : List Reason
  pub policy_results : List PolicyResult
  pub mfa_required : Bool
