-- ===== src/Mandates.antt =====
-- app/mandates.py: the user payment mandates of an agent, their state and their order.
pub mod Consent
pub mod Spend
pub mod Signature
pub mod Check
pub mod Evaluate
pub mod Budget
pub mod Sweep
pub mod View
pub mod Routes
use Prim.Native.String.{compare}
use text.Mathlib.Text.{is_lt, is_le}
use paari_payments_protocol.Prelude.{
  ltb, leb, if◌then◌else◌, ◌==◌, number_eq, text_eq, select, all, is_empty, sorted, ℕ, String, Bool,
  not, ◌&&◌, ◌||◌, Option, List,
}
use paari_payments_protocol.Models.{UserPaymentMandate, is_active_mandate}
use paari_payments_protocol.Models.Rows.{Db}
use paari_payments_protocol.Governance.{MandateReason}

pub data MandateState : Type 0 where
  none_ever lapsed active : MandateState

pub record MandateDecision : Type 0 where
  pub ok : Bool
  pub review : Bool
  pub reasons : List MandateReason
  pub mandate : Option UserPaymentMandate
  pub state : MandateState
  pub evaluated : List String

-- The proposed payment, as `evaluate_mandate` takes it.
pub record Proposal : Type 0 where
  pub merchant : String
  pub amount_minor_units : ℕ
  pub currency : String
  pub merchant_category : Option String

module _ (db : Db) (agent_id org_id : String) where
  abbrev pub in_scope : UserPaymentMandate → Bool
  in_scope m = m.agent_id == agent_id && m.org_id == org_id

  -- `_scope_query(...).all()`
  unfoldable pub scope_query : List UserPaymentMandate
  scope_query = select in_scope db.mandates

-- The order of the sort key `(max_per_transaction, max_daily_amount, mandate_id)`.
abbrev pub tighter : UserPaymentMandate → UserPaymentMandate → Bool
tighter m n =
    ltb m.max_per_transaction n.max_per_transaction
    || (m.max_per_transaction == n.max_per_transaction
        && (ltb m.max_daily_amount n.max_daily_amount
            || (m.max_daily_amount == n.max_daily_amount
                && is_le (compare m.mandate_id n.mandate_id))))

-- The filter of `active_mandates`.
abbrev pub is_live : ℕ → UserPaymentMandate → Bool
is_live now m = is_active_mandate m.status && leb m.valid_from now && ltb now m.expires_at

unfoldable pub active_mandates : Db → String → String → ℕ → List UserPaymentMandate
unfolding scope_query
active_mandates db agent_id org_id now =
    sorted tighter (select (is_live now) (scope_query db agent_id org_id))

unfoldable pub mandate_history_exists : Db → String → String → Bool
unfolding scope_query
mandate_history_exists db agent_id org_id = not (is_empty (scope_query db agent_id org_id))

unfoldable pub resolve_state : Db → String → String → ℕ → MandateState
resolve_state db agent_id org_id now =
    if not (is_empty (active_mandates db agent_id org_id now))
    then MandateState.active
    else if mandate_history_exists db agent_id org_id
    then lapsed
    else none_ever
