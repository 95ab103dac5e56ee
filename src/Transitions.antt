-- ===== src/Transitions.antt =====
-- app/transitions.py: the transition table of `ProviderTransaction.state`.
pub mod Paths
use paari_payments_protocol.Prelude.{
  Bool, true, false, Option, none, some, List, [], ◌∷◌, ◌||◌, if◌then◌else◌,
}

-- The keys of `TRANSITION_TABLE`.
pub data TxnState : Type 0 where
  authorized provider_submitted provider_authorized captured payment_pending : TxnState
  provider_unknown failed paid refunded reversed expired cancelled declined : TxnState

pub TxnState-discrete : Discrete TxnState
TxnState-discrete = hlevel

-- The position of a state in the table; two states are the same when it is.
abbrev pub is_state : TxnState → TxnState → Bool
is_state authorized authorized = true
is_state provider_submitted provider_submitted = true
is_state provider_authorized provider_authorized = true
is_state captured captured = true
is_state payment_pending payment_pending = true
is_state provider_unknown provider_unknown = true
is_state failed failed = true
is_state paid paid = true
is_state refunded refunded = true
is_state reversed reversed = true
is_state expired expired = true
is_state cancelled cancelled = true
is_state declined declined = true
is_state _ _ = false

-- `TRANSITION_TABLE`
abbrev pub transition_table : TxnState → List TxnState
transition_table authorized =
    provider_submitted ∷ failed ∷ provider_unknown ∷ expired ∷ cancelled ∷ []
transition_table provider_submitted =
    provider_authorized ∷ captured ∷ paid ∷ failed ∷ declined ∷ provider_unknown ∷ []
transition_table provider_authorized = captured ∷ paid ∷ failed ∷ declined ∷ provider_unknown ∷ []
transition_table captured = paid ∷ provider_unknown ∷ []
transition_table payment_pending = captured ∷ paid ∷ failed ∷ declined ∷ provider_unknown ∷ []
transition_table provider_unknown =
    provider_authorized ∷ captured ∷ paid ∷ failed ∷ declined ∷ provider_submitted ∷ []
transition_table failed = captured ∷ paid ∷ []
transition_table paid = refunded ∷ reversed ∷ []
transition_table _ = []

abbrev pub member : TxnState → List TxnState → Bool
member s [] = false
member s (t ∷ ts) = is_state s t || member s ts

-- `TERMINAL_STATES`
abbrev pub terminal_states : List TxnState
terminal_states = paid ∷ refunded ∷ reversed ∷ expired ∷ cancelled ∷ declined ∷ []

abbrev pub is_terminal : TxnState → Bool
is_terminal s = member s terminal_states

-- `transition_txn` on the state alone: `none` is `IllegalTransitionError`.
unfoldable pub transition : TxnState → TxnState → Option TxnState
transition from to = if member to (transition_table from) then some to else none
