-- ===== src/Serialization.antt =====
-- app/serialization.py, acquire_gate, and the gates of app/mandates.py, on PostgreSQL: advisory locks
-- that end with their transaction. The state is the list of the gates that the session holds.
pub mod Held
use Prim.Native.String.{compare, ◌++◌ as text_append}
use text.Mathlib.Text.{is_le}
use paari_payments_protocol.Prelude.{
  if◌then◌else◌, text_eq, any, sorted, distinct, String, Bool, true, false, List, [], ◌∷◌,
}

-- `db.commit()` and `db.rollback()` end the transaction, and its advisory locks with it.
abbrev pub end_transaction : List String → List String
end_transaction held = []

-- `acquire_gate`: `tries` are the answers of pg_try_advisory_xact_lock until the deadline
unfoldable pub acquire_gate : List Bool → String → List String → Bool × List String
acquire_gate tries name held =
    if any (λ got. got) tries
    then (true, name ∷ end_transaction held)
    else (false, end_transaction (end_transaction held))

-- `acquire_mandate_serialization`
unfoldable pub acquire_mandate_serialization :
    (String → List Bool) → String → List String → Bool × List String
unfolding acquire_gate
acquire_mandate_serialization tries mandate_id held =
    let gate = text_append "paari:mandate:" mandate_id in acquire_gate (tries gate) gate held

unfoldable pub acquire_each : (String → List Bool) → List String → List String → Bool × List String
unfolding acquire_mandate_serialization
acquire_each tries [] held = (true, held)
acquire_each tries (id ∷ ids) held =
    let (got, after) = acquire_mandate_serialization tries id held in
    let rest = acquire_each tries ids after in if got then rest else (false, after)

-- `sorted(set(mandate_ids))`
abbrev pub in_order : List String → List String
in_order ids = sorted (λ s t. is_le (compare s t)) (distinct ids)

-- `acquire_all_mandate_gates`
unfoldable pub acquire_all_mandate_gates :
    (String → List Bool) → List String → List String → Bool × List String
unfolding acquire_each
acquire_all_mandate_gates tries mandate_ids held = acquire_each tries (in_order mandate_ids) held
