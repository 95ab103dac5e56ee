-- ===== src/Serialization/Held.antt =====
-- app/mandates.py, acquire_all_mandate_gates: which gates are held once all were acquired.
use Prim.Native.String.{◌++◌ as text_append}
use paari_payments_protocol.Prelude.{
  text_eq, any, get_last?, String, Bool, true, Option, none, some, List, [], ◌∷◌, ◌≡◌, refl, arith,
  Bool-cases, Option-cases, inl, inr,
}
use paari_payments_protocol.Serialization.{
  acquire_gate, acquire_mandate_serialization, acquire_each, acquire_all_mandate_gates, in_order,
}

-- The gate of one mandate, or what was held before.
abbrev pub only_gate : Option String → List String → List String
only_gate none held = held
only_gate (some id) held = text_append "paari:mandate:" id ∷ []

acquire_each-held :
    (tries : String → List Bool) (ids held : List String)
    → (acquire_each tries ids held).0 ≡ true
    → (acquire_each tries ids held).1 ≡ only_gate (get_last? ids) held
unfolding acquire_each acquire_mandate_serialization acquire_gate
acquire_each-held tries [] held e = refl
acquire_each-held tries (id ∷ ids) held e =
    let gate = text_append "paari:mandate:" id in
    elim (Bool-cases (any (λ got. got) (tries gate))) [
      | inl got ↦
          let ih = acquire_each-held tries ids (gate ∷ []) in
          elim (Option-cases (get_last? ids)) [
            | inl l ↦ ground (arith, got, l, ih)
            | inr (x, l) ↦ ground (arith, got, l, ih)
          ]
      | inr lost ↦ ground (arith, lost)
    ]

-- On PostgreSQL, when `acquire_all_mandate_gates` answers that every gate was acquired, the session
-- holds the gate of the last mandate in the order only, whatever gates the others were and it held
-- before: with two mandates or more, the first is not held.
pub gates-held :
    (tries : String → List Bool) (mandate_ids held : List String)
    → (acquire_all_mandate_gates tries mandate_ids held).0 ≡ true
    → (acquire_all_mandate_gates tries mandate_ids held).1
      ≡ only_gate (get_last? (in_order mandate_ids)) held
unfolding acquire_all_mandate_gates
gates-held tries mandate_ids held e = acquire_each-held tries (in_order mandate_ids) held e
