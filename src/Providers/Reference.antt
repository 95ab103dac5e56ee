-- ===== src/Providers/Reference.antt =====
-- app/providers/reference_autonomous.py: the provider in memory that the autonomous path can be run
-- with. Its class variables are the state; an operation gives the answer and the state after it.
pub mod Settles
use Prim.Native.String.{slice, ◌++◌ as text_append}
use paari_payments_protocol.Prelude.{
  if◌then◌else◌, ◌==◌, number_eq, text_eq, first, update_where, is_some, ℕ, String, Bool, true,
  false, not, ◌&&◌, ◌||◌, Option, none, some, List, [], ◌∷◌, ◌++◌,
}
use paari_payments_protocol.Models.Rows.{BoundedAuthorization}
use paari_payments_protocol.Host.{Host}
use paari_payments_protocol.Exec.{Result, ok, err, other}
use paari_payments_protocol.Payments.Settlement.{ProviderPayment, Provenance, AgenticAnswers}

pub record Payment : Type 0 where
  pub payment_id : String
  pub amount : ℕ
  pub currency : String
  pub status : String

pub record ProviderMandate : Type 0 where
  pub mandate_id : String
  pub user_reference : String
  pub max_amount_minor_units : ℕ
  pub currency : String
  pub status : String

-- `_mandates` and `_payments`, by their keys.
pub record Provider : Type 0 where
  pub mandates : List ProviderMandate
  pub payments : List Payment

abbrev pub find_payment : String → Provider → Option Payment
find_payment ref p = first (λ (x : Payment). x.payment_id == ref) p.payments

abbrev pub find_provider_mandate : String → Provider → Option ProviderMandate
find_provider_mandate ref p = first (λ (m : ProviderMandate). m.mandate_id == ref) p.mandates

-- `self._mandates[mandate_id] = …`
unfoldable pub create_or_bind_mandate : Host → String → String → ℕ → String → Provider → Provider
create_or_bind_mandate h mandate_id user_reference max_amount currency p =
    let row : ProviderMandate = record {
      mandate_id = mandate_id;
      user_reference = user_reference;
      max_amount_minor_units = max_amount;
      currency = h.upper currency;
      status = "active";
    } in
    record p {
      mandates =
          if is_some (find_provider_mandate mandate_id p)
          then update_where (λ (m : ProviderMandate). m.mandate_id == mandate_id) (λ m. row)
              p.mandates
          else p.mandates ++ row ∷ [];
    }

-- `validate_mandate`, its "valid": a reference that is not an active mandate is accepted as well
unfoldable pub validate_mandate : String → Provider → Bool
validate_mandate ref p = elim (find_provider_mandate ref p) [
  | none ↦ true
  | some m ↦ if m.status == "active" then true else true
]

-- `f"pay_ref_{authorization_id[:18]}"`
abbrev pub payment_id_of : String → String
payment_id_of authorization_id = text_append "pay_ref_" (slice authorization_id 0 18)

module _ (h : Host) where
  -- `authorize_payment`: the reference, and the payment that is held for it from then on
  unfoldable pub authorize_payment :
      String → String → ℕ → String → Provider → Result String × Provider
  authorize_payment authorization_id mandate_ref amount currency p =
      let id = payment_id_of authorization_id in
      if not (validate_mandate mandate_ref p)
      then (err (other "reference provider mandate inactive"), p)
      else if is_some (find_payment id p)
      then (ok id, p)
      else (
        ok id,
        record p {
          payments =
              p.payments
              ++ record {
                payment_id = id;
                amount = amount;
                currency = h.upper currency;
                status = "authorized";
              }
                ∷ [];
        },
      )

  abbrev pub differs : Payment → ℕ → String → Bool
  differs x amount currency = not (x.amount == amount) || not (x.currency == h.upper currency)

  -- `capture_payment`
  unfoldable pub capture_payment : String → ℕ → String → Provider → Result String × Provider
  capture_payment ref amount currency p = elim (find_payment ref p) [
    | none ↦ (err (other "reference provider payment not found"), p)
    | some x ↦
        if differs x amount currency
        then (err (other "reference provider payment does not match authorization"), p)
        else if x.status == "captured"
        then (ok "already_captured", p)
        else (
          ok "captured",
          record p {
            payments =
                update_where (λ (y : Payment). y.payment_id == ref)
                  (λ (y : Payment). record y { status = "captured" }) p.payments;
          },
        )
  ]

-- `get_payment`
unfoldable pub get_payment : String → Provider → Result ProviderPayment
get_payment ref p = elim (find_payment ref p) [
  | none ↦ err (other "reference provider payment not found")
  | some x ↦ ok (record {
    id = some x.payment_id;
    status = x.status;
    amount = some x.amount;
    currency = some x.currency;
    order_id = none;
    error_code = "";
  })
]

-- `revoke_mandate`: whether it was known, and the state
unfoldable pub revoke_mandate : String → Provider → Bool × Provider
revoke_mandate ref p = (
  is_some (find_provider_mandate ref p),
  record p {
    mandates =
        update_where (λ (m : ProviderMandate). m.mandate_id == ref)
          (λ (m : ProviderMandate). record m { status = "revoked" }) p.mandates;
  },
)

-- `provenance`
abbrev pub reference_provenance : Provenance
reference_provenance = record {
  provider_environment = "simulated";
  provider_key_id_prefix = none;
  provider_api_base = some "in-memory://reference-autonomous";
}

abbrev pub ref_of : Result String → Result (Option String)
ref_of (ok r) = ok (some r)
ref_of (err e) = err e

-- What the provider answers, call after call, to `_consume_agentic_settlement` for an authorization.
unfoldable pub reference_answers : Host → Provider → BoundedAuthorization → String → AgenticAnswers
unfolding authorize_payment capture_payment get_payment validate_mandate
reference_answers h p auth mandate_ref =
    let id = payment_id_of auth.authorization_id in
    let (authorized, p1) =
      authorize_payment h auth.authorization_id mandate_ref auth.amount_minor_units auth.currency
        p in
    let (captured, p2) = capture_payment h id auth.amount_minor_units auth.currency p1 in
    record {
      supports_autonomous_settlement = true;
      provenance = some reference_provenance;
      validate_mandate = ok (validate_mandate mandate_ref p);
      authorize_payment = ref_of authorized;
      capture_payment = captured;
      get_payment = get_payment id p2;
    }
