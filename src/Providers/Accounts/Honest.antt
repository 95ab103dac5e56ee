-- ===== src/Providers/Accounts/Honest.antt =====
-- Whose credentials a payment of app/provider_accounts.py is made with, and what the provenance of
-- app/providers/razorpay.py lets a proof bundle claim.
use Prim.Native.String.{◌++◌ as text_append}
use text.Mathlib.Text.{starts_with}
use paari_payments_protocol.Prelude.{
  if◌then◌else◌, ◌==◌, text_eq, eq_iff, is_some, String, Bool, true, false, not, ◌≡◌, ◌↔◌, ◌⊎◌,
  refl, text_or, eq_refl, arith,
}
use paari_payments_protocol.Models.Rows.{Db}
use paari_payments_protocol.Host.{Host}
use paari_payments_protocol.Exec.{ok}
use paari_payments_protocol.Evidence.Artifacts.{settlement_source}
use paari_payments_protocol.Providers.Accounts.{
  Environ, variable, production_api_base, api_base_of, classify_environment, RazorpayAdapter,
  RequestTarget, or_else, get_config, request_client, provenance, find_account,
}

source_cases :
    (production test live : Bool)
    → (settlement_source (
          if not production
          then "simulated"
          else if test
          then "test"
          else if live
          then "live"
          else "unknown")
        ≡ "provider")
      ↔ ((production ≡ true) × ((test ≡ true) ⊎ (live ≡ true)))
unfolding settlement_source
source_cases true true live = ground (arith)
source_cases true false true = ground (arith)
source_cases true false false = ground (arith, eq_iff "unattributed" "provider")
source_cases false test live = ground (arith, eq_iff "simulator" "provider")

production_by :
    (d : Bool) (b : String)
    → (b == "") ≡ d
    → ((if d then production_api_base else b) == production_api_base ≡ true)
      ↔ ((b ≡ production_api_base) ⊎ (b ≡ ""))
production_by true b e = ground (arith, e, eq_iff b "", eq_refl production_api_base)
production_by false b e = ground (arith, e, eq_iff b "", eq_iff b production_api_base)

production_iff :
    (b : String)
    → (or_else b production_api_base == production_api_base ≡ true)
      ↔ ((b ≡ production_api_base) ⊎ (b ≡ ""))
production_iff b = production_by (b == "") b refl

-- A request that is sent goes to the configured address, with the key that the provenance classifies.
request_client-ok :
    (h : Host) (env : Environ) (a : RazorpayAdapter) (target : RequestTarget)
    → request_client h env a ≡ ok target
    → (target.base_url ≡ api_base_of h env)
      × (target.key_id ≡ or_else a.key_id_override (variable env "RAZORPAY_KEY_ID"))
unfolding request_client get_config
request_client-ok h env a target e = ground (arith, e)

-- The source that a bundle names is where the request went: for an adapter without a client of its own
-- that sends a request, the classification of its provenance is named as the provider's exactly if the
-- request has a key of the provider's test or live form and the production address as its base, or no
-- base at all; if removing trailing slashes twice is removing them once.
pub provider_is_source_iff :
    (h : Host) (env : Environ) (a : RazorpayAdapter) (target : RequestTarget)
    → ((s : String) → h.rstrip_slash (h.rstrip_slash s) ≡ h.rstrip_slash s)
    → request_client h env a ≡ ok target
    → (settlement_source (provenance h env a).provider_environment ≡ "provider") ↔ (
        ((target.base_url ≡ "https://api.razorpay.com/v1") ⊎ (target.base_url ≡ ""))
        × ((starts_with target.key_id "rzp_test_" ≡ true)
            ⊎ (starts_with target.key_id "rzp_live_" ≡ true)))
unfolding provenance classify_environment
provider_is_source_iff h env a target once sent =
    let (base, key) = request_client-ok h env a target sent in
    let stripped : h.rstrip_slash (api_base_of h env) ≡ api_base_of h env =
      once (text_or (env "RAZORPAY_API_BASE") production_api_base) in
    rw (stripped, base, key)
      (let cases =
          source_cases (or_else (api_base_of h env) production_api_base == production_api_base)
            (starts_with (or_else a.key_id_override (variable env "RAZORPAY_KEY_ID")) "rzp_test_")
            (starts_with (or_else a.key_id_override (variable env "RAZORPAY_KEY_ID"))
              "rzp_live_") in
        ground (arith, cases, production_iff (api_base_of h env)))

-- The name of a variable of an organization: its word characters, in upper case, behind the setting.
abbrev pub own_variable : Host → String → String → String
own_variable h name org_id = text_append name (h.upper (h.word_chars org_id))

-- The credentials of one organization.
pub record IsOwn (h : Host) (env : Environ) (db : Db) (org_id : String) (a : RazorpayAdapter)
    (target : RequestTarget) : Type 0 where
  account : is_some (find_account org_id db) ≡ true
  key_id : target.key_id ≡ variable env (own_variable h "RAZORPAY_KEY_ID__" org_id)
  key_secret : target.key_secret ≡ variable env (own_variable h "RAZORPAY_KEY_SECRET__" org_id)
  webhook :
      a.webhook_secret_override ≡ variable env (own_variable h "RAZORPAY_WEBHOOK_SECRET__" org_id)
  complete :
      ((target.key_id == "") ≡ false)
      × ((target.key_secret == "") ≡ false)
      × ((a.webhook_secret_override == "") ≡ false)

or_else-given : (a b : String) → (a == "") ≡ false → or_else a b ≡ a
or_else-given a b e = rw e refl
