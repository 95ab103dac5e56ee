-- ===== src/Providers/Accounts.antt =====
-- app/provider_accounts.py, the configuration in app/providers/razorpay.py, and the choice of an
-- adapter in app/providers/agentic.py: which credentials and which provider an organization gets.
pub mod Honest
use Prim.Native.String.{slice, ◌++◌ as text_append}
use text.Mathlib.Text.{starts_with}
use paari_payments_protocol.Prelude.{
  if◌then◌else◌, ◌==◌, text_eq, text_or, first, is_some, String, Bool, true, false, not, ◌&&◌, ◌||◌,
  Option, none, some, List, [], ◌∷◌,
}
use paari_payments_protocol.Models.Rows.{Db, ProviderAccount}
use paari_payments_protocol.Host.{Host}
use paari_payments_protocol.Exec.{Result, ok, err, Exn, not_configured}
use paari_payments_protocol.Payments.Settlement.{Provenance}

-- `os.environ`
abbrev pub Environ : Type 0
Environ = String → Option String

-- `os.environ.get(name, "")`
abbrev pub variable : Environ → String → String
variable env name = text_or (env name) ""

abbrev pub production_api_base : String
production_api_base = "https://api.razorpay.com/v1"

abbrev pub api_base_of : Host → Environ → String
api_base_of h env = h.rstrip_slash (text_or (env "RAZORPAY_API_BASE") production_api_base)

-- `classify_environment`
unfoldable pub classify_environment : Host → String → String → String
classify_environment h key_id api_base =
    let stripped = h.rstrip_slash api_base in
    let base = if stripped == "" then production_api_base else stripped in
    if not (base == production_api_base)
    then "simulated"
    else if starts_with key_id "rzp_test_"
    then "test"
    else if starts_with key_id "rzp_live_"
    then "live"
    else "unknown"

-- A RazorpayAdapter without a client of its own: its overrides.
pub record RazorpayAdapter : Type 0 where
  pub key_id_override : String
  pub key_secret_override : String
  pub webhook_secret_override : String

abbrev pub default_adapter : RazorpayAdapter
default_adapter = record {
  key_id_override = "";
  key_secret_override = "";
  webhook_secret_override = "";
}

-- `a or b` on texts
abbrev pub or_else : String → String → String
or_else a b = if a == "" then b else a

-- `get_config`
pub record RazorpayConfig : Type 0 where
  pub key_id : String
  pub key_secret : String
  pub webhook_secret : String
  pub base : String

unfoldable pub get_config : Host → Environ → Result RazorpayConfig
get_config h env =
    let key_id = variable env "RAZORPAY_KEY_ID" in
    let key_secret = variable env "RAZORPAY_KEY_SECRET" in
    if key_id == "" || key_secret == ""
    then err
        (not_configured "RAZORPAY_KEY_ID/RAZORPAY_KEY_SECRET must be set for Phase 5 execution")
    else ok (record {
      key_id = key_id;
      key_secret = key_secret;
      webhook_secret = variable env "RAZORPAY_WEBHOOK_SECRET";
      base = api_base_of h env;
    })

-- The base and the credentials that a request of an adapter is sent with (`_request_client`).
pub record RequestTarget : Type 0 where
  pub base_url : String
  pub key_id : String
  pub key_secret : String

abbrev pub target_of : RazorpayAdapter → Result RazorpayConfig → Result RequestTarget
target_of a (err e) = err e
target_of a (ok cfg) = ok (record {
  base_url = cfg.base;
  key_id = or_else a.key_id_override cfg.key_id;
  key_secret = or_else a.key_secret_override cfg.key_secret;
})

unfoldable pub request_client : Host → Environ → RazorpayAdapter → Result RequestTarget
unfolding get_config
request_client h env a = target_of a (get_config h env)

-- `RazorpayAdapter.provenance`
unfoldable pub provenance : Host → Environ → RazorpayAdapter → Provenance
unfolding classify_environment
provenance h env a =
    let key_id = or_else a.key_id_override (variable env "RAZORPAY_KEY_ID") in
    let base = api_base_of h env in
    record {
      provider_environment = classify_environment h key_id base;
      provider_key_id_prefix = if key_id == "" then none else some (slice key_id 0 12);
      provider_api_base = some base;
    }

-- `verify_webhook_signature` and `RazorpayAdapter.verify_webhook`
unfoldable pub verify_webhook_signature : Host → String → String → String → Bool
verify_webhook_signature h raw_body signature secret =
    if raw_body == "" || signature == "" || secret == ""
    then false
    else signature == h.hmac_sha256 secret raw_body

unfoldable pub verify_webhook : Host → Environ → RazorpayAdapter → String → String → Bool
unfolding verify_webhook_signature
verify_webhook h env a raw_body signature =
    verify_webhook_signature h raw_body signature
      (or_else a.webhook_secret_override (variable env "RAZORPAY_WEBHOOK_SECRET"))

-- `_env_tag`
unfoldable pub env_tag : Host → String → String
env_tag h org_id = h.upper (h.word_chars org_id)

-- `RAZORPAY_KEY_ID__{tag}` and the like
abbrev pub scoped : Host → String → String → String
scoped h name org_id = text_append name (env_tag h org_id)

abbrev pub find_account : String → Db → Option ProviderAccount
find_account org_id db = first (λ (a : ProviderAccount). a.org_id == org_id) db.provider_accounts

-- The adapter of an organization that has its own variables.
unfoldable pub scoped_adapter : Host → Environ → String → Result RazorpayAdapter
unfolding env_tag
scoped_adapter h env org_id =
    let key_id = variable env (scoped h "RAZORPAY_KEY_ID__" org_id) in
    let key_secret = variable env (scoped h "RAZORPAY_KEY_SECRET__" org_id) in
    let webhook_secret = variable env (scoped h "RAZORPAY_WEBHOOK_SECRET__" org_id) in
    if key_id == "" || key_secret == ""
    then err (not_configured "Razorpay credentials are missing for organization")
    else if webhook_secret == ""
    then err (not_configured "Razorpay webhook secret is missing for organization")
    else ok (record {
      key_id_override = key_id;
      key_secret_override = key_secret;
      webhook_secret_override = webhook_secret;
    })

-- `get_provider_for_org`
unfoldable pub get_provider_for_org : Host → Environ → Db → Option String → Result RazorpayAdapter
unfolding scoped_adapter
get_provider_for_org h env db org_id =
    let resolved = or_else (text_or org_id "") "default" in
    if resolved == "default"
    then ok default_adapter
    else if not (is_some (find_account resolved db))
    then err (not_configured "No payment provider account is configured for organization")
    else scoped_adapter h env resolved

-- `_resolve_agentic_spec`
unfoldable pub resolve_agentic_spec : Host → Environ → Option String → String
unfolding env_tag
resolve_agentic_spec h env org_id =
    let resolved = or_else (text_or org_id "") "default" in
    if not (resolved == "default")
    then h.strip (variable env (scoped h "PAARI_AGENTIC_PROVIDER__" resolved))
    else h.strip (variable env "PAARI_AGENTIC_PROVIDER")
