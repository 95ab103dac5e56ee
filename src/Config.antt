-- ===== src/Config.antt =====
-- app/config.py: the governance posture, read from the environment on every call.
use paari_payments_protocol.Prelude.{
  if◌then◌else◌, ◌==◌, number_eq, text_eq, text_or, String, Bool, true, false, not, ◌&&◌, Option,
  none, some,
}
use paari_payments_protocol.Models.Rows.{says}
use paari_payments_protocol.Exec.{Exec, pure, raise, http}
use paari_payments_protocol.Host.{Host}

-- The environment variables that the modelled code reads.
pub record Environment : Type 0 where
  -- PAARI_MODE
  pub mode : Option String
  -- PAARI_REQUIRE_USER_MANDATE, PAARI_REQUIRE_SIGNED_MANDATE, PAARI_REQUIRE_REQUEST_PROOF
  pub require_user_mandate : Option String
  pub require_signed_mandate : Option String
  pub require_request_proof : Option String

pub data MandateMode : Type 0 where
  standard autonomous : MandateMode

abbrev pub is_autonomous : MandateMode → Bool
is_autonomous autonomous = true
is_autonomous standard = false

pub record MandatePolicy : Type 0 where
  pub mode : MandateMode
  pub require_signed_mandate : Bool

-- `MandatePolicy.mandate_required`
abbrev pub mandate_required : MandatePolicy → Bool
mandate_required p = is_autonomous p.mode

-- `os.environ.get(name) == "1"`
abbrev pub is_one : Option String → Bool
is_one none = false
is_one (some v) = v == "1"

abbrev pub parse_mode : String → Option MandateMode
parse_mode raw =
    if raw == "standard"
    then some standard
    else if raw == "autonomous"
    then some autonomous
    else none

unfoldable pub mandate_policy : Host → Environment → Exec MandatePolicy
mandate_policy h env = elim (parse_mode (h.lower (h.strip (text_or env.mode "standard")))) [
  | none ↦ raise (http 500 (says "Invalid PAARI_MODE"))
  | some mode ↦ pure (record {
    mode = if is_one env.require_user_mandate && not (is_autonomous mode) then autonomous else mode;
    require_signed_mandate = is_one env.require_signed_mandate;
  })
]
