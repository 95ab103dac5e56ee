-- ===== src/LlmAgent/Tools.antt =====
-- llm_agent/tools.py: the contracts of the tools. Arguments are untrusted.
use paari_payments_protocol.Prelude.{
  ltb, if◌then◌else◌, ◌==◌, number_eq, text_eq, any, ℕ, String, Bool, true, false, not, ◌||◌,
  Option, none, some, List, [], ◌∷◌, ◌++◌,
}

-- A JSON value, as far as `validate` tells values apart.
pub data Arg : Type 0 where
  text : String → Arg
  int : ℕ → Arg
  negative_int : Arg
  boolean : Bool → Arg
  null_arg : Arg
  other_arg : Arg

-- str.strip, str.upper and len of a text.
pub record Texts : Type 0 where
  pub strip : String → String
  pub upper : String → String
  pub size : String → ℕ

pub data Args : Type 0 where
  absent : Args
  object_args : List (String × Arg) → Args
  no_object : Args

-- The cleaned arguments, or the code of a ToolArgsError.
pub data Checked : Type 0 where
  clean : List (String × Arg) → Checked
  tool_args_error : String → Checked

-- MAX_STR_LEN
abbrev max_str_len : String → ℕ
max_str_len key =
    if key == "merchant"
    then 80
    else if key == "purpose"
    then 300
    else if key == "authorization_id"
    then 128
    else if key == "transaction_id"
    then 128
    else if key == "currency"
    then 8
    else if key == "merchant_category"
    then 80
    else 200

-- _SPECS: the keys that a tool takes, and whether each is an integer
abbrev pub spec_of : String → Option (List (String × Bool))
spec_of name =
    if name == "get_delegation" || name == "get_payment_authority"
    then some []
    else if name == "propose_payment"
    then some (
        ("merchant", false)
        ∷ ("amount_minor_units", true)
        ∷ ("currency", false)
        ∷ ("purpose", false)
        ∷ ("merchant_category", false)
        ∷ [])
    else if name == "confirm_payment"
    then some (("authorization_id", false) ∷ [])
    else if name == "read_proof"
    then some (("transaction_id", false) ∷ [])
    else none

-- _REQUIRED
abbrev required_of : String → List String
required_of name =
    if name == "propose_payment"
    then "merchant" ∷ "amount_minor_units" ∷ "currency" ∷ []
    else if name == "confirm_payment"
    then "authorization_id" ∷ []
    else if name == "read_proof"
    then "transaction_id" ∷ []
    else []

-- `args.get(key)`
abbrev pub arg_of : String → List (String × Arg) → Option Arg
arg_of key [] = none
arg_of key ((k, v) ∷ rest) = let later = arg_of key rest in if k == key then some v else later

abbrev is_given : Option Arg → Bool
is_given none = false
is_given (some null_arg) = false
is_given (some _) = true

module _ (h : Texts) where
  -- The check of one value: the value that is kept, or an error code.
  unfoldable pub check_arg : String → Bool → Arg → Checked
  check_arg key true (int n) = clean ((key, int n) ∷ [])
  check_arg key true negative_int = clean ((key, negative_int) ∷ [])
  check_arg key true (text s) = tool_args_error "BAD_ARGUMENT_TYPE"
  check_arg key true (boolean b) = tool_args_error "BAD_ARGUMENT_TYPE"
  check_arg key true null_arg = tool_args_error "BAD_ARGUMENT_TYPE"
  check_arg key true other_arg = tool_args_error "BAD_ARGUMENT_TYPE"
  check_arg key false (text s) =
      if h.strip s == ""
      then tool_args_error "BAD_ARGUMENT_TYPE"
      else if ltb (max_str_len key) (h.size (h.strip s))
      then tool_args_error "ARGUMENT_TOO_LONG"
      else clean ((key, text (h.strip s)) ∷ [])
  check_arg key false null_arg = clean ((key, null_arg) ∷ [])
  check_arg key false (int n) = tool_args_error "BAD_ARGUMENT_TYPE"
  check_arg key false negative_int = tool_args_error "BAD_ARGUMENT_TYPE"
  check_arg key false (boolean b) = tool_args_error "BAD_ARGUMENT_TYPE"
  check_arg key false other_arg = tool_args_error "BAD_ARGUMENT_TYPE"

  abbrev and_then : Checked → Checked → Checked
  and_then (tool_args_error c) rest = tool_args_error c
  and_then (clean xs) (tool_args_error c) = tool_args_error c
  and_then (clean xs) (clean ys) = clean (xs ++ ys)

  -- The loop over the specification; the first error wins.
  unfoldable pub check_args : List (String × Bool) → List (String × Arg) → Checked
  unfolding check_arg
  check_args [] args = clean []
  check_args ((key, is_int) ∷ spec) args =
      let rest = check_args spec args in
      elim (arg_of key args) [ none ↦ rest | some v ↦ and_then (check_arg key is_int v) rest ]

  abbrev arguments : Args → Option (List (String × Arg))
  arguments absent = some []
  arguments (object_args xs) = some xs
  arguments no_object = none

  -- `validate`
  unfoldable pub validate : String → Args → Checked
  unfolding check_args
  validate name args = elim (spec_of name) [
    | none ↦ tool_args_error "UNKNOWN_TOOL"
    | some spec ↦ elim (arguments args) [
      | none ↦ tool_args_error "BAD_ARGUMENTS"
      | some given ↦
          if any (λ (a : String × Arg). not (any (λ (k : String × Bool). k.0 == a.0) spec)) given
          then tool_args_error "UNKNOWN_ARGUMENT"
          else if any (λ key. not (is_given (arg_of key given))) (required_of name)
          then tool_args_error "MISSING_ARGUMENT"
          else check_args spec given
    ]
  ]
