-- ===== src/Envelope.antt =====
-- app/protocol/envelope.py: the signed container of a protocol message. An envelope is a JSON object,
-- a list of keys and values; times are seconds since 1970. A test `a < b - c` is written `a + c < b`.
pub mod Window
use paari_payments_protocol.Prelude.{
  ltb, leb, if◌then◌else◌, ◌==◌, number_eq, text_eq, select, first, all, is_some, text_or, ℕ, ◌+◌,
  ◌-◌, String, Bool, true, false, not, ◌&&◌, ◌||◌, Option, none, some, List, [], ◌∷◌, ◌++◌,
}

-- A JSON value, as far as an envelope tells values apart; an object by its canonical text.
pub data Json : Type 0 where
  text : String → Json
  number : ℕ → Json
  object : String → Json
  -- null, a Boolean or a list, with its truth
  other_json : Bool → Json

abbrev pub Fields : Type 0
Fields = List (String × Json)

-- What the code calls: crypto_utils.canonical_json, `int` (`none` is the TypeError or ValueError)
-- and Ed25519.
pub record Crypto : Type 0 where
  pub canonical_json : Fields → String
  pub int : Json → Option ℕ
  pub sign : String → String → String
  pub verify_signature : String → String → String → Bool

-- PROTOCOL, VERSION, MAX_CLOCK_SKEW_SECONDS and MAX_ENVELOPE_TTL_SECONDS
abbrev pub protocol_name : String
protocol_name = "paari"

abbrev pub envelope_version : String
envelope_version = "1.0"

abbrev pub max_clock_skew_seconds : ℕ
max_clock_skew_seconds = 60

abbrev pub max_envelope_ttl_seconds : ℕ
max_envelope_ttl_seconds = 300

-- `envelope.get(key)`
unfoldable pub get_item : String → Fields → Option Json
get_item key [] = none
get_item key ((k, v) ∷ rest) = let later = get_item key rest in if k == key then some v else later

unfoldable pub unsigned_fields : String → String → String → String → ℕ → ℕ → String → Fields
unsigned_fields type message_id sender receiver issued expires payload =
    ("protocol", text protocol_name)
    ∷ ("version", text envelope_version)
    ∷ ("type", text type)
    ∷ ("message_id", text message_id)
    ∷ ("sender", text sender)
    ∷ ("receiver", text receiver)
    ∷ ("issued_at", number issued)
    ∷ ("expires_at", number expires)
    ∷ ("payload", object payload)
    ∷ []

-- `sign_envelope` at the time `now`, with a fresh message id; the headers give receiver and sender
unfoldable pub sign_envelope :
    Crypto → ℕ → String → String → String → Option String → Option String → String → ℕ → Fields
unfolding unsigned_fields
sign_envelope c now fresh private_key type receiver sender payload ttl_seconds =
    let unsigned =
      unsigned_fields type fresh (text_or sender "agent") (text_or receiver "paari") now
        (now + ttl_seconds) payload in
    unsigned ++ ("signature", text (c.sign private_key (c.canonical_json unsigned))) ∷ []

abbrev pub number_or : Option ℕ → ℕ → ℕ
number_or none d = d
number_or (some n) d = n

-- `message_id or str(uuid.uuid4())`
abbrev pub id_or : Option String → String → String
id_or none fresh = fresh
id_or (some id) fresh = if id == "" then fresh else id

-- `build_signed_envelope`; `none` is the ValueError
unfoldable pub build_signed_envelope :
    ℕ
    → String
    → String
    → String
    → String
    → String
    → String
    → Option String
    → Option ℕ
    → Option ℕ
    → Option Fields
unfolding unsigned_fields
build_signed_envelope clock fresh type sender receiver payload signature message_id issued expires =
    let now = number_or issued clock in
    let expiry = number_or expires (now + 120) in
    if leb expiry now || ltb max_envelope_ttl_seconds (expiry - now)
    then none
    else some (
        unsigned_fields type (id_or message_id fresh) sender receiver now expiry payload
        ++ ("signature", text signature) ∷ [])

-- `signing_bytes`
unfoldable pub signing_bytes : Crypto → Fields → String
signing_bytes c envelope =
    c.canonical_json (select (λ (f : String × Json). not (f.0 == "signature")) envelope)

abbrev required_keys : List String
required_keys =
    "protocol" ∷ "version" ∷ "type" ∷ "message_id" ∷ "sender" ∷ "receiver" ∷ "issued_at"
    ∷ "expires_at" ∷ "payload" ∷ "signature" ∷ []

abbrev pub is_text : String → Option Json → Bool
is_text s (some (text t)) = t == s
is_text s _ = false

abbrev is_object : Option Json → Bool
is_object (some (object o)) = true
is_object _ = false

-- Python's truth of a value
abbrev truthy : Option Json → Bool
truthy (some (text t)) = not (t == "")
truthy (some (number n)) = not (n == 0)
truthy (some (object o)) = not (o == "{}")
truthy (some (other_json t)) = t
truthy none = false

abbrev pub time_of : Crypto → Option Json → Option ℕ
time_of c none = none
time_of c (some v) = c.int v

-- The tests of `verify_envelope` on the two times.
unfoldable pub is_fresh : ℕ → ℕ → ℕ → Bool
is_fresh issued expires now =
    not (ltb (now + max_clock_skew_seconds) issued)
    && not (ltb (expires + max_clock_skew_seconds) now)
    && not (leb expires issued || ltb max_envelope_ttl_seconds (expires - issued))

unfoldable pub is_well_formed : String → Fields → Bool
unfolding get_item
is_well_formed expected_receiver e =
    all (λ key. is_some (get_item key e)) required_keys
    && is_text protocol_name (get_item "protocol" e)
    && is_text envelope_version (get_item "version" e)
    && (expected_receiver == "" || is_text expected_receiver (get_item "receiver" e))
    && is_object (get_item "payload" e)
    && truthy (get_item "message_id" e)
    && truthy (get_item "sender" e)

abbrev pub signed_by : Crypto → String → String → Option Json → Bool
signed_by c key message (some (text s)) = c.verify_signature key message s
signed_by c key message _ = false

-- Both times are read, and the envelope is fresh.
unfoldable pub is_current : Option ℕ → Option ℕ → ℕ → Bool
unfolding is_fresh
is_current none expires now = false
is_current (some issued) none now = false
is_current (some issued) (some expires) now = is_fresh issued expires now

-- `verify_envelope` of a JSON object
unfoldable pub verify_envelope : Crypto → String → Fields → String → ℕ → Bool
unfolding is_current is_well_formed signing_bytes
verify_envelope c key e expected_receiver now =
    is_well_formed expected_receiver e
    && is_current (time_of c (get_item "issued_at" e)) (time_of c (get_item "expires_at" e)) now
    && signed_by c key (signing_bytes c e) (get_item "signature" e)
