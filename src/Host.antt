-- ===== src/Host.antt =====
-- What the program takes from outside this repository: text functions of the host, hashing,
-- signatures and tokens. Nothing is assumed of them here; a theorem that needs a law names it.
use paari_payments_protocol.Prelude.{ℕ, String, Bool, Option, List}
use paari_payments_protocol.Models.Rows.{Detail}

-- The claims of a session token.
pub record SessionClaims : Type 0 where
  pub sub : String
  pub credential_id : String
  pub protocol_version : String
  pub jkt : String

-- The claims of a request proof, and its header's algorithm.
pub record ProofClaims : Type 0 where
  pub alg : String
  pub typ : String
  pub sub : String
  pub iat : ℕ
  pub htm : String
  pub htu : String
  pub ath : String
  pub jti : String

-- The canonical structure that a user key signs (app/mandate_signing.py, mandate_payload). A mandate
-- that is not yet stored may have no identifier.
pub record MandatePayload : Type 0 where
  pub mandate_id : Option String
  pub user_id : String
  pub agent_id : String
  pub org_id : String
  pub currency : String
  pub max_per_transaction : ℕ
  pub max_daily_amount : ℕ
  pub max_per_hour : Option ℕ
  pub max_per_merchant_per_day : Option ℕ
  pub max_category_per_day : Option ℕ
  pub allowed_merchants : List String
  pub allowed_categories : List String
  pub require_review_above : Option ℕ
  pub issued_at : ℕ
  pub expires_at : ℕ

-- The payload that a version 2 audit hash covers (app/audit.py, _hash_event_v2).
pub record EventPayload : Type 0 where
  pub prev_hash : String
  pub kind : String
  pub agent_id : String
  pub parent_id : Option String
  pub org_id : String
  pub transaction_id : String
  pub created_at : String
  pub detail : Detail

-- The claims of a bounded authorization (app/security.py, issue_bounded_authorization_jwt).
pub record AuthorizationClaims : Type 0 where
  pub jti : String
  pub sub : String
  pub iat : ℕ
  pub exp : ℕ
  pub intent_id : String
  pub transaction_id : String
  pub merchant : String
  pub amount_minor_units : ℕ
  pub currency : String
  pub max_usage : ℕ
  pub mandate_id : Option String

-- What a parent signs to delegate authority to an agent's key (app/schemas.py, DelegationDocument).
pub record DelegationDocument : Type 0 where
  pub delegation_id : String
  pub parent_id : String
  pub agent_public_key_fingerprint : String
  pub granted_capabilities : List String
  pub payment_limit_minor_units : ℕ
  pub currency : String
  pub issued_at : ℕ
  pub expires_at : ℕ

-- The claims of a credential (app/security.py, issue_credential_jwt).
pub record CredentialClaims : Type 0 where
  pub sub : String
  pub jti : String
  pub iat : ℕ
  pub exp : ℕ
  pub protocol_version : String
  pub capabilities : List String
  pub payment_limit_minor_units : ℕ
  pub currency : String

-- The claims of a new session token (app/security.py, issue_session_token).
pub record NewSession : Type 0 where
  pub sub : String
  pub jti : String
  pub credential_id : String
  pub iat : ℕ
  pub exp : ℕ
  pub protocol_version : String
  pub capabilities : List String
  pub payment_limit_minor_units : ℕ
  pub jkt : String

pub record Host : Type 0 where
  -- str.upper, str.lower, str.strip, str.casefold, SQL lower, and a label's strip()[:120]
  pub upper : String → String
  pub lower : String → String
  pub strip : String → String
  pub casefold : String → String
  pub sql_lower : String → String
  pub strip120 : String → String
  pub isoformat : ℕ → String
  -- str.rstrip("/"), re.sub(r"\W", "", text), and `part in text`
  pub rstrip_slash : String → String
  pub word_chars : String → String
  pub contains_text : String → String → Bool
  -- hashlib.sha256(text).hexdigest(), and the access token hash of a request proof
  pub sha256 : String → String
  -- hmac.new(secret, body, sha256).hexdigest()
  pub hmac_sha256 : String → String → String
  pub access_token_hash : String → String
  -- json.dumps(payload, sort_keys=True, separators=(",", ":"))
  pub canonical_detail : Detail → String
  pub canonical_mandate : MandatePayload → String
  pub canonical_event : EventPayload → String
  pub canonical_delegation : DelegationDocument → String
  -- serialization.load_pem_public_key gives an Ed25519 key
  pub is_ed25519_pem : String → Bool
  -- the signature check of cryptography's Ed25519 keys: key, message, signature
  pub verify_signature : String → String → String → Bool
  -- crypto_utils.sign_with_private_key: key, message; and the public key of a private key
  pub sign_with_private_key : String → String → String
  pub public_pem_of : String → String
  -- jwt.encode and jwt.decode; `none` is a PyJWTError, and the clock decides expiry
  pub encode_authorization : AuthorizationClaims → String
  pub encode_credential : CredentialClaims → String
  pub decode_credential : ℕ → String → Option CredentialClaims
  pub encode_session : NewSession → String
  pub decode_session : ℕ → String → Option SessionClaims
  pub decode_proof : ℕ → String → String → Option ProofClaims
