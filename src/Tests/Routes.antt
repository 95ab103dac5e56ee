-- ===== src/Tests/Routes.antt =====
-- Tests of logins and delegations, the gates, the envelope, the rate limits, the sweepers and the
-- language model agent, and the theorems applied to them.
use paari_payments_protocol.Prelude.{
  ◌==◌, number_eq, text_eq, eq_refl, leb, if◌then◌else◌, select, sum_of, ◌+◌, ◌-◌, ◌≤◌, ℕ, ◌≡◌,
  refl, ◌&&◌, none, some, [], ◌∷◌, arith, List, true, is_some, get_last?,
}
use paari_payments_protocol.Models.Rows.{Db, PaymentIntent}
use paari_payments_protocol.Governance.{review}
use paari_payments_protocol.Host.{Host}
use paari_payments_protocol.Audit
use paari_payments_protocol.Exec.{◌>>=◌, modify, commit, pure, gets, raise, serve, audit}
use paari_payments_protocol.Mandates.{active_mandates, resolve_state}
use paari_payments_protocol.Mandates.Spend.{spend_since, counts}
use paari_payments_protocol.Mandates.Sweep.{run_sweepers, expire_stale_reviews, is_stale}
use paari_payments_protocol.Mandates.Sweep.Release.{sweep_changes_no_state, expiry_releases_budget}
use paari_payments_protocol.Envelope.{Crypto, Fields, number, sign_envelope, verify_envelope}
use paari_payments_protocol.Envelope.Window.{accepted_within_window, verify-sign_envelope}
use paari_payments_protocol.Ratelimit.Budget.{Request, granted, granted_exactly, asked, min_of}
use paari_payments_protocol.Registry.Agents.{
  register_agent, add_agent, add_credential, add_delegation,
}
use paari_payments_protocol.Registry.Login.{VerifyRequest}
use paari_payments_protocol.Registry.NonceOnce.{
  LoginEvent, challenge, verify, sessions, is_spent, nonce_used_once,
}
use paari_payments_protocol.Registry.{find_delegation}
use paari_payments_protocol.Registry.Protocol.{
  RegisterPayload, v1_register_agent, v1_check_delegation, v1_bind_agent,
}
use paari_payments_protocol.Registry.DelegationOnce.{
  DelegationEvent, register, present, v1_register, consumptions, delegation_used_once,
}
use paari_payments_protocol.Serialization.{
  acquire_each, acquire_gate, acquire_mandate_serialization, acquire_all_mandate_gates, in_order,
}
use paari_payments_protocol.Serialization.Held.{gates-held, only_gate}
use paari_payments_protocol.LlmAgent.Tools.{Texts, text, int, object_args}
use paari_payments_protocol.LlmAgent.Broker.{Answers, body, new_broker}
use paari_payments_protocol.LlmAgent.Loop.{ModelReply, TranscriptEntry, run_goal}
use paari_payments_protocol.LlmAgent.Loop.Bounds.{run_goal-IsWithin, IsWithin, Ends}
use paari_payments_protocol.Tests.Data.{plain, small_db, mandate, intent}
use paari_payments_protocol.Tests.Trust.{different, admin, ids, registration}

-- A host that reads every credential as the one of the agent.
abbrev trusting : Host
trusting = record plain {
  decode_credential = λ now token. some (record {
    sub = "agent-1";
    jti = "cred-1";
    iat = 100;
    exp = 5000;
    protocol_version = "1.0";
    capabilities = [];
    payment_limit_minor_units = 0;
    currency = "INR";
  });
}

abbrev proof_of_key : VerifyRequest
proof_of_key = record {
  agent_id = "agent-1";
  nonce = "nonce-1";
  signature_b64 = "nonce-1";
  credential_jwt = "jwt";
}

-- A challenge, and two attempts to use its nonce.
abbrev logins : List LoginEvent
logins =
    challenge 1000 "nonce-1" "agent-1"
    ∷ verify 1010 "jti-1" proof_of_key
    ∷ verify 1020 "jti-2" proof_of_key
    ∷ []

nonce_used_once_example :
    sessions trusting "agent-1" "nonce-1" logins small_db
    ≤ (if is_spent trusting "agent-1" "nonce-1" small_db then 0 else 1)
nonce_used_once_example = nonce_used_once trusting "agent-1" "nonce-1" logins small_db

abbrev paper : Crypto
paper = record {
  canonical_json = λ fields. "text";
  int = λ v. elim v [ number n ↦ some n | _ ↦ none ];
  sign = λ key message. message;
  verify_signature = λ key message signature. message == signature;
}

abbrev signed : Fields
signed =
    sign_envelope paper 1000 "m-1" "private" "register" (some "paari") (some "agent-1") "{}" 120

accepted_within_window_example : 1170 ≤ 950 + 420
unfolding sign_envelope verify_envelope
accepted_within_window_example =
    accepted_within_window paper "public" signed "paari" 950 1170 refl refl

verify-sign_envelope_example :
    verify_envelope paper "public" signed "paari" 1100
    ≡ (leb 1000 (1100 + 60) && leb 1100 (1000 + 120 + 60))
verify-sign_envelope_example =
    verify-sign_envelope paper 1000 "m-1" "private" "public" "register" "paari" "agent-1" "{}" 120
      1100 (λ n. refl) eq_refl (different "m-1" "" refl) (different "agent-1" "" refl) (omega arith)
      (omega arith)

abbrev asking : ℕ → Request
asking at = record { at = at; scope = "login"; limit = 2; window_seconds = 60; org_id = "default" }

granted_exactly_example :
    granted "login" 1020 (asking 1021 ∷ asking 1030 ∷ asking 1040 ∷ []) []
    ≡ min_of (asked "login" 1020 (asking 1021 ∷ asking 1030 ∷ asking 1040 ∷ [])) (2 - 0)
granted_exactly_example =
    granted_exactly "login" 1020 2 (asking 1021 ∷ asking 1030 ∷ asking 1040 ∷ []) []
      ((omega arith, λ e. refl), ((omega arith, λ e. refl), ((omega arith, λ e. refl), tt)))

sweep_changes_no_state_example :
    (active_mandates (run_sweepers plain 9000000 small_db).2 "agent-1" "default" 9000001
      ≡ active_mandates small_db "agent-1" "default" 9000001)
    × (resolve_state (run_sweepers plain 9000000 small_db).2 "agent-1" "default" 9000001
        ≡ resolve_state small_db "agent-1" "default" 9000001)
sweep_changes_no_state_example =
    sweep_changes_no_state plain 9000000 9000001 "agent-1" "default" small_db (omega arith)

abbrev parked_db : Db
parked_db = record small_db {
  intents = record (intent "INR") { decision = review; review_expires_at = some 1500 } ∷ [];
}

expiry_releases_budget_example :
    spend_since plain (expire_stale_reviews plain 2000 parked_db).1 mandate 100 2000 none none
      + sum_of
          (λ (i : PaymentIntent). i.amount_minor_units)
          (select
            (λ i. counts plain mandate 100 2000 none none i && is_stale 2000 i)
            parked_db.intents)
    ≡ spend_since plain parked_db mandate 100 2000 none none
expiry_releases_budget_example =
    expiry_releases_budget plain 2000 100 2000 mandate none none parked_db

abbrev texts : Texts
texts = record { strip = λ s. s; upper = λ s. s; size = λ s. 5 }

abbrev answers : ℕ → Answers
answers n = record {
  transaction_id = "txn-llm";
  intent = body (record { decision = "allow"; authorization_id = "auth-7" });
  consume = body "PAID";
  mandate = body tt;
  proof = body tt;
}

-- A model that proposes, confirms twice, and then reports.
abbrev shopper : List TranscriptEntry → ModelReply
shopper [] = record {
  text = none;
  tool_calls =
      record {
        id = "call-1";
        name = "propose_payment";
        arguments = object_args (
            ("merchant", text "shop")
            ∷ ("amount_minor_units", int 4000)
            ∷ ("currency", text "INR")
            ∷ []);
      }
      ∷ [];
}
shopper (e ∷ []) = record {
  text = none;
  tool_calls =
      record {
        id = "call-2";
        name = "confirm_payment";
        arguments = object_args (("authorization_id", text "auth-7") ∷ []);
      }
      ∷ record {
        id = "call-3";
        name = "confirm_payment";
        arguments = object_args (("authorization_id", text "auth-7") ∷ []);
      }
      ∷ [];
}
shopper (e ∷ f ∷ es) = record { text = some "paid"; tool_calls = [] }

run_goal-IsWithin_example :
    Ends
      (IsWithin "auth-7" 5000 "INR" 1 6 12)
      (run_goal texts (λ turn i. "call") answers shopper 6 12 (new_broker 5000 "INR" 1 none))
run_goal-IsWithin_example =
    run_goal-IsWithin "auth-7" texts (λ turn i. "call") answers shopper 6 12 5000 1 "INR" none
      (different "auth-7" "" refl)

-- A payload with the delegation of `registration`.
abbrev payload : RegisterPayload
payload = record {
  public_key_pem = "new-key";
  delegation = some (record {
    canonical = "delegation-2";
    delegation_id = "delegation-2";
    parent_id = "parent-1";
    agent_public_key_fingerprint = "new-key";
    granted_capabilities = "payments" ∷ [];
    payment_limit_minor_units = 4000;
    currency = "INR";
    issued_at = some 900;
    expires_at = some 90000;
  });
  delegation_signature_b64 = "delegation-2";
}

-- The envelope of that payload.
abbrev enrolment : Fields
enrolment =
    sign_envelope paper 1000 "m-2" "private" "register" (some "paari") (some "new-key") "{}" 120

-- One delegation, presented to both routes.
abbrev presentations : List DelegationEvent
presentations =
    v1_register 1000 ids enrolment
    ∷ v1_register 1010 ids enrolment
    ∷ register 1020 ids registration
    ∷ []

presented_once :
    consumptions plain admin paper (λ body. payload) "delegation-2" presentations small_db ≡ 1
unfolding consumptions present v1_register_agent v1_check_delegation v1_bind_agent sign_envelope
    verify_envelope serve audit commit pure gets modify raise ◌>>=◌ Audit.record_audit
    register_agent add_agent add_credential add_delegation
presented_once = refl

delegation_used_once_example :
    consumptions plain admin paper (λ body. payload) "delegation-2" presentations small_db
    ≤ (if is_some (find_delegation "delegation-2" small_db) then 0 else 1)
delegation_used_once_example =
    delegation_used_once plain admin paper (λ body. payload) "delegation-2" presentations small_db

gates-held_example :
    (acquire_all_mandate_gates (λ gate. true ∷ []) ("m-1" ∷ "m-2" ∷ []) []).1
    ≡ only_gate (get_last? (in_order ("m-1" ∷ "m-2" ∷ []))) []
unfolding acquire_all_mandate_gates acquire_each acquire_mandate_serialization acquire_gate
gates-held_example = gates-held (λ gate. true ∷ []) ("m-1" ∷ "m-2" ∷ []) [] refl
