-- ===== src/Mandates/Routes.antt =====
-- The routes of app/routers/v1.py that make, end and bind user payment mandates.
pub mod Terms
pub mod Steps
pub mod Accepts
pub mod History
pub mod Sound
pub mod Final
use Prim.Native.String.{◌++◌ as text_append}
use paari_payments_protocol.Prelude.{
  ltb, leb, if◌then◌else◌, ◌==◌, number_eq, text_eq, text_or, first, any, is_some, update_where, ℕ,
  String, Bool, true, false, not, ◌&&◌, ◌||◌, Option, none, some, List, [], ◌∷◌, ◌++◌,
}
use paari_payments_protocol.Models.{
  UserPaymentMandate, MandateStatus, is_active_mandate, PaymentInstrumentBinding, Agent,
}
use paari_payments_protocol.Models.Rows.{says, Db, Value, null, str, num, flag}
use paari_payments_protocol.Host.{Host}
use paari_payments_protocol.Audit
use paari_payments_protocol.Exec.{
  Exec, gets, pure, require, raise, raise_if, ◌>>=◌, ◌>>◌, modify, commit, rollback, audit, http,
  other, when,
}
use paari_payments_protocol.Payments.Authenticate.{find_agent, parent_for, keep_if}
use paari_payments_protocol.Payments.Records.{parent_id_of}
use paari_payments_protocol.Registry.{AdminConfig, require_admin_org}
use paari_payments_protocol.Mandates.Signature.{mandate_payload, verify_payload, present}
use paari_payments_protocol.Mandates.View.{MandateView, mandate_view}
use paari_payments_protocol.Mandates.Consent.{
  CreatePaymentMandateRequest, BindProviderMandateRequest, find_mandate, time_or, is_zero, is_given,
  is_signed_request, new_mandate, mandate_created, signature_rejected, end_mandate, parent_of_agent,
  new_binding,
}

module _ (h : Host) (admin : AdminConfig) (key : String) (now : ℕ) where
  unfoldable pub write_mandate : Agent → UserPaymentMandate → Exec MandateView
  unfolding mandate_created mandate_view
  write_mandate agent m = do
    modify λ db. record db { mandates = db.mandates ++ m ∷ [] }
    parent ← gets (parent_for agent)
    audit h now (mandate_created agent (parent_id_of parent) m)
    commit
    gets (λ db. mandate_view h db now m)

  -- The row with its audit event, in one transaction; the flush checks that the identifier is new.
  unfoldable pub store_mandate : Agent → UserPaymentMandate → Exec MandateView
  unfolding write_mandate
  store_mandate agent m = do
    taken ← gets (find_mandate m.mandate_id)
    raise_if (is_some taken) (http 409 (says "mandate_id already exists"))
    write_mandate agent m

  -- `create_user_payment_mandate`
  unfoldable pub create_user_payment_mandate :
      String → CreatePaymentMandateRequest → Exec MandateView
  unfolding store_mandate new_mandate
  create_user_payment_mandate drawn req = do
    found ← gets (find_agent req.agent_id)
    agent ← require found (http 404 (says "Agent not found"))
    require_admin_org admin key agent.org_id
    raise_if (leb req.expires_at (time_or req.valid_from now))
        (http 400 (says "expires_at must be after valid_from"))
    raise_if (req.max_per_transaction == 0 || req.max_daily_amount == 0)
        (http 400 (says "mandate limits must be positive"))
    raise_if (ltb req.max_daily_amount req.max_per_transaction)
        (http 400 (says "max_per_transaction cannot exceed max_daily_amount"))
    raise_if (is_zero req.max_per_hour) (http 400 (says "max_per_hour must be positive when set"))
    raise_if (is_zero req.max_per_merchant_per_day)
        (http 400 (says "max_per_merchant_per_day must be positive when set"))
    raise_if (is_zero req.max_category_per_day)
        (http 400 (says "max_category_per_day must be positive when set"))
    raise_if (not (h.upper req.currency == h.upper agent.currency))
        (http 400 (says "mandate currency must match the agent currency"))
    let m = new_mandate h now drawn agent req
    raise_if
        (is_signed_request req
          && not (is_given req.user_public_key_pem && is_given req.mandate_signature_b64))
        (http 400 (says "signature requires both user_public_key_pem and mandate_signature_b64"))
    raise_if (is_signed_request req && signature_rejected h req m)
        (http 400 (says "mandate signature rejected"))
    store_mandate agent m

  -- The row and its audit event, in one transaction.
  unfoldable pub write_revocation : String → String → UserPaymentMandate → Exec MandateView
  unfolding mandate_view
  write_revocation id reason m = do
    modify λ db. record db {
      mandates =
          update_where (λ (n : UserPaymentMandate). n.mandate_id == id) (end_mandate now)
            db.mandates;
    }
    agent ←
        gets
          (λ db. first (λ (a : Agent). a.agent_id == m.agent_id && a.org_id == m.org_id) db.agents)
    parent_id ← gets (parent_of_agent agent)
    audit h now (record {
      transaction_id = text_append "mandate:" m.mandate_id;
      agent_id = m.agent_id;
      parent_id = parent_id;
      kind = "user_mandate_revoked";
      detail = ("mandate_id", str m.mandate_id) ∷ ("reason", str reason) ∷ [];
      org_id = some m.org_id;
    })
    commit
    gets (λ db. mandate_view h db now (end_mandate now m))

  -- `revoke_user_payment_mandate`
  unfoldable pub revoke_user_payment_mandate : String → String → Exec MandateView
  unfolding write_revocation
  revoke_user_payment_mandate id reason = do
    found ← gets (find_mandate id)
    m ← require found (http 404 (says "Mandate not found"))
    require_admin_org admin key m.org_id
    write_revocation id reason m

  -- The unique index on (provider, provider_mandate_ref).
  abbrev pub same_ref : BindProviderMandateRequest → PaymentInstrumentBinding → Bool
  same_ref req b = b.provider == req.provider && b.provider_mandate_ref == req.provider_mandate_ref

  -- The row and its audit event, in one transaction. The identifier of the row is drawn by the flush,
  -- after the audit event was composed, which therefore has none.
  unfoldable pub write_binding :
      String → UserPaymentMandate → BindProviderMandateRequest → Exec PaymentInstrumentBinding
  unfolding new_binding
  write_binding drawn m req = do
    modify λ db. record db { bindings = db.bindings ++ new_binding h drawn m req ∷ [] }
    audit h now (record {
      transaction_id = text_append "mandate:" m.mandate_id;
      agent_id = m.agent_id;
      parent_id = none;
      kind = "provider_mandate_bound";
      detail =
          ("binding_id", null)
          ∷ ("provider", str req.provider)
          ∷ ("provider_mandate_ref", str req.provider_mandate_ref)
          ∷ [];
      org_id = some m.org_id;
    })
    commit
    pure (new_binding h drawn m req)

  -- `bind_provider_mandate`
  unfoldable pub bind_provider_mandate :
      String → String → BindProviderMandateRequest → Exec PaymentInstrumentBinding
  unfolding write_binding
  bind_provider_mandate drawn id req = do
    found ← gets (find_mandate id)
    m ← require found (http 404 (says "Mandate not found"))
    require_admin_org admin key m.org_id
    raise_if (not (is_active_mandate m.status)) (http 409 (says "Mandate is not active"))
    raise_if (leb m.expires_at now || ltb now m.valid_from)
        (http 409 (says "Mandate is outside its validity window"))
    raise_if (not (h.upper req.currency == h.upper m.currency))
        (http 400 (says "provider binding currency must match the mandate"))
    raise_if (ltb m.max_per_transaction req.max_amount_minor_units)
        (http 400 (says "provider binding exceeds mandate per-transaction limit"))
    clash ← gets (λ db. any (same_ref req) db.bindings)
    raise_if clash (other "IntegrityError")
    write_binding drawn m req
