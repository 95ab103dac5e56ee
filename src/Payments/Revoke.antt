-- ===== src/Payments/Revoke.antt =====
-- `revoke_authorization` of app/routers/v1.py: an agent burns the use of its own authorization.
use paari_payments_protocol.Prelude.{
  ltb, if◌then◌else◌, ◌==◌, number_eq, text_eq, length, select, update_where, String, Bool, ◌&&◌,
  none, some, [], ◌∷◌,
}
use paari_payments_protocol.Models.Rows.{says, BoundedAuthorization, str}
use paari_payments_protocol.Host.{Host}
use paari_payments_protocol.Config.{Environment}
use paari_payments_protocol.Exec.{
  Exec, gets, ◌>>=◌, ◌>>◌, modify, commit, rollback, require, raise, audit, http,
}
use paari_payments_protocol.Payments.Authenticate.{HttpRequest, resolve_session_token, authenticate}
use paari_payments_protocol.Payments.Consume.{find_authorization}

-- The rows that the UPDATE takes: this authorization, with a use left.
abbrev pub has_use_left : String → BoundedAuthorization → Bool
has_use_left id a = a.authorization_id == id && ltb a.usage_count a.max_usage

abbrev pub burn : BoundedAuthorization → BoundedAuthorization
burn a = record a { usage_count = a.max_usage }

-- The UPDATE.
unfoldable pub burn_uses : String → Exec Unit
burn_uses id =
    modify
      λ db. record db { authorizations = update_where (has_use_left id) burn db.authorizations }

-- `revoke_authorization`
unfoldable pub revoke_authorization : Host → Environment → HttpRequest → String → Exec Unit
unfolding burn_uses
revoke_authorization h env q id = do
  found ← gets (find_authorization id)
  auth ← require found (http 404 (says "Authorization not found"))
  token ← resolve_session_token h q
  authenticate h env q token (some auth.agent_id)
  rows ← gets λ db. length (select (has_use_left id) db.authorizations)
  burn_uses id
  if rows == 1
      then (do
        audit h q.now (record {
          transaction_id = auth.transaction_id;
          agent_id = auth.agent_id;
          parent_id = none;
          kind = "authorization_revoked";
          detail = ("authorization_id", str id) ∷ [];
          org_id = some auth.org_id;
        })
        commit)
      else (do rollback; raise (http 409 (says "Authorization already used or revoked")))
