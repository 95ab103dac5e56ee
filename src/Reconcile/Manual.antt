-- ===== src/Reconcile/Manual.antt =====
-- `manual_reconcile` of app/routers/v1.py: an agent asks for the reconciliation of its authorization.
use paari_payments_protocol.Prelude.{String, some, text_eq}
use paari_payments_protocol.Models.Rows.{says}
use paari_payments_protocol.Host.{Host}
use paari_payments_protocol.Config.{Environment}
use paari_payments_protocol.Exec.{Exec, gets, require, http, ◌>>=◌, ◌>>◌}
use paari_payments_protocol.Payments.Authenticate.{HttpRequest, resolve_session_token, authenticate}
use paari_payments_protocol.Payments.Consume.{find_authorization}
use paari_payments_protocol.Reconcile.{ReadAnswers, Outcome, reconcile_one}

-- `manual_reconcile`
unfoldable pub manual_reconcile :
    Host → Environment → HttpRequest → ReadAnswers → String → Exec Outcome
manual_reconcile h env q w id = do
  found ← gets (find_authorization id)
  auth ← require found (http 404 (says "Authorization not found"))
  token ← resolve_session_token h q
  authenticate h env q token (some auth.agent_id)
  reconcile_one h q.now w id
