-- ===== src/Payments/History.antt =====
-- Histories of requests that touch payments, and of runs of the reconciliation, in any order.
use paari_payments_protocol.Prelude.{
  number_eq, text_eq, length, select, All, sum_of, ℕ, ◌≤◌, String, Bool, Option, List, [], ◌∷◌,
  arith,
}
use paari_payments_protocol.Models.Rows.{Db, BoundedAuthorization}
use paari_payments_protocol.Host.{Host}
use paari_payments_protocol.Config.{Environment}
use paari_payments_protocol.Exec.{Exec, serve, Call}
use paari_payments_protocol.Exec.Keeps.{Keeps}
use paari_payments_protocol.Payments.Authenticate.{HttpRequest}
use paari_payments_protocol.Payments.Consume.{ConsumeAnswers, consume_authorization}
use paari_payments_protocol.Payments.Consume.Ledger.{IsBounded, charges, used, has_id, Ledger}
use paari_payments_protocol.Payments.Consume.SingleUse.{consume-Keeps}
use paari_payments_protocol.Payments.Consume.Reads.{reconcile_one-Keeps}
use paari_payments_protocol.Payments.Consume.Others.{
  refund_authorization-Keeps, razorpay_webhook-Keeps,
}
use paari_payments_protocol.Payments.Refund.{RefundAnswers, refund_authorization}
use paari_payments_protocol.Payments.Webhook.{WebhookEvent, WebhookAnswers, razorpay_webhook}
use paari_payments_protocol.Reconcile.{ReadAnswers, reconcile_one}
use paari_payments_protocol.Reconcile.Worker.{run_batch, reconcile_pending}
use paari_payments_protocol.Payments.Records.{PaymentIntentRequest}
use paari_payments_protocol.Payments.Intent.{submit_payment_intent}
use paari_payments_protocol.Payments.StepUp.{
  request_mfa_challenge, verify_mfa_challenge, MfaVerifyRequest,
}
use paari_payments_protocol.Payments.Revoke.{revoke_authorization}
use paari_payments_protocol.Payments.Consume.Grants.{
  submit_payment_intent-Keeps, request_mfa_challenge-Keeps, verify_mfa_challenge-Keeps,
  revoke_authorization-Keeps,
}
use paari_payments_protocol.Payments.Consume.Worker.{
  run_batch-Keeps, reconcile_pending-Keeps, manual_reconcile-Keeps,
}
use paari_payments_protocol.Reconcile.Manual.{manual_reconcile}

-- One request, and what the world answers during it.
pub data Event : Type 0 where
  consume : HttpRequest → ConsumeAnswers → String → Event
  refund : HttpRequest → RefundAnswers → String → Option ℕ → Event
  webhook : WebhookEvent → WebhookAnswers → Event
  reconcile : ℕ → ReadAnswers → String → Event
  manual : HttpRequest → ReadAnswers → String → Event
  submit : HttpRequest → String → Bool → PaymentIntentRequest → Event
  mfa_challenge : HttpRequest → String → String → String → Event
  mfa_verify : ℕ → MfaVerifyRequest → Event
  revoke : HttpRequest → String → Event
  worker : ℕ → ℕ → (String → ReadAnswers) → Event
  pending : ℕ → ℕ → (String → ReadAnswers) → Event

-- What a request leaves behind: the committed database and the calls made so far.
abbrev pub left : {A : Type 0} → Exec A → Db → List Call → Db × List Call
left m db calls = let (result, db', calls') = serve m db calls in (db', calls')

unfoldable pub handle : Host → Environment → Event → Db → List Call → Db × List Call
handle h env (consume q w id) = left (consume_authorization h env q w id)
handle h env (refund q w id amount) = left (refund_authorization h env q w id amount)
handle h env (webhook e w) = left (razorpay_webhook h e w)
handle h env (reconcile now w id) = left (reconcile_one h now w id)
handle h env (manual q w id) = left (manual_reconcile h env q w id)
handle h env (submit q fresh acquired req) = left (submit_payment_intent h env q fresh acquired req)
handle h env (mfa_challenge q intent_id challenge_id nonce) =
    left (request_mfa_challenge h env q intent_id challenge_id nonce)
handle h env (mfa_verify now req) = left (verify_mfa_challenge h now req)
handle h env (revoke q id) = left (revoke_authorization h env q id)
handle h env (worker now dead_letter_after world) = left (run_batch h now dead_letter_after world)
handle h env (pending now limit world) = left (reconcile_pending h now limit world)

-- A history: each request runs on what the one before has committed.
unfoldable pub handle_all : Host → Environment → List Event → Db → List Call → Db × List Call
unfolding handle
handle_all h env [] db calls = (db, calls)
handle_all h env (e ∷ es) db calls =
    let (db', calls') = handle h env e db calls in handle_all h env es db' calls'

-- The account of an authorization, between two requests.
record Settled (id : String) (db : Db) (calls : List Call) : Type 0 where
  bounded : IsBounded id db
  charged : charges id calls ≤ used id db

left-Settled :
    (id : String) {A : Type 0} (m : Exec A) (db : Db) (calls : List Call)
    → Keeps (Ledger id 0 0) m
    → Settled id db calls
    → Settled id (left m db calls).0 (left m db calls).1
unfolding serve
left-Settled id m db calls k s = record {
  bounded = after.saved;
  charged = omega (arith, after.charged);
}
  where
    after : Ledger id 0 0 (m (record { work = db; saved = db; calls = calls })).1
    after =
        k.holds (record { work = db; saved = db; calls = calls })
          (record {
            charged = omega (arith, s.charged);
            grows = omega arith;
            saved = s.bounded;
            work = s.bounded;
          })

handle-Settled :
    (id : String) (h : Host) (env : Environment) (e : Event) (db : Db) (calls : List Call)
    → Settled id db calls
    → Settled id (handle h env e db calls).0 (handle h env e db calls).1
unfolding handle
handle-Settled id h env (consume q w a) db calls =
    left-Settled id _ db calls (consume-Keeps id h env q w a)
handle-Settled id h env (refund q w a n) db calls =
    left-Settled id _ db calls (refund_authorization-Keeps id h env q w a n)
handle-Settled id h env (webhook e w) db calls =
    left-Settled id _ db calls (razorpay_webhook-Keeps id h e w)
handle-Settled id h env (reconcile now w a) db calls =
    left-Settled id _ db calls (reconcile_one-Keeps id h now w a)
handle-Settled id h env (manual q w a) db calls =
    left-Settled id _ db calls (manual_reconcile-Keeps id h q.now env q w a)
handle-Settled id h env (submit q fresh acquired req) db calls =
    left-Settled id _ db calls (submit_payment_intent-Keeps id h env q fresh acquired req)
handle-Settled id h env (mfa_challenge q i c n) db calls =
    left-Settled id _ db calls (request_mfa_challenge-Keeps id h env q i c n)
handle-Settled id h env (mfa_verify now req) db calls =
    left-Settled id _ db calls (verify_mfa_challenge-Keeps id h now req)
handle-Settled id h env (revoke q a) db calls =
    left-Settled id _ db calls (revoke_authorization-Keeps id h env q a)
handle-Settled id h env (worker now n world) db calls =
    left-Settled id _ db calls (run_batch-Keeps id h now n world)
handle-Settled id h env (pending now n world) db calls =
    left-Settled id _ db calls (reconcile_pending-Keeps id h now n world)

sum-bounded :
    (p : BoundedAuthorization → Bool) (xs : List BoundedAuthorization)
    → All (λ (a : BoundedAuthorization). (a.usage_count ≤ a.max_usage) × (a.max_usage ≤ 1)) xs
    → sum_of (λ (a : BoundedAuthorization). a.usage_count) (select p xs) ≤ length (select p xs)
sum-bounded p [] w = ground arith
sum-bounded p (x ∷ xs) (w, ws) = ground (arith, sum-bounded p xs ws)

-- For any host, environment, authorization identifier, and history of payment intents, step-up
-- challenges and approvals, consume requests, revocations of authorizations, refunds, webhooks,
-- reconciliations of one row, on request of an agent too, or of all pending ones, and runs of the
-- reconciliation worker: if in the database no authorization is used beyond its maximum, every
-- maximum is at most 1, the identifier is unique, and the providers were asked to charge the
-- authorization no more often than it is used, then the same bound on the charges holds after the
-- history, and the authorization is used, and so charged, at most once.
pub charged_at_most_once :
    (id : String) (h : Host) (env : Environment) (es : List Event) (db : Db) (calls : List Call)
    → IsBounded id db
    → charges id calls ≤ used id db
    → let (db', calls') = handle_all h env es db calls in
      (charges id calls' ≤ used id db') × (used id db' ≤ 1)
unfolding handle_all
charged_at_most_once id h env [] db calls b c =
    (c, omega (arith, sum-bounded (has_id id) db.authorizations b.within, b.unique))
charged_at_most_once id h env (e ∷ es) db calls b c =
    let s = handle-Settled id h env e db calls (record { bounded = b; charged = c }) in
    charged_at_most_once id h env es _ _ s.bounded s.charged
