-- ===== src/Payments/Consume/Grants.antt =====
-- Proposals, step-up approvals and revocations leave the account of every authorization as it is: a
-- new authorization starts with no use spent, and a revoked one with all of them.
use paari_payments_protocol.Prelude.{
  if◌then◌else◌, number_eq, text_eq, length, select, first, update_where, All, sum_of, ℕ, ◌+◌, ◌≤◌,
  String, ◌≡◌, refl, Bool, Option, none, some, List, [], ◌∷◌, ◌++◌, arith, eq_iff,
}
use paari_payments_protocol.Models.{Agent, ParentAuthority}
use paari_payments_protocol.Models.Rows.{Db, BoundedAuthorization, PaymentIntent, MfaChallenge}
use paari_payments_protocol.Host.{Host}
use paari_payments_protocol.Config.{Environment}
use paari_payments_protocol.Exec.{Session, ◌>>=◌, gets, modify, pure, raise}
use paari_payments_protocol.Exec.Keeps.{
  Keeps, keeps_rules, Keeps-bind, Keeps-gets, Keeps-require, Keeps-elim, Keeps-pure, Keeps-raise_if,
  Keeps-when,
}
use paari_payments_protocol.Payments.Authenticate.{HttpRequest}
use paari_payments_protocol.Payments.Records.{
  PaymentIntentRequest, Verdict, record_intent, mint_bounded_authorization, minted,
}
use paari_payments_protocol.Payments.Intent.{
  deny_intent, settle_verdict, govern, replay, submit_payment_intent,
}
use paari_payments_protocol.Payments.Verdict.{
  Denial, check_parent, check_delegation, check_mandate, ◌else_deny◌,
}
use paari_payments_protocol.Payments.StepUp.{
  request_mfa_challenge, verify_mfa_challenge, approve, MfaVerifyRequest,
}
use paari_payments_protocol.Payments.Revoke.{revoke_authorization, burn_uses, has_use_left, burn}
use paari_payments_protocol.Payments.Consume.Ledger.{
  Ledger, modify-Ledger, commit-Keeps, rollback-Keeps, has_id,
}
use paari_payments_protocol.Payments.Consume.Guards.{
  audit-Keeps, authenticate-Keeps, resolve_session_token-Keeps, record_provider_txn-Keeps,
  mandate_policy-Keeps,
}

abbrev Bounds : BoundedAuthorization → Type 0
Bounds a = (a.usage_count ≤ a.max_usage) × (a.max_usage ≤ 1)

All-append :
    (xs : List BoundedAuthorization) (a : BoundedAuthorization)
    → All Bounds xs
    → Bounds a
    → All Bounds (xs ++ a ∷ [])
All-append [] a w b = (b, tt)
All-append (x ∷ xs) a (h, w) b = (h, All-append xs a w b)

-- A row with an identifier that no row has, and no use spent.
rows-fresh :
    (id new : String) (xs : List BoundedAuthorization)
    → first (has_id new) xs ≡ none
    → (new ≡ id)
    → length (select (has_id id) xs) ≡ 0
rows-fresh id new [] e same = refl
rows-fresh id new (x ∷ xs) e same =
    ground
      (arith, rows-fresh id new xs, eq_iff x.authorization_id new, eq_iff x.authorization_id id)

module _ (id : String) where
  sum_of-fresh :
      (xs : List BoundedAuthorization) (a : BoundedAuthorization)
      → a.usage_count ≡ 0
      → sum_of (λ (b : BoundedAuthorization). b.usage_count) (select (has_id id) (xs ++ a ∷ []))
        ≡ sum_of (λ (b : BoundedAuthorization). b.usage_count) (select (has_id id) xs)
  sum_of-fresh [] a e = ground arith
  sum_of-fresh (x ∷ xs) a e = ground (arith, sum_of-fresh xs a e)

  length-fresh :
      (xs : List BoundedAuthorization) (a : BoundedAuthorization)
      → length (select (has_id id) (xs ++ a ∷ []))
        ≡ length (select (has_id id) xs) + (if has_id id a then 1 else 0)
  length-fresh [] a = ground arith
  length-fresh (x ∷ xs) a = ground (arith, length-fresh xs a)

  add-Ledger :
      (db : Db) (s : Session) (a : BoundedAuthorization)
      → first (has_id a.authorization_id) s.work.authorizations ≡ none
      → a.usage_count ≡ 0
      → a.max_usage ≡ 1
      → Ledger id 0 0 s
      → Ledger id 0 0
          (record s { work = record s.work { authorizations = s.work.authorizations ++ a ∷ [] } })
  add-Ledger db s a new zero_used one l = record {
    charged = l.charged;
    grows = omega (arith, l.grows, sum_of-fresh s.work.authorizations a zero_used);
    saved = l.saved;
    work = record {
      within =
          All-append s.work.authorizations a l.work.within
            (omega (arith, zero_used, one), omega (arith, one));
      unique = ground (
        arith,
        l.work.unique,
        length-fresh s.work.authorizations a,
        eq_iff a.authorization_id id,
        rows-fresh id a.authorization_id s.work.authorizations new,
      );
    };
  }

  mint-Keeps :
      (h : Host) (now : ℕ) (i : PaymentIntent)
      → Keeps (Ledger id 0 0) (mint_bounded_authorization h now i)
  unfolding mint_bounded_authorization ◌>>=◌ gets modify pure raise minted
  mint-Keeps h now i = record {
    holds = λ s l. go s l (first (has_id i.intent_id) s.work.authorizations) refl;
  }
    where
      go :
          (s : Session)
          → Ledger id 0 0 s
          → (o : Option BoundedAuthorization) → first (has_id i.intent_id) s.work.authorizations ≡ o
          → Ledger id 0 0 (mint_bounded_authorization h now i s).1
      go s l none e = rw e (add-Ledger s.work s (minted h now i) e refl refl l)
      go s l (some a) e = rw e l

  burn-used :
      (wanted : String) (xs : List BoundedAuthorization)
      → All Bounds xs
      → (sum_of (λ (b : BoundedAuthorization). b.usage_count) (select (has_id id) xs)
          ≤ sum_of
              (λ (b : BoundedAuthorization). b.usage_count)
              (select (has_id id) (update_where (has_use_left wanted) burn xs)))
        × (length (select (has_id id) (update_where (has_use_left wanted) burn xs))
            ≡ length (select (has_id id) xs))
        × All Bounds (update_where (has_use_left wanted) burn xs)
  burn-used wanted [] w = ground arith
  burn-used wanted (x ∷ xs) (b, w) = ground (arith, burn-used wanted xs w)

  burn_uses-Keeps : (wanted : String) → Keeps (Ledger id 0 0) (burn_uses wanted)
  unfolding burn_uses modify
  burn_uses-Keeps wanted = record {
    holds = λ s l.
        let (grown, same, within) = burn-used wanted s.work.authorizations l.work.within in
        record {
          charged = l.charged;
          grows = omega (arith, l.grows, grown);
          saved = l.saved;
          work = record { within = within; unique = omega (arith, l.work.unique, same) };
        };
  }

  pub revoke_authorization-Keeps :
      (h : Host) (env : Environment) (q : HttpRequest) (wanted : String)
      → Keeps (Ledger id 0 0) (revoke_authorization h env q wanted)
  unfolding revoke_authorization
  revoke_authorization-Keeps h env q wanted =
      search
        (
          keeps_rules, resolve_session_token-Keeps, authenticate-Keeps, burn_uses-Keeps,
          audit-Keeps, commit-Keeps, rollback-Keeps,
        )
        depth 40

  record_intent-Keeps :
      (h : Host) (now : ℕ) (fresh : String) (agent : Agent) (req : PaymentIntentRequest)
      (v : Verdict)
      → Keeps (Ledger id 0 0) (record_intent h now fresh agent req v)
  unfolding record_intent
  record_intent-Keeps h now fresh agent req v = Keeps-bind _ _ (Keeps-gets _) (λ clash.
      Keeps-elim clash _ _
        (Keeps-bind _ _ (modify-Ledger id 0 0 _ (λ db. refl)) (λ u.
          Keeps-bind _ _ (Keeps-gets _) (λ parent. Keeps-bind _ _ (audit-Keeps id 0 h now _) (λ x.
            Keeps-bind _ _ (audit-Keeps id 0 h now _)
              (λ y. Keeps-bind _ _ (commit-Keeps id 0) (λ z. Keeps-pure _))))))
        (λ row. Keeps-bind _ _ (rollback-Keeps id 0) (λ u. Keeps-pure _)))

  deny_intent-Keeps :
      (h : Host) (now : ℕ) (fresh : String) (agent : Agent) (req : PaymentIntentRequest)
      (d : Denial)
      → Keeps (Ledger id 0 0) (deny_intent h now fresh agent req d)
  unfolding deny_intent
  deny_intent-Keeps h now fresh agent req d = search (keeps_rules, record_intent-Keeps)

  settle_verdict-Keeps :
      (h : Host) (now : ℕ) (fresh : String) (agent : Agent) (parent : Option ParentAuthority)
      (req : PaymentIntentRequest) (v : Verdict)
      → Keeps (Ledger id 0 0) (settle_verdict h now fresh agent parent req v)
  unfolding settle_verdict
  settle_verdict-Keeps h now fresh agent parent req v =
      search
        (
          keeps_rules, record_intent-Keeps, mint-Keeps, record_provider_txn-Keeps, audit-Keeps,
          commit-Keeps,
        )
        depth 40

  govern-Keeps :
      (h : Host) (now : ℕ) (fresh : String) (env : Environment) (acquired : Bool) (agent : Agent)
      (req : PaymentIntentRequest)
      → Keeps (Ledger id 0 0) (govern h now fresh env acquired agent req)
  unfolding govern
  govern-Keeps h now fresh env acquired agent req = Keeps-bind _ _ (Keeps-gets _) (λ parent.
      Keeps-elim (check_parent parent else_deny check_delegation agent req now) _ _
        (Keeps-bind _ _ (mandate_policy-Keeps id 0 h env) (λ posture.
          Keeps-bind _ _ (Keeps-gets _) (λ before.
            Keeps-bind _ _ (Keeps-when _ _ (commit-Keeps id 0)) (λ u.
              Keeps-bind _ _ (Keeps-gets _) (λ after.
                Keeps-elim (check_mandate posture _) _ _
                  (Keeps-bind _ _ (Keeps-gets _)
                    (λ recent. settle_verdict-Keeps h now fresh agent parent _ _))
                  (λ refusal. deny_intent-Keeps h now fresh agent req refusal))))))
        (λ d. deny_intent-Keeps h now fresh agent req d))

  pub submit_payment_intent-Keeps :
      (h : Host) (env : Environment) (q : HttpRequest) (fresh : String) (acquired : Bool)
      (req : PaymentIntentRequest)
      → Keeps (Ledger id 0 0) (submit_payment_intent h env q fresh acquired req)
  unfolding submit_payment_intent replay
  submit_payment_intent-Keeps h env q fresh acquired req =
      Keeps-bind _ _ (resolve_session_token-Keeps id 0 h q) (λ token.
        Keeps-bind _ _ (authenticate-Keeps id 0 h env q token none) (λ session.
          Keeps-bind _ _ (Keeps-raise_if _ _) (λ u. Keeps-bind _ _ (Keeps-gets _) (λ existing.
            Keeps-elim existing _ _ (govern-Keeps h q.now fresh env acquired _ _)
              (λ i. Keeps-bind _ _ (Keeps-gets _) (λ a. Keeps-pure _))))))

  pub request_mfa_challenge-Keeps :
      (h : Host) (env : Environment) (q : HttpRequest) (intent_id challenge_id nonce : String)
      → Keeps (Ledger id 0 0) (request_mfa_challenge h env q intent_id challenge_id nonce)
  unfolding request_mfa_challenge
  request_mfa_challenge-Keeps h env q intent_id challenge_id nonce =
      Keeps-bind _ _ (Keeps-gets _) (λ found. Keeps-bind _ _ (Keeps-require _ _) (λ i.
        Keeps-bind _ _ (resolve_session_token-Keeps id 0 h q) (λ token.
          Keeps-bind _ _ (authenticate-Keeps id 0 h env q token _) (λ u.
            Keeps-bind _ _ (Keeps-raise_if _ _) (λ v.
              Keeps-bind _ _ (modify-Ledger id 0 0 _ (λ db. refl))
                (λ x. Keeps-bind _ _ (commit-Keeps id 0) (λ y. Keeps-pure _)))))))

  pub verify_mfa_challenge-Keeps :
      (h : Host) (now : ℕ) (req : MfaVerifyRequest)
      → Keeps (Ledger id 0 0) (verify_mfa_challenge h now req)
  unfolding verify_mfa_challenge
  verify_mfa_challenge-Keeps h now req =
      search
        (
          keeps_rules, approve-Keeps, mint-Keeps, record_provider_txn-Keeps, audit-Keeps,
          commit-Keeps,
        )
        depth 60
    where
      approve-Keeps :
          (c : MfaChallenge) (i : PaymentIntent) → Keeps (Ledger id 0 0) (modify (approve c i))
      approve-Keeps c i = modify-Ledger id 0 0 _ (λ db. refl)
