-- ===== src/Registry/NonceOnce.antt =====
-- app/routers/auth.py, "burn the nonce so it can never be replayed": over any history of logins.
use paari_payments_protocol.Prelude.{
  ◌≡◌, refl, sym, Bool, true, false, not, ◌&&◌, ◌||◌, ◌==◌, text_eq, number_eq, eq_iff, Option,
  none, some, List, [], ◌∷◌, ◌++◌, String, ℕ, suc, ◌≤◌, first, update_where, first-update_where,
  first-append, first_holds, arith, inl, inr, Option-cases, if◌then◌else◌, ltb,
}
use paari_payments_protocol.Models.{Agent, Credential}
use paari_payments_protocol.Models.Rows.{Db, AuthNonce}
use paari_payments_protocol.Host.{Host}
use paari_payments_protocol.Audit
use paari_payments_protocol.Exec.{
  ◌>>=◌, modify, commit, pure, gets, Call, Session, ok, err, Result, serve, audit,
}
use paari_payments_protocol.Exec.Runs.{
  opened, Runs, Runs-gets, Runs-raise_if, Runs-require, Runs-modify, Runs-commit, Runs-pure, Ending,
}
use paari_payments_protocol.Payments.Authenticate.{keep_if}
use paari_payments_protocol.Registry.Login.{
  create_challenge, verify_challenge, VerifyRequest, challenge_of, burn_nonce, open_session,
}
use paari_payments_protocol.Registry.Delegation.{keep_if-some}

-- The two routes, with the time, and the nonce or the token identifier that is drawn.
pub data LoginEvent : Type 0 where
  challenge : ℕ → String → String → LoginEvent
  verify : ℕ → String → VerifyRequest → LoginEvent

abbrev pub returned : {A : Type 0} → Result A → Bool
returned (ok a) = true
returned (err e) = false

-- Whether a session was issued, and the committed database.
unfoldable pub login : Host → LoginEvent → Db → Bool × Db
login h (challenge now nonce agent_id) db =
    let (r, db', calls) = serve (create_challenge now nonce agent_id) db [] in (false, db')
login h (verify now jti req) db =
    let (r, db', calls) = serve (verify_challenge h now jti req) db [] in (returned r, db')

abbrev pub presents : String → String → LoginEvent → Bool
presents agent_id nonce (challenge now n a) = false
presents agent_id nonce (verify now jti req) = req.nonce == nonce && req.agent_id == agent_id

-- How many sessions a history issues for a nonce of an agent.
unfoldable pub sessions : Host → String → String → List LoginEvent → Db → ℕ
unfolding login
sessions h agent_id nonce [] db = 0
sessions h agent_id nonce (e ∷ es) db =
    let (issued, db') = login h e db in
    let rest = sessions h agent_id nonce es db' in
    if issued && presents agent_id nonce e then suc rest else rest

abbrev pub is_used : Option AuthNonce → Bool
is_used none = false
is_used (some n) = n.used

abbrev spent : AuthNonce → AuthNonce
spent n = record n { used = true }

-- What a session costs: the nonce was good, and is used afterwards.
record IsBurned (now : ℕ) (req : VerifyRequest) (db : Db) (after : Db) : Type 0 where
  good : is_used (first (challenge_of req) db.nonces) ≡ false
  there : (n : AuthNonce) × (first (challenge_of req) db.nonces ≡ some n)
  burned : after.nonces ≡ update_where (challenge_of req) spent db.nonces

module _ (h : Host) (now : ℕ) (jti : String) (req : VerifyRequest) (db : Db) where
  open_session-IsBurned :
      (calls : List Call) (agent : Agent) (credential : Credential) (fingerprint : String)
      (n : AuthNonce)
      → keep_if
          (λ (n : AuthNonce). not (n.used || ltb n.expires_at now))
          (first (challenge_of req) db.nonces)
        ≡ some n
      → Runs
          (opened db calls)
          (λ a t. IsBurned now req db t.saved)
          (λ t. t.saved ≡ db)
          (open_session h now jti req agent credential fingerprint)
  unfolding open_session burn_nonce audit modify commit pure ◌>>=◌ Audit.record_audit gets
  open_session-IsBurned calls agent credential fingerprint n e =
      let (f, g) =
        keep_if-some (λ (n : AuthNonce). not (n.used || ltb n.expires_at now))
          (first (challenge_of req) db.nonces) n e in
      record { holds = record { good = ground (arith, f, g); there = (n, f); burned = refl } }

  verify_challenge-IsBurned :
      (calls : List Call)
      → Runs
          (opened db calls)
          (λ a t. IsBurned now req db t.saved)
          (λ t. t.saved ≡ db)
          (verify_challenge h now jti req)
  unfolding verify_challenge
  verify_challenge-IsBurned calls = Runs-gets _ _ _ _ _ (
      Runs-require _ _ _ _ _ _ refl λ agent a. Runs-require _ _ _ _ _ _ refl λ claims c.
        Runs-raise_if _ _ _ _ _ _ refl λ b. Runs-gets _ _ _ _ _ (
          Runs-require _ _ _ _ _ _ refl λ credential d. Runs-raise_if _ _ _ _ _ _ refl λ f.
            Runs-gets _ _ _ _ _ (
              Runs-require _ _ _ _ _ _ refl λ n e.
                Runs-require _ _ _ _ _ _ refl
                  λ fingerprint g. open_session-IsBurned calls agent credential fingerprint n e)))

module _ (h : Host) (agent_id nonce : String) where
  abbrev pub this : AuthNonce → Bool
  this n = n.nonce == nonce && n.agent_id == agent_id

  abbrev pub is_spent : Db → Bool
  is_spent db = is_used (first this db.nonces)

  burn-is_spent :
      (req : VerifyRequest) (db : Db)
      → is_spent db ≡ true
      → is_used (first this (update_where (challenge_of req) spent db.nonces)) ≡ true
  burn-is_spent req db e = elim (Option-cases (first this db.nonces)) [
    | inl f ↦ ground (arith, f)
    | inr (n, f) ↦
        rw (first-update_where this (challenge_of req) spent db.nonces (λ a. refl))
          (rw f (ground (arith, f)))
  ]

  -- A step that issues a session for the nonce finds it unused and leaves it used; and a used nonce
  -- stays used.
  record Steps (issued : Bool) (db after : Db) : Type 0 where
    fresh : issued ≡ true → is_spent db ≡ false
    uses : issued ≡ true → is_spent after ≡ true
    stays : is_spent db ≡ true → is_spent after ≡ true

  same-Steps : (db : Db) → Steps false db db
  same-Steps db = record { fresh = λ e. cc; uses = λ e. cc; stays = λ e. e }

  verify-Steps :
      (now : ℕ) (req : VerifyRequest) (db : Db) {A : Type 0} (r : Result A) (t : Session)
      → Ending (λ a u. IsBurned now req db u.saved) (λ u. u.saved ≡ db) r t
      → Steps (returned r && (req.nonce == nonce && req.agent_id == agent_id)) db t.saved
  verify-Steps now req db (err e) t same = rw same (same-Steps db)
  verify-Steps now req db (ok a) t b = record {
    fresh = λ i. let (p, q) = is_it i in rw (sym p, sym q) b.good;
    uses = λ i. let (p, q) = is_it i in rw (b.burned) (rw (sym p, sym q) uses_it);
    stays = λ i. rw (b.burned) (burn-is_spent req db i);
  }
    where
      is_it :
          (req.nonce == nonce && req.agent_id == agent_id) ≡ true
          → (req.nonce ≡ nonce) × (req.agent_id ≡ agent_id)
      is_it i = ground (arith, eq_iff req.nonce nonce, eq_iff req.agent_id agent_id)

      uses_it :
          is_used (first (challenge_of req) (update_where (challenge_of req) spent db.nonces))
          ≡ true
      uses_it =
          let (n, f) = b.there in
          rw (first-update_where (challenge_of req) (challenge_of req) spent db.nonces (λ a. refl))
            (rw f (rw (first_holds (challenge_of req) db.nonces n f) refl))

  challenge-Runs :
      (now : ℕ) (fresh_nonce owner : String) (db : Db)
      → Runs
          (opened db [])
          (λ a t. (n : AuthNonce) × (t.saved.nonces ≡ db.nonces ++ n ∷ []))
          (λ t. t.saved ≡ db)
          (create_challenge now fresh_nonce owner)
  unfolding create_challenge
  challenge-Runs now fresh_nonce owner db = Runs-gets _ _ _ _ _ (
      Runs-require _ _ _ _ _ _ refl
        λ agent a. Runs-modify _ _ _ _ _ (Runs-commit _ _ _ _ (Runs-pure _ _ _ _ (_, refl))))

  challenge-Steps :
      {A : Type 0} (db : Db) (r : Result A) (t : Session)
      → Ending
          (λ a u. (n : AuthNonce) × (u.saved.nonces ≡ db.nonces ++ n ∷ []))
          (λ u. u.saved ≡ db)
          r
          t
      → Steps false db t.saved
  challenge-Steps db (err e) t same = rw same (same-Steps db)
  challenge-Steps db (ok a) t (n, more) = record {
    fresh = λ i. cc;
    uses = λ i. cc;
    stays = λ i. rw more (append-is_spent n i);
  }
    where
      append-is_spent :
          (n : AuthNonce) → is_spent db ≡ true → is_used (first this (db.nonces ++ n ∷ [])) ≡ true
      append-is_spent n i = elim (Option-cases (first this db.nonces)) [
        | inl f ↦ ground (arith, f)
        | inr (m, f) ↦ rw (first-append this db.nonces (n ∷ []) m f) (ground (arith, f))
      ]

  login-Steps :
      (e : LoginEvent) (db : Db)
      → Steps ((login h e db).0 && presents agent_id nonce e) db (login h e db).1
  unfolding login serve
  login-Steps (challenge now n a) db =
      challenge-Steps db (create_challenge now n a (opened db [])).0
        (create_challenge now n a (opened db [])).1 (challenge-Runs now n a db).holds
  login-Steps (verify now jti req) db =
      verify-Steps now req db (verify_challenge h now jti req (opened db [])).0
        (verify_challenge h now jti req (opened db [])).1
        (verify_challenge-IsBurned h now jti req db []).holds

-- A nonce buys one session at most: from any database, in any history of challenges and logins, with
-- whatever times, keys, tokens and drawn nonces, at most one login with this nonce of this agent
-- is answered with a session, and none where the nonce is already used.
pub nonce_used_once :
    (h : Host) (agent_id nonce : String) (es : List LoginEvent) (db : Db)
    → sessions h agent_id nonce es db ≤ (if is_spent h agent_id nonce db then 0 else 1)
unfolding sessions
nonce_used_once h agent_id nonce [] db = ground arith
nonce_used_once h agent_id nonce (e ∷ es) db =
    let s = login-Steps h agent_id nonce e db in
    ground (arith, s.fresh, s.uses, s.stays, nonce_used_once h agent_id nonce es (login h e db).1)
