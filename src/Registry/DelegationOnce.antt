-- ===== src/Registry/DelegationOnce.antt =====
-- app/routers/agents.py and v1.py, "Delegation has already been consumed": over any history of
-- registrations and key rotations.
use paari_payments_protocol.Prelude.{
  if◌then◌else◌, ◌==◌, text_eq, number_eq, eq_iff, is_some, ℕ, suc, ◌≤◌, String, Bool, true, false,
  ◌&&◌, Option, none, some, List, [], ◌∷◌, ◌++◌, ◌≡◌, refl, sym, arith, Option-cases, inl, inr,
  first-append, first-append_none,
}
use paari_payments_protocol.Models.Rows.{Db, DelegationRecord}
use paari_payments_protocol.Host.{Host}
use paari_payments_protocol.Exec.{serve, Session, Result, ok, err}
use paari_payments_protocol.Exec.Runs.{
  Runs, opened, Ending, Runs-require, Runs-raise_if, Runs-weaken,
}
use paari_payments_protocol.Envelope.{Crypto, Fields, get_item}
use paari_payments_protocol.Registry.{AdminConfig, find_delegation}
use paari_payments_protocol.Registry.Agents.{NewIds, AgentRegistration, register_agent}
use paari_payments_protocol.Registry.Rotate.{RotateKeyRequest, rotate_agent_key}
use paari_payments_protocol.Registry.Protocol.{
  RegisterPayload, PayloadDelegation, object_text, v1_register_agent,
}
use paari_payments_protocol.Registry.Consumption.{
  v1_check_delegation-Consumes, Consumes, rotate_agent_key-Consumes, register_agent-Consumes,
}

-- The routes that consume a delegation, with the time, the keys drawn and what is presented.
pub data DelegationEvent : Type 0 where
  register : ℕ → NewIds → AgentRegistration → DelegationEvent
  v1_register : ℕ → NewIds → Fields → DelegationEvent
  rotate : ℕ → String → String → String → RotateKeyRequest → DelegationEvent

abbrev pub answered : {A : Type 0} → Result A → Bool
answered (ok a) = true
answered (err e) = false

abbrev pub delegation_id_of : Option PayloadDelegation → Option String
delegation_id_of none = none
delegation_id_of (some d) = some d.delegation_id

abbrev pub envelope_delegation : (String → RegisterPayload) → Option String → Option String
envelope_delegation read_payload none = none
envelope_delegation read_payload (some body) = delegation_id_of (read_payload body).delegation

abbrev pub is_named : String → Option String → Bool
is_named id none = false
is_named id (some i) = i == id

module _ (h : Host) (admin : AdminConfig) (c : Crypto)
    (read_payload : String → RegisterPayload) where
  abbrev pub presented : DelegationEvent → Option String
  presented (register now ids req) = some req.delegation.delegation_id
  presented (v1_register now ids envelope) =
      envelope_delegation read_payload (object_text (get_item "payload" envelope))
  presented (rotate now key credential_id agent_id req) = some req.delegation.delegation_id

  -- Whether the route succeeded, and the committed database.
  unfoldable pub present : DelegationEvent → Db → Bool × Db
  present (register now ids req) db =
      let (r, db', calls) = serve (register_agent h now ids req) db [] in (answered r, db')
  present (v1_register now ids envelope) db =
      let (r, db', calls) = serve (v1_register_agent h c read_payload now ids envelope) db [] in
      (answered r, db')
  present (rotate now key credential_id agent_id req) db =
      let (r, db', calls) =
        serve (rotate_agent_key h admin key now credential_id agent_id req) db [] in
      (answered r, db')

  -- How many requests of a history succeed with a delegation.
  unfoldable pub consumptions : String → List DelegationEvent → Db → ℕ
  unfolding present
  consumptions id [] db = 0
  consumptions id (e ∷ es) db =
      let (done, db') = present e db in
      let rest = consumptions id es db' in
      if done && is_named id (presented e) then suc rest else rest

  v1_register_agent-Consumes :
      (now : ℕ) (ids : NewIds) (envelope : Fields) (db : Db)
      → Runs
          (opened db [])
          (λ a t.
            (i : String) × (envelope_delegation read_payload
                (object_text (get_item "payload" envelope))
              ≡ some i)
            × Consumes i db t.saved)
          (λ t. t.saved ≡ db)
          (v1_register_agent h c read_payload now ids envelope)
  unfolding v1_register_agent
  v1_register_agent-Consumes now ids envelope db = Runs-raise_if _ _ _ _ _ _ refl λ a.
      Runs-require _ _ _ _ _ _ refl λ body b. Runs-raise_if _ _ _ _ _ _ refl λ v.
        Runs-raise_if _ _ _ _ _ _ refl λ s. Runs-require _ _ _ _ _ _ refl λ d p.
          Runs-weaken _ _ _ _ _ (λ r t k. (d.delegation_id, rw b (rw p refl), k))
            (v1_check_delegation-Consumes h now db c read_payload ids (read_payload body) d
              (h.sha256 (read_payload body).public_key_pem))

  module _ (id : String) where
    abbrev pub is_consumed : Db → Bool
    is_consumed db = is_some (find_delegation id db)

    -- A step that consumes the delegation finds it unknown and leaves it known; a known one stays.
    record Once (done : Bool) (db after : Db) : Type 0 where
      fresh : done ≡ true → is_consumed db ≡ false
      uses : done ≡ true → is_consumed after ≡ true
      stays : is_consumed db ≡ true → is_consumed after ≡ true

    Consumes-Once : (i : String) (db after : Db) → Consumes i db after → Once (i == id) db after
    Consumes-Once i db after k = record {
      fresh = λ e. rw (sym (same e)) (rw (k.unused) refl);
      uses = λ e. found e k.consumed;
      stays = λ e. kept e k.consumed;
    }
      where
        this : DelegationRecord → Bool
        this d = d.delegation_id == id

        same : (i == id) ≡ true → i ≡ id
        same e = ground (arith, eq_iff i id)

        found :
            (i == id) ≡ true
            → (d : DelegationRecord) × (d.delegation_id ≡ i)
              × (after.delegations ≡ db.delegations ++ d ∷ [])
            → is_consumed after ≡ true
        found e (d, n, more) = rw more (
            rw
              (first-append_none (λ (d : DelegationRecord). d.delegation_id == id) db.delegations
                (d ∷ []) (rw (sym (same e)) k.unused))
              (rw n (rw e refl)))

        kept :
            is_consumed db ≡ true
            → (d : DelegationRecord) × (d.delegation_id ≡ i)
              × (after.delegations ≡ db.delegations ++ d ∷ [])
            → is_consumed after ≡ true
        kept e (d, n, more) = elim (Option-cases (find_delegation id db)) [
          | inl f ↦ ground (arith, f)
          | inr (m, f) ↦ rw more (
              rw
                (first-append (λ (d : DelegationRecord). d.delegation_id == id) db.delegations
                  (d ∷ []) m f)
                refl)
        ]

    failed-Once : (b : Bool) (db after : Db) → after ≡ db → Once (false && b) db after
    failed-Once b db after same =
        rw same (record { fresh = λ e. cc; uses = λ e. cc; stays = λ e. e })

    ended-Once :
        {A : Type 0} (i : String) (db : Db) (r : Result A) (t : Session)
        → Ending (λ a u. Consumes i db u.saved) (λ u. u.saved ≡ db) r t
        → Once (answered r && (i == id)) db t.saved
    ended-Once i db (err e) t same = failed-Once (i == id) db t.saved same
    ended-Once i db (ok a) t k = Consumes-Once i db t.saved k

    v1_ended-Once :
        {A : Type 0} (o : Option String) (db : Db) (r : Result A) (t : Session)
        → Ending
            (λ a u. (i : String) × (o ≡ some i) × Consumes i db u.saved)
            (λ u. u.saved ≡ db)
            r
            t
        → Once (answered r && is_named id o) db t.saved
    v1_ended-Once o db (err e) t same = failed-Once (is_named id o) db t.saved same
    v1_ended-Once o db (ok a) t (i, n, k) = rw n (Consumes-Once i db t.saved k)

    present-Once :
        (e : DelegationEvent) (db : Db)
        → Once ((present e db).0 && is_named id (presented e)) db (present e db).1
    unfolding present serve
    present-Once (register now ids req) db =
        ended-Once req.delegation.delegation_id db (register_agent h now ids req (opened db [])).0
          (register_agent h now ids req (opened db [])).1
          (register_agent-Consumes h now db ids req).holds
    present-Once (v1_register now ids envelope) db =
        v1_ended-Once (presented (v1_register now ids envelope)) db
          (v1_register_agent h c read_payload now ids envelope (opened db [])).0
          (v1_register_agent h c read_payload now ids envelope (opened db [])).1
          (v1_register_agent-Consumes now ids envelope db).holds
    present-Once (rotate now key credential_id agent_id req) db =
        ended-Once req.delegation.delegation_id db
          (rotate_agent_key h admin key now credential_id agent_id req (opened db [])).0
          (rotate_agent_key h admin key now credential_id agent_id req (opened db [])).1
          (rotate_agent_key-Consumes h now db admin key credential_id agent_id req).holds

-- A delegation is used once at most: from any database, in any history of registrations by either
-- route and of key rotations, with whatever times, keys and requests, at most one that presents
-- this delegation succeeds, and none where it is already consumed.
pub delegation_used_once :
    (h : Host) (admin : AdminConfig) (c : Crypto) (read_payload : String → RegisterPayload)
    (id : String) (es : List DelegationEvent) (db : Db)
    → consumptions h admin c read_payload id es db
      ≤ (if is_some (find_delegation id db) then 0 else 1)
unfolding consumptions
delegation_used_once h admin c read_payload id [] db = ground arith
delegation_used_once h admin c read_payload id (e ∷ es) db =
    let s = present-Once h admin c read_payload id e db in
    ground (
      arith,
      s.fresh,
      s.uses,
      s.stays,
      delegation_used_once h admin c read_payload id es (present h admin c read_payload e db).1,
    )
