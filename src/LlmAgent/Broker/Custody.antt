-- ===== src/LlmAgent/Broker/Custody.antt =====
-- llm_agent/broker.py: what the broker signs, whatever the model asks for and the server answers.
use paari_payments_protocol.Prelude.{
  ltb, leb, if◌then◌else◌, ◌==◌, number_eq, text_eq, Bool-cases, Option-cases, select, first, all,
  contains, first_holds, ℕ, ◌+◌, ◌≤◌, ◌<◌, String, ◌≡◌, refl, sym, ◌≢◌, inl, inr, Bool, true, false,
  not, Option, none, some, List, [], ◌∷◌, ◌++◌, arith, eq_iff, eq_refl,
}
use paari_payments_protocol.LlmAgent.Tools.{
  Texts, Arg, Args, text, int, negative_int, boolean, null_arg, other_arg, arg_of, clean,
  tool_args_error, validate, Checked,
}
use paari_payments_protocol.LlmAgent.Broker.{
  CausalContext, Pending, Sent, intent_sent, consume_sent, mandate_read, proof_read, PaariBroker,
  Reply, body, not_an_object, protocol_error, failed_call, IntentBody, Answers, is_pending, send,
  take_intent, tool_propose_payment, take_consume, tool_confirm_payment, tool_get_payment_authority,
  tool_read_proof, handle_tool, run_checked, broker_execute, proof_of, after_read, amount_arg,
  text_arg,
}
use paari_payments_protocol.LlmAgent.Broker.Tally.{
  is_modest, tries, grants, pays, count, all-append, count-append, held, held-select, held-removed,
  held-found, held-append,
}

-- The broker's books for an authorization: its limits are those it was given, every intent is
-- modest, the consume requests for the authorization and the pending grants of it are no more than
-- its grants, and the answered consume requests are those that it counts, within the cap.
pub record Custody (id : String) (max : ℕ) (currency : String) (cap : ℕ) (b : PaariBroker)
    : Type 0 where
  pub limits : (b.max_amount_minor_units ≡ max) × (b.currency ≡ currency) × (b.max_consumes ≡ cap)
  pub modest : all (is_modest max currency) b.sent ≡ true
  pub once : count (tries id) b.sent + held id b.pending ≤ count (grants id) b.sent
  pub capped : (count pays b.sent ≡ b.consumes) × (b.consumes ≤ cap)

module _ (id : String) (max : ℕ) (currency : String) (cap : ℕ) where
  abbrev Safe : PaariBroker → Type 0
  Safe = Custody id max currency cap

  -- A request that is neither an intent nor a consume request.
  send-Custody :
      (s : Sent) (b : PaariBroker)
      → is_modest max currency s ≡ true
      → tries id s ≡ false
      → pays s ≡ false
      → Safe b
      → Safe (send s b)
  send-Custody s b m t p k = record {
    limits = k.limits;
    modest = all-append (is_modest max currency) b.sent s k.modest m;
    once =
        ground
          (arith, k.once, t, count-append (tries id) b.sent s, count-append (grants id) b.sent s);
    capped = ground (arith, k.capped, p, count-append pays b.sent s);
  }

  take_consume-Custody :
      (p : Pending) (r : Reply String) (b : PaariBroker)
      → Safe b
      → b.consumes < cap
      → (p.authorization_id ≡ id
          → count (tries id) b.sent + 1 + held id b.pending ≤ count (grants id) b.sent)
      → Safe (take_consume p r b).1
  unfolding take_consume
  take_consume-Custody p r b k room spare = go r
    where
      sent_one :
          (answered : Bool) (n : ℕ)
          → n ≡ b.consumes + (if answered then 1 else 0)
          → Safe (record (send (consume_sent p.authorization_id answered) b) { consumes = n })
      sent_one answered n e = record {
        limits = k.limits;
        modest =
            all-append (is_modest max currency) b.sent (consume_sent p.authorization_id answered)
              k.modest refl;
        once = ground (
          arith,
          k.once,
          spare,
          eq_iff p.authorization_id id,
          count-append (tries id) b.sent (consume_sent p.authorization_id answered),
          count-append (grants id) b.sent (consume_sent p.authorization_id answered),
        );
        capped = ground (
          arith,
          k.capped,
          e,
          room,
          count-append pays b.sent (consume_sent p.authorization_id answered),
        );
      }

      go : (r : Reply String) → Safe (take_consume p r b).1
      go (body state) = sent_one true (b.consumes + 1) (ground arith)
      go not_an_object = sent_one false b.consumes (ground arith)
      go (protocol_error status) = sent_one false b.consumes (ground arith)
      go failed_call = sent_one false b.consumes (ground arith)

  take_intent-Custody :
      (p : Pending) (t m : String) (n : ℕ) (c : String) (causal : Option CausalContext)
      (r : Reply IntentBody) (b : PaariBroker)
      → is_modest max currency (intent_sent t m n c causal "") ≡ true
      → id ≢ ""
      → Safe b
      → Safe (take_intent p (λ granted. send (intent_sent t m n c causal granted)) r b).1
  unfolding take_intent
  take_intent-Custody p t m n c causal r b modest named k = go r
    where
      plain_one : Safe (send (intent_sent t m n c causal "") b)
      plain_one = send-Custody (intent_sent t m n c causal "") b modest refl refl k

      granted_one :
          (a : String)
          → Safe (
              send (intent_sent t m n c causal a) (record b {
                pending =
                    select (λ (q : Pending). not (is_pending a q)) b.pending
                    ++ record p { authorization_id = a } ∷ [];
              }))
      granted_one a = record {
        limits = k.limits;
        modest =
            all-append (is_modest max currency) b.sent (intent_sent t m n c causal a) k.modest
              modest;
        once = elim (Bool-cases (a == id)) [
          | inl e ↦
              let same : a ≡ id = ground (arith, e, eq_iff a id) in
              rw same (
                ground (
                  arith,
                  k.once,
                  eq_refl id,
                  held-append id (select (λ (q : Pending). not (is_pending id q)) b.pending)
                      (record p { authorization_id = id }),
                  held-removed id b.pending,
                  count-append (tries id) b.sent (intent_sent t m n c causal id),
                  count-append (grants id) b.sent (intent_sent t m n c causal id),
                ))
          | inr e ↦ ground (
            arith,
            k.once,
            e,
            held-append id (select (λ (q : Pending). not (is_pending a q)) b.pending)
                (record p { authorization_id = a }),
            held-select id a b.pending,
            count-append (tries id) b.sent (intent_sent t m n c causal a),
            count-append (grants id) b.sent (intent_sent t m n c causal a),
          )
        ];
        capped = ground (arith, k.capped, count-append pays b.sent (intent_sent t m n c causal a));
      }

      go :
          (r : Reply IntentBody)
          → Safe (take_intent p (λ granted. send (intent_sent t m n c causal granted)) r b).1
      go (body i) = elim (Bool-cases (i.decision == "allow")) [
        | inl e ↦ elim (Bool-cases (i.authorization_id == "")) [
          | inl f ↦ rw (e, f) plain_one
          | inr f ↦ rw (e, f) (granted_one i.authorization_id)
        ]
        | inr e ↦ rw e plain_one
      ]
      go not_an_object = plain_one
      go (protocol_error status) = plain_one
      go failed_call = plain_one

  tool_propose_payment-Custody :
      (h : Texts) (w : Answers) (m : String) (amount : Option ℕ) (c : String) (b : PaariBroker)
      → id ≢ ""
      → ((n : ℕ) → amount ≡ some n → 0 < n)
      → Safe b
      → Safe (tool_propose_payment h w m amount c b).1
  unfolding tool_propose_payment
  tool_propose_payment-Custody h w m none c b named pos k = k
  tool_propose_payment-Custody h w m (some n) c b named pos k =
      elim (Bool-cases (ltb b.max_amount_minor_units n)) [
        | inl e ↦ rw e k
        | inr e ↦ elim (Bool-cases (h.upper c == h.upper b.currency)) [
          | inl f ↦
              rw (e, f)
                (take_intent-Custody
                  (record {
                    authorization_id = "";
                    transaction_id = w.transaction_id;
                    merchant = m;
                    amount_minor_units = n;
                    currency = b.currency;
                  })
                  w.transaction_id m n b.currency b.causal w.intent _
                  (ground (arith, e, k.limits, pos n refl, eq_iff b.currency currency)) named
                  (record {
                    limits = k.limits;
                    modest = k.modest;
                    once = k.once;
                    capped = k.capped;
                  }))
          | inr f ↦ rw (e, f) k
        ]
      ]

  tool_confirm_payment-Custody :
      (w : Answers) (a : String) (b : PaariBroker) → Safe b → Safe (tool_confirm_payment w a b).1
  unfolding tool_confirm_payment
  tool_confirm_payment-Custody w a b k = elim (Bool-cases (leb b.max_consumes b.consumes)) [
    | inl e ↦ rw e k
    | inr e ↦ elim (Option-cases (first (is_pending a) b.pending)) [
      | inl f ↦ rw (e, f) k
      | inr (p, f) ↦
          rw (e, f)
            (take_consume-Custody p w.consume
              (record b { pending = select (λ (q : Pending). not (is_pending a q)) b.pending })
              (record {
                limits = k.limits;
                modest = k.modest;
                once = omega (arith, k.once, held-select id a b.pending);
                capped = k.capped;
              })
              (ground (arith, e, k.limits))
              (λ same.
                let it : a ≡ id =
                  ground (
                    arith,
                    first_holds (is_pending a) b.pending p f,
                    eq_iff p.authorization_id a,
                  ) in
                rw it (
                  omega (
                    arith,
                    k.once,
                    held-removed id b.pending,
                    held-found id b.pending p (rw (sym it) f),
                  ))))
    ]
  ]

  tool_get_payment_authority-Custody :
      (w : Answers) (b : PaariBroker) → Safe b → Safe (tool_get_payment_authority w b).1
  unfolding tool_get_payment_authority
  tool_get_payment_authority-Custody w b k = send-Custody mandate_read b refl refl refl k

  tool_read_proof-Custody :
      (w : Answers) (t : String) (b : PaariBroker) → Safe b → Safe (tool_read_proof w t b).1
  unfolding tool_read_proof
  tool_read_proof-Custody w t b k = elim (Bool-cases (contains t b.known_transactions)) [
    | inl e ↦ rw e (go w.proof)
    | inr e ↦ rw e k
  ]
    where
      go : (r : Reply Unit) → Safe (after_read (proof_of t) r (send (proof_read t) b)).1
      go (body u) = send-Custody (proof_read t) b refl refl refl k
      go not_an_object = send-Custody (proof_read t) b refl refl refl k
      go (protocol_error status) = send-Custody (proof_read t) b refl refl refl k
      go failed_call = send-Custody (proof_read t) b refl refl refl k

  amount_arg-positive : (given : List (String × Arg)) (n : ℕ) → amount_arg given ≡ some n → 0 < n
  amount_arg-positive given n e = go (arg_of "amount_minor_units" given) e
    where
      go :
          (o : Option Arg)
          → elim o [
            | none ↦ none
            | some v ↦ elim v [ int n ↦ if n == 0 then none else some n | _ ↦ none ]
          ]
            ≡ some n
          → 0 < n
      go none e = ground arith
      go (some (int k)) e = ground arith
      go (some (text s)) e = ground arith
      go (some negative_int) e = ground arith
      go (some (boolean b)) e = ground arith
      go (some null_arg) e = ground arith
      go (some other_arg) e = ground arith

  handle_tool-Custody :
      (h : Texts) (w : Answers) (name : String) (given : List (String × Arg)) (b : PaariBroker)
      → id ≢ ""
      → Safe b
      → Safe (handle_tool h w name given b).1
  unfolding handle_tool
  handle_tool-Custody h w name given b named k =
      let propose =
        tool_propose_payment-Custody h w (text_arg "merchant" given) (amount_arg given)
          (text_arg "currency" given) b named (amount_arg-positive given) k in
      let confirm = tool_confirm_payment-Custody w (text_arg "authorization_id" given) b k in
      elim (Bool-cases (name == "get_delegation")) [
        | inl e ↦ rw e k
        | inr e ↦ elim (Bool-cases (name == "get_payment_authority")) [
          | inl f ↦ rw (e, f) (tool_get_payment_authority-Custody w b k)
          | inr f ↦ elim (Bool-cases (name == "propose_payment")) [
            | inl g ↦ rw (e, f, g) propose
            | inr g ↦ elim (Bool-cases (name == "confirm_payment")) [
              | inl c ↦ rw (e, f, g, c) confirm
              | inr c ↦
                  rw (e, f, g, c) (tool_read_proof-Custody w (text_arg "transaction_id" given) b k)
            ]
          ]
        ]
      ]

  -- One tool call keeps the books, whatever the model asks and the server answers.
  pub broker_execute-Custody :
      (h : Texts) (w : Answers) (name : String) (args : Args) (b : PaariBroker)
      → id ≢ ""
      → Safe b
      → Safe (broker_execute h w name args b).1
  unfolding broker_execute run_checked
  broker_execute-Custody h w name args b named k = go (validate h name args)
    where
      go : (c : Checked) → Safe (run_checked h w name c b).1
      go (tool_args_error code) = k
      go (clean given) = handle_tool-Custody h w name given b named k
