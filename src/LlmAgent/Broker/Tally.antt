-- ===== src/LlmAgent/Broker/Tally.antt =====
-- Counts of what a broker of llm_agent/broker.py has sent and holds.
use paari_payments_protocol.Prelude.{
  ltb, leb, if◌then◌else◌, ◌==◌, number_eq, text_eq, length, select, first, all, ℕ, ◌+◌, ◌≤◌,
  String, ◌≡◌, Bool, true, false, not, ◌&&◌, some, List, [], ◌∷◌, ◌++◌, arith,
}
use paari_payments_protocol.LlmAgent.Broker.{
  Pending, Sent, intent_sent, consume_sent, mandate_read, proof_read, is_pending,
}

-- The intents are for a positive amount within the cap, in the delegated currency.
abbrev pub is_modest : ℕ → String → Sent → Bool
is_modest max currency (intent_sent t m amount c causal granted) =
    ltb 0 amount && leb amount max && c == currency
is_modest max currency (consume_sent a answered) = true
is_modest max currency mandate_read = true
is_modest max currency (proof_read t) = true

-- A consume request for this authorization.
abbrev pub tries : String → Sent → Bool
tries id (consume_sent a answered) = a == id
tries id (intent_sent t m n c causal granted) = false
tries id mandate_read = false
tries id (proof_read t) = false

-- An intent that was granted this authorization.
abbrev pub grants : String → Sent → Bool
grants id (intent_sent t m n c causal granted) = granted == id
grants id (consume_sent a answered) = false
grants id mandate_read = false
grants id (proof_read t) = false

-- A consume request that was answered.
abbrev pub pays : Sent → Bool
pays (consume_sent a answered) = answered
pays (intent_sent t m n c causal granted) = false
pays mandate_read = false
pays (proof_read t) = false

abbrev pub count : (Sent → Bool) → List Sent → ℕ
count p sent = length (select p sent)

pub all-append :
    (p : Sent → Bool) (xs : List Sent) (s : Sent)
    → all p xs ≡ true
    → p s ≡ true
    → all p (xs ++ s ∷ []) ≡ true
all-append p [] s a b = ground arith
all-append p (x ∷ xs) s a b = ground (arith, all-append p xs s)

pub count-append :
    (p : Sent → Bool) (xs : List Sent) (s : Sent)
    → count p (xs ++ s ∷ []) ≡ count p xs + (if p s then 1 else 0)
count-append p [] s = ground arith
count-append p (x ∷ xs) s = ground (arith, count-append p xs s)

abbrev pub held : String → List Pending → ℕ
held id ps = length (select (is_pending id) ps)

pub held-select :
    (id other : String) (ps : List Pending)
    → held id (select (λ (q : Pending). not (is_pending other q)) ps) ≤ held id ps
held-select id other [] = ground arith
held-select id other (p ∷ ps) = ground (arith, held-select id other ps)

pub held-removed :
    (id : String) (ps : List Pending)
    → held id (select (λ (q : Pending). not (is_pending id q)) ps) ≡ 0
held-removed id [] = ground arith
held-removed id (p ∷ ps) = ground (arith, held-removed id ps)

pub held-found :
    (id : String) (ps : List Pending) (p : Pending)
    → first (is_pending id) ps ≡ some p
    → 1 ≤ held id ps
held-found id [] p e = ground arith
held-found id (x ∷ ps) p e = ground (arith, held-found id ps p)

pub held-append :
    (id : String) (ps : List Pending) (p : Pending)
    → held id (ps ++ p ∷ []) ≡ held id ps + (if is_pending id p then 1 else 0)
held-append id [] p = ground arith
held-append id (x ∷ ps) p = ground (arith, held-append id ps p)
