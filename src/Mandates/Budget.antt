-- ===== src/Mandates/Budget.antt =====
-- app/mandates.py: the budgets, once the accepted payment has been recorded.
use paari_payments_protocol.Prelude.{
  All, List, Option-cases, inl, inr, sym, subst, ap, if◌then◌else◌, number_eq, text_eq, select,
  select-append, sum_of-append, ℕ, ◌+◌, ◌≤◌, String, ◌≡◌, ◌≢◌, Bool, Option, [], ◌∷◌, ◌++◌, arith,
  false, none, some, eq_iff, refl, true,
}
use paari_payments_protocol.Governance.{is_deny, MandateReason}
use paari_payments_protocol.Models.{UserPaymentMandate}
use paari_payments_protocol.Models.Rows.{Db, PaymentIntent}
use paari_payments_protocol.Host.{Host}
use paari_payments_protocol.Mandates.{Proposal}
use paari_payments_protocol.Mandates.Spend.{
  counts, spend_since, window_start, daily_spend, hourly_spend, hour, day,
}
use paari_payments_protocol.Mandates.Check.{refusal}
use paari_payments_protocol.Mandates.Check.Permits.{HasRoom, refusal-none_iff}

abbrev pub with_intent : Db → PaymentIntent → Db
with_intent db i = record db { intents = db.intents ++ i ∷ [] }

-- What one intent adds to a window.
abbrev contribution :
    Host → UserPaymentMandate → ℕ → ℕ → Option String → Option String → PaymentIntent → ℕ
contribution h m start now merchant category i =
    if counts h m start now merchant category i then i.amount_minor_units else 0

spend_since-with_intent :
    (h : Host) (db : Db) (m : UserPaymentMandate) (start now : ℕ) (mr ct : Option String)
    (i : PaymentIntent)
    → spend_since h (with_intent db i) m start now mr ct
      ≡ spend_since h db m start now mr ct + contribution h m start now mr ct i
unfolding spend_since
spend_since-with_intent h db m start now mr ct i =
    let amount = λ (j : PaymentIntent). j.amount_minor_units in
    let p = counts h m start now mr ct in
    rw (select-append p db.intents (i ∷ []))
      (rw (sum_of-append amount (select p db.intents) (select p (i ∷ []))) (ground arith))

-- The intent is one of the agent's, not denied, in the mandate's currency, and made now.
pub record IsCharged (m : UserPaymentMandate) (now : ℕ) (i : PaymentIntent) : Type 0 where
  pub same_org : i.org_id ≡ m.org_id
  pub same_agent : i.agent_id ≡ m.agent_id
  pub same_currency : i.currency ≡ m.currency
  pub not_denied : is_deny i.decision ≡ false
  pub made_now : i.created_at ≡ now
  pub begun : m.valid_from ≤ now

counts_charged :
    (h : Host) (m : UserPaymentMandate) (now start : ℕ) (i : PaymentIntent)
    → IsCharged m now i
    → start ≤ now
    → counts h m start now none none i ≡ true
unfolding counts
counts_charged h m now start i c le = ground (
  arith,
  eq_iff i.org_id m.org_id,
  eq_iff i.agent_id m.agent_id,
  eq_iff i.currency m.currency,
  c.same_org,
  c.same_agent,
  c.same_currency,
)

window_begun :
    (now delta : ℕ) (m : UserPaymentMandate) → m.valid_from ≤ now → window_start now delta m ≤ now
unfolding window_start
window_begun now delta m le = ground arith

-- A recorded intent of the mandate's organization, agent and currency, made now and not denied
-- (REVIEW included), is charged in full to a mandate that has begun: the daily and the hourly spend
-- grow by its amount.
pub charged_in_full :
    (h : Host) (db : Db) (m : UserPaymentMandate) (now : ℕ) (i : PaymentIntent)
    → IsCharged m now i
    → (daily_spend h (with_intent db i) m now ≡ daily_spend h db m now + i.amount_minor_units)
      × (hourly_spend h (with_intent db i) m now ≡ hourly_spend h db m now + i.amount_minor_units)
unfolding daily_spend hourly_spend
charged_in_full h db m now i c = (charged day, charged hour)
  where
    charged :
        (delta : ℕ)
        → spend_since h (with_intent db i) m (window_start now delta m) now none none
          ≡ spend_since h db m (window_start now delta m) now none none + i.amount_minor_units
    charged delta =
        let start : ℕ = window_start now delta m in
        rw (spend_since-with_intent h db m start now none none i)
          (rw (counts_charged h m now start i c (window_begun now delta m c.begun)) refl)

-- What an intent asks of a mandate.
abbrev pub asked_by : PaymentIntent → Proposal
asked_by i = record {
  merchant = i.merchant;
  amount_minor_units = i.amount_minor_units;
  currency = i.currency;
  merchant_category = i.merchant_category;
}

-- The first number where nothing is refused, the second where something is.
abbrev pub either : Option MandateReason → ℕ → ℕ → ℕ
either none accepted refused = accepted
either (some r) accepted refused = refused

room_after :
    (limit : Option ℕ) (amount spent after : ℕ)
    → HasRoom limit amount spent
    → after ≡ spent + amount
    → HasRoom limit 0 after
room_after none amount spent after h e = tt
room_after (some limit) amount spent after h e = omega arith

room_before :
    (limit : Option ℕ) (rest amount spent after : ℕ)
    → HasRoom limit rest after
    → after ≡ spent + amount
    → HasRoom limit (amount + rest) spent
room_before none rest amount spent after h e = tt
room_before (some limit) rest amount spent after h e = omega arith

module _ (h : Host) (now : ℕ) (require_signed : Bool) (m : UserPaymentMandate) where
  -- What is accepted of the payments that are asked for one after another, each checked on what is
  -- recorded so far, and recorded if the mandate does not refuse it.
  unfoldable pub accepted_total : Db → List PaymentIntent → ℕ
  accepted_total db [] = 0
  accepted_total db (i ∷ is) =
      either (refusal h db now require_signed m (asked_by i))
        (i.amount_minor_units + accepted_total (with_intent db i) is) (accepted_total db is)

  -- The budgets, and what is accepted on top of what is spent.
  abbrev pub Fits : Db → ℕ → Type 0
  Fits db total =
      (total + daily_spend h db m now ≤ m.max_daily_amount)
      × HasRoom m.max_per_hour total (hourly_spend h db m now)

  -- The budgets hold after a payment that is not refused, and it takes its amount.
  after_accepted :
      (i : PaymentIntent) (db : Db)
      → IsCharged m now i
      → refusal h db now require_signed m (asked_by i) ≡ none
      → Fits (with_intent db i) 0
  after_accepted i db c e =
      let permits = (refusal-none_iff h db now m (asked_by i) require_signed).0 e in
      let (daily, hourly) = charged_in_full h db m now i c in
      (
        omega (arith, permits.daily, daily),
        room_after m.max_per_hour i.amount_minor_units _ _ permits.hourly hourly,
      )

  before_accepted :
      (i : PaymentIntent) (db : Db)
      → IsCharged m now i
      → (rest : ℕ) → Fits (with_intent db i) rest
      → Fits db (i.amount_minor_units + rest)
  before_accepted i db c rest (day_left, hour_left) =
      let (daily, hourly) = charged_in_full h db m now i c in
      (
        omega (arith, day_left, daily),
        room_before m.max_per_hour rest i.amount_minor_units _ _ hour_left hourly,
      )

  total_accepted :
      (i : PaymentIntent) (is : List PaymentIntent) (db : Db)
      → refusal h db now require_signed m (asked_by i) ≡ none
      → accepted_total db (i ∷ is) ≡ i.amount_minor_units + accepted_total (with_intent db i) is
  unfolding accepted_total
  total_accepted i is db e =
      ap
        (λ o.
          either o (i.amount_minor_units + accepted_total (with_intent db i) is)
            (accepted_total db is))
        e

  total_refused :
      (i : PaymentIntent) (is : List PaymentIntent) (db : Db) (x : MandateReason)
      → refusal h db now require_signed m (asked_by i) ≡ some x
      → accepted_total db (i ∷ is) ≡ accepted_total db is
  unfolding accepted_total
  total_refused i is db x e =
      ap
        (λ o.
          either o (i.amount_minor_units + accepted_total (with_intent db i) is)
            (accepted_total db is))
        e

  -- Payments never add up to more than a budget: of any number of payments that are asked for one
  -- after another at one time, each in the mandate's currency, by its agent and recorded if the mandate
  -- does not refuse it, the accepted ones together fit into what is left of the daily and of the hourly
  -- budget; if these budgets hold before.
  pub accepted_within_budgets :
      (is : List PaymentIntent) (db : Db)
      → All (IsCharged m now) is
      → Fits db 0
      → Fits db (accepted_total db is)
  unfolding accepted_total
  accepted_within_budgets [] db charged fits = fits
  accepted_within_budgets (i ∷ is) db (c, cs) fits =
      elim (Option-cases (refusal h db now require_signed m (asked_by i))) [
        | inl e ↦ subst (Fits db) (sym (total_accepted i is db e)) (
            before_accepted i db c (accepted_total (with_intent db i) is)
              (accepted_within_budgets is (with_intent db i) cs (after_accepted i db c e)))
        | inr (x, e) ↦
            subst (Fits db) (sym (total_refused i is db x e))
              (accepted_within_budgets is db cs fits)
      ]

-- A spelling of the currency that differs from the mandate's is never charged: the recorded payment
-- leaves every window of the mandate as it was.
pub currency_spelling_uncharged :
    (h : Host) (db : Db) (m : UserPaymentMandate) (start now : ℕ) (mr ct : Option String)
    (i : PaymentIntent)
    → i.currency ≢ m.currency
    → spend_since h (with_intent db i) m start now mr ct ≡ spend_since h db m start now mr ct
unfolding counts
currency_spelling_uncharged h db m start now mr ct i ne =
    rw (spend_since-with_intent h db m start now mr ct i)
      (ground (arith, eq_iff i.currency m.currency))
