-- ===== src/Mandates/Routes/Sound.antt =====
-- What every stored mandate and provider binding satisfies over a history of the mandate routes of
-- app/routers/v1.py.
use paari_payments_protocol.Prelude.{
  if◌then◌else◌, ◌==◌, number_eq, text_eq, first, update_where, All, All-append, All-update_where,
  All-weaken, first-append, first-update_where, ◌≤◌, Bool, true, false, some, List, [], ◌∷◌, ◌++◌,
  ◌≡◌, refl, sym, ap, ◌∙◌, arith,
}
use paari_payments_protocol.Models.{UserPaymentMandate, PaymentInstrumentBinding}
use paari_payments_protocol.Models.Rows.{Db}
use paari_payments_protocol.Host.{Host}
use paari_payments_protocol.Registry.{AdminConfig}
use paari_payments_protocol.Mandates.Routes.Terms.{
  Step, same, made, ended, bound, IsBounded, SameTerms,
}
use paari_payments_protocol.Mandates.Routes.History.{
  MandateEvent, mandate_history, after_event, after_event-Step,
}

-- A binding stays within the mandate that it names, in the mandate's organization.
pub record IsCovered (ms : List UserPaymentMandate) (b : PaymentInstrumentBinding) : Type 0 where
  mandate : UserPaymentMandate
  named : first (λ (m : UserPaymentMandate). m.mandate_id == b.mandate_id) ms ≡ some mandate
  within : b.max_amount_minor_units ≤ mandate.max_per_transaction
  owner : b.org_id ≡ mandate.org_id

pub record IsSound (db : Db) : Type 0 where
  pub bounded : All IsBounded db.mandates
  pub covered : All (IsCovered db.mandates) db.bindings

IsBounded-same : (m n : UserPaymentMandate) → SameTerms m n → IsBounded m → IsBounded n
IsBounded-same m n e b = record {
  positive = omega (arith, b.positive, e.max_per_transaction);
  ordered = omega (arith, b.ordered, e.max_per_transaction, e.max_daily_amount);
  window = omega (arith, b.window, e.valid_from, e.expires_at);
}

IsCovered-append :
    (ms : List UserPaymentMandate) (m : UserPaymentMandate) (b : PaymentInstrumentBinding)
    → IsCovered ms b
    → IsCovered (ms ++ m ∷ []) b
IsCovered-append ms m b c = record {
  mandate = c.mandate;
  named =
      first-append (λ (n : UserPaymentMandate). n.mandate_id == b.mandate_id) ms (m ∷ []) c.mandate
        c.named;
  within = c.within;
  owner = c.owner;
}

IsCovered-update_where :
    (p : UserPaymentMandate → Bool) (f : UserPaymentMandate → UserPaymentMandate)
    (ms : List UserPaymentMandate) (b : PaymentInstrumentBinding)
    → ((m : UserPaymentMandate) → SameTerms m (f m))
    → IsCovered ms b
    → IsCovered (update_where p f ms) b
IsCovered-update_where p f ms b keep c = go (p c.mandate) refl
  where
    is_it : UserPaymentMandate → Bool
    is_it m = m.mandate_id == b.mandate_id

    now_named :
        first (λ (m : UserPaymentMandate). m.mandate_id == b.mandate_id) (update_where p f ms)
        ≡ some (if p c.mandate then f c.mandate else c.mandate)
    now_named =
        first-update_where (λ (m : UserPaymentMandate). m.mandate_id == b.mandate_id) p f ms
          (λ a. ap (λ i. i == b.mandate_id) (keep a).mandate_id)
        ∙ (rw (c.named) refl)

    go : (d : Bool) → p c.mandate ≡ d → IsCovered (update_where p f ms) b
    go true e = record {
      mandate = f c.mandate;
      named = rw e at now_named;
      within = omega (arith, c.within, (keep c.mandate).max_per_transaction);
      owner = c.owner ∙ sym ((keep c.mandate).org_id);
    }
    go false e = record {
      mandate = c.mandate;
      named = rw e at now_named;
      within = c.within;
      owner = c.owner;
    }

Step-IsSound : (db after : Db) → Step db after → IsSound db → IsSound after
Step-IsSound db after (same ms bs) s = record {
  bounded = rw ms s.bounded;
  covered = rw (ms, bs) s.covered;
}
Step-IsSound db after (made m u l ms bs) s = record {
  bounded = rw ms (All-append IsBounded db.mandates (m ∷ []) s.bounded (l, tt));
  covered =
      rw (ms, bs)
        (All-weaken (IsCovered db.mandates) (IsCovered (db.mandates ++ m ∷ [])) db.bindings
          (IsCovered-append db.mandates m) s.covered);
}
Step-IsSound db after (ended p f k ms bs) s = record {
  bounded =
      rw ms (
        All-update_where IsBounded p f db.mandates (λ m. IsBounded-same m (f m) (k m).0) s.bounded);
  covered =
      rw (ms, bs)
        (All-weaken (IsCovered db.mandates) (IsCovered (update_where p f db.mandates)) db.bindings
          (λ b. IsCovered-update_where p f db.mandates b (λ m. (k m).0)) s.covered);
}
Step-IsSound db after (bound m b n w o ms bs) s = record {
  bounded = rw ms s.bounded;
  covered =
      rw (ms, bs)
        (All-append (IsCovered db.mandates) db.bindings (b ∷ []) s.covered
          (record { mandate = m; named = n; within = w; owner = o }, tt));
}

-- Any history of creations, revocations and provider bindings of mandates, and of sweeps, keeps the
-- tables sound, whoever asks, whatever is asked and whether it is accepted: every stored mandate has
-- positive per-transaction and daily limits in order and a window that is not empty, and every
-- provider binding is of a stored mandate of its organization and within the per-transaction limit.
pub mandate_history-IsSound :
    (h : Host) (admin : AdminConfig) (es : List MandateEvent) (db : Db)
    → IsSound db
    → IsSound (mandate_history h admin es db)
unfolding mandate_history
mandate_history-IsSound h admin [] db s = s
mandate_history-IsSound h admin (e ∷ es) db s =
    mandate_history-IsSound h admin es (after_event h admin e db)
      (Step-IsSound db (after_event h admin e db) (after_event-Step h admin e db) s)
