-- ===== src/Payments/Consume/Ledger.antt =====
-- The account of one authorization: how often a provider was asked to charge it, and how many of
-- its uses are spent, in the committed database and in the session.
use paari_payments_protocol.Prelude.{
  ◌==◌, number_eq, text_eq, length, select, All, sum_of, select-append, ℕ, ◌+◌, ◌≤◌, String, ◌≡◌,
  Bool, false, List, [], ◌∷◌, ◌++◌, arith,
}
use mathlib.Core.List.{append-nil}
use paari_payments_protocol.Models.Rows.{Db, BoundedAuthorization}
use paari_payments_protocol.Exec.{modify, commit, rollback, call, Call, Session}
use paari_payments_protocol.Exec.Keeps.{Keeps, Turns}

-- Is this a request to a provider to charge this authorization?
abbrev pub is_charge : String → Call → Bool
is_charge id (Call.create_payment a amount currency) = a == id
is_charge id (Call.authorize_payment a ref amount currency merchant) = a == id
is_charge id _ = false

abbrev pub charges : String → List Call → ℕ
charges id calls = length (select (is_charge id) calls)

abbrev pub has_id : String → BoundedAuthorization → Bool
has_id id a = a.authorization_id == id

abbrev pub rows_of : String → Db → List BoundedAuthorization
rows_of id db = select (has_id id) db.authorizations

abbrev pub used : String → Db → ℕ
used id db = sum_of (λ (a : BoundedAuthorization). a.usage_count) (rows_of id db)

-- No row is used beyond its maximum, which is one use, and no two rows share this identifier.
pub record IsBounded (id : String) (db : Db) : Type 0 where
  pub within :
      All
        (λ (a : BoundedAuthorization). (a.usage_count ≤ a.max_usage) × (a.max_usage ≤ 1))
        db.authorizations
  pub unique : length (rows_of id db) ≤ 1

-- `credit` uses are committed that no provider call has taken up, and `reserved` ones are not yet
-- committed.
pub record Ledger (id : String) (credit reserved : ℕ) (s : Session) : Type 0 where
  pub charged : charges id s.calls + credit ≤ used id s.saved
  pub grows : used id s.saved + reserved ≤ used id s.work
  pub saved : IsBounded id s.saved
  pub work : IsBounded id s.work

module _ (id : String) where
  pub Ledger-weaken : (k j : ℕ) (s : Session) → Ledger id k j s → Ledger id 0 0 s
  Ledger-weaken k j s l = record {
    charged = omega (arith, l.charged);
    grows = omega (arith, l.grows);
    saved = l.saved;
    work = l.work;
  }

  -- A change that leaves the table of authorizations alone.
  pub modify-Ledger :
      (k j : ℕ) (f : Db → Db)
      → ((db : Db) → (f db).authorizations ≡ db.authorizations)
      → Keeps (Ledger id k j) (modify f)
  unfolding modify
  modify-Ledger k j f same = record {
    holds = λ s l. record {
      charged = l.charged;
      grows = rw (same s.work) l.grows;
      saved = l.saved;
      work = record {
        within = rw (same s.work) l.work.within;
        unique = rw (same s.work) l.work.unique;
      };
    };
  }

  -- The reserved uses are committed.
  pub commit-Ledger : (j : ℕ) → Turns (Ledger id 0 j) (Ledger id j 0) (Ledger id 0 0) commit
  unfolding commit
  commit-Ledger j = record {
    holds = λ s l. record {
      charged = omega (arith, l.charged, l.grows);
      grows = omega arith;
      saved = l.work;
      work = l.work;
    };
  }

  pub commit-Keeps : (k : ℕ) → Keeps (Ledger id k 0) commit
  unfolding commit
  commit-Keeps k = record {
    holds = λ s l. record {
      charged = omega (arith, l.charged, l.grows);
      grows = omega arith;
      saved = l.work;
      work = l.work;
    };
  }

  pub rollback-Keeps : (k : ℕ) → Keeps (Ledger id k 0) rollback
  unfolding rollback
  rollback-Keeps k = record {
    holds =
        λ s l. record { charged = l.charged; grows = omega arith; saved = l.saved; work = l.saved };
  }

  -- A call that is no charge of this authorization.
  pub call-Keeps : (k j : ℕ) (c : Call) → is_charge id c ≡ false → Keeps (Ledger id k j) (call c)
  unfolding call
  call-Keeps k j c e = record {
    holds = λ s l. record {
      charged = rw (select-append (is_charge id) s.calls (c ∷ [])) (rw (e, append-nil) l.charged);
      grows = l.grows;
      saved = l.saved;
      work = l.work;
    };
  }

  length-charges :
      (calls : List Call) (c : Call) → charges id (calls ++ c ∷ []) ≤ charges id calls + 1
  length-charges [] c = ground arith
  length-charges (d ∷ calls) c = ground (arith, length-charges calls c)

  -- A charge takes up one use that was committed for it.
  pub call-charges : (c : Call) → Turns (Ledger id 1 0) (Ledger id 0 0) (Ledger id 0 0) (call c)
  unfolding call
  call-charges c = record {
    holds = λ s l. record {
      charged = omega (arith, l.charged, length-charges s.calls c);
      grows = l.grows;
      saved = l.saved;
      work = l.work;
    };
  }
