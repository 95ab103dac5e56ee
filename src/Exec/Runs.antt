-- ===== src/Exec/Runs.antt =====
-- What one run of an action gives, from one session: a rule for each statement that a handler starts
-- with, so that a proof walks down the guards and collects what they have tested.
use paari_payments_protocol.Prelude.{
  if◌then◌else◌, Bool, true, false, Option, none, some, ◌≡◌, refl, List,
}
use paari_payments_protocol.Models.Rows.{Db}
use paari_payments_protocol.Exec.{
  Exec, pure, raise, gets, continue, ◌>>=◌, ◌>>◌, require, raise_if, when, modify, commit, Exn,
  Result, Session, ok, err, Call,
}

-- `Q` of the value after a return, `E` after an exception.
abbrev pub Ending :
    {A : Type 0} → (A → Session → Type 0) → (Session → Type 0) → Result A → Session → Type 0
Ending Q E (ok a) s = Q a s
Ending Q E (err e) s = E s

-- From `s`, `m` returns with `Q`, or raises with `E`.
pub record Runs {A : Type 0} (s : Session) (Q : A → Session → Type 0) (E : Session → Type 0)
    (m : Exec A) : Type 0 where
  pub holds : Ending Q E (m s).0 (m s).1

module _ {A : Type 0} (s : Session) (Q : A → Session → Type 0) (E : Session → Type 0) where
  pub Runs-pure : (a : A) → Q a s → Runs s Q E (pure a)
  unfolding pure
  Runs-pure a q = record { holds = q }

  pub Runs-raise : (e : Exn) → E s → Runs s Q E (raise {A = A} e)
  unfolding raise
  Runs-raise e h = record { holds = h }

  pub Runs-if :
      (b : Bool) (m n : Exec A) → Runs s Q E m → Runs s Q E n → Runs s Q E (if b then m else n)
  Runs-if true m n j k = j
  Runs-if false m n j k = k

  pub Runs-raise_if :
      (b : Bool) (e : Exn) (m : Exec A)
      → E s
      → (b ≡ false → Runs s Q E m)
      → Runs s Q E (raise_if b e >> m)
  unfolding ◌>>=◌ raise pure
  Runs-raise_if true e m h k = record { holds = h }
  Runs-raise_if false e m h k = record { holds = (k refl).holds }

  pub Runs-modify :
      (f : Db → Db) (m : Exec A)
      → Runs (record s { work = f s.work }) Q E m
      → Runs s Q E (modify f >> m)
  unfolding ◌>>=◌ modify
  Runs-modify f m k = record { holds = k.holds }

  pub Runs-commit :
      (m : Exec A) → Runs (record s { saved = s.work }) Q E m → Runs s Q E (commit >> m)
  unfolding ◌>>=◌ commit
  Runs-commit m k = record { holds = k.holds }

module _ {A B : Type 0} (s : Session) (Q : B → Session → Type 0) (E : Session → Type 0) where
  pub Runs-require :
      (o : Option A) (e : Exn) (f : A → Exec B)
      → E s
      → ((a : A) → o ≡ some a → Runs s Q E (f a))
      → Runs s Q E (require o e >>= f)
  unfolding ◌>>=◌ raise pure
  Runs-require none e f h k = record { holds = h }
  Runs-require (some a) e f h k = record { holds = (k a refl).holds }

  pub Runs-gets :
      (g : Db → A) (f : A → Exec B) → Runs s Q E (f (g s.work)) → Runs s Q E (gets g >>= f)
  unfolding ◌>>=◌ gets
  Runs-gets g f k = record { holds = k.holds }

  -- An action that is known to return.
  pub Runs-returns :
      (a : A) (m : Exec A) (f : A → Exec B)
      → m s ≡ (ok a, s)
      → Runs s Q E (f a)
      → Runs s Q E (m >>= f)
  unfolding ◌>>=◌
  Runs-returns a m f e k = record { holds = rw e k.holds }

  -- An action that is known to end in one of two ways.
  pub Runs-bind :
      (R : A → Session → Type 0) (m : Exec A) (f : A → Exec B)
      → Runs s R E m
      → ((a : A) (t : Session) → R a t → Runs t Q E (f a))
      → Runs s Q E (m >>= f)
  unfolding ◌>>=◌
  Runs-bind R m f first_part rest = record { holds = go (m s).0 (m s).1 first_part.holds }
    where
      go :
          (r : Result A) (t : Session)
          → Ending R E r t
          → Ending Q E (continue r f t).0 (continue r f t).1
      go (ok a) t q = (rest a t q).holds
      go (err e) t q = q

-- The session that a request starts with.
abbrev pub opened : Db → List Call → Session
opened db calls = record { work = db; saved = db; calls = calls }

pub Runs-weaken :
    {A : Type 0} (s : Session) (Q R : A → Session → Type 0) (E : Session → Type 0) (m : Exec A)
    → ((a : A) (t : Session) → Q a t → R a t)
    → Runs s Q E m
    → Runs s R E m
Runs-weaken {A} s Q R E m weaker k = record { holds = go (m s).0 (m s).1 k.holds }
  where
    go : (r : Result A) (t : Session) → Ending Q E r t → Ending R E r t
    go (ok a) t q = weaker a t q
    go (err e) t q = q

pub require-returns :
    {A : Type 0} (o : Option A) (x : Exn) (a : A) (s : Session)
    → o ≡ some a
    → require o x s ≡ (ok a, s)
unfolding pure raise
require-returns o x a s e = rw e refl

pub raise_if-returns : (b : Bool) (x : Exn) (s : Session) → b ≡ false → raise_if b x s ≡ (ok tt, s)
unfolding pure raise
raise_if-returns b x s e = rw e refl

pub Runs-last :
    (s : Session) (Q : Unit {0} → Session → Type 0) (E : Session → Type 0) (b : Bool) (x : Exn)
    → E s
    → Q tt s
    → Runs s Q E (raise_if b x)
unfolding pure raise
Runs-last s Q E true x h q = record { holds = h }
Runs-last s Q E false x h q = record { holds = q }

-- The last guard of an action, with what it has found.
pub Runs-last_if :
    (s : Session) (Q : Unit {0} → Session → Type 0) (E : Session → Type 0) (b : Bool) (x : Exn)
    → E s
    → (b ≡ false → Q tt s)
    → Runs s Q E (raise_if b x)
unfolding pure raise
Runs-last_if s Q E true x h q = record { holds = h }
Runs-last_if s Q E false x h q = record { holds = q refl }

-- A guard that lets the request pass.
pub Runs-pass :
    {A : Type 0} (s : Session) (Q : A → Session → Type 0) (E : Session → Type 0) (b : Bool)
    (x : Exn) (m : Exec A)
    → b ≡ false
    → Runs s Q E m
    → Runs s Q E (raise_if b x >> m)
Runs-pass s Q E true x m e k = cc
Runs-pass s Q E false x m e k =
    Runs-returns s Q E tt (raise_if false x) _ (raise_if-returns false x s refl) k

pub Runs-passed :
    (s : Session) (Q : Unit {0} → Session → Type 0) (E : Session → Type 0) (b : Bool) (x : Exn)
    → b ≡ false
    → Q tt s
    → Runs s Q E (raise_if b x)
Runs-passed s Q E b x e q = record { holds = rw (raise_if-returns b x s e) q }

-- An action that raises nothing, and what holds if it returns.
pub Runs-sure :
    {A : Type 0} (s : Session) (Q R : A → Session → Type 0) (E : Session → Type 0) (m : Exec A)
    → Runs s Q E m
    → Runs s R (λ t. ⊥) m
    → Runs s Q (λ t. ⊥) m
Runs-sure {A} s Q R E m k sure = record { holds = go (m s).0 (m s).1 k.holds sure.holds }
  where
    go :
        (r : Result A) (t : Session)
        → Ending Q E r t
        → Ending R (λ t. ⊥) r t
        → Ending Q (λ t. ⊥) r t
    go (ok a) t q r = q
    go (err e) t q r = r

pub Runs-when :
    (s : Session) (Q : Unit {0} → Session → Type 0) (E : Session → Type 0) (b : Bool)
    (m : Exec Unit)
    → Q tt s
    → Runs s Q E m
    → Runs s Q E (when b m)
Runs-when s Q E true m q k = k
Runs-when s Q E false m q k = Runs-pure s Q E tt q
