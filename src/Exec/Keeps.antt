-- ===== src/Exec/Keeps.antt =====
-- Rules for what the actions of a session keep, one for each way to build an action.
use paari_payments_protocol.Prelude.{
  if◌then◌else◌, number_eq, text_eq, Bool, true, false, Option, none, some, ◌≡◌, refl,
}
use paari_payments_protocol.Models.Rows.{Db}
use paari_payments_protocol.Exec.{
  Exec, pure, raise, gets, continue, ◌>>=◌, answer, require, raise_if, when, catch, Exn, Result,
  Session, ok, err, recover,
}

-- `m` keeps `P`, whether it returns or raises.
pub record Keeps {A : Type 0} (P : Session → Type 0) (m : Exec A) : Type 0 where
  pub holds : (s : Session) → P s → P (m s).1

-- `Q` after a return, `E` after an exception.
abbrev pub Post :
    {A : Type 0} → (Session → Type 0) → (Session → Type 0) → Result A → Session → Type 0
Post Q E (ok a) s = Q s
Post Q E (err e) s = E s

-- From `P`, `m` returns in `Q`, or raises in `E`.
pub record Turns {A : Type 0} (P Q E : Session → Type 0) (m : Exec A) : Type 0 where
  pub holds : (s : Session) → P s → Post Q E (m s).0 (m s).1

module _ {A : Type 0} {P : Session → Type 0} where
  pub Keeps-pure : (a : A) → Keeps P (pure a)
  unfolding pure
  Keeps-pure a = record { holds = λ s p. p }

  pub Keeps-raise : (e : Exn) → Keeps P (raise {A = A} e)
  unfolding raise
  Keeps-raise e = record { holds = λ s p. p }

  pub Keeps-gets : (f : Db → A) → Keeps P (gets f)
  unfolding gets
  Keeps-gets f = record { holds = λ s p. p }

  pub Keeps-answer : (r : Result A) → Keeps P (answer r)
  unfolding answer
  Keeps-answer r = record { holds = λ s p. p }

  pub Keeps-require : (o : Option A) (e : Exn) → Keeps P (require o e)
  Keeps-require none e = Keeps-raise e
  Keeps-require (some a) e = Keeps-pure a

  pub Keeps-if : (b : Bool) (m n : Exec A) → Keeps P m → Keeps P n → Keeps P (if b then m else n)
  Keeps-if true m n first_part kn = first_part
  Keeps-if false m n first_part kn = kn

  pub Keeps-elim :
      {B : Type 0} (o : Option B) (m : Exec A) (f : B → Exec A)
      → Keeps P m
      → ((b : B) → Keeps P (f b))
      → Keeps P (elim o [ none ↦ m | some b ↦ f b ])
  Keeps-elim none m f first_part rest = first_part
  Keeps-elim (some b) m f first_part rest = rest b

  pub Keeps-catch :
      (m : Exec A) (f : Exn → Exec A)
      → Keeps P m
      → ((e : Exn) → Keeps P (f e))
      → Keeps P (catch m f)
  unfolding catch
  Keeps-catch m f first_part rest = record {
    holds = λ s p. go (m s).0 (m s).1 (first_part.holds s p);
  }
    where
      go : (r : Result A) (s : Session) → P s → P (recover r f s).1
      go (ok a) s p = p
      go (err e) s p = (rest e).holds s p

module _ {A B : Type 0} {P : Session → Type 0} where
  pub Keeps-bind :
      (m : Exec A) (f : A → Exec B) → Keeps P m → ((x : A) → Keeps P (f x)) → Keeps P (m >>= f)
  unfolding ◌>>=◌
  Keeps-bind m f first_part rest = record {
    holds = λ s p. go (m s).0 (m s).1 (first_part.holds s p);
  }
    where
      go : (r : Result A) (s : Session) → P s → P (continue r f s).1
      go (ok a) s p = (rest a).holds s p
      go (err e) s p = p

module _ {A B : Type 0} {P : Session → Type 0} {Q : A → Type 0} where
  -- A row that is looked up: whatever is found satisfies `Q`.
  pub Keeps-find :
      (f : Db → Option A) (e : Exn) (g : A → Exec B)
      → ((db : Db) (a : A) → f db ≡ some a → Q a)
      → ((a : A) → Q a → Keeps P (g a))
      → Keeps P (gets f >>= λ o. require o e >>= g)
  unfolding ◌>>=◌ gets raise pure
  Keeps-find f e g found kg = record { holds = λ s p. go s p (f s.work) refl }
    where
      go : (s : Session) → P s → (o : Option A) → f s.work ≡ o → P ((require o e >>= g) s).1
      go s p none eq = p
      go s p (some a) eq = (kg a (found s.work a eq)).holds s p

module _ {P : Session → Type 0} where
  pub Keeps-raise_if : (b : Bool) (e : Exn) → Keeps P (raise_if b e)
  Keeps-raise_if true e = Keeps-raise e
  Keeps-raise_if false e = Keeps-pure tt

  pub Keeps-when : (b : Bool) (m : Exec Unit) → Keeps P m → Keeps P (when b m)
  Keeps-when true m first_part = first_part
  Keeps-when false m first_part = Keeps-pure tt

pub ruleset keeps_rules = (
  Keeps-pure, Keeps-raise, Keeps-gets, Keeps-answer, Keeps-require, Keeps-if, Keeps-elim,
  Keeps-catch, Keeps-bind, Keeps-raise_if, Keeps-when,
)

module _ {A B : Type 0} {P Q R E : Session → Type 0} where
  pub Turns-bind :
      (m : Exec A) (f : A → Exec B)
      → Turns P Q E m
      → ((a : A) → Turns Q R E (f a))
      → Turns P R E (m >>= f)
  unfolding ◌>>=◌
  Turns-bind m f first_part rest = record {
    holds = λ s p. go (m s).0 (m s).1 (first_part.holds s p);
  }
    where
      go :
          (r : Result A) (s : Session)
          → Post Q E r s
          → Post R E (continue r f s).0 (continue r f s).1
      go (ok a) s q = (rest a).holds s q
      go (err e) s q = q

module _ {A : Type 0} {P Q E : Session → Type 0} where
  pub Turns-Keeps :
      (m : Exec A)
      → Keeps P m
      → ((s : Session) → P s → Q s)
      → ((s : Session) → P s → E s)
      → Turns P Q E m
  Turns-Keeps m first_part pq pe = record {
    holds = λ s p. go (m s).0 (m s).1 (first_part.holds s p);
  }
    where
      go : (r : Result A) (s : Session) → P s → Post Q E r s
      go (ok a) s p = pq s p
      go (err e) s p = pe s p

  pub Turns-if :
      (b : Bool) (m n : Exec A) → Turns P Q E m → Turns P Q E n → Turns P Q E (if b then m else n)
  Turns-if true m n first_part kn = first_part
  Turns-if false m n first_part kn = kn

  pub Turns-elim :
      {B : Type 0} (o : Option B) (m : Exec A) (f : B → Exec A)
      → Turns P Q E m
      → ((b : B) → Turns P Q E (f b))
      → Turns P Q E (elim o [ none ↦ m | some b ↦ f b ])
  Turns-elim none m f first_part rest = first_part
  Turns-elim (some b) m f first_part rest = rest b

module _ {A : Type 0} {P Q E H : Session → Type 0} where
  pub Turns-catch :
      (m : Exec A) (f : Exn → Exec A)
      → Turns P Q H m
      → ((e : Exn) → Turns H Q E (f e))
      → Turns P Q E (catch m f)
  unfolding catch
  Turns-catch m f first_part rest = record {
    holds = λ s p. go (m s).0 (m s).1 (first_part.holds s p);
  }
    where
      go :
          (r : Result A) (s : Session) → Post Q H r s → Post Q E (recover r f s).0 (recover r f s).1
      go (ok a) s q = q
      go (err e) s q = (rest e).holds s q
