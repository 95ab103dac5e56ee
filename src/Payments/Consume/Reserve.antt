-- ===== src/Payments/Consume/Reserve.antt =====
-- The atomic reservation of `consume_authorization`: what it does to the account of every
-- authorization.
use paari_payments_protocol.Prelude.{
  if◌then◌else◌, ◌==◌, number_eq, text_eq, length, select, update_where, All, sum_of, ℕ, ◌+◌, ◌≤◌,
  String, ◌≡◌, refl, false, List, [], ◌∷◌, arith, ◌&&◌, Bool-cases, inl, inr, Bool, true,
}
use paari_payments_protocol.Models.Rows.{BoundedAuthorization}
use paari_payments_protocol.Exec.{◌>>=◌, gets, modify, rollback, raise, Session}
use paari_payments_protocol.Exec.Keeps.{Turns, Post}
use paari_payments_protocol.Payments.Consume.{reserve, is_spendable}
use paari_payments_protocol.Payments.Consume.Ledger.{has_id, Ledger}

abbrev one_more : BoundedAuthorization → BoundedAuthorization
one_more a = record a { usage_count = a.usage_count + 1 }

abbrev after : String → List BoundedAuthorization → List BoundedAuthorization
after wanted xs = update_where (is_spendable wanted) one_more xs

abbrev usage : BoundedAuthorization → ℕ
usage a = a.usage_count

-- The uses that a reservation of `wanted` spends of `id`.
abbrev pub credit : String → String → ℕ
credit wanted id = if wanted == id then 1 else 0

sum-after :
    (id : String) (xs : List BoundedAuthorization)
    → sum_of usage (select (has_id id) (after id xs))
      ≡ sum_of usage (select (has_id id) xs) + length (select (is_spendable id) xs)
sum-after id [] = refl
sum-after id (x ∷ xs) = ground (arith, sum-after id xs)

not_both : (id wanted a : String) → (wanted == id) ≡ false → ((a == wanted) && (a == id)) ≡ false
not_both id wanted a ne =
    grind (arith, text_eq.same_iff a wanted, text_eq.same_iff a id, text_eq.same_iff wanted id)

sum-after_other :
    (id wanted : String)
    → (wanted == id) ≡ false
    → (xs : List BoundedAuthorization)
    → sum_of usage (select (has_id id) (after wanted xs)) ≡ sum_of usage (select (has_id id) xs)
sum-after_other id wanted ne [] = refl
sum-after_other id wanted ne (x ∷ xs) =
    ground (arith, sum-after_other id wanted ne xs, not_both id wanted x.authorization_id ne)

length-after :
    (id wanted : String) (xs : List BoundedAuthorization)
    → length (select (has_id id) (after wanted xs)) ≡ length (select (has_id id) xs)
length-after id wanted [] = refl
length-after id wanted (x ∷ xs) = ground (arith, length-after id wanted xs)

Within : BoundedAuthorization → Type 0
Within a = (a.usage_count ≤ a.max_usage) × (a.max_usage ≤ 1)

Within-one :
    (wanted : String) (x : BoundedAuthorization)
    → Within x
    → Within (if is_spendable wanted x then one_more x else x)
unfolding Within
Within-one wanted x p = ground arith

All-after :
    (wanted : String) (xs : List BoundedAuthorization)
    → All Within xs
    → All Within (after wanted xs)
unfolding Within
All-after wanted [] p = tt
All-after wanted (x ∷ xs) (p, ps) = (Within-one wanted x p, All-after wanted xs ps)

used-after_same :
    (id wanted : String) (xs : List BoundedAuthorization)
    → wanted ≡ id
    → length (select (is_spendable wanted) xs) ≡ 1
    → sum_of usage (select (has_id id) (after wanted xs))
      ≡ sum_of usage (select (has_id id) xs) + credit wanted id
used-after_same id wanted xs e one = omega (arith, grown, one, credit-same)
  where
    grown :
        sum_of usage (select (has_id id) (after wanted xs))
        ≡ sum_of usage (select (has_id id) xs) + length (select (is_spendable wanted) xs)
    grown = rw e (sum-after id xs)

    credit-same : credit wanted id ≡ 1
    credit-same = rw (e, (text_eq.same_iff id id).1 refl) refl

used-after :
    (id wanted : String) (xs : List BoundedAuthorization)
    → length (select (is_spendable wanted) xs) ≡ 1
    → sum_of usage (select (has_id id) (after wanted xs))
      ≡ sum_of usage (select (has_id id) xs) + credit wanted id
used-after id wanted xs one = elim (Bool-cases (wanted == id)) [
  | inl e ↦ used-after_same id wanted xs (((text_eq.same_iff wanted id).0) e) one
  | inr ne ↦ ground (arith, sum-after_other id wanted ne xs)
]

-- After the guard the reservation is in the session; otherwise nothing is.
pub reserve-Turns :
    (id wanted : String)
    → Turns (Ledger id 0 0) (Ledger id 0 (credit wanted id)) (Ledger id 0 0) (reserve wanted)
unfolding reserve ◌>>=◌ gets modify rollback raise Within
reserve-Turns id wanted = record {
  holds = λ s l. go s l (length (select (is_spendable wanted) s.work.authorizations) == 1) refl;
}
  where
    go :
        (s : Session)
        → Ledger id 0 0 s
        → (b : Bool) → (length (select (is_spendable wanted) s.work.authorizations) == 1) ≡ b
        → Post
            (Ledger id 0 (credit wanted id))
            (Ledger id 0 0)
            (reserve wanted s).0
            (reserve wanted s).1
    go s l true e = rw e (record {
      charged = l.charged;
      grows = omega (arith, l.grows, used-after id wanted s.work.authorizations one);
      saved = l.saved;
      work = record {
        within = All-after wanted s.work.authorizations l.work.within;
        unique = rw (length-after id wanted s.work.authorizations) l.work.unique;
      };
    })
      where
        one : length (select (is_spendable wanted) s.work.authorizations) ≡ 1
        one =
            ((number_eq.same_iff (length (select (is_spendable wanted) s.work.authorizations)) 1).0)
              e
    go s l false e =
        rw e (record { charged = l.charged; grows = omega arith; saved = l.saved; work = l.saved })
