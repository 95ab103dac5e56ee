-- ===== src/Prelude/Laws.antt =====
-- The laws of the table queries.
use Prim.Native.Nat.{ℕ, ◌+◌}
use mathlib.Core.Path.{◌≡◌, refl}
use mathlib.Core.Bool.{Bool, true, false, ◌||◌}
use mathlib.Core.Logic.{◌↔◌, inl, inr}
use mathlib.Core.Option.{none, some}
use mathlib.Core.List.{List, [], ◌∷◌, ◌++◌}
use native.Mathlib.Omega.{arith}
use paari_payments_protocol.Prelude.Tests.{if◌then◌else◌, Bool-cases}
use paari_payments_protocol.Prelude.Lists.{
  All, any, first, select, sum_of, sorted, insert_sorted, get_last?, update_where, is_empty,
}

module _ {ℓ} {A : Type ℓ} (P : A → Type 0) where
  All-insert_sorted_iff :
      (le : A → A → Bool) (a : A) (xs : List A) → All P (insert_sorted le a xs) ↔ (P a × All P xs)
  All-insert_sorted_iff le a [] = (λ h. h, λ h. h)
  All-insert_sorted_iff le a (x ∷ xs) = ground (arith, All-insert_sorted_iff le a xs)

  -- Sorting changes no property of all items.
  pub All-sorted_iff : (le : A → A → Bool) (xs : List A) → All P (sorted le xs) ↔ All P xs
  All-sorted_iff le [] = (λ h. h, λ h. h)
  All-sorted_iff le (x ∷ xs) =
      ground (arith, All-insert_sorted_iff le x (sorted le xs), All-sorted_iff le xs)

  pub All-append : (xs ys : List A) → All P xs → All P ys → All P (xs ++ ys)
  All-append [] ys h k = k
  All-append (x ∷ xs) ys h k = (h.0, All-append xs ys h.1 k)

  pub All-update_where :
      (q : A → Bool) (f : A → A) (xs : List A)
      → ((a : A) → P a → P (f a))
      → All P xs
      → All P (update_where q f xs)
  All-update_where q f [] keep h = h
  All-update_where q f (x ∷ xs) keep h = (one (q x), All-update_where q f xs keep h.1)
    where
      one : (b : Bool) → P (if b then f x else x)
      one true = keep x h.0
      one false = h.0

pub All-weaken {ℓ} :
    {A : Type ℓ} (P Q : A → Type 0) (xs : List A) → ((a : A) → P a → Q a) → All P xs → All Q xs
All-weaken P Q [] f h = h
All-weaken P Q (x ∷ xs) f h = (f x h.0, All-weaken P Q xs f h.1)

module _ {ℓ} {A : Type ℓ} where
  pub any-append : (p : A → Bool) (xs ys : List A) → any p (xs ++ ys) ≡ (any p xs || any p ys)
  any-append p [] ys = refl
  any-append p (x ∷ xs) ys = ground (arith, any-append p xs ys)

  pub any-sorted :
      (p : A → Bool) (le : A → A → Bool) (xs : List A) → any p (sorted le xs) ≡ any p xs
  any-sorted p le [] = refl
  any-sorted p le (x ∷ xs) = ground (arith, any-insert x (sorted le xs), any-sorted p le xs)
    where
      any-insert : (a : A) (ys : List A) → any p (insert_sorted le a ys) ≡ (p a || any p ys)
      any-insert a [] = refl
      any-insert a (y ∷ ys) = ground (arith, any-insert a ys)

  pub is_empty-sorted : (le : A → A → Bool) (xs : List A) → is_empty (sorted le xs) ≡ is_empty xs
  is_empty-sorted le [] = refl
  is_empty-sorted le (x ∷ xs) =
      elim (sorted le xs) as (λ s. is_empty (insert_sorted le x s) ≡ false) [
        | [] ↦ refl
        | y ∷ ys ↦ ground arith
      ]

  pub is_empty-select :
      (p : A → Bool) (xs : List A) → is_empty xs ≡ true → is_empty (select p xs) ≡ true
  is_empty-select p [] e = refl
  is_empty-select p (x ∷ xs) e = ground arith

  pub select-append :
      (p : A → Bool) (xs ys : List A) → select p (xs ++ ys) ≡ select p xs ++ select p ys
  select-append p [] ys = refl
  select-append p (x ∷ xs) ys = ground (arith, select-append p xs ys)

  pub sum_of-append : (f : A → ℕ) (xs ys : List A) → sum_of f (xs ++ ys) ≡ sum_of f xs + sum_of f ys
  sum_of-append f [] ys = omega arith
  sum_of-append f (x ∷ xs) ys = omega (arith, sum_of-append f xs ys)

  pub first-append :
      (p : A → Bool) (xs ys : List A) (a : A) → first p xs ≡ some a → first p (xs ++ ys) ≡ some a
  first-append p [] ys a h = ground arith
  first-append p (x ∷ xs) ys a h = ground (arith, first-append p xs ys a)

  pub first-append_none :
      (p : A → Bool) (xs ys : List A) → first p xs ≡ none → first p (xs ++ ys) ≡ first p ys
  first-append_none p [] ys h = refl
  first-append_none p (x ∷ xs) ys h = ground (arith, first-append_none p xs ys)

  pub first_holds : (p : A → Bool) (xs : List A) (a : A) → first p xs ≡ some a → p a ≡ true
  first_holds p [] a h = ground arith
  first_holds p (x ∷ xs) a h = elim (Bool-cases (p x)) [
    | inl e ↦ ground arith
    | inr e ↦ ground (arith, first_holds p xs a)
  ]

  pub get_last?-append : (xs : List A) (x : A) → get_last? (xs ++ x ∷ []) ≡ some x
  get_last?-append [] x = refl
  get_last?-append (y ∷ ys) x = rw (get_last?-append ys x) refl

  -- An update that keeps what the query tests.
  pub first-update_where :
      (p q : A → Bool) (f : A → A) (xs : List A)
      → ((a : A) → p (f a) ≡ p a)
      → first p (update_where q f xs)
        ≡ elim (first p xs) [ none ↦ none | some a ↦ some (if q a then f a else a) ]
  first-update_where p q f [] keep = refl
  first-update_where p q f (x ∷ xs) keep = ground (arith, keep x, first-update_where p q f xs keep)
