-- ===== src/Prelude/Lists.antt =====
-- Tables as lists of rows: the queries that the program makes of them, and their laws.
use Prim.Native.Nat.{ℕ, suc, ◌+◌}
use mathlib.Core.Bool.{Bool, true, false, ◌&&◌, ◌||◌}
use mathlib.Core.Option.{Option, none, some}
use mathlib.Core.List.{List, [], ◌∷◌}
use paari_payments_protocol.Prelude.Tests.{if◌then◌else◌, ◌==◌, Eq}

module _ {ℓ} {A : Type ℓ} where
  abbrev pub length : List A → ℕ
  length [] = 0
  length (x ∷ xs) = suc (length xs)

  -- `query.filter(p).all()`
  abbrev pub select : (A → Bool) → List A → List A
  select p [] = []
  select p (x ∷ xs) = let rest = select p xs in if p x then x ∷ rest else rest

  -- `query.filter(p).first()`
  abbrev pub first : (A → Bool) → List A → Option A
  first p [] = none
  first p (x ∷ xs) = if p x then some x else first p xs

  -- `query.order_by(id desc).first()`, `xs[-1]`
  abbrev pub get_last? : List A → Option A
  get_last? [] = none
  get_last? (x ∷ xs) = elim (get_last? xs) [ none ↦ some x | some y ↦ some y ]

  -- `query.filter(p).update(f)`
  abbrev pub update_where : (A → Bool) → (A → A) → List A → List A
  update_where p f [] = []
  update_where p f (x ∷ xs) = (if p x then f x else x) ∷ update_where p f xs

  abbrev pub any : (A → Bool) → List A → Bool
  any p [] = false
  any p (x ∷ xs) = p x || any p xs

  abbrev pub all : (A → Bool) → List A → Bool
  all p [] = true
  all p (x ∷ xs) = p x && all p xs

  abbrev pub is_empty : List A → Bool
  is_empty [] = true
  is_empty (x ∷ xs) = false

  abbrev pub is_some : Option A → Bool
  is_some none = false
  is_some (some a) = true

  abbrev pub All {κ} : (A → Type κ) → List A → Type κ
  All P [] = Unit
  All P (x ∷ xs) = P x × All P xs

-- `x in xs`
abbrev pub contains {ℓ} : {A : Type ℓ} ⦃e : Eq A⦄ → A → List A → Bool
contains a [] = false
contains a (x ∷ xs) = a == x || contains a xs

-- `sum(f(x) for x in xs)`
abbrev pub sum_of {ℓ} : {A : Type ℓ} → (A → ℕ) → List A → ℕ
sum_of f [] = 0
sum_of f (x ∷ xs) = f x + sum_of f xs

module _ {ℓ} {A : Type ℓ} (le : A → A → Bool) where
  abbrev pub insert_sorted : A → List A → List A
  insert_sorted a [] = a ∷ []
  insert_sorted a (x ∷ xs) =
      let rest = insert_sorted a xs in if le a x then a ∷ x ∷ xs else x ∷ rest

  -- `sorted`, which keeps the order of equal items
  abbrev pub sorted : List A → List A
  sorted [] = []
  sorted (x ∷ xs) = insert_sorted x (sorted xs)

-- `list(set(xs))`, up to the order
abbrev pub distinct {ℓ} : {A : Type ℓ} ⦃e : Eq A⦄ → List A → List A
distinct [] = []
distinct (x ∷ xs) = let rest = distinct xs in if contains x rest then rest else x ∷ rest
