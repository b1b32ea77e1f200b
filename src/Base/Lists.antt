-- ===== src/Base/Lists.antt =====
-- Lists measured by native numbers, and tables: lists of rows that are selected, updated and
-- summed the way that the program's queries do.
use Prim.Native.Nat.{ℕ, suc, ◌+◌}
use mathlib.Core.Path.{◌≡◌, refl, sym, ap, subst}
use mathlib.Core.Logic.{◌⊎◌, inl, inr}
use mathlib.Core.Bool.{Bool, true, false, ◌&&◌, ◌||◌}
use mathlib.Core.Option.{Option, none, some}
use mathlib.Core.List.{List, [], ◌∷◌, ◌++◌}
use native.Mathlib.Omega.{arith}
use package.luheng_fulfillops_cloud.Base.Tests.{Bool-cases, if◌then◌else◌}

module _ {ℓ} {A : Type ℓ} where
  abbrev pub length : List A → ℕ
  length [] = 0
  length (_ ∷ xs) = suc (length xs)

  -- `db.scalar(select(...).where(p))`
  abbrev pub first : (A → Bool) → List A → Option A
  first p [] = none
  first p (x ∷ xs) = if p x then some x else first p xs

  -- `db.scalars(select(...).where(p))`, and Python's list comprehension with `if`.
  abbrev pub select : (A → Bool) → List A → List A
  select p [] = []
  select p (x ∷ xs) = let rest = select p xs in if p x then x ∷ rest else rest

  -- `UPDATE ... SET f WHERE p`, and writing the attributes of the rows that `p` picks.
  abbrev pub update : (A → Bool) → (A → A) → List A → List A
  update p f [] = []
  update p f (x ∷ xs) = (if p x then f x else x) ∷ update p f xs

  -- `any(p(x) for x in xs)`
  abbrev pub any : (A → Bool) → List A → Bool
  any p [] = false
  any p (x ∷ xs) = p x || any p xs

  -- `all(p(x) for x in xs)`
  abbrev pub all : (A → Bool) → List A → Bool
  all p [] = true
  all p (x ∷ xs) = p x && all p xs

  -- `sum(f(x) for x in xs)`
  abbrev pub sum_by : (A → ℕ) → List A → ℕ
  sum_by f [] = 0
  sum_by f (x ∷ xs) = f x + sum_by f xs

  -- How many rows `p` picks.
  abbrev pub count_by : (A → Bool) → List A → ℕ
  count_by p [] = 0
  count_by p (x ∷ xs) = (if p x then 1 else 0) + count_by p xs

  abbrev pub All {κ} : (A → Type κ) → List A → Type κ
  All P [] = Unit
  All P (x ∷ xs) = P x × All P xs

  abbrev pub choose : (A → A → Bool) → A → Option A → A
  choose le x none = x
  choose le x (some y) = if le x y then x else y

  -- The first row for the order `le`, as `ORDER BY ... LIMIT 1` takes it.
  abbrev pub least : (A → A → Bool) → List A → Option A
  least le [] = none
  least le (x ∷ xs) = some (choose le x (least le xs))

  unfoldable pub insert_by : (A → A → Bool) → A → List A → List A
  insert_by le a [] = a ∷ []
  insert_by le a (x ∷ xs) = if le a x then a ∷ x ∷ xs else x ∷ insert_by le a xs

  -- `ORDER BY`, and Python's stable `sorted`.
  unfoldable pub order_by : (A → A → Bool) → List A → List A
  unfolding insert_by
  order_by le [] = []
  order_by le (x ∷ xs) = insert_by le x (order_by le xs)

module _ {ℓ} {A : Type ℓ} where
  pub length-append : (xs ys : List A) → length (xs ++ ys) ≡ length xs + length ys
  length-append [] ys = omega arith
  length-append (x ∷ xs) ys = omega (arith, length-append xs ys)

  pub sum_by-append : (f : A → ℕ) (xs ys : List A) → sum_by f (xs ++ ys) ≡ sum_by f xs + sum_by f ys
  sum_by-append f [] ys = omega arith
  sum_by-append f (x ∷ xs) ys = omega (arith, sum_by-append f xs ys)

  pub All-append {κ} : (P : A → Type κ) (xs ys : List A) → All P xs → All P ys → All P (xs ++ ys)
  All-append P [] ys hx hy = hy
  All-append P (x ∷ xs) ys hx hy = (hx.0, All-append P xs ys hx.1 hy)

  -- The row that a query returns satisfies its condition and every fact about the table's rows.
  pub first_holds : (p : A → Bool) (xs : List A) {x : A} → first p xs ≡ some x → p x ≡ true
  first_holds p [] e = cc
  first_holds p (x ∷ xs) {x = y} e = ground (arith, first_holds p xs {x = y})

  pub All-first {κ} :
      (P : A → Type κ) (p : A → Bool) (xs : List A) {x : A} → All P xs → first p xs ≡ some x → P x
  All-first P p [] h e = absurd (cc e)
  All-first P p (y ∷ xs) {x} h e =
      (elim (p y) as (λ b. (if b then some y else first p xs) ≡ some x → P x) [
        | true ↦ λ q. subst P (cc q) h.0
        | false ↦ λ q. All-first P p xs h.1 q
      ])
        e

  pub All-select {κ} :
      (P : A → Type κ) (p : A → Bool) (xs : List A) → All P xs → All P (select p xs)
  All-select P p [] h = h
  All-select P p (x ∷ xs) h =
      elim (p x) as (λ b. All P (if b then x ∷ select p xs else select p xs)) [
        | true ↦ (h.0, All-select P p xs h.1)
        | false ↦ All-select P p xs h.1
      ]

  -- A fact of every row is kept by an update that keeps it for the rows that it writes.
  pub All-update {κ} :
      (P : A → Type κ) (p : A → Bool) (f : A → A) (xs : List A)
      → ((x : A) → p x ≡ true → P x → P (f x))
      → All P xs
      → All P (update p f xs)
  All-update P p f [] k h = h
  All-update P p f (x ∷ xs) k h = (
    (elim (p x) as (λ b. (b ≡ true → P (f x)) → P (if b then f x else x)) [
      | true ↦ λ g. g refl
      | false ↦ λ g. h.0
    ])
        (λ e. k x e h.0),
    All-update P p f xs k h.1,
  )

  pub length-update : (p : A → Bool) (f : A → A) (xs : List A) → length (update p f xs) ≡ length xs
  length-update p f [] = refl
  length-update p f (x ∷ xs) = ap suc (length-update p f xs)

  -- An update that keeps what a count looks at keeps the count.
  pub count_by-append :
      (p : A → Bool) (xs ys : List A) → count_by p (xs ++ ys) ≡ count_by p xs + count_by p ys
  count_by-append p [] ys = omega arith
  count_by-append p (x ∷ xs) ys = omega (arith, count_by-append p xs ys)

  -- Nothing is found exactly when nothing is counted.
  pub first-none→count_by : (p : A → Bool) (xs : List A) → first p xs ≡ none → count_by p xs ≡ 0
  first-none→count_by p [] e = refl
  first-none→count_by p (x ∷ xs) e = ground (arith, first-none→count_by p xs)

  pub first-append_new :
      (p : A → Bool) (xs : List A) (a : A)
      → first p xs ≡ none
      → p a ≡ true
      → first p (xs ++ a ∷ []) ≡ some a
  first-append_new p [] a e h = ground arith
  first-append_new p (x ∷ xs) a e h = ground (arith, first-append_new p xs a)

  -- Rows appended to a table that had none of their kind are all that is selected.
  pub select-append-All :
      (p : A → Bool) (xs ys : List A)
      → select p xs ≡ []
      → All (λ y. p y ≡ true) ys
      → select p (xs ++ ys) ≡ ys
  select-append-All p [] [] e h = refl
  select-append-All p [] (y ∷ ys) e h =
      rw h.0 (ap (λ t. y ∷ t) (select-append-All p [] ys refl h.1))
  select-append-All p (x ∷ xs) ys e h = ground (arith, select-append-All p xs ys)

  -- What a query finds after an update that keeps what the query looks at.
  pub first-update_kept :
      (p q : A → Bool) (f : A → A) (xs : List A)
      → ((x : A) → p (f x) ≡ p x)
      → first p (update q f xs)
        ≡ elim (first p xs) [ none ↦ none | some x ↦ some (if q x then f x else x) ]
  first-update_kept p q f [] k = refl
  first-update_kept p q f (x ∷ xs) k = ground (arith, k x, first-update_kept p q f xs k)

  pub List-cases : (xs : List A) → (xs ≡ []) ⊎ ((x : A) × (rest : List A) × (xs ≡ x ∷ rest))
  List-cases [] = inl refl
  List-cases (x ∷ rest) = inr (x, rest, refl)

-- The element stands in the list.
abbrev pub In : {A : Type 0} → A → List A → Type 0
In x [] = ⊥
In x (y ∷ ys) = (x ≡ y) ⊎ In x ys

pub All-In {κ} : {A : Type 0} (P : A → Type κ) (xs : List A) → ((x : A) → In x xs → P x) → All P xs
All-In P [] f = tt
All-In P (x ∷ xs) f = (f x (inl refl), All-In P xs (λ y m. f y (inr m)))

pub first-In : {A : Type 0} (p : A → Bool) (xs : List A) {x : A} → first p xs ≡ some x → In x xs
first-In p [] e = absurd (cc e)
first-In p (y ∷ ys) {x} e = elim (Bool-cases (p y)) [
  | inl hit ↦ (let q = rw hit at e in inl (cc q))
  | inr miss ↦ inr (first-In p ys (rw miss at e))
]

pub append_holds : {A : Type 0} (x : A) (xs : List A) → In x (xs ++ x ∷ [])
append_holds x [] = inl refl
append_holds x (y ∷ ys) = inr (append_holds x ys)

pub All_at {κ} : {A : Type 0} (P : A → Type κ) (xs : List A) → All P xs → {x : A} → In x xs → P x
All_at P [] h m = elim m [ ]
All_at P (y ∷ ys) h {x} (inl e) = subst P (sym e) h.0
All_at P (y ∷ ys) h {x} (inr m) = All_at P ys h.1 m
