-- ===== src/Repayment/Terms/Dates.antt =====
-- What an accepted schedule promises: `_normalize_schedule` of backend/app/repayment_plans.py.
use luheng_fulfillops_cloud.Base.{
  ℕ, suc, ◌+◌, ◌≤◌, ◌<◌, ◌≡◌, refl, subst, sym, Bool, true, false, List, [], ◌∷◌, map, arith,
  length, leb, if◌then◌else◌, order_by, insert_by, ok, raise_if-eq_ok, ==→eq, ◌||◌, text_eq→eq, All,
  not, any,
}
use luheng_fulfillops_cloud.Repayment.Rows.{ScheduleItem}
use luheng_fulfillops_cloud.Repayment.Terms.{mem, distinct, range, due_dates, normalize_schedule}

-- `a` is no more than the first of `xs`.
abbrev HeadLe : ℕ → List ℕ → Type 0
HeadLe a [] = Unit
HeadLe a (x ∷ _) = a ≤ x

abbrev Ascends : List ℕ → Type 0
Ascends [] = Unit
Ascends (x ∷ xs) = HeadLe x xs × Ascends xs

abbrev HeadLt : ℕ → List ℕ → Type 0
HeadLt a [] = Unit
HeadLt a (x ∷ _) = a < x

abbrev pub StrictlyAscends : List ℕ → Type 0
StrictlyAscends [] = Unit
StrictlyAscends (x ∷ xs) = HeadLt x xs × StrictlyAscends xs

HeadLe-insert_by : (b a : ℕ) (xs : List ℕ) → b ≤ a → HeadLe b xs → HeadLe b (insert_by leb a xs)
unfolding insert_by
HeadLe-insert_by b a [] h k = h
HeadLe-insert_by b a (x ∷ xs) h k = ground arith

insert_by-Ascends : (a : ℕ) (xs : List ℕ) → Ascends xs → Ascends (insert_by leb a xs)
unfolding insert_by
insert_by-Ascends a [] h = (tt, tt)
insert_by-Ascends a (x ∷ xs) h = ground (arith, insert_by-Ascends a xs h.1, HeadLe-insert_by x a xs)

order_by-Ascends : (xs : List ℕ) → Ascends (order_by leb xs)
unfolding order_by
order_by-Ascends [] = tt
order_by-Ascends (x ∷ xs) = insert_by-Ascends x (order_by leb xs) (order_by-Ascends xs)

distinct-le-length : (xs : List ℕ) → distinct xs ≤ length xs
unfolding distinct
distinct-le-length [] = omega arith
distinct-le-length (x ∷ xs) = ground (arith, distinct-le-length xs)

distinct-cons :
    (x : ℕ) (xs : List ℕ)
    → distinct (x ∷ xs) ≡ suc (length xs)
    → (mem x xs ≡ false) × (distinct xs ≡ length xs)
unfolding distinct
distinct-cons x xs e =
    (elim (mem x xs)
        as (λ b.
          (if b then 0 else 1) + distinct xs ≡ suc (length xs)
          → (b ≡ false) × (distinct xs ≡ length xs)) [
            | true ↦ λ q. absurd (omega (arith, distinct-le-length xs))
            | false ↦ λ q. (refl, omega arith)
          ])
      e

not-eq_false : (b : Bool) → not b ≡ false → b ≡ true
not-eq_false true e = refl
not-eq_false false e = cc

not-or-not : (b c : Bool) → (not b || not c) ≡ false → (b ≡ true) × (c ≡ true)
not-or-not b c e = ground arith

-- In order and with none twice is strictly in order.
strictly : (xs : List ℕ) → Ascends xs → distinct xs ≡ length xs → StrictlyAscends xs
strictly [] h e = tt
strictly (x ∷ []) h e = (tt, tt)
strictly (x ∷ y ∷ ys) h e =
    let (new, rest) = distinct-cons x (y ∷ ys) e in (ground arith, strictly (y ∷ ys) h.1 rest)

-- Every period has something to pay.
abbrev pub IsPositive : ScheduleItem → Type 0
IsPositive i = 1 ≤ i.due_cents

any-All :
    (xs : List ScheduleItem)
    → any (λ (i : ScheduleItem). leb i.due_cents 0) xs ≡ false
    → All IsPositive xs
any-All [] e = tt
any-All (x ∷ xs) e = ground (arith, any-All xs)

pub record WellFormed (schedule : List ScheduleItem) : Type 0 where
  pub numbered : map (λ (i : ScheduleItem). i.installment_no) schedule ≡ range 1 (length schedule)
  pub positive : All IsPositive schedule
  pub dates : StrictlyAscends (due_dates schedule)

-- An accepted schedule is returned as it was, numbered from 1, with positive amounts and strictly
-- later due dates.
pub normalize_schedule-WellFormed :
    (schedule : List ScheduleItem) {normalized : List ScheduleItem}
    → normalize_schedule schedule ≡ ok normalized
    → (normalized ≡ schedule) × WellFormed schedule
unfolding normalize_schedule
normalize_schedule-WellFormed schedule h =
    let (numbers, h₁) = raise_if-eq_ok _ _ _ h in
    let (amounts, h₂) = raise_if-eq_ok _ _ _ h₁ in
    let (dates, h₃) = raise_if-eq_ok _ _ _ h₂ in
    let (in_order, new) = not-or-not _ _ dates in
    (
      cc h₃,
      record {
        numbered = text_eq→eq _ _ (not-eq_false _ numbers);
        positive = any-All schedule amounts;
        dates =
            strictly (due_dates schedule)
              (subst Ascends (sym (text_eq→eq _ _ in_order))
                (order_by-Ascends (due_dates schedule)))
              (==→eq _ _ new);
      },
    )
