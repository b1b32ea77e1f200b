-- ===== src/Base/Counts.antt =====
-- How many rows of a table satisfy a condition, before and after an update, and which row comes first.
use Prim.Native.Nat.{◌+◌, ◌≤◌}
use mathlib.Core.Path.{◌≡◌, refl, sym, ◌∙◌, ap, subst}
use mathlib.Core.Logic.{inl, inr}
use mathlib.Core.Bool.{Bool, true, false}
use mathlib.Core.Option.{none, some}
use mathlib.Core.List.{List, [], ◌∷◌}
use native.Mathlib.Omega.{arith}
use package.luheng_fulfillops_cloud.Base.Tests.{if◌then◌else◌, Bool-cases, Option-cases}
use package.luheng_fulfillops_cloud.Base.Lists.{count_by, update, All, select, first, least, choose}

module _ {ℓ} {A : Type ℓ} where
  -- An update that makes no row count that did not count before makes the count no larger.
  pub count_by-update-le :
      (q p : A → Bool) (f : A → A) (xs : List A)
      → All (λ x. p x ≡ true → q (f x) ≡ true → q x ≡ true) xs
      → count_by q (update p f xs) ≤ count_by q xs
  count_by-update-le q p f [] h = omega arith
  count_by-update-le q p f (x ∷ xs) h = ground (arith, h.0, count_by-update-le q p f xs h.1)

  -- An update that leaves each row that it writes counted as it was leaves the count.
  pub count_by-update :
      (q p : A → Bool) (f : A → A) (xs : List A)
      → ((x : A) → p x ≡ true → q (f x) ≡ q x)
      → count_by q (update p f xs) ≡ count_by q xs
  count_by-update q p f [] h = refl
  count_by-update q p f (x ∷ xs) h = ground (arith, h x, count_by-update q p f xs h)

  -- An update that writes every row that counts, so that it no longer does, leaves none that counts.
  pub count_by-update_none :
      (q : A → Bool) (f : A → A) (xs : List A)
      → ((x : A) → q x ≡ true → q (f x) ≡ false)
      → count_by q (update q f xs) ≡ 0
  count_by-update_none q f [] h = refl
  count_by-update_none q f (x ∷ xs) h = ground (arith, h x, count_by-update_none q f xs h)

  pub count_by-le :
      (p q : A → Bool) (xs : List A)
      → ((x : A) → p x ≡ true → q x ≡ true)
      → count_by p xs ≤ count_by q xs
  count_by-le p q [] h = omega arith
  count_by-le p q (x ∷ xs) h = ground (arith, h x, count_by-le p q xs h)

  -- Where no fewer rows satisfy the stronger condition, the two conditions pick the same rows.
  pub All-of_count :
      (p q : A → Bool) (xs : List A)
      → ((x : A) → p x ≡ true → q x ≡ true)
      → count_by q xs ≤ count_by p xs
      → All (λ x. q x ≡ true → p x ≡ true) xs
  All-of_count p q [] h e = tt
  All-of_count p q (x ∷ xs) h e = (
    ground (arith, h x, count_by-le p q xs h),
    All-of_count p q xs h (ground (arith, h x, count_by-le p q xs h)),
  )

  pub All-first-none : (p : A → Bool) (xs : List A) → All (λ x. p x ≡ false) xs → first p xs ≡ none
  All-first-none p [] h = refl
  All-first-none p (x ∷ xs) h = rw h.0 (All-first-none p xs h.1)

  pub All-map {κ μ} :
      {P : A → Type κ} {Q : A → Type μ} (xs : List A) → ((x : A) → P x → Q x) → All P xs → All Q xs
  All-map [] f h = tt
  All-map (x ∷ xs) f h = (f x h.0, All-map xs f h.1)

  least-none : (le : A → A → Bool) (xs : List A) → least le xs ≡ none → xs ≡ []
  least-none le [] e = refl
  least-none le (x ∷ xs) e = absurd (cc e)

  -- The first row for a total order is before every row.
  module _ (le : A → A → Bool) (total : (x y : A) → le x y ≡ false → le y x ≡ true)
      (trans : (x y z : A) → le x y ≡ true → le y z ≡ true → le x z ≡ true) where
    le_self : (x : A) → le x x ≡ true
    le_self x = elim (Bool-cases (le x x)) [ inl e ↦ e | inr e ↦ total x x e ]

    pub least-All : (xs : List A) (y : A) → least le xs ≡ some y → All (λ x. le y x ≡ true) xs
    least-All [] y e = absurd (cc e)
    least-All (x ∷ xs) y e =
        let first_is : choose le x (least le xs) ≡ y = cc e in
        elim (Option-cases (least le xs)) [
          | inl n ↦
              let same : x ≡ y = sym (ap (choose le x) n) ∙ first_is in
              (
                subst (λ u. le u x ≡ true) same (le_self x),
                subst (All (λ x. le y x ≡ true)) (sym (least-none le xs n)) tt,
              )
          | inr (z, s) ↦
              let chosen : (if le x z then x else z) ≡ y = sym (ap (choose le x) s) ∙ first_is in
              let below = least-All xs z s in
              elim (Bool-cases (le x z)) [
                | inl up ↦
                    let same : x ≡ y = rw up at chosen in
                    subst (λ u. All (λ x. le u x ≡ true) (x ∷ xs)) same
                      (le_self x, All-map xs (λ w h. trans x z w up h) below)
                | inr down ↦
                    let same : z ≡ y = rw down at chosen in
                    subst (λ u. All (λ x. le u x ≡ true) (x ∷ xs)) same (total x z down, below)
              ]
        ]

module _ {ℓ} {A : Type ℓ} where
  -- What an update makes of the rows of a kind, where it writes all of that kind.
  pub All-update_kind {κ μ} :
      (P : A → Type κ) (R : A → Type μ) (kind p : A → Bool) (f : A → A) (xs : List A)
      → ((x : A) → p x ≡ true → P x → R (f x))
      → All (λ x. kind x ≡ true → p x ≡ true) xs
      → All (λ x. p x ≡ true → P x) xs
      → All (λ x. kind x ≡ true → R x) (update p f xs)
  All-update_kind P R kind p f [] g k h = tt
  All-update_kind P R kind p f (x ∷ xs) g k h = (
    elim (Bool-cases (p x)) [
      | inl hit ↦ rw hit (λ _. g x hit (h.0 hit))
      | inr miss ↦ rw miss (λ e. absurd (cc (k.0 e, miss)))
    ],
    All-update_kind P R kind p f xs g k.1 h.1,
  )

  pub All-of_each {κ} : (P : A → Type κ) (xs : List A) → ((x : A) → P x) → All P xs
  All-of_each P [] f = tt
  All-of_each P (x ∷ xs) f = (f x, All-of_each P xs f)

  pub All-count_none : (p : A → Bool) (xs : List A) → All (λ x. p x ≡ false) xs → count_by p xs ≡ 0
  All-count_none p [] h = refl
  All-count_none p (x ∷ xs) h = rw h.0 (omega (arith, All-count_none p xs h.1))

  -- What is selected satisfies the condition and is among the rows.
  pub first-select :
      (P : A → Bool) (le : A → A → Bool) (xs : List A) {y : A}
      → least le (select P xs) ≡ some y
      → P y ≡ true
  first-select P le xs e = least_holds (select P xs) (select_holds xs) e
    where
      select_holds : (xs : List A) → All (λ x. P x ≡ true) (select P xs)
      select_holds [] = tt
      select_holds (x ∷ xs) = elim (Bool-cases (P x)) [
        | inl e ↦ rw e (e, select_holds xs)
        | inr e ↦ rw e (select_holds xs)
      ]

      least_holds :
          (ys : List A) {y : A} → All (λ x. P x ≡ true) ys → least le ys ≡ some y → P y ≡ true
      least_holds [] h e = absurd (cc e)
      least_holds (x ∷ ys) {y} h e =
          let first_is : choose le x (least le ys) ≡ y = cc e in
          elim (Option-cases (least le ys)) [
            | inl n ↦ subst (λ u. P u ≡ true) (sym (ap (choose le x) n) ∙ first_is) h.0
            | inr (z, s) ↦
                let rest = least_holds ys h.1 s in
                subst (λ u. P u ≡ true) (sym (ap (choose le x) s) ∙ first_is)
                  (elim (Bool-cases (le x z)) [ inl up ↦ rw up h.0 | inr down ↦ rw down rest ])
          ]

  -- A row that is found and overwritten by one that would be found is found as it was written.
  pub first-update :
      (p q : A → Bool) (xs : List A) (found y : A)
      → first p xs ≡ some found
      → q found ≡ true
      → p y ≡ true
      → first p (update q (λ _. y) xs) ≡ some y
  first-update p q [] found y e f g = absurd (cc e)
  first-update p q (x ∷ xs) found y e f g = ground (arith, first-update p q xs found y)

  All-of_count_none : (p : A → Bool) (xs : List A) → count_by p xs ≤ 0 → All (λ x. p x ≡ false) xs
  All-of_count_none p [] h = tt
  All-of_count_none p (x ∷ xs) h = (ground (arith, h), All-of_count_none p xs (ground (arith, h)))

  -- Where one row at most is of a kind, it is the one of the kind that a query returns.
  pub All-first_kind :
      (p q : A → Bool) (xs : List A) {m : A}
      → ((x : A) → q x ≡ true → p x ≡ true)
      → count_by p xs ≤ 1
      → first q xs ≡ some m
      → All (λ x. p x ≡ true → x ≡ m) xs
  All-first_kind p q [] k h e = tt
  All-first_kind p q (x ∷ xs) {m} k h e = elim (Bool-cases (p x)) [
    | inl hit ↦
        let others = All-of_count_none p xs (ground (arith, h, hit)) in
        let none_else = All-first-none q xs (All-map xs (λ y n. ground (arith, k y, n)) others) in
        (λ _. ground (arith, none_else, e), All-map xs (λ y n c. absurd (cc (n, c))) others)
    | inr miss ↦ (
      λ c. absurd (cc (c, miss)),
      All-first_kind p q xs k (ground (arith, h, miss)) (ground (arith, e, miss, k x)),
    )
  ]

  pub All-first_only :
      (p : A → Bool) (xs : List A) {m : A}
      → count_by p xs ≤ 1
      → first p xs ≡ some m
      → All (λ x. p x ≡ true → x ≡ m) xs
  All-first_only p xs h e = All-first_kind p p xs (λ _ c. c) h e

  -- An update takes no more rows out of a count than it writes.
  pub count_by-update_loss :
      (q p : A → Bool) (f : A → A) (xs : List A)
      → count_by q xs ≤ count_by q (update p f xs) + count_by p xs
  count_by-update_loss q p f [] = omega arith
  count_by-update_loss q p f (x ∷ xs) = ground (arith, count_by-update_loss q p f xs)

  -- An update that leaves each row that it writes counted leaves the count no smaller.
  pub count_by-update-ge :
      (q p : A → Bool) (f : A → A) (xs : List A)
      → All (λ x. p x ≡ true → q x ≡ true → q (f x) ≡ true) xs
      → count_by q xs ≤ count_by q (update p f xs)
  count_by-update-ge q p f [] h = omega arith
  count_by-update-ge q p f (x ∷ xs) h = ground (arith, h.0, count_by-update-ge q p f xs h.1)

  -- An update adds no more rows to a count than it writes.
  pub count_by-update_gain :
      (q p : A → Bool) (f : A → A) (xs : List A)
      → count_by q (update p f xs) ≤ count_by q xs + count_by p xs
  count_by-update_gain q p f [] = omega arith
  count_by-update_gain q p f (x ∷ xs) = ground (arith, count_by-update_gain q p f xs)
