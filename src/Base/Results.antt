-- ===== src/Base/Results.antt =====
-- An operation that may raise an error with a code of type `E`. Where the program raises, the
-- request's database session is closed with no commit, so no state comes back beside an error.
use mathlib.Core.Bool.{Bool, true, false}
use mathlib.Core.Path.{◌≡◌, refl, subst}
use mathlib.Core.Option.{Option, none, some}
use mathlib.Core.Logic.{◌⊎◌, inl, inr}

pub data Result {ℓ κ} (E : Type ℓ) (A : Type κ) : Type (ℓ ⊔ κ) where
  ok : A → Result E A
  err : E → Result E A

infixl 5 ◌>>=◌ ◌>>◌
abbrev pub ◌>>=◌ {ℓ κ μ} :
    {E : Type ℓ} {A : Type κ} {B : Type μ} → Result E A → (A → Result E B) → Result E B
ok a >>= f = f a
err e >>= f = err e

abbrev pub ◌>>◌ {ℓ κ} : {E : Type ℓ} {B : Type κ} → Result E (Unit {0}) → Result E B → Result E B
m >> k = m >>= λ _. k

-- `if c: raise e`
abbrev pub raise_if {ℓ} : {E : Type ℓ} → Bool → E → Result E (Unit {0})
raise_if true e = err e
raise_if false e = ok tt

-- `if not x: raise e`
abbrev pub or_raise {ℓ κ} : {E : Type ℓ} {A : Type κ} → Option A → E → Result E A
or_raise none e = err e
or_raise (some a) e = ok a

-- What holds of the value that is returned, if none is raised.
abbrev pub Returned {ℓ κ μ} : {E : Type ℓ} {A : Type κ} → (A → Type μ) → Result E A → Type μ
Returned P (ok a) = P a
Returned P (err _) = Unit

-- A guarded operation that returns has passed the guard.
pub raise_if-eq_ok {ℓ κ} :
    {E : Type ℓ} {A : Type κ} (b : Bool) (e : E) (m : Result E A) {a : A}
    → (raise_if b e >> m) ≡ ok a
    → (b ≡ false) × (m ≡ ok a)
raise_if-eq_ok true e m h = absurd (cc h)
raise_if-eq_ok false e m h = (refl, h)

pub or_raise-eq_ok {ℓ κ μ} :
    {E : Type ℓ} {A : Type κ} {B : Type μ} (o : Option A) (e : E) (f : A → Result E B) {b : B}
    → (or_raise o e >>= f) ≡ ok b
    → (a : A) × (o ≡ some a) × (f a ≡ ok b)
or_raise-eq_ok none e f h = absurd (cc h)
or_raise-eq_ok (some a) e f h = (a, refl, h)

pub >>=-eq_ok {ℓ κ μ} :
    {E : Type ℓ} {A : Type κ} {B : Type μ} (m : Result E A) (f : A → Result E B) {b : B}
    → (m >>= f) ≡ ok b
    → (a : A) × (m ≡ ok a) × (f a ≡ ok b)
>>=-eq_ok (ok a) f h = (a, refl, h)
>>=-eq_ok (err e) f h = absurd (cc h)

pub >>-eq_ok {ℓ κ} :
    {E : Type ℓ} {B : Type κ} (m : Result E (Unit {0})) (k : Result E B) {b : B}
    → (m >> k) ≡ ok b
    → (m ≡ ok tt) × (k ≡ ok b)
>>-eq_ok (ok tt) k h = (refl, h)
>>-eq_ok (err e) k h = absurd (cc h)

module _ {ℓ κ μ} {E : Type ℓ} {A : Type κ} (P : A → Type μ) where
  pub Returned-raise_if :
      (b : Bool) (e : E) (m : Result E A)
      → (b ≡ false → Returned P m)
      → Returned P (raise_if b e >> m)
  Returned-raise_if true e m h = tt
  Returned-raise_if false e m h = h refl

  pub Returned-or_raise {ν} :
      {B : Type ν} (o : Option B) (e : E) (f : B → Result E A)
      → ((b : B) → o ≡ some b → Returned P (f b))
      → Returned P (or_raise o e >>= f)
  Returned-or_raise none e f h = tt
  Returned-or_raise (some b) e f h = h b refl

  pub Returned->>= {ν} :
      {B : Type ν} (m : Result E B) (f : B → Result E A)
      → ((b : B) → m ≡ ok b → Returned P (f b))
      → Returned P (m >>= f)
  Returned->>= (err e) f h = tt
  Returned->>= (ok b) f h = h b refl

  pub Returned-ok : (m : Result E A) {a : A} → Returned P m → m ≡ ok a → P a
  Returned-ok (ok a) h e = subst P (cc e) h
  Returned-ok (err x) h e = absurd (cc e)

pub Returned-map {ℓ κ μ ν} :
    {E : Type ℓ} {A : Type κ} (P : A → Type μ) {Q : A → Type ν} (m : Result E A)
    → ((a : A) → P a → Q a)
    → Returned P m
    → Returned Q m
Returned-map P (ok a) f h = f a h
Returned-map P (err e) f h = tt

pub Result-cases {ℓ κ} :
    {E : Type ℓ} {A : Type κ} (m : Result E A) → ((a : A) × (m ≡ ok a)) ⊎ ((e : E) × (m ≡ err e))
Result-cases (ok a) = inl (a, refl)
Result-cases (err e) = inr (e, refl)

-- `or_raise` and what follows has returned, so the value was there.
pub or_raise-eq_some {ℓ κ μ} :
    {E : Type ℓ} {A : Type κ} {B : Type μ} (o : Option A) (e : E) (f : A → Result E B) {b : B}
    → (or_raise o e >>= f) ≡ ok b
    → (a : A) × (o ≡ some a) × (f a ≡ ok b)
or_raise-eq_some none e f h = absurd (cc h)
or_raise-eq_some (some a) e f h = (a, refl, h)

-- What is returned is returned once.
pub ok-eq {ℓ κ} : {E : Type ℓ} {A : Type κ} {m : Result E A} {a b : A} → m ≡ ok a → m ≡ ok b → a ≡ b
ok-eq h k = cc (h, k)
