-- ===== src/Contact/Limits.antt =====
-- A case is contacted no more often in a day than the policy allows.
use luheng_fulfillops_cloud.Base.{
  ℕ, ◌+◌, ◌*◌, ◌≤◌, ◌<◌, ◌≡◌, refl, subst, sym, inl, inr, true, false, some, List, [], ◌∷◌, ◌++◌,
  arith, first, first_holds, leb, All, All-append, All-map, All-update, count_by, count_by-append,
  count_by-update, count_by-update-le, All-first_kind, Text, text_eq→eq, naive_utc, day, Bool-cases,
  ◌==◌,
}
use luheng_fulfillops_cloud.Contact.Rows.{ContactAttempt, ContactDb}
use luheng_fulfillops_cloud.Contact.Attempts.{
  day_start, counts_in, AttemptRequest, new_attempt, is_attempt, write_attempt,
}

-- Each case has `n` attempts at most that are not blocked in each day.
abbrev pub WithinDaily : ℕ → List ContactAttempt → Type 0
WithinDaily n rows =
    (tenant_id : ℕ) (case_id : Text) (d : ℕ)
    → count_by (counts_in tenant_id case_id (d * day)) rows ≤ n

-- The keys of the attempts differ and have been given out.
abbrev pub IsKeyed : ℕ → List ContactAttempt → Type 0
IsKeyed next rows =
    ((i : ℕ) → count_by (λ (a : ContactAttempt). a.id == i) rows ≤ 1)
    × All (λ (a : ContactAttempt). a.id < next) rows

abbrev pub HasLimits : ℕ → ContactDb → Type 0
HasLimits n db = WithinDaily n db.attempts × IsKeyed db.next_id db.attempts

-- The row is the only one of its key.
abbrev pub Alone : ContactAttempt → List ContactAttempt → Type 0
Alone a = All (λ (x : ContactAttempt). (x.id == a.id) ≡ true → x ≡ a)

abbrev pub Kept : ℕ → ContactAttempt × ContactDb → Type 0
Kept n w = HasLimits n w.1

fresh_count :
    (next : ℕ) (rows : List ContactAttempt)
    → All (λ (a : ContactAttempt). a.id < next) rows
    → count_by (λ (a : ContactAttempt). a.id == next) rows ≡ 0
fresh_count next [] h = refl
fresh_count next (a ∷ rows) h = ground (arith, h.0, fresh_count next rows h.1)

pub add-IsKeyed :
    (next : ℕ) (row : ContactAttempt) (rows : List ContactAttempt)
    → row.id ≡ next
    → IsKeyed next rows
    → IsKeyed (next + 1) (rows ++ row ∷ [])
add-IsKeyed next row rows e h = (
  λ i.
      rw (count_by-append (λ (a : ContactAttempt). a.id == i) rows (row ∷ []))
        (elim (Bool-cases (row.id == i)) [
          | inl hit ↦
              let same : next ≡ i = ground (arith, hit, e) in
              let free : count_by (λ (a : ContactAttempt). a.id == i) rows ≡ 0 =
                subst (λ j. count_by (λ (a : ContactAttempt). a.id == j) rows ≡ 0) same
                  (fresh_count next rows h.1) in
              rw (hit, free) (omega arith)
          | inr miss ↦ rw miss (omega (arith, h.0 i))
        ]),
  All-append (λ (a : ContactAttempt). a.id < next + 1) rows (row ∷ [])
      (All-map rows (λ a less. omega (arith, less)) h.1) (omega (arith, e), tt),
)

pub add-WithinDaily :
    (n : ℕ) (r : AttemptRequest) (id : ℕ) (rows : List ContactAttempt)
    → leb n (count_by (counts_in r.tenant_id r.case_id (day_start (naive_utc r.scheduled_at))) rows)
      ≡ false
    → WithinDaily n rows
    → WithinDaily n (rows ++ new_attempt r id ∷ [])
unfolding new_attempt
add-WithinDaily n r id rows free h t c d =
    rw (count_by-append (counts_in t c (d * day)) rows (new_attempt r id ∷ []))
      (elim (Bool-cases (counts_in t c (d * day) (new_attempt r id))) [
        | inr miss ↦ rw miss (omega (arith, h t c d))
        | inl hit ↦
            let same_tenant : r.tenant_id ≡ t = ground (arith, hit) in
            let same_case : r.case_id ≡ c = text_eq→eq r.case_id c (ground (arith, hit)) in
            let begins : day_start (naive_utc r.scheduled_at) ≡ d * day = ground (arith, hit) in
            let room =
              subst (λ u. leb n (count_by (counts_in u c (d * day)) rows) ≡ false) same_tenant
                (subst (λ u. leb n (count_by (counts_in r.tenant_id u (d * day)) rows) ≡ false)
                  same_case
                  (subst (λ u. leb n (count_by (counts_in r.tenant_id r.case_id u) rows) ≡ false)
                    begins free)) in
            rw hit (ground (arith, room))
      ])

-- Overwriting an attempt by one of its key that counts no more often keeps the limits.
pub write_attempt-HasLimits :
    (n next : ℕ) (a row : ContactAttempt) (rows : List ContactAttempt)
    → Alone a rows
    → row.id ≡ a.id
    → ((u : ℕ) (c : Text) (s : ℕ) → counts_in u c s row ≡ true → counts_in u c s a ≡ true)
    → WithinDaily n rows × IsKeyed next rows
    → WithinDaily n (write_attempt row rows) × IsKeyed next (write_attempt row rows)
write_attempt-HasLimits n next a row rows alone same less h = (
  λ u c d. omega (
    arith,
    h.0 u c d,
    count_by-update-le (counts_in u c (d * day)) (λ (x : ContactAttempt). x.id == row.id) (λ _. row)
        rows
        (All-map rows
          (λ x only hit counts.
            subst (λ y. counts_in u c (d * day) y ≡ true) (sym (only (ground (arith, hit, same))))
              (less u c (d * day) counts))
          alone),
  ),
  (
    λ k.
        rw
          (count_by-update (λ (x : ContactAttempt). x.id == k)
            (λ (x : ContactAttempt). x.id == row.id) (λ _. row) rows (λ x hit. ground (arith, hit)))
          (h.1.0 k),
    All-update (λ (x : ContactAttempt). x.id < next) (λ (x : ContactAttempt). x.id == row.id)
        (λ _. row) rows (λ x hit less. ground (arith, hit, less)) h.1.1,
  ),
)

-- The attempt that a query by its key returns is the only one of the key.
pub found-Alone :
    (t i next : ℕ) (rows : List ContactAttempt) {a : ContactAttempt}
    → IsKeyed next rows
    → first (is_attempt t i) rows ≡ some a
    → Alone a rows
found-Alone t i next rows {a} h found =
    let key : i ≡ a.id = ground (arith, first_holds (is_attempt t i) rows found) in
    All-first_kind (λ (x : ContactAttempt). x.id == a.id) (is_attempt t i) rows
      (λ x k. ground (arith, k, key)) (h.0 a.id) found

-- An attempt that is added under a fresh key is the only one of the key.
pub added-Alone :
    (next : ℕ) (row : ContactAttempt) (rows : List ContactAttempt)
    → row.id ≡ next
    → IsKeyed next rows
    → Alone row (rows ++ row ∷ [])
added-Alone next row rows e h =
    All-append (λ (x : ContactAttempt). (x.id == row.id) ≡ true → x ≡ row) rows (row ∷ [])
      (All-map rows (λ x less same. absurd (ground (arith, less, same, e))) h.1) ((λ _. refl), tt)
