-- ===== src/Table.antt =====
-- One database table behind the query operations that the services call (the client is a package
-- outside the repository): operations as parameters, with what the services rely on as laws.
-- The rows of a table stand in a list in no particular order. A call sees the table as the call
-- before left it.
use mathlib.Core.Path.{subst}
use leader_product_api.Base.{
  ℕ, ◌≤◌, ◌≡◌, refl, Bool, true, false, Option, none, some, List, [], ◌∷◌, All, Member, count,
  change, arith, inl, inr, if◌then◌else◌, leb, Bool-cases, keep, not,
}

pub record Table (Row : Type 0) : Type 0 where
  -- `findFirst`, `findUnique`: any row that passes
  pub find_first : (Row → Bool) → List Row → Option Row
  -- `findFirst` with `orderBy: { key: 'desc' }`
  pub find_latest : (Row → Bool) → (Row → ℕ) → List Row → Option Row
  -- `update`, `updateMany`: how many rows were changed, and the table
  pub update_many : (Row → Bool) → (Row → Row) → List Row → ℕ × List Row
  pub create : Row → List Row → List Row
  -- `delete`: the rows that are left
  pub delete_many : (Row → Bool) → List Row → List Row
  pub find_first_found :
      (p : Row → Bool) (rows : List Row) (r : Row)
      → find_first p rows ≡ some r
      → Member r rows × (p r ≡ true)
  pub find_first_missing :
      (p : Row → Bool) (rows : List Row) → find_first p rows ≡ none → All (λ r. p r ≡ false) rows
  pub find_latest_found :
      (p : Row → Bool) (key : Row → ℕ) (rows : List Row) (r : Row)
      → find_latest p key rows ≡ some r
      → Member r rows × (p r ≡ true) × All (λ q. p q ≡ true → key q ≤ key r) rows
  pub find_latest_missing :
      (p : Row → Bool) (key : Row → ℕ) (rows : List Row)
      → find_latest p key rows ≡ none
      → All (λ r. p r ≡ false) rows
  pub update_many_rows :
      (p : Row → Bool) (f : Row → Row) (rows : List Row)
      → (update_many p f rows).1 ≡ change p f rows
  pub update_many_count :
      (p : Row → Bool) (f : Row → Row) (rows : List Row) → (update_many p f rows).0 ≡ count p rows
  pub create_rows : (r : Row) (rows : List Row) → create r rows ≡ r ∷ rows
  pub delete_many_rows :
      (p : Row → Bool) (rows : List Row) → delete_many p rows ≡ keep (λ r. not (p r)) rows

-- A table in memory, which shows that the laws can be met.
module _ {Row : Type 0} where
  abbrev pub first_in : (Row → Bool) → List Row → Option Row
  first_in p [] = none
  first_in p (x ∷ xs) = if p x then some x else first_in p xs

  abbrev pub later : (Row → ℕ) → Row → Option Row → Option Row
  later key x none = some x
  later key x (some y) = if leb (key y) (key x) then some x else some y

  abbrev pub latest_in : (Row → Bool) → (Row → ℕ) → List Row → Option Row
  latest_in p key [] = none
  latest_in p key (x ∷ xs) = if p x then later key x (latest_in p key xs) else latest_in p key xs

  pub first_in_found :
      (p : Row → Bool) (rows : List Row) (r : Row)
      → first_in p rows ≡ some r
      → Member r rows × (p r ≡ true)
  first_in_found p [] r h = ground arith
  first_in_found p (x ∷ xs) r h = elim (Bool-cases (p x)) [
    | inl e ↦ (inl (ground arith), ground arith)
    | inr e ↦ let (m, k) = first_in_found p xs r (ground arith) in (inr m, k)
  ]

  pub first_in_missing :
      (p : Row → Bool) (rows : List Row) → first_in p rows ≡ none → All (λ r. p r ≡ false) rows
  first_in_missing p [] h = tt
  first_in_missing p (x ∷ xs) h = ground (arith, first_in_missing p xs)

  pub latest_in_missing :
      (p : Row → Bool) (key : Row → ℕ) (rows : List Row)
      → latest_in p key rows ≡ none
      → All (λ r. p r ≡ false) rows
  latest_in_missing p key [] h = tt
  latest_in_missing p key (x ∷ xs) h = ground (arith, latest_in_missing p key xs)

  All-mono :
      (p : Row → Bool) (key : Row → ℕ) (a b : ℕ) (rows : List Row)
      → a ≤ b
      → All (λ q. p q ≡ true → key q ≤ a) rows
      → All (λ q. p q ≡ true → key q ≤ b) rows
  All-mono p key a b [] h k = tt
  All-mono p key a b (x ∷ xs) h k = ((λ e. ground (arith, k.0 e)), All-mono p key a b xs h k.1)

  All-vacuous :
      (p : Row → Bool) (key : Row → ℕ) (b : ℕ) (rows : List Row)
      → All (λ r. p r ≡ false) rows
      → All (λ q. p q ≡ true → key q ≤ b) rows
  All-vacuous p key b [] h = tt
  All-vacuous p key b (x ∷ xs) h = ((λ e. ground arith), All-vacuous p key b xs h.1)

  abbrev pub IsLatest : (Row → Bool) → (Row → ℕ) → List Row → Row → Type 0
  IsLatest p key rows r = Member r rows × (p r ≡ true) × All (λ q. p q ≡ true → key q ≤ key r) rows

  -- The choice between a row that passes and the latest of the others.
  later-IsLatest :
      (p : Row → Bool) (key : Row → ℕ) (x : Row) (xs : List Row) (o : Option Row) (r : Row)
      → p x ≡ true
      → (o ≡ none → All (λ q. p q ≡ false) xs)
      → ((y : Row) → o ≡ some y → IsLatest p key xs y)
      → later key x o ≡ some r
      → IsLatest p key (x ∷ xs) r
  later-IsLatest p key x xs none r e missing found k =
      let same : x ≡ r = ground arith in
      subst (IsLatest p key (x ∷ xs)) same
        (inl refl, e, ((λ _. omega arith), All-vacuous p key (key x) xs (missing refl)))
  later-IsLatest p key x xs (some y) r e missing found k = elim (Bool-cases (leb (key y) (key x))) [
    | inl t ↦
        let same : x ≡ r = ground arith in
        let (m, h, a) = found y refl in
        subst (IsLatest p key (x ∷ xs)) same
          (inl refl, e, ((λ _. omega arith), All-mono p key (key y) (key x) xs (ground arith) a))
    | inr t ↦
        let same : y ≡ r = ground arith in
        let (m, h, a) = found y refl in
        subst (IsLatest p key (x ∷ xs)) same (inr m, h, ((λ _. ground arith), a))
  ]

  pub latest_in_found :
      (p : Row → Bool) (key : Row → ℕ) (rows : List Row) (r : Row)
      → latest_in p key rows ≡ some r
      → IsLatest p key rows r
  latest_in_found p key [] r h = ground arith
  latest_in_found p key (x ∷ xs) r h = elim (Bool-cases (p x)) [
    | inl e ↦
        later-IsLatest p key x xs (latest_in p key xs) r e (latest_in_missing p key xs)
          (latest_in_found p key xs) (rw e at h)
    | inr e ↦
        let (m, k, a) = latest_in_found p key xs r (rw e at h) in
        (inr m, k, ((λ t. ground arith), a))
  ]

abbrev pub in_memory : {Row : Type 0} → Table Row
in_memory = record {
  find_first = first_in;
  find_latest = latest_in;
  update_many = λ p f rows. (count p rows, change p f rows);
  create = λ r rows. r ∷ rows;
  delete_many = λ p rows. keep (λ r. not (p r)) rows;
  find_first_found = first_in_found;
  find_first_missing = first_in_missing;
  find_latest_found = latest_in_found;
  find_latest_missing = latest_in_missing;
  update_many_rows = λ p f rows. refl;
  update_many_count = λ p f rows. refl;
  create_rows = λ r rows. refl;
  delete_many_rows = λ p rows. refl;
}
