-- ===== src/Base/Count.antt =====
-- Rows of a table that pass a test, counted, and what a conditional update does to the count.
use Prim.Native.Nat.{ℕ, suc, ◌≤◌}
use mathlib.Core.Path.{◌≡◌, refl, subst, sym}
use mathlib.Core.Logic.{◌⊎◌, inl, inr}
use mathlib.Core.Bool.{Bool, true, false, not}
use mathlib.Core.List.{List, [], ◌∷◌}
use native.Mathlib.Omega.{arith}
use leader_product_api.Base.Tests.{if◌then◌else◌, Bool-cases}
use leader_product_api.Base.Lists.{All, Member, keep}

module _ {ℓ} {A : Type ℓ} where
  abbrev pub count : (A → Bool) → List A → ℕ
  count p [] = 0
  count p (x ∷ xs) = if p x then suc (count p xs) else count p xs

  -- The rows that pass `p` are replaced by their image under `f`.
  abbrev pub change : (A → Bool) → (A → A) → List A → List A
  change p f [] = []
  change p f (x ∷ xs) = (if p x then f x else x) ∷ change p f xs

module _ {A : Type 0} (q : A → Bool) where
  pub count-eq-zero : (xs : List A) → All (λ x. q x ≡ false) xs → count q xs ≡ 0
  count-eq-zero [] h = refl
  count-eq-zero (x ∷ xs) h = ground (arith, count-eq-zero xs h.1)

  pub count-pos : (xs : List A) (a : A) → Member a xs → q a ≡ true → 1 ≤ count q xs
  count-pos [] a m h = elim m [ ]
  count-pos (x ∷ xs) a (inl e) h = ground arith
  count-pos (x ∷ xs) a (inr m) h = ground (arith, count-pos xs a m h)

  -- Where at most one row passes, two rows that pass are one.
  pub count_unique :
      (xs : List A) (a b : A)
      → count q xs ≤ 1
      → Member a xs
      → q a ≡ true
      → Member b xs
      → q b ≡ true
      → a ≡ b
  count_unique [] a b c m h n k = elim m [ ]
  count_unique (x ∷ xs) a b c (inl e) h (inl d) k = ground arith
  count_unique (x ∷ xs) a b c (inl e) h (inr n) k = ground (arith, count-pos xs b n k)
  count_unique (x ∷ xs) a b c (inr m) h (inl d) k = ground (arith, count-pos xs a m h)
  count_unique (x ∷ xs) a b c (inr m) h (inr n) k = count_unique xs a b (ground arith) m h n k

  pub count_le_of_imp :
      (p : A → Bool) (xs : List A) → All (λ x. q x ≡ true → p x ≡ true) xs → count q xs ≤ count p xs
  count_le_of_imp p [] h = omega arith
  count_le_of_imp p (x ∷ xs) h = ground (arith, count_le_of_imp p xs h.1)

  -- Where only rows that pass `p` pass `q`, and those are overwritten, no more rows pass `q` than `p`.
  pub count_claimed :
      (p : A → Bool) (f : A → A) (xs : List A)
      → All (λ x. q x ≡ true → p x ≡ true) xs
      → count q (change p f xs) ≤ count p xs
  count_claimed p f [] h = omega arith
  count_claimed p f (x ∷ xs) h = ground (arith, count_claimed p f xs h.1)

  module _ (p : A → Bool) (f : A → A) where
    -- An update that makes no row pass leaves no more rows that pass.
    pub count-change-le :
        ((x : A) → p x ≡ true → q (f x) ≡ true → q x ≡ true)
        → (xs : List A) → count q (change p f xs) ≤ count q xs
    count-change-le h [] = omega arith
    count-change-le h (x ∷ xs) = ground (arith, h x, count-change-le h xs)

    -- One that keeps the test changes no count.
    pub count-change :
        ((x : A) → p x ≡ true → q (f x) ≡ q x)
        → (xs : List A) → count q (change p f xs) ≡ count q xs
    count-change h [] = refl
    count-change h (x ∷ xs) = ground (arith, h x, count-change h xs)

module _ {ℓ κ} {A : Type ℓ} (P : A → Type κ) (p : A → Bool) (f : A → A) where
  pub All-change :
      (xs : List A) → ((x : A) → P x → p x ≡ true → P (f x)) → All P xs → All P (change p f xs)
  All-change [] h a = tt
  All-change (x ∷ xs) h a = elim (Bool-cases (p x)) [
    | inl e ↦ rw e (h x a.0 e, All-change xs h a.1)
    | inr e ↦ rw e (a.0, All-change xs h a.1)
  ]

module _ {A : Type 0} (q p : A → Bool) (f : A → A) where
  -- `count-change-le`, where only the rows of the table are known not to gain the test.
  pub count-change-le_of_All :
      (xs : List A)
      → All (λ x. p x ≡ true → q (f x) ≡ true → q x ≡ true) xs
      → count q (change p f xs) ≤ count q xs
  count-change-le_of_All [] h = omega arith
  count-change-le_of_All (x ∷ xs) h = ground (arith, h.0, count-change-le_of_All xs h.1)

  pub count-change_of_All :
      (xs : List A)
      → All (λ x. p x ≡ true → q (f x) ≡ q x) xs
      → count q (change p f xs) ≡ count q xs
  count-change_of_All [] h = refl
  count-change_of_All (x ∷ xs) h = ground (arith, h.0, count-change_of_All xs h.1)

module _ {κ} {A : Type 0} (P : A → Type κ) where
  pub All-intro : (xs : List A) → ((x : A) → Member x xs → P x) → All P xs
  All-intro [] h = tt
  All-intro (x ∷ xs) h = (h x (inl refl), All-intro xs (λ y m. h y (inr m)))

  -- A predicate holds of all rows of an updated table if it holds of the rows changed, as changed,
  -- and of the rows kept.
  pub All-change-intro :
      (p : A → Bool) (f : A → A) (xs : List A)
      → ((x : A) → Member x xs → p x ≡ true → P (f x))
      → ((x : A) → Member x xs → p x ≡ false → P x)
      → All P (change p f xs)
  All-change-intro p f [] h k = tt
  All-change-intro p f (x ∷ xs) h k =
      let rest = All-change-intro p f xs (λ y m. h y (inr m)) (λ y m. k y (inr m)) in
      elim (Bool-cases (p x)) [
        | inl e ↦ rw e (h x (inl refl) e, rest)
        | inr e ↦ rw e (k x (inl refl) e, rest)
      ]

module _ {A : Type 0} (p : A → Bool) (f : A → A) where
  -- A row that the test spares stays, and one that it catches stands there as changed.
  pub Member-change_kept :
      (xs : List A) (a : A) → Member a xs → p a ≡ false → Member a (change p f xs)
  Member-change_kept [] a m h = elim m [ ]
  Member-change_kept (x ∷ xs) a (inl e) h = inl (ground arith)
  Member-change_kept (x ∷ xs) a (inr m) h = inr (Member-change_kept xs a m h)

  pub Member-change_made :
      (xs : List A) (a : A) → Member a xs → p a ≡ true → Member (f a) (change p f xs)
  Member-change_made [] a m h = elim m [ ]
  Member-change_made (x ∷ xs) a (inl e) h = inl (ground arith)
  Member-change_made (x ∷ xs) a (inr m) h = inr (Member-change_made xs a m h)

-- Rows that a filter leaves.
module _ {A : Type 0} (p : A → Bool) where
  pub count-keep-le : (q : A → Bool) (xs : List A) → count q (keep p xs) ≤ count q xs
  count-keep-le q [] = omega arith
  count-keep-le q (x ∷ xs) = ground (arith, count-keep-le q xs)

  -- Of the rows that do not pass, none passes.
  pub count-keep-not : (xs : List A) → count p (keep (λ x. not (p x)) xs) ≡ 0
  count-keep-not [] = refl
  count-keep-not (x ∷ xs) = ground (arith, count-keep-not xs)

  pub All-keep-All : (P : A → Type 0) (xs : List A) → All P xs → All P (keep p xs)
  All-keep-All P [] a = tt
  All-keep-All P (x ∷ xs) a = elim (Bool-cases (p x)) [
    | inl e ↦ rw e (a.0, All-keep-All P xs a.1)
    | inr e ↦ rw e (All-keep-All P xs a.1)
  ]

  pub Member-keep : (xs : List A) (a : A) → Member a xs → p a ≡ true → Member a (keep p xs)
  Member-keep [] a m h = elim m [ ]
  Member-keep (x ∷ xs) a (inl e) h =
      let passes : p x ≡ true = subst (λ z. p z ≡ true) e h in rw passes (inl e)
  Member-keep (x ∷ xs) a (inr m) h = elim (Bool-cases (p x)) [
    | inl e ↦ rw e (inr (Member-keep xs a m h))
    | inr e ↦ rw e (Member-keep xs a m h)
  ]

  pub Member-keep_back : (xs : List A) (a : A) → Member a (keep p xs) → Member a xs × (p a ≡ true)
  Member-keep_back [] a m = elim m [ ]
  Member-keep_back (x ∷ xs) a m = elim (Bool-cases (p x)) [
    | inr e ↦ let (k, h) = Member-keep_back xs a (rw e at m) in (inr k, h)
    | inl e ↦ first_or_rest e (Member-keep_back xs a) (rw e at m)
  ]
    where
      first_or_rest :
          p x ≡ true
          → (Member a (keep p xs) → Member a xs × (p a ≡ true))
          → (a ≡ x) ⊎ Member a (keep p xs)
          → Member a (x ∷ xs) × (p a ≡ true)
      first_or_rest e rest (inl same) = (inl same, subst (λ z. p z ≡ true) (sym same) e)
      first_or_rest e rest (inr k) = let (n, h) = rest k in (inr n, h)
