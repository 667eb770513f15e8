-- ===== src/Orders/Stock.antt =====
-- src/services/clientOrdersExportWorker.ts: the stock that the lines of an order require together.
use mathlib.Core.Path.{subst, sym, ap}
use leader_product_api.Base.{
  ℕ, ◌+◌, ◌*◌, ◌≤◌, ◌<◌, ◌≡◌, ◌∙◌, ◌↔◌, refl, inl, inr, Bool, true, false, Option, none, some, List,
  [], ◌∷◌, Text, text_eq, text_eq→eq, text_eq_refl, count-pos, Member, keep, is_empty, count, arith,
  if◌then◌else◌, Bool-cases, Option-cases,
}
use leader_product_api.Orders.{Item}
use leader_product_api.Orders.Export.{
  line_quantity, add_required, required_by_product, is_short, deficits,
}

abbrev is_for : Text → Text × ℕ → Bool
is_for p e = text_eq e.0 p

-- What the lines of a product require together.
abbrev pub total_of : Text → List Item → ℕ
total_of p [] = 0
total_of p (i ∷ items) =
    let rest = total_of p items in
    elim i.product [ none ↦ rest | some q ↦ if text_eq q p then line_quantity i + rest else rest ]

abbrev amount : Text → List (Text × ℕ) → ℕ
amount p [] = 0
amount p ((q, n) ∷ r) = let rest = amount p r in if text_eq q p then n + rest else rest

abbrev HasUniqueKeys : List (Text × ℕ) → Type 0
HasUniqueKeys r = (p : Text) → count (is_for p) r ≤ 1

module _ (q : Text) (n : ℕ) where
  same_key : (x p : Text) (b : Bool) → text_eq x q ≡ true → text_eq q p ≡ b → text_eq x p ≡ b
  same_key x p b e h = subst (λ z. text_eq z p ≡ b) (sym (text_eq→eq x q e)) h

  amount_added :
      (p : Text) (r : List (Text × ℕ))
      → text_eq q p ≡ true
      → amount p (add_required q n r) ≡ n + amount p r
  amount_added p [] h = rw h (omega arith)
  amount_added p ((x, m) ∷ r) h = elim (Bool-cases (text_eq x q)) [
    | inl e ↦ let same = same_key x p true e h in rw (e, same) (omega arith)
    | inr e ↦ rw e (ground (arith, amount_added p r h))
  ]

  amount_kept :
      (p : Text) (r : List (Text × ℕ))
      → text_eq q p ≡ false
      → amount p (add_required q n r) ≡ amount p r
  amount_kept p [] h = rw h refl
  amount_kept p ((x, m) ∷ r) h = elim (Bool-cases (text_eq x q)) [
    | inl e ↦ let other = same_key x p false e h in rw (e, other) refl
    | inr e ↦ rw e (ground (arith, amount_kept p r h))
  ]

  count_kept :
      (p : Text) (r : List (Text × ℕ))
      → text_eq q p ≡ false
      → count (is_for p) (add_required q n r) ≡ count (is_for p) r
  count_kept p [] h = rw h refl
  count_kept p ((x, m) ∷ r) h = elim (Bool-cases (text_eq x q)) [
    | inl e ↦ let other = same_key x p false e h in rw (e, other) refl
    | inr e ↦ rw e (ground (arith, count_kept p r h))
  ]

  count_added :
      (r : List (Text × ℕ)) → count (is_for q) r ≤ 1 → count (is_for q) (add_required q n r) ≤ 1
  count_added [] h = ground arith
  count_added ((x, m) ∷ r) h = elim (Bool-cases (text_eq x q)) [
    | inl e ↦ rw (e, e) (rw e at h)
    | inr e ↦ rw (e, e) (count_added r (rw e at h))
  ]

  added-HasUniqueKeys : (r : List (Text × ℕ)) → HasUniqueKeys r → HasUniqueKeys (add_required q n r)
  added-HasUniqueKeys r h p = elim (Bool-cases (text_eq q p)) [
    | inl e ↦
        subst (λ z. count (is_for z) (add_required q n r) ≤ 1) (text_eq→eq q p e)
          (count_added r (h q))
    | inr e ↦ subst (λ z. z ≤ 1) (sym (count_kept p r e)) (h p)
  ]

required-HasUniqueKeys :
    (items : List Item) (r : List (Text × ℕ))
    → HasUniqueKeys r
    → HasUniqueKeys (required_by_product items r)
unfolding required_by_product
required-HasUniqueKeys [] r h = h
required-HasUniqueKeys (i ∷ items) r h = elim (Option-cases i.product) [
  | inl e ↦ rw (e, required_by_product) (required-HasUniqueKeys items r h)
  | inr (q, e) ↦
      rw (e, required_by_product)
        (required-HasUniqueKeys items (add_required q (line_quantity i) r)
          (added-HasUniqueKeys q (line_quantity i) r h))
]

amount-required :
    (p : Text) (items : List Item) (r : List (Text × ℕ))
    → amount p (required_by_product items r) ≡ amount p r + total_of p items
unfolding required_by_product
amount-required p [] r = omega arith
amount-required p (i ∷ items) r = elim (Option-cases i.product) [
  | inl e ↦ rw e (amount-required p items r)
  | inr (q, e) ↦ rw e (elim (Bool-cases (text_eq q p)) [
    | inl k ↦ rw k (
        omega (
          arith,
          amount-required p items (add_required q (line_quantity i) r),
          amount_added q (line_quantity i) p r k,
        ))
    | inr k ↦ rw k (
        omega (
          arith,
          amount-required p items (add_required q (line_quantity i) r),
          amount_kept q (line_quantity i) p r k,
        ))
  ])
]

cong_pair : {p x : Text} {n k : ℕ} → p ≡ x → n ≡ k → ◌≡◌ {A = Text × ℕ} (p, n) (x, k)
cong_pair a b i = (a i, b i)

tail : (x : Text) (k : ℕ) (r : List (Text × ℕ)) → HasUniqueKeys ((x, k) ∷ r) → HasUniqueKeys r
tail x k r u p = ground (arith, u p)

no_amount : (p : Text) (r : List (Text × ℕ)) → count (is_for p) r ≡ 0 → amount p r ≡ 0
no_amount p [] h = refl
no_amount p ((x, m) ∷ r) h = ground (arith, no_amount p r)

-- The entry of a product tells what its lines require together, and a product that its lines require
-- has an entry.
Member-amount :
    (p : Text) (n : ℕ) (r : List (Text × ℕ)) → HasUniqueKeys r → Member (p, n) r → n ≡ amount p r
Member-amount p n [] u m = elim m [ ]
Member-amount p n ((x, k) ∷ r) u m = elim (Bool-cases (text_eq x p)) [
  | inl e ↦ elim m [
    | inl same ↦
        let none_left : amount p r ≡ 0 = no_amount p r (ground (arith, e, u p)) in
        rw e (ground (arith, none_left, ap (λ z. z.1) same))
    | inr others ↦ ground (arith, e, count-pos (is_for p) r (p, n) others (text_eq_refl p), u p)
  ]
  | inr e ↦ elim m [
    | inl same ↦ ground (arith, e, text_eq_refl p, ap (λ z. text_eq z.0 p) same)
    | inr others ↦ rw e (Member-amount p n r (tail x k r u) others)
  ]
]

amount-Member :
    (p : Text) (r : List (Text × ℕ)) → HasUniqueKeys r → 1 ≤ amount p r → Member (p, amount p r) r
amount-Member p [] u h = ground arith
amount-Member p ((x, k) ∷ r) u h = elim (Bool-cases (text_eq x p)) [
  | inl e ↦
      let none_left : amount p r ≡ 0 = no_amount p r (ground (arith, e, u p)) in
      rw e (inl (cong_pair (sym (text_eq→eq x p e)) (omega (arith, none_left))))
  | inr e ↦
      let kept : amount p ((x, k) ∷ r) ≡ amount p r = rw e refl in
      inr (subst (λ z. Member (p, z) r) (sym kept) (amount-Member p r (tail x k r u) (rw e at h)))
]

Member-is_empty :
    {A : Type 0} (s : A → Bool) (xs : List A)
    → is_empty (keep s xs) ≡ false
    → (x : A) × Member x xs × (s x ≡ true)
Member-is_empty s [] h = ground arith
Member-is_empty s (x ∷ xs) h = elim (Bool-cases (s x)) [
  | inl e ↦ (x, inl refl, e)
  | inr e ↦ let (y, m, k) = Member-is_empty s xs (rw e at h) in (y, inr m, k)
]

is_empty-Member :
    {A : Type 0} (s : A → Bool) (xs : List A) (x : A)
    → Member x xs
    → s x ≡ true
    → is_empty (keep s xs) ≡ false
is_empty-Member s [] x m h = elim m [ ]
is_empty-Member s (y ∷ xs) x (inl e) h = ground arith
is_empty-Member s (y ∷ xs) x (inr m) h = ground (arith, is_empty-Member s xs x m h)

-- The check finds a deficit if and only if some product with a known stock is required, over all its
-- lines, by more than the stock and a millionth.
pub is_empty-deficits :
    (available : Text → Option ℕ) (items : List Item)
    → (is_empty (deficits available items) ≡ false)
      ↔ ((p : Text) × (n : ℕ) × (available p ≡ some n) × (n + 1 < 1000 * total_of p items))
unfolding deficits
is_empty-deficits available items = (
  λ h.
      let ((p, n), m, short) = Member-is_empty (is_short available) entries h in
      let known : n ≡ total_of p items = Member-amount p n entries unique m ∙ entries_total p in
      elim (Option-cases (available p)) [
        | inl e ↦ ground (arith, e, short)
        | inr (stock, e) ↦ (p, stock, e, ground (arith, e, short, known))
      ],
  λ (p, n, e, less).
      let known : amount p entries ≡ total_of p items = entries_total p in
      is_empty-Member (is_short available) entries (p, amount p entries)
        (amount-Member p entries unique (omega (arith, known, less)))
        (rw (e, is_short) (ground (arith, known, less))),
)
  where
    entries : List (Text × ℕ)
    entries = required_by_product items []

    entries_total : (p : Text) → amount p entries ≡ total_of p items
    entries_total p = omega (arith, amount-required p items [])

    unique : HasUniqueKeys entries
    unique = required-HasUniqueKeys items [] (λ p. omega arith)
