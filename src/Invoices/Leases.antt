-- ===== src/Invoices/Leases.antt =====
-- src/services/clientOrderInvoiceWorker.ts: an invoice under the lease of a run, over the claims and ends of others.
use mathlib.Core.Path.{subst, sym}
use leader_product_api.Base.{
  some, All, All-Member, ℕ, ◌+◌, ◌≤◌, ◌<◌, ◌≡◌, refl, inl, inr, Bool, true, false, List, ◌==◌, ◌∙◌,
  count, change, arith, Bool-cases, Member, All-intro, All-change-intro, count-eq-zero,
  count_unique,
}
use leader_product_api.Table.{Table}
use leader_product_api.Invoices.{Invoice, claim_invoice, is_claimable, claimed, has_id}
use leader_product_api.Invoices.Runs.{
  End, replaced, stored, delivered, failed, end_run, Between, here, claims, ends,
}

-- The invoice of the id is under a lease that ends at `until`.
abbrev IsHeld : (id until : ℕ) → List Invoice → Type 0
IsHeld id until rows = All (λ r. has_id id r ≡ true → r.lease_until ≡ some until) rows

-- A claim that succeeds holds the row, where ids are unique.
claimed-IsHeld :
    (now lease id : ℕ) (rows : List Invoice)
    → count (has_id id) rows ≤ 1
    → 1 ≤ count (is_claimable now id) rows
    → IsHeld id (now + lease) (change (is_claimable now id) (claimed now lease) rows)
claimed-IsHeld now lease id rows one taken =
    All-change-intro _ (is_claimable now id) (claimed now lease) rows (λ r m e _. refl)
      (λ r m e it.
        let untaken : count (is_claimable now id) rows ≡ 0 =
          count-eq-zero (is_claimable now id) rows
            (All-intro _ rows λ x n. not_claimable r m it e x n) in
        let absurd : ⊥ = omega (arith, untaken, taken) in elim absurd [ ])
  where
    not_claimable :
        (r : Invoice)
        → Member r rows
        → has_id id r ≡ true
        → is_claimable now id r ≡ false
        → (x : Invoice) → Member x rows
        → is_claimable now id x ≡ false
    not_claimable r m it e x n = elim (Bool-cases (has_id id x)) [
      | inr other ↦ ground (arith, other)
      | inl its ↦
          subst (λ z. is_claimable now id z ≡ false)
            (count_unique (has_id id) rows r x one m it n its) e
    ]

-- What is held cannot be claimed.
held_unclaimable :
    (now id other until : ℕ) (r : Invoice)
    → now < until
    → (has_id id r ≡ true → r.lease_until ≡ some until)
    → has_id id r ≡ true
    → is_claimable now other r ≡ false
held_unclaimable now id other until r early held it =
    let lease : r.lease_until ≡ some until = held it in ground (arith, lease, early)

module _ (id until : ℕ) where
  claims-IsHeld :
      (now lease other : ℕ) (rows : List Invoice)
      → now < until
      → IsHeld id until rows
      → IsHeld id until (change (is_claimable now other) (claimed now lease) rows)
  claims-IsHeld now lease other rows early held =
      All-change-intro _ (is_claimable now other) (claimed now lease) rows
        (λ r m e it.
          let free = held_unclaimable now id other until r early (All-Member _ rows r held m) it in
          let absurd : ⊥ = ground (arith, e, free) in elim absurd [ ])
        (λ r m e. All-Member _ rows r held m)

  -- An update of other rows holds the row too.
  others-IsHeld :
      (other : ℕ) (p : Invoice → Bool) (f : Invoice → Invoice) (rows : List Invoice)
      → (other == id) ≡ false
      → ((r : Invoice) → p r ≡ true → has_id other r ≡ true)
      → ((r : Invoice) → (f r).id ≡ r.id)
      → IsHeld id until rows
      → IsHeld id until (change p f rows)
  others-IsHeld other p f rows ne within same held =
      All-change-intro _ p f rows
        (λ r m e it. let absurd : ⊥ = ground (arith, ne, within r e, same r, it) in elim absurd [ ])
        (λ r m e. All-Member _ rows r held m)

module _ (invoices : Table Invoice) (backoff : ℕ → ℕ) (id until : ℕ) where
  end_run-IsHeld :
      (other : ℕ) (end : End) (rows : List Invoice)
      → (other == id) ≡ false
      → IsHeld id until rows
      → IsHeld id until (end_run invoices backoff other end rows)
  unfolding end_run
  end_run-IsHeld other replaced rows ne held =
      subst (IsHeld id until) (sym (invoices.update_many_rows _ _ rows))
        (others-IsHeld id until other _ _ rows ne (λ r e. e) (λ r. refl) held)
  end_run-IsHeld other stored rows ne held =
      subst (IsHeld id until) (sym (invoices.update_many_rows _ _ rows))
        (others-IsHeld id until other _ _ rows ne (λ r e. e) (λ r. refl) held)
  end_run-IsHeld other (delivered now final attempts) rows ne held =
      subst (IsHeld id until) (sym (invoices.update_many_rows _ _ rows))
        (others-IsHeld id until other _ _ rows ne (λ r e. e) (λ r. refl) held)
  end_run-IsHeld other (failed now attempts) rows ne held =
      subst (IsHeld id until) (sym (invoices.update_many_rows _ _ rows))
        (others-IsHeld id until other _ _ rows ne (λ r e. ground arith) (λ r. refl) held)

  Between-IsHeld :
      {rows after : List Invoice}
      → IsHeld id until rows
      → Between invoices backoff id until rows after
      → IsHeld id until after
  unfolding claim_invoice
  Between-IsHeld held here = held
  Between-IsHeld held (claims {after} now lease other b early) =
      subst (IsHeld id until)
        (sym (invoices.update_many_rows (is_claimable now other) (claimed now lease) after))
        (claims-IsHeld id until now lease other after early (Between-IsHeld held b))
  Between-IsHeld held (ends {after} other end b ne) =
      end_run-IsHeld other end after ne (Between-IsHeld held b)

  held_refused :
      (later lease : ℕ) (rows : List Invoice)
      → later < until
      → IsHeld id until rows
      → (claim_invoice later invoices lease id rows).0 ≡ false
  unfolding claim_invoice
  held_refused later lease rows early held =
      let none_left : (invoices.update_many (is_claimable later id) (claimed later lease) rows).0
          ≡ 0 =
        invoices.update_many_count (is_claimable later id) (claimed later lease) rows
        ∙ count-eq-zero (is_claimable later id) rows (
            All-intro _ rows λ r m. elim (Bool-cases (has_id id r)) [
              | inr other ↦ ground (arith, other)
              | inl it ↦ held_unclaimable later id id until r early (All-Member _ rows r held m) it
            ]) in
      rw none_left refl

-- Once an invoice was claimed, every claim of it before the lease has ended is refused while the run
-- over it goes on: after any claims of any invoices in that time, and any ends of runs over other
-- invoices, where ids are unique.
pub claim_excludes :
    (invoices : Table Invoice) (backoff : ℕ → ℕ) (now later lease other_lease id : ℕ)
    (rows after : List Invoice)
    → count (has_id id) rows ≤ 1
    → (claim_invoice now invoices lease id rows).0 ≡ true
    → Between invoices backoff id (now + lease) (claim_invoice now invoices lease id rows).1 after
    → later < now + lease
    → (claim_invoice later invoices other_lease id after).0 ≡ false
unfolding claim_invoice
claim_excludes invoices backoff now later lease other_lease id rows after one taken b early =
    let claims : 1 ≤ count (is_claimable now id) rows =
      ground
        (arith, taken, invoices.update_many_count (is_claimable now id) (claimed now lease) rows) in
    let held : IsHeld id (now + lease) (claim_invoice now invoices lease id rows).1 =
      subst (IsHeld id (now + lease))
        (sym (invoices.update_many_rows (is_claimable now id) (claimed now lease) rows))
        (claimed-IsHeld now lease id rows one claims) in
    held_refused invoices backoff id (now + lease) later other_lease after early
      (Between-IsHeld invoices backoff id (now + lease) held b)
