-- ===== src/Orders/Delivery.antt =====
-- src/services/clientOrdersExportWorker.ts: what a run of the worker does to an order that waits.
use mathlib.Core.Path.{subst, sym, ap}
use leader_product_api.Base.{
  ℕ, ◌+◌, ◌≤◌, ◌≡◌, refl, inl, inr, ◌⊎◌, true, false, none, some, List, [], ◌∷◌, count, length,
  keep, Bool-cases, Member, All, All-Member, arith, ltb, ◌*◌, Member-keep, All-keep-All, All-map,
  All-take, take_all, length-keep-le,
}
use leader_product_api.Orders.{Order, Db, has_id, synced}
use leader_product_api.Orders.Export.{
  Deps, Saved, ExportError, push_order, export_order, export_all, run_once, load_export_candidates,
  pushed, awaits, is_candidate, pause_after, get_batch_size, get_backoff_max, or_number,
  is_cancel_export_order, should_attempt,
}
use leader_product_api.Orders.Moves.{HasUniqueIds, same_row}
use leader_product_api.Orders.Backoff.{should_attempt_after}
use leader_product_api.Orders.Pushes.{
  candidate_waits, Stores, push_cases, export_keeps, export_delivers,
}

module _ (d : Deps) where
  -- The pushes of a run, where none ends in an error that stops them.
  abbrev GoesOn : (now : ℕ) → Order → Type 0
  GoesOn now q = (e : ExportError) → push_order d q ≡ inl e → pause_after d now (some e) ≡ none

  export_order-GoesOn :
      (now : ℕ) (q : Order) (db : Db)
      → GoesOn now q
      → pause_after d now (export_order d now q db).1 ≡ none
  unfolding export_order
  export_order-GoesOn now q db h = elim (Bool-cases (d.gets_order_lock q)) [
    | inr e ↦ rw (e, export_order) refl
    | inl e ↦ elim (push_cases d q) [
      | inl (x, k) ↦ rw (e, k, export_order) (h x k)
      | inr (saved, k) ↦ rw (e, k, export_order) refl
    ]
  ]

  export_all_cons :
      (now : ℕ) (q : Order) (rest : List Order) (db : Db)
      → GoesOn now q
      → export_all d now (q ∷ rest) db ≡ export_all d now rest (export_order d now q db).0
  unfolding export_all
  export_all_cons now q rest db h = rw (export_order-GoesOn now q db h, export_all) refl

  export_all_keeps :
      (now : ℕ) (qs : List Order) (t : Order) (db : Db)
      → Stores t db.orders
      → All (λ q. GoesOn now q × (awaits d q t ≡ false)) qs
      → Stores t (export_all d now qs db).0.orders
  unfolding export_all
  export_all_keeps now [] t db s h = s
  export_all_keeps now (q ∷ qs) t db s h =
      subst (λ z. Stores t z.0.orders) (sym (export_all_cons now q qs db h.0.0))
        (export_all_keeps now qs t (export_order d now q db).0 (export_keeps d now q t db s h.0.1)
          h.1)

  module _ (now : ℕ) (o : Order) (saved : Saved) where
    abbrev delivered : Order
    delivered = pushed d now (is_cancel_export_order o) saved o

    -- A candidate is the order or another one.
    abbrev IsOther : Order → Type 0
    IsOther q = (q ≡ o) ⊎ (has_id q.id o ≡ false)

    not_again : (q : Order) → IsOther q → awaits d q delivered ≡ false
    not_again q (inl e) =
        subst (λ z. awaits d z delivered ≡ false) (sym e)
          (elim (Bool-cases (is_cancel_export_order o)) [
            | inl c ↦ rw c (ground arith)
            | inr c ↦ rw c (ground arith)
          ])
    not_again q (inr e) = ground (arith, e)

    not_again_at :
        (q : Order) → GoesOn now q × IsOther q → GoesOn now q × (awaits d q delivered ≡ false)
    not_again_at q (g, e) = (g, not_again q e)

    module _ (waits : awaits d o o ≡ true) (lock : d.gets_order_lock o ≡ true)
        (accepted : push_order d o ≡ inr saved) where
      export_all_delivers :
          (qs : List Order) (db : Db)
          → Stores o db.orders
          → Member o qs
          → All (λ q. GoesOn now q × IsOther q) qs
          → Stores delivered (export_all d now qs db).0.orders
      export_all_delivers [] db s m h = elim m [ ]
      export_all_delivers (q ∷ qs) db s m h =
          subst (λ z. Stores delivered z.0.orders) (sym (export_all_cons now q qs db h.0.0))
            (elim h.0.1 [
              | inl e ↦
                  export_all_keeps now qs delivered (export_order d now q db).0
                    (subst (λ z. Stores delivered (export_order d now z db).0.orders) (sym e)
                      (export_delivers d now o saved db s waits lock accepted))
                    (All-map _ _ not_again_at qs h.1)
              | inr e ↦
                  export_all_delivers qs (export_order d now q db).0
                    (export_keeps d now q o db s (ground (arith, e)))
                    (elim m [
                      | inl same ↦ ground (arith, e, ap (λ z. has_id z.id o) same)
                      | inr k ↦ k
                    ])
                    h.1
            ])

      module _ (paused_until : ℕ) (db : Db) (unique : HasUniqueIds db.orders)
          (m : Member o db.orders) (c : is_candidate d o ≡ true) where
        abbrev loaded : List Order
        loaded = d.oldest (is_candidate d) (get_batch_size d * 3) db.orders

        chosen :
            count (is_candidate d) db.orders ≤ get_batch_size d
            → should_attempt d o now ≡ true
            → Member o (load_export_candidates d now db)
        unfolding load_export_candidates
        chosen few attempt =
            subst (Member o)
              (sym (take_all (get_batch_size d) (keep (λ q. should_attempt d q now) loaded) short))
              (Member-keep (λ q. should_attempt d q now) loaded o
                (d.oldest_all (is_candidate d) (get_batch_size d * 3) db.orders o
                  (omega (arith, few)) m c)
                attempt)
          where
            short : length (keep (λ q. should_attempt d q now) loaded) ≤ get_batch_size d
            short = omega (
              arith,
              few,
              length-keep-le (λ q. should_attempt d q now) loaded,
              d.oldest_length (is_candidate d) (get_batch_size d * 3) db.orders,
            )

        each-GoesOn :
            All (λ q. is_candidate d q ≡ true → GoesOn now q) db.orders
            → All (λ q. GoesOn now q × IsOther q) (load_export_candidates d now db)
        unfolding load_export_candidates
        each-GoesOn goes_on = All-take _ (get_batch_size d) _ (
            All-keep-All (λ q. should_attempt d q now) _ loaded
              (All-map _ _ (λ q (n, k). (All-Member _ db.orders q goes_on n k, other q n)) loaded
                (d.oldest_found (is_candidate d) (get_batch_size d * 3) db.orders)))
          where
            other : (q : Order) → Member q db.orders → IsOther q
            other q n = elim (Bool-cases (has_id q.id o)) [
              | inl e ↦ inl (sym (same_row db.orders q o unique n m e))
              | inr e ↦ inr e
            ]

        run_once-Stores :
            count (is_candidate d) db.orders ≤ get_batch_size d
            → should_attempt d o now ≡ true
            → paused_until ≤ now
            → All (λ q. is_candidate d q ≡ true → GoesOn now q) db.orders
            → Stores delivered (run_once d now paused_until true db).0.orders
        unfolding run_once
        run_once-Stores few attempt unpaused goes_on =
            let runs : ltb now paused_until ≡ false = ground arith in
            rw (runs, run_once)
              (export_all_delivers (load_export_candidates d now db) db (unique, m)
                (chosen few attempt) (each-GoesOn goes_on))

-- A run of the worker delivers an order that waits and that 1C accepts: it is synced and stamped after
-- the run, where the run is not paused and gets the lock, no more orders wait than a run
-- takes, the longest wait has passed since the last change of the order, and no push of a candidate ends in an error that
-- stops the run.
pub run_once_delivers :
    (d : Deps) (now paused_until : ℕ) (o : Order) (saved : Saved) (db : Db)
    → HasUniqueIds db.orders
    → Member o db.orders
    → is_candidate d o ≡ true
    → count (is_candidate d) db.orders ≤ get_batch_size d
    → or_number o.source_updated_at o.updated_at + get_backoff_max d ≤ now
    → paused_until ≤ now
    → d.gets_order_lock o ≡ true
    → push_order d o ≡ inr saved
    → All (λ q. is_candidate d q ≡ true → GoesOn d now q) db.orders
    → (r : Order) × Member r (run_once d now paused_until true db).0.orders
      × (r.id ≡ o.id)
      × (r.sync_state ≡ synced)
      × (r.sent_to_1c_at ≡ some now)
run_once_delivers d now paused_until o saved db unique m c few late unpaused lock accepted goes_on =
    let (_, n) =
      run_once-Stores d now o saved (candidate_waits d o c) lock accepted paused_until db unique m c
        few (should_attempt_after d o now late) unpaused goes_on in
    (delivered d now o saved, n, refl, refl, refl)
