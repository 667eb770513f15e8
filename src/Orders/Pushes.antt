-- ===== src/Orders/Pushes.antt =====
-- src/services/clientOrdersExportWorker.ts: what a push does to an order that waits, and to the
-- other rows.
use mathlib.Core.Path.{subst, sym, ap}
use leader_product_api.Base.{
  ℕ, ◌≤◌, ◌≡◌, refl, inl, inr, ◌⊎◌, true, false, List, Bool-cases, Option-cases, Member, All-Member,
  arith, change, count-change, Member-change_kept, Member-change_made,
}
use leader_product_api.Orders.{
  Order, Db, has_id, is_status, is_sync_state, Status, draft, queued, sent_to_1c, confirmed,
  partial, rejected, cancelled, SyncState, synced, conflict, error, cancel_requested,
}
use leader_product_api.Orders.Export.{
  Deps, Saved, ExportError, push_order, export_order, mark_order_export_success, pushed, awaits,
  is_candidate, is_cancel_export_order,
}
use leader_product_api.Orders.History.{success_exits, failure_exits}
use leader_product_api.Orders.Moves.{HasUniqueIds, same_row}

not_cancelled : (s : Status) → is_status s queued ≡ true → is_status s cancelled ≡ false
not_cancelled draft h = refl
not_cancelled queued h = refl
not_cancelled sent_to_1c h = refl
not_cancelled confirmed h = refl
not_cancelled partial h = refl
not_cancelled rejected h = refl
not_cancelled cancelled h = ground arith

not_cancelling :
    (s : SyncState) → is_sync_state s queued ≡ true → is_sync_state s cancel_requested ≡ false
not_cancelling draft h = refl
not_cancelling queued h = refl
not_cancelling synced h = refl
not_cancelling conflict h = refl
not_cancelling error h = refl
not_cancelling cancel_requested h = ground arith

pub candidate_waits : (d : Deps) (o : Order) → is_candidate d o ≡ true → awaits d o o ≡ true
candidate_waits d o h = ground (arith, not_cancelled o.status, not_cancelling o.sync_state)

-- A table with unique ids that stores the row.
abbrev pub Stores : Order → List Order → Type 0
Stores t rows = HasUniqueIds rows × Member t rows

module _ (d : Deps) where
  ids_kept :
      (rows : List Order) (r : Order) (f : Order → Order)
      → HasUniqueIds rows
      → ((x : Order) → (f x).id ≡ x.id)
      → HasUniqueIds (change (has_id r.id) f rows)
  ids_kept rows r f unique h i =
      subst (λ n. n ≤ 1)
        (sym (
          count-change (has_id i) (has_id r.id) f
            (λ x _. ap (λ n. has_id i (record x { id = n })) (h x)) rows))
        (unique i)

  pub update_keeps :
      (rows : List Order) (t r : Order) (f : Order → Order)
      → Stores t rows
      → ((x : Order) → (f x).id ≡ x.id)
      → has_id r.id t ≡ false
      → Stores t (d.orders_table.update_many (has_id r.id) f rows).1
  update_keeps rows t r f (unique, m) h other =
      subst (Stores t) (sym (d.orders_table.update_many_rows (has_id r.id) f rows))
        (ids_kept rows r f unique h, Member-change_kept (has_id r.id) f rows t m other)

  -- A row that the end of a push does not look for is not the one that it finds.
  pub not_awaited :
      (rows : List Order) (q t r : Order)
      → Stores t rows
      → awaits d q t ≡ false
      → Member r rows
      → awaits d q r ≡ true
      → has_id r.id t ≡ false
  not_awaited rows q t r (unique, m) h n k = elim (Bool-cases (has_id r.id t)) [
    | inr e ↦ e
    | inl e ↦
        let same : t ≡ r = same_row rows r t unique n m e in
        ground (arith, h, k, subst (λ z. awaits d q z ≡ false) same h)
  ]

  pub push_cases :
      (q : Order)
      → ((x : ExportError) × (push_order d q ≡ inl x))
        ⊎ ((saved : Saved) × (push_order d q ≡ inr saved))
  push_cases q =
      elim (push_order d q)
        as (λ z. ((x : ExportError) × (z ≡ inl x)) ⊎ ((saved : Saved) × (z ≡ inr saved))) [
          | inl x ↦ inl (x, refl)
          | inr saved ↦ inr (saved, refl)
        ]

  pub export_keeps :
      (now : ℕ) (q t : Order) (db : Db)
      → Stores t db.orders
      → awaits d q t ≡ false
      → Stores t (export_order d now q db).0.orders
  unfolding export_order
  export_keeps now q t db s h = elim (Bool-cases (d.gets_order_lock q)) [
    | inr e ↦ rw (e, export_order) s
    | inl e ↦ elim (push_cases q) [
      | inl (x, k) ↦
          rw (e, k, export_order)
            (failure_exits d now db (Stores t) s q x λ r m a.
              update_keeps db.orders t r _ s (λ z. refl) (not_awaited db.orders q t r s h m a))
      | inr (saved, k) ↦
          rw (e, k, export_order)
            (success_exits d now db (Stores t) s q saved λ r m a.
              update_keeps db.orders t r _ s (λ z. refl) (not_awaited db.orders q t r s h m a))
    ]
  ]

  -- The order that waits is delivered by its push.
  pub export_delivers :
      (now : ℕ) (o : Order) (saved : Saved) (db : Db)
      → Stores o db.orders
      → awaits d o o ≡ true
      → d.gets_order_lock o ≡ true
      → push_order d o ≡ inr saved
      → Stores (pushed d now (is_cancel_export_order o) saved o) (export_order d now o db).0.orders
  unfolding export_order mark_order_export_success
  export_delivers now o saved db (unique, m) waits lock k =
      elim (Option-cases (d.orders_table.find_first (awaits d o) db.orders)) [
        | inl e ↦
            let missed =
              All-Member _ db.orders o (d.orders_table.find_first_missing (awaits d o) db.orders e)
                m in
            ground (arith, missed, waits)
        | inr (r, e) ↦
            let (n, a) = d.orders_table.find_first_found (awaits d o) db.orders r e in
            let same : r ≡ o = same_row db.orders o r unique m n (ground (arith, a)) in
            rw (lock, k, e, export_order, mark_order_export_success)
              (subst (Stores (delivered o))
                (sym (d.orders_table.update_many_rows (has_id r.id) delivered db.orders))
                (subst (λ z. Stores (delivered o) (change (has_id z.id) delivered db.orders))
                  (sym same)
                  (
                    ids_kept db.orders o delivered unique (λ z. refl),
                    Member-change_made (has_id o.id) delivered db.orders o m (ground arith),
                  )))
      ]
    where
      delivered : Order → Order
      delivered = pushed d now (is_cancel_export_order o) saved
