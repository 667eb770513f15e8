-- ===== src/Orders/Consistent.antt =====
-- Orders: the invariant of a row and of the table, and histories of calls.
use mathlib.Core.Path.{subst, sym, ap}
use leader_product_api.Base.{
  ℕ, ◌≤◌, ◌≡◌, refl, inl, inr, true, false, not, none, List, ◌∷◌, count, Bool-cases, arith, All,
  count-change, count-keep-le, All-keep-All, ◌∙◌, All-Member, ◌==◌,
}
use leader_product_api.Orders.{
  queued, draft, cancelled, cancel_requested, error, Order, Db, has_id, is_status, is_sync_state,
}
use leader_product_api.Orders.Manage.{is_none}
use leader_product_api.Orders.Export.{
  Deps, ExportError, push_order, validate_order_ready_for_export,
  validate_order_stock_before_export, is_validation_error, is_cancel_export_order, outcome_of,
  reply_of, Reply,
}
use leader_product_api.Orders.History.{Call, step, IsAllowed}
use leader_product_api.Orders.Edits.{Written}
use leader_product_api.Orders.Mutations.{Mutated}
use leader_product_api.Orders.Moves.{
  Move, edits, puts, IsNewRow, written, sent, accepts, fails, ack_refuses, ack_accepts,
  status_syncs, step_exits, HasUniqueIds, All-write, Move-id,
}

-- What the state of the exchange with 1C tells of an order.
pub record IsConsistent (o : Order) : Type 0 where
  pub positive : 1 ≤ o.revision
  pub of_draft :
      is_sync_state o.sync_state draft ≡ true
      → (is_status o.status draft ≡ true) × (is_none o.queued_at ≡ true)
  pub of_queued :
      is_sync_state o.sync_state queued ≡ true
      → (is_status o.status queued ≡ true) × (is_none o.queued_at ≡ false)
  pub of_cancel :
      is_sync_state o.sync_state cancel_requested ≡ true
      → (is_status o.status cancelled ≡ true) × (is_none o.cancel_requested_at ≡ false)
  pub of_error : is_sync_state o.sync_state error ≡ true → is_status o.status queued ≡ true

pub record IsOrderTable (rows : List Order) : Type 0 where
  pub ids : HasUniqueIds rows
  pub consistent : All IsConsistent rows

-- The export of a cancellation is not checked, so it fails by no validation.
outcome-validation :
    (d : Deps) (o : Order) (r : Reply) (e : ExportError)
    → outcome_of d o r ≡ inl e
    → is_validation_error d e ≡ false
outcome-validation d o (Reply.accepted saved) e h = ground arith
outcome-validation d o (Reply.http_failure status) e h = ground arith
outcome-validation d o Reply.network_failure e h = ground arith
outcome-validation d o Reply.config_failure e h = ground arith

pub push_order-validation :
    (d : Deps) (o : Order) (e : ExportError)
    → push_order d o ≡ inl e
    → is_cancel_export_order o ≡ true
    → is_validation_error d e ≡ false
unfolding push_order validate_order_ready_for_export validate_order_stock_before_export
push_order-validation d o e h cancels =
    let ready : validate_order_ready_for_export o ≡ none =
      rw (cancels, validate_order_ready_for_export) refl in
    let stocked : validate_order_stock_before_export d o ≡ none =
      rw (cancels, validate_order_stock_before_export) refl in
    let sent : outcome_of d o (reply_of d o) ≡ inl e = sym pushes_plainly ∙ h in
    outcome-validation d o (reply_of d o) e sent
  where
    pushes_plainly : push_order d o ≡ outcome_of d o (reply_of d o)
    pushes_plainly =
        rw (cancels, push_order) (rw (cancels, validate_order_stock_before_export) refl)

Move-IsConsistent :
    {d : Deps} {now : ℕ} {c : Call} {o : Order} {f : Order → Order}
    → Move d now c o f
    → IsConsistent o
    → IsConsistent (f o)
Move-IsConsistent (edits (Written.updates content a)) v = ground arith
Move-IsConsistent (edits (Written.submits a b k)) v = ground arith
Move-IsConsistent (edits (Written.unqueues a)) v = ground arith
Move-IsConsistent (edits (Written.retries a b)) v = ground arith
Move-IsConsistent (edits (Written.restores a b)) v = ground arith
Move-IsConsistent (edits (Written.cancels reason a b)) v = ground arith
Move-IsConsistent (puts (Mutated.resubmits a b)) v = ground arith
Move-IsConsistent (puts (Mutated.mutates content a)) v = ground arith
Move-IsConsistent (accepts a b) v = ground arith
Move-IsConsistent {d} (fails {o} {r} {x} a b) v = elim (Bool-cases (is_cancel_export_order o)) [
  | inl h ↦ let plain = push_order-validation d o x b h in ground (arith, a, h, plain)
  | inr h ↦ ground (arith, a, h)
]
Move-IsConsistent (ack_refuses message) v = ground arith
Move-IsConsistent ack_accepts v = ground arith
Move-IsConsistent status_syncs v = ground arith

pub step-IsOrderTable :
    (d : Deps) (now : ℕ) (c : Call) (db : Db)
    → IsOrderTable db.orders
    → IsAllowed d c db
    → IsOrderTable (step d now c db).orders
step-IsOrderTable d now c db v allowed = step_exits d now c db IsOrderTable allowed (record {
  stays = v;
  creates = λ o new fresh _.
      subst IsOrderTable (sym (d.orders_table.create_rows o db.orders)) (record {
        ids = λ i. created_ids i o fresh;
        consistent = (created_consistent o new, v.consistent);
      });
  writes = λ o f m w.
      subst IsOrderTable (sym (d.orders_table.update_many_rows (has_id o.id) f db.orders)) (record {
        ids = λ i.
            subst (λ n. n ≤ 1)
              (sym (
                count-change (has_id i) (has_id o.id) f (λ r _. ap (λ n. n == i) (Move-id w r))
                  db.orders))
              (v.ids i);
        consistent =
            All-write IsConsistent db.orders o f v.ids m
              (Move-IsConsistent w (All-Member IsConsistent db.orders o v.consistent m))
              v.consistent;
      });
  removes = λ o m w.
      subst IsOrderTable (sym (d.orders_table.delete_many_rows (has_id o.id) db.orders)) (record {
        ids = λ i.
            omega (arith, count-keep-le (λ r. not (has_id o.id r)) (has_id i) db.orders, v.ids i);
        consistent = All-keep-All (λ r. not (has_id o.id r)) IsConsistent db.orders v.consistent;
      });
})
  where
    created_consistent : (o : Order) → IsNewRow now db.orders o → IsConsistent o
    created_consistent o (written id guid user_id content) = ground arith
    created_consistent o (sent id guid client_order_id user_id body content missing) = ground arith

    created_ids :
        (i : ℕ) (o : Order)
        → count (has_id o.id) db.orders ≡ 0
        → count (has_id i) (o ∷ db.orders) ≤ 1
    created_ids i o fresh = elim (Bool-cases (o.id == i)) [
      | inr k ↦ rw k (v.ids i)
      | inl k ↦
          let same : o.id ≡ i = ground (arith, k) in
          rw (k, subst (λ z. count (has_id z) db.orders ≡ 0) same fresh) (omega arith)
    ]

pub data Reach (d : Deps) (db : Db) : Db → Type 0 where
  here : Reach d db db
  next :
      {db' : Db} (now : ℕ) (c : Call)
      → Reach d db db'
      → IsAllowed d c db'
      → Reach d db (step d now c db')

-- The invariant holds of the orders after any calls in any order, given fresh ids for new rows: ids
-- are unique, revisions are positive, and the state of the exchange with 1C fits the status and the
-- times of each order.
pub Reach-IsOrderTable :
    (d : Deps) {db db' : Db} → IsOrderTable db.orders → Reach d db db' → IsOrderTable db'.orders
Reach-IsOrderTable d v here = v
Reach-IsOrderTable d v (next {db'} now c r allowed) =
    step-IsOrderTable d now c db' (Reach-IsOrderTable d v r) allowed
