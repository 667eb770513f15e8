-- ===== src/Orders/History.antt =====
-- Orders as a state machine: the calls of the manager's application, the ends of the worker's pushes
-- and the acknowledgements of 1C, one at a time. A push ends with the order as the worker had loaded
-- it, which others may have changed meanwhile.
use leader_product_api.Base.{
  ℕ, ◌≡◌, inl, inr, Bool, true, false, Option, List, Text, text_eq, count, Option-cases, Member,
  All,
}
use leader_product_api.Table.{Table}
use leader_product_api.Orders.{
  Order, Content, Change, refuse, unchanged, write, remove, Db, Outcome, is_order_of, has_id,
  with_order, perform,
}
use leader_product_api.Orders.Manage.{
  update_client_order, submit_client_order, unqueue_client_order, retry_client_order_export,
  delete_draft_client_order, restore_client_order, cancel_client_order, create_client_order,
  update_change, submit_change, unqueue_change, retry_change, delete_change, restore_change,
  cancel_change,
}
use leader_product_api.Orders.Export.{
  Deps, Saved, ExportError, mark_order_export_success, mark_order_export_failure, push_order,
  awaits, pushed, failed_push, is_cancel_export_order,
}
use leader_product_api.Orders.Mobile.{
  Mutation, put_client_order, is_client_order, mutation_change, create_mutation, new_client_order,
  checked_content, is_submit,
}
use leader_product_api.Orders.Statuses.{StatusItem, sync_order_status, status_synced}
use leader_product_api.Orders.Ack.{AckBody, handle_order_ack, ack_refused, ack_accepted, filled}

-- What a manager does with an order of his that is stored.
pub data Edit : Type 0 where
  update : (revision : ℕ) (autosave : Bool) → Option Content → Edit
  submit unqueue retry restore : (revision : ℕ) → Edit
  cancel : (revision : ℕ) → Option Text → Edit
  delete_draft : Edit

abbrev pub edit_change : (now user_id : ℕ) → Edit → Order → Change
edit_change now user_id (update revision autosave prepared) =
    update_change now user_id revision autosave prepared
edit_change now user_id (submit revision) = submit_change now user_id revision
edit_change now user_id (unqueue revision) = unqueue_change now user_id revision
edit_change now user_id (retry revision) = retry_change now user_id revision
edit_change now user_id (restore revision) = restore_change now user_id revision
edit_change now user_id (cancel revision reason) = cancel_change now user_id revision reason
edit_change now user_id delete_draft = delete_change

unfoldable pub edit : Table Order → (now : ℕ) → Text → (user_id : ℕ) → Edit → Db → Db × Outcome
edit orders now guid user_id (update revision autosave prepared) =
    update_client_order orders now guid user_id revision autosave prepared
edit orders now guid user_id (submit revision) =
    submit_client_order orders now guid user_id revision
edit orders now guid user_id (unqueue revision) =
    unqueue_client_order orders now guid user_id revision
edit orders now guid user_id (retry revision) =
    retry_client_order_export orders now guid user_id revision
edit orders now guid user_id (restore revision) =
    restore_client_order orders now guid user_id revision
edit orders now guid user_id (cancel revision reason) =
    cancel_client_order orders now guid user_id revision reason
edit orders now guid user_id delete_draft = delete_draft_client_order orders guid user_id

pub data Call : Type 0 where
  create : (id : ℕ) → Text → (user_id : ℕ) → Option Content → Call
  manage : Text → (user_id : ℕ) → Edit → Call
  put : (id : ℕ) → Text → (user_id : ℕ) → Text → Mutation → Call
  accept : Order → Saved → Call
  fail : Order → ExportError → Call
  ack : Text → AckBody → Call
  tell_status : StatusItem → Call

module _ (d : Deps) (now : ℕ) where
  unfoldable pub step : Call → Db → Db
  step (create id guid user_id prepared) db =
      (create_client_order d.orders_table now id guid user_id prepared db).0
  step (manage guid user_id e) db = (edit d.orders_table now guid user_id e db).0
  step (put id guid user_id client_order_id body) db =
      (put_client_order now user_id body d.orders_table id guid client_order_id db).0
  step (accept o saved) db = mark_order_export_success d now o saved db
  step (fail o e) db = mark_order_export_failure d now o e db
  step (ack guid body) db =
      (handle_order_ack d.orders_table d.not_posted_message now guid body db).0
  step (tell_status item) db = (sync_order_status d.orders_table now item db).0

-- A new row has an id that no row has; a push ends as it does for the order that was loaded.
abbrev pub IsAllowed : Deps → Call → Db → Type 0
IsAllowed d (create id guid user_id prepared) db = count (has_id id) db.orders ≡ 0
IsAllowed d (manage guid user_id e) db = Unit
IsAllowed d (put id guid user_id client_order_id body) db = count (has_id id) db.orders ≡ 0
IsAllowed d (accept o saved) db = push_order d o ≡ inr saved
IsAllowed d (fail o e) db = push_order d o ≡ inl e
IsAllowed d (ack guid body) db = Unit
IsAllowed d (tell_status item) db = Unit

-- The ways out of a call, for a property of the orders that are stored.
module _ (d : Deps) (now : ℕ) (db : Db) (P : List Order → Type 0) (stays : P db.orders) where
  abbrev updated : Order → (Order → Order) → List Order
  updated o f = (d.orders_table.update_many (has_id o.id) f db.orders).1

  -- What must be shown of a change that was chosen for a stored order.
  abbrev pub After : Order → Change → Type 0
  After o (refuse r) = Unit
  After o unchanged = Unit
  After o (write f events) = P (updated o f)
  After o remove = P (d.orders_table.delete_many (has_id o.id) db.orders)

  perform_exits : (o : Order) (c : Change) → After o c → P (perform d.orders_table o c db).0.orders
  unfolding perform
  perform_exits o (refuse r) h = stays
  perform_exits o unchanged h = stays
  perform_exits o (write f events) h = h
  perform_exits o remove h = h

  with_order_exits :
      (guid : Text) (user_id : ℕ) (decide : Order → Change)
      → ((o : Order) → Member o db.orders → is_order_of guid user_id o ≡ true → After o (decide o))
      → P (with_order d.orders_table guid user_id decide db).0.orders
  unfolding with_order
  with_order_exits guid user_id decide h =
      elim (Option-cases (d.orders_table.find_first (is_order_of guid user_id) db.orders)) [
        | inl e ↦ rw (e, with_order) stays
        | inr (o, e) ↦
            let (m, k) = d.orders_table.find_first_found (is_order_of guid user_id) db.orders o e in
            rw (e, with_order) (perform_exits o (decide o) (h o m k))
      ]

  pub edit_exits :
      (guid : Text) (user_id : ℕ) (e : Edit)
      → ((o : Order)
          → Member o db.orders
          → is_order_of guid user_id o ≡ true
          → After o (edit_change now user_id e o))
      → P (edit d.orders_table now guid user_id e db).0.orders
  unfolding edit update_client_order submit_client_order unqueue_client_order
      retry_client_order_export delete_draft_client_order restore_client_order cancel_client_order
  edit_exits guid user_id (update revision autosave prepared) h = with_order_exits guid user_id _ h
  edit_exits guid user_id (submit revision) h = with_order_exits guid user_id _ h
  edit_exits guid user_id (unqueue revision) h = with_order_exits guid user_id _ h
  edit_exits guid user_id (retry revision) h = with_order_exits guid user_id _ h
  edit_exits guid user_id (restore revision) h = with_order_exits guid user_id _ h
  edit_exits guid user_id (cancel revision reason) h = with_order_exits guid user_id _ h
  edit_exits guid user_id delete_draft h = with_order_exits guid user_id _ h

  pub put_exits :
      (id : ℕ) (guid : Text) (user_id : ℕ) (client_order_id : Text) (body : Mutation)
      → ((content : Content)
          → All (λ o. is_client_order user_id client_order_id o ≡ false) db.orders
          → P (
              d.orders_table.create
                (new_client_order now user_id body id guid client_order_id content)
                db.orders))
      → ((o : Order)
          → Member o db.orders
          → is_client_order user_id client_order_id o ≡ true
          → After o (mutation_change now user_id body o))
      → P (put_client_order now user_id body d.orders_table id guid client_order_id db).0.orders
  unfolding put_client_order create_mutation
  put_exits id guid user_id client_order_id body creates h =
      elim (Option-cases
        (d.orders_table.find_first (is_client_order user_id client_order_id) db.orders)) [
          | inr (o, e) ↦
              let (m, k) =
                d.orders_table.find_first_found (is_client_order user_id client_order_id) db.orders
                  o e in
              rw (e, put_client_order)
                (perform_exits o (mutation_change now user_id body o) (h o m k))
          | inl e ↦ elim (Option-cases body.prepared) [
            | inl p ↦ rw (e, p, put_client_order, create_mutation) stays
            | inr (content, p) ↦
                elim (Option-cases
                  (checked_content now user_id body (is_submit body.intent) content)) [
                    | inr (r, c) ↦ rw (e, p, c, put_client_order, create_mutation) stays
                    | inl c ↦
                        rw (e, p, c, put_client_order, create_mutation)
                          (creates content (
                            d.orders_table.find_first_missing
                              (is_client_order user_id client_order_id) db.orders e))
                  ]
          ]
        ]

  pub success_exits :
      (o : Order) (saved : Saved)
      → ((r : Order)
          → Member r db.orders
          → awaits d o r ≡ true
          → P (updated r (pushed d now (is_cancel_export_order o) saved)))
      → P (mark_order_export_success d now o saved db).orders
  unfolding mark_order_export_success
  success_exits o saved h = elim (Option-cases (d.orders_table.find_first (awaits d o) db.orders)) [
    | inl e ↦ rw (e, mark_order_export_success) stays
    | inr (r, e) ↦
        let (m, k) = d.orders_table.find_first_found (awaits d o) db.orders r e in
        rw (e, mark_order_export_success) (h r m k)
  ]

  pub failure_exits :
      (o : Order) (x : ExportError)
      → ((r : Order)
          → Member r db.orders
          → awaits d o r ≡ true
          → P (updated r (failed_push d now o.export_attempts (is_cancel_export_order o) x)))
      → P (mark_order_export_failure d now o x db).orders
  unfolding mark_order_export_failure
  failure_exits o x h = elim (Option-cases (d.orders_table.find_first (awaits d o) db.orders)) [
    | inl e ↦ rw (e, mark_order_export_failure) stays
    | inr (r, e) ↦
        let (m, k) = d.orders_table.find_first_found (awaits d o) db.orders r e in
        rw (e, mark_order_export_failure) (h r m k)
  ]

  pub ack_exits :
      (guid : Text) (body : AckBody)
      → ((o : Order)
          → Member o db.orders
          → ((message : Text) → P (updated o (ack_refused now message body)))
            × P (updated o (ack_accepted now d.not_posted_message body)))
      → P (handle_order_ack d.orders_table d.not_posted_message now guid body db).0.orders
  unfolding handle_order_ack
  ack_exits guid body h = elim (Option-cases (d.orders_table.find_first asked db.orders)) [
    | inl e ↦ rw (e, handle_order_ack) stays
    | inr (o, e) ↦
        let (m, k) = d.orders_table.find_first_found asked db.orders o e in
        rw (e, handle_order_ack)
          (elim (Option-cases (filled body.error)) [
            | inl x ↦ rw x ((h o m).1)
            | inr (message, x) ↦ rw x ((h o m).0 message)
          ])
  ]
    where
      asked : Order → Bool
      asked o = text_eq o.guid guid

module _ (d : Deps) (now : ℕ) (db : Db) (P : List Order → Type 0) (stays : P db.orders) where
  pub status_exits :
      (item : StatusItem)
      → ((o : Order)
          → Member o db.orders
          → P (d.orders_table.update_many (has_id o.id) (status_synced now item) db.orders).1)
      → P (sync_order_status d.orders_table now item db).0.orders
  unfolding sync_order_status
  status_exits item h =
      elim (Option-cases (d.orders_table.find_first (λ o. text_eq o.guid item.guid) db.orders)) [
        | inl e ↦ rw (e, sync_order_status) stays
        | inr (o, e) ↦
            let (m, _) =
              d.orders_table.find_first_found (λ r. text_eq r.guid item.guid) db.orders o e in
            rw (e, sync_order_status) (h o m)
      ]
