-- ===== src/Orders/Manage.antt =====
-- src/modules/clientOrders/clientOrders.service.ts: what the manager's application does with an
-- order. `prepared` is the content that the references and the lines of a request resolve to, with
-- no value where they do not; the snapshot of the active route and the saved preferences are left out.
mod Rows
pub use Rows.*
unfoldable pub use Rows.{has_bad_lines, missing_of, assert_can_be_submitted}
use leader_product_api.Base.{
  ℕ, ◌+◌, Bool, true, false, ◌&&◌, ◌||◌, not, Option, none, some, List, [], ◌∷◌, ◌++◌, ◌==◌,
  if◌then◌else◌, keep, some_of, is_empty, Text,
}
use leader_product_api.Table.{Table}
use leader_product_api.Orders.{
  Status, draft, queued, sent_to_1c, cancelled, SyncState, synced, cancel_requested, Source,
  manager_app, Item, Content, Order, EventSource, app_manager, app_cancel_request, EventType,
  order_created, order_updated, order_submitted, order_unqueued, export_retry_queued,
  order_restored, order_cancelled, Event, Db, Field, Refusal, not_found, read_only, stale_revision,
  cancelled_order, not_queued, not_deletable, not_cancelled, already_in_1c, bad_lines,
  bad_references, missing_fields, Change, refuse, unchanged, write, remove, Outcome, done, refused,
  is_status, is_sync_state, is_manager_app, with_order,
}

unfoldable pub delete_change : Order → Change
delete_change o =
    if (is_status o.status draft || (is_status o.status queued || is_status o.status cancelled))
      && not (is_known_to_1c o)
    then remove
    else refuse not_deletable

-- The decision of each call on the order it has found.
module _ (now user_id : ℕ) where
  unfoldable pub update_change : (revision : ℕ) (autosave : Bool) → Option Content → Order → Change
  update_change revision autosave prepared o = check (ensure_editable o) (
      check (assert_revision o.revision revision) (elim prepared [
        | none ↦ refuse bad_references
        | some content ↦
            write (updated now content)
              (if autosave then [] else event_of o app_manager order_updated user_id ∷ [])
      ]))

  unfoldable pub submit_change : (revision : ℕ) → Order → Change
  unfolding assert_can_be_submitted
  submit_change revision o = check (ensure_editable o) (
      check (assert_revision o.revision revision) (
        if is_status o.status cancelled
        then refuse cancelled_order
        else check (assert_can_be_submitted o.content)
            (write (submitted now) (event_of o app_manager order_submitted user_id ∷ []))))

  abbrev pub unqueue_write : Order → Change
  unqueue_write o = write (unqueued now) (event_of o app_manager order_unqueued user_id ∷ [])

  unfoldable pub unqueue_change : (revision : ℕ) → Order → Change
  unqueue_change revision o =
      if o.has_realization
      then refuse read_only
      else if not (is_order_queued o)
      then refuse not_queued
      else check (assert_revision o.revision revision) (unqueue_write o)

  unfoldable pub retry_change : (revision : ℕ) → Order → Change
  unfolding has_bad_lines
  retry_change revision o = check (ensure_editable o) (
      check (assert_revision o.revision revision) (
        if has_bad_lines o.content
        then refuse bad_lines
        else write (retried now) (event_of o app_manager export_retry_queued user_id ∷ [])))

  unfoldable pub restore_change : (revision : ℕ) → Order → Change
  restore_change revision o =
      if not (is_status o.status cancelled)
      then refuse not_cancelled
      else if is_known_to_1c o
      then refuse already_in_1c
      else check (assert_revision o.revision revision)
          (write (restored now) (event_of o app_manager order_restored user_id ∷ []))

  unfoldable pub cancel_change : (revision : ℕ) → Option Text → Order → Change
  cancel_change revision reason o =
      if is_status o.status cancelled
      then unchanged
      else check (assert_revision o.revision revision) (
          if is_order_queued o
          then unqueue_write o
          else check (ensure_editable o) (
              write (cancelled_row now reason)
                (event_of o app_cancel_request order_cancelled user_id ∷ [])))

module _ (orders : Table Order) where
  unfoldable pub update_client_order :
      (now : ℕ)
      → Text
      → (user_id revision : ℕ) (autosave : Bool) → Option Content
      → Db
      → Db × Outcome
  unfolding with_order update_change
  update_client_order now guid user_id revision autosave prepared =
      with_order orders guid user_id (update_change now user_id revision autosave prepared)

  unfoldable pub submit_client_order : (now : ℕ) → Text → (user_id revision : ℕ) → Db → Db × Outcome
  unfolding with_order submit_change
  submit_client_order now guid user_id revision =
      with_order orders guid user_id (submit_change now user_id revision)

  unfoldable pub unqueue_client_order :
      (now : ℕ) → Text → (user_id revision : ℕ) → Db → Db × Outcome
  unfolding with_order unqueue_change
  unqueue_client_order now guid user_id revision =
      with_order orders guid user_id (unqueue_change now user_id revision)

  unfoldable pub retry_client_order_export :
      (now : ℕ) → Text → (user_id revision : ℕ) → Db → Db × Outcome
  unfolding with_order retry_change
  retry_client_order_export now guid user_id revision =
      with_order orders guid user_id (retry_change now user_id revision)

  unfoldable pub delete_draft_client_order : Text → (user_id : ℕ) → Db → Db × Outcome
  unfolding with_order delete_change
  delete_draft_client_order guid user_id = with_order orders guid user_id delete_change

  unfoldable pub restore_client_order :
      (now : ℕ) → Text → (user_id revision : ℕ) → Db → Db × Outcome
  unfolding with_order restore_change
  restore_client_order now guid user_id revision =
      with_order orders guid user_id (restore_change now user_id revision)

  unfoldable pub cancel_client_order :
      (now : ℕ) → Text → (user_id revision : ℕ) → Option Text → Db → Db × Outcome
  unfolding with_order cancel_change
  cancel_client_order now guid user_id revision reason =
      with_order orders guid user_id (cancel_change now user_id revision reason)

abbrev pub new_order : (now id : ℕ) → Text → (user_id : ℕ) → Content → Order
new_order now id guid user_id content = record {
  id = id;
  guid = guid;
  client_order_id = none;
  client_revision = none;
  client_payload_hash = none;
  source = manager_app;
  created_by = some user_id;
  revision = 1;
  status = draft;
  sync_state = draft;
  content = content;
  queued_at = none;
  submit_requested_at = none;
  cancel_requested_at = none;
  cancel_reason = none;
  sent_to_1c_at = none;
  export_attempts = 0;
  last_export_error = none;
  last_1c_error = none;
  number_1c = none;
  is_posted_in_1c = false;
  posted_at_1c = none;
  has_realization = false;
  source_updated_at = some now;
  updated_at = now;
  created_at = now;
}

abbrev pub created_event : Order → ℕ → Event
created_event o user_id = record {
  order_id = o.id;
  revision = o.revision;
  source = app_manager;
  event_type = order_created;
  actor = some user_id;
}

-- `id` and `guid` are the fresh ids of this call.
unfoldable pub create_client_order :
    Table Order → (now id : ℕ) → Text → (user_id : ℕ) → Option Content → Db → Db × Outcome
create_client_order orders now id guid user_id none db = (db, refused bad_references)
create_client_order orders now id guid user_id (some content) db =
    let o = new_order now id guid user_id content in
    (
      record { orders = orders.create o db.orders; events = created_event o user_id ∷ db.events },
      done,
    )
