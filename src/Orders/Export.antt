-- ===== src/Orders/Export.antt =====
-- src/services/clientOrdersExportWorker.ts: the worker that pushes queued orders to 1C. An answer of
-- 1C is taken as extractSavedOrder and extractSavedOrderItems read it; logging and the payloads of
-- events are left out.
mod Checks
pub use Checks.*
unfoldable pub use Checks.{
  unready_fields, validate_order_ready_for_export, required_by_product, deficits, get_backoff_ms,
  should_attempt, validate_order_stock_before_export,
}
use leader_product_api.Base.{
  ℕ, ◌+◌, ◌-◌, ◌*◌, ◌^◌, ◌≤◌, ◌≡◌, min, suc, zero, Bool, true, false, ◌&&◌, ◌||◌, not, Option, none,
  some, List, [], ◌∷◌, ◌++◌, ◌==◌, ltb, leb, if◌then◌else◌, keep, some_of, is_empty, take, length,
  count, Text, text_eq, All, Member, ◌⊎◌, inl, inr,
}
use leader_product_api.Table.{Table}
use leader_product_api.Orders.{
  Status, queued, sent_to_1c, cancelled, SyncState, synced, error, cancel_requested, Item, Content,
  Order, EventSource, onec_ack, system, EventType, push_ok, push_saved_not_posted, cancel_push_ok,
  push_error, Event, Db, Field, is_status, is_sync_state, is_manager_app, has_id,
}
use leader_product_api.Orders.Manage.{is_none, is_null_or_zero, active_lines, named}

module _ (d : Deps) where
  open d use {
    orders_table, oldest, post, put, available, gets_order_lock, message, not_posted_message,
    preflight_disabled,
  }

  -- The row that the transaction at the end looks for: the one of the order, in the state of its export.
  abbrev pub awaits : Order → Order → Bool
  awaits o r =
      r.id == o.id
      && (if is_cancel_export_order o
          then is_status r.status cancelled && is_sync_state r.sync_state cancel_requested
          else is_status r.status queued && is_sync_state r.sync_state queued)

  abbrev pub is_true : Option Bool → Bool
  is_true (some b) = b
  is_true none = false

  abbrev pub posting_error : Bool → Saved → Option Text
  posting_error is_cancel saved =
      if not is_cancel && not (is_true saved.is_posted)
      then or_message (or_message saved.last_1c_error saved.last_export_error)
          (some not_posted_message)
      else none

  abbrev pub pushed : (now : ℕ) → (is_cancel : Bool) → Saved → Order → Order
  pushed now is_cancel saved r = record r {
    revision = r.revision + 1;
    status = if is_cancel then cancelled else sent_to_1c;
    sync_state = synced;
    number_1c = or_message saved.number_1c r.number_1c;
    sent_to_1c_at = some now;
    cancel_requested_at = if is_cancel then none else r.cancel_requested_at;
    source_updated_at = some now;
    updated_at = now;
    last_export_error = none;
    last_1c_error = posting_error is_cancel saved;
    is_posted_in_1c = if is_cancel then r.is_posted_in_1c else is_true saved.is_posted;
    posted_at_1c =
        if is_cancel
        then r.posted_at_1c
        else if is_true saved.is_posted
        then some (or_number saved.posted_at now)
        else none;
    export_attempts = r.export_attempts + 1;
  }

  abbrev pub worker_event : EventSource → EventType → ℕ → Order → Event
  worker_event source event_type revision r = record {
    order_id = r.id;
    revision = revision;
    source = source;
    event_type = event_type;
    actor = none;
  }

  abbrev pub push_event : (is_cancel : Bool) → Saved → EventType
  push_event is_cancel saved =
      if is_cancel
      then cancel_push_ok
      else if is_none (posting_error is_cancel saved)
      then push_ok
      else push_saved_not_posted

  abbrev pub update_row : Order → (Order → Order) → Event → Db → Db
  update_row r f event db = record {
    orders = (orders_table.update_many (has_id r.id) f db.orders).1;
    events = event ∷ db.events;
  }

  -- The end of a push that 1C accepted; the order is the one that was pushed.
  unfoldable pub mark_order_export_success : (now : ℕ) → Order → Saved → Db → Db
  mark_order_export_success now o saved db =
      let is_cancel = is_cancel_export_order o in
      elim (orders_table.find_first (awaits o) db.orders) [
        | none ↦ db
        | some r ↦
            update_row r (pushed now is_cancel saved)
              (worker_event onec_ack (push_event is_cancel saved) (r.revision + 1) r) db
      ]

  abbrev pub is_validation_error : ExportError → Bool
  is_validation_error (not_ready fields) = true
  is_validation_error (insufficient_stock products) = true
  is_validation_error _ = false

  abbrev pub failed_push : (now attempts : ℕ) → (is_cancel : Bool) → ExportError → Order → Order
  failed_push now attempts is_cancel e r = record r {
    sync_state =
        if is_validation_error e then error else if is_cancel then cancel_requested else queued;
    export_attempts = attempts + 1;
    last_export_error = some (message e);
    last_1c_error = some (message e);
    source_updated_at = some now;
    updated_at = now;
  }

  unfoldable pub mark_order_export_failure : (now : ℕ) → Order → ExportError → Db → Db
  mark_order_export_failure now o e db =
      let is_cancel = is_cancel_export_order o in
      elim (orders_table.find_first (awaits o) db.orders) [
        | none ↦ db
        | some r ↦
            update_row r (failed_push now o.export_attempts is_cancel e)
              (worker_event system push_error r.revision r) db
      ]

  -- assertSavedOrderDidNotLoseItems
  abbrev pub loses_items : Order → Saved → Bool
  loses_items o saved =
      not (is_empty o.content.items) && elim saved.lines [ none ↦ false | some n ↦ n == 0 ]

  -- A push answered with 404 or 405 is tried again by the other route.
  abbrev pub is_unsupported : ℕ → Bool
  is_unsupported status = status == 404 || status == 405

  abbrev pub reply_of : Order → Reply
  reply_of o = elim (post o) [
    | accepted saved ↦ accepted saved
    | http_failure status ↦ if is_unsupported status then put o else http_failure status
    | network_failure ↦ network_failure
    | config_failure ↦ config_failure
  ]

  abbrev pub outcome_of : Order → Reply → ExportError ⊎ Saved
  outcome_of o (accepted saved) = if loses_items o saved then inl lost_items else inr saved
  outcome_of o (http_failure status) = inl (http_error status)
  outcome_of o network_failure = inl network_error
  outcome_of o config_failure = inl config_error

  -- What a push ends in, for an order whose lock is got.
  unfoldable pub push_order : Order → ExportError ⊎ Saved
  unfolding validate_order_ready_for_export validate_order_stock_before_export
  push_order o = elim (validate_order_ready_for_export o) [
    | some e ↦ inl e
    | none ↦ elim (validate_order_stock_before_export d o) [
      | some e ↦ inl e
      | none ↦ outcome_of o (reply_of o)
    ]
  ]

  -- exportOrder, and what runOnce does with its error.
  unfoldable pub export_order : (now : ℕ) → Order → Db → Db × Option ExportError
  unfolding push_order mark_order_export_success mark_order_export_failure
  export_order now o db = if not (gets_order_lock o) then (db, none) else elim (push_order o) [
    | inl e ↦ (mark_order_export_failure now o e db, some e)
    | inr saved ↦ (mark_order_export_success now o saved db, none)
  ]

  -- The time until which direct pushes pause after an error, if it is one of those.
  abbrev pub pause_after : (now : ℕ) → Option ExportError → Option ℕ
  pause_after now none = none
  pause_after now (some (http_error status)) =
      if is_unsupported status
      then some (now + env_int d.unsupported_pause 300_000 10_000)
      else none
  pause_after now (some config_error) = some (now + env_int d.config_error_pause 60_000 10_000)
  pause_after now (some _) = none

  unfoldable pub export_all : (now : ℕ) → List Order → Db → Db × Option ℕ
  unfolding export_order
  export_all now [] db = (db, none)
  export_all now (o ∷ rest) db =
      let (after, e) = export_order now o db in
      let others = export_all now rest after in
      elim (pause_after now e) [ some until ↦ (after, some until) | none ↦ others ]

  abbrev pub is_candidate : Order → Bool
  is_candidate o =
      is_manager_app o.source
      && ((is_status o.status queued && is_sync_state o.sync_state queued)
          || (is_status o.status cancelled && is_sync_state o.sync_state cancel_requested))

  unfoldable pub load_export_candidates : (now : ℕ) → Db → List Order
  unfolding should_attempt
  load_export_candidates now db =
      take (get_batch_size d)
        (keep (λ o. should_attempt d o now) (oldest is_candidate (get_batch_size d * 3) db.orders))

  -- The database, and the end of the pause after the run.
  unfoldable pub run_once : (now paused_until : ℕ) (gets_lock : Bool) → Db → Db × ℕ
  unfolding load_export_candidates export_all
  run_once now paused_until gets_lock db =
      let (after, until) = export_all now (load_export_candidates now db) db in
      if ltb now paused_until || not gets_lock
      then (db, paused_until)
      else (after, elim until [ none ↦ paused_until | some t ↦ max_of paused_until t ])
