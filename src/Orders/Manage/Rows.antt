-- ===== src/Orders/Manage/Rows.antt =====
-- src/modules/clientOrders/clientOrders.service.ts: the guards of the calls on an order, and the
-- columns that each of them writes.
use leader_product_api.Base.{
  ℕ, ◌+◌, Bool, true, false, ◌||◌, not, Option, none, some, List, [], ◌∷◌, ◌++◌, ◌==◌,
  if◌then◌else◌, keep, some_of, is_empty, is_filled, Text,
}
use leader_product_api.Orders.{
  Status, draft, queued, sent_to_1c, cancelled, synced, cancel_requested, Item, Content, Order,
  EventSource, EventType, Event, Field, Refusal, not_found, read_only, stale_revision, bad_lines,
  missing_fields, Change, refuse, is_status, is_sync_state, is_manager_app,
}

-- A guard that throws stops the transaction.
abbrev pub check : Option Refusal → Change → Change
check none next = next
check (some r) next = refuse r

abbrev pub ensure_editable : Order → Option Refusal
ensure_editable o =
    if not (is_manager_app o.source)
    then some not_found
    else if o.has_realization
    then some read_only
    else none

abbrev pub assert_revision : (current expected : ℕ) → Option Refusal
assert_revision current expected = if current == expected then none else some stale_revision

abbrev pub is_order_queued : Order → Bool
is_order_queued o = is_sync_state o.sync_state queued || is_sync_state o.sync_state cancel_requested

abbrev pub is_none : {A : Type 0} → Option A → Bool
is_none none = true
is_none (some a) = false

abbrev pub is_null_or_zero : Option ℕ → Bool
is_null_or_zero none = true
is_null_or_zero (some n) = n == 0

abbrev pub is_bad_line : Item → Bool
is_bad_line i = i.quantity == 0 || is_null_or_zero i.base_price

abbrev pub active_lines : Content → List Item
active_lines c = keep (λ i. not i.is_cancelled) c.items

unfoldable pub has_bad_lines : Content → Bool
has_bad_lines c = is_empty (active_lines c) || some_of is_bad_line (active_lines c)

abbrev pub named : Bool → Field → List Field
named b f = if b then f ∷ [] else []

unfoldable pub missing_of : Content → List Field
missing_of c =
    named (is_none c.organization_id) Field.organization
    ++ (named (is_none c.agreement_id) Field.agreement
        ++ (named (is_none c.contract_id) Field.contract
            ++ (named (is_none c.warehouse_id) Field.warehouse
                ++ (named (is_none c.delivery_address_id) Field.delivery_address
                    ++ named (is_none c.delivery_date) Field.delivery_date))))

-- assertClientOrderCanBeSubmitted, and the same checks in submitClientOrder.
unfoldable pub assert_can_be_submitted : Content → Option Refusal
unfolding missing_of has_bad_lines
assert_can_be_submitted c =
    if not (is_empty (missing_of c))
    then some (missing_fields (missing_of c))
    else if has_bad_lines c
    then some bad_lines
    else none

abbrev pub event_of : Order → EventSource → EventType → ℕ → Event
event_of o source event_type user_id = record {
  order_id = o.id;
  revision = o.revision + 1;
  source = source;
  event_type = event_type;
  actor = some user_id;
}

-- The new values of each update.
abbrev pub submitted : (now : ℕ) → Order → Order
submitted now o = record o {
  revision = o.revision + 1;
  status = queued;
  sync_state = queued;
  queued_at = some now;
  submit_requested_at = some now;
  cancel_requested_at = none;
  cancel_reason = none;
  export_attempts = 0;
  last_export_error = none;
  last_1c_error = none;
  source_updated_at = some now;
  updated_at = now;
}

abbrev pub is_exported_status : Status → Bool
is_exported_status s = is_status s sent_to_1c || is_status s queued

-- resolveUpdatedOrderQueueState, and the columns that depend on it.
abbrev pub updated : (now : ℕ) → Content → Order → Order
updated now content o =
    let should_queue = is_exported_status o.status in
    record o {
      revision = o.revision + 1;
      status = if should_queue then queued else draft;
      sync_state = if should_queue then queued else draft;
      queued_at = if should_queue then some now else none;
      export_attempts = if should_queue then 0 else o.export_attempts;
      content = content;
      last_export_error = none;
      last_1c_error = none;
      source_updated_at = some now;
      updated_at = now;
    }

abbrev pub unqueued : (now : ℕ) → Order → Order
unqueued now o = record o {
  revision = o.revision + 1;
  status = draft;
  sync_state = draft;
  queued_at = none;
  submit_requested_at = none;
  cancel_requested_at = none;
  cancel_reason = none;
  last_1c_error = none;
  last_export_error = none;
  source_updated_at = some now;
  updated_at = now;
}

abbrev pub retried : (now : ℕ) → Order → Order
retried now o = record o {
  revision = o.revision + 1;
  status = queued;
  sync_state = queued;
  queued_at = some now;
  sent_to_1c_at = none;
  last_export_error = none;
  last_1c_error = none;
  export_attempts = 0;
  source_updated_at = some now;
  updated_at = now;
}

abbrev pub restored : (now : ℕ) → Order → Order
restored now o = record o {
  revision = o.revision + 1;
  status = draft;
  sync_state = draft;
  queued_at = none;
  cancel_requested_at = none;
  cancel_reason = none;
  last_export_error = none;
  last_1c_error = none;
  source_updated_at = some now;
  updated_at = now;
}

abbrev pub cancelled_row : (now : ℕ) → Option Text → Order → Order
cancelled_row now reason o =
    let requires_1c = not (is_status o.status draft) in
    record o {
      revision = o.revision + 1;
      status = cancelled;
      sync_state = if requires_1c then cancel_requested else synced;
      cancel_requested_at = if requires_1c then some now else none;
      cancel_reason = reason;
      source_updated_at = some now;
      updated_at = now;
    }

abbrev pub is_known_to_1c : Order → Bool
is_known_to_1c o = o.is_posted_in_1c || (is_filled o.number_1c || not (is_none o.sent_to_1c_at))
