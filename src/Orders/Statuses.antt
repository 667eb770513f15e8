-- ===== src/Orders/Statuses.antt =====
-- src/modules/onec/onec.controllers.ts, handleOrdersStatusBatch: 1C tells the statuses of orders. The
-- body is taken after its schema; the record of the synchronisation run is left out.
use leader_product_api.Base.{
  ℕ, ◌+◌, Bool, true, false, Option, none, some, List, [], ◌∷◌, if◌then◌else◌, Text, text_eq,
}
use leader_product_api.Table.{Table}
use leader_product_api.Orders.{
  Status, confirmed, synced, Order, Content, onec_post, onec_edit, status_sync, Event, Db, has_id,
  is_status,
}
use leader_product_api.Orders.Export.{or_number, or_message}

-- A field that the item does not have changes nothing; a comment that is null clears the column.
pub record StatusItem : Type 0 where
  pub guid : Text
  pub status : Status
  pub number_1c : Option Text
  pub comment : Option (Option Text)
  pub total_amount : Option ℕ
  pub source_updated_at : Option ℕ

abbrev pub given : {A : Type 0} → Option A → A → A
given none a = a
given (some b) a = b

abbrev pub or_amount : Option ℕ → Option ℕ → Option ℕ
or_amount none b = b
or_amount (some a) b = some a

abbrev pub status_content : StatusItem → Content → Content
status_content item c = record c {
  comment = given item.comment c.comment;
  total_amount = or_amount item.total_amount c.total_amount;
}

abbrev pub status_synced : (now : ℕ) → StatusItem → Order → Order
status_synced now item o = record o {
  revision = o.revision + 1;
  status = item.status;
  sync_state = synced;
  is_posted_in_1c = if is_status item.status confirmed then true else o.is_posted_in_1c;
  posted_at_1c = if is_status item.status confirmed then some now else o.posted_at_1c;
  number_1c = or_message item.number_1c o.number_1c;
  content = status_content item o.content;
  source_updated_at = some (or_number item.source_updated_at now);
  updated_at = now;
}

abbrev pub status_event : StatusItem → Order → Event
status_event item o = record {
  order_id = o.id;
  revision = o.revision + 1;
  source = if is_status item.status confirmed then onec_post else onec_edit;
  event_type = status_sync;
  actor = none;
}

-- One item of the batch: the database, and whether the order was found.
unfoldable pub sync_order_status : Table Order → (now : ℕ) → StatusItem → Db → Db × Bool
sync_order_status orders now item db =
    elim (orders.find_first (λ o. text_eq o.guid item.guid) db.orders) [
      | none ↦ (db, false)
      | some o ↦ (
        record {
          orders = (orders.update_many (has_id o.id) (status_synced now item) db.orders).1;
          events = status_event item o ∷ db.events;
        },
        true,
      )
    ]

unfoldable pub handle_orders_status_batch :
    Table Order → (now : ℕ) → List StatusItem → Db → Db × List Bool
unfolding sync_order_status
handle_orders_status_batch orders now [] db = (db, [])
handle_orders_status_batch orders now (item ∷ items) db =
    let (after, found) = sync_order_status orders now item db in
    let (last, others) = handle_orders_status_batch orders now items after in (last, found ∷ others)
