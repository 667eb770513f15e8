-- ===== src/Orders.antt =====
-- Orders of managers, from the draft to 1C: the rows (src/prisma/schema.onec.prisma) and the
-- transaction that the calls of src/modules/clientOrders/clientOrders.service.ts share. The client
-- stamps `updated_at` at each update.
pub mod Manage
pub mod Export
pub mod Ack
pub mod Mobile
pub mod Statuses
pub mod History
pub mod Edits
pub mod Mutations
pub mod Moves
pub mod Consistent
pub mod Outbox
pub mod Passed
pub mod Revisions
pub mod Versions
pub mod Backoff
pub mod Stock
pub mod Pushes
pub mod Delivery
mod Tests
use leader_product_api.Base.{
  ℕ, ◌+◌, Bool, true, false, ◌&&◌, ◌||◌, not, Option, none, some, List, [], ◌∷◌, ◌++◌, ◌==◌,
  if◌then◌else◌, is_some_of, keep, some_of, is_empty, Text, text_eq,
}
use leader_product_api.Table.{Table}

pub data Status : Type 0 where
  draft queued sent_to_1c confirmed partial rejected cancelled : Status

pub data SyncState : Type 0 where
  draft queued synced conflict error cancel_requested : SyncState

pub data Source : Type 0 where
  marketplace_client manager_app : Source

-- Quantities are counted in thousandths and prices in ten-thousandths of a unit, as they are stored.
pub record Item : Type 0 where
  pub product : Option Text
  pub quantity : ℕ
  pub quantity_base : Option ℕ
  pub base_price : Option ℕ
  pub is_cancelled : Bool

-- The columns that the references of an order and its lines fill, and those of its text.
pub record Content : Type 0 where
  pub organization_id : Option ℕ
  pub counterparty_id : Option ℕ
  pub agreement_id : Option ℕ
  pub contract_id : Option ℕ
  pub warehouse_id : Option ℕ
  pub delivery_address_id : Option ℕ
  pub delivery_date : Option ℕ
  pub comment : Option Text
  pub payment_form : Option Text
  pub delivery_method : Option Text
  pub invoice_requested : Bool
  pub total_amount : Option ℕ
  pub items : List Item

pub record Order : Type 0 where
  pub id : ℕ
  pub guid : Text
  pub client_order_id : Option Text
  pub client_revision : Option ℕ
  pub client_payload_hash : Option Text
  pub source : Source
  pub created_by : Option ℕ
  pub revision : ℕ
  pub status : Status
  pub sync_state : SyncState
  pub content : Content
  pub queued_at : Option ℕ
  pub submit_requested_at : Option ℕ
  pub cancel_requested_at : Option ℕ
  pub cancel_reason : Option Text
  pub sent_to_1c_at : Option ℕ
  pub export_attempts : ℕ
  pub last_export_error : Option Text
  pub last_1c_error : Option Text
  pub number_1c : Option Text
  pub is_posted_in_1c : Bool
  pub posted_at_1c : Option ℕ
  pub has_realization : Bool
  pub source_updated_at : Option ℕ
  pub created_at : ℕ
  pub updated_at : ℕ

-- The sources of events that the modelled calls append.
pub data EventSource : Type 0 where
  app_manager app_cancel_request onec_ack onec_edit onec_post system : EventSource

pub data EventType : Type 0 where
  order_created order_updated order_submitted order_unqueued export_retry_queued order_restored
        order_cancelled :
      EventType
  push_ok push_saved_not_posted cancel_push_ok push_error ack_ok ack_saved_not_posted ack_error
        status_sync :
      EventType

-- appendOrderEvent; the payload for display is left out.
pub record Event : Type 0 where
  pub order_id : ℕ
  pub revision : ℕ
  pub source : EventSource
  pub event_type : EventType
  pub actor : Option ℕ

pub record Db : Type 0 where
  pub orders : List Order
  pub events : List Event

pub data Field : Type 0 where
  organization counterparty agreement contract warehouse delivery_address delivery_date
        active_items :
      Field
  product_of quantity_of price_of : ℕ → Field

pub data Refusal : Type 0 where
  not_found read_only stale_revision cancelled_order not_queued not_deletable not_cancelled
        already_in_1c :
      Refusal
  bad_lines bad_references conflicting_payload : Refusal
  missing_fields : List Field → Refusal

-- What a transaction does with the order it has found.
pub data Change : Type 0 where
  refuse : Refusal → Change
  unchanged : Change
  write : (Order → Order) → List Event → Change
  remove : Change

pub data Outcome : Type 0 where
  refused : Refusal → Outcome
  done : Outcome

abbrev pub is_status : Status → Status → Bool
is_status draft draft = true
is_status queued queued = true
is_status sent_to_1c sent_to_1c = true
is_status confirmed confirmed = true
is_status partial partial = true
is_status rejected rejected = true
is_status cancelled cancelled = true
is_status _ _ = false

abbrev pub is_sync_state : SyncState → SyncState → Bool
is_sync_state draft draft = true
is_sync_state queued queued = true
is_sync_state synced synced = true
is_sync_state conflict conflict = true
is_sync_state error error = true
is_sync_state cancel_requested cancel_requested = true
is_sync_state _ _ = false

abbrev pub is_manager_app : Source → Bool
is_manager_app manager_app = true
is_manager_app marketplace_client = false

abbrev pub has_id : ℕ → Order → Bool
has_id id o = o.id == id

-- `where: { guid, source: MANAGER_APP, createdByUserId: userId }`
abbrev pub is_order_of : Text → ℕ → Order → Bool
is_order_of guid user_id o =
    text_eq o.guid guid && (is_manager_app o.source && is_some_of o.created_by user_id)

-- What becomes of the database when an order was found and a change was chosen for it.
unfoldable pub perform : Table Order → Order → Change → Db → Db × Outcome
perform orders o (refuse r) db = (db, refused r)
perform orders o unchanged db = (db, done)
perform orders o (write f events) db = (
  record {
    orders = (orders.update_many (has_id o.id) f db.orders).1;
    events = events ++ db.events;
  },
  done,
)
perform orders o remove db =
    (record db { orders = orders.delete_many (has_id o.id) db.orders }, done)

unfoldable pub with_order : Table Order → Text → ℕ → (Order → Change) → Db → Db × Outcome
unfolding perform
with_order orders guid user_id decide db =
    elim (orders.find_first (is_order_of guid user_id) db.orders) [
      | none ↦ (db, refused not_found)
      | some o ↦ perform orders o (decide o) db
    ]
