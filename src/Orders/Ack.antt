-- ===== src/Orders/Ack.antt =====
-- src/modules/onec/onec.controllers.ts, handleOrderAck: 1C acknowledges an order that it has pulled.
-- The body is taken after its schema; the record of the synchronisation run is left out.
use leader_product_api.Base.{
  ℕ, ◌+◌, Bool, Option, none, some, [], ◌∷◌, if◌then◌else◌, Text, text_eq, trim,
}
use leader_product_api.Table.{Table}
use leader_product_api.Orders.{
  Status, queued, sent_to_1c, SyncState, synced, Order, onec_ack, EventType, ack_ok,
  ack_saved_not_posted, ack_error, Event, Db, has_id,
}
use leader_product_api.Orders.Manage.{is_none}
use leader_product_api.Orders.Export.{or_number, or_message}

pub record AckBody : Type 0 where
  pub status : Option Status
  pub number_1c : Option Text
  pub sent_to_1c_at : Option ℕ
  pub source_updated_at : Option ℕ
  pub is_posted : Option Bool
  pub posted_at : Option ℕ
  pub last_1c_error : Option Text
  pub error : Option Text

pub data AckReply : Type 0 where
  order_not_found : AckReply
  acknowledged_error : Text → AckReply
  acknowledged : Status → AckReply

abbrev pub filled : Option Text → Option Text
filled none = none
filled (some []) = none
filled (some (c ∷ t)) = some (c ∷ t)

-- The posting error of an answer that tells that the document is not posted.
abbrev pub ack_posting_error : Text → AckBody → Option Text
ack_posting_error not_posted body = elim body.is_posted [
  | none ↦ none
  | some posted ↦ if posted then none else elim body.last_1c_error [
    | none ↦ some not_posted
    | some t ↦ or_message (filled (some (trim t))) (some not_posted)
  ]
]

abbrev pub ack_refused : (now : ℕ) → Text → AckBody → Order → Order
ack_refused now message body o = record o {
  revision = o.revision + 1;
  status = queued;
  sync_state = SyncState.error;
  export_attempts = o.export_attempts + 1;
  last_export_error = some message;
  last_1c_error = some message;
  sent_to_1c_at = none;
  source_updated_at = some (or_number body.source_updated_at now);
  updated_at = now;
}

abbrev pub next_status : AckBody → Status
next_status body = elim body.status [ none ↦ sent_to_1c | some s ↦ s ]

abbrev pub ack_accepted : (now : ℕ) → Text → AckBody → Order → Order
ack_accepted now not_posted body o = record o {
  revision = o.revision + 1;
  status = next_status body;
  sync_state = synced;
  number_1c = or_message body.number_1c o.number_1c;
  sent_to_1c_at = some (or_number body.sent_to_1c_at now);
  export_attempts = o.export_attempts + 1;
  last_export_error = none;
  last_1c_error = ack_posting_error not_posted body;
  is_posted_in_1c = elim body.is_posted [ none ↦ o.is_posted_in_1c | some b ↦ b ];
  posted_at_1c = elim body.is_posted [
    | none ↦ o.posted_at_1c
    | some b ↦ if b then some (or_number body.posted_at now) else none
  ];
  source_updated_at = some (or_number body.source_updated_at now);
  updated_at = now;
}

abbrev pub ack_event : EventType → Order → Event
ack_event event_type o = record {
  order_id = o.id;
  revision = o.revision + 1;
  source = onec_ack;
  event_type = event_type;
  actor = none;
}

abbrev pub write_order : Table Order → Order → (Order → Order) → EventType → Db → Db
write_order orders o f event_type db = record {
  orders = (orders.update_many (has_id o.id) f db.orders).1;
  events = ack_event event_type o ∷ db.events;
}

unfoldable pub handle_order_ack :
    Table Order → (not_posted : Text) (now : ℕ) (guid : Text) → AckBody → Db → Db × AckReply
unfolding trim
handle_order_ack orders not_posted now guid body db =
    elim (orders.find_first (λ o. text_eq o.guid guid) db.orders) [
      | none ↦ (db, order_not_found)
      | some o ↦ elim (filled body.error) [
        | some message ↦ (
          write_order orders o (ack_refused now message body) ack_error db,
          acknowledged_error message,
        )
        | none ↦ (
          write_order orders o (ack_accepted now not_posted body)
              (if is_none (ack_posting_error not_posted body) then ack_ok else ack_saved_not_posted)
              db,
          acknowledged (next_status body),
        )
      ]
    ]
