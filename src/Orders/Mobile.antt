-- ===== src/Orders/Mobile.antt =====
-- src/modules/clientOrders/clientOrders.service.ts, putClientOrderByClientId: the mutation that the mobile
-- application repeats until it is answered. The client names the order and counts its versions. The
-- digest of the payload is taken as computed, the fresh id and guid are those of a row that is created.
use leader_product_api.Base.{
  ℕ, ◌+◌, Bool, true, false, ◌&&◌, ◌||◌, not, Option, none, some, List, [], ◌∷◌, ◌++◌, ◌==◌,
  if◌then◌else◌, is_filled, is_some_of, ltb, Text, text_eq,
}
use leader_product_api.Table.{Table}
use leader_product_api.Orders.{
  draft, queued, Content, Order, app_manager, order_updated, order_submitted, Event, Db,
  bad_references, conflicting_payload, Refusal, Change, refuse, unchanged, write, perform, Outcome,
  done, refused,
}
use leader_product_api.Orders.Manage.{
  check, ensure_editable, is_order_queued, is_none, assert_can_be_submitted, event_of,
  created_event, is_exported_status, new_order,
}

pub data Intent : Type 0 where
  save submit : Intent

pub record Mutation : Type 0 where
  pub client_revision : ℕ
  pub intent : Intent
  pub payload_hash : Text
  pub autosave : Bool
  pub prepared : Option Content

abbrev pub is_submit : Intent → Bool
is_submit save = false
is_submit submit = true

abbrev pub holds : Option Text → Text → Bool
holds none t = false
holds (some s) t = text_eq s t

-- `where: { createdByUserId: userId, clientOrderId }`
abbrev pub is_client_order : (user_id : ℕ) → Text → Order → Bool
is_client_order user_id client_order_id o =
    is_some_of o.created_by user_id && holds o.client_order_id client_order_id

abbrev pub revision_of : Order → ℕ
revision_of o = elim o.client_revision [ none ↦ 0 | some n ↦ n ]

abbrev pub is_other_payload : Order → Mutation → Bool
is_other_payload o body =
    is_filled o.client_payload_hash && not (holds o.client_payload_hash body.payload_hash)

-- Nothing is left to do for a mutation of the stored version.
abbrev pub is_settled : Order → Mutation → Bool
is_settled o body =
    not (is_submit body.intent) || (is_order_queued o || not (is_none o.submit_requested_at))

abbrev pub requested_at : Option ℕ → ℕ → ℕ
requested_at none now = now
requested_at (some t) now = t

module _ (now user_id : ℕ) (body : Mutation) where
  -- The columns of a submission of the stored version.
  abbrev pub resubmitted : Order → Order
  resubmitted o = record o {
    revision = o.revision + 1;
    status = queued;
    sync_state = queued;
    queued_at = some now;
    submit_requested_at = some now;
    export_attempts = 0;
    last_export_error = none;
    last_1c_error = none;
    source_updated_at = some now;
    updated_at = now;
  }

  abbrev pub should_queue : Order → Bool
  should_queue o =
      is_submit body.intent || (not (is_none o.submit_requested_at) || is_exported_status o.status)

  -- The columns of a newer version.
  abbrev pub mutated : Content → Order → Order
  mutated content o = record o {
    client_revision = some body.client_revision;
    client_payload_hash = some body.payload_hash;
    revision = o.revision + 1;
    status = if should_queue o then queued else draft;
    sync_state = if should_queue o then queued else draft;
    queued_at = if should_queue o then some now else none;
    submit_requested_at =
        if should_queue o then some (requested_at o.submit_requested_at now) else none;
    content = content;
    export_attempts = if should_queue o then 0 else o.export_attempts;
    last_export_error = none;
    last_1c_error = none;
    source_updated_at = some now;
    updated_at = now;
  }

  abbrev pub new_client_order : (id : ℕ) → Text → Text → Content → Order
  new_client_order id guid client_order_id content =
      record (new_order now id guid user_id content) {
        client_order_id = some client_order_id;
        client_revision = some body.client_revision;
        client_payload_hash = some body.payload_hash;
        status = if is_submit body.intent then queued else draft;
        sync_state = if is_submit body.intent then queued else draft;
        queued_at = if is_submit body.intent then some now else none;
        submit_requested_at = if is_submit body.intent then some now else none;
      }

  abbrev pub submit_events : Order → List Event
  submit_events o =
      if is_submit body.intent then event_of o app_manager order_submitted user_id ∷ [] else []

  abbrev pub update_events : Order → List Event
  update_events o = if body.autosave then [] else event_of o app_manager order_updated user_id ∷ []

  abbrev pub checked_content : Bool → Content → Option Refusal
  checked_content queues content = if queues then assert_can_be_submitted content else none

  -- A mutation of the stored version, and one of a newer version.
  abbrev pub same_version : Order → Change
  same_version o =
      if is_other_payload o body
      then refuse conflicting_payload
      else if is_settled o body
      then unchanged
      else check (ensure_editable o) (
          check (assert_can_be_submitted o.content)
            (write resubmitted (event_of o app_manager order_submitted user_id ∷ [])))

  abbrev pub newer_version : Order → Change
  newer_version o = elim body.prepared [
    | none ↦ refuse bad_references
    | some content ↦
        check (checked_content (should_queue o) content)
          (check (ensure_editable o) (write (mutated content) (submit_events o ++ update_events o)))
  ]

  unfoldable pub mutation_change : Order → Change
  unfolding assert_can_be_submitted
  mutation_change o =
      if ltb body.client_revision (revision_of o)
      then unchanged
      else if body.client_revision == revision_of o
      then same_version o
      else newer_version o

  -- The order that is created where the client's is not stored.
  unfoldable pub create_mutation : Table Order → (id : ℕ) → Text → Text → Db → Db × Outcome
  unfolding assert_can_be_submitted
  create_mutation orders id guid client_order_id db = elim body.prepared [
    | none ↦ (db, refused bad_references)
    | some content ↦ elim (checked_content (is_submit body.intent) content) [
      | some r ↦ (db, refused r)
      | none ↦
          let o = new_client_order id guid client_order_id content in
          (
            record {
              orders = orders.create o db.orders;
              events =
                  (if is_submit body.intent
                    then record (created_event o user_id) { event_type = order_submitted } ∷ []
                    else [])
                  ++ (created_event o user_id ∷ db.events);
            },
            done,
          )
    ]
  ]

  -- The transaction; the look at the order before it answers in the same way where it answers.
  unfoldable pub put_client_order : Table Order → (id : ℕ) → Text → Text → Db → Db × Outcome
  unfolding perform mutation_change create_mutation
  put_client_order orders id guid client_order_id db =
      elim (orders.find_first (is_client_order user_id client_order_id) db.orders) [
        | none ↦ create_mutation orders id guid client_order_id db
        | some o ↦ perform orders o (mutation_change o) db
      ]
