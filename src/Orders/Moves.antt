-- ===== src/Orders/Moves.antt =====
-- Orders as a state machine: the writes of each call on a stored order, and the ways out of a step.
use mathlib.Core.Path.{subst, sym}
use leader_product_api.Base.{
  ℕ, ◌≤◌, ◌≡◌, refl, inl, inr, true, false, none, some, List, ◌||◌, Text, count, Member, arith,
  change, All, All-Member, All-change-intro, count_unique,
}
use leader_product_api.Orders.{
  draft, queued, cancelled, Order, Content, Db, has_id, is_status, is_order_of,
}
use leader_product_api.Orders.Manage.{create_client_order, new_order, is_known_to_1c}
use leader_product_api.Orders.Export.{
  Deps, Saved, ExportError, push_order, awaits, pushed, failed_push, is_cancel_export_order,
}
use leader_product_api.Orders.Statuses.{StatusItem, status_synced}
use leader_product_api.Orders.Ack.{AckBody, ack_refused, ack_accepted}
use leader_product_api.Orders.History.{
  Edit, Call, create, manage, put, put_exits, status_exits, tell_status, accept, fail, ack, step,
  IsAllowed, edit_exits, success_exits, failure_exits, ack_exits, After,
}
use leader_product_api.Orders.Mobile.{Mutation, new_client_order, is_client_order}
use leader_product_api.Orders.Mutations.{Mutated, mutation_change_exits}
use leader_product_api.Orders.Edits.{IsDeletion, Written, edit_change_exits}

-- The writes of a stored order, with what the code has checked before them.
pub data Move (d : Deps) (now : ℕ) : Call → Order → (Order → Order) → Type 0 where
  edits :
      {guid : Text} {user_id : ℕ} {e : Edit} {o : Order} {f : Order → Order}
      → Written now o f
      → Move d now (manage guid user_id e) o f
  puts :
      {id : ℕ} {guid client_order_id : Text} {user_id : ℕ} {body : Mutation} {o : Order}
      {f : Order → Order}
      → Mutated now user_id body o f
      → Move d now (put id guid user_id client_order_id body) o f
  accepts :
      {o r : Order} {saved : Saved}
      → awaits d o r ≡ true
      → push_order d o ≡ inr saved
      → Move d now (accept o saved) r (pushed d now (is_cancel_export_order o) saved)
  fails :
      {o r : Order} {x : ExportError}
      → awaits d o r ≡ true
      → push_order d o ≡ inl x
      → Move d now (fail o x) r (failed_push d now o.export_attempts (is_cancel_export_order o) x)
  ack_refuses :
      {guid : Text} {body : AckBody} {o : Order} (message : Text)
      → Move d now (ack guid body) o (ack_refused now message body)
  ack_accepts :
      {guid : Text} {body : AckBody} {o : Order}
      → Move d now (ack guid body) o (ack_accepted now d.not_posted_message body)
  status_syncs :
      {item : StatusItem} {o : Order} → Move d now (tell_status item) o (status_synced now item)

-- The row that the call names, of the manager who calls, and that may be deleted.
abbrev pub IsRemovable : Call → Order → Type 0
IsRemovable (manage guid user_id e) o =
    IsDeletion e
    × (is_order_of guid user_id o ≡ true)
    × ((is_status o.status draft || (is_status o.status queued || is_status o.status cancelled))
        ≡ true)
    × (is_known_to_1c o ≡ false)
IsRemovable _ o = ⊥

-- The rows that a manager's calls create.
pub data IsNewRow (now : ℕ) (rows : List Order) : Order → Type 0 where
  written :
      (id : ℕ) (guid : Text) (user_id : ℕ) (content : Content)
      → IsNewRow now rows (new_order now id guid user_id content)
  sent :
      (id : ℕ) (guid client_order_id : Text) (user_id : ℕ) (body : Mutation) (content : Content)
      → All (λ o. is_client_order user_id client_order_id o ≡ false) rows
      → IsNewRow now rows (new_client_order now user_id body id guid client_order_id content)

-- The new row has the guid that the call has drawn.
abbrev pub Draws : Call → Order → Type 0
Draws (create id guid user_id prepared) o = o.guid ≡ guid
Draws (put id guid user_id client_order_id body) o = o.guid ≡ guid
Draws _ o = ⊥

-- A property of the stored orders that has to be shown after any call.
pub record Exits (d : Deps) (now : ℕ) (c : Call) (db : Db) (P : List Order → Type 0) : Type 0 where
  pub stays : P db.orders
  pub creates :
      (o : Order)
      → IsNewRow now db.orders o
      → count (has_id o.id) db.orders ≡ 0
      → Draws c o
      → P (d.orders_table.create o db.orders)
  pub writes :
      (o : Order) (f : Order → Order)
      → Member o db.orders
      → Move d now c o f
      → P (d.orders_table.update_many (has_id o.id) f db.orders).1
  pub removes :
      (o : Order)
      → Member o db.orders
      → IsRemovable c o
      → P (d.orders_table.delete_many (has_id o.id) db.orders)

pub step_exits :
    (d : Deps) (now : ℕ) (c : Call) (db : Db) (P : List Order → Type 0)
    → IsAllowed d c db
    → Exits d now c db P
    → P (step d now c db).orders
unfolding step create_client_order
step_exits d now (create id guid user_id none) db P fresh x = x.stays
step_exits d now (create id guid user_id (some content)) db P fresh x =
    x.creates (new_order now id guid user_id content) (written id guid user_id content) fresh refl
step_exits d now (manage guid user_id e) db P fresh x =
    edit_exits d now db P x.stays guid user_id e λ o m k.
      edit_change_exits now user_id o (After d now db P x.stays o) (λ r. tt) tt e
        (λ deletes local unknown. x.removes o m (deletes, k, local, unknown))
        (λ f events w _. x.writes o f m (edits w))
step_exits d now (put id guid user_id client_order_id body) db P fresh x =
    put_exits d now db P x.stays id guid user_id client_order_id body
      (λ content missing.
        x.creates (new_client_order now user_id body id guid client_order_id content)
          (sent id guid client_order_id user_id body content missing) fresh refl)
      (λ o m k.
        mutation_change_exits now user_id body o (After d now db P x.stays o) (λ r. tt) tt
          (λ f events w. x.writes o f m (puts w)))
step_exits d now (accept o saved) db P fresh x =
    success_exits d now db P x.stays o saved (λ r m k. x.writes r _ m (accepts k fresh))
step_exits d now (fail o e) db P fresh x =
    failure_exits d now db P x.stays o e (λ r m k. x.writes r _ m (fails k fresh))
step_exits d now (ack guid body) db P fresh x =
    ack_exits d now db P x.stays guid body
      (λ o m. ((λ message. x.writes o _ m (ack_refuses message)), x.writes o _ m ack_accepts))
step_exits d now (tell_status item) db P fresh x =
    status_exits d now db P x.stays item (λ o m. x.writes o _ m status_syncs)

-- Facts about the rows after a write, where ids are unique.
abbrev pub HasUniqueIds : List Order → Type 0
HasUniqueIds rows = (id : ℕ) → count (has_id id) rows ≤ 1

pub same_row :
    (rows : List Order) (o r : Order)
    → HasUniqueIds rows
    → Member o rows
    → Member r rows
    → has_id o.id r ≡ true
    → r ≡ o
same_row rows o r unique m n h =
    count_unique (has_id o.id) rows r o (unique o.id) n h m (ground arith)

pub All-write :
    (P : Order → Type 0) (rows : List Order) (o : Order) (f : Order → Order)
    → HasUniqueIds rows
    → Member o rows
    → P (f o)
    → All P rows
    → All P (change (has_id o.id) f rows)
All-write P rows o f unique m h a =
    All-change-intro P (has_id o.id) f rows
      (λ r n e. subst (λ z. P (f z)) (sym (same_row rows o r unique m n e)) h)
      (λ r n e. All-Member P rows r a n)

pub Move-id :
    {d : Deps} {now : ℕ} {c : Call} {o : Order} {f : Order → Order}
    → Move d now c o f
    → (r : Order) → (f r).id ≡ r.id
Move-id (edits (Written.updates content a)) r = refl
Move-id (edits (Written.submits a b k)) r = refl
Move-id (edits (Written.unqueues a)) r = refl
Move-id (edits (Written.retries a b)) r = refl
Move-id (edits (Written.restores a b)) r = refl
Move-id (edits (Written.cancels reason a b)) r = refl
Move-id (puts (Mutated.resubmits a b)) r = refl
Move-id (puts (Mutated.mutates content a)) r = refl
Move-id (accepts a b) r = refl
Move-id (fails a b) r = refl
Move-id (ack_refuses message) r = refl
Move-id ack_accepts r = refl
Move-id status_syncs r = refl
