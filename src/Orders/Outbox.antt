-- ===== src/Orders/Outbox.antt =====
-- Orders against an abstract outbox: the phases of an order's exchange with 1C, and who may move an
-- order from which phase to which.
use mathlib.Core.Path.{subst, sym}
use leader_product_api.Base.{
  ℕ, ◌≡◌, refl, inl, inr, ◌⊎◌, Bool, true, false, ◌&&◌, ◌||◌, not, List, ◌∷◌, Bool-cases, Member,
  count, count-keep-not, arith, change, if◌then◌else◌, keep, Member-keep, Member-change_kept,
  Member-change_made,
}
use leader_product_api.Orders.{
  Status, queued, draft, cancelled, SyncState, synced, conflict, cancel_requested, error, Order, Db,
  has_id, is_status, is_sync_state,
}
use leader_product_api.Orders.Export.{Deps, is_validation_error, is_cancel_export_order}
use leader_product_api.Orders.History.{
  Call, create, manage, put, accept, fail, ack, tell_status, step, IsAllowed,
}
use leader_product_api.Orders.Edits.{Written}
use leader_product_api.Orders.Mobile.{should_queue}
use leader_product_api.Orders.Mutations.{Mutated}
use leader_product_api.Orders.Moves.{
  Move, edits, puts, accepts, fails, ack_refuses, ack_accepts, status_syncs, step_exits,
  HasUniqueIds, Move-id, IsRemovable, same_row,
}
use leader_product_api.Orders.Consistent.{push_order-validation}

pub data Phase : Type 0 where
  editing waiting cancelling refused settled conflicting : Phase

abbrev pub phase_of : SyncState → Phase
phase_of draft = editing
phase_of queued = waiting
phase_of cancel_requested = cancelling
phase_of error = refused
phase_of synced = settled
phase_of conflict = conflicting

pub data Actor : Type 0 where
  manager worker onec : Actor

abbrev pub actor_of : Call → Actor
actor_of (create id guid user_id prepared) = manager
actor_of (manage guid user_id e) = manager
actor_of (put id guid user_id client_order_id body) = manager
actor_of (accept o saved) = worker
actor_of (fail o e) = worker
actor_of (ack guid body) = onec
actor_of (tell_status item) = onec

-- The phases in which nothing of the order is on its way to 1C.
pub data IsIdle : Phase → Type 0 where
  editing_idle : IsIdle editing
  refused_idle : IsIdle refused
  settled_idle : IsIdle settled
  conflicting_idle : IsIdle conflicting

-- The outbox: a manager takes an order back, queues it or cancels an idle one; the worker delivers
-- what is on its way, leaves it there or refuses an order that waits; 1C settles or refuses any.
pub data Edge : Actor → Phase → Phase → Type 0 where
  take_back : {p : Phase} → Edge manager p editing
  queue : {p : Phase} → Edge manager p waiting
  drop : {p : Phase} → IsIdle p → Edge manager p settled
  ask_cancel : {p : Phase} → IsIdle p → Edge manager p cancelling
  deliver : Edge worker waiting settled
  deliver_cancel : Edge worker cancelling settled
  keep_waiting : Edge worker waiting waiting
  keep_cancelling : Edge worker cancelling cancelling
  give_up : Edge worker waiting refused
  settle : {p : Phase} → Edge onec p settled
  decline : {p : Phase} → Edge onec p refused

idle :
    (s : SyncState)
    → (is_sync_state s queued || is_sync_state s cancel_requested) ≡ false
    → IsIdle (phase_of s)
idle draft h = editing_idle
idle queued h = ground arith
idle synced h = settled_idle
idle conflict h = conflicting_idle
idle error h = refused_idle
idle cancel_requested h = ground arith

queued_phase : (s : SyncState) → is_sync_state s queued ≡ true → s ≡ queued
queued_phase s h = ground arith

cancel_phase : (s : SyncState) → is_sync_state s cancel_requested ≡ true → s ≡ cancel_requested
cancel_phase s h = ground arith

requeued-Edge : (b : Bool) (p : Phase) → Edge manager p (phase_of (if b then queued else draft))
requeued-Edge true p = queue
requeued-Edge false p = take_back

cancelled-Edge :
    (b : Bool) (p : Phase)
    → IsIdle p
    → Edge manager p (phase_of (if b then cancel_requested else synced))
cancelled-Edge true p h = ask_cancel h
cancelled-Edge false p h = drop h

-- What the push of a cancellation and of any other order that awaits its end may move.
accepts-Edge :
    (c : Bool) (s : SyncState) (status : Status)
    → (if c
        then is_status status cancelled && is_sync_state s cancel_requested
        else is_status status queued && is_sync_state s queued)
      ≡ true
    → Edge worker (phase_of s) settled
accepts-Edge true s status h = rw (cancel_phase s (ground arith)) deliver_cancel
accepts-Edge false s status h = rw (queued_phase s (ground arith)) deliver

fails-Edge :
    (c invalid : Bool) (s : SyncState) (status : Status)
    → (c ≡ true → invalid ≡ false)
    → (if c
        then is_status status cancelled && is_sync_state s cancel_requested
        else is_status status queued && is_sync_state s queued)
      ≡ true
    → Edge worker
        (phase_of s)
        (phase_of (if invalid then error else if c then cancel_requested else queued))
fails-Edge true true s status plain h = ground (arith, plain refl)
fails-Edge true false s status plain h = rw (cancel_phase s (ground arith)) keep_cancelling
fails-Edge false true s status plain h = rw (queued_phase s (ground arith)) give_up
fails-Edge false false s status plain h = rw (queued_phase s (ground arith)) keep_waiting

second : (a b : Bool) → (a && b) ≡ true → b ≡ true
second a b h = ground arith

Move-Edge :
    {d : Deps} {now : ℕ} {c : Call} {o : Order} {f : Order → Order}
    → Move d now c o f
    → Edge (actor_of c) (phase_of o.sync_state) (phase_of (f o).sync_state)
Move-Edge {o} (edits (Written.updates content a)) = requeued-Edge _ (phase_of o.sync_state)
Move-Edge (edits (Written.submits a b k)) = queue
Move-Edge (edits (Written.unqueues a)) = take_back
Move-Edge (edits (Written.retries a b)) = queue
Move-Edge (edits (Written.restores a b)) = take_back
Move-Edge {o} (edits (Written.cancels reason a b)) =
    cancelled-Edge (not (is_status o.status draft)) (phase_of o.sync_state) (idle o.sync_state b)
Move-Edge (puts (Mutated.resubmits a b)) = queue
Move-Edge {now} {o} (puts {user_id} {body} (Mutated.mutates content a)) =
    requeued-Edge (should_queue now user_id body o) (phase_of o.sync_state)
Move-Edge {o} (accepts {o = sent} a b) =
    accepts-Edge (is_cancel_export_order sent) o.sync_state o.status (second _ _ a)
Move-Edge {d} {o} (fails {o = sent} {x} a b) =
    fails-Edge (is_cancel_export_order sent) (is_validation_error d x) o.sync_state o.status
      (push_order-validation d sent x b) (second _ _ a)
Move-Edge (ack_refuses message) = decline
Move-Edge ack_accepts = settle
Move-Edge status_syncs = settle

-- Where ids are unique, after every call a stored order stands in the table as it was or has gone along
-- an edge of the outbox that the caller may use; or the call is a manager's deletion of that very
-- order, which is his and may be deleted, and no row has its id any more.
pub step-Edge :
    (d : Deps) (now : ℕ) (c : Call) (db : Db) (o : Order)
    → HasUniqueIds db.orders
    → Member o db.orders
    → IsAllowed d c db
    → ((t : Order) × Member t (step d now c db).orders
        × (t.id ≡ o.id)
        × ((t ≡ o) ⊎ Edge (actor_of c) (phase_of o.sync_state) (phase_of t.sync_state)))
      ⊎ (IsRemovable c o × (count (has_id o.id) (step d now c db).orders ≡ 0))
step-Edge d now c db o unique stored allowed = step_exits d now c db HasFate allowed (record {
  stays = unmoved db.orders stored;
  creates = λ n new fresh _.
      subst HasFate (sym (d.orders_table.create_rows n db.orders))
        (unmoved (n ∷ db.orders) (inr stored));
  writes = λ r f m w.
      subst HasFate (sym (d.orders_table.update_many_rows (has_id r.id) f db.orders))
        (elim (Bool-cases (has_id r.id o)) [
          | inr h ↦
              unmoved (change (has_id r.id) f db.orders)
                (Member-change_kept (has_id r.id) f db.orders o stored h)
          | inl h ↦
              let same = same_row db.orders r o unique m stored h in
              inl (
                f o,
                Member-change_made (has_id r.id) f db.orders o stored h,
                Move-id w o,
                inr (
                    subst
                      (λ z. Edge (actor_of c) (phase_of z.sync_state) (phase_of (f z).sync_state))
                      (sym same) (Move-Edge w)),
              )
        ]);
  removes = λ r m w.
      subst HasFate (sym (d.orders_table.delete_many_rows (has_id r.id) db.orders))
        (elim (Bool-cases (has_id r.id o)) [
          | inr h ↦
              unmoved (keep (λ z. not (has_id r.id z)) db.orders)
                (Member-keep (λ z. not (has_id r.id z)) db.orders o stored (rw h refl))
          | inl h ↦
              let same : o ≡ r = same_row db.orders r o unique m stored h in
              inr (
                subst (IsRemovable c) (sym same) w,
                subst (λ z. count (has_id z.id) (keep (λ y. not (has_id r.id y)) db.orders) ≡ 0)
                    (sym same) (count-keep-not (has_id r.id) db.orders),
              )
        ]);
})
  where
    HasFate : List Order → Type 0
    HasFate after =
        ((t : Order) × Member t after
          × (t.id ≡ o.id)
          × ((t ≡ o) ⊎ Edge (actor_of c) (phase_of o.sync_state) (phase_of t.sync_state)))
        ⊎ (IsRemovable c o × (count (has_id o.id) after ≡ 0))

    unmoved : (after : List Order) → Member o after → HasFate after
    unmoved after m = inl (o, m, refl, inl refl)
