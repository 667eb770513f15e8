-- ===== src/Orders/Edits.antt =====
-- src/modules/clientOrders/clientOrders.service.ts: what an edit of a stored order may choose, with the
-- guards it has passed.
use leader_product_api.Base.{
  ℕ, ◌≡◌, refl, Bool, true, false, ◌||◌, ◌&&◌, not, Option, none, some, List, [], ◌∷◌,
  if◌then◌else◌, arith, Text,
}
use leader_product_api.Orders.{
  draft, queued, cancelled, Content, Order, Change, refuse, unchanged, write, remove, Refusal,
  Event, is_status, app_manager, app_cancel_request, order_unqueued, order_cancelled,
}
use leader_product_api.Orders.Manage.{
  check, ensure_editable, assert_revision, is_order_queued, assert_can_be_submitted, has_bad_lines,
  is_known_to_1c, submitted, updated, unqueued, retried, restored, cancelled_row, update_change,
  submit_change, unqueue_change, retry_change, delete_change, restore_change, cancel_change,
  event_of, unqueue_write,
}
use leader_product_api.Orders.History.{
  Edit, update, submit, unqueue, retry, restore, cancel, delete_draft, edit_change,
}

-- The updates of an order that an edit may choose.
pub data Written (now : ℕ) (o : Order) : (Order → Order) → Type 0 where
  updates : (content : Content) → o.has_realization ≡ false → Written now o (updated now content)
  submits :
      o.has_realization ≡ false
      → is_status o.status cancelled ≡ false
      → assert_can_be_submitted o.content ≡ none
      → Written now o (submitted now)
  unqueues : is_order_queued o ≡ true → Written now o (unqueued now)
  retries :
      o.has_realization ≡ false → has_bad_lines o.content ≡ false → Written now o (retried now)
  restores :
      is_status o.status cancelled ≡ true → is_known_to_1c o ≡ false → Written now o (restored now)
  cancels :
      (reason : Option Text)
      → is_status o.status cancelled ≡ false
      → is_order_queued o ≡ false
      → Written now o (cancelled_row now reason)

-- The revision that an edit names; the deletion of a draft names none.
abbrev pub IsAbout : Edit → ℕ → Type 0
IsAbout (update revision autosave prepared) n = n ≡ revision
IsAbout (submit revision) n = n ≡ revision
IsAbout (unqueue revision) n = n ≡ revision
IsAbout (retry revision) n = n ≡ revision
IsAbout (restore revision) n = n ≡ revision
IsAbout (cancel revision reason) n = n ≡ revision
IsAbout delete_draft n = Unit

not-not : (b : Bool) → not b ≡ false → b ≡ true
not-not b h = ground arith

both : (a b : Bool) → (a && not b) ≡ true → (a ≡ true) × (b ≡ false)
both a b h = (ground arith, ground arith)

module _ (Q : Change → Type 0) where
  pub if_exits :
      (b : Bool) (x y : Change) → (b ≡ true → Q x) → (b ≡ false → Q y) → Q (if b then x else y)
  if_exits true x y h k = h refl
  if_exits false x y h k = k refl

  pub check_exits :
      (g : Option Refusal) (next : Change)
      → ((r : Refusal) → Q (refuse r))
      → (g ≡ none → Q next)
      → Q (check g next)
  check_exits none next h k = k refl
  check_exits (some r) next h k = h r

editable : (o : Order) → ensure_editable o ≡ none → o.has_realization ≡ false
editable o h = ground arith

same_revision : (n m : ℕ) → assert_revision n m ≡ none → n ≡ m
same_revision n m h = ground arith

abbrev pub IsDeletion : Edit → Type 0
IsDeletion delete_draft = Unit
IsDeletion _ = ⊥

module _ (now user_id : ℕ) (o : Order) (Q : Change → Type 0)
    (refused : (r : Refusal) → Q (refuse r)) (kept : Q unchanged) where
  -- What a property has to show of the change that an edit chooses.
  pub edit_change_exits :
      (e : Edit)
      → (IsDeletion e
          → (is_status o.status draft
              || (is_status o.status queued || is_status o.status cancelled))
            ≡ true
          → is_known_to_1c o ≡ false
          → Q remove)
      → ((f : Order → Order) (events : List Event)
          → Written now o f
          → IsAbout e o.revision
          → Q (write f events))
      → Q (edit_change now user_id e o)
  unfolding update_change submit_change unqueue_change retry_change delete_change restore_change
      cancel_change
  edit_change_exits (update revision autosave none) removed w =
      check_exits Q (ensure_editable o)
        (check (assert_revision o.revision revision) (refuse Refusal.bad_references)) refused
        λ a.
          check_exits Q (assert_revision o.revision revision) (refuse Refusal.bad_references)
            refused λ b. refused Refusal.bad_references
  edit_change_exits (update revision autosave (some content)) removed w =
      check_exits Q (ensure_editable o) _ refused λ a.
        check_exits Q (assert_revision o.revision revision) _ refused λ b.
          w (updated now content) _ (updates content (editable o a))
            (same_revision o.revision revision b)
  edit_change_exits (submit revision) removed w = check_exits Q (ensure_editable o) _ refused λ a.
      check_exits Q (assert_revision o.revision revision) _ refused λ b.
        if_exits Q (is_status o.status cancelled) _ _ (λ c. refused Refusal.cancelled_order)
          λ c. check_exits Q (assert_can_be_submitted o.content) _ refused λ k.
            w (submitted now) _ (submits (editable o a) c k) (same_revision o.revision revision b)
  edit_change_exits (unqueue revision) removed w =
      let named = check (assert_revision o.revision revision) (unqueue_write now user_id o) in
      if_exits Q o.has_realization (refuse Refusal.read_only)
        (if not (is_order_queued o) then refuse Refusal.not_queued else named)
        (λ a. refused Refusal.read_only)
        λ a.
          if_exits Q (not (is_order_queued o)) (refuse Refusal.not_queued) named
            (λ b. refused Refusal.not_queued)
            λ b.
              check_exits Q (assert_revision o.revision revision) (unqueue_write now user_id o)
                refused
                λ c.
                  w (unqueued now) (event_of o app_manager order_unqueued user_id ∷ [])
                    (unqueues (not-not (is_order_queued o) b)) (same_revision o.revision revision c)
  edit_change_exits (retry revision) removed w = check_exits Q (ensure_editable o) _ refused λ a.
      check_exits Q (assert_revision o.revision revision) _ refused λ b.
        if_exits Q (has_bad_lines o.content) _ _ (λ c. refused Refusal.bad_lines)
          λ c. w (retried now) _ (retries (editable o a) c) (same_revision o.revision revision b)
  edit_change_exits (restore revision) removed w =
      if_exits Q (not (is_status o.status cancelled)) _ _ (λ a. refused Refusal.not_cancelled)
        λ a.
          if_exits Q (is_known_to_1c o) _ _ (λ b. refused Refusal.already_in_1c)
            λ b. check_exits Q (assert_revision o.revision revision) _ refused λ c.
              w (restored now) _ (restores (not-not (is_status o.status cancelled) a) b)
                (same_revision o.revision revision c)
  edit_change_exits (cancel revision reason) removed w =
      let written =
        write (cancelled_row now reason)
          (event_of o app_cancel_request order_cancelled user_id ∷ []) in
      if_exits Q (is_status o.status cancelled) _ _ (λ a. kept)
        λ a. check_exits Q (assert_revision o.revision revision) _ refused λ b.
          if_exits Q (is_order_queued o) (unqueue_write now user_id o)
            (check (ensure_editable o) written)
            (λ c.
              w (unqueued now) (event_of o app_manager order_unqueued user_id ∷ []) (unqueues c)
                (same_revision o.revision revision b))
            λ c. check_exits Q (ensure_editable o) written refused λ k.
              w (cancelled_row now reason)
                (event_of o app_cancel_request order_cancelled user_id ∷ []) (cancels reason a c)
                (same_revision o.revision revision b)
  edit_change_exits delete_draft removed w =
      if_exits Q
        ((is_status o.status draft || (is_status o.status queued || is_status o.status cancelled))
          && not (is_known_to_1c o))
        _ _
        (λ a.
          let (local, unknown) =
            both
              (is_status o.status draft
                || (is_status o.status queued || is_status o.status cancelled))
              (is_known_to_1c o) a in
          removed tt local unknown)
        λ a. refused Refusal.not_deletable
