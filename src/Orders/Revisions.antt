-- ===== src/Orders/Revisions.antt =====
-- src/modules/clientOrders/clientOrders.service.ts: the revision that an edit names against the one of
-- the stored order.
use mathlib.Core.Path.{subst, sym}
use leader_product_api.Base.{
  ℕ, ◌+◌, ◌≤◌, ◌≡◌, ◌∙◌, refl, inl, inr, ◌⊎◌, true, false, List, Text, count, Option-cases, Member,
  arith, All-Member, All-change-intro, count_unique,
}
use leader_product_api.Table.{Table}
use leader_product_api.Orders.{Order, write, Db, is_order_of, has_id, with_order, perform, Event}
use leader_product_api.Orders.Manage.{
  update_client_order, submit_client_order, unqueue_client_order, retry_client_order_export,
  delete_draft_client_order, restore_client_order, cancel_client_order,
}
use leader_product_api.Orders.History.{
  Edit, update, submit, unqueue, retry, restore, cancel, delete_draft, edit, edit_change,
}
use leader_product_api.Orders.Edits.{Written, edit_change_exits, IsAbout, IsDeletion}
use leader_product_api.Orders.Export.{Deps}
use leader_product_api.Orders.Moves.{HasUniqueIds, same_row}
use leader_product_api.Orders.Passed.{HasPassed, ReachOther, ReachOther-HasPassed}

-- An edit that names a revision.
abbrev pub Names : ℕ → Edit → Type 0
Names n (update revision autosave prepared) = revision ≡ n
Names n (submit revision) = revision ≡ n
Names n (unqueue revision) = revision ≡ n
Names n (retry revision) = revision ≡ n
Names n (restore revision) = revision ≡ n
Names n (cancel revision reason) = revision ≡ n
Names n delete_draft = ⊥

about : (n m : ℕ) (e : Edit) → Names n e → IsAbout e m → m ≡ n
about n m (update revision autosave prepared) h k = k ∙ h
about n m (submit revision) h k = k ∙ h
about n m (unqueue revision) h k = k ∙ h
about n m (retry revision) h k = k ∙ h
about n m (restore revision) h k = k ∙ h
about n m (cancel revision reason) h k = k ∙ h
about n m delete_draft h k = elim h [ ]

revision_bumped :
    {now : ℕ} {o : Order} {f : Order → Order} → Written now o f → (f o).revision ≡ o.revision + 1
revision_bumped (Written.updates content a) = refl
revision_bumped (Written.submits a b k) = refl
revision_bumped (Written.unqueues a) = refl
revision_bumped (Written.retries a b) = refl
revision_bumped (Written.restores a b) = refl
revision_bumped (Written.cancels reason a b) = refl

module _ (orders : Table Order) (guid : Text) (user_id : ℕ) where
  edit-with_order :
      (now : ℕ) (e : Edit) (db : Db)
      → edit orders now guid user_id e db
        ≡ with_order orders guid user_id (edit_change now user_id e) db
  unfolding edit update_client_order submit_client_order unqueue_client_order
      retry_client_order_export delete_draft_client_order restore_client_order cancel_client_order
  edit-with_order now (update revision autosave prepared) db = refl
  edit-with_order now (submit revision) db = refl
  edit-with_order now (unqueue revision) db = refl
  edit-with_order now (retry revision) db = refl
  edit-with_order now (restore revision) db = refl
  edit-with_order now (cancel revision reason) db = refl
  edit-with_order now delete_draft db = refl

  -- The ways out of an edit that names a revision, for a property of the database.
  edit_exits :
      (now n : ℕ) (e : Edit) (db : Db) (P : Db → Type 0)
      → Names n e
      → P db
      → ((o : Order) (f : Order → Order) (events : List Event)
          → Member o db.orders
          → is_order_of guid user_id o ≡ true
          → o.revision ≡ n
          → Written now o f
          → P (perform orders o (write f events) db).0)
      → P (edit orders now guid user_id e db).0
  unfolding with_order perform
  edit_exits now n e db P h stays writes =
      subst (λ z. P z.0) (sym (edit-with_order now e db))
        (elim (Option-cases (orders.find_first (is_order_of guid user_id) db.orders)) [
          | inl k ↦ rw (k, with_order) stays
          | inr (o, k) ↦
              let (m, mine) = orders.find_first_found (is_order_of guid user_id) db.orders o k in
              rw (k, with_order)
                (edit_change_exits now user_id o (λ c. P (perform orders o c db).0) (λ r. stays)
                  stays e (not_removed e h)
                  (λ f events w a. writes o f events m mine (about n o.revision e h a) w))
        ])
    where
      not_removed : {A : Type 0} (x : Edit) → Names n x → IsDeletion x → A
      not_removed (update revision autosave prepared) a b = elim b [ ]
      not_removed (submit revision) a b = elim b [ ]
      not_removed (unqueue revision) a b = elim b [ ]
      not_removed (retry revision) a b = elim b [ ]
      not_removed (restore revision) a b = elim b [ ]
      not_removed (cancel revision reason) a b = elim b [ ]
      not_removed delete_draft a b = elim a [ ]

  -- Every order that an edit may mean is in a revision after `n`.
  abbrev IsBumped : ℕ → Db → Type 0
  IsBumped n db = HasPassed guid user_id (n + 1) db.orders

  IsBumped-write :
      (now n : ℕ) (db : Db) (o : Order) (f : Order → Order) (events : List Event)
      → HasUniqueIds db.orders
      → count (is_order_of guid user_id) db.orders ≤ 1
      → Member o db.orders
      → is_order_of guid user_id o ≡ true
      → o.revision ≡ n
      → Written now o f
      → IsBumped n (perform orders o (write f events) db).0
  unfolding perform
  IsBumped-write now n db o f events unique one m mine e w =
      subst (HasPassed guid user_id (n + 1))
        (sym (orders.update_many_rows (has_id o.id) f db.orders))
        (All-change-intro _ (has_id o.id) f db.orders
          (λ r k same _.
            subst (λ z. n + 1 ≤ (f z).revision) (sym (same_row db.orders o r unique m k same))
              (omega (arith, revision_bumped w, e)))
          (λ r k other its.
            let same : r ≡ o =
              count_unique (is_order_of guid user_id) db.orders r o one k its m mine in
            let kept : has_id o.id o ≡ false = subst (λ z. has_id o.id z ≡ false) same other in
            ground (arith, kept)))

  kept_or_IsBumped :
      (now n : ℕ) (e : Edit) (db : Db)
      → HasUniqueIds db.orders
      → count (is_order_of guid user_id) db.orders ≤ 1
      → Names n e
      → ((edit orders now guid user_id e db).0 ≡ db)
        ⊎ IsBumped n (edit orders now guid user_id e db).0
  kept_or_IsBumped now n e db unique one h =
      edit_exits now n e db (λ z. (z ≡ db) ⊎ IsBumped n z) h (inl refl)
        (λ o f events m mine k w. inr (IsBumped-write now n db o f events unique one m mine k w))

  -- An edit is refused where every order that it may mean has gone on.
  stale_edit :
      (now n : ℕ) (e : Edit) (db : Db)
      → Names n e
      → IsBumped n db
      → (edit orders now guid user_id e db).0 ≡ db
  stale_edit now n e db h bumped =
      edit_exits now n e db (λ z. z ≡ db) h refl
        λ o f events m mine k w.
          let gone : n + 1 ≤ o.revision = All-Member _ db.orders o bumped m mine in
          let absurd : ⊥ = omega (arith, gone, k) in elim absurd [ ]

-- Calls run one after the other, each as a whole. Of two edits of an order that name the same revision,
-- at most one changes the database, whatever calls of all sides come between them, where ids are
-- unique, one order at most has the guid, and new orders draw other guids.
pub one_edit_per_revision :
    (d : Deps) (guid : Text) (user_id now later n : ℕ) (first second : Edit) (db db' : Db)
    → HasUniqueIds db.orders
    → count (is_order_of guid user_id) db.orders ≤ 1
    → Names n first
    → Names n second
    → ReachOther guid d (edit d.orders_table now guid user_id first db).0 db'
    → ((edit d.orders_table now guid user_id first db).0 ≡ db)
      ⊎ ((edit d.orders_table later guid user_id second db').0 ≡ db')
one_edit_per_revision d guid user_id now later n first second db db' unique one h k between =
    elim (kept_or_IsBumped d.orders_table guid user_id now n first db unique one h) [
      | inl kept ↦ inl kept
      | inr bumped ↦ inr (
          stale_edit d.orders_table guid user_id later n second db' k
            (ReachOther-HasPassed guid d user_id (n + 1) bumped between))
    ]
