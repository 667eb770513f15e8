-- ===== src/Orders/Versions.antt =====
-- src/modules/clientOrders/clientOrders.service.ts: the version of an order that its client counts, over
-- the calls of all sides.
use mathlib.Core.Path.{subst, sym}
use leader_product_api.Base.{
  ℕ, ◌≤◌, ◌<◌, ◌≡◌, refl, inl, inr, Bool, true, false, List, Text, count, arith, Bool-cases,
  Option-cases, ltb, All, All-Member, All-change-intro, count-change, count-eq-zero, text_eq→eq,
  ◌∙◌,
}
use leader_product_api.Orders.{Order, Db, has_id, perform, done}
use leader_product_api.Orders.Export.{Deps}
use leader_product_api.Orders.History.{
  Call, create, manage, put, accept, fail, ack, tell_status, step, IsAllowed,
}
use leader_product_api.Orders.Edits.{Written, IsDeletion}
use leader_product_api.Orders.Mobile.{
  Mutation, new_client_order, is_client_order, revision_of, put_client_order, mutation_change,
}
use leader_product_api.Orders.Mutations.{Mutated}
use leader_product_api.Orders.Moves.{
  Move, edits, puts, accepts, fails, ack_refuses, ack_accepts, status_syncs, IsNewRow, written,
  sent, HasUniqueIds, same_row, step_exits, IsRemovable,
}
use leader_product_api.Orders.Consistent.{IsOrderTable, step-IsOrderTable}

-- A call that does not delete an order.
abbrev pub IsKeeping : Call → Type 0
IsKeeping (manage guid user_id e) = IsDeletion e → ⊥
IsKeeping _ = Unit

pub data ReachKeeping (d : Deps) (db : Db) : Db → Type 0 where
  here : ReachKeeping d db db
  next :
      {db' : Db} (now : ℕ) (c : Call)
      → ReachKeeping d db db'
      → IsAllowed d c db'
      → IsKeeping c
      → ReachKeeping d db (step d now c db')

module _ (user_id : ℕ) (client_order_id : Text) where
  abbrev is_it : Order → Bool
  is_it o = is_client_order user_id client_order_id o

  -- The client's order is stored, in no version before `n`.
  abbrev pub HasVersion : ℕ → List Order → Type 0
  HasVersion n rows = (1 ≤ count is_it rows) × All (λ r. is_it r ≡ true → n ≤ revision_of r) rows

  Move-client :
      {d : Deps} {now : ℕ} {c : Call} {o : Order} {f : Order → Order}
      → Move d now c o f
      → (r : Order) → is_it (f r) ≡ is_it r
  Move-client (edits (Written.updates content a)) r = refl
  Move-client (edits (Written.submits a b k)) r = refl
  Move-client (edits (Written.unqueues a)) r = refl
  Move-client (edits (Written.retries a b)) r = refl
  Move-client (edits (Written.restores a b)) r = refl
  Move-client (edits (Written.cancels reason a b)) r = refl
  Move-client (puts (Mutated.resubmits a b)) r = refl
  Move-client (puts (Mutated.mutates content a)) r = refl
  Move-client (accepts a b) r = refl
  Move-client (fails a b) r = refl
  Move-client (ack_refuses message) r = refl
  Move-client ack_accepts r = refl
  Move-client status_syncs r = refl

  Move-version :
      {d : Deps} {now : ℕ} {c : Call} {o : Order} {f : Order → Order}
      → Move d now c o f
      → revision_of o ≤ revision_of (f o)
  Move-version (edits (Written.updates content a)) = omega arith
  Move-version (edits (Written.submits a b k)) = omega arith
  Move-version (edits (Written.unqueues a)) = omega arith
  Move-version (edits (Written.retries a b)) = omega arith
  Move-version (edits (Written.restores a b)) = omega arith
  Move-version (edits (Written.cancels reason a b)) = omega arith
  Move-version (puts (Mutated.resubmits a b)) = omega arith
  Move-version (puts (Mutated.mutates content a)) = omega (arith, a)
  Move-version (accepts a b) = omega arith
  Move-version (fails a b) = omega arith
  Move-version (ack_refuses message) = omega arith
  Move-version ack_accepts = omega arith
  Move-version status_syncs = omega arith

  -- A new row is another order.
  new_row_other :
      (now n : ℕ) (rows : List Order) (o : Order)
      → HasVersion n rows
      → IsNewRow now rows o
      → is_it o ≡ false
  new_row_other now n rows o v (written id guid u content) = ground arith
  new_row_other now n rows o (stored, v) (sent id guid cid u body content missing) =
      elim (Bool-cases (is_it (new_client_order now u body id guid cid content))) [
        | inr e ↦ e
        | inl e ↦
            let same_user : u ≡ user_id = ground (arith, e) in
            let same_name : cid ≡ client_order_id =
              text_eq→eq cid client_order_id (ground (arith, e)) in
            let none_stored : count (is_client_order u cid) rows ≡ 0 =
              count-eq-zero (is_client_order u cid) rows missing in
            let absent : count is_it rows ≡ 0 =
              subst (λ x. count (is_client_order x client_order_id) rows ≡ 0) same_user
                (subst (λ x. count (is_client_order u x) rows ≡ 0) same_name none_stored) in
            let absurd : ⊥ = omega (arith, absent, stored) in elim absurd [ ]
      ]

  step-HasVersion :
      (d : Deps) (now n : ℕ) (c : Call) (db : Db)
      → HasUniqueIds db.orders
      → HasVersion n db.orders
      → IsAllowed d c db
      → IsKeeping c
      → HasVersion n (step d now c db).orders
  step-HasVersion d now n c db unique v allowed keeps =
      step_exits d now c db (HasVersion n) allowed (record {
        stays = v;
        creates = λ o new fresh _.
            let other = new_row_other now n db.orders o v new in
            subst (HasVersion n) (sym (d.orders_table.create_rows o db.orders))
              (ground (arith, other, v.0), ((λ h. ground (arith, other, h)), v.1));
        writes = λ o f m w.
            subst (HasVersion n) (sym (d.orders_table.update_many_rows (has_id o.id) f db.orders)) (
              subst (λ k. 1 ≤ k)
                  (sym (count-change is_it (has_id o.id) f (λ r _. Move-client w r) db.orders)) v.0,
              All-change-intro _ (has_id o.id) f db.orders
                  (λ r k e h.
                    let same = same_row db.orders o r unique m k e in
                    let its : is_it o ≡ true =
                      subst (λ z. is_it z ≡ true) same (sym (Move-client w r) ∙ h) in
                    let kept : n ≤ revision_of o = All-Member _ db.orders o v.1 m its in
                    subst (λ z. n ≤ revision_of (f z)) (sym same)
                      (omega (arith, kept, Move-version w)))
                  (λ r k e h. All-Member _ db.orders r v.1 k h),
            );
        removes = λ o m w. removes_none c keeps o w;
      })
    where
      removes_none : {A : Type 0} (x : Call) → IsKeeping x → (o : Order) → IsRemovable x o → A
      removes_none (manage guid u e) k o w = elim (k w.0) [ ]
      removes_none (create id guid u prepared) k o w = elim w [ ]
      removes_none (put id guid u cid body) k o w = elim w [ ]
      removes_none (accept r saved) k o w = elim w [ ]
      removes_none (fail r x) k o w = elim w [ ]
      removes_none (ack guid body) k o w = elim w [ ]
      removes_none (tell_status item) k o w = elim w [ ]

  ReachKeeping-HasVersion :
      (d : Deps) (n : ℕ) {db db' : Db}
      → IsOrderTable db.orders
      → HasVersion n db.orders
      → ReachKeeping d db db'
      → IsOrderTable db'.orders × HasVersion n db'.orders
  ReachKeeping-HasVersion d n v h here = (v, h)
  ReachKeeping-HasVersion d n v h (next {db'} now c r allowed keeps) =
      let (w, k) = ReachKeeping-HasVersion d n v h r in
      (step-IsOrderTable d now c db' w allowed, step-HasVersion d now n c db' w.ids k allowed keeps)

  -- Once an order is stored in a version of its client, a mutation of an older version that comes after
  -- any calls which delete no order is answered and changes nothing, from a table that has the invariant.
  pub stale_mutation :
      (d : Deps) (n later id : ℕ) (guid : Text) (old : Mutation) (db db' : Db)
      → IsOrderTable db.orders
      → HasVersion n db.orders
      → ReachKeeping d db db'
      → old.client_revision < n
      → put_client_order later user_id old d.orders_table id guid client_order_id db' ≡ (db', done)
  unfolding put_client_order perform mutation_change
  stale_mutation d n later id guid old db db' v h r older =
      let (_, (stored, versions)) = ReachKeeping-HasVersion d n v h r in
      elim (Option-cases (d.orders_table.find_first is_it db'.orders)) [
        | inl e ↦
            let absent =
              count-eq-zero is_it db'.orders
                (d.orders_table.find_first_missing is_it db'.orders e) in
            let absurd : ⊥ = omega (arith, absent, stored) in elim absurd [ ]
        | inr (o, e) ↦
            let (m, k) = d.orders_table.find_first_found is_it db'.orders o e in
            let newer : n ≤ revision_of o = All-Member _ db'.orders o versions m k in
            let stale : ltb old.client_revision (revision_of o) ≡ true =
              ground (arith, newer, older) in
            rw (e, put_client_order) (rw (stale, mutation_change) refl)
      ]
