-- ===== src/Orders/Passed.antt =====
-- src/modules/clientOrders/clientOrders.service.ts: the revision of a stored order over the calls of all
-- sides, each of which runs as a whole.
use mathlib.Core.Path.{subst, sym}
use leader_product_api.Base.{
  ℕ, ◌≤◌, ◌≡◌, refl, true, false, Text, text_eq, arith, All, All-Member, All-keep-All, not,
  All-change-intro, List, ◌∙◌,
}
use leader_product_api.Orders.{Order, Db, has_id, is_order_of}
use leader_product_api.Orders.Export.{Deps}
use leader_product_api.Orders.History.{
  Call, create, manage, put, accept, fail, ack, tell_status, step, IsAllowed,
}
use leader_product_api.Orders.Edits.{Written}
use leader_product_api.Orders.Mutations.{Mutated}
use leader_product_api.Orders.Moves.{
  Move, edits, puts, accepts, fails, ack_refuses, ack_accepts, status_syncs, step_exits, Draws,
}

module _ (guid : Text) where
  -- The random guid that a call draws for a new order is not that of the order.
  abbrev pub IsOther : Call → Type 0
  IsOther (create id drawn user_id prepared) = text_eq drawn guid ≡ false
  IsOther (put id drawn user_id client_order_id body) = text_eq drawn guid ≡ false
  IsOther _ = Unit

  pub data ReachOther (d : Deps) (db : Db) : Db → Type 0 where
    here : ReachOther d db db
    next :
        {db' : Db} (now : ℕ) (c : Call)
        → ReachOther d db db'
        → IsAllowed d c db'
        → IsOther c
        → ReachOther d db (step d now c db')

  -- The order of the guid and manager is in revision `n` or a later one, if it is stored.
  abbrev pub HasPassed : (user_id n : ℕ) → List Order → Type 0
  HasPassed user_id n rows = All (λ r. is_order_of guid user_id r ≡ true → n ≤ r.revision) rows

  Move-owner :
      {d : Deps} {now : ℕ} {c : Call} {o : Order} {f : Order → Order}
      → Move d now c o f
      → (user_id : ℕ) (r : Order) → is_order_of guid user_id (f r) ≡ is_order_of guid user_id r
  Move-owner (edits (Written.updates content a)) u r = refl
  Move-owner (edits (Written.submits a b k)) u r = refl
  Move-owner (edits (Written.unqueues a)) u r = refl
  Move-owner (edits (Written.retries a b)) u r = refl
  Move-owner (edits (Written.restores a b)) u r = refl
  Move-owner (edits (Written.cancels reason a b)) u r = refl
  Move-owner (puts (Mutated.resubmits a b)) u r = refl
  Move-owner (puts (Mutated.mutates content a)) u r = refl
  Move-owner (accepts a b) u r = refl
  Move-owner (fails a b) u r = refl
  Move-owner (ack_refuses message) u r = refl
  Move-owner ack_accepts u r = refl
  Move-owner status_syncs u r = refl

  Move-revision :
      {d : Deps} {now : ℕ} {c : Call} {o : Order} {f : Order → Order}
      → Move d now c o f
      → (r : Order) → r.revision ≤ (f r).revision
  Move-revision (edits (Written.updates content a)) r = omega arith
  Move-revision (edits (Written.submits a b k)) r = omega arith
  Move-revision (edits (Written.unqueues a)) r = omega arith
  Move-revision (edits (Written.retries a b)) r = omega arith
  Move-revision (edits (Written.restores a b)) r = omega arith
  Move-revision (edits (Written.cancels reason a b)) r = omega arith
  Move-revision (puts (Mutated.resubmits a b)) r = omega arith
  Move-revision (puts (Mutated.mutates content a)) r = omega arith
  Move-revision (accepts a b) r = omega arith
  Move-revision (fails a b) r = omega arith
  Move-revision (ack_refuses message) r = omega arith
  Move-revision ack_accepts r = omega arith
  Move-revision status_syncs r = omega arith

  new_row_other :
      (user_id : ℕ) (c : Call) (o : Order)
      → IsOther c
      → Draws c o
      → is_order_of guid user_id o ≡ false
  new_row_other user_id (create id drawn u prepared) o other e =
      let its : text_eq o.guid guid ≡ false = subst (λ z. text_eq z guid ≡ false) (sym e) other in
      ground (arith, its)
  new_row_other user_id (put id drawn u client_order_id body) o other e =
      let its : text_eq o.guid guid ≡ false = subst (λ z. text_eq z guid ≡ false) (sym e) other in
      ground (arith, its)
  new_row_other user_id (manage g u e) o other k = elim k [ ]
  new_row_other user_id (accept r saved) o other k = elim k [ ]
  new_row_other user_id (fail r x) o other k = elim k [ ]
  new_row_other user_id (ack g body) o other k = elim k [ ]
  new_row_other user_id (tell_status item) o other k = elim k [ ]

  module _ (d : Deps) (user_id n : ℕ) where
    step-HasPassed :
        (now : ℕ) (c : Call) (db : Db)
        → HasPassed user_id n db.orders
        → IsAllowed d c db
        → IsOther c
        → HasPassed user_id n (step d now c db).orders
    step-HasPassed now c db v allowed other =
        step_exits d now c db (HasPassed user_id n) allowed (record {
          stays = v;
          creates = λ o new fresh drawn.
              let its = new_row_other user_id c o other drawn in
              subst (HasPassed user_id n) (sym (d.orders_table.create_rows o db.orders))
                ((λ h. ground (arith, its, h)), v);
          writes = λ o f m w.
              subst (HasPassed user_id n)
                (sym (d.orders_table.update_many_rows (has_id o.id) f db.orders))
                (All-change-intro _ (has_id o.id) f db.orders
                  (λ r k e h.
                    let kept : n ≤ r.revision =
                      All-Member _ db.orders r v k (sym (Move-owner w user_id r) ∙ h) in
                    omega (arith, kept, Move-revision w r))
                  (λ r k e. All-Member _ db.orders r v k));
          removes = λ o m w.
              subst (HasPassed user_id n)
                (sym (d.orders_table.delete_many_rows (has_id o.id) db.orders))
                (All-keep-All (λ r. not (has_id o.id r)) _ db.orders v);
        })

    pub ReachOther-HasPassed :
        {db db' : Db}
        → HasPassed user_id n db.orders
        → ReachOther d db db'
        → HasPassed user_id n db'.orders
    ReachOther-HasPassed v here = v
    ReachOther-HasPassed v (next {db'} now c r allowed other) =
        step-HasPassed now c db' (ReachOther-HasPassed v r) allowed other
