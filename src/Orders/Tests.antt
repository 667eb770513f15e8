-- ===== src/Orders/Tests.antt =====
-- Orders of a manager, and the theorems at such inputs.
use mathlib.Core.Path.{subst, sym}
use leader_product_api.Base.{
  ℕ, zero, suc, ◌≤◌, ◌≡◌, ◌⊎◌, refl, ◌∙◌, inl, inr, Bool, true, false, none, some, List, [], ◌∷◌,
  arith, codes, Text, Member, Member-keep, All, All-take, take, take_all, length, keep, count,
  Bool-cases, ◌↔◌, ◌<◌, ◌+◌, ◌*◌, ◌==◌, is_empty,
}
use leader_product_api.Table.{in_memory}
use leader_product_api.Orders.{Order, Content, Item, Db, synced, has_id}
use leader_product_api.Orders.Manage.{new_order, submitted, submit_change, cancel_change}
use leader_product_api.Orders.Export.{
  Deps, Saved, accepted, push_order, deficits, get_backoff_ms, run_once,
}
use leader_product_api.Orders.{done, perform}
use leader_product_api.Orders.History.{
  create, put, manage, accept, submit, cancel, step, edit, edit_change,
}
use leader_product_api.Orders.Moves.{HasUniqueIds, IsRemovable}
use leader_product_api.Orders.Consistent.{IsOrderTable, here, next, Reach-IsOrderTable}
use leader_product_api.Orders.Outbox.{step-Edge, Edge, Phase, phase_of, worker}
use leader_product_api.Orders.Passed.{ReachOther}
use leader_product_api.Orders.Revisions.{one_edit_per_revision}
use leader_product_api.Orders.Backoff.{get_backoff_ms_bounds}
use leader_product_api.Orders.Stock.{is_empty-deficits, total_of}
use leader_product_api.Orders.Mobile.{Mutation, save, put_client_order, create_mutation}
use leader_product_api.Orders.Versions.{HasVersion, stale_mutation, ReachKeeping}
use leader_product_api.Orders.Delivery.{run_once_delivers}

-- The query of the oldest rows, where they stand first.
module _ (p : Order → Bool) where
  kept_found :
      (all rows : List Order)
      → ((o : Order) → Member o rows → Member o all)
      → All (λ o. Member o all × (p o ≡ true)) (keep p rows)
  kept_found all [] h = tt
  kept_found all (o ∷ rows) h = elim (Bool-cases (p o)) [
    | inl e ↦ rw e ((h o (inl refl), e), kept_found all rows (λ x m. h x (inr m)))
    | inr e ↦ rw e (kept_found all rows (λ x m. h x (inr m)))
  ]

  length-keep : (rows : List Order) → length (keep p rows) ≡ count p rows
  length-keep [] = refl
  length-keep (o ∷ rows) = ground (arith, length-keep rows)

length-take-le : (n : ℕ) (rows : List Order) → length (take n rows) ≤ length rows
length-take-le zero rows = omega arith
length-take-le (suc n) [] = omega arith
length-take-le (suc n) (o ∷ rows) = omega (arith, length-take-le n rows)

abbrev answer : Saved
answer = record {
  number_1c = some (codes "N-1");
  is_posted = some true;
  posted_at = none;
  last_1c_error = none;
  last_export_error = none;
  lines = some 1;
}

abbrev deps : Deps
deps = record {
  orders_table = in_memory;
  oldest = λ p n rows. take n (keep p rows);
  post = λ o. accepted answer;
  put = λ o. accepted answer;
  available = λ o p. some 5_000_000;
  gets_order_lock = λ o. true;
  message = λ e. codes "failed";
  not_posted_message = codes "not posted";
  preflight_disabled = false;
  batch_size = none;
  backoff_base = none;
  backoff_max = none;
  unsupported_pause = none;
  config_error_pause = none;
  oldest_found = λ p n rows. All-take _ n (keep p rows) (kept_found p rows rows (λ o m. m));
  oldest_all = λ p n rows o h m e.
      subst (Member o) (sym (take_all n (keep p rows) (omega (arith, h, length-keep p rows))))
        (Member-keep p rows o m e);
  oldest_length = λ p n rows. omega (arith, length-take-le n (keep p rows), length-keep p rows);
}

abbrev line : Item
line = record {
  product = some (codes "p1");
  quantity = 2000;
  quantity_base = none;
  base_price = some 100_000;
  is_cancelled = false;
}

abbrev content : Content
content = record {
  organization_id = some 1;
  counterparty_id = some 1;
  agreement_id = some 1;
  contract_id = some 1;
  warehouse_id = some 1;
  delivery_address_id = some 1;
  delivery_date = some 1;
  comment = none;
  payment_form = none;
  delivery_method = none;
  invoice_requested = false;
  total_amount = some 200_000;
  items = line ∷ [];
}

abbrev guid : Text
guid = codes "g1"

abbrev written : Order
written = new_order 1 7 guid 3 content

abbrev waiting : Order
waiting = submitted 2 written

abbrev db_of : Order → Db
db_of o = record { orders = o ∷ []; events = [] }

one_unique : (o : Order) → o.id ≡ 7 → HasUniqueIds (o ∷ [])
one_unique o e id = elim (Bool-cases (o.id == id)) [
  | inl e ↦ rw e (omega arith)
  | inr e ↦ rw e (omega arith)
]

nothing_stored : IsOrderTable []
nothing_stored = record { ids = λ id. omega arith; consistent = tt }

accepted_push : push_order deps waiting ≡ inr answer
unfolding push_order
accepted_push = refl

abbrev empty : Db
empty = record { orders = []; events = [] }

abbrev created : Db
created = step deps 1 (create 7 guid 3 (some content)) empty

abbrev sent : Db
sent = step deps 2 (manage guid 3 (submit 1)) created

Reach-IsOrderTable_example : IsOrderTable (step deps 3 (accept waiting answer) sent).orders
Reach-IsOrderTable_example = Reach-IsOrderTable deps {db = empty} nothing_stored (
    next 3 (accept waiting answer)
      (next 2 (manage guid 3 (submit 1)) (next 1 (create 7 guid 3 (some content)) here refl) tt)
      accepted_push)

step-Edge_example :
    ((t : Order) × Member t (step deps 3 (accept waiting answer) (db_of waiting)).orders
      × (t.id ≡ 7)
      × ((t ≡ waiting) ⊎ Edge worker Phase.waiting (phase_of t.sync_state)))
    ⊎ (IsRemovable (accept waiting answer) waiting
        × (count (has_id 7) (step deps 3 (accept waiting answer) (db_of waiting)).orders ≡ 0))
step-Edge_example =
    step-Edge deps 3 (accept waiting answer) (db_of waiting) waiting (one_unique waiting refl)
      (inl refl) accepted_push

-- The worker delivers the order between two edits of revision 1.
one_edit_per_revision_example :
    let after = (edit in_memory 5 guid 3 (submit 1) (db_of written)).0 in
    let delivered = step deps 6 (accept waiting answer) after in
    (after ≡ db_of written) ⊎ ((edit in_memory 7 guid 3 (cancel 1 none) delivered).0 ≡ delivered)
one_edit_per_revision_example =
    one_edit_per_revision deps guid 3 5 7 1 (submit 1) (cancel 1 none) (db_of written) _
      (one_unique written refl) (omega arith) refl refl
      (ReachOther.next 6 (accept waiting answer) ReachOther.here accepted_push tt)

-- Two edits of revision 1 that have both read the order before either wrote are both done.
abbrev first_write : Db
first_write = (perform in_memory written (edit_change 5 3 (submit 1) written) (db_of written)).0

both_done :
    (perform in_memory written (edit_change 6 3 (cancel 1 none) written) first_write).1 ≡ done
unfolding perform submit_change cancel_change
both_done = refl

run_once_delivers_example :
    (r : Order) × Member r (run_once deps 400_000 9 true (db_of waiting)).0.orders
    × (r.id ≡ 7)
    × (r.sync_state ≡ synced)
    × (r.sent_to_1c_at ≡ some 400_000)
run_once_delivers_example =
    run_once_delivers deps 400_000 9 waiting answer (db_of waiting) (one_unique waiting refl)
      (inl refl) refl (omega arith) (omega arith) (omega arith) refl accepted_push
      ((λ k e h. ground (arith, sym accepted_push ∙ h)), tt)

get_backoff_ms_bounds_example :
    (10_000 ≤ get_backoff_ms deps 2)
    × (get_backoff_ms deps 2 ≤ get_backoff_ms deps 9)
    × (get_backoff_ms deps 9 ≤ 300_000)
get_backoff_ms_bounds_example = get_backoff_ms_bounds deps 2 9 (omega arith) (omega arith)

is_empty-deficits_example :
    (is_empty (deficits (deps.available waiting) (line ∷ line ∷ [])) ≡ false) ↔ (
      (p : Text) × (n : ℕ) × (deps.available waiting p ≡ some n)
      × (n + 1 < 1000 * total_of p (line ∷ line ∷ [])))
is_empty-deficits_example = is_empty-deficits (deps.available waiting) (line ∷ line ∷ [])

abbrev version : ℕ → Mutation
version n = record {
  client_revision = n;
  intent = save;
  payload_hash = codes "h1";
  autosave = false;
  prepared = some content;
}

abbrev from_phone : Db
from_phone = step deps 1 (put 7 guid 3 (codes "c1") (version 3)) empty

from_phone-IsOrderTable : IsOrderTable from_phone.orders
from_phone-IsOrderTable =
    Reach-IsOrderTable deps {db = empty} nothing_stored
      (next 1 (put 7 guid 3 (codes "c1") (version 3)) here refl)

from_phone-HasVersion : HasVersion 3 (codes "c1") 3 from_phone.orders
unfolding step put_client_order create_mutation
from_phone-HasVersion = (omega arith, ((λ h. omega arith), tt))

stale_mutation_example :
    put_client_order 5 3
      (version 2)
      deps.orders_table
      8
      (codes "g2")
      (codes "c1")
      (step deps 2 (manage guid 3 (submit 1)) from_phone)
    ≡ (step deps 2 (manage guid 3 (submit 1)) from_phone, done)
stale_mutation_example =
    stale_mutation 3 (codes "c1") deps 3 5 8 (codes "g2") (version 2) from_phone
      (step deps 2 (manage guid 3 (submit 1)) from_phone) from_phone-IsOrderTable
      from_phone-HasVersion
      (ReachKeeping.next 2 (manage guid 3 (submit 1)) ReachKeeping.here tt (λ h. h)) (omega arith)
