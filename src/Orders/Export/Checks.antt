-- ===== src/Orders/Export/Checks.antt =====
-- src/services/clientOrdersExportWorker.ts: the answers of 1C, the settings, the wait between attempts,
-- and the checks before an order is sent. The query of the stock answers, with amounts that are not
-- negative.
use leader_product_api.Base.{
  ℕ, ◌+◌, ◌-◌, ◌*◌, ◌^◌, ◌≤◌, ◌≡◌, min, Bool, true, false, ◌||◌, not, Option, none, some, List, [],
  ◌∷◌, ◌++◌, ◌==◌, ltb, leb, if◌then◌else◌, keep, is_empty, length, count, Text, text_eq, All,
  Member,
}
use leader_product_api.Table.{Table}
use leader_product_api.Orders.{
  cancelled, cancel_requested, Item, Content, Order, Field, is_status, is_sync_state,
}
use leader_product_api.Orders.Manage.{is_none, is_null_or_zero, active_lines, named}

-- What is read of an answer: the number of its lines where it has them, and the fields used below.
pub record Saved : Type 0 where
  pub number_1c : Option Text
  pub is_posted : Option Bool
  pub posted_at : Option ℕ
  pub last_1c_error : Option Text
  pub last_export_error : Option Text
  pub lines : Option ℕ

pub data Reply : Type 0 where
  accepted : Saved → Reply
  http_failure : ℕ → Reply
  network_failure config_failure : Reply

pub data ExportError : Type 0 where
  not_ready : List Field → ExportError
  insufficient_stock : List (Text × ℕ) → ExportError
  http_error : ℕ → ExportError
  network_error config_error lost_items : ExportError

-- The table with its query of the oldest orders, the interface of 1C with the stock that it tells for
-- the products of an order in millionths of a unit, the locks, and the settings of the environment
-- where they are numbers.
pub record Deps : Type 0 where
  pub orders_table : Table Order
  pub oldest : (Order → Bool) → ℕ → List Order → List Order
  pub post : Order → Reply
  pub put : Order → Reply
  pub available : Order → Text → Option ℕ
  pub gets_order_lock : Order → Bool
  pub message : ExportError → Text
  pub not_posted_message : Text
  pub preflight_disabled : Bool
  pub batch_size : Option ℕ
  pub backoff_base : Option ℕ
  pub backoff_max : Option ℕ
  pub unsupported_pause : Option ℕ
  pub config_error_pause : Option ℕ
  pub oldest_found :
      (p : Order → Bool) (n : ℕ) (rows : List Order)
      → All (λ o. Member o rows × (p o ≡ true)) (oldest p n rows)
  pub oldest_all :
      (p : Order → Bool) (n : ℕ) (rows : List Order) (o : Order)
      → count p rows ≤ n
      → Member o rows
      → p o ≡ true
      → Member o (oldest p n rows)
  pub oldest_length :
      (p : Order → Bool) (n : ℕ) (rows : List Order) → length (oldest p n rows) ≤ count p rows

abbrev pub max_of : ℕ → ℕ → ℕ
max_of a b = if leb a b then b else a

-- A setting that is a number and not below the least, and otherwise the fallback.
abbrev pub env_int : Option ℕ → (fallback least : ℕ) → ℕ
env_int none fallback least = fallback
env_int (some raw) fallback least = if leb least raw then raw else fallback

abbrev pub or_number : Option ℕ → ℕ → ℕ
or_number none b = b
or_number (some a) b = a

abbrev pub or_message : Option Text → Option Text → Option Text
or_message none b = b
or_message (some a) b = some a

abbrev pub is_cancel_export_order : Order → Bool
is_cancel_export_order o =
    is_status o.status cancelled || is_sync_state o.sync_state cancel_requested

abbrev pub bad_line_fields : ℕ → List Item → List Field
bad_line_fields index [] = []
bad_line_fields index (i ∷ items) =
    named (is_none i.product) (Field.product_of index)
    ++ (named (i.quantity == 0) (Field.quantity_of index)
        ++ (named (is_null_or_zero i.base_price) (Field.price_of index)
            ++ bad_line_fields (index + 1) items))

unfoldable pub unready_fields : Content → List Field
unready_fields c =
    named (is_none c.organization_id) Field.organization
    ++ (named (is_none c.counterparty_id) Field.counterparty
        ++ (named (is_none c.agreement_id) Field.agreement
            ++ (named (is_none c.contract_id) Field.contract
                ++ (named (is_none c.warehouse_id) Field.warehouse
                    ++ (named (is_none c.delivery_address_id) Field.delivery_address
                        ++ (named (is_none c.delivery_date) Field.delivery_date
                            ++ (named (is_empty (active_lines c)) Field.active_items
                                ++ bad_line_fields 1 (active_lines c))))))))

unfoldable pub validate_order_ready_for_export : Order → Option ExportError
unfolding unready_fields
validate_order_ready_for_export o =
    if is_cancel_export_order o
    then none
    else if is_empty (unready_fields o.content)
    then none
    else some (not_ready (unready_fields o.content))

-- `numberOrZero(quantityBase) || numberOrZero(quantity)`
abbrev pub line_quantity : Item → ℕ
line_quantity i = elim i.quantity_base [
  | none ↦ i.quantity
  | some b ↦ if b == 0 then i.quantity else b
]

-- The map of the quantities required, in the order in which the products are met.
abbrev pub add_required : Text → ℕ → List (Text × ℕ) → List (Text × ℕ)
add_required product n [] = (product, n) ∷ []
add_required product n ((p, m) ∷ rest) =
    let others = (p, m) ∷ add_required product n rest in
    if text_eq p product then (p, m + n) ∷ rest else others

unfoldable pub required_by_product : List Item → List (Text × ℕ) → List (Text × ℕ)
required_by_product [] required = required
required_by_product (i ∷ items) required =
    required_by_product items
      (elim i.product [ none ↦ required | some p ↦ add_required p (line_quantity i) required ])

-- `available + 0.000001 < required`, with the stock in millionths and the quantity in thousandths.
abbrev pub is_short : (Text → Option ℕ) → Text × ℕ → Bool
is_short available (product, required) = elim (available product) [
  | none ↦ false
  | some n ↦ ltb (n + 1) (1000 * required)
]

abbrev pub has_product : Item → Bool
has_product i = not (is_none i.product)

unfoldable pub deficits : (Text → Option ℕ) → List Item → List (Text × ℕ)
unfolding required_by_product
deficits available items = keep (is_short available) (required_by_product items [])

module _ (d : Deps) where
  open d use {
    orders_table, oldest, post, put, available, gets_order_lock, message, not_posted_message,
    preflight_disabled,
  }

  abbrev pub get_batch_size : ℕ
  get_batch_size = env_int d.batch_size 5 1

  abbrev pub get_backoff_base : ℕ
  get_backoff_base = env_int d.backoff_base 10_000 1000

  abbrev pub get_backoff_max : ℕ
  get_backoff_max = env_int d.backoff_max 300_000 get_backoff_base

  unfoldable pub get_backoff_ms : ℕ → ℕ
  get_backoff_ms attempts =
      if leb attempts 0 then 0 else min get_backoff_max (get_backoff_base * 2 ^ (attempts - 1))

  unfoldable pub should_attempt : Order → (now : ℕ) → Bool
  unfolding get_backoff_ms
  should_attempt o now =
      leb o.export_attempts 0
      || leb (or_number o.source_updated_at o.updated_at + get_backoff_ms o.export_attempts) now

  unfoldable pub validate_order_stock_before_export : Order → Option ExportError
  unfolding deficits
  validate_order_stock_before_export o =
      let items = keep has_product (active_lines o.content) in
      if is_cancel_export_order o
        || (preflight_disabled || (is_none o.content.warehouse_id || is_empty items))
      then none
      else if is_empty (deficits (available o) items)
      then none
      else some (insufficient_stock (deficits (available o) items))
