-- ===== src/Orders/Backoff.antt =====
-- src/services/clientOrdersExportWorker.ts: the time that passes between the attempts of an export.
use native.Mathlib.Nat.{mul-le-mul_left, pow-le-pow_right}
use leader_product_api.Base.{ℕ, zero, suc, ◌*◌, ◌^◌, ◌+◌, ◌≤◌, ◌≡◌, min, true, arith}
use leader_product_api.Orders.{Order}
use leader_product_api.Orders.Export.{
  Deps, get_backoff_ms, get_backoff_base, get_backoff_max, should_attempt, or_number,
}

doubled_mono : (b n m : ℕ) → n ≤ m → b * 2 ^ n ≤ b * 2 ^ m
doubled_mono b n m h = mul-le-mul_left b (pow-le-pow_right (omega arith) h)

-- After a failure the wait before the next attempt is not shorter than the first wait or the longest
-- one, does not shrink as attempts go on, and is never longer than the longest wait.
pub get_backoff_ms_bounds :
    (d : Deps) (n m : ℕ)
    → 1 ≤ n
    → n ≤ m
    → (min (get_backoff_max d) (get_backoff_base d) ≤ get_backoff_ms d n)
      × (get_backoff_ms d n ≤ get_backoff_ms d m)
      × (get_backoff_ms d m ≤ get_backoff_max d)
unfolding get_backoff_ms
get_backoff_ms_bounds d zero m k h = ground arith
get_backoff_ms_bounds d (suc n) zero k h = ground arith
get_backoff_ms_bounds d (suc n) (suc m) k h = (
  ground (arith, doubled_mono (get_backoff_base d) 0 n),
  ground (arith, doubled_mono (get_backoff_base d) n m),
  ground arith,
)

get_backoff_ms-le : (d : Deps) (n : ℕ) → get_backoff_ms d n ≤ get_backoff_max d
unfolding get_backoff_ms
get_backoff_ms-le d zero = ground arith
get_backoff_ms-le d (suc n) = ground arith

-- Once the longest wait has passed since its last change, an order is attempted.
pub should_attempt_after :
    (d : Deps) (o : Order) (now : ℕ)
    → or_number o.source_updated_at o.updated_at + get_backoff_max d ≤ now
    → should_attempt d o now ≡ true
unfolding should_attempt
should_attempt_after d o now h = ground (arith, get_backoff_ms-le d o.export_attempts)
