-- ===== src/Users.antt =====
-- The user rows that the verification services read and write, and
-- resolveAuthProvider of src/services/phoneVerificationService.ts.
use leader_product_api.Base.{ℕ, Bool, ◌&&◌, ◌||◌, Option, if◌then◌else◌, Text, is_filled}

pub data AuthProvider : Type 0 where
  local telegram max hybrid : AuthProvider

-- Times are milliseconds; big integers are natural numbers.
pub record User : Type 0 where
  pub id : ℕ
  pub email : Option Text
  pub password_hash : Option Text
  pub phone : Option ℕ
  pub phone_verified_at : Option ℕ
  pub telegram_id : Option ℕ
  pub telegram_username : Option Text
  pub telegram_linked_at : Option ℕ
  pub max_id : Option ℕ
  pub max_username : Option Text
  pub max_linked_at : Option ℕ
  pub auth_provider : AuthProvider

pub has_credentials : User → Bool
has_credentials user = is_filled user.email && is_filled user.password_hash

unfoldable pub resolve_auth_provider : Bool → Bool → Bool → AuthProvider
resolve_auth_provider has_local_credentials has_telegram has_max =
    if has_local_credentials
    then if has_telegram || has_max then hybrid else local
    else if has_telegram && has_max
    then hybrid
    else if has_telegram
    then telegram
    else if has_max
    then max
    else local
