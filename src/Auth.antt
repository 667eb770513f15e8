-- ===== src/Auth.antt =====
-- Signed-in devices and their refresh tokens: the rows (src/prisma/schema.core.prisma), the packages
-- that sign and hash tokens, and the middleware that reads roles.
pub mod Devices
pub mod Tokens
pub mod History
pub mod Families
pub mod Rotation
pub mod Permissions
pub mod Hierarchy
pub mod Authorized
mod Tests
use leader_product_api.Base.{
  ℕ, Bool, true, false, ◌&&◌, ◌||◌, Option, none, some, List, Text, text_eq, ◌==◌,
}
use leader_product_api.Table.{Table}

pub record RefreshToken : Type 0 where
  pub id : ℕ
  pub token : Text
  pub token_hash : Option Text
  pub user_id : ℕ
  pub device_session_id : Option Text
  pub family_id : Option Text
  pub replaced_by : Option ℕ
  pub expires_at : ℕ
  pub created_at : ℕ
  pub revoked : Bool
  pub used_at : Option ℕ
  pub grace_until : Option ℕ

pub record DeviceSession : Type 0 where
  pub id : Text
  pub user_id : ℕ
  pub install_id : Text
  pub platform : Option Text
  pub app_version : Option Text
  pub device_name : Option Text
  pub created_at : ℕ
  pub last_seen_at : ℕ
  pub revoked_at : Option ℕ

-- The two tables.
pub record Db : Type 0 where
  pub tokens : List RefreshToken
  pub devices : List DeviceSession

-- `hash` is the SHA-256 digest in hexadecimal; `verify` is the user id of a token that the JWT package
-- accepts; the users and their profiles are other tables.
pub record Deps : Type 0 where
  pub tokens_table : Table RefreshToken
  pub devices_table : Table DeviceSession
  pub hash : Text → Text
  pub verify : Text → Option ℕ
  pub finds_user : ℕ → Bool
  pub loads_profile : ℕ → Bool
  pub grace_ms : ℕ

-- The random values of one call, and the next id of the table.
pub record Fresh : Type 0 where
  pub id : ℕ
  pub token : Text
  pub family : Text
  pub device : Text

abbrev pub is_text : Option Text → Text → Bool
is_text none t = false
is_text (some s) t = text_eq s t

abbrev pub has_id : ℕ → RefreshToken → Bool
has_id id r = r.id == id
