-- ===== src/Auth/Tests.antt =====
-- Refresh tokens and roles, and the theorems at such inputs.
use mathlib.Core.Path.{subst, sym}
use leader_product_api.Base.{
  text_eq→eq, Bool, Member-keep, ℕ, ◌≤◌, ◌≡◌, ◌⊎◌, ◌↔◌, refl, inl, inr, true, Option, none, some,
  List, [], ◌∷◌, arith, codes, Text, text_eq, Member, Bool-cases, count, ◌==◌, if◌then◌else◌, keep,
  is_empty,
}
use leader_product_api.Table.{in_memory}
use leader_product_api.Auth.{Db, Deps, Fresh, has_id}
use leader_product_api.Auth.Devices.{AuthDeviceInfo}
use leader_product_api.Auth.Tokens.{rotate, create_unique_refresh_token}
use leader_product_api.Auth.History.{issue, renew, sign_out, step, here, next}
use leader_product_api.Auth.Families.{IsTokenTable, Reach-IsTokenTable}
use leader_product_api.Auth.Rotation.{rotate_once}
use leader_product_api.Auth.Permissions.{
  RolePermission, TokenUser, Directory, all, passes, authorize_permissions,
}
use leader_product_api.Auth.Hierarchy.{Inherits}
use leader_product_api.Auth.Authorized.{
  IsComplete, IsGranted, HasPermission, authorize_permissions_iff,
}
use leader_product_api.ServiceAccess.Context.{Roles}

abbrev deps : Deps
deps = record {
  tokens_table = in_memory;
  devices_table = in_memory;
  hash = λ t. t;
  verify = λ t. some 3;
  finds_user = λ id. true;
  loads_profile = λ id. true;
  grace_ms = 60_000;
}

abbrev info : AuthDeviceInfo
info = record {
  device_session_id = none;
  install_id = some (codes "phone");
  platform = some (codes "android");
  app_version = none;
  device_name = none;
}

abbrev fresh : ℕ → Text → Text → Fresh
fresh id token family = record { id = id; token = token; family = family; device = codes "d1" }

abbrev signed_in : Fresh
signed_in = fresh 1 (codes "t1") (codes "f1")

abbrev second : Fresh
second = fresh 2 (codes "t2") (codes "f2")

abbrev third : Fresh
third = fresh 3 (codes "t3") (codes "f3")

abbrev empty : Db
empty = record { tokens = []; devices = [] }

abbrev one_token : Db
one_token = step deps 1 (issue signed_in 3 info) empty

nothing_stored : IsTokenTable []
nothing_stored = record { ids = λ id. omega arith; one_live = λ f. omega arith }

Reach-IsTokenTable_example :
    IsTokenTable (step deps 2 (renew second (some (codes "t1")) info) one_token).tokens
unfolding step create_unique_refresh_token
Reach-IsTokenTable_example = Reach-IsTokenTable deps {db = empty} nothing_stored (
    next 2 (renew second (some (codes "t1")) info)
      (next 1 (issue signed_in 3 info) here (refl, refl)) (refl, refl))

one_unique : (id : ℕ) → count (has_id id) one_token.tokens ≤ 1
unfolding step create_unique_refresh_token
one_unique id = elim (Bool-cases (1 == id)) [
  | inl e ↦ rw e (omega arith)
  | inr e ↦ rw e (omega arith)
]

abbrev after_rotation : Db
after_rotation = (rotate deps 2 second 1 3 info one_token).0

first_rotated : (rotate deps 2 second 1 3 info one_token).1 ≡ some (some (codes "d1"))
unfolding rotate step
first_rotated = refl

rotate_once_example :
    rotate deps 4 third 1 3 info (step deps 3 (sign_out 3 (some (codes "t2"))) after_rotation)
    ≡ (step deps 3 (sign_out 3 (some (codes "t2"))) after_rotation, none)
unfolding step create_unique_refresh_token
rotate_once_example =
    rotate_once deps 2 4 1 3 3 second third info info one_token
      (step deps 3 (sign_out 3 (some (codes "t2"))) after_rotation) (some (codes "d1")) one_unique
      (refl, refl) first_rotated (next 3 (sign_out 3 (some (codes "t2"))) here tt)

-- Role 2, a manager, inherits from role 1, a user.
abbrev parent_of : ℕ → Option ℕ
parent_of n = if n == 2 then some 1 else none

abbrev parent_name_of : Text → Option Text
parent_name_of t = if text_eq t (codes "manager") then some (codes "user") else none

abbrev roles : Roles
roles = record {
  parent_role_id = parent_of;
  parent_role_name = parent_name_of;
  known_ids = 1 ∷ 2 ∷ [];
  known_names = codes "user" ∷ codes "manager" ∷ [];
}

complete : IsComplete roles
complete = record { ids = by_id; names = by_name }
  where
    by_id : (k p : ℕ) → parent_of k ≡ some p → Member k (1 ∷ 2 ∷ [])
    by_id k p h = inr (inl (ground arith))

    by_name :
        (k p : Text) → parent_name_of k ≡ some p → Member k (codes "user" ∷ codes "manager" ∷ [])
    by_name k p h = elim (Bool-cases (text_eq k (codes "manager"))) [
      | inl e ↦ inr (inl (text_eq→eq k (codes "manager") e))
      | inr e ↦ ground (arith, e, h)
    ]

-- The query over a list.
module _ (p : RolePermission → Bool) where
  kept_found :
      (rows : List RolePermission) (r : RolePermission)
      → Member r (keep p rows)
      → Member r rows × (p r ≡ true)
  kept_found [] r m = elim m [ ]
  kept_found (x ∷ rows) r m = elim (Bool-cases (p x)) [
    | inl e ↦ elim (rw e at m) [
      | inl same ↦ (inl same, subst (λ z. p z ≡ true) (sym same) e)
      | inr n ↦ let (k, h) = kept_found rows r n in (inr k, h)
    ]
    | inr e ↦ let (k, h) = kept_found rows r (rw e at m) in (inr k, h)
  ]

abbrev directory : Directory
directory = record {
  roles = roles;
  find_user = λ id. some (record { role_id = some 2; department_roles = [] });
  find_many = keep;
  find_many_found = kept_found;
  find_many_all = Member-keep;
}

abbrev may_read : RolePermission
may_read = record { role_id = 1; permission = codes "read" }

abbrev by_manager : TokenUser
by_manager = record { user_id = 3; role = codes "manager" }

authorize_permissions_iff_example :
    (authorize_permissions directory (codes "read" ∷ []) all (some by_manager) (may_read ∷ [])
      ≡ passes)
    ↔ ((Inherits is_empty parent_name_of (codes "manager") (codes "admin")
          ⊎ Inherits is_empty parent_name_of (codes "manager") (codes "administrator"))
        ⊎ IsGranted all (codes "read" ∷ []) (HasPermission directory 3 (may_read ∷ [])))
authorize_permissions_iff_example =
    authorize_permissions_iff directory complete (codes "read" ∷ []) all by_manager (may_read ∷ [])
