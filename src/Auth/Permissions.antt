-- ===== src/Auth/Permissions.antt =====
-- src/middleware/auth.ts: the roles and permissions that a request needs. A set is a list that is read
-- by membership; a failing query is left out. The walks over the roles are those of the services.
use leader_product_api.Base.{
  ℕ, suc, ◌≡◌, Bool, true, ◌&&◌, ◌||◌, Option, none, some, List, [], ◌∷◌, ◌++◌, map, length, Text,
  text_eq, codes, Member, nonzero, if◌then◌else◌, is_empty, some_of,
}
use leader_product_api.ServiceAccess.RoleChain.{seen, walk}
use leader_product_api.ServiceAccess.Context.{Roles, same_id, is_zero}

pub record RolePermission : Type 0 where
  pub role_id : ℕ
  pub permission : Text

pub record RoleUser : Type 0 where
  pub role_id : Option ℕ
  pub department_roles : List ℕ

-- What a verified access token says of the user.
pub record TokenUser : Type 0 where
  pub user_id : ℕ
  pub role : Text

-- The tables of roles and users, and the query of the permissions of roles.
pub record Directory : Type 0 where
  pub roles : Roles
  pub find_user : ℕ → Option RoleUser
  pub find_many : (RolePermission → Bool) → List RolePermission → List RolePermission
  pub find_many_found :
      (p : RolePermission → Bool) (rows : List RolePermission) (r : RolePermission)
      → Member r (find_many p rows)
      → Member r rows × (p r ≡ true)
  pub find_many_all :
      (p : RolePermission → Bool) (rows : List RolePermission) (r : RolePermission)
      → Member r rows
      → p r ≡ true
      → Member r (find_many p rows)

pub data Mode : Type 0 where
  all any : Mode

pub data Verdict : Type 0 where
  unauthorized forbidden passes : Verdict

-- `array.every(test)`
abbrev pub all_of : (Text → Bool) → List Text → Bool
all_of p [] = true
all_of p (x ∷ xs) = p x && all_of p xs

abbrev pub seed_roles : RoleUser → List ℕ
seed_roles u = elim (nonzero u.role_id) [
  | none ↦ u.department_roles
  | some r ↦ r ∷ u.department_roles
]

abbrev pub is_admin : List Text → Bool
is_admin chain = seen text_eq (codes "admin") chain || seen text_eq (codes "administrator") chain

module _ (d : Directory) where
  -- getRoleHierarchyByName
  unfoldable pub role_hierarchy : Text → List Text
  unfolding walk
  role_hierarchy role_name =
      walk text_eq is_empty d.roles.parent_role_name (suc (length d.roles.known_names)) []
        (some role_name)

  -- collectRoleChain
  unfoldable pub collect_chain : ℕ → List ℕ
  unfolding walk
  collect_chain role_id =
      walk same_id is_zero d.roles.parent_role_id (suc (length d.roles.known_ids)) [] (some role_id)

  unfoldable pub collect_chains : List ℕ → List ℕ
  unfolding collect_chain
  collect_chains [] = []
  collect_chains (r ∷ rest) = collect_chain r ++ collect_chains rest

  unfoldable pub compute_user_permissions : (user_id : ℕ) → List RolePermission → List Text
  unfolding collect_chains seen
  compute_user_permissions user_id rows = elim (d.find_user user_id) [
    | none ↦ []
    | some u ↦
        let ids = collect_chains (seed_roles u) in
        if is_empty ids
        then []
        else map (λ p. p.permission) (d.find_many (λ p. seen same_id p.role_id ids) rows)
  ]

  unfoldable pub authorize_roles : List Text → Option TokenUser → Verdict
  unfolding role_hierarchy seen
  authorize_roles allowed none = unauthorized
  authorize_roles allowed (some t) =
      if some_of (λ role. seen text_eq role (role_hierarchy t.role)) allowed
      then passes
      else forbidden

  abbrev pub has_permissions : Mode → List Text → List Text → Bool
  has_permissions all required set = all_of (λ p. seen text_eq p set) required
  has_permissions any required set = some_of (λ p. seen text_eq p set) required

  unfoldable pub authorize_permissions :
      List Text → Mode → Option TokenUser → List RolePermission → Verdict
  unfolding role_hierarchy compute_user_permissions seen
  authorize_permissions required mode none rows = unauthorized
  authorize_permissions required mode (some t) rows =
      if is_admin (role_hierarchy t.role)
      then passes
      else if has_permissions mode required (compute_user_permissions t.user_id rows)
      then passes
      else forbidden
