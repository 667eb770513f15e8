-- ===== src/ServiceAccess/Context.antt =====
-- src/services/serviceAccess.ts, resolveUserAccessContext: a user's departments and roles, with the
-- distance of each role from an assigned one. A Set is a list that is asked for membership only.
use leader_product_api.Base.{
  ℕ, suc, Bool, true, false, ◌&&◌, ◌||◌, not, Option, none, some, List, [], ◌∷◌, ◌++◌, map, ltb,
  ◌==◌, if◌then◌else◌, keep, some_of, is_some_of, is_empty, length, Text, codes, text_eq, nonzero,
}
use leader_product_api.ServiceAccess.RoleChain.{walk}

pub data RoleSource : Type 0 where
  primary_role department_role : RoleSource

pub record RoleAssignment : Type 0 where
  pub role_id : ℕ
  pub role_name : Option Text
  pub distance : ℕ
  pub source : RoleSource
  pub source_department_id : Option ℕ

pub data DepartmentSource : Type 0 where
  primary_department active_department department_role : DepartmentSource

pub record DepartmentAssignment : Type 0 where
  pub department_id : ℕ
  pub source : DepartmentSource

pub data ProfileType : Type 0 where
  client supplier employee : ProfileType

pub record UserAccessContext : Type 0 where
  pub user_id : ℕ
  pub role_name : Option Text
  pub current_profile_type : Option ProfileType
  pub active_department_id : Option ℕ
  pub role_ids : List ℕ
  pub role_assignments : List RoleAssignment
  pub role_distance_by_id : ℕ → Option ℕ
  pub department_ids : List ℕ
  pub department_assignments : List DepartmentAssignment
  pub available_department_ids : List ℕ
  pub is_employee : Bool
  pub is_admin : Bool

pub record EmployeeProfile : Type 0 where
  pub department_id : Option ℕ
  pub active_department_id : Option ℕ

pub record DepartmentRole : Type 0 where
  pub role_id : ℕ
  pub department_id : ℕ

-- What the query of the user selects.
pub record AccessUser : Type 0 where
  pub id : ℕ
  pub role_id : ℕ
  pub role_name : Option Text
  pub current_profile_type : Option ProfileType
  pub employee_profile : Option EmployeeProfile
  pub department_roles : List DepartmentRole

-- The queries of roles, and the roles that are stored.
pub record Roles : Type 0 where
  pub parent_role_id : ℕ → Option ℕ
  pub parent_role_name : Text → Option Text
  pub known_ids : List ℕ
  pub known_names : List Text

abbrev pub same_id : ℕ → ℕ → Bool
same_id a b = a == b

abbrev pub is_zero : ℕ → Bool
is_zero n = n == 0

module _ (roles : Roles) where
  open roles use {parent_role_id, parent_role_name, known_ids, known_names}

  unfoldable pub get_role_hierarchy_by_name : Text → List Text
  unfolding walk
  get_role_hierarchy_by_name role_name =
      walk text_eq is_empty parent_role_name (suc (length known_names)) [] (some role_name)

  unfoldable pub role_chain : Option ℕ → List ℕ
  unfolding walk
  role_chain role_id = walk same_id is_zero parent_role_id (suc (length known_ids)) [] role_id

abbrev pub numbered : ℕ → List ℕ → List (ℕ × ℕ)
numbered distance [] = []
numbered distance (r ∷ rs) = (r, distance) ∷ numbered (suc distance) rs

-- The roles of the chain, each with the number of steps to it.
unfoldable pub collect_role_chain : Roles → Option ℕ → List (ℕ × ℕ)
unfolding role_chain
collect_role_chain roles role_id = numbered 0 (role_chain roles role_id)

abbrev pub has_name : Text → List Text → Bool
has_name name names = some_of (λ n. text_eq n name) names

abbrev pub is_admin_role : Text → Bool
is_admin_role name = text_eq name (codes "admin") || text_eq name (codes "administrator")

unfoldable pub resolve_is_admin : Roles → Option Text → Bool
unfolding get_role_hierarchy_by_name
resolve_is_admin roles none = false
resolve_is_admin roles (some name) =
    not (is_empty name)
    && (is_admin_role name
        || (has_name (codes "admin") (get_role_hierarchy_by_name roles name)
            || has_name (codes "administrator") (get_role_hierarchy_by_name roles name)))

-- `a ?? b`
abbrev pub or_id : Option ℕ → Option ℕ → Option ℕ
or_id none b = b
or_id (some a) b = some a

abbrev pub added : Option ℕ → List ℕ → List ℕ
added none ids = ids
added (some id) ids = if id == 0 then ids else id ∷ ids

abbrev pub primary_department_of : AccessUser → Option ℕ
primary_department_of user = elim user.employee_profile [ none ↦ none | some p ↦ p.department_id ]

abbrev pub active_department_of : AccessUser → Option ℕ
active_department_of user =
    or_id (elim user.employee_profile [ none ↦ none | some p ↦ p.active_department_id ])
      (primary_department_of user)

abbrev pub same_source : DepartmentSource → DepartmentSource → Bool
same_source primary_department primary_department = true
same_source active_department active_department = true
same_source department_role department_role = true
same_source _ _ = false

-- The assignments in the order in which they are made.
abbrev pub add_department_assignment :
    Option ℕ → DepartmentSource → List DepartmentAssignment → List DepartmentAssignment
add_department_assignment none source made = made
add_department_assignment (some id) source made =
    if id == 0 || some_of (λ a. a.department_id == id && same_source a.source source) made
    then made
    else made ++ (record { department_id = id; source = source } ∷ [])

abbrev pub add_department_roles :
    List DepartmentRole → List DepartmentAssignment → List DepartmentAssignment
add_department_roles [] made = made
add_department_roles (r ∷ rs) made =
    add_department_roles rs (add_department_assignment (some r.department_id) department_role made)

-- The department roles that count: those of the active department, where there is one.
abbrev pub relevant_department_roles : AccessUser → List DepartmentRole
relevant_department_roles user = elim (nonzero (active_department_of user)) [
  | none ↦ user.department_roles
  | some active ↦ keep (λ r. r.department_id == active) user.department_roles
]

unfoldable pub department_assignments_of : AccessUser → List DepartmentAssignment
department_assignments_of user = elim (nonzero (active_department_of user)) [
  | none ↦
      add_department_roles user.department_roles
        (add_department_assignment (primary_department_of user) primary_department [])
  | some active ↦
      add_department_roles (keep (λ r. r.department_id == active) user.department_roles) (
        add_department_assignment (some active)
          (if is_some_of (primary_department_of user) active
            then primary_department
            else active_department)
          [])
]

unfoldable pub available_departments_of : AccessUser → List ℕ
available_departments_of user = added (primary_department_of user) (
    added (active_department_of user)
      (keep (λ id. not (id == 0)) (map (λ r. r.department_id) user.department_roles)))

abbrev pub assignments_of : RoleSource → Option Text → Option ℕ → List (ℕ × ℕ) → List RoleAssignment
assignments_of source role_name department chain =
    map
      (λ entry. record {
        role_id = entry.0;
        role_name = role_name;
        distance = entry.1;
        source = source;
        source_department_id = department;
      })
      chain

unfoldable pub department_role_assignments : Roles → List DepartmentRole → List RoleAssignment
unfolding collect_role_chain
department_role_assignments roles [] = []
department_role_assignments roles (r ∷ rs) =
    assignments_of department_role none (some r.department_id)
      (collect_role_chain roles (some r.role_id))
    ++ department_role_assignments roles rs

unfoldable pub role_assignments_of : Roles → AccessUser → List RoleAssignment
unfolding collect_role_chain department_role_assignments
role_assignments_of roles user =
    let primary =
      assignments_of primary_role user.role_name none
        (collect_role_chain roles (some user.role_id)) in
    (if user.role_id == 0 then [] else primary)
    ++ department_role_assignments roles (relevant_department_roles user)

-- `roleDistanceById`: an assignment is recorded where there is none or a farther one.
abbrev pub record_distance : RoleAssignment → (ℕ → Option ℕ) → ℕ → Option ℕ
record_distance a distances id =
    let closer : Bool = elim (distances a.role_id) [
      | none ↦ true
      | some prev ↦ ltb a.distance prev
    ] in
    if id == a.role_id && closer then some a.distance else distances id

unfoldable pub role_distances : List RoleAssignment → (ℕ → Option ℕ) → ℕ → Option ℕ
role_distances [] distances = distances
role_distances (a ∷ rest) distances = role_distances rest (record_distance a distances)

abbrev pub is_employee_profile : Option ProfileType → Bool
is_employee_profile (some employee) = true
is_employee_profile _ = false

unfoldable pub resolve_user_access_context : Roles → AccessUser → UserAccessContext
unfolding department_assignments_of available_departments_of role_assignments_of role_distances
    resolve_is_admin
resolve_user_access_context roles user =
    let assignments = role_assignments_of roles user in
    let departments = department_assignments_of user in
    record {
      user_id = user.id;
      role_name = user.role_name;
      current_profile_type = user.current_profile_type;
      active_department_id = active_department_of user;
      role_ids = map (λ a. a.role_id) assignments;
      role_assignments = assignments;
      role_distance_by_id = role_distances assignments (λ id. none);
      department_ids = map (λ a. a.department_id) departments;
      department_assignments = departments;
      available_department_ids = available_departments_of user;
      is_employee = is_employee_profile user.current_profile_type;
      is_admin = resolve_is_admin roles user.role_name;
    }
