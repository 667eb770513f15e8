-- ===== src/ServiceAccess/Tests.antt =====
-- An employee with a primary role and a department role, and the theorems at such inputs.
use leader_product_api.Base.{
  keep, Member-keep, Member-keep_back, All-intro, Text, count, ◌≤◌, ℕ, zero, suc, ◌≡◌, ◌≢◌, ◌↔◌,
  refl, inl, inr, Bool, true, false, Option, none, some, List, [], ◌∷◌, arith, All, Member, codes,
  ◌||◌, if◌then◌else◌, map,
}
use leader_product_api.ServiceAccess.{
  visible, RuleMatchBase, UserRuleMatch, RoleRuleMatch, Rules, evaluate_flat, evaluate_nearest,
  resolve_field, Source,
}
use leader_product_api.ServiceAccess.Layers.{
  IsRefused, IsNearest, evaluate_flat_refuses_iff, evaluate_nearest_refuses_iff,
}
use leader_product_api.ServiceAccess.Precedence.{IsSilentBelow, IsRuling, resolve_field_precedence}
use leader_product_api.ServiceAccess.RoleChain.{IsLineage, seen, walk}
use leader_product_api.ServiceAccess.Context.{
  Roles, AccessUser, employee, UserAccessContext, role_chain, role_distances, same_id, is_zero,
  resolve_user_access_context, role_assignments_of,
}
use leader_product_api.ServiceAccess.Access.{Service, ServiceKind, decide, explain}
use leader_product_api.ServiceAccess.Calls.{
  Queries, context_of, authorize_service_access, next, Listing, list_services_for_user, found,
}
use leader_product_api.ServiceAccess.Decisions.{
  resolve_field_user_refusal, decide-safe, explain_no_reason_iff, MayUse, MayUseActive,
}
use leader_product_api.Table.{in_memory}
use leader_product_api.ServiceAccess.Rows.{Many, stored_queries, has_key}
use leader_product_api.ServiceAccess.Answers.{authorize_iff}
use leader_product_api.ServiceAccess.Agreement.{list_agrees, IsAgreed}
use leader_product_api.ServiceAccess.Distances.{
  role_chain-IsLineage, IsLeastDistance, role_distances_least,
}

-- Role 2 (manager) is a child of role 1 (employee); role 3 is apart.
abbrev parent_of : ℕ → Option ℕ
parent_of (suc (suc zero)) = some 1
parent_of _ = none

parent_of-known : (k p : ℕ) → parent_of k ≡ some p → Member k (1 ∷ 2 ∷ 3 ∷ [])
parent_of-known zero p h = ground arith
parent_of-known (suc zero) p h = ground arith
parent_of-known (suc (suc zero)) p h = inr (inl refl)
parent_of-known (suc (suc (suc k))) p h = ground arith

abbrev roles : Roles
roles = record {
  parent_role_id = parent_of;
  parent_role_name = λ name. none;
  known_ids = 1 ∷ 2 ∷ 3 ∷ [];
  known_names = [];
}

abbrev anna : AccessUser
anna = record {
  id = 5;
  role_id = 2;
  role_name = some (codes "manager");
  current_profile_type = some employee;
  employee_profile = some (record { department_id = some 10; active_department_id = none });
  department_roles = record { role_id = 3; department_id = 10 } ∷ [];
}

abbrev grants : RuleMatchBase
grants = record { id = 1; visible = some true; enabled = some true }

abbrev refuses : RuleMatchBase
refuses = record { id = 2; visible = some false; enabled = none }

-- A service hidden by default, which the nearer of two role rules shows.
abbrev reports : Service
reports = record {
  id = 1;
  key = codes "reports";
  name = codes "Reports";
  kind = ServiceKind.local;
  route = none;
  icon = none;
  description = none;
  gradient_start = none;
  gradient_end = none;
  is_active = true;
  default_visible = false;
  default_enabled = false;
  user_access = [];
  department_role_access = [];
  role_access = record { base = refuses; role_id = 1 } ∷ record { base = grants; role_id = 2 } ∷ [];
  department_access = [];
}

abbrev ctx : UserAccessContext
ctx = resolve_user_access_context roles anna

-- The same service with a rule that refuses it to the user.
abbrev barred : Service
barred = record reports { user_access = record { base = refuses; user_id = 5 } ∷ [] }

abbrev queries : Queries
queries = record {
  roles = roles;
  find_user = λ id. some anna;
  find_service = λ c key. some reports;
  find_active_services = λ c. reports ∷ [];
}

abbrev rules : Rules
rules = record {
  users = record { base = refuses; user_id = 5 } ∷ [];
  department_roles = [];
  roles = record { base = grants; role_id = 2; distance = 0 } ∷ [];
  departments = record { base = grants; department_id = 10 } ∷ [];
}

abbrev role_rules : List RoleRuleMatch
role_rules =
    record { base = refuses; role_id = 1; distance = 1 }
    ∷ record { base = grants; role_id = 2; distance = 0 }
    ∷ []

abbrev visible_of : RoleRuleMatch → Option Bool
visible_of r = r.base.visible

-- Runs.
parent_first : role_chain roles (some 2) ≡ 2 ∷ 1 ∷ []
unfolding role_chain walk seen
parent_first = refl

evaluate_flat_refuses_iff_example :
    (evaluate_flat (λ r. r.base.visible) true rules.users).value ≡ false
    ↔ IsRefused (λ r. r.base.visible) (λ r. Unit) true rules.users
evaluate_flat_refuses_iff_example = evaluate_flat_refuses_iff (λ r. r.base.visible) true rules.users

evaluate_nearest_refuses_iff_example :
    (evaluate_nearest visible_of (λ r. r.distance) false role_rules).value ≡ false
    ↔ IsRefused visible_of (IsNearest visible_of (λ r. r.distance) role_rules) false role_rules
evaluate_nearest_refuses_iff_example =
    evaluate_nearest_refuses_iff visible_of (λ r. r.distance) false role_rules
      (omega arith, (omega arith, tt))

resolve_field_precedence_example :
    IsSilentBelow true rules visible (resolve_field true rules visible).source
    × IsRuling true rules visible
        (resolve_field true rules visible).source
        (resolve_field true rules visible).value
resolve_field_precedence_example = resolve_field_precedence true rules visible

resolve_field_user_refusal_example :
    resolve_field true rules visible ≡ record { value = false; source = Source.user }
resolve_field_user_refusal_example =
    resolve_field_user_refusal true rules visible (record { base = refuses; user_id = 5 })
      (inl refl) refl

decide-safe_example :
    ((decide ctx barred).enabled ≡ true → (decide ctx barred).visible ≡ true)
    × ((r : UserRuleMatch)
        → Member r barred.user_access
        → r.base.visible ≡ some false
        → ((decide ctx barred).visible ≡ false) × ((decide ctx barred).enabled ≡ false))
decide-safe_example = decide-safe ctx barred

explain_no_reason_iff_example :
    (explain ctx reports).access.reason_codes ≡ [] ↔ MayUseActive ctx reports
explain_no_reason_iff_example = explain_no_reason_iff ctx reports

authorize_iff_example : authorize_service_access queries (codes "reports") (some 5) ≡ next ↔ (
    (s : Service) × (queries.find_service (context_of queries anna) (codes "reports") ≡ some s)
    × MayUse (context_of queries anna) s)
authorize_iff_example = authorize_iff queries 4 anna refl (codes "reports")

abbrev users : ℕ → Option AccessUser
users id = some anna

-- The stored service has a rule for another user and one for a role that Anna has not.
abbrev stored : List Service
stored =
    record reports {
      user_access = record { base = refuses; user_id = 6 } ∷ [];
      role_access = record { base = grants; role_id = 9 } ∷ reports.role_access;
    }
    ∷ []

kept_active :
    (p : Service → Bool) (rows : List Service)
    → All (λ s. Member s rows × (p s ≡ true)) (keep p rows)
kept_active p rows = All-intro _ (keep p rows) λ s m. Member-keep_back p rows s m

abbrev in_order : Many
in_order = record {
  find_many = keep;
  find_many_found = kept_active;
  find_many_all = λ p rows s m h. Member-keep p rows s m h;
}

one_per_key : (key : Text) → count (has_key key) stored ≤ 1
one_per_key key = ground arith

abbrev loaded : Queries
loaded = stored_queries roles users in_memory in_order stored

list_agrees_example :
    (l : Listing) × (list_services_for_user loaded 5 ≡ found l)
    × (l.is_employee ≡ ((context_of loaded anna).is_admin || (context_of loaded anna).is_employee))
    × (map (λ v. v.id) l.services ≡ (if l.is_employee then map (λ s. s.id) stored else []))
    × All (IsAgreed roles users in_memory in_order stored one_per_key 4 anna refl) l.services
list_agrees_example = list_agrees roles users in_memory in_order stored one_per_key 4 anna refl

role_chain-IsLineage_example :
    IsLineage same_id is_zero parent_of [] (some 2) (role_chain roles (some 2))
role_chain-IsLineage_example = role_chain-IsLineage roles (some 2) parent_of-known

role_distances_least_example :
    ((d : ℕ)
      → role_distances (role_assignments_of roles anna) (λ i. none) 1 ≡ some d
      → IsLeastDistance (role_assignments_of roles anna) 1 d)
    × (role_distances (role_assignments_of roles anna) (λ i. none) 1 ≡ none
        → All (λ a. a.role_id ≢ 1) (role_assignments_of roles anna))
role_distances_least_example = role_distances_least (role_assignments_of roles anna) 1
