-- ===== src/ServiceAccess/Access.antt =====
-- src/services/serviceAccess.ts: the decision on a service for a context, the reasons, and the
-- explanation of both, whose texts for display are left out.
use leader_product_api.Base.{
  ℕ, Bool, true, false, ◌&&◌, not, Option, none, some, List, [], ◌∷◌, ◌++◌, map, ◌==◌,
  if◌then◌else◌, keep, some_of, is_some_of, is_empty, Text,
}
use leader_product_api.ServiceAccess.{
  UserRuleMatch, RoleRuleMatch, DepartmentRuleMatch, DepartmentRoleRuleMatch, RuleMatchBase, Rules,
  LayerDecision, ResolvedFieldDecision, ServiceAccessDecision, apply_rule_flags, min_distance,
  max_safe_integer, Origin, Source,
}
use leader_product_api.ServiceAccess.Context.{UserAccessContext, RoleSource, RoleAssignment}

-- A row of each of the four access tables.
pub record RoleRule : Type 0 where
  pub base : RuleMatchBase
  pub role_id : ℕ

pub record DepartmentRoleRule : Type 0 where
  pub base : RuleMatchBase
  pub department_id : ℕ
  pub role_id : ℕ

pub data ServiceKind : Type 0 where
  local cloud : ServiceKind

-- A service as its query loads it for a user.
pub record Service : Type 0 where
  pub id : ℕ
  pub key : Text
  pub name : Text
  pub kind : ServiceKind
  pub route : Option Text
  pub icon : Option Text
  pub description : Option Text
  pub gradient_start : Option Text
  pub gradient_end : Option Text
  pub is_active : Bool
  pub default_visible : Bool
  pub default_enabled : Bool
  pub user_access : List UserRuleMatch
  pub department_role_access : List DepartmentRoleRule
  pub role_access : List RoleRule
  pub department_access : List DepartmentRuleMatch

abbrev pub gives_role_of : UserAccessContext → DepartmentRoleRule → RoleAssignment → Bool
gives_role_of ctx rule a = a.role_id == rule.role_id && elim a.source [
  | RoleSource.primary_role ↦ some_of (λ id. id == rule.department_id) ctx.department_ids
  | RoleSource.department_role ↦ is_some_of a.source_department_id rule.department_id
]

unfoldable pub map_matched_department_role_rules :
    UserAccessContext → List DepartmentRoleRule → List DepartmentRoleRuleMatch
unfolding min_distance
map_matched_department_role_rules ctx [] = []
map_matched_department_role_rules ctx (rule ∷ rules) =
    let matching = keep (gives_role_of ctx rule) ctx.role_assignments in
    let matched : DepartmentRoleRuleMatch = record {
      base = rule.base;
      department_id = rule.department_id;
      role_id = rule.role_id;
      distance = min_distance (λ a. a.distance) max_safe_integer matching;
    } in
    let rest = map_matched_department_role_rules ctx rules in
    if is_empty matching then rest else matched ∷ rest

abbrev pub role_rule_match : UserAccessContext → RoleRule → RoleRuleMatch
role_rule_match ctx rule = record {
  base = rule.base;
  role_id = rule.role_id;
  distance = elim (ctx.role_distance_by_id rule.role_id) [ none ↦ max_safe_integer | some d ↦ d ];
}

-- The rules that explainServiceAccessForUser hands to applyRuleFlags.
abbrev pub rules_for : UserAccessContext → Service → Rules
rules_for ctx service = record {
  users = service.user_access;
  department_roles = map_matched_department_role_rules ctx service.department_role_access;
  roles = map (role_rule_match ctx) service.role_access;
  departments = service.department_access;
}

unfoldable pub decide : UserAccessContext → Service → ServiceAccessDecision
unfolding apply_rule_flags map_matched_department_role_rules
decide ctx service =
    apply_rule_flags (service.is_active && service.default_visible)
      (service.is_active && service.default_enabled) (rules_for ctx service)

pub data ReasonCode : Type 0 where
  not_employee_profile service_inactive service_hidden service_disabled : ReasonCode

abbrev pub when : Bool → ReasonCode → List ReasonCode
when b code = if b then code ∷ [] else []

unfoldable pub build_reason_codes :
    (is_employee is_admin service_is_active visible enabled : Bool) → List ReasonCode
build_reason_codes is_employee is_admin service_is_active visible enabled =
    if is_admin
    then []
    else if not is_employee
    then not_employee_profile ∷ []
    else when (not service_is_active) service_inactive
      ++ (when (not visible) service_hidden ++ when (visible && not enabled) service_disabled)

pub record Access : Type 0 where
  pub visible : Bool
  pub enabled : Bool
  pub is_employee : Bool
  pub is_admin : Bool
  pub reason_codes : List ReasonCode

pub record Explanation : Type 0 where
  pub service : Service
  pub context : UserAccessContext
  pub access : Access
  pub base_visible : Bool
  pub base_enabled : Bool
  pub decision : ServiceAccessDecision

abbrev granted : ResolvedFieldDecision
granted = record { value = true; source = Source.default }

abbrev untouched : {T : Type 0} → LayerDecision T
untouched = record { value = true; origin = Origin.default; matched_rules = [] }

abbrev pub admin_decision : ServiceAccessDecision
admin_decision = record {
  visible = true;
  enabled = true;
  final_visible = granted;
  final_enabled = granted;
  user_visible = untouched;
  user_enabled = untouched;
  department_role_visible = untouched;
  department_role_enabled = untouched;
  role_visible = untouched;
  role_enabled = untouched;
  department_visible = untouched;
  department_enabled = untouched;
}

unfoldable pub explain : UserAccessContext → Service → Explanation
unfolding decide build_reason_codes
explain ctx service =
    let decision = decide ctx service in
    let visible = if ctx.is_employee then decision.visible else false in
    let enabled = if ctx.is_employee then decision.enabled else false in
    if ctx.is_admin
    then record {
      service = service;
      context = record ctx { is_employee = true; is_admin = true };
      access = record {
        visible = true;
        enabled = true;
        is_employee = true;
        is_admin = true;
        reason_codes = [];
      };
      base_visible = service.is_active && service.default_visible;
      base_enabled = service.is_active && service.default_enabled;
      decision = admin_decision;
    }
    else record {
      service = service;
      context = record ctx { is_admin = false };
      access = record {
        visible = visible;
        enabled = enabled;
        is_employee = ctx.is_employee;
        is_admin = false;
        reason_codes = build_reason_codes ctx.is_employee false service.is_active visible enabled;
      };
      base_visible = service.is_active && service.default_visible;
      base_enabled = service.is_active && service.default_enabled;
      decision = decision;
    }
