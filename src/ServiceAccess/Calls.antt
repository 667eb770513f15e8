-- ===== src/ServiceAccess/Calls.antt =====
-- src/services/serviceAccess.ts, explainServiceAccessForUser, resolveServiceAccessForUser and
-- listServicesForUser, and src/middleware/serviceAccess.ts, which lets a request pass.
use leader_product_api.Base.{
  ℕ, Bool, true, false, ◌&&◌, ◌||◌, not, Option, none, some, List, [], map, if◌then◌else◌, Text,
  nonzero,
}
use leader_product_api.ServiceAccess.Context.{
  UserAccessContext, AccessUser, Roles, resolve_user_access_context,
}
use leader_product_api.ServiceAccess.{
  RoleRuleMatch, Rules, ServiceAccessDecision, apply_rule_flags, max_safe_integer,
}
use leader_product_api.ServiceAccess.Access.{
  ServiceKind, Service, RoleRule, Explanation, explain, map_matched_department_role_rules,
}

-- The queries: the user, the service of a key with the rules for a context, and all active services,
-- each with the rules that this query selects for a context.
pub record Queries : Type 0 where
  pub roles : Roles
  pub find_user : ℕ → Option AccessUser
  pub find_service : UserAccessContext → Text → Option Service
  pub find_active_services : UserAccessContext → List Service

-- `user_not_found` is the error that the context throws.
pub data Result (A : Type 0) : Type 0 where
  user_not_found : Result A
  missing : Result A
  found : A → Result A

pub record Resolved : Type 0 where
  pub service : Service
  pub visible : Bool
  pub enabled : Bool
  pub is_employee : Bool

pub record ServiceAccessView : Type 0 where
  pub id : ℕ
  pub key : Text
  pub name : Text
  pub kind : ServiceKind
  pub route : Option Text
  pub icon : Option Text
  pub description : Option Text
  pub gradient_start : Option Text
  pub gradient_end : Option Text
  pub visible : Bool
  pub enabled : Bool

-- The view of a service with the two flags that the list adds to it.
abbrev pub to_service_access_view : Service → (visible enabled : Bool) → ServiceAccessView
to_service_access_view s visible enabled = record {
  id = s.id;
  key = s.key;
  name = s.name;
  kind = s.kind;
  route = s.route;
  icon = s.icon;
  description = s.description;
  gradient_start = s.gradient_start;
  gradient_end = s.gradient_end;
  visible = visible;
  enabled = enabled;
}

pub record Listing : Type 0 where
  pub services : List ServiceAccessView
  pub is_employee : Bool

pub data Response : Type 0 where
  unauthorized service_not_found employees_only forbidden internal_error next : Response

-- The mapping of the rules that listServicesForUser has of its own.
abbrev pub listed_role_rule : UserAccessContext → RoleRule → RoleRuleMatch
listed_role_rule ctx rule = record {
  base = rule.base;
  role_id = rule.role_id;
  distance = elim (ctx.role_distance_by_id rule.role_id) [ none ↦ max_safe_integer | some d ↦ d ];
}

abbrev pub listed_rules : UserAccessContext → Service → Rules
listed_rules ctx s = record {
  users = map (λ r. record { base = r.base; user_id = r.user_id }) s.user_access;
  department_roles = map_matched_department_role_rules ctx s.department_role_access;
  roles = map (listed_role_rule ctx) s.role_access;
  departments =
      map (λ r. record { base = r.base; department_id = r.department_id }) s.department_access;
}

unfoldable pub decide_listed : UserAccessContext → Service → ServiceAccessDecision
unfolding apply_rule_flags map_matched_department_role_rules
decide_listed ctx s =
    apply_rule_flags (s.is_active && s.default_visible) (s.is_active && s.default_enabled)
      (listed_rules ctx s)

abbrev pub listed : UserAccessContext → Service → ServiceAccessView
listed ctx s = to_service_access_view s (decide_listed ctx s).visible (decide_listed ctx s).enabled

module _ (q : Queries) where
  abbrev pub context_of : AccessUser → UserAccessContext
  context_of user = resolve_user_access_context q.roles user

  unfoldable pub explain_service_access_for_user : ℕ → Text → Result Explanation
  unfolding explain
  explain_service_access_for_user user_id key = elim (q.find_user user_id) [
    | none ↦ user_not_found
    | some user ↦ elim (q.find_service (context_of user) key) [
      | none ↦ missing
      | some service ↦ found (explain (context_of user) service)
    ]
  ]

  abbrev pub resolved : Explanation → Resolved
  resolved e =
      if e.access.is_admin
      then record { service = e.service; visible = true; enabled = true; is_employee = true }
      else if not e.access.is_employee
      then record { service = e.service; visible = false; enabled = false; is_employee = false }
      else record {
        service = e.service;
        visible = e.access.visible;
        enabled = e.access.enabled;
        is_employee = true;
      }

  -- The source reads the service again by the same key; this is the service of the explanation.
  unfoldable pub resolve_service_access_for_user : ℕ → Text → Result Resolved
  unfolding explain_service_access_for_user
  resolve_service_access_for_user user_id key = elim (explain_service_access_for_user user_id key) [
    | user_not_found ↦ user_not_found
    | missing ↦ missing
    | found e ↦ found (resolved e)
  ]

  unfoldable pub list_services_for_user : ℕ → Result Listing
  unfolding decide_listed
  list_services_for_user user_id = elim (q.find_user user_id) [
    | none ↦ user_not_found
    | some user ↦
        let ctx = context_of user in
        let services = q.find_active_services ctx in
        if ctx.is_admin
        then found (record {
          services = map (λ s. to_service_access_view s true true) services;
          is_employee = true;
        })
        else if not ctx.is_employee
        then found (record { services = []; is_employee = false })
        else found (record { services = map (listed ctx) services; is_employee = true })
  ]

  -- The middleware; `next` hands the request on. A user id of 0 is no user.
  unfoldable pub authorize_service_access : Text → Option ℕ → Response
  unfolding resolve_service_access_for_user
  authorize_service_access key user_id = elim (nonzero user_id) [
    | none ↦ unauthorized
    | some id ↦ elim (resolve_service_access_for_user id key) [
      | user_not_found ↦ internal_error
      | missing ↦ service_not_found
      | found r ↦
          if not r.is_employee
          then employees_only
          else if not r.visible || not r.enabled
          then forbidden
          else next
    ]
  ]
