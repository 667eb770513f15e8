-- ===== src/ServiceAccess.antt =====
-- src/services/serviceAccess.ts: which services a user sees and may use. Rules on four layers (user,
-- department role, department, role) override the defaults of a service. A service is taken as its
-- query loads it for the user, with the rules that the query selects; display names are left out.
pub mod RoleChain
pub mod Context
pub mod Access
pub mod Calls
pub mod Layers
pub mod Precedence
pub mod Decisions
pub mod Rows
pub mod Answers
pub mod Agreement
pub mod Distances
mod Tests
use Prim.Native.Nat.{min}
use leader_product_api.Base.{
  ℕ, Bool, true, false, ◌&&◌, not, Option, none, some, List, [], ◌∷◌, ◌==◌, if◌then◌else◌, keep,
  some_of, is_empty,
}

pub data RuleField : Type 0 where
  visible enabled : RuleField

-- What the rules of every layer have; a null flag says nothing.
pub record RuleMatchBase : Type 0 where
  pub id : ℕ
  pub visible : Option Bool
  pub enabled : Option Bool

pub record UserRuleMatch : Type 0 where
  pub base : RuleMatchBase
  pub user_id : ℕ

pub record RoleRuleMatch : Type 0 where
  pub base : RuleMatchBase
  pub role_id : ℕ
  pub distance : ℕ

pub record DepartmentRuleMatch : Type 0 where
  pub base : RuleMatchBase
  pub department_id : ℕ

pub record DepartmentRoleRuleMatch : Type 0 where
  pub base : RuleMatchBase
  pub department_id : ℕ
  pub role_id : ℕ
  pub distance : ℕ

pub data Origin : Type 0 where
  default explicit : Origin

pub record LayerDecision (T : Type 0) : Type 0 where
  pub value : Bool
  pub origin : Origin
  pub matched_rules : List T

pub data Source : Type 0 where
  default role department department_role user : Source

pub record ResolvedFieldDecision : Type 0 where
  pub value : Bool
  pub source : Source

-- `rule[field]`
abbrev pub flag : RuleField → RuleMatchBase → Option Bool
flag visible r = r.visible
flag enabled r = r.enabled

abbrev pub is_flag : Bool → Option Bool → Bool
is_flag b none = false
is_flag true (some c) = c
is_flag false (some c) = not c

abbrev pub is_explicit : Option Bool → Bool
is_explicit none = false
is_explicit (some b) = true

abbrev pub max_safe_integer : ℕ
max_safe_integer = 9_007_199_254_740_991

-- `rules.reduce((value, rule) => Math.min(value, rule.distance), value)`
module _ {T : Type 0} (distance : T → ℕ) where
  unfoldable pub min_distance : ℕ → List T → ℕ
  min_distance value [] = value
  min_distance value (r ∷ rules) = min_distance (min value (distance r)) rules

-- The decision of a layer over its explicit rules, once those are chosen: one refusal is enough.
module _ {T : Type 0} (f : T → Option Bool) where
  abbrev pub decide_by : List T → LayerDecision T
  decide_by rules =
      if some_of (λ r. is_flag false (f r)) rules
      then record {
        value = false;
        origin = explicit;
        matched_rules = keep (λ r. is_flag false (f r)) rules;
      }
      else record {
        value = true;
        origin = explicit;
        matched_rules = keep (λ r. is_flag true (f r)) rules;
      }

  abbrev pub explicit_rules : List T → List T
  explicit_rules rules = keep (λ r. is_explicit (f r)) rules

  abbrev pub by_default : Bool → LayerDecision T
  by_default base = record { value = base; origin = default; matched_rules = [] }

  -- The layers without distances.
  unfoldable pub evaluate_flat : Bool → List T → LayerDecision T
  evaluate_flat base rules =
      if is_empty (explicit_rules rules) then by_default base else decide_by (explicit_rules rules)

  module _ (distance : T → ℕ) where
    abbrev pub nearest_rules : List T → List T
    nearest_rules rules =
        keep (λ r. distance r == min_distance distance max_safe_integer rules) rules

    -- The layers with distances: only the nearest explicit rules count.
    unfoldable pub evaluate_nearest : Bool → List T → LayerDecision T
    evaluate_nearest base rules =
        if is_empty (explicit_rules rules)
        then by_default base
        else decide_by (nearest_rules (explicit_rules rules))

abbrev pub evaluate_user_field : Bool → List UserRuleMatch → RuleField → LayerDecision UserRuleMatch
evaluate_user_field base rules field = evaluate_flat (λ r. flag field r.base) base rules

abbrev pub evaluate_department_field :
    Bool → List DepartmentRuleMatch → RuleField → LayerDecision DepartmentRuleMatch
evaluate_department_field base rules field = evaluate_flat (λ r. flag field r.base) base rules

abbrev pub evaluate_role_field : Bool → List RoleRuleMatch → RuleField → LayerDecision RoleRuleMatch
evaluate_role_field base rules field =
    evaluate_nearest (λ r. flag field r.base) (λ r. r.distance) base rules

abbrev pub evaluate_department_role_field :
    Bool → List DepartmentRoleRuleMatch → RuleField → LayerDecision DepartmentRoleRuleMatch
evaluate_department_role_field base rules field =
    evaluate_nearest (λ r. flag field r.base) (λ r. r.distance) base rules

abbrev pub if_explicit :
    {T : Type 0} → LayerDecision T → Source → ResolvedFieldDecision → ResolvedFieldDecision
if_explicit decision source other = elim decision.origin [
  | explicit ↦ record { value = decision.value; source = source }
  | default ↦ other
]

unfoldable pub resolve_final_field :
    Bool
    → LayerDecision UserRuleMatch
    → LayerDecision DepartmentRoleRuleMatch
    → LayerDecision DepartmentRuleMatch
    → LayerDecision RoleRuleMatch
    → ResolvedFieldDecision
resolve_final_field base users department_roles departments roles = if_explicit users user (
    if_explicit department_roles department_role (
      if_explicit departments department
        (if_explicit roles role (record { value = base; source = default }))))

pub record ServiceAccessDecision : Type 0 where
  pub visible : Bool
  pub enabled : Bool
  pub final_visible : ResolvedFieldDecision
  pub final_enabled : ResolvedFieldDecision
  pub user_visible : LayerDecision UserRuleMatch
  pub user_enabled : LayerDecision UserRuleMatch
  pub department_role_visible : LayerDecision DepartmentRoleRuleMatch
  pub department_role_enabled : LayerDecision DepartmentRoleRuleMatch
  pub role_visible : LayerDecision RoleRuleMatch
  pub role_enabled : LayerDecision RoleRuleMatch
  pub department_visible : LayerDecision DepartmentRuleMatch
  pub department_enabled : LayerDecision DepartmentRuleMatch

-- The rules of a service for a user, on each layer.
pub record Rules : Type 0 where
  pub users : List UserRuleMatch
  pub department_roles : List DepartmentRoleRuleMatch
  pub roles : List RoleRuleMatch
  pub departments : List DepartmentRuleMatch

unfoldable pub resolve_field : Bool → Rules → RuleField → ResolvedFieldDecision
unfolding resolve_final_field
resolve_field base rules field =
    resolve_final_field base (evaluate_user_field base rules.users field)
      (evaluate_department_role_field base rules.department_roles field)
      (evaluate_department_field base rules.departments field)
      (evaluate_role_field base rules.roles field)

unfoldable pub apply_rule_flags : (base_visible base_enabled : Bool) → Rules → ServiceAccessDecision
unfolding resolve_field
apply_rule_flags base_visible base_enabled rules =
    let final_visible = resolve_field base_visible rules visible in
    let raw_enabled = resolve_field base_enabled rules enabled in
    record {
      visible = final_visible.value;
      enabled = if final_visible.value then raw_enabled.value else false;
      final_visible = final_visible;
      final_enabled =
          if final_visible.value
          then raw_enabled
          else record { value = false; source = raw_enabled.source };
      user_visible = evaluate_user_field base_visible rules.users visible;
      user_enabled = evaluate_user_field base_enabled rules.users enabled;
      department_role_visible =
          evaluate_department_role_field base_visible rules.department_roles visible;
      department_role_enabled =
          evaluate_department_role_field base_enabled rules.department_roles enabled;
      role_visible = evaluate_role_field base_visible rules.roles visible;
      role_enabled = evaluate_role_field base_enabled rules.roles enabled;
      department_visible = evaluate_department_field base_visible rules.departments visible;
      department_enabled = evaluate_department_field base_enabled rules.departments enabled;
    }
