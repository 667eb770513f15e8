-- ===== src/ServiceAccess/Decisions.antt =====
-- src/services/serviceAccess.ts: the decision on one service, and the reasons given for it.
use mathlib.Core.Path.{subst, sym, ap}
use leader_product_api.Base.{
  ◌≡◌, ◌↔◌, ◌⊎◌, refl, inl, inr, Bool, true, false, ◌&&◌, Option, some, [], arith, if◌then◌else◌,
  Bool-cases, Member,
}
use leader_product_api.ServiceAccess.{
  RuleField, visible, enabled, flag, Rules, resolve_field, ResolvedFieldDecision, UserRuleMatch,
  explicit_rules, evaluate_flat, Source,
}
use leader_product_api.ServiceAccess.Layers.{refusal-explicit, found_refused, Member-is_empty}
use leader_product_api.ServiceAccess.Context.{UserAccessContext}
use leader_product_api.ServiceAccess.Access.{
  Service, decide, explain, build_reason_codes, rules_for,
}

-- A rule for the user that refuses a field settles it, whatever the rules of the other layers say.
pub resolve_field_user_refusal :
    (base : Bool) (rules : Rules) (field : RuleField) (r : UserRuleMatch)
    → Member r rules.users
    → flag field r.base ≡ some false
    → resolve_field base rules field ≡ record { value = false; source = Source.user }
unfolding resolve_field evaluate_flat
resolve_field_user_refusal base rules field r m h =
    let f : UserRuleMatch → Option Bool = λ u. flag field u.base in
    let k = refusal-explicit f rules.users r m h in
    rw
      (
        Member-is_empty (explicit_rules f rules.users) r k,
        found_refused f (explicit_rules f rules.users) r k h,
      )
      refl

-- What is decided for a context and a service, in the words of the result.
abbrev pub MayUse : UserAccessContext → Service → Type 0
MayUse ctx s =
    (ctx.is_admin ≡ true)
    ⊎ ((ctx.is_employee ≡ true) × ((decide ctx s).visible ≡ true) × ((decide ctx s).enabled ≡ true))

-- The same of a service that is active.
abbrev pub MayUseActive : UserAccessContext → Service → Type 0
MayUseActive ctx s =
    (ctx.is_admin ≡ true)
    ⊎ ((ctx.is_employee ≡ true)
        × (s.is_active ≡ true)
        × ((decide ctx s).visible ≡ true)
        × ((decide ctx s).enabled ≡ true))

enabled-visible : (v r : Bool) → (if v then r else false) ≡ true → v ≡ true
enabled-visible v r h = ground arith

hidden-disabled : (v r : Bool) → v ≡ false → (if v then r else false) ≡ false
hidden-disabled v r h = ground arith

-- A decision that enables a service shows it too, and one that a rule of the user refuses to show
-- does neither.
pub decide-safe :
    (ctx : UserAccessContext) (s : Service)
    → ((decide ctx s).enabled ≡ true → (decide ctx s).visible ≡ true)
      × ((r : UserRuleMatch)
          → Member r s.user_access
          → r.base.visible ≡ some false
          → ((decide ctx s).visible ≡ false) × ((decide ctx s).enabled ≡ false))
unfolding decide
decide-safe ctx s = (
  enabled-visible (shown visible_default visible).value (shown enabled_default enabled).value,
  λ r m h.
      let hidden =
        ap (λ d. d.value)
          (resolve_field_user_refusal visible_default (rules_for ctx s) visible r m h) in
      (
        hidden,
        hidden-disabled (shown visible_default visible).value (shown enabled_default enabled).value
            hidden,
      ),
)
  where
    visible_default : Bool
    visible_default = s.is_active && s.default_visible

    enabled_default : Bool
    enabled_default = s.is_active && s.default_enabled

    shown : Bool → RuleField → ResolvedFieldDecision
    shown base field = resolve_field base (rules_for ctx s) field

no_reason_iff :
    (a e act v en : Bool)
    → build_reason_codes e a act (if e then v else false) (if e then en else false) ≡ []
      ↔ ((a ≡ true) ⊎ ((e ≡ true) × (act ≡ true) × (v ≡ true) × (en ≡ true)))
unfolding build_reason_codes
no_reason_iff true e act v en = (λ h. inl refl, λ h. refl)
no_reason_iff false false act v en =
    (λ h. ground (arith, h), λ h. elim h [ inl k ↦ ground (arith, k) | inr k ↦ ground (arith, k) ])
no_reason_iff false true false v en =
    (λ h. ground (arith, h), λ h. elim h [ inl k ↦ ground (arith, k) | inr k ↦ ground (arith, k) ])
no_reason_iff false true true false en =
    (λ h. ground (arith, h), λ h. elim h [ inl k ↦ ground (arith, k) | inr k ↦ ground (arith, k) ])
no_reason_iff false true true true false =
    (λ h. ground (arith, h), λ h. elim h [ inl k ↦ ground (arith, k) | inr k ↦ ground (arith, k) ])
no_reason_iff false true true true true = (λ h. inr (refl, refl, refl, refl), λ h. refl)

-- The explanation gives no reason against access exactly where the user is an administrator, or an
-- employee to whom an active service is shown and enabled.
pub explain_no_reason_iff :
    (ctx : UserAccessContext) (s : Service)
    → (explain ctx s).access.reason_codes ≡ [] ↔ MayUseActive ctx s
unfolding explain
explain_no_reason_iff ctx s =
    subst (λ codes. codes ≡ [] ↔ MayUseActive ctx s) (sym reasons)
      (no_reason_iff ctx.is_admin ctx.is_employee s.is_active (decide ctx s).visible
        (decide ctx s).enabled)
  where
    reasons :
        (explain ctx s).access.reason_codes
        ≡ build_reason_codes ctx.is_employee ctx.is_admin s.is_active
            (if ctx.is_employee then (decide ctx s).visible else false)
            (if ctx.is_employee then (decide ctx s).enabled else false)
    reasons = elim (Bool-cases ctx.is_admin) [
      | inl e ↦ rw (e, build_reason_codes) refl
      | inr e ↦ rw e refl
    ]
