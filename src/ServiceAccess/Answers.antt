-- ===== src/ServiceAccess/Answers.antt =====
-- src/services/serviceAccess.ts, resolveServiceAccessForUser, and src/middleware/serviceAccess.ts:
-- what a caller is answered.
use mathlib.Core.Path.{subst, sym, ap}
use mathlib.Core.Option.{some-injective}
use leader_product_api.Base.{
  ℕ, suc, ◌∙◌, ◌≡◌, ◌↔◌, ◌⊎◌, refl, inl, inr, Bool, true, false, ◌||◌, not, none, some, arith,
  if◌then◌else◌, Bool-cases, Option-cases, Text,
}
use leader_product_api.ServiceAccess.Context.{UserAccessContext, AccessUser}
use leader_product_api.ServiceAccess.Access.{Service, decide, explain}
use leader_product_api.ServiceAccess.Calls.{
  Queries, resolve_service_access_for_user, authorize_service_access, found, missing,
  service_not_found, next, forbidden, employees_only, resolved, Resolved,
  explain_service_access_for_user, context_of, Response,
}
use leader_product_api.ServiceAccess.Decisions.{MayUse}

-- The answer of the middleware to a request whose user and service are found.
abbrev answer : Resolved → Response
answer r =
    if not r.is_employee
    then employees_only
    else if not r.visible || not r.enabled
    then forbidden
    else next

-- What the resolution makes of the flags of a context and of a decision.
abbrev pub resolution : (a e v en : Bool) → Service → Resolved
resolution a e v en s =
    if a
    then record { service = s; visible = true; enabled = true; is_employee = true }
    else if not e
    then record { service = s; visible = false; enabled = false; is_employee = false }
    else record { service = s; visible = v; enabled = en; is_employee = true }

answer_iff :
    (a e v en : Bool) (s : Service)
    → answer (resolution a e v en s) ≡ next ↔ ((a ≡ true) ⊎ ((e ≡ true) × (v ≡ true) × (en ≡ true)))
answer_iff true e v en s = (λ h. inl refl, λ h. refl)
answer_iff false false v en s =
    (λ h. ground (arith, h), λ h. elim h [ inl k ↦ ground (arith, k) | inr k ↦ ground (arith, k) ])
answer_iff false true false en s =
    (λ h. ground (arith, h), λ h. elim h [ inl k ↦ ground (arith, k) | inr k ↦ ground (arith, k) ])
answer_iff false true true false s =
    (λ h. ground (arith, h), λ h. elim h [ inl k ↦ ground (arith, k) | inr k ↦ ground (arith, k) ])
answer_iff false true true true s = (λ h. inr (refl, refl, refl), λ h. refl)

pub resolved-explain :
    (q : Queries) (ctx : UserAccessContext) (s : Service)
    → resolved q (explain ctx s)
      ≡ resolution ctx.is_admin ctx.is_employee (decide ctx s).visible (decide ctx s).enabled s
unfolding explain
resolved-explain q ctx s = elim (Bool-cases ctx.is_admin) [
  | inl e ↦ rw e refl
  | inr e ↦ elim (Bool-cases ctx.is_employee) [ inl t ↦ rw (e, t) refl | inr t ↦ rw (e, t) refl ]
]

module _ (q : Queries) (n : ℕ) (user : AccessUser)
    (user_found : q.find_user (suc n) ≡ some user) where
  pub resolved_found :
      (key : Text) (s : Service)
      → q.find_service (context_of q user) key ≡ some s
      → resolve_service_access_for_user q (suc n) key
        ≡ found (resolved q (explain (context_of q user) s))
  unfolding resolve_service_access_for_user explain_service_access_for_user
  resolved_found key s h = rw (explained, resolve_service_access_for_user) refl
    where
      explained :
          explain_service_access_for_user q (suc n) key ≡ found (explain (context_of q user) s)
      explained = rw (user_found, explain_service_access_for_user) (rw h refl)

  resolved_missing :
      (key : Text)
      → q.find_service (context_of q user) key ≡ none
      → resolve_service_access_for_user q (suc n) key ≡ missing
  unfolding resolve_service_access_for_user explain_service_access_for_user
  resolved_missing key h = rw (explained, resolve_service_access_for_user) refl
    where
      explained : explain_service_access_for_user q (suc n) key ≡ missing
      explained = rw (user_found, explain_service_access_for_user) (rw h refl)

  answer_found :
      (key : Text) (s : Service)
      → q.find_service (context_of q user) key ≡ some s
      → authorize_service_access q key (some (suc n))
        ≡ answer (resolved q (explain (context_of q user) s))
  unfolding authorize_service_access
  answer_found key s h = rw (resolved_found key s h, authorize_service_access) refl

  -- The middleware lets a signed-in user pass exactly where the service exists and the user is an
  -- administrator, or an employee to whom it is shown and enabled.
  pub authorize_iff :
      (key : Text)
      → authorize_service_access q key (some (suc n)) ≡ next ↔ (
          (s : Service) × (q.find_service (context_of q user) key ≡ some s)
          × MayUse (context_of q user) s)
  unfolding authorize_service_access
  authorize_iff key = elim (Option-cases (q.find_service (context_of q user) key)) [
    | inl e ↦
        let refused : authorize_service_access q key (some (suc n)) ≡ service_not_found =
          rw (resolved_missing key e, authorize_service_access) refl in
        ((λ h. cc), (λ h. cc))
    | inr (s, e) ↦
        let by_flags = ap answer (resolved-explain q (context_of q user) s) in
        let (there, back) =
          answer_iff (context_of q user).is_admin (context_of q user).is_employee
            (decide (context_of q user) s).visible (decide (context_of q user) s).enabled s in
        (
          (λ h. (s, e, there (sym by_flags ∙ (sym (answer_found key s e) ∙ h)))),
          (λ o.
              let same : s ≡ o.0 = some-injective s o.0 (sym e ∙ o.1) in
              answer_found key s e
              ∙ (by_flags ∙ back (subst (λ z. MayUse (context_of q user) z) (sym same) o.2))),
        )
  ]
