-- ===== src/ServiceAccess/Precedence.antt =====
-- src/services/serviceAccess.ts, resolveFinalField: the layer that decides on a field.
use leader_product_api.Base.{
  ◌≡◌, ◌⊎◌, refl, inl, inr, Bool, true, false, Option, none, List, [], ◌∷◌, arith, All, Member,
  is_empty, some_of, Bool-cases, ℕ,
}
use leader_product_api.ServiceAccess.{
  RuleField, flag, is_flag, is_explicit, explicit_rules, nearest_rules, Rules, RuleMatchBase,
  LayerDecision, evaluate_flat, evaluate_nearest, resolve_field, Source, Origin,
  evaluate_user_field, evaluate_role_field, evaluate_department_field,
  evaluate_department_role_field,
}
use leader_product_api.ServiceAccess.Layers.{explicit_empty}

abbrev pub IsSilent : {T : Type 0} → (T → Option Bool) → List T → Type 0
IsSilent f rules = All (λ r. f r ≡ none) rules

abbrev pub Speaks : {T : Type 0} → (T → Option Bool) → List T → Type 0
Speaks f rules = (r : _) × Member r rules × (is_explicit (f r) ≡ true)

-- A layer is silent, or one of its rules speaks and its decision is explicit.
abbrev IsSettled : {T : Type 0} → (T → Option Bool) → List T → LayerDecision T → Type 0
IsSettled f rules d =
    ((d.origin ≡ Origin.default) × IsSilent f rules)
    ⊎ ((d.origin ≡ Origin.explicit) × Speaks f rules)

module _ {T : Type 0} (f : T → Option Bool) where
  explicit_found : (rules : List T) → is_empty (explicit_rules f rules) ≡ false → Speaks f rules
  explicit_found [] h = ground arith
  explicit_found (x ∷ xs) h = elim (Bool-cases (is_explicit (f x))) [
    | inl e ↦ (x, inl refl, e)
    | inr e ↦ let (r, m, k) = explicit_found xs (rw e at h) in (r, inr m, k)
  ]

  evaluate_flat-IsSettled :
      (base : Bool) (rules : List T) → IsSettled f rules (evaluate_flat f base rules)
  unfolding evaluate_flat
  evaluate_flat-IsSettled base rules = elim (Bool-cases (is_empty (explicit_rules f rules))) [
    | inl e ↦ inl (rw e refl, explicit_empty f rules e)
    | inr e ↦ inr (
      elim (Bool-cases (some_of (λ r. is_flag false (f r)) (explicit_rules f rules))) [
        | inl t ↦ rw (e, t) refl
        | inr t ↦ rw (e, t) refl
      ],
      explicit_found rules e,
    )
  ]

  evaluate_nearest-IsSettled :
      (distance : T → ℕ) (base : Bool) (rules : List T)
      → IsSettled f rules (evaluate_nearest f distance base rules)
  unfolding evaluate_nearest
  evaluate_nearest-IsSettled distance base rules =
      elim (Bool-cases (is_empty (explicit_rules f rules))) [
        | inl e ↦ inl (rw e refl, explicit_empty f rules e)
        | inr e ↦ inr (
          elim (Bool-cases (
              some_of (λ r. is_flag false (f r))
                (nearest_rules f distance (explicit_rules f rules)))) [
                  | inl t ↦ rw (e, t) refl
                  | inr t ↦ rw (e, t) refl
                ],
          explicit_found rules e,
        )
      ]

-- The flag of a rule of any layer.
abbrev pub flag_of : {T : Type 0} → (T → RuleMatchBase) → RuleField → T → Option Bool
flag_of base field r = flag field (base r)

module _ (base : Bool) (rules : Rules) (field : RuleField) where
  abbrev pub IsSilentBelow : Source → Type 0
  IsSilentBelow Source.user = Unit
  IsSilentBelow Source.department_role = IsSilent (λ r. flag field r.base) rules.users
  IsSilentBelow Source.department =
      IsSilent (λ r. flag field r.base) rules.users
      × IsSilent (λ r. flag field r.base) rules.department_roles
  IsSilentBelow Source.role =
      IsSilent (λ r. flag field r.base) rules.users
      × IsSilent (λ r. flag field r.base) rules.department_roles
      × IsSilent (λ r. flag field r.base) rules.departments
  IsSilentBelow Source.default =
      IsSilent (λ r. flag field r.base) rules.users
      × IsSilent (λ r. flag field r.base) rules.department_roles
      × IsSilent (λ r. flag field r.base) rules.departments
      × IsSilent (λ r. flag field r.base) rules.roles

  -- The decision is the one of the named layer, a rule of that layer speaks on the field, and the
  -- layers before it are silent.
  pub IsRuling : Source → Bool → Type 0
  IsRuling Source.user value =
      Speaks (λ r. flag field r.base) rules.users
      × (value ≡ (evaluate_user_field base rules.users field).value)
  IsRuling Source.department_role value =
      Speaks (λ r. flag field r.base) rules.department_roles
      × (value ≡ (evaluate_department_role_field base rules.department_roles field).value)
  IsRuling Source.department value =
      Speaks (λ r. flag field r.base) rules.departments
      × (value ≡ (evaluate_department_field base rules.departments field).value)
  IsRuling Source.role value =
      Speaks (λ r. flag field r.base) rules.roles
      × (value ≡ (evaluate_role_field base rules.roles field).value)
  IsRuling Source.default value = value ≡ base

  -- Whatever the rules of a service are, the first layer with a rule that speaks on a field decides
  -- on it, in the order user, department role, department, role, and the default where none speaks.
  pub resolve_field_precedence :
      IsSilentBelow (resolve_field base rules field).source
      × IsRuling (resolve_field base rules field).source (resolve_field base rules field).value
  unfolding resolve_field IsRuling
  resolve_field_precedence =
      elim (evaluate_flat-IsSettled (λ r. flag field r.base) base rules.users) [
        | inr (e, s) ↦ rw e (tt, (s, refl))
        | inl (e1, q1) ↦
            rw e1
              (elim (evaluate_nearest-IsSettled (λ r. flag field r.base) (λ r. r.distance) base
                rules.department_roles) [
                  | inr (e, s) ↦ rw e (q1, (s, refl))
                  | inl (e2, q2) ↦
                      rw e2
                        (elim (evaluate_flat-IsSettled (λ r. flag field r.base) base
                          rules.departments) [
                            | inr (e, s) ↦ rw e ((q1, q2), (s, refl))
                            | inl (e3, q3) ↦
                                rw e3
                                  (elim (evaluate_nearest-IsSettled (λ r. flag field r.base)
                                    (λ r. r.distance) base rules.roles) [
                                      | inr (e, s) ↦ rw e ((q1, q2, q3), (s, refl))
                                      | inl (e4, q4) ↦ rw e4 ((q1, q2, q3, q4), refl)
                                    ])
                          ])
                ])
      ]
