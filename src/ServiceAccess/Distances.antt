-- ===== src/ServiceAccess/Distances.antt =====
-- src/services/serviceAccess.ts: the role chains, and the distance recorded for each role.
use mathlib.Core.Path.{subst, sym}
use mathlib.Core.Option.{some-injective}
use leader_product_api.Base.{
  ℕ, suc, ◌≤◌, ◌≡◌, ◌≢◌, ◌⊎◌, refl, inl, inr, Bool, true, false, ◌&&◌, not, Option, none, some,
  List, [], ◌∷◌, arith, ltb, ◌==◌, if◌then◌else◌, length, All, Member, Bool-cases, Option-cases,
  count, Text, text_eq, text_eq_refl, is_empty,
}
use leader_product_api.ServiceAccess.RoleChain.{seen, IsLineage, walk-IsLineage}
use leader_product_api.ServiceAccess.Context.{
  Roles, RoleAssignment, role_chain, get_role_hierarchy_by_name, record_distance, role_distances,
  same_id, is_zero,
}

pub count-le : {A : Type 0} (p : A → Bool) (xs : List A) → count p xs ≤ length xs
count-le p [] = omega arith
count-le p (x ∷ xs) = ground (arith, count-le p xs)

pub same_id_refl : (a : ℕ) → same_id a a ≡ true
same_id_refl a = ground arith

module _ (roles : Roles) where
  open roles use {parent_role_id, parent_role_name, known_ids, known_names}

  -- The chain of a role is the role and its ancestors up to the first without a parent or met
  -- before, each once, where every role with a parent is stored.
  pub role_chain-IsLineage :
      (role_id : Option ℕ)
      → ((k p : ℕ) → parent_role_id k ≡ some p → Member k known_ids)
      → IsLineage same_id is_zero parent_role_id [] role_id (role_chain roles role_id)
  unfolding role_chain
  role_chain-IsLineage role_id stored =
      walk-IsLineage same_id is_zero parent_role_id same_id_refl known_ids stored
        (suc (length known_ids)) [] role_id
        (omega (arith, count-le (λ x. not (seen same_id x [])) known_ids))

  -- The same of the walk over the names.
  pub get_role_hierarchy_by_name-IsLineage :
      (name : Text)
      → ((k p : Text) → parent_role_name k ≡ some p → Member k known_names)
      → IsLineage text_eq is_empty parent_role_name []
          (some name)
          (get_role_hierarchy_by_name roles name)
  unfolding get_role_hierarchy_by_name
  get_role_hierarchy_by_name-IsLineage name stored =
      walk-IsLineage text_eq is_empty parent_role_name text_eq_refl known_names stored
        (suc (length known_names)) [] (some name)
        (omega (arith, count-le (λ x. not (seen text_eq x [])) known_names))

-- What is recorded for a role: `at` stands for it where `same`, and `other` otherwise.
abbrev chosen : (same : Bool) (x : ℕ) (at other : Option ℕ) → Option ℕ
chosen same x at other =
    if same && elim at [ none ↦ true | some prev ↦ ltb x prev ] then some x else other

chosen_closer : (x : ℕ) (at : Option ℕ) → (c : ℕ) × (chosen true x at at ≡ some c) × (c ≤ x)
chosen_closer x none = (x, refl, omega arith)
chosen_closer x (some p) = elim (Bool-cases (ltb x p)) [
  | inl e ↦ (x, rw e refl, omega arith)
  | inr e ↦ (p, rw e refl, ground arith)
]

chosen_kept :
    (x : ℕ) (at : Option ℕ) (c : ℕ)
    → at ≡ some c
    → (k : ℕ) × (chosen true x at at ≡ some k) × (k ≤ c)
chosen_kept x none c h = ground arith
chosen_kept x (some p) c h = elim (Bool-cases (ltb x p)) [
  | inl e ↦ (x, rw e refl, ground arith)
  | inr e ↦ (p, rw e refl, ground arith)
]

chosen_from :
    (same : Bool) (x : ℕ) (at other : Option ℕ) (d : ℕ)
    → chosen same x at other ≡ some d
    → (other ≡ some d) ⊎ ((same ≡ true) × (x ≡ d))
chosen_from false x at other d h = inl h
chosen_from true x none other d h = inr (refl, some-injective x d h)
chosen_from true x (some p) other d h = elim (Bool-cases (ltb x p)) [
  | inl e ↦ inr (refl, some-injective x d (rw e at h))
  | inr e ↦ inl (rw e at h)
]

module _ (a : RoleAssignment) (m : ℕ → Option ℕ) (id : ℕ) where
  closer : a.role_id ≡ id → (c : ℕ) × (record_distance a m id ≡ some c) × (c ≤ a.distance)
  closer e =
      subst (λ i. (c : ℕ) × (record_distance a m i ≡ some c) × (c ≤ a.distance)) e
        (rw (same_id_refl a.role_id) (chosen_closer a.distance (m a.role_id)))

  kept : (c : ℕ) → m id ≡ some c → (k : ℕ) × (record_distance a m id ≡ some k) × (k ≤ c)
  kept c h = elim (Bool-cases (id == a.role_id)) [
    | inl e ↦
        let same : a.role_id ≡ id = ground (arith, e) in
        subst (λ i. (k : ℕ) × (record_distance a m i ≡ some k) × (k ≤ c)) same
          (rw (same_id_refl a.role_id)
            (chosen_kept a.distance (m a.role_id) c (subst (λ i. m i ≡ some c) (sym same) h)))
    | inr e ↦ (c, rw e h, omega arith)
  ]

  from :
      (d : ℕ)
      → record_distance a m id ≡ some d
      → (m id ≡ some d) ⊎ ((a.role_id ≡ id) × (a.distance ≡ d))
  from d h = elim (chosen_from (id == a.role_id) a.distance (m a.role_id) (m id) d h) [
    | inl k ↦ inl k
    | inr (e, k) ↦ inr (ground (arith, e), k)
  ]

-- A distance of the assignments of a role, and none of them is less.
abbrev pub IsLeastDistance : List RoleAssignment → ℕ → ℕ → Type 0
IsLeastDistance assignments id d =
    ((a : RoleAssignment) × Member a assignments × (a.role_id ≡ id) × (a.distance ≡ d))
    × All (λ a. a.role_id ≡ id → d ≤ a.distance) assignments

-- From any recorded distances.
role_distances-some :
    (assignments : List RoleAssignment) (m : ℕ → Option ℕ) (id d : ℕ)
    → role_distances assignments m id ≡ some d
    → ((m id ≡ some d)
        ⊎ ((a : RoleAssignment) × Member a assignments × (a.role_id ≡ id) × (a.distance ≡ d)))
      × All (λ a. a.role_id ≡ id → d ≤ a.distance) assignments
      × ((c : ℕ) → m id ≡ some c → d ≤ c)
unfolding role_distances
role_distances-some [] m id d h = (inl h, tt, λ c k. ground (arith, h, k))
role_distances-some (a ∷ rest) m id d h =
    let (source, least, below) = role_distances-some rest (record_distance a m) id d h in
    (
      elim source [
        | inl k ↦ elim (from a m id d k) [ inl t ↦ inl t | inr (e, t) ↦ inr (a, inl refl, e, t) ]
        | inr (b, t, e, k) ↦ inr (b, inr t, e, k)
      ],
      ((λ e. let (c, k, le) = closer a m id e in let le2 = below c k in omega arith), least),
      λ c k. let (c2, k2, le) = kept a m id c k in let le2 = below c2 k2 in omega arith,
    )

role_distances-none :
    (assignments : List RoleAssignment) (m : ℕ → Option ℕ) (id : ℕ)
    → role_distances assignments m id ≡ none
    → (m id ≡ none) × All (λ a. a.role_id ≢ id) assignments
unfolding role_distances
role_distances-none [] m id h = (h, tt)
role_distances-none (a ∷ rest) m id h =
    let (missing, others) = role_distances-none rest (record_distance a m) id h in
    (
      elim (Option-cases (m id)) [ inl e ↦ e | inr (c, e) ↦ let (k, t, _) = kept a m id c e in cc ],
      ((λ e. let (c, k, _) = closer a m id e in cc), others),
    )

-- The distance recorded for a role is the least of those of its assignments, and a role without a
-- recorded distance has no assignment.
pub role_distances_least :
    (assignments : List RoleAssignment) (id : ℕ)
    → ((d : ℕ)
        → role_distances assignments (λ i. none) id ≡ some d
        → IsLeastDistance assignments id d)
      × (role_distances assignments (λ i. none) id ≡ none → All (λ a. a.role_id ≢ id) assignments)
role_distances_least assignments id = (
  λ d h.
      let (source, least, _) = role_distances-some assignments (λ i. none) id d h in
      (elim source [ inl k ↦ ground (arith, k) | inr t ↦ t ], least),
  λ h. (role_distances-none assignments (λ i. none) id h).1,
)
