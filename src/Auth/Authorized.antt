-- ===== src/Auth/Authorized.antt =====
-- src/middleware/auth.ts: the requests that pass the check of permissions.
use mathlib.Core.Path.{subst, sym, ap}
use leader_product_api.Base.{
  ℕ, suc, ◌≡◌, refl, inl, inr, ◌⊎◌, ◌↔◌, ◌∙◌, Bool, true, ◌||◌, not, some, List, [], ◌∷◌, ◌++◌, map,
  length, arith, Text, text_eq, text_eq→eq, text_eq_refl, codes, Member, All, Bool-cases,
  Option-cases, is_empty, if◌then◌else◌,
}
use leader_product_api.ServiceAccess.RoleChain.{seen, walk-IsLineage}
use leader_product_api.ServiceAccess.Context.{Roles, same_id, is_zero}
use leader_product_api.ServiceAccess.Distances.{count-le, same_id_refl}
use leader_product_api.Auth.Permissions.{
  RolePermission, RoleUser, TokenUser, Directory, Mode, all, any, passes, forbidden, seed_roles,
  role_hierarchy, collect_chain, collect_chains, compute_user_permissions, has_permissions,
  authorize_permissions,
}
use leader_product_api.Auth.Hierarchy.{Inherits, seen-Member, Member-seen, lineage-Inherits}

-- Every role that has a parent is stored.
pub record IsComplete (roles : Roles) : Type 0 where
  pub ids : (k p : ℕ) → roles.parent_role_id k ≡ some p → Member k roles.known_ids
  pub names : (k p : Text) → roles.parent_role_name k ≡ some p → Member k roles.known_names

verdict_iff :
    {A B C : Type 0} (a b c : Bool)
    → (a ≡ true) ↔ A
    → (b ≡ true) ↔ B
    → (c ≡ true) ↔ C
    → ((if a || b then passes else if c then passes else forbidden) ≡ passes) ↔ ((A ⊎ B) ⊎ C)
verdict_iff a b c f g h = (
  λ k. elim (Bool-cases a) [
    | inl e ↦ inl (inl (f.0 e))
    | inr na ↦ elim (Bool-cases b) [
      | inl e ↦ inl (inr (g.0 e))
      | inr nb ↦ inr (h.0 (ground (arith, na, nb, k)))
    ]
  ],
  λ v. elim v [
    | inl (inl x) ↦ rw (f.1 x) refl
    | inl (inr x) ↦ let met = g.1 x in ground (arith, met)
    | inr x ↦ let met = h.1 x in ground (arith, met)
  ],
)

-- A permission of a role that one of the user's roles inherits from.
abbrev pub HasPermission : Directory → ℕ → List RolePermission → Text → Type 0
HasPermission d user_id rows p =
    (u : RoleUser) × (seed : ℕ) × (r : RolePermission) × (d.find_user user_id ≡ some u)
    × Member seed (seed_roles u)
    × Inherits is_zero d.roles.parent_role_id seed r.role_id
    × Member r rows
    × (r.permission ≡ p)

abbrev pub IsGranted : Mode → List Text → (Text → Type 0) → Type 0
IsGranted all required Has = All Has required
IsGranted any required Has = (p : Text) × Member p required × Has p

module _ (d : Directory) (stored : IsComplete d.roles) where
  role_hierarchy-Inherits :
      (name r : Text)
      → (seen text_eq r (role_hierarchy d name) ≡ true)
        ↔ Inherits is_empty d.roles.parent_role_name name r
  unfolding role_hierarchy
  role_hierarchy-Inherits name r =
      lineage-Inherits text_eq text_eq_refl text_eq→eq is_empty d.roles.parent_role_name name r
        (role_hierarchy d name)
        (walk-IsLineage text_eq is_empty d.roles.parent_role_name text_eq_refl d.roles.known_names
          stored.names (suc (length d.roles.known_names)) [] (some name)
          (omega (arith, count-le (λ x. not (seen text_eq x [])) d.roles.known_names)))

  same_id→≡ : (a b : ℕ) → same_id a b ≡ true → a ≡ b
  same_id→≡ a b h = ground (arith, h)

  collect_chain-Inherits :
      (id r : ℕ)
      → (seen same_id r (collect_chain d id) ≡ true) ↔ Inherits is_zero d.roles.parent_role_id id r
  unfolding collect_chain
  collect_chain-Inherits id r =
      lineage-Inherits same_id same_id_refl same_id→≡ is_zero d.roles.parent_role_id id r
        (collect_chain d id)
        (walk-IsLineage same_id is_zero d.roles.parent_role_id same_id_refl d.roles.known_ids
          stored.ids (suc (length d.roles.known_ids)) [] (some id)
          (omega (arith, count-le (λ x. not (seen same_id x [])) d.roles.known_ids)))

  seen-append :
      (k : ℕ) (xs ys : List ℕ)
      → seen same_id k (xs ++ ys) ≡ (seen same_id k xs || seen same_id k ys)
  unfolding seen
  seen-append k [] ys = refl
  seen-append k (x ∷ xs) ys = ground (arith, seen-append k xs ys)

  collect_chains-Inherits :
      (seeds : List ℕ) (r : ℕ)
      → (seen same_id r (collect_chains d seeds) ≡ true)
        ↔ ((seed : ℕ) × Member seed seeds × Inherits is_zero d.roles.parent_role_id seed r)
  unfolding collect_chains seen
  collect_chains-Inherits [] r = (λ h. ground arith, λ (seed, m, a). elim m [ ])
  collect_chains-Inherits (s ∷ seeds) r =
      let apart = seen-append r (collect_chain d s) (collect_chains d seeds) in
      (
        λ h. elim (Bool-cases (seen same_id r (collect_chain d s))) [
          | inl e ↦ (s, inl refl, (collect_chain-Inherits s r).0 e)
          | inr e ↦
              let (seed, m, a) =
                (collect_chains-Inherits seeds r).0 (ground (arith, apart, e, h)) in
              (seed, inr m, a)
        ],
        λ (seed, m, a). elim m [
          | inl e ↦
              let met =
                (collect_chain-Inherits s r).1
                  (subst (λ z. Inherits is_zero d.roles.parent_role_id z r) e a) in
              ground (arith, apart, met)
          | inr n ↦
              let met = (collect_chains-Inherits seeds r).1 (seed, n, a) in
              ground (arith, apart, met)
        ],
      )

  Member-map :
      (p : Text) (rows : List RolePermission)
      → Member p (map (λ r. r.permission) rows)
        ↔ ((r : RolePermission) × Member r rows × (r.permission ≡ p))
  Member-map p [] = (λ m. elim m [ ], λ (r, m, e). elim m [ ])
  Member-map p (x ∷ rows) = (
    λ m. elim m [
      | inl e ↦ (x, inl refl, sym e)
      | inr n ↦ let (r, k, e) = (Member-map p rows).0 n in (r, inr k, e)
    ],
    λ (r, m, e). elim m [
      | inl same ↦ inl (sym e ∙ ap (λ z. z.permission) same)
      | inr n ↦ inr ((Member-map p rows).1 (r, n, e))
    ],
  )

  -- The permissions of the roles with the ids.
  abbrev permissions_of : List ℕ → List RolePermission → List Text
  permissions_of ids rows =
      map (λ r. r.permission) (d.find_many (λ r. seen same_id r.role_id ids) rows)

  permissions_of_iff :
      (ids : List ℕ) (rows : List RolePermission) (p : Text)
      → (seen text_eq p (if is_empty ids then [] else permissions_of ids rows) ≡ true) ↔ (
          (r : RolePermission) × (seen same_id r.role_id ids ≡ true)
          × Member r rows
          × (r.permission ≡ p))
  unfolding seen
  permissions_of_iff [] rows p = (λ h. ground arith, λ (r, s, m, e). ground arith)
  permissions_of_iff (id ∷ ids) rows p = (
    λ h.
        let (r, m, e) =
          (Member-map p _).0
            (seen-Member text_eq text_eq_refl text_eq→eq p (permissions_of (id ∷ ids) rows) h) in
        let (n, s) = d.find_many_found (λ x. seen same_id x.role_id (id ∷ ids)) rows r m in
        (r, s, n, e),
    λ (r, s, m, e). Member-seen text_eq text_eq_refl text_eq→eq p (permissions_of (id ∷ ids) rows) (
        (Member-map p _).1
          (r, d.find_many_all (λ x. seen same_id x.role_id (id ∷ ids)) rows r m s, e)),
  )

  HasPermission-iff :
      (user_id : ℕ) (rows : List RolePermission) (p : Text)
      → (seen text_eq p (compute_user_permissions d user_id rows) ≡ true)
        ↔ HasPermission d user_id rows p
  unfolding compute_user_permissions seen
  HasPermission-iff user_id rows p = (
    λ h. elim (Option-cases (d.find_user user_id)) [
      | inl e ↦ let nothing = rw (e, compute_user_permissions, seen) at h in ground (arith, nothing)
      | inr (u, e) ↦
          let (r, s, m, k) =
            (permissions_of_iff (collect_chains d (seed_roles u)) rows p).0
              (subst (λ z. seen text_eq p z ≡ true) (of_user u e) h) in
          let (seed, n, a) = (collect_chains-Inherits (seed_roles u) r.role_id).0 s in
          (u, seed, r, e, n, a, m, k)
    ],
    λ (u, seed, r, e, n, a, m, k).
        subst (λ z. seen text_eq p z ≡ true) (sym (of_user u e))
          ((permissions_of_iff (collect_chains d (seed_roles u)) rows p).1
            (r, (collect_chains-Inherits (seed_roles u) r.role_id).1 (seed, n, a), m, k)),
  )
    where
      of_user :
          (u : RoleUser)
          → d.find_user user_id ≡ some u
          → compute_user_permissions d user_id rows ≡ (
              if is_empty (collect_chains d (seed_roles u))
              then []
              else permissions_of (collect_chains d (seed_roles u)) rows)
      of_user u e = rw (e, compute_user_permissions) refl

  granted_iff :
      (mode : Mode) (required set : List Text) (Has : Text → Type 0)
      → ((p : Text) → (seen text_eq p set ≡ true) ↔ Has p)
      → (has_permissions d mode required set ≡ true) ↔ IsGranted mode required Has
  granted_iff all [] set Has h = (λ k. tt, λ k. refl)
  granted_iff all (p ∷ ps) set Has h =
      let rest = granted_iff all ps set Has h in
      (
        λ k. ((h p).0 (ground arith), rest.0 (ground arith)),
        λ (a, b). let first = (h p).1 a in let others = rest.1 b in ground (arith, first, others),
      )
  granted_iff any [] set Has h = (λ k. ground arith, λ (p, m, a). elim m [ ])
  granted_iff any (q ∷ ps) set Has h =
      let rest = granted_iff any ps set Has h in
      (
        λ k. elim (Bool-cases (seen text_eq q set)) [
          | inl e ↦ (q, inl refl, (h q).0 e)
          | inr e ↦ let (p, m, a) = rest.0 (ground (arith, e, k)) in (p, inr m, a)
        ],
        λ (p, m, a). elim m [
          | inl e ↦ let met = (h q).1 (subst Has e a) in ground (arith, met)
          | inr n ↦ let met = rest.1 (p, n, a) in ground (arith, met)
        ],
      )

  -- A request passes if and only if the role of its token inherits from an administrator's, or the
  -- user has all of the required permissions, or in the other mode any of them, by a role that
  -- one of his roles inherits from, where every role that has a parent is stored.
  pub authorize_permissions_iff :
      (required : List Text) (mode : Mode) (t : TokenUser) (rows : List RolePermission)
      → (authorize_permissions d required mode (some t) rows ≡ passes) ↔ (
          (Inherits is_empty d.roles.parent_role_name t.role (codes "admin")
            ⊎ Inherits is_empty d.roles.parent_role_name t.role (codes "administrator"))
          ⊎ IsGranted mode required (HasPermission d t.user_id rows))
  unfolding authorize_permissions
  authorize_permissions_iff required mode t rows =
      let by_admin = role_hierarchy-Inherits t.role (codes "admin") in
      let by_administrator = role_hierarchy-Inherits t.role (codes "administrator") in
      let granted =
        granted_iff mode required (compute_user_permissions d t.user_id rows)
          (HasPermission d t.user_id rows) (HasPermission-iff t.user_id rows) in
      verdict_iff (seen text_eq (codes "admin") (role_hierarchy d t.role))
        (seen text_eq (codes "administrator") (role_hierarchy d t.role))
        (has_permissions d mode required (compute_user_permissions d t.user_id rows)) by_admin
        by_administrator granted
