-- ===== src/Auth/Hierarchy.antt =====
-- src/middleware/auth.ts: the roles that a role inherits from, and those that the walk meets.
use mathlib.Core.Path.{subst, sym}
use leader_product_api.Base.{
  ◌≡◌, refl, inl, inr, ◌⊎◌, ◌↔◌, ◌∙◌, Bool, true, false, Option, some, List, [], ◌∷◌, arith, Member,
  Bool-cases, Option-cases,
}
use leader_product_api.ServiceAccess.RoleChain.{seen, IsLineage}

-- A key that is reached over parents, none of them falsy.
pub data Inherits {K : Type 0} (is_falsy : K → Bool) (parent : K → Option K) : K → K → Type 0 where
  itself : {k : K} → is_falsy k ≡ false → Inherits is_falsy parent k k
  from_parent :
      {k p r : K}
      → is_falsy k ≡ false
      → parent k ≡ some p
      → Inherits is_falsy parent p r
      → Inherits is_falsy parent k r

module _ {K : Type 0} (eq : K → K → Bool) (eq_refl : (a : K) → eq a a ≡ true)
    (eq→≡ : (a b : K) → eq a b ≡ true → a ≡ b) where
  pub seen-Member : (k : K) (xs : List K) → seen eq k xs ≡ true → Member k xs
  unfolding seen
  seen-Member k [] h = ground arith
  seen-Member k (x ∷ xs) h = elim (Bool-cases (eq x k)) [
    | inl e ↦ inl (sym (eq→≡ x k e))
    | inr e ↦ inr (seen-Member k xs (ground (arith, e, h)))
  ]

  pub Member-seen : (k : K) (xs : List K) → Member k xs → seen eq k xs ≡ true
  unfolding seen
  Member-seen k [] m = elim m [ ]
  Member-seen k (x ∷ xs) (inl e) = rw (subst (λ z. eq z k ≡ true) e (eq_refl k)) refl
  Member-seen k (x ∷ xs) (inr m) = ground (arith, Member-seen k xs m)

  module _ (is_falsy : K → Bool) (parent : K → Option K) where
    lineage_sound :
        (visited : List K) (k r : K) (ks : List K)
        → IsLineage eq is_falsy parent visited (some k) ks
        → Member r ks
        → Inherits is_falsy parent k r
    unfolding IsLineage
    lineage_sound visited k r [] h m = elim m [ ]
    lineage_sound visited k r (x ∷ ks) (e, s, rest) (inl same) =
        subst (Inherits is_falsy parent k) (sym (same ∙ e)) (itself (ground arith))
    lineage_sound visited k r (x ∷ ks) (e, s, rest) (inr m) = elim (Option-cases (parent k)) [
      | inl t ↦
          let ends : ks ≡ [] =
            subst (λ z. IsLineage eq is_falsy parent (k ∷ visited) z ks) t rest in
          elim (subst (Member r) ends m) [ ]
      | inr (p, t) ↦ from_parent (ground arith) t (
          lineage_sound (k ∷ visited) p r ks
            (subst (λ z. IsLineage eq is_falsy parent (k ∷ visited) z ks) t rest) m)
    ]

    starts : {k r : K} → Inherits is_falsy parent k r → is_falsy k ≡ false
    starts (itself f) = f
    starts (from_parent f t up) = f

    -- The key that a walk goes on with is met by it or was seen before.
    next_met :
        (visited : List K) (p : K) (ks : List K)
        → IsLineage eq is_falsy parent visited (some p) ks
        → is_falsy p ≡ false
        → Member p ks ⊎ Member p visited
    unfolding IsLineage
    next_met visited p [] h f = inr (seen-Member p visited (ground (arith, h, f)))
    next_met visited p (y ∷ ks) (e, s, rest) f = inl (inl (sym e))

    head_met :
        (k : K) (ks : List K)
        → IsLineage eq is_falsy parent [] (some k) ks
        → is_falsy k ≡ false
        → Member k ks
    head_met k ks h f = elim (next_met [] k ks h f) [ inl m ↦ m | inr gone ↦ elim gone [ ] ]

    -- A key of the lineage has its parent there, or among the keys seen before.
    lineage_closed :
        (visited : List K) (k x p : K) (ks : List K)
        → IsLineage eq is_falsy parent visited (some k) ks
        → Member x ks
        → parent x ≡ some p
        → is_falsy p ≡ false
        → Member p ks ⊎ Member p visited
    unfolding IsLineage
    lineage_closed visited k x p [] h m t f = elim m [ ]
    lineage_closed visited k x p (y ∷ ks) (e, s, rest) m t f = elim m [
      | inl same ↦
          let here : parent k ≡ some p = subst (λ z. parent z ≡ some p) (same ∙ e) t in
          elim (next_met (k ∷ visited) p ks
            (subst (λ z. IsLineage eq is_falsy parent (k ∷ visited) z ks) here rest) f) [
              | inl found ↦ inl (inr found)
              | inr (inl again) ↦ inl (inl (again ∙ sym e))
              | inr (inr before) ↦ inr before
            ]
      | inr later ↦ elim (Option-cases (parent k)) [
        | inl none_left ↦
            let ends : ks ≡ [] =
              subst (λ z. IsLineage eq is_falsy parent (k ∷ visited) z ks) none_left rest in
            elim (subst (Member x) ends later) [ ]
        | inr (q, here) ↦
            elim (lineage_closed (k ∷ visited) q x p ks
              (subst (λ z. IsLineage eq is_falsy parent (k ∷ visited) z ks) here rest) later t f) [
                | inl found ↦ inl (inr found)
                | inr (inl again) ↦ inl (inl (again ∙ sym e))
                | inr (inr before) ↦ inr before
              ]
      ]
    ]

    complete :
        (k r : K) (ks : List K)
        → IsLineage eq is_falsy parent [] (some k) ks
        → Inherits is_falsy parent k r
        → (x : K) → Member x ks
        → Inherits is_falsy parent x r
        → Member r ks
    complete k r ks h a x m (itself f) = m
    complete k r ks h a x m (from_parent f t up) =
        elim (lineage_closed [] k x _ ks h m t (starts up)) [
          | inl found ↦ complete k r ks h a _ found up
          | inr gone ↦ elim gone [ ]
        ]

    -- The walk meets the keys that are reached over parents, and no others.
    pub lineage-Inherits :
        (k r : K) (ks : List K)
        → IsLineage eq is_falsy parent [] (some k) ks
        → (seen eq r ks ≡ true) ↔ Inherits is_falsy parent k r
    lineage-Inherits k r ks h = (
      λ e. lineage_sound [] k r ks h (seen-Member r ks e),
      λ a. Member-seen r ks (complete k r ks h a k (head_met k ks h (starts a)) a),
    )
