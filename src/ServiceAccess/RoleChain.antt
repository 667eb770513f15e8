-- ===== src/ServiceAccess/RoleChain.antt =====
-- src/services/serviceAccess.ts: the walk from a role to its parents, which stops at a role seen before.
-- getRoleHierarchyByName and collectRoleChain are the same walk, over names and over ids.
use mathlib.Core.Path.{subst, sym}
use leader_product_api.Base.{
  ℕ, zero, suc, ◌≤◌, ◌<◌, ◌≡◌, refl, inl, inr, Bool, true, false, ◌||◌, not, Option, none, some,
  List, [], ◌∷◌, arith, if◌then◌else◌, Member, Bool-cases, Option-cases, count,
}

-- `visited.has(key)`
unfoldable pub seen : {K : Type 0} → (K → K → Bool) → K → List K → Bool
seen eq k [] = false
seen eq k (x ∷ xs) = eq x k || seen eq k xs

module _ {K : Type 0} (eq : K → K → Bool) (is_falsy : K → Bool) (parent : K → Option K) where
  -- The test at the head of the loop and the one of the first line of its body.
  abbrev pub stops : List K → K → Bool
  stops visited k = is_falsy k || seen eq k visited

  -- The loop, on fuel.
  unfoldable pub walk : ℕ → List K → Option K → List K
  walk zero visited current = []
  walk (suc fuel) visited none = []
  walk (suc fuel) visited (some k) =
      let rest = k ∷ walk fuel (k ∷ visited) (parent k) in if stops visited k then [] else rest

  -- Each key is the parent of the key before and is met for the first time, and the last has no
  -- parent but a falsy one or one of the keys.
  unfoldable pub IsLineage : List K → Option K → List K → Type 0
  IsLineage visited none ks = ks ≡ []
  IsLineage visited (some k) [] = stops visited k ≡ true
  IsLineage visited (some k) (x ∷ ks) =
      (x ≡ k) × (stops visited k ≡ false) × IsLineage (k ∷ visited) (parent k) ks

  -- Keys of `known` that have not been seen.
  abbrev pub unseen : List K → List K → ℕ
  unseen visited known = count (λ x. not (seen eq x visited)) known

  module _ (eq_refl : (a : K) → eq a a ≡ true) where
    unseen-le : (k : K) (visited known : List K) → unseen (k ∷ visited) known ≤ unseen visited known
    unfolding seen
    unseen-le k visited [] = omega arith
    unseen-le k visited (x ∷ known) = ground (arith, unseen-le k visited known)

    unseen-lt :
        (k : K) (visited known : List K)
        → Member k known
        → seen eq k visited ≡ false
        → unseen (k ∷ visited) known < unseen visited known
    unfolding seen
    unseen-lt k visited [] m h = elim m [ ]
    unseen-lt k visited (x ∷ known) (inl e) h =
        let same : eq k x ≡ true = subst (λ z. eq k z ≡ true) e (eq_refl k) in
        let unmet : seen eq x visited ≡ false = subst (λ z. seen eq z visited ≡ false) e h in
        ground (arith, unseen-le k visited known)
    unseen-lt k visited (x ∷ known) (inr m) h = ground (arith, unseen-lt k visited known m h)

    walk-none : (fuel : ℕ) (visited : List K) → IsLineage visited none (walk fuel visited none)
    unfolding walk IsLineage
    walk-none zero visited = refl
    walk-none (suc fuel) visited = refl

    -- With more fuel than unseen keys, and one more, the walk goes to the end.
    pub walk-IsLineage :
        (known : List K)
        → ((k p : K) → parent k ≡ some p → Member k known)
        → (fuel : ℕ) (visited : List K) (current : Option K) → unseen visited known < fuel
        → IsLineage visited current (walk fuel visited current)
    unfolding walk IsLineage
    walk-IsLineage known h zero visited current f = ground arith
    walk-IsLineage known h (suc fuel) visited none f = refl
    walk-IsLineage known h (suc fuel) visited (some k) f = elim (Bool-cases (stops visited k)) [
      | inl e ↦ rw e e
      | inr e ↦ rw e (
        refl,
        e,
        elim (Option-cases (parent k)) [
          | inl t ↦
              subst (λ next. IsLineage (k ∷ visited) next (walk fuel (k ∷ visited) next)) (sym t)
                (walk-none fuel (k ∷ visited))
          | inr (p, t) ↦
              walk-IsLineage known h fuel (k ∷ visited) (parent k)
                (omega (arith, unseen-lt k visited known (h k p t) (ground arith)))
        ],
      )
    ]
