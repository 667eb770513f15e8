-- ===== src/ServiceAccess/Layers.antt =====
-- src/services/serviceAccess.ts: when a layer refuses, and which layer decides.
use mathlib.Core.Path.{subst, sym}
use leader_product_api.Base.{
  Member-keep, ℕ, ◌≤◌, ◌≡◌, ◌↔◌, ◌⊎◌, refl, inl, inr, Bool, true, false, Option, none, some, List,
  [], ◌∷◌, arith, min, ◌==◌, keep, some_of, is_empty, All, Member, All-Member, Bool-cases, ltb,
}
use leader_product_api.ServiceAccess.{
  is_flag, is_explicit, explicit_rules, nearest_rules, max_safe_integer, min_distance,
  evaluate_flat, evaluate_nearest,
}

-- How a layer refuses: no rule speaks and the base refuses, or a rule of those that count refuses.
abbrev pub IsRefused : {T : Type 0} → (T → Option Bool) → (T → Type 0) → Bool → List T → Type 0
IsRefused f Counts base rules =
    (All (λ r. f r ≡ none) rules × (base ≡ false))
    ⊎ ((r : _) × Member r rules × (f r ≡ some false) × Counts r)

module _ {T : Type 0} (f : T → Option Bool) where
  pub explicit_empty :
      (rules : List T) → is_empty (explicit_rules f rules) ≡ true → All (λ r. f r ≡ none) rules
  explicit_empty [] h = tt
  explicit_empty (x ∷ xs) h = ground (arith, explicit_empty xs)

  explicit_none : (rules : List T) → All (λ r. f r ≡ none) rules → explicit_rules f rules ≡ []
  explicit_none [] h = refl
  explicit_none (x ∷ xs) h = rw h.0 (explicit_none xs h.1)

  -- One refusal among chosen rules.
  refused_found :
      (rules : List T)
      → some_of (λ r. is_flag false (f r)) rules ≡ true
      → (r : T) × Member r rules × (f r ≡ some false)
  refused_found [] h = ground arith
  refused_found (x ∷ xs) h = elim (Bool-cases (is_flag false (f x))) [
    | inl e ↦ (x, inl refl, ground arith)
    | inr e ↦ let (r, m, k) = refused_found xs (ground arith) in (r, inr m, k)
  ]

  pub found_refused :
      (rules : List T) (r : T)
      → Member r rules
      → f r ≡ some false
      → some_of (λ r. is_flag false (f r)) rules ≡ true
  found_refused [] r m h = elim m [ ]
  found_refused (x ∷ xs) r (inl e) h =
      let refuses : f x ≡ some false = subst (λ z. f z ≡ some false) e h in rw refuses refl
  found_refused (x ∷ xs) r (inr m) h = ground (arith, found_refused xs r m h)

module _ {A : Type 0} (p : A → Bool) where
  Member-keep_inv : (xs : List A) (a : A) → Member a (keep p xs) → Member a xs × (p a ≡ true)
  Member-keep_inv [] a m = elim m [ ]
  Member-keep_inv (x ∷ xs) a m = elim (Bool-cases (p x)) [
    | inl e ↦ elim (rw e at m) [
      | inl same ↦ (inl same, subst (λ z. p z ≡ true) (sym same) e)
      | inr t ↦ let (k, h) = Member-keep_inv xs a t in (inr k, h)
    ]
    | inr e ↦ let (k, h) = Member-keep_inv xs a (rw e at m) in (inr k, h)
  ]

module _ {T : Type 0} (distance : T → ℕ) where
  min_distance-le :
      (rules : List T) (value : ℕ)
      → (min_distance distance value rules ≤ value)
        × All (λ r. min_distance distance value rules ≤ distance r) rules
  unfolding min_distance
  min_distance-le [] value = (omega arith, tt)
  min_distance-le (x ∷ xs) value =
      let (a, b) = min_distance-le xs (min value (distance x)) in (omega arith, (omega arith, b))

  min_distance_reached :
      (rules : List T) (value : ℕ)
      → (min_distance distance value rules ≡ value)
        ⊎ ((r : T) × Member r rules × (distance r ≡ min_distance distance value rules))
  unfolding min_distance
  min_distance_reached [] value = inl refl
  min_distance_reached (x ∷ xs) value = elim (min_distance_reached xs (min value (distance x))) [
    | inl e ↦ elim (Bool-cases (ltb value (distance x))) [
      | inl t ↦ inl (ground arith)
      | inr t ↦ inr (x, inl refl, ground arith)
    ]
    | inr (r, m, h) ↦ inr (r, inr m, h)
  ]

module _ {A : Type 0} where
  pub Member-is_empty : (xs : List A) (a : A) → Member a xs → is_empty xs ≡ false
  Member-is_empty [] a m = elim m [ ]
  Member-is_empty (x ∷ xs) a m = refl

  All-unkeep :
      (p : A → Bool) (Q : A → Type 0) (xs : List A)
      → All Q (keep p xs)
      → All (λ x. p x ≡ true → Q x) xs
  All-unkeep p Q [] h = tt
  All-unkeep p Q (x ∷ xs) h = elim (Bool-cases (p x)) [
    | inl e ↦ let k : All Q (x ∷ keep p xs) = rw e at h in ((λ _. k.0), All-unkeep p Q xs k.1)
    | inr e ↦ ((λ t. ground (arith, e, t)), All-unkeep p Q xs (rw e at h))
  ]

module _ {T : Type 0} (f : T → Option Bool) where
  abbrev explicit_in : T → Bool
  explicit_in r = is_explicit (f r)

  -- A refusing rule is one of the explicit rules.
  pub refusal-explicit :
      (rules : List T) (r : T)
      → Member r rules
      → f r ≡ some false
      → Member r (explicit_rules f rules)
  refusal-explicit rules r m h = Member-keep explicit_in rules r m (rw h refl)

  -- A layer without distances refuses exactly where one of its rules refuses, or where none speaks
  -- and the default is to refuse.
  pub evaluate_flat_refuses_iff :
      (base : Bool) (rules : List T)
      → (evaluate_flat f base rules).value ≡ false ↔ IsRefused f (λ r. Unit) base rules
  unfolding evaluate_flat
  evaluate_flat_refuses_iff base rules = (forward, backward)
    where
      forward : (evaluate_flat f base rules).value ≡ false → IsRefused f (λ r. Unit) base rules
      forward h = elim (Bool-cases (is_empty (explicit_rules f rules))) [
        | inl e ↦ inl (explicit_empty f rules e, rw e at h)
        | inr e ↦ elim (Bool-cases (some_of (λ r. is_flag false (f r)) (explicit_rules f rules))) [
          | inl t ↦
              let (r, m, k) = refused_found f (explicit_rules f rules) t in
              inr (r, (Member-keep_inv explicit_in rules r m).0, k, tt)
          | inr t ↦ ground (arith, rw (e, t) at h)
        ]
      ]

      backward : IsRefused f (λ r. Unit) base rules → (evaluate_flat f base rules).value ≡ false
      backward (inl (none_speaks, b)) = rw (explicit_none f rules none_speaks) b
      backward (inr (r, m, h, _)) =
          let k = refusal-explicit rules r m h in
          rw
            (
              Member-is_empty (explicit_rules f rules) r k,
              found_refused f (explicit_rules f rules) r k h,
            )
            refl

-- A rule counts where no rule that speaks is nearer.
abbrev pub IsNearest : {T : Type 0} → (T → Option Bool) → (T → ℕ) → List T → T → Type 0
IsNearest f distance rules r = All (λ s. is_explicit (f s) ≡ true → distance r ≤ distance s) rules

module _ {T : Type 0} (f : T → Option Bool) (distance : T → ℕ) where
  abbrev at_least : List T → T → Bool
  at_least rules r = distance r == min_distance distance max_safe_integer rules

  nearest-least :
      (rules : List T) (r : T)
      → All (λ s. distance s ≤ max_safe_integer) rules
      → Member r rules
      → Member r (explicit_rules f rules)
      → IsNearest f distance rules r
      → at_least (explicit_rules f rules) r ≡ true
  nearest-least rules r far m k near =
      let least = min_distance-le distance (explicit_rules f rules) max_safe_integer in
      let below =
        All-Member
          (λ s. min_distance distance max_safe_integer (explicit_rules f rules) ≤ distance s)
          (explicit_rules f rules) r least.1 k in
      let bounded = All-Member (λ s. distance s ≤ max_safe_integer) rules r far m in
      elim (min_distance_reached distance (explicit_rules f rules) max_safe_integer) [
        | inl e ↦ ground (arith, below, bounded, e)
        | inr (s, in_explicit, e) ↦
            let (in_rules, speaks) = Member-keep_inv (λ x. is_explicit (f x)) rules s in_explicit in
            let nearer =
              All-Member (λ s. is_explicit (f s) ≡ true → distance r ≤ distance s) rules s near
                in_rules speaks in
            ground (arith, below, nearer, e)
      ]

  -- A layer with distances refuses exactly where a nearest rule that speaks refuses, or where none
  -- speaks and the default is to refuse.
  pub evaluate_nearest_refuses_iff :
      (base : Bool) (rules : List T)
      → All (λ s. distance s ≤ max_safe_integer) rules
      → (evaluate_nearest f distance base rules).value ≡ false
        ↔ IsRefused f (IsNearest f distance rules) base rules
  unfolding evaluate_nearest
  evaluate_nearest_refuses_iff base rules far = (forward, backward)
    where
      forward :
          (evaluate_nearest f distance base rules).value ≡ false
          → IsRefused f (IsNearest f distance rules) base rules
      forward h = elim (Bool-cases (is_empty (explicit_rules f rules))) [
        | inl e ↦ inl (explicit_empty f rules e, rw e at h)
        | inr e ↦
            elim (Bool-cases (
              some_of (λ r. is_flag false (f r))
                (nearest_rules f distance (explicit_rules f rules)))) [
                  | inl t ↦
                      let (r, m, k) =
                        refused_found f (nearest_rules f distance (explicit_rules f rules)) t in
                      let (k1, least) =
                        Member-keep_inv (at_least (explicit_rules f rules)) (explicit_rules f rules)
                          r m in
                      inr (
                        r,
                        (Member-keep_inv (λ x. is_explicit (f x)) rules r k1).0,
                        k,
                        near r least,
                      )
                  | inr t ↦ ground (arith, rw (e, t) at h)
                ]
      ]
        where
          near : (r : T) → at_least (explicit_rules f rules) r ≡ true → IsNearest f distance rules r
          near r least =
              let same : distance r
                  ≡ min_distance distance max_safe_integer (explicit_rules f rules) =
                ground (arith, least) in
              All-unkeep (λ x. is_explicit (f x)) (λ s. distance r ≤ distance s) rules
                (subst (λ d. All (λ s. d ≤ distance s) (explicit_rules f rules)) (sym same)
                  (min_distance-le distance (explicit_rules f rules) max_safe_integer).1)

      backward :
          IsRefused f (IsNearest f distance rules) base rules
          → (evaluate_nearest f distance base rules).value ≡ false
      backward (inl (none_speaks, b)) = rw (explicit_none f rules none_speaks) b
      backward (inr (r, m, h, near)) =
          let k = refusal-explicit f rules r m h in
          let least = nearest-least rules r far m k near in
          let k2 =
            Member-keep (at_least (explicit_rules f rules)) (explicit_rules f rules) r k least in
          rw
            (
              Member-is_empty (explicit_rules f rules) r k,
              found_refused f (nearest_rules f distance (explicit_rules f rules)) r k2 h,
            )
            refl
