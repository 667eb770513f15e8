-- ===== src/Auth/Families.antt =====
-- Refresh tokens: what every history of calls keeps of the stored tokens.
use mathlib.Core.Path.{subst, sym}
use leader_product_api.Base.{
  ℕ, ◌≤◌, ◌≡◌, refl, inl, inr, Bool, true, false, ◌&&◌, not, Option, none, some, List, [], ◌∷◌,
  Text, text_eq→eq, text_eq_refl, ap, ◌∙◌, ◌⊎◌, count, change, arith, Bool-cases, Member,
  All-change-intro, All-intro, count-eq-zero, count_unique, count-change, count-change-le,
  count_le_of_imp, ◌==◌,
}
use leader_product_api.Auth.{RefreshToken, Db, Deps, Fresh, has_id, is_text}
use leader_product_api.Auth.Tokens.{
  new_token, claimed, is_claimable, or_family, replaced, signed_out,
}
use leader_product_api.Auth.History.{
  Call, step, IsAllowed, IsNew, in_family, Reach, here, next, step_exits, rotated_rows,
}

-- A token of the family that is not revoked.
abbrev pub is_live_in : Text → RefreshToken → Bool
is_live_in f r = in_family f r && not r.revoked

-- Ids are unique, and of each family one token at most is not revoked.
pub record IsTokenTable (rows : List RefreshToken) : Type 0 where
  pub ids : (id : ℕ) → count (has_id id) rows ≤ 1
  pub one_live : (f : Text) → count (is_live_in f) rows ≤ 1

abbrev new_family : RefreshToken → Fresh → Text
new_family current fresh = or_family current.family_id fresh.family

module _ (d : Deps) (now : ℕ) where
  new_ids :
      (fresh : Fresh) (r : RefreshToken) (rows : List RefreshToken)
      → r.id ≡ fresh.id
      → count (has_id fresh.id) rows ≡ 0
      → ((id : ℕ) → count (has_id id) rows ≤ 1)
      → (id : ℕ) → count (has_id id) (r ∷ rows) ≤ 1
  new_ids fresh r rows e h u id = elim (Bool-cases (r.id == id)) [
    | inr k ↦ rw k (u id)
    | inl k ↦
        let same : fresh.id ≡ id = ground (arith, k, e) in
        rw (k, subst (λ z. count (has_id z) rows ≡ 0) same h) (omega arith)
  ]

  new_live :
      (g : Text) (r : RefreshToken) (rows : List RefreshToken)
      → r.family_id ≡ some g
      → count (is_live_in g) rows ≡ 0
      → ((f : Text) → count (is_live_in f) rows ≤ 1)
      → (f : Text) → count (is_live_in f) (r ∷ rows) ≤ 1
  new_live g r rows e h u f = elim (Bool-cases (is_live_in f r)) [
    | inr k ↦ rw k (u f)
    | inl k ↦
        let same : g ≡ f = text_eq→eq g f (ground (arith, k, ap (λ z. is_text z f) e)) in
        rw (k, subst (λ z. count (is_live_in z) rows ≡ 0) same h) (omega arith)
  ]

  none_live :
      (f : Text) (rows : List RefreshToken)
      → count (in_family f) rows ≡ 0
      → count (is_live_in f) rows ≡ 0
  none_live f rows h = omega (
    arith,
    h,
    count_le_of_imp (is_live_in f) (in_family f) rows (All-intro _ rows λ r m k. ground (arith, k)),
  )

  -- After the claim no token of the family is live.
  claim_empties :
      (g : Text) (current : RefreshToken) (rows : List RefreshToken)
      → IsTokenTable rows
      → Member current rows
      → is_claimable d now current.id current ≡ true
      → in_family g current ≡ true
      → count (is_live_in g) (change (is_claimable d now current.id) (claimed d now) rows) ≡ 0
  claim_empties g current rows v m c e = count-eq-zero (is_live_in g) _ (
      All-change-intro (λ r. is_live_in g r ≡ false) (is_claimable d now current.id) (claimed d now)
        rows (λ r n k. ground arith)
        (λ r n k. elim (Bool-cases (is_live_in g r)) [
          | inr dead ↦ dead
          | inl live ↦
              let same : r ≡ current =
                count_unique (is_live_in g) rows r current (v.one_live g) n live m
                  (ground (arith, e, c)) in
              ground (arith, c, subst (λ z. is_claimable d now current.id z ≡ false) same k)
        ]))

  -- The new token stays in the family of the old one, or starts a fresh one.
  family_cases :
      (f : Option Text) (fresh : Text)
      → (or_family f fresh ≡ fresh) ⊎ (is_text f (or_family f fresh) ≡ true)
  family_cases none fresh = inl refl
  family_cases (some []) fresh = inl refl
  family_cases (some (c ∷ t)) fresh = inr (text_eq_refl (c ∷ t))

  rotated-IsTokenTable :
      (fresh : Fresh) (current : RefreshToken) (user_id : ℕ) (device : Option Text) (db : Db)
      → IsTokenTable db.tokens
      → IsNew fresh db
      → Member current db.tokens
      → is_claimable d now current.id current ≡ true
      → IsTokenTable (rotated_rows d now fresh current user_id device db.tokens)
  rotated-IsTokenTable fresh current user_id device db v (fresh_id, fresh_family) m c = record {
    ids = λ id.
        subst (λ n. n ≤ 1)
          (sym (
            count-change (has_id id) (has_id current.id) (replaced d now fresh.id) (λ r _. refl)
              (created ∷ claimed_rows)))
          (new_ids fresh created claimed_rows refl
            (count-change (has_id fresh.id) (is_claimable d now current.id) (claimed d now)
                (λ r _. refl) db.tokens
              ∙ fresh_id)
            (λ i.
              subst (λ n. n ≤ 1)
                (sym (
                  count-change (has_id i) (is_claimable d now current.id) (claimed d now)
                    (λ r _. refl) db.tokens))
                (v.ids i))
            id);
    one_live = λ f.
        subst (λ n. n ≤ 1)
          (sym (
            count-change (is_live_in f) (has_id current.id) (replaced d now fresh.id) (λ r _. refl)
              (created ∷ claimed_rows)))
          (new_live (new_family current fresh) created claimed_rows refl emptied
            (λ g. omega (arith, fewer_live g, v.one_live g)) f);
  }
    where
      created : RefreshToken
      created = new_token d now fresh user_id device current.family_id

      claimed_rows : List RefreshToken
      claimed_rows = change (is_claimable d now current.id) (claimed d now) db.tokens

      fewer_live : (g : Text) → count (is_live_in g) claimed_rows ≤ count (is_live_in g) db.tokens
      fewer_live g =
          count-change-le (is_live_in g) (is_claimable d now current.id) (claimed d now)
            (λ r h k. ground (arith, k)) db.tokens

      emptied : count (is_live_in (new_family current fresh)) claimed_rows ≡ 0
      emptied = elim (family_cases current.family_id fresh.family) [
        | inl e ↦
            subst (λ g. count (is_live_in g) claimed_rows ≡ 0) (sym e)
              (omega
                (arith, fewer_live fresh.family, none_live fresh.family db.tokens fresh_family))
        | inr e ↦ claim_empties (new_family current fresh) current db.tokens v m c e
      ]

  pub step-IsTokenTable :
      (c : Call) (db : Db)
      → IsTokenTable db.tokens
      → IsAllowed c db
      → IsTokenTable (step d now c db).tokens
  step-IsTokenTable c db v allowed = step_exits d now db IsTokenTable c allowed (record {
    stays = v;
    issues = λ fresh user_id device (fresh_id, fresh_family). record {
      ids = new_ids fresh (new_token d now fresh user_id device none) db.tokens refl fresh_id v.ids;
      one_live =
          new_live fresh.family (new_token d now fresh user_id device none) db.tokens refl
            (none_live fresh.family db.tokens fresh_family) v.one_live;
    };
    rotates = λ fresh current user_id device new m k.
        rotated-IsTokenTable fresh current user_id device db v new m k;
    signs_out = λ p. record {
      ids = λ id.
          subst (λ n. n ≤ 1)
            (sym (count-change (has_id id) p (signed_out d now) (λ r _. refl) db.tokens))
            (v.ids id);
      one_live = λ f. omega (
        arith,
        v.one_live f,
        count-change-le (is_live_in f) p (signed_out d now) (λ r h k. ground (arith, k)) db.tokens,
      );
    };
  })

-- After any sign-ins, renewals and sign-outs in any order, with the ends of renewals that run at the
-- same time, ids are unique and of each family one refresh token at most is not revoked, where
-- each call takes an id and a family that no row has.
pub Reach-IsTokenTable :
    (d : Deps) {db db' : Db} → IsTokenTable db.tokens → Reach d db db' → IsTokenTable db'.tokens
Reach-IsTokenTable d v here = v
Reach-IsTokenTable d v (next {db'} now c r allowed) =
    step-IsTokenTable d now c db' (Reach-IsTokenTable d v r) allowed
