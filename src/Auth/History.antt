-- ===== src/Auth/History.antt =====
-- Refresh tokens as a state machine: sign-ins, renewals, ends of renewals that loaded their token
-- earlier, and sign-outs, one at a time (src/routes/auth.ts).
use mathlib.Core.Path.{subst, sym}
use leader_product_api.Base.{
  ℕ, ◌≡◌, refl, inl, inr, ◌⊎◌, Bool, true, ◌||◌, Option, none, some, List, [], ◌∷◌, Text, count,
  change, arith, Bool-cases, Option-cases, Member, ltb, ap, ◌∙◌, ◌==◌,
}
use leader_product_api.Auth.{RefreshToken, Db, Deps, Fresh, has_id, is_text}
use leader_product_api.Auth.Devices.{AuthDeviceInfo}
use leader_product_api.Auth.Tokens.{
  create_unique_refresh_token, rotate, check_refresh_token, finish_renewal, renew_tokens, logout,
  new_token, claimed, is_claimable, replaced, signed_out, info_of, Reply,
}

pub data Call : Type 0 where
  issue : Fresh → (user_id : ℕ) → AuthDeviceInfo → Call
  renew : Fresh → Option Text → AuthDeviceInfo → Call
  finish : Fresh → AuthDeviceInfo → RefreshToken → Call
  sign_out : (user_id : ℕ) → Option Text → Call

module _ (d : Deps) (now : ℕ) where
  unfoldable pub step : Call → Db → Db
  step (issue fresh user_id info) db =
      (create_unique_refresh_token d now fresh user_id info none db).0
  step (renew fresh raw info) db = (renew_tokens d now fresh raw info db).0
  step (finish fresh info stored) db = (finish_renewal d now fresh info stored db).0
  step (sign_out user_id raw) db = (logout d now user_id raw db).0

abbrev pub in_family : Text → RefreshToken → Bool
in_family f r = is_text r.family_id f

-- A call that may create a row has an id and a family that no row has.
abbrev pub IsNew : Fresh → Db → Type 0
IsNew fresh db =
    (count (has_id fresh.id) db.tokens ≡ 0) × (count (in_family fresh.family) db.tokens ≡ 0)

abbrev pub IsAllowed : Call → Db → Type 0
IsAllowed (issue fresh user_id info) db = IsNew fresh db
IsAllowed (renew fresh raw info) db = IsNew fresh db
IsAllowed (finish fresh info stored) db = IsNew fresh db
IsAllowed (sign_out user_id raw) db = Unit

pub data Reach (d : Deps) (db : Db) : Db → Type 0 where
  here : Reach d db db
  next :
      {db' : Db} (now : ℕ) (c : Call)
      → Reach d db db'
      → IsAllowed c db'
      → Reach d db (step d now c db')

-- The rows after the rotation of a token.
abbrev pub rotated_rows :
    Deps
    → (now : ℕ) → Fresh
    → RefreshToken
    → (user_id : ℕ) → Option Text
    → List RefreshToken
    → List RefreshToken
rotated_rows d now fresh current user_id device rows =
    change (has_id current.id) (replaced d now fresh.id) (
      new_token d now fresh user_id device current.family_id
      ∷ change (is_claimable d now current.id) (claimed d now) rows)

-- What must be shown of the rows after a call.
pub record Exits (d : Deps) (now : ℕ) (db : Db) (P : List RefreshToken → Type 0) : Type 0 where
  pub stays : P db.tokens
  pub issues :
      (fresh : Fresh) (user_id : ℕ) (device : Option Text)
      → IsNew fresh db
      → P (new_token d now fresh user_id device none ∷ db.tokens)
  pub rotates :
      (fresh : Fresh) (current : RefreshToken) (user_id : ℕ) (device : Option Text)
      → IsNew fresh db
      → Member current db.tokens
      → is_claimable d now current.id current ≡ true
      → P (rotated_rows d now fresh current user_id device db.tokens)
  pub signs_out : (p : RefreshToken → Bool) → P (change p (signed_out d now) db.tokens)

module _ (d : Deps) (now : ℕ) (db : Db) (P : List RefreshToken → Type 0) where
  -- The ways out of the transaction of a renewal.
  pub rotate_exits :
      (fresh : Fresh) (stored_id user_id : ℕ) (info : AuthDeviceInfo)
      (Q : Db × Option (Option Text) → Type 0)
      → Q (db, none)
      → ((current : RefreshToken) (z : Db) (device : Option Text)
          → Member current db.tokens
          → current.id ≡ stored_id
          → is_claimable d now current.id current ≡ true
          → z.tokens ≡ rotated_rows d now fresh current user_id device db.tokens
          → Q (z, some device))
      → Q (rotate d now fresh stored_id user_id info db)
  unfolding rotate create_unique_refresh_token
  rotate_exits fresh stored_id user_id info Q stays rotates =
      elim (Option-cases (d.tokens_table.find_first (has_id stored_id) db.tokens)) [
        | inl e ↦ rw (e, rotate) stays
        | inr (r, e) ↦ elim (Bool-cases (r.revoked || ltb r.expires_at now)) [
          | inl c ↦ rw (e, c, rotate) stays
          | inr c ↦
              elim (Bool-cases (
                (d.tokens_table.update_many (is_claimable d now r.id) (claimed d now) db.tokens).0
                == 1)) [
                  | inr k ↦ rw (e, c, k, rotate) stays
                  | inl k ↦
                      let (m, h) =
                        d.tokens_table.find_first_found (has_id stored_id) db.tokens r e in
                      rw (e, c, k, rotate)
                        (rotates r _ _ m (ground (arith, h)) (ground (arith, c))
                          (after_rotation fresh r user_id _))
                ]
        ]
      ]
    where
      after_rotation :
          (fresh : Fresh) (r : RefreshToken) (user_id : ℕ) (device : Option Text)
          → (d.tokens_table.update_many (has_id r.id) (replaced d now fresh.id) (
              d.tokens_table.create
                (new_token d now fresh user_id device r.family_id)
                (d.tokens_table.update_many
                  (is_claimable d now r.id)
                  (claimed d now)
                  db.tokens).1)).1
            ≡ rotated_rows d now fresh r user_id device db.tokens
      after_rotation fresh r user_id device =
          d.tokens_table.update_many_rows (has_id r.id) (replaced d now fresh.id) _
          ∙ ap (change (has_id r.id) (replaced d now fresh.id)) (
              d.tokens_table.create_rows _ _
              ∙ ap (λ z. new_token d now fresh user_id device r.family_id ∷ z)
                  (d.tokens_table.update_many_rows (is_claimable d now r.id) (claimed d now)
                    db.tokens))

  finish_exits :
      (fresh : Fresh) (info : AuthDeviceInfo) (stored : RefreshToken)
      → IsNew fresh db
      → Exits d now db P
      → P (finish_renewal d now fresh info stored db).0.tokens
  unfolding finish_renewal
  finish_exits fresh info stored new x =
      rotate_exits fresh stored.id stored.user_id (info_of d now info stored) (λ z. P z.0.tokens)
        x.stays
        λ current z device m _ c e.
          subst P (sym e) (x.rotates fresh current stored.user_id device new m c)

  -- A property of the stored tokens that has to be shown after any call.
  pub step_exits : (c : Call) → IsAllowed c db → Exits d now db P → P (step d now c db).tokens
  unfolding step create_unique_refresh_token renew_tokens logout
  step_exits (issue fresh user_id info) new x =
      subst P (sym (d.tokens_table.create_rows _ db.tokens)) (x.issues fresh user_id _ new)
  step_exits (renew fresh raw info) new x = elim (checked raw) [
    | inl (r, e) ↦ rw (e, step, renew_tokens) x.stays
    | inr (stored, e) ↦ rw (e, step, renew_tokens) (finish_exits fresh info stored new x)
  ]
    where
      checked :
          (raw : Option Text)
          → ((r : Reply) × (check_refresh_token d now raw db ≡ inl r))
            ⊎ ((stored : RefreshToken) × (check_refresh_token d now raw db ≡ inr stored))
      checked raw =
          elim (check_refresh_token d now raw db)
            as (λ z. ((r : Reply) × (z ≡ inl r)) ⊎ ((stored : RefreshToken) × (z ≡ inr stored))) [
              | inl r ↦ inl (r, refl)
              | inr stored ↦ inr (stored, refl)
            ]
  step_exits (finish fresh info stored) new x = finish_exits fresh info stored new x
  step_exits (sign_out user_id none) new x = x.stays
  step_exits (sign_out user_id (some [])) new x = x.stays
  step_exits (sign_out user_id (some (c ∷ raw))) new x =
      subst P (sym (d.tokens_table.update_many_rows _ _ db.tokens)) (x.signs_out _)
