-- ===== src/Auth/Rotation.antt =====
-- Refresh tokens: a token that was rotated, in the calls that come after.
use mathlib.Core.Path.{subst, sym}
use leader_product_api.Base.{
  ℕ, ◌≤◌, ◌≡◌, refl, inl, inr, Bool, true, false, Option, none, some, List, ◌∷◌, count, change,
  arith, Bool-cases, Member, Text, ◌==◌, count_unique, All, All-Member, All-change-intro,
  count-change, count-pos,
}
use leader_product_api.Auth.{RefreshToken, Db, Deps, Fresh, has_id}
use leader_product_api.Auth.Devices.{AuthDeviceInfo}
use leader_product_api.Auth.Tokens.{new_token, claimed, is_claimable, replaced, signed_out, rotate}
use leader_product_api.Auth.History.{
  Call, step, IsAllowed, IsNew, Reach, here, next, rotated_rows, rotate_exits, step_exits,
}

-- A stored token that is revoked.
abbrev IsSpent : ℕ → List RefreshToken → Type 0
IsSpent id rows =
    (1 ≤ count (has_id id) rows) × All (λ r. has_id id r ≡ true → r.revoked ≡ true) rows

module _ (id : ℕ) where
  IsSpent-change :
      (p : RefreshToken → Bool) (f : RefreshToken → RefreshToken) (rows : List RefreshToken)
      → ((r : RefreshToken) → (f r).id ≡ r.id)
      → ((r : RefreshToken) → r.revoked ≡ true → (f r).revoked ≡ true)
      → IsSpent id rows
      → IsSpent id (change p f rows)
  IsSpent-change p f rows ids keeps (stored, spent) = (
    subst (λ n. 1 ≤ n) (sym (count-change (has_id id) p f (λ r _. ground (arith, ids r)) rows))
        stored,
    All-change-intro _ p f rows
        (λ r m _ h. keeps r (All-Member _ rows r spent m (ground (arith, ids r, h))))
        (λ r m _ h. All-Member _ rows r spent m h),
  )

  IsSpent-cons :
      (t : RefreshToken) (rows : List RefreshToken)
      → count (has_id t.id) rows ≡ 0
      → IsSpent id rows
      → IsSpent id (t ∷ rows)
  IsSpent-cons t rows fresh (stored, spent) = elim (Bool-cases (t.id == id)) [
    | inl e ↦
        let same : t.id ≡ id = ground (arith, e) in
        let missing : count (has_id id) rows ≡ 0 =
          subst (λ z. count (has_id z) rows ≡ 0) same fresh in
        let absurd : ⊥ = omega (arith, missing, stored) in elim absurd [ ]
    | inr e ↦ (ground (arith, e, stored), ((λ h. ground (arith, e, h)), spent))
  ]

module _ (d : Deps) where
  rotated-IsSpent :
      (now id : ℕ) (fresh : Fresh) (current : RefreshToken) (user_id : ℕ) (device : Option Text)
      (rows : List RefreshToken)
      → count (has_id fresh.id) rows ≡ 0
      → IsSpent id (change (is_claimable d now current.id) (claimed d now) rows)
      → IsSpent id (rotated_rows d now fresh current user_id device rows)
  rotated-IsSpent now id fresh current user_id device rows new s =
      let created = new_token d now fresh user_id device current.family_id in
      let claimed_rows = change (is_claimable d now current.id) (claimed d now) rows in
      IsSpent-change id (has_id current.id) (replaced d now fresh.id) (created ∷ claimed_rows)
        (λ r. refl) (λ r h. h)
        (IsSpent-cons id created claimed_rows
          (subst (λ n. n ≡ 0)
            (sym (
              count-change (has_id fresh.id) (is_claimable d now current.id) (claimed d now)
                (λ r _. refl) rows))
            new)
          s)

  step-IsSpent :
      (now id : ℕ) (c : Call) (db : Db)
      → IsSpent id db.tokens
      → IsAllowed c db
      → IsSpent id (step d now c db).tokens
  step-IsSpent now id c db s allowed = step_exits d now db (IsSpent id) c allowed (record {
    stays = s;
    issues = λ fresh user_id device (new, _).
        IsSpent-cons id (new_token d now fresh user_id device none) db.tokens new s;
    rotates = λ fresh current user_id device (new, _) m k.
        rotated-IsSpent now id fresh current user_id device db.tokens new (
          IsSpent-change id (is_claimable d now current.id) (claimed d now) db.tokens (λ r. refl)
            (λ r _. refl) s);
    signs_out = λ p. IsSpent-change id p (signed_out d now) db.tokens (λ r. refl) (λ r _. refl) s;
  })

  Reach-IsSpent :
      (id : ℕ) {db db' : Db} → IsSpent id db.tokens → Reach d db db' → IsSpent id db'.tokens
  Reach-IsSpent id s here = s
  Reach-IsSpent id s (next {db'} now c r allowed) =
      step-IsSpent now id c db' (Reach-IsSpent id s r) allowed

  spent_refused :
      (now id user_id : ℕ) (fresh : Fresh) (info : AuthDeviceInfo) (db : Db)
      → IsSpent id db.tokens
      → rotate d now fresh id user_id info db ≡ (db, none)
  spent_refused now id user_id fresh info db (stored, spent) =
      rotate_exits d now db (λ z. Unit) fresh id user_id info (λ z. z ≡ (db, none)) refl
        λ current z device m same c _.
          let revoked = All-Member _ db.tokens current spent m (ground (arith, same)) in
          ground (arith, revoked, c)

  -- The claim spends the token.
  claim_spends :
      (now id : ℕ) (current : RefreshToken) (rows : List RefreshToken)
      → ((i : ℕ) → count (has_id i) rows ≤ 1)
      → Member current rows
      → current.id ≡ id
      → is_claimable d now current.id current ≡ true
      → IsSpent id (change (is_claimable d now current.id) (claimed d now) rows)
  claim_spends now id current rows unique m same c = (
    subst (λ n. 1 ≤ n)
        (sym (
          count-change (has_id id) (is_claimable d now current.id) (claimed d now) (λ r _. refl)
            rows))
        (count-pos (has_id id) rows current m (ground (arith, same))),
    All-change-intro _ (is_claimable d now current.id) (claimed d now) rows (λ r n _ _. refl)
        (λ r n k h.
          let one : r ≡ current =
            count_unique (has_id id) rows r current (unique id) n h m (ground (arith, same)) in
          ground (arith, c, subst (λ z. is_claimable d now current.id z ≡ false) one k)),
  )

  rotation_spends :
      (now id user_id : ℕ) (fresh : Fresh) (info : AuthDeviceInfo) (db : Db) (device : Option Text)
      → ((i : ℕ) → count (has_id i) db.tokens ≤ 1)
      → IsNew fresh db
      → (rotate d now fresh id user_id info db).1 ≡ some device
      → IsSpent id (rotate d now fresh id user_id info db).0.tokens
  rotation_spends now id user_id fresh info db device unique (new, _) =
      rotate_exits d now db (λ z. Unit) fresh id user_id info
        (λ z. z.1 ≡ some device → IsSpent id z.0.tokens) (λ h. ground arith)
        λ current z dev m same c e h. subst (IsSpent id) (sym e) (
          rotated-IsSpent now id fresh current user_id dev db.tokens new
            (claim_spends now id current db.tokens unique m same c))

  -- A refresh token is rotated once: after a rotation and any calls, another one of the same token, by
  -- whatever renewal has loaded it, is refused and changes nothing, where ids are unique and each call
  -- takes an id and a family that no row has.
  pub rotate_once :
      (now later id user_id other_user : ℕ) (fresh other : Fresh) (info other_info : AuthDeviceInfo)
      (db db' : Db) (device : Option Text)
      → ((i : ℕ) → count (has_id i) db.tokens ≤ 1)
      → IsNew fresh db
      → (rotate d now fresh id user_id info db).1 ≡ some device
      → Reach d (rotate d now fresh id user_id info db).0 db'
      → rotate d later other id other_user other_info db' ≡ (db', none)
  rotate_once now later id user_id other_user fresh other info other_info db db' device unique new h
        r =
      spent_refused later id other_user other other_info db'
        (Reach-IsSpent id (rotation_spends now id user_id fresh info db device unique new h) r)
