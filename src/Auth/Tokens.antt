-- ===== src/Auth/Tokens.antt =====
-- src/services/authRefreshTokenService.ts and the handlers of src/routes/auth.ts for refresh tokens:
-- issue, renewal and sign-out. A call has one clock; the access token and the profile of the answer
-- are left out.
use leader_product_api.Base.{
  ℕ, ◌+◌, ◌*◌, Bool, true, false, ◌&&◌, ◌||◌, not, Option, none, some, [], ◌∷◌, Text, text_eq,
  or_text, ◌==◌, ltb, leb, if◌then◌else◌, ◌⊎◌, inl, inr, nonzero,
}
use leader_product_api.Auth.{RefreshToken, Db, Deps, Fresh, is_text, has_id}
use leader_product_api.Auth.Devices.{AuthDeviceInfo, ensure_device_session, normalize_device_info}

pub data Reply : Type 0 where
  token_required not_valid revoked_or_expired rotated internal_error : Reply
  renewed : Text → Option Text → Reply

abbrev pub or_family : Option Text → Text → Text
or_family none fresh = fresh
or_family (some []) fresh = fresh
or_family (some (c ∷ t)) fresh = c ∷ t

abbrev pub month_ms : ℕ
month_ms = 30 * 24 * 60 * 60 * 1000

abbrev pub is_user : Option ℕ → ℕ → Bool
is_user none id = false
is_user (some n) id = n == id

abbrev pub is_later : Option ℕ → ℕ → Bool
is_later none now = false
is_later (some t) now = ltb now t

module _ (d : Deps) (now : ℕ) where
  -- `OR: [{ tokenHash }, { token: refreshToken }, { token: tokenHash }]`
  abbrev pub is_stored_as : Text → RefreshToken → Bool
  is_stored_as raw r =
      is_text r.token_hash (d.hash raw) || (text_eq r.token raw || text_eq r.token (d.hash raw))

  abbrev pub new_token : Fresh → (user_id : ℕ) → Option Text → Option Text → RefreshToken
  new_token fresh user_id device family = record {
    id = fresh.id;
    token = d.hash fresh.token;
    token_hash = some (d.hash fresh.token);
    user_id = user_id;
    device_session_id = device;
    family_id = some (or_family family fresh.family);
    replaced_by = none;
    expires_at = now + month_ms;
    created_at = now;
    revoked = false;
    used_at = none;
    grace_until = none;
  }

  -- createUniqueRefreshToken, with persistRefreshToken: the database and the device.
  unfoldable pub create_unique_refresh_token :
      Fresh → (user_id : ℕ) → AuthDeviceInfo → Option Text → Db → Db × Option Text
  unfolding ensure_device_session
  create_unique_refresh_token fresh user_id info family db =
      let (devices, device) = ensure_device_session d now fresh.device user_id info db.devices in
      (
        record {
          tokens = d.tokens_table.create (new_token fresh user_id device family) db.tokens;
          devices = devices;
        },
        device,
      )

  abbrev pub is_claimable : ℕ → RefreshToken → Bool
  is_claimable id r = has_id id r && (not r.revoked && leb now r.expires_at)

  abbrev pub claimed : RefreshToken → RefreshToken
  claimed r = record r { revoked = true; used_at = some now; grace_until = some (now + d.grace_ms) }

  abbrev pub replaced : ℕ → RefreshToken → RefreshToken
  replaced id r = record r { replaced_by = some id }

  -- The claim of a token by its id: no database where it failed and the transaction is undone.
  abbrev pub claim : ℕ → Db → Option Db
  claim id db =
      let (n, tokens) = d.tokens_table.update_many (is_claimable id) claimed db.tokens in
      if n == 1 then some (record db { tokens = tokens }) else none

  -- The new token in the place of the one that is claimed.
  abbrev pub replace :
      Fresh → RefreshToken → (user_id : ℕ) → AuthDeviceInfo → Db → Db × Option (Option Text)
  replace fresh current user_id info db =
      let (created, device) = create_unique_refresh_token fresh user_id info current.family_id db in
      (
        record created {
          tokens =
              (d.tokens_table.update_many (has_id current.id) (replaced fresh.id) created.tokens).1;
        },
        some device,
      )

  -- The transaction: the database, and the device of the new token where the rotation went through.
  unfoldable pub rotate :
      Fresh → (stored_id user_id : ℕ) → AuthDeviceInfo → Db → Db × Option (Option Text)
  unfolding create_unique_refresh_token
  rotate fresh stored_id user_id info db =
      elim (d.tokens_table.find_first (has_id stored_id) db.tokens) [
        | none ↦ (db, none)
        | some current ↦
            if current.revoked || ltb current.expires_at now
            then (db, none)
            else elim (claim current.id db) [
              | none ↦ (db, none)
              | some after ↦ replace fresh current user_id info after
            ]
      ]

  abbrev pub is_stale : RefreshToken → Reply
  is_stale r = if is_later r.grace_until now then rotated else revoked_or_expired

  -- What the handler checks before the transaction: a refusal, or the row as it was read.
  unfoldable pub check_refresh_token : Option Text → Db → Reply ⊎ RefreshToken
  check_refresh_token none db = inl token_required
  check_refresh_token (some []) db = inl token_required
  check_refresh_token (some (c ∷ raw)) db =
      elim (d.tokens_table.find_first (is_stored_as (c ∷ raw)) db.tokens) [
        | none ↦ inl not_valid
        | some r ↦
            if r.revoked
            then inl (is_stale r)
            else if ltb r.expires_at now
            then inl revoked_or_expired
            else if is_user (nonzero (d.verify (c ∷ raw))) r.user_id && d.finds_user r.user_id
            then inr r
            else inl not_valid
      ]

  -- `deviceSessionId: req.body.deviceSessionId || storedToken.deviceSessionId`
  unfoldable pub info_of : AuthDeviceInfo → RefreshToken → AuthDeviceInfo
  unfolding normalize_device_info
  info_of info stored =
      normalize_device_info (record info {
        device_session_id = or_text info.device_session_id stored.device_session_id;
      })

  unfoldable pub finish_renewal : Fresh → AuthDeviceInfo → RefreshToken → Db → Db × Reply
  unfolding rotate info_of
  finish_renewal fresh info stored db =
      let (after, device) = rotate fresh stored.id stored.user_id (info_of info stored) db in
      (
        after,
        elim device [
          | none ↦ rotated
          | some id ↦
              if d.loads_profile stored.user_id then renewed fresh.token id else internal_error
        ],
      )

  -- POST /token
  unfoldable pub renew_tokens : Fresh → Option Text → AuthDeviceInfo → Db → Db × Reply
  unfolding check_refresh_token finish_renewal
  renew_tokens fresh raw info db = elim (check_refresh_token raw db) [
    | inl r ↦ (db, r)
    | inr stored ↦ finish_renewal fresh info stored db
  ]

  abbrev pub signed_out : RefreshToken → RefreshToken
  signed_out r = record r { revoked = true }

  -- POST /logout of the user of the access token; whether the token was given.
  unfoldable pub logout : (user_id : ℕ) → Option Text → Db → Db × Bool
  logout user_id none db = (db, false)
  logout user_id (some []) db = (db, false)
  logout user_id (some (c ∷ raw)) db = (
    record db {
      tokens =
          (d.tokens_table.update_many (λ r. r.user_id == user_id && is_stored_as (c ∷ raw) r)
            signed_out db.tokens).1;
    },
    true,
  )
