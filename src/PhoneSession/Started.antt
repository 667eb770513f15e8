-- ===== src/PhoneSession/Started.antt =====
-- src/services/phoneVerificationService.ts: what a start answers, and its link.
use mathlib.Core.Path.{subst}
use mathlib.Core.Logic.{◌↔◌}
use leader_product_api.Phone.{to_api_phone_string}
use leader_product_api.Base.{
  ℕ, ◌+◌, ◌≡◌, refl, sym, ap, ◌≢◌, ◌++◌, inl, inr, true, false, ◌&&◌, not, Option, some, Member,
  arith, ◌==◌, Text, count, Option-cases, All-Member, is_some_of, is_empty, codes,
  found_from-append,
}
use leader_product_api.PhoneSession.{
  Session, Db, Deps, Provider, telegram, max, pending, pending_of, new_session, replace_session,
  start_reply, StartView, started, refused, deep_link_unavailable, close, cancelled,
  replaced_by_new_request, ttl_ms, first_is_token_char, start_parameter, site, bot_username,
  build_deep_link, is_valid_phone_verification_deep_link, is_phone_verification_configured,
  start_phone_verification_session,
}
use leader_product_api.PhoneSession.CallExits.{start_exits, IsAllowed, default_provider}
use leader_product_api.PhoneSession.Writes.{none_pending}

-- The part of a link behind the bot's name.
abbrev parameter : Text → Text
parameter token = codes "?start=verify_phone_" ++ token

parameter_ok :
    (token : Text) → first_is_token_char token ≡ true → start_parameter (parameter token) ≡ true
unfolding start_parameter
parameter_ok token h = rw h refl

link_ok :
    (provider : Provider) (name token : Text)
    → first_is_token_char token ≡ true
    → is_valid_phone_verification_deep_link (site provider ++ (name ++ parameter token)) provider
      ≡ true
unfolding is_valid_phone_verification_deep_link
link_ok telegram name token h =
    found_from-append start_parameter name (parameter token) (parameter_ok token h)
link_ok max name token h =
    found_from-append start_parameter name (parameter token) (parameter_ok token h)

module _ (d : Deps) (now id : ℕ) (raw : Text) (user_id : ℕ) (phone_raw : Text)
    (chosen : Option Provider) (db : Db) (random : first_is_token_char raw ≡ true) where
  abbrev opened : ℕ → Session
  opened phone = new_session d now id user_id phone (default_provider chosen) raw

  abbrev reply : ℕ → StartView
  reply phone = record {
    session_id = id;
    deep_link_url =
        site (default_provider chosen)
        ++ (bot_username d (default_provider chosen) ++ parameter raw);
    expires_at = now + ttl_ms;
    requested_phone = to_api_phone_string (some phone);
    provider = default_provider chosen;
  }

  reply_ok :
      (phone : ℕ)
      → is_phone_verification_configured d (default_provider chosen) ≡ true
      → start_reply d (opened phone) raw ≡ started (reply phone)
  unfolding start_reply build_deep_link is_phone_verification_configured
  reply_ok phone c =
      let named : is_empty (bot_username d (default_provider chosen)) ≡ false = ground arith in
      rw (named, start_reply)
        (rw
          (link_ok (default_provider chosen) (bot_username d (default_provider chosen)) raw random)
          refl)

  -- Given a token that begins with a letter, a digit, `_` or `-`, no start ends in a link that is
  -- found unusable after the session is stored.
  pub start-ne-unavailable :
      (start_phone_verification_session d now id raw user_id phone_raw chosen db).1
      ≢ refused deep_link_unavailable
  start-ne-unavailable =
      start_exits (λ o. o.1 ≢ refused deep_link_unavailable) d now db id raw user_id phone_raw
        chosen (λ e h q. ground (arith, h)) (λ phone a q. cc (reply_ok phone a.configured))

  -- Given such a token, a start answers with a session exactly when the bot is configured, the phone
  -- normalises, and no other user has it.
  pub start_iff :
      ((v : StartView) × ((start_phone_verification_session d now id raw user_id phone_raw chosen
            db).1
          ≡ started v))
      ↔ ((phone : ℕ) × IsAllowed d user_id phone_raw chosen db phone)
  unfolding start_phone_verification_session
  start_iff = (
    λ h.
        start_exits
          (λ o. o.1 ≡ started h.0 → (phone : ℕ) × IsAllowed d user_id phone_raw chosen db phone) d
          now db id raw user_id phone_raw chosen (λ e _ q. cc) (λ phone a q. (phone, a)) h.1,
    λ h. (reply h.0, allowed h.0 h.1),
  )
    where
      allowed :
          (phone : ℕ)
          → IsAllowed d user_id phone_raw chosen db phone
          → (start_phone_verification_session d now id raw user_id phone_raw chosen db).1
            ≡ started (reply phone)
      allowed phone a = rw a.configured (
          rw a.phone_normalized (
            rw a.phone_value
              (elim (Option-cases (
                d.users_table.find_first (λ u. is_some_of u.phone phone && not (u.id == user_id))
                  db.users)) [
                    | inl e ↦ rw e (reply_ok phone a.configured)
                    | inr (o, e) ↦
                        let (m, k) = d.users_table.find_first_found _ db.users o e in
                        cc (All-Member _ db.users o a.phone_free m)
                  ])))

  one_pending_after :
      (phone : ℕ) → count (pending_of user_id) (replace_session d (opened phone) db).sessions ≡ 1
  unfolding replace_session
  one_pending_after phone =
      rw
        (d.sessions_table.update_many_rows (pending_of user_id)
          (close cancelled replaced_by_new_request) db.sessions)
        (rw (d.sessions_table.create_rows (opened phone) _)
          (ground (arith, none_pending user_id db.sessions)))

  stored_after : (phone : ℕ) → Member (opened phone) (replace_session d (opened phone) db).sessions
  unfolding replace_session
  stored_after phone =
      subst (Member (opened phone)) (sym (d.sessions_table.create_rows (opened phone) _)) (inl refl)

  -- A start that answers with a session leaves the user with one pending session: the new one, which
  -- ends ten minutes later, and which the answer names.
  pub start_one_pending :
      (v : StartView)
      → (start_phone_verification_session d now id raw user_id phone_raw chosen db).1 ≡ started v
      → let db' = (start_phone_verification_session d now id raw user_id phone_raw chosen db).0 in
        (count (pending_of user_id) db'.sessions ≡ 1)
        × ((s : Session) × Member s db'.sessions
            × (s.id ≡ v.session_id)
            × (s.user_id ≡ user_id)
            × (s.status ≡ pending)
            × (s.expires_at ≡ now + ttl_ms)
            × (v.expires_at ≡ s.expires_at))
  start_one_pending v =
      start_exits
        (λ o.
          o.1 ≡ started v
          → (count (pending_of user_id) o.0.sessions ≡ 1)
            × ((s : Session) × Member s o.0.sessions
                × (s.id ≡ v.session_id)
                × (s.user_id ≡ user_id)
                × (s.status ≡ pending)
                × (s.expires_at ≡ now + ttl_ms)
                × (v.expires_at ≡ s.expires_at)))
        d now db id raw user_id phone_raw chosen (λ e _ q. cc)
        λ phone a q.
          let same : reply phone ≡ v = ground (arith, reply_ok phone a.configured) in
          (
            one_pending_after phone,
            (
              opened phone,
              stored_after phone,
              ap (λ (r : StartView). r.session_id) same,
              refl,
              refl,
              refl,
              sym (ap (λ (r : StartView). r.expires_at) same),
            ),
          )
