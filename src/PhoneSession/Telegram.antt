-- ===== src/PhoneSession/Telegram.antt =====
-- src/services/phoneVerificationService.ts: binding a session to a Telegram account, and verifying the
-- phone by the contact that the account sends.
use leader_product_api.Base.{
  ℕ, Bool, true, false, ◌&&◌, not, Option, none, some, List, leb, ◌==◌, if◌then◌else◌, is_some_of,
  text_eq, is_empty, trim, Text, nonzero, or_text,
}
use leader_product_api.Users.{User, has_credentials, resolve_auth_provider}
use leader_product_api.Phone.{
  normalize_phone_to_digits11, normalize_phone_to_big_int, to_api_phone_string,
}
use leader_product_api.PhoneSession.{
  Session, Db, Deps, Status, verified, failed, expired, Reason, session_expired, phone_mismatch,
  user_not_found, phone_already_used, telegram, same_provider, is_pending, has_id, close,
  update_sessions,
}

pub data Verdict : Type 0 where
  invalid_user_id invalid_phone session_not_found : Verdict
  rejected : Reason → Verdict
  accepted : ℕ → Verdict

-- A nullable text against one: null is equal to no text.
abbrev pub is_text : Option Text → Text → Bool
is_text none t = false
is_text (some s) t = text_eq s t

-- The first value unless it is null.
abbrev pub or_else : Option ℕ → ℕ → ℕ
or_else none b = b
or_else (some a) b = a

abbrev pub is_linked : Option ℕ → Bool
is_linked id = elim (nonzero id) [ none ↦ false | some _ ↦ true ]

abbrev pub verify_session : ℕ → Session → Session
verify_session now s = record s { status = verified; verified_at = some now; failure_reason = none }

abbrev pub waits_for_telegram : ℕ → Session → Bool
waits_for_telegram account s =
    same_provider s.provider telegram
    && (is_some_of s.telegram_user_id account && is_pending s.status)

abbrev pub asked_for : Session → Text → Bool
asked_for s digits = is_text (to_api_phone_string (some s.requested_phone)) digits

abbrev pub uses_phone : ℕ → User → User → Bool
uses_phone phone user u = is_some_of u.phone phone && not (u.id == user.id)

-- The account that held the messenger id before, `owner`, loses it.
abbrev pub unlink_telegram : User → User → User
unlink_telegram owner u = record u {
  telegram_id = none;
  telegram_username = none;
  telegram_linked_at = none;
  auth_provider = resolve_auth_provider (has_credentials owner) false (is_linked owner.max_id);
}

-- The columns written to the row `u` of `user`, as `user` was read.
abbrev pub link_telegram : (now account phone : ℕ) → Option Text → User → User → User
link_telegram now account phone username user u = record u {
  phone = some phone;
  phone_verified_at = some now;
  telegram_id = some account;
  telegram_username = or_text username (or_text user.telegram_username u.telegram_username);
  telegram_linked_at =
      some
        (if is_some_of user.telegram_id account then or_else user.telegram_linked_at now else now);
  auth_provider = resolve_auth_provider (has_credentials user) true (is_linked user.max_id);
}

abbrev pub owns_telegram : ℕ → User → User → Bool
owns_telegram account user u = is_some_of u.telegram_id account && not (u.id == user.id)

module _ (d : Deps) where
  open d use {users_table, sessions_table, hash_token, parse_big_int}

  abbrev pub parse_optional : Option Text → Option ℕ
  parse_optional none = none
  parse_optional (some t) = parse_big_int t

  abbrev pub reject : Session → Status → Reason → Db → Db × Verdict
  reject s status reason db =
      (update_sessions d (has_id s.id) (close status reason) db, rejected reason)

  abbrev pub attach_telegram : ℕ → Option Text → Session → Session
  attach_telegram account chat_id s = record s {
    telegram_user_id = some account;
    chat_id = parse_optional chat_id;
  }

  unfoldable pub bind_telegram_to_phone_verification_by_start_token :
      (now : ℕ) (token telegram_user_id : Text) (chat_id : Option Text) → Db → Db × Option Session
  bind_telegram_to_phone_verification_by_start_token now token telegram_user_id chat_id db =
      if is_empty (trim token)
      then (db, none)
      else elim (nonzero (parse_big_int telegram_user_id)) [
        | none ↦ (db, none)
        | some account ↦
            elim (sessions_table.find_first (λ s. text_eq s.token_hash (hash_token (trim token)))
              db.sessions) [
                | none ↦ (db, none)
                | some s ↦
                    if not (same_provider s.provider telegram)
                    then (db, none)
                    else if not (is_pending s.status)
                    then (db, some s)
                    else if leb s.expires_at now
                    then (
                      update_sessions d (has_id s.id) (close expired session_expired) db,
                      some (close expired session_expired s),
                    )
                    else (
                      update_sessions d (has_id s.id) (attach_telegram account chat_id) db,
                      some (attach_telegram account chat_id s),
                    )
              ]
      ]

  abbrev pub set_user : ℕ → (User → User) → List User → List User
  set_user id f rows = (users_table.update_many (λ u. u.id == id) f rows).1

  abbrev pub unlinked : Option User → List User → List User
  unlinked none rows = rows
  unlinked (some owner) rows = set_user owner.id (unlink_telegram owner) rows

  -- The transaction at the end of a verification.
  unfoldable pub commit_telegram : (now account phone : ℕ) → Option Text → Session → User → Db → Db
  commit_telegram now account phone username s user db =
      let owner = users_table.find_first (owns_telegram account user) db.users in
      record (update_sessions d (has_id s.id) (verify_session now) db) {
        users =
            set_user user.id (link_telegram now account phone username user)
              (unlinked owner db.users);
      }

  -- The first checks of a contact: the account, the phone, and the latest session that waits for
  -- the account.
  unfoldable pub find_session :
      (waits : ℕ → Session → Bool) (account_raw phone_raw : Text) (db : Db)
      → ((account phone : ℕ) → Text → Session → Db × Verdict)
      → Db × Verdict
  find_session waits account_raw phone_raw db next = elim (nonzero (parse_big_int account_raw)) [
    | none ↦ (db, invalid_user_id)
    | some account ↦ elim (normalize_phone_to_digits11 phone_raw) [
      | none ↦ (db, invalid_phone)
      | some digits ↦ elim (nonzero (normalize_phone_to_big_int digits)) [
        | none ↦ (db, invalid_phone)
        | some phone ↦
            elim (sessions_table.find_latest (waits account) (λ s. s.created_at) db.sessions) [
              | none ↦ (db, session_not_found)
              | some s ↦ next account phone digits s
            ]
      ]
    ]
  ]

  -- The checks of the session found: time, phone, user, and that no other user has the phone.
  unfoldable pub check_session :
      (now phone : ℕ) → Text → Session → Db → (User → Db × Verdict) → Db × Verdict
  check_session now phone digits s db next =
      if leb s.expires_at now
      then reject s expired session_expired db
      else if not (asked_for s digits)
      then reject s failed phone_mismatch db
      else elim (users_table.find_first (λ u. u.id == s.user_id) db.users) [
        | none ↦ reject s failed user_not_found db
        | some user ↦ elim (users_table.find_first (uses_phone phone user) db.users) [
          | some _ ↦ reject s failed phone_already_used db
          | none ↦ next user
        ]
      ]

  unfoldable pub verify_phone_by_telegram_contact :
      (now : ℕ) (telegram_user_id phone_raw : Text) (username : Option Text) → Db → Db × Verdict
  verify_phone_by_telegram_contact now telegram_user_id phone_raw username db =
      find_session waits_for_telegram telegram_user_id phone_raw db λ account phone digits s.
        check_session now phone digits s db
          λ user. (commit_telegram now account phone username s user db, accepted user.id)
