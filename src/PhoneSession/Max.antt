-- ===== src/PhoneSession/Max.antt =====
-- src/services/phoneVerificationService.ts: the same two calls for the MAX messenger. An id that another
-- account holds is refused here, where Telegram takes it over.
use leader_product_api.Base.{
  ℕ, Bool, true, ◌&&◌, not, Option, none, some, leb, ◌==◌, if◌then◌else◌, is_some_of, text_eq, Text,
  nonzero, or_text, is_empty, trim,
}
use leader_product_api.Users.{User, has_credentials, resolve_auth_provider}
use leader_product_api.PhoneSession.{
  Session, Db, Deps, failed, expired, session_expired, max_already_used, max, same_provider,
  is_pending, has_id, close, update_sessions,
}
use leader_product_api.PhoneSession.Telegram.{
  Verdict, find_session, check_session, accepted, or_else, is_linked, verify_session,
  parse_optional, reject, set_user,
}

abbrev pub waits_for_max : ℕ → Session → Bool
waits_for_max account s =
    same_provider s.provider max && (is_some_of s.max_user_id account && is_pending s.status)

abbrev pub owns_max : ℕ → User → User → Bool
owns_max account user u = is_some_of u.max_id account && not (u.id == user.id)

abbrev pub link_max : (now account phone : ℕ) → Option Text → User → User → User
link_max now account phone username user u = record u {
  phone = some phone;
  phone_verified_at = some now;
  max_id = some account;
  max_username = or_text username (or_text user.max_username u.max_username);
  max_linked_at =
      some (if is_some_of user.max_id account then or_else user.max_linked_at now else now);
  auth_provider = resolve_auth_provider (has_credentials user) (is_linked user.telegram_id) true;
}

module _ (d : Deps) where
  open d use {users_table, sessions_table, hash_token, parse_big_int}

  abbrev pub attach_max : ℕ → Option Text → Session → Session
  attach_max account chat_id s = record s {
    max_user_id = some account;
    max_chat_id = parse_optional d chat_id;
  }

  unfoldable pub bind_max_to_phone_verification_by_start_token :
      (now : ℕ) (token max_user_id : Text) (chat_id : Option Text) → Db → Db × Option Session
  bind_max_to_phone_verification_by_start_token now token max_user_id chat_id db =
      if is_empty (trim token) then (db, none) else elim (nonzero (parse_big_int max_user_id)) [
        | none ↦ (db, none)
        | some account ↦
            elim (sessions_table.find_first (λ s. text_eq s.token_hash (hash_token (trim token)))
              db.sessions) [
                | none ↦ (db, none)
                | some s ↦
                    if not (same_provider s.provider max)
                    then (db, none)
                    else if not (is_pending s.status)
                    then (db, some s)
                    else if leb s.expires_at now
                    then (
                      update_sessions d (has_id s.id) (close expired session_expired) db,
                      some (close expired session_expired s),
                    )
                    else (
                      update_sessions d (has_id s.id) (attach_max account chat_id) db,
                      some (attach_max account chat_id s),
                    )
              ]
      ]

  -- The transaction at the end of a verification.
  unfoldable pub commit_max : (now account phone : ℕ) → Option Text → Session → User → Db → Db
  commit_max now account phone username s user db =
      record (update_sessions d (has_id s.id) (verify_session now) db) {
        users = set_user d user.id (link_max now account phone username user) db.users;
      }

  unfoldable pub verify_phone_by_max_contact :
      (now : ℕ) (max_user_id phone_raw : Text) (username : Option Text) → Db → Db × Verdict
  verify_phone_by_max_contact now max_user_id phone_raw username db =
      find_session d waits_for_max max_user_id phone_raw db λ account phone digits s.
        check_session d now phone digits s db λ user.
          elim (users_table.find_first (owns_max account user) db.users) [
            | some _ ↦ reject d s failed max_already_used db
            | none ↦ (commit_max now account phone username s user db, accepted user.id)
          ]
