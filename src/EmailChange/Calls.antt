-- ===== src/EmailChange/Calls.antt =====
-- src/services/emailChangeService.ts: reading, sending again, verifying and cancelling a session.
use leader_product_api.Base.{
  ℕ, ◌+◌, ◌-◌, ◌*◌, ◌/◌, Bool, ◌&&◌, not, Option, none, some, ltb, leb, ◌==◌, if◌then◌else◌,
  text_eq, Text, trim,
}
use leader_product_api.EmailChange.{
  Session, Account, Db, Deps, pending, verified, failed, expired, cancelled, session_expired,
  too_many_attempts, invalid_code, email_already_used, replaced_by_verified_request,
  cancelled_by_user, Result, ok, fail, conflict, session_not_found, session_not_active,
  expired_session, code_invalid, attempts_exceeded, resend_too_early, record_missing, is_pending,
  has_id, mine, pending_of, close, is_code, is_expired, max_attempts, resend_cooldown_sec,
  update_sessions, update_session, uses_email, mailed,
}

-- The least whole number of seconds until the cooldown after `sent` is over.
abbrev pub retry_after_sec : (now sent : ℕ) → ℕ
retry_after_sec now sent = (sent + 1000 * resend_cooldown_sec - now + 999) / 1000

abbrev pub too_early : (now : ℕ) → Option ℕ → Option ℕ
too_early now none = none
too_early now (some sent) =
    if ltb now (sent + 1000 * resend_cooldown_sec) then some (retry_after_sec now sent) else none

-- The row of `s`, as it was read, after one more wrong code.
abbrev pub count_attempt : Session → Session → Session
count_attempt s r =
    let attempts = s.attempts_count + 1 in
    let too_many = leb max_attempts attempts in
    record r {
      attempts_count = attempts;
      status = if too_many then failed else pending;
      failure_reason = some (if too_many then too_many_attempts else invalid_code);
    }

abbrev pub verify : ℕ → Session → Session
verify now r = record r { status = verified; verified_at = some now; failure_reason = none }

abbrev pub other_pending : (user_id id : ℕ) → Session → Bool
other_pending user_id id r = pending_of user_id r && not (r.id == id)

abbrev pub set_email : Text → Account → Account
set_email email a = record a { email = some email }

module _ (d : Deps) where
  open d use {accounts_table, sessions_table, hash_code}

  unfoldable pub get_email_change_session_state :
      (now user_id session_id : ℕ) → Db → Db × Option Session
  get_email_change_session_state now user_id session_id db =
      elim (sessions_table.find_first (mine user_id session_id) db.sessions) [
        | none ↦ (db, none)
        | some s ↦
            if is_pending s.status && is_expired now s.expires_at
            then (
              update_session d s.id (close expired session_expired) db,
              some (close expired session_expired s),
            )
            else (db, some s)
      ]

  -- The checks that sending again and verifying have in common: the session is the user's, pending
  -- and not over.
  unfoldable pub with_active :
      (now user_id session_id : ℕ) (db : Db) → (Session → Db × Result) → Db × Result
  with_active now user_id session_id db next =
      elim (sessions_table.find_first (mine user_id session_id) db.sessions) [
        | none ↦ (db, fail session_not_found)
        | some s ↦
            if not (is_pending s.status)
            then (db, fail session_not_active)
            else if is_expired now s.expires_at
            then (update_session d s.id (close expired session_expired) db, fail expired_session)
            else next s
      ]

  abbrev pub renew_code : (now : ℕ) → Text → Session → Session
  renew_code now code s = record s {
    code_hash = hash_code code;
    last_sent_at = some now;
    failure_reason = none;
  }

  -- `code` is the fresh random code.
  unfoldable pub resend_email_change_code :
      (now : ℕ) (code : Text) (user_id session_id : ℕ) → Db → Db × Result
  resend_email_change_code now code user_id session_id db =
      with_active now user_id session_id db λ s. elim (too_early now s.last_sent_at) [
        | some seconds ↦ (db, fail (resend_too_early seconds))
        | none ↦
            (update_session d s.id (renew_code now code) db, mailed d (renew_code now code s) code)
      ]

  -- The transaction at the end of a verification, where the user is stored; without the user its first
  -- update throws, and nothing is written.
  unfoldable pub commit : (now user_id : ℕ) → Session → Db → Db
  commit now user_id s db =
      let done = update_session d s.id (verify now) db in
      let alone =
        update_sessions d (other_pending user_id s.id)
          (close cancelled replaced_by_verified_request) done in
      record alone {
        accounts =
            (accounts_table.update_many (λ a. a.id == user_id) (set_email s.requested_email)
              db.accounts).1;
      }

  abbrev pub reread : Session → Db → Db × Result
  reread s db = elim (sessions_table.find_first (has_id s.id) db.sessions) [
    | none ↦ (db, fail session_not_found)
    | some r ↦ (db, ok r)
  ]

  unfoldable pub verify_email_change_session :
      (now user_id session_id : ℕ) (code_raw : Text) → Db → Db × Result
  verify_email_change_session now user_id session_id code_raw db =
      if not (is_code (trim code_raw))
      then (db, fail code_invalid)
      else with_active now user_id session_id db λ s.
        if not (text_eq (hash_code (trim code_raw)) s.code_hash)
        then (
          update_session d s.id (count_attempt s) db,
          fail
              (if leb max_attempts (s.attempts_count + 1) then attempts_exceeded else code_invalid),
        )
        else elim (accounts_table.find_first (uses_email d s.requested_email user_id) db.accounts) [
          | some _ ↦ (update_session d s.id (close failed email_already_used) db, fail conflict)
          | none ↦ elim (accounts_table.find_first (λ a. a.id == user_id) db.accounts) [
            | none ↦ (db, fail record_missing)
            | some _ ↦ reread s (commit now user_id s db)
          ]
        ]

  unfoldable pub cancel_email_change_session : (user_id session_id : ℕ) → Db → Db × Bool
  cancel_email_change_session user_id session_id db =
      let test : Session → Bool =
        λ s. s.id == session_id && (s.user_id == user_id && is_pending s.status) in
      let (n, rows) =
        sessions_table.update_many test (close cancelled cancelled_by_user) db.sessions in
      (record db { sessions = rows }, not (n == 0))
