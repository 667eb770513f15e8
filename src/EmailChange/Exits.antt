-- ===== src/EmailChange/Exits.antt =====
-- The ways out of the calls of src/services/emailChangeService.ts.
use leader_product_api.Base.{
  ℕ, ◌+◌, ◌≡◌, inl, inr, true, false, none, All, Member, leb, ◌==◌, if◌then◌else◌, text_eq, Text,
  trim, Bool-cases, Option-cases,
}
use leader_product_api.EmailChange.{
  Session, Account, Db, Deps, expired, failed, session_expired, email_already_used, Error, Result,
  fail, is_pending, mine, close, is_code, is_expired, max_attempts, update_session, uses_email,
  mailed, same_as_email, new_session, replace_session, is_email, normalize_email,
  start_email_change_session, conflict, session_not_found, session_not_active, expired_session,
  code_invalid, attempts_exceeded, resend_too_early, invalid_email, user_not_found, same_as_current,
  record_missing,
}
use leader_product_api.EmailChange.Calls.{
  with_active, too_early, renew_code, count_attempt, commit, reread, get_email_change_session_state,
  resend_email_change_code, verify_email_change_session,
}

-- What the checks before a write have established of the session.
pub record IsActive (now user_id session_id : ℕ) (db : Db) (s : Session) : Type 0 where
  pub stored : Member s db.sessions
  pub is_mine : mine user_id session_id s ≡ true
  pub is_open : is_pending s.status ≡ true
  pub in_time : is_expired now s.expires_at ≡ false

module _ {ℓ} (P : Db × Result → Type ℓ) (d : Deps) (now : ℕ) (db : Db)
    (unchanged : (e : Error) → P (db, fail e)) where
  pub start_exits :
      (id : ℕ) (code : Text) (user_id : ℕ) (email_raw : Text)
      → ((a : Account)
          → is_email (normalize_email d email_raw) ≡ true
          → Member a db.accounts
          → (a.id == user_id) ≡ true
          → same_as_email d a.email (normalize_email d email_raw) ≡ false
          → All (λ b. uses_email d (normalize_email d email_raw) user_id b ≡ false) db.accounts
          → let s = new_session d now id user_id a.email (normalize_email d email_raw) code in
            P (replace_session d s db, mailed d s code))
      → P (start_email_change_session d now id code user_id email_raw db)
  unfolding start_email_change_session
  start_exits id code user_id email_raw opened =
      elim (Bool-cases (is_email (normalize_email d email_raw))) [
        | inr e ↦ rw e (unchanged invalid_email)
        | inl e1 ↦
            rw e1
              (elim (Option-cases
                (d.accounts_table.find_first (λ a. a.id == user_id) db.accounts)) [
                  | inl e ↦ rw e (unchanged user_not_found)
                  | inr (a, e2) ↦
                      rw e2
                        (elim (Bool-cases (same_as_email d a.email (normalize_email d email_raw))) [
                          | inl e ↦ rw e (unchanged same_as_current)
                          | inr e3 ↦
                              rw e3
                                (elim (Option-cases (
                                  d.accounts_table.find_first
                                    (uses_email d (normalize_email d email_raw) user_id)
                                    db.accounts)) [
                                      | inr (other, e) ↦ rw e (unchanged conflict)
                                      | inl e4 ↦
                                          let (m, k) =
                                            d.accounts_table.find_first_found _ db.accounts a e2 in
                                          rw e4 (
                                            opened a e1 m k e3 (
                                              d.accounts_table.find_first_missing _ db.accounts e4))
                                    ])
                        ])
                ])
      ]

  module _
      (expires : (s : Session)
        → Member s db.sessions
        → is_pending s.status ≡ true
        → P (update_session d s.id (close expired session_expired) db, fail expired_session)) where
    with_active_exits :
        (user_id session_id : ℕ) (next : Session → Db × Result)
        → ((s : Session) → IsActive now user_id session_id db s → P (next s))
        → P (with_active d now user_id session_id db next)
    unfolding with_active
    with_active_exits user_id session_id next active =
        elim (Option-cases (d.sessions_table.find_first (mine user_id session_id) db.sessions)) [
          | inl e ↦ rw (e, with_active) (unchanged session_not_found)
          | inr (s, e) ↦
              let (m, k) =
                d.sessions_table.find_first_found (mine user_id session_id) db.sessions s e in
              rw (e, with_active)
                (elim (Bool-cases (is_pending s.status)) [
                  | inr p ↦ rw p (unchanged session_not_active)
                  | inl p ↦ rw p (elim (Bool-cases (is_expired now s.expires_at)) [
                    | inl t ↦ rw t (expires s m p)
                    | inr t ↦
                        rw t
                          (active s (record { stored = m; is_mine = k; is_open = p; in_time = t }))
                  ])
                ])
        ]

    pub resend_exits :
        (code : Text) (user_id session_id : ℕ)
        → ((s : Session)
            → IsActive now user_id session_id db s
            → too_early now s.last_sent_at ≡ none
            → P (
              update_session d s.id (renew_code d now code) db,
              mailed d (renew_code d now code s) code,
            ))
        → P (resend_email_change_code d now code user_id session_id db)
    unfolding resend_email_change_code
    resend_exits code user_id session_id sent = with_active_exits user_id session_id _ λ s a.
        elim (Option-cases (too_early now s.last_sent_at)) [
          | inl e ↦ rw e (sent s a e)
          | inr (n, e) ↦ rw e (unchanged (resend_too_early n))
        ]

    pub verify_exits :
        (user_id session_id : ℕ) (code_raw : Text)
        → ((s : Session)
            → IsActive now user_id session_id db s
            → text_eq (d.hash_code (trim code_raw)) s.code_hash ≡ false
            → P (
              update_session d s.id (count_attempt s) db,
              fail (
                  if leb max_attempts (s.attempts_count + 1)
                  then attempts_exceeded
                  else code_invalid),
            ))
        → ((s : Session)
            → IsActive now user_id session_id db s
            → P (update_session d s.id (close failed email_already_used) db, fail conflict))
        → ((s : Session)
            → IsActive now user_id session_id db s
            → text_eq (d.hash_code (trim code_raw)) s.code_hash ≡ true
            → All (λ b. uses_email d s.requested_email user_id b ≡ false) db.accounts
            → P (reread d s (commit d now user_id s db)))
        → P (verify_email_change_session d now user_id session_id code_raw db)
    unfolding verify_email_change_session
    verify_exits user_id session_id code_raw wrong taken done =
        elim (Bool-cases (is_code (trim code_raw))) [
          | inr e ↦ rw e (unchanged code_invalid)
          | inl e ↦ rw e (
              with_active_exits user_id session_id _ λ s a.
                elim (Bool-cases (text_eq (d.hash_code (trim code_raw)) s.code_hash)) [
                  | inr h ↦ rw h (wrong s a h)
                  | inl h ↦
                      rw h
                        (elim (Option-cases (
                          d.accounts_table.find_first (uses_email d s.requested_email user_id)
                            db.accounts)) [
                              | inr (other, k) ↦ rw k (taken s a)
                              | inl k ↦
                                  rw k
                                    (elim (Option-cases (
                                      d.accounts_table.find_first (λ b. b.id == user_id)
                                        db.accounts)) [
                                          | inl n ↦ rw n (unchanged record_missing)
                                          | inr (own, n) ↦ rw n (
                                              done s a h (
                                                d.accounts_table.find_first_missing _ db.accounts
                                                  k))
                                        ])
                            ])
                ])
        ]

module _ {ℓ} (P : Db → Type ℓ) (d : Deps) (now : ℕ) (db : Db) where
  pub get_exits :
      (user_id session_id : ℕ)
      → P db
      → ((s : Session)
          → Member s db.sessions
          → is_pending s.status ≡ true
          → P (update_session d s.id (close expired session_expired) db))
      → P (get_email_change_session_state d now user_id session_id db).0
  unfolding get_email_change_session_state
  get_exits user_id session_id unchanged expires =
      elim (Option-cases (d.sessions_table.find_first (mine user_id session_id) db.sessions)) [
        | inl e ↦ rw (e, get_email_change_session_state) unchanged
        | inr (s, e) ↦
            rw (e, get_email_change_session_state)
              (elim (Bool-cases (is_pending s.status)) [
                | inr p ↦ rw p unchanged
                | inl p ↦ rw p (elim (Bool-cases (is_expired now s.expires_at)) [
                  | inr t ↦ rw t unchanged
                  | inl t ↦
                      rw t (expires s (d.sessions_table.find_first_found _ db.sessions s e).0 p)
                ])
              ])
      ]
