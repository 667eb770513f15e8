-- ===== src/PhoneSession/Exits.antt =====
-- src/services/phoneVerificationService.ts: the ways out of the two verification calls.
use leader_product_api.Base.{
  ℕ, ◌≤◌, ◌≡◌, refl, ◌≢◌, inl, inr, Bool, true, false, Option, some, All, Member, leb, ◌==◌, Text,
  nonzero, Bool-cases, Option-cases,
}
use leader_product_api.Users.{User}
use leader_product_api.Phone.{normalize_phone_to_digits11, normalize_phone_to_big_int}
use leader_product_api.PhoneSession.{
  Session, Db, Deps, Status, Reason, failed, expired, is_pending, session_expired, phone_mismatch,
  user_not_found, phone_already_used, max_already_used,
}
use leader_product_api.PhoneSession.Telegram.{
  Verdict, accepted, find_session, check_session, invalid_user_id, invalid_phone, session_not_found,
  reject, asked_for, uses_phone, waits_for_telegram, commit_telegram,
  verify_phone_by_telegram_contact,
}
use leader_product_api.PhoneSession.Max.{
  waits_for_max, owns_max, commit_max, verify_phone_by_max_contact,
}

-- What the search for a session has established; `waits` tells the sessions of an account.
pub record IsFound (waits : ℕ → Session → Bool) (d : Deps) (account_raw phone_raw : Text) (db : Db)
    (account phone : ℕ) (digits : Text) (s : Session) : Type 0 where
  pub account_parsed : nonzero (d.parse_big_int account_raw) ≡ some account
  pub phone_normalized : normalize_phone_to_digits11 phone_raw ≡ some digits
  pub phone_value : nonzero (normalize_phone_to_big_int digits) ≡ some phone
  pub session_stored : Member s db.sessions
  pub session_waits : waits account s ≡ true
  pub session_latest : All (λ r. waits account r ≡ true → r.created_at ≤ s.created_at) db.sessions

-- What the checks before a transaction have established.
pub record IsChecked (now phone : ℕ) (digits : Text) (s : Session) (db : Db) (user : User)
    : Type 0 where
  pub not_expired : leb s.expires_at now ≡ false
  pub phone_asked_for : asked_for s digits ≡ true
  pub user_stored : Member user db.users
  pub user_of_session : (user.id == s.user_id) ≡ true
  pub phone_free : All (λ u. uses_phone phone user u ≡ false) db.users

module _ {ℓ} (P : Db × Verdict → Type ℓ) (d : Deps) (db : Db) where
  find_session_exits :
      (waits : ℕ → Session → Bool) (account_raw phone_raw : Text)
      (next : (account phone : ℕ) → Text → Session → Db × Verdict)
      → ((v : Verdict) → ((id : ℕ) → v ≢ accepted id) → P (db, v))
      → ((account phone : ℕ) (digits : Text) (s : Session)
          → IsFound waits d account_raw phone_raw db account phone digits s
          → P (next account phone digits s))
      → P (find_session d waits account_raw phone_raw db next)
  unfolding find_session
  find_session_exits waits account_raw phone_raw next unchanged found =
      elim (Option-cases (nonzero (d.parse_big_int account_raw))) [
        | inl e ↦ rw (e, find_session) (unchanged invalid_user_id (λ id q. cc))
        | inr (account, e1) ↦
            rw (e1, find_session)
              (elim (Option-cases (normalize_phone_to_digits11 phone_raw)) [
                | inl e ↦ rw e (unchanged invalid_phone (λ id q. cc))
                | inr (digits, e2) ↦
                    rw e2 (elim (Option-cases (nonzero (normalize_phone_to_big_int digits))) [
                      | inl e ↦ rw e (unchanged invalid_phone (λ id q. cc))
                      | inr (phone, e3) ↦ rw e3 (elim (Option-cases (latest account)) [
                        | inl e ↦ rw e (unchanged session_not_found (λ id q. cc))
                        | inr (s, e4) ↦
                            let (stored, w, most) =
                              d.sessions_table.find_latest_found (waits account) (λ r. r.created_at)
                                db.sessions s e4 in
                            rw e4 (
                              found account phone digits s (record {
                                account_parsed = e1;
                                phone_normalized = e2;
                                phone_value = e3;
                                session_stored = stored;
                                session_waits = w;
                                session_latest = most;
                              }))
                      ])
                    ])
              ])
      ]
    where
      latest : ℕ → Option Session
      latest account = d.sessions_table.find_latest (waits account) (λ r. r.created_at) db.sessions

  check_session_exits :
      (now phone : ℕ) (digits : Text) (s : Session) (next : User → Db × Verdict)
      → ((status : Status) (reason : Reason)
          → is_pending status ≡ false
          → P (reject d s status reason db))
      → ((user : User) → IsChecked now phone digits s db user → P (next user))
      → P (check_session d now phone digits s db next)
  unfolding check_session
  check_session_exits now phone digits s next rejected checked =
      elim (Bool-cases (leb s.expires_at now)) [
        | inl e ↦ rw (e, check_session) (rejected expired session_expired refl)
        | inr e1 ↦
            rw (e1, check_session)
              (elim (Bool-cases (asked_for s digits)) [
                | inr e ↦ rw e (rejected failed phone_mismatch refl)
                | inl e2 ↦
                    rw e2
                      (elim (Option-cases
                        (d.users_table.find_first (λ u. u.id == s.user_id) db.users)) [
                          | inl e ↦ rw e (rejected failed user_not_found refl)
                          | inr (user, e3) ↦
                              rw e3
                                (elim (Option-cases
                                  (d.users_table.find_first (uses_phone phone user) db.users)) [
                                    | inr (other, e) ↦
                                        rw e (rejected failed phone_already_used refl)
                                    | inl e4 ↦
                                        let (stored, mine) =
                                          d.users_table.find_first_found _ db.users user e3 in
                                        rw e4 (
                                          checked user (record {
                                            not_expired = e1;
                                            phone_asked_for = e2;
                                            user_stored = stored;
                                            user_of_session = mine;
                                            phone_free =
                                                d.users_table.find_first_missing _ db.users e4;
                                          }))
                                  ])
                        ])
              ])
      ]

  -- What a property must show of a verification through Telegram.
  pub telegram_exits :
      (now : ℕ) (account_raw phone_raw : Text) (username : Option Text)
      → ((v : Verdict) → ((id : ℕ) → v ≢ accepted id) → P (db, v))
      → ((account : ℕ) (s : Session) (status : Status) (reason : Reason)
          → Member s db.sessions
          → waits_for_telegram account s ≡ true
          → is_pending status ≡ false
          → P (reject d s status reason db))
      → ((account phone : ℕ) (digits : Text) (s : Session) (user : User)
          → IsFound waits_for_telegram d account_raw phone_raw db account phone digits s
          → IsChecked now phone digits s db user
          → P (commit_telegram d now account phone username s user db, accepted user.id))
      → P (verify_phone_by_telegram_contact d now account_raw phone_raw username db)
  unfolding verify_phone_by_telegram_contact
  telegram_exits now account_raw phone_raw username unchanged rejected committed =
      find_session_exits waits_for_telegram account_raw phone_raw _ unchanged
        λ account phone digits s f.
          check_session_exits now phone digits s _
            (λ status reason h. rejected account s status reason f.session_stored f.session_waits h)
            (λ user c. committed account phone digits s user f c)

  -- And of one through MAX, where in addition nobody else may have the account.
  pub max_exits :
      (now : ℕ) (account_raw phone_raw : Text) (username : Option Text)
      → ((v : Verdict) → ((id : ℕ) → v ≢ accepted id) → P (db, v))
      → ((account : ℕ) (s : Session) (status : Status) (reason : Reason)
          → Member s db.sessions
          → waits_for_max account s ≡ true
          → is_pending status ≡ false
          → P (reject d s status reason db))
      → ((account phone : ℕ) (digits : Text) (s : Session) (user : User)
          → IsFound waits_for_max d account_raw phone_raw db account phone digits s
          → IsChecked now phone digits s db user
          → All (λ u. owns_max account user u ≡ false) db.users
          → P (commit_max d now account phone username s user db, accepted user.id))
      → P (verify_phone_by_max_contact d now account_raw phone_raw username db)
  unfolding verify_phone_by_max_contact
  max_exits now account_raw phone_raw username unchanged rejected committed =
      find_session_exits waits_for_max account_raw phone_raw _ unchanged λ account phone digits s f.
        check_session_exits now phone digits s _
          (λ status reason h. rejected account s status reason f.session_stored f.session_waits h)
          λ user c.
            elim (Option-cases (d.users_table.find_first (owns_max account user) db.users)) [
              | inr (other, e) ↦
                  rw e (
                    rejected account s failed max_already_used f.session_stored f.session_waits
                      refl)
              | inl e ↦ rw e (
                  committed account phone digits s user f c
                    (d.users_table.find_first_missing _ db.users e))
            ]
