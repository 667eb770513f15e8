-- ===== src/PhoneSession/CallExits.antt =====
-- src/services/phoneVerificationService.ts: the ways out of the calls that start, read and bind.
use leader_product_api.Base.{
  ℕ, ◌≡◌, ◌≢◌, inl, inr, true, false, ◌&&◌, not, Option, none, some, All, Member, leb, ◌==◌, Text,
  text_eq, is_some_of, is_empty, trim, nonzero, Bool-cases, Option-cases,
}
use leader_product_api.Phone.{normalize_phone_to_digits11, normalize_phone_to_big_int}
use leader_product_api.PhoneSession.{
  Session, Db, Deps, Provider, telegram, max, expired, session_expired, same_provider, is_pending,
  has_id, close, update_sessions, new_session, replace_session, start_reply,
  is_phone_verification_configured, Outcome, StartError, refused, deep_link_unavailable,
  not_configured, bad_phone_format, phone_in_use, start_phone_verification_session,
  get_phone_verification_session_state,
}
use leader_product_api.PhoneSession.Telegram.{
  attach_telegram, bind_telegram_to_phone_verification_by_start_token,
}
use leader_product_api.PhoneSession.Max.{attach_max, bind_max_to_phone_verification_by_start_token}

abbrev pub default_provider : Option Provider → Provider
default_provider none = telegram
default_provider (some p) = p

-- What the checks before a new session have established.
pub record IsAllowed (d : Deps) (user_id : ℕ) (phone_raw : Text) (chosen : Option Provider)
    (db : Db) (phone : ℕ) : Type 0 where
  pub configured : is_phone_verification_configured d (default_provider chosen) ≡ true
  pub digits : Text
  pub phone_normalized : normalize_phone_to_digits11 phone_raw ≡ some digits
  pub phone_value : nonzero (normalize_phone_to_big_int digits) ≡ some phone
  pub phone_free : All (λ u. (is_some_of u.phone phone && not (u.id == user_id)) ≡ false) db.users

module _ {ℓ} (P : Db × Outcome → Type ℓ) (d : Deps) (now : ℕ) (db : Db) where
  pub start_exits :
      (id : ℕ) (raw : Text) (user_id : ℕ) (phone_raw : Text) (chosen : Option Provider)
      → ((e : StartError) → e ≢ deep_link_unavailable → P (db, refused e))
      → ((phone : ℕ)
          → IsAllowed d user_id phone_raw chosen db phone
          → P (
            replace_session d (new_session d now id user_id phone (default_provider chosen) raw) db,
            start_reply d (new_session d now id user_id phone (default_provider chosen) raw) raw,
          ))
      → P (start_phone_verification_session d now id raw user_id phone_raw chosen db)
  unfolding start_phone_verification_session
  start_exits id raw user_id phone_raw chosen unchanged opened =
      elim (Bool-cases (is_phone_verification_configured d (default_provider chosen))) [
        | inr e ↦ rw e (unchanged not_configured (λ q. cc))
        | inl e1 ↦ rw e1 (elim (Option-cases (normalize_phone_to_digits11 phone_raw)) [
          | inl e ↦ rw e (unchanged bad_phone_format (λ q. cc))
          | inr (digits, e2) ↦
              rw e2 (elim (Option-cases (nonzero (normalize_phone_to_big_int digits))) [
                | inl e ↦ rw e (unchanged bad_phone_format (λ q. cc))
                | inr (phone, e3) ↦
                    rw e3
                      (elim (Option-cases (
                        d.users_table.find_first
                          (λ u. is_some_of u.phone phone && not (u.id == user_id)) db.users)) [
                            | inr (owner, e) ↦ rw e (unchanged phone_in_use (λ q. cc))
                            | inl e4 ↦ rw e4 (
                                opened phone (record {
                                  configured = e1;
                                  digits = digits;
                                  phone_normalized = e2;
                                  phone_value = e3;
                                  phone_free = d.users_table.find_first_missing _ db.users e4;
                                }))
                          ])
              ])
        ])
      ]

module _ {ℓ} (P : Db → Type ℓ) (d : Deps) (now : ℕ) (db : Db) (unchanged : P db)
    (expires : (s : Session)
      → Member s db.sessions
      → is_pending s.status ≡ true
      → leb s.expires_at now ≡ true
      → P (update_sessions d (has_id s.id) (close expired session_expired) db)) where
  pub get_exits :
      (user_id session_id : ℕ)
      → P (get_phone_verification_session_state d now user_id session_id db).0
  unfolding get_phone_verification_session_state
  get_exits user_id session_id =
      elim (Option-cases (
        d.sessions_table.find_first (λ s. s.id == session_id && s.user_id == user_id)
          db.sessions)) [
            | inl e ↦ rw (e, get_phone_verification_session_state) unchanged
            | inr (s, e) ↦
                rw (e, get_phone_verification_session_state)
                  (elim (Bool-cases (is_pending s.status)) [
                    | inr p ↦ rw p unchanged
                    | inl p ↦ rw p (elim (Bool-cases (leb s.expires_at now)) [
                      | inr t ↦ rw t unchanged
                      | inl t ↦
                          rw t
                            (expires s (d.sessions_table.find_first_found _ db.sessions s e).0 p t)
                    ])
                  ])
          ]

  pub bind_telegram_exits :
      (token account_raw : Text) (chat : Option Text)
      → ((account : ℕ) (s : Session)
          → Member s db.sessions
          → is_pending s.status ≡ true
          → P (update_sessions d (has_id s.id) (attach_telegram d account chat) db))
      → P (bind_telegram_to_phone_verification_by_start_token d now token account_raw chat db).0
  unfolding bind_telegram_to_phone_verification_by_start_token
  bind_telegram_exits token account_raw chat attached = elim (Bool-cases (is_empty (trim token))) [
    | inl e ↦ rw e unchanged
    | inr e1 ↦ rw e1 (elim (Option-cases (nonzero (d.parse_big_int account_raw))) [
      | inl e ↦ rw e unchanged
      | inr (account, e2) ↦
          rw e2
            (elim (Option-cases (
              d.sessions_table.find_first (λ s. text_eq s.token_hash (d.hash_token (trim token)))
                db.sessions)) [
                  | inl e ↦ rw e unchanged
                  | inr (s, e3) ↦ rw e3 (elim (Bool-cases (same_provider s.provider telegram)) [
                    | inr e ↦ rw e unchanged
                    | inl e4 ↦ rw e4 (elim (Bool-cases (is_pending s.status)) [
                      | inr e ↦ rw e unchanged
                      | inl p ↦ rw p (elim (Bool-cases (leb s.expires_at now)) [
                        | inl t ↦
                            rw t (
                              expires s (d.sessions_table.find_first_found _ db.sessions s e3).0 p
                                t)
                        | inr t ↦ rw t (
                            attached account s
                              (d.sessions_table.find_first_found _ db.sessions s e3).0 p)
                      ])
                    ])
                  ])
                ])
    ])
  ]

  pub bind_max_exits :
      (token account_raw : Text) (chat : Option Text)
      → ((account : ℕ) (s : Session)
          → Member s db.sessions
          → is_pending s.status ≡ true
          → P (update_sessions d (has_id s.id) (attach_max d account chat) db))
      → P (bind_max_to_phone_verification_by_start_token d now token account_raw chat db).0
  unfolding bind_max_to_phone_verification_by_start_token
  bind_max_exits token account_raw chat attached = elim (Bool-cases (is_empty (trim token))) [
    | inl e ↦ rw e unchanged
    | inr e1 ↦ rw e1 (elim (Option-cases (nonzero (d.parse_big_int account_raw))) [
      | inl e ↦ rw e unchanged
      | inr (account, e2) ↦
          rw e2
            (elim (Option-cases (
              d.sessions_table.find_first (λ s. text_eq s.token_hash (d.hash_token (trim token)))
                db.sessions)) [
                  | inl e ↦ rw e unchanged
                  | inr (s, e3) ↦ rw e3 (elim (Bool-cases (same_provider s.provider max)) [
                    | inr e ↦ rw e unchanged
                    | inl e4 ↦ rw e4 (elim (Bool-cases (is_pending s.status)) [
                      | inr e ↦ rw e unchanged
                      | inl p ↦ rw p (elim (Bool-cases (leb s.expires_at now)) [
                        | inl t ↦
                            rw t (
                              expires s (d.sessions_table.find_first_found _ db.sessions s e3).0 p
                                t)
                        | inr t ↦ rw t (
                            attached account s
                              (d.sessions_table.find_first_found _ db.sessions s e3).0 p)
                      ])
                    ])
                  ])
                ])
    ])
  ]
