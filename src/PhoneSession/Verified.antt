-- ===== src/PhoneSession/Verified.antt =====
-- src/services/phoneVerificationService.ts: who is linked to what by a verification, and on which
-- grounds.
use mathlib.Core.Path.{subst}
use leader_product_api.Base.{
  ℕ, ◌<◌, ◌≡◌, refl, sym, ap, ◌∙◌, ◌≢◌, Bool, true, Option, none, some, List, Member, arith, ◌==◌,
  Text, Member-change_kept, Member-change_made, nonzero, text_eq→eq,
}
use leader_product_api.Users.{User}
use leader_product_api.Phone.{
  normalize_phone_to_digits11, normalize_phone_to_big_int, to_api_phone_string,
}
use leader_product_api.PhoneSession.{
  Session, Db, Deps, has_id, update_sessions, Provider, telegram, max,
}
use leader_product_api.PhoneSession.Telegram.{
  Verdict, accepted, verify_session, waits_for_telegram, commit_telegram, is_text, owns_telegram,
  unlink_telegram, link_telegram, unlinked, set_user, verify_phone_by_telegram_contact,
}
use leader_product_api.PhoneSession.Max.{
  waits_for_max, link_max, commit_max, verify_phone_by_max_contact,
}
use leader_product_api.PhoneSession.Exits.{telegram_exits, max_exits}

-- From `db` to `db'` the session of the account was verified: the contact's phone is the one that
-- the session asked for, in time, and user `id` has it now. `column` is the account of a user.
pub record IsVerification (waits : ℕ → Session → Bool) (column : User → Option ℕ) (d : Deps)
    (now : ℕ) (account_raw phone_raw : Text) (db db' : Db) (id : ℕ) : Type 0 where
  pub session : Session
  pub user : User
  pub account : ℕ
  pub digits : Text
  pub account_parsed : nonzero (d.parse_big_int account_raw) ≡ some account
  pub phone_normalized : normalize_phone_to_digits11 phone_raw ≡ some digits
  pub phone_asked_for : to_api_phone_string (some session.requested_phone) ≡ some digits
  pub session_stored : Member session db.sessions
  pub session_waits : waits account session ≡ true
  pub in_time : now < session.expires_at
  pub owner : session.user_id ≡ id
  pub session_verified : Member (verify_session now session) db'.sessions
  pub user_stored : Member user db'.users
  pub user_id : user.id ≡ id
  pub user_phone : user.phone ≡ nonzero (normalize_phone_to_big_int digits)
  pub user_verified_at : user.phone_verified_at ≡ some now
  pub user_account : column user ≡ some account

is_text_lem : (o : Option Text) (t : Text) → is_text o t ≡ true → o ≡ some t
is_text_lem none t h = ground arith
is_text_lem (some s) t h = ap some (text_eq→eq s t h)

same_number : (a b : ℕ) → (a == b) ≡ true → a ≡ b
same_number a b h = ground arith

Member-update :
    (d : Deps) (now : ℕ) (s : Session) (db : Db)
    → Member s db.sessions
    → Member
        (verify_session now s)
        (update_sessions d (has_id s.id) (verify_session now) db).sessions
Member-update d now s db m =
    subst (Member (verify_session now s)) (sym (d.sessions_table.update_many_rows _ _ db.sessions))
      (Member-change_made (has_id s.id) (verify_session now) db.sessions s m (ground arith))

Member-set_user :
    (d : Deps) (f : User → User) (rows : List User) (u : User)
    → Member u rows
    → Member (f u) (set_user d u.id f rows)
Member-set_user d f rows u m =
    subst (Member (f u)) (sym (d.users_table.update_many_rows _ f rows))
      (Member-change_made (λ r. r.id == u.id) f rows u m (ground arith))

-- The user who is verified is not the one who loses the account.
Member-unlinked :
    (d : Deps) (account : ℕ) (user : User) (rows : List User) (o : Option User)
    → d.users_table.find_first (owns_telegram account user) rows ≡ o
    → Member user rows
    → Member user (unlinked d o rows)
Member-unlinked d account user rows none e m = m
Member-unlinked d account user rows (some owner) e m =
    let (_, h) = d.users_table.find_first_found (owns_telegram account user) rows owner e in
    subst (Member user) (sym (d.users_table.update_many_rows _ (unlink_telegram owner) rows)) (
      Member-change_kept (λ r. r.id == owner.id) (unlink_telegram owner) rows user m (ground arith))

module _ (d : Deps) (now : ℕ) (account_raw phone_raw : Text) (username : Option Text) (db : Db)
    (id : ℕ) where
  -- A contact is accepted through Telegram only for a pending session of that account, before its
  -- end, with the phone it asks for; then the session is verified, and its user has the phone and
  -- the account, stamped with the time of the call.
  pub verify_telegram-IsVerification :
      (verify_phone_by_telegram_contact d now account_raw phone_raw username db).1 ≡ accepted id
      → IsVerification waits_for_telegram
          (λ u. u.telegram_id)
          d
          now
          account_raw
          phone_raw
          db
          (verify_phone_by_telegram_contact d now account_raw phone_raw username db).0
          id
  unfolding commit_telegram
  verify_telegram-IsVerification =
      telegram_exits
        (λ o.
          o.1 ≡ accepted id
          → IsVerification waits_for_telegram (λ u. u.telegram_id) d now account_raw phone_raw db
              o.0 id)
        d db now account_raw phone_raw username (λ w h e. absurd (h id e)) (λ _ _ _ _ _ _ _ e. cc)
        λ account phone digits s user f c e.
          let mine : user.id ≡ id = ground arith in
          record {
            session = s;
            user = link_telegram now account phone username user user;
            account = account;
            digits = digits;
            account_parsed = f.account_parsed;
            phone_normalized = f.phone_normalized;
            phone_asked_for = is_text_lem _ digits c.phone_asked_for;
            session_stored = f.session_stored;
            session_waits = f.session_waits;
            in_time = ground (arith, c.not_expired);
            owner = sym (same_number user.id s.user_id c.user_of_session) ∙ mine;
            session_verified = Member-update d now s db f.session_stored;
            user_stored =
                Member-set_user d _ _ user
                  (Member-unlinked d account user db.users _ refl c.user_stored);
            user_id = mine;
            user_phone = sym f.phone_value;
            user_verified_at = refl;
            user_account = refl;
          }

  -- The same of a contact accepted through MAX, which gives the user the MAX account.
  pub verify_max-IsVerification :
      (verify_phone_by_max_contact d now account_raw phone_raw username db).1 ≡ accepted id
      → IsVerification waits_for_max
          (λ u. u.max_id)
          d
          now
          account_raw
          phone_raw
          db
          (verify_phone_by_max_contact d now account_raw phone_raw username db).0
          id
  unfolding commit_max
  verify_max-IsVerification =
      max_exits
        (λ o.
          o.1 ≡ accepted id
          → IsVerification waits_for_max (λ u. u.max_id) d now account_raw phone_raw db o.0 id)
        d db now account_raw phone_raw username (λ w h e. absurd (h id e)) (λ _ _ _ _ _ _ _ e. cc)
        λ account phone digits s user f c alone e.
          let mine : user.id ≡ id = ground arith in
          record {
            session = s;
            user = link_max now account phone username user user;
            account = account;
            digits = digits;
            account_parsed = f.account_parsed;
            phone_normalized = f.phone_normalized;
            phone_asked_for = is_text_lem _ digits c.phone_asked_for;
            session_stored = f.session_stored;
            session_waits = f.session_waits;
            in_time = ground (arith, c.not_expired);
            owner = sym (same_number user.id s.user_id c.user_of_session) ∙ mine;
            session_verified = Member-update d now s db f.session_stored;
            user_stored = Member-set_user d _ db.users user c.user_stored;
            user_id = mine;
            user_phone = sym f.phone_value;
            user_verified_at = refl;
            user_account = refl;
          }

-- A contact that a bot passes on.
abbrev pub verify_by : Provider → Deps → (now : ℕ) → Text → Text → Option Text → Db → Db × Verdict
verify_by telegram d now account_raw phone_raw username =
    verify_phone_by_telegram_contact d now account_raw phone_raw username
verify_by max d now account_raw phone_raw username =
    verify_phone_by_max_contact d now account_raw phone_raw username

-- A contact that Telegram or MAX sends and that is refused, for whatever reason, changes no user.
pub refused_contact-users :
    (p : Provider) (d : Deps) (now : ℕ) (account_raw phone_raw : Text) (username : Option Text)
    (db : Db)
    → ((id : ℕ) → (verify_by p d now account_raw phone_raw username db).1 ≢ accepted id)
    → (verify_by p d now account_raw phone_raw username db).0.users ≡ db.users
refused_contact-users telegram d now account_raw phone_raw username db =
    telegram_exits (λ o. ((id : ℕ) → o.1 ≢ accepted id) → o.0.users ≡ db.users) d db now account_raw
      phone_raw username (λ _ _ _. refl) (λ _ _ _ _ _ _ _ _. refl)
      (λ _ _ _ _ u _ _ h. absurd (h u.id refl))
refused_contact-users max d now account_raw phone_raw username db =
    max_exits (λ o. ((id : ℕ) → o.1 ≢ accepted id) → o.0.users ≡ db.users) d db now account_raw
      phone_raw username (λ _ _ _. refl) (λ _ _ _ _ _ _ _ _. refl)
      (λ _ _ _ _ u _ _ _ h. absurd (h u.id refl))
