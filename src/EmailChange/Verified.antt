-- ===== src/EmailChange/Verified.antt =====
-- src/services/emailChangeService.ts: a verified change, and a code sent again.
use mathlib.Core.Path.{subst}
use leader_product_api.EmailChange.History.{reread-Db}
use leader_product_api.Base.{
  ℕ, ◌+◌, ◌*◌, ◌≤◌, ◌≡◌, ◌↔◌, refl, sym, inl, inr, Bool, true, false, Option, none, some, List, All,
  All-Member, Member, arith, ◌==◌, text_eq, text_eq→eq, Text, trim, Option-cases, count,
  count-eq-zero, change, All-change-intro, ap, Bool-cases, count_unique, Member-change_made,
  Member-change_kept,
}
use leader_product_api.EmailChange.{
  Session, Db, Deps, verified, cancelled, Status, replaced_by_verified_request, ok, fail,
  session_not_found, is_pending, has_id, pending_of, close, update_session, mailed, mail_failed,
}
use leader_product_api.EmailChange.Calls.{
  too_early, renew_code, verify, other_pending, set_email, commit, reread, resend_email_change_code,
  verify_email_change_session,
}
use leader_product_api.EmailChange.Exits.{IsActive, resend_exits, verify_exits}

-- From `db` to `db'` the session was verified by the right code while it was open; the user's email is
-- the one asked for, and no session of the user is pending.
pub record IsChange (d : Deps) (now user_id session_id : ℕ) (code_raw : Text) (db db' : Db)
    (r : Session) : Type 0 where
  pub session : Session
  pub active : IsActive now user_id session_id db session
  pub code_right : d.hash_code (trim code_raw) ≡ session.code_hash
  pub email_set :
      All (λ a. (a.id == user_id) ≡ true → a.email ≡ some session.requested_email) db'.accounts
  pub none_left : count (pending_of user_id) db'.sessions ≡ 0
  pub result_stored : Member r db'.sessions
  pub result_id : (r.id == session.id) ≡ true
  pub result_verified : r.status ≡ verified

abbrev is_verified : Status → Bool
is_verified verified = true
is_verified _ = false

module _ (d : Deps) (now user_id : ℕ) (s : Session) (db : Db) where
  abbrev done : List Session
  done = change (has_id s.id) (verify now) db.sessions

  commit-sessions :
      (commit d now user_id s db).sessions
      ≡ change (other_pending user_id s.id) (close cancelled replaced_by_verified_request) done
  unfolding commit
  commit-sessions = rw (d.sessions_table.update_many_rows (has_id s.id) (verify now) db.sessions) (
      d.sessions_table.update_many_rows (other_pending user_id s.id)
        (close cancelled replaced_by_verified_request) done)

  done_verified : All (λ r. has_id s.id r ≡ true → r.status ≡ verified) done
  done_verified =
      All-change-intro _ (has_id s.id) (verify now) db.sessions (λ r _ _ _. refl) (λ r _ e h. cc)

  commit_verified :
      All (λ r. has_id s.id r ≡ true → r.status ≡ verified) (commit d now user_id s db).sessions
  commit_verified = rw commit-sessions (
      All-change-intro _ (other_pending user_id s.id) (close cancelled replaced_by_verified_request)
        done (λ r _ e h. ground arith) (λ r m _. All-Member _ done r done_verified m))

  commit_none_left : count (pending_of user_id) (commit d now user_id s db).sessions ≡ 0
  commit_none_left = rw commit-sessions (
      count-eq-zero (pending_of user_id) _ (
        All-change-intro _ (other_pending user_id s.id)
          (close cancelled replaced_by_verified_request) done (λ r _ _. ground arith)
          (λ r m e. ground (arith, All-Member _ done r done_verified m))))

  commit_email :
      All
        (λ a. (a.id == user_id) ≡ true → a.email ≡ some s.requested_email)
        (commit d now user_id s db).accounts
  unfolding commit
  commit_email =
      rw
        (d.accounts_table.update_many_rows (λ a. a.id == user_id) (set_email s.requested_email)
          db.accounts)
        (All-change-intro _ (λ a. a.id == user_id) (set_email s.requested_email) db.accounts
          (λ a _ _ _. refl) (λ a _ e h. cc))

reread_changed :
    (d : Deps) (now user_id session_id : ℕ) (code_raw : Text) (db : Db) (r s : Session)
    → IsActive now user_id session_id db s
    → text_eq (d.hash_code (trim code_raw)) s.code_hash ≡ true
    → (reread d s (commit d now user_id s db)).1 ≡ ok r
    → IsChange d now user_id session_id code_raw db (reread d s (commit d now user_id s db)).0 r
reread_changed d now user_id session_id code_raw db r s a h q =
    elim (Option-cases (d.sessions_table.find_first (has_id s.id) after.sessions)) [
      | inl e ↦ cc (ground_none e)
      | inr (t, e) ↦
          let same : t ≡ r = ground arith in
          let (m, k) = d.sessions_table.find_first_found (has_id s.id) after.sessions t e in
          subst (λ x. IsChange d now user_id session_id code_raw db x r) (sym (reread-Db d s after))
            (subst (IsChange d now user_id session_id code_raw db after) same (record {
              session = s;
              active = a;
              code_right = text_eq→eq (d.hash_code (trim code_raw)) s.code_hash h;
              email_set = commit_email d now user_id s db;
              none_left = commit_none_left d now user_id s db;
              result_stored = m;
              result_id = k;
              result_verified =
                  All-Member _ after.sessions t (commit_verified d now user_id s db) m k;
            }))
    ]
  where
    after : Db
    after = commit d now user_id s db

    ground_none :
        d.sessions_table.find_first (has_id s.id) after.sessions ≡ none
        → ok r ≡ fail session_not_found
    ground_none e = ground arith

-- A verification that answers with a session took the right code for an open session of the user;
-- afterwards the user's email is the one asked for, that session is verified, and no session of the
-- user is pending.
pub verify-IsChange :
    (d : Deps) (now user_id session_id : ℕ) (code_raw : Text) (db : Db) (r : Session)
    → (verify_email_change_session d now user_id session_id code_raw db).1 ≡ ok r
    → IsChange d now user_id session_id code_raw db
        (verify_email_change_session d now user_id session_id code_raw db).0
        r
verify-IsChange d now user_id session_id code_raw db r =
    verify_exits (λ o. o.1 ≡ ok r → IsChange d now user_id session_id code_raw db o.0 r) d now db
      (λ e q. cc) (λ s _ _ q. cc) user_id session_id code_raw (λ s _ _ q. cc) (λ s _ q. cc)
      λ s a h _. reread_changed d now user_id session_id code_raw db r s a h

-- From `db` to `db'` the code of `session` was sent again at `now`, at least thirty seconds after the last
-- time: the one row of its id is `r`, which takes the new code and keeps its end, its address and its
-- count of attempts; the other sessions and all accounts are as they were.
pub record IsResent (d : Deps) (now : ℕ) (code : Text) (user_id session_id : ℕ) (db db' : Db)
    (r : Session) : Type 0 where
  pub session : Session
  pub active : IsActive now user_id session_id db session
  pub cooled : (sent : ℕ) → session.last_sent_at ≡ some sent → sent + 1000 * 30 ≤ now
  pub mail_taken : d.send_verification_email session.requested_email code ≡ true
  pub result_stored : Member r db'.sessions
  pub result_only : All (λ s. has_id session.id s ≡ true → s ≡ r) db'.sessions
  pub others_kept :
      (s : Session) → Member s db.sessions → has_id session.id s ≡ false → Member s db'.sessions
  pub accounts_kept : db'.accounts ≡ db.accounts
  pub takes_code : r.code_hash ≡ d.hash_code code
  pub same_owner : (r.id ≡ session.id) × (r.user_id ≡ session.user_id)
  pub same_end : r.expires_at ≡ session.expires_at
  pub same_attempts : r.attempts_count ≡ session.attempts_count
  pub same_email : r.requested_email ≡ session.requested_email
  pub still_open : is_pending r.status ≡ true
  pub stamped : r.last_sent_at ≡ some now

cooled_lem :
    (now : ℕ) (last : Option ℕ) (sent : ℕ)
    → too_early now last ≡ none
    → last ≡ some sent
    → sent + 1000 * 30 ≤ now
cooled_lem now none sent h e = ground arith
cooled_lem now (some t) sent h e = ground arith

module _ (d : Deps) (now : ℕ) (code : Text) (user_id session_id : ℕ) (db : Db)
    (unique : (id : ℕ) → count (has_id id) db.sessions ≤ 1) where
  abbrev renewed : Session → Db
  renewed s = update_session d s.id (renew_code d now code) db

  renewed-IsResent :
      (s : Session)
      → IsActive now user_id session_id db s
      → too_early now s.last_sent_at ≡ none
      → d.send_verification_email s.requested_email code ≡ true
      → IsResent d now code user_id session_id db (renewed s) (renew_code d now code s)
  renewed-IsResent s a e sent = record {
    session = s;
    active = a;
    cooled = λ t. cooled_lem now s.last_sent_at t e;
    mail_taken = sent;
    result_stored = subst (Member (renew_code d now code s)) (sym rows) (
        Member-change_made (has_id s.id) (renew_code d now code) db.sessions s a.stored
          (ground arith));
    result_only = subst (All (λ t. has_id s.id t ≡ true → t ≡ renew_code d now code s)) (sym rows) (
        All-change-intro _ (has_id s.id) (renew_code d now code) db.sessions
          (λ t m h _. ap (renew_code d now code) (same t m h)) (λ t m h k. cc));
    others_kept = λ t m h.
        subst (Member t) (sym rows)
          (Member-change_kept (has_id s.id) (renew_code d now code) db.sessions t m h);
    accounts_kept = refl;
    takes_code = refl;
    same_owner = (refl, refl);
    same_end = refl;
    same_attempts = refl;
    same_email = refl;
    still_open = a.is_open;
    stamped = refl;
  }
    where
      rows : (renewed s).sessions ≡ change (has_id s.id) (renew_code d now code) db.sessions
      rows = d.sessions_table.update_many_rows (has_id s.id) (renew_code d now code) db.sessions

      same : (t : Session) → Member t db.sessions → has_id s.id t ≡ true → t ≡ s
      same t m h =
          count_unique (has_id s.id) db.sessions t s (unique s.id) m h a.stored (ground arith)

  -- Where session ids are unique, a code is sent again only for an open session of the user, thirty
  -- seconds or more after the last time, and only if the mail server takes it; afterwards the stored
  -- session has the hash of that code and its end, its address and its count of attempts as before,
  -- and every other session and all accounts are unchanged.
  pub resend-IsResent :
      (r : Session)
      → (resend_email_change_code d now code user_id session_id db).1 ≡ ok r
      → IsResent d now code user_id session_id db
          (resend_email_change_code d now code user_id session_id db).0
          r
  resend-IsResent r =
      resend_exits (λ o. o.1 ≡ ok r → IsResent d now code user_id session_id db o.0 r) d now db
        (λ e q. cc) (λ s _ _ q. cc) code user_id session_id
        λ s a e q. elim (Bool-cases (d.send_verification_email s.requested_email code)) [
          | inr h ↦ cc (refused s h)
          | inl h ↦
              let same : renew_code d now code s ≡ r = ground (arith, h) in
              subst (IsResent d now code user_id session_id db (renewed s)) same
                (renewed-IsResent s a e h)
        ]
    where
      refused :
          (s : Session)
          → d.send_verification_email s.requested_email code ≡ false
          → mailed d (renew_code d now code s) code ≡ fail mail_failed
      refused s h = rw h refl

-- The wait that a refused resend names is exact: after it, and not a second earlier, the cooldown is
-- over.
pub too_early_exact :
    (now sent n m : ℕ)
    → too_early now (some sent) ≡ some n
    → (too_early (now + 1000 * m) (some sent) ≡ none) ↔ (n ≤ m)
too_early_exact now sent n m h = (ground arith, ground arith)
