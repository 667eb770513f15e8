-- ===== src/EmailChange/History.antt =====
-- src/services/emailChangeService.ts as a state machine over its calls.
use leader_product_api.Base.{ℕ, ◌≡◌, refl, false, arith, Text, count}
use leader_product_api.EmailChange.{
  Session, Db, Deps, Status, Reason, expired, failed, cancelled, session_expired,
  email_already_used, cancelled_by_user, is_pending, has_id, close, update_session, new_session,
  normalize_email, start_email_change_session,
}
use leader_product_api.EmailChange.Calls.{
  renew_code, reread, commit, get_email_change_session_state, resend_email_change_code,
  verify_email_change_session, cancel_email_change_session,
}
use leader_product_api.EmailChange.Exits.{start_exits, resend_exits, verify_exits, get_exits}
use leader_product_api.EmailChange.Consistent.{
  IsEmailState, update_sessions-IsEmailState, count_attempt-IsEmailState,
  replace_session-IsEmailState, commit-IsEmailState,
}

pub data Call : Type 0 where
  start : (id : ℕ) (code : Text) (user_id : ℕ) (email_raw : Text) → Call
  get cancel : (user_id session_id : ℕ) → Call
  resend : (code : Text) (user_id session_id : ℕ) → Call
  verify_code : (user_id session_id : ℕ) (code_raw : Text) → Call

unfoldable pub step : Deps → ℕ → Call → Db → Db
step d now (start id code user_id email_raw) db =
    (start_email_change_session d now id code user_id email_raw db).0
step d now (get user_id session_id) db =
    (get_email_change_session_state d now user_id session_id db).0
step d now (cancel user_id session_id) db = (cancel_email_change_session d user_id session_id db).0
step d now (resend code user_id session_id) db =
    (resend_email_change_code d now code user_id session_id db).0
step d now (verify_code user_id session_id code_raw) db =
    (verify_email_change_session d now user_id session_id code_raw db).0

-- The database gives a new row an id that no row has.
abbrev pub IsFresh : Call → Db → Type 0
IsFresh (start id code user_id email_raw) db = count (has_id id) db.sessions ≡ 0
IsFresh (get _ _) db = Unit
IsFresh _ db = Unit

pub data Reach (d : Deps) (db : Db) : Db → Type 0 where
  here : Reach d db db
  next :
      {db' : Db} (now : ℕ) (c : Call)
      → Reach d db db'
      → IsFresh c db'
      → Reach d db (step d now c db')

pub reread-Db : (d : Deps) (s : Session) (db : Db) → (reread d s db).0 ≡ db
reread-Db d s db = ground arith

module _ (d : Deps) (now : ℕ) (db : Db) (v : IsEmailState d db) where
  close-IsEmailState :
      (id : ℕ) (status : Status) (reason : Reason)
      → is_pending status ≡ false
      → IsEmailState d (update_session d id (close status reason) db)
  close-IsEmailState id status reason h =
      update_sessions-IsEmailState d db v (has_id id) (close status reason)
        (λ r _ _. (refl, refl, (λ k. cc), (λ c. (c.0, (λ k. cc)))))

  cancel-IsEmailState :
      (user_id session_id : ℕ)
      → IsEmailState d (cancel_email_change_session d user_id session_id db).0
  unfolding cancel_email_change_session
  cancel-IsEmailState user_id session_id =
      update_sessions-IsEmailState d db v _ (close cancelled cancelled_by_user)
        (λ r _ _. (refl, refl, (λ h. cc), (λ c. (c.0, (λ h. cc)))))

  -- A call keeps the invariant, if the id of a new session is fresh: session ids are unique, a user has
  -- at most one pending session, no session has more than five attempts and no pending one has five,
  -- and no two accounts share an email up to case.
  pub step-IsEmailState : (c : Call) → IsFresh c db → IsEmailState d (step d now c db)
  unfolding step
  step-IsEmailState (start id code user_id email_raw) f =
      start_exits (λ o. IsEmailState d o.0) d now db (λ e. v) id code user_id email_raw
        λ a _ _ _ _ _.
          replace_session-IsEmailState d db v
            (new_session d now id user_id a.email (normalize_email d email_raw) code) f
            (omega arith, (λ _. omega arith))
  step-IsEmailState (get user_id session_id) f =
      get_exits (IsEmailState d) d now db user_id session_id v
        (λ s _ _. close-IsEmailState s.id expired session_expired refl)
  step-IsEmailState (cancel user_id session_id) f = cancel-IsEmailState user_id session_id
  step-IsEmailState (resend code user_id session_id) f =
      resend_exits (λ o. IsEmailState d o.0) d now db (λ e. v)
        (λ s _ _. close-IsEmailState s.id expired session_expired refl) code user_id session_id
        λ s _ _.
          update_sessions-IsEmailState d db v (has_id s.id) (renew_code d now code)
            (λ r _ _. (refl, refl, (λ h. h), (λ c. c)))
  step-IsEmailState (verify_code user_id session_id code_raw) f =
      verify_exits (λ o. IsEmailState d o.0) d now db (λ e. v)
        (λ s _ _. close-IsEmailState s.id expired session_expired refl) user_id session_id code_raw
        (λ s a _. count_attempt-IsEmailState d db v s a.stored a.is_open)
        (λ s _. close-IsEmailState s.id failed email_already_used refl)
        λ s _ _ free.
          rw (reread-Db d s (commit d now user_id s db))
            (commit-IsEmailState d now user_id s db v free)

-- So it holds after every history.
pub Reach-IsEmailState :
    (d : Deps) {db db' : Db} → IsEmailState d db → Reach d db db' → IsEmailState d db'
Reach-IsEmailState d v here = v
Reach-IsEmailState d v (next {db'} now c r f) =
    step-IsEmailState d now db' (Reach-IsEmailState d v r) c f
