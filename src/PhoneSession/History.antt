-- ===== src/PhoneSession/History.antt =====
-- src/services/phoneVerificationService.ts as a state machine: a call is one operation at a time,
-- and a history is a sequence of calls in any order.
use leader_product_api.Base.{ℕ, ◌≡◌, refl, false, Option, Text, count}
use leader_product_api.PhoneSession.{
  Session, Db, Deps, Provider, Status, Reason, expired, cancelled, session_expired,
  cancelled_by_user, is_pending, close, update_sessions, new_session, has_id,
  start_phone_verification_session, get_phone_verification_session_state,
  cancel_phone_verification_session,
}
use leader_product_api.PhoneSession.Telegram.{
  reject, attach_telegram, bind_telegram_to_phone_verification_by_start_token,
  verify_phone_by_telegram_contact,
}
use leader_product_api.PhoneSession.Max.{
  attach_max, bind_max_to_phone_verification_by_start_token, verify_phone_by_max_contact,
}
use leader_product_api.PhoneSession.CallExits.{
  default_provider, start_exits, get_exits, bind_telegram_exits, bind_max_exits,
}
use leader_product_api.PhoneSession.Exits.{telegram_exits, max_exits}
use leader_product_api.PhoneSession.Consistent.{IsConsistent, update_sessions-IsConsistent}
use leader_product_api.PhoneSession.Writes.{
  commit_telegram-IsConsistent, commit_max-IsConsistent, replace_session-IsConsistent,
}

pub data Call : Type 0 where
  start : (id : ℕ) (raw_token : Text) (user_id : ℕ) (phone_raw : Text) → Option Provider → Call
  get cancel : (user_id session_id : ℕ) → Call
  bind_telegram bind_max : (token account_raw : Text) → Option Text → Call
  verify_telegram verify_max : (account_raw phone_raw : Text) → Option Text → Call

unfoldable pub step : Deps → ℕ → Call → Db → Db
step d now (start id raw user_id phone_raw provider) db =
    (start_phone_verification_session d now id raw user_id phone_raw provider db).0
step d now (get user_id session_id) db =
    (get_phone_verification_session_state d now user_id session_id db).0
step d now (cancel user_id session_id) db =
    (cancel_phone_verification_session d user_id session_id db).0
step d now (bind_telegram token account chat) db =
    (bind_telegram_to_phone_verification_by_start_token d now token account chat db).0
step d now (bind_max token account chat) db =
    (bind_max_to_phone_verification_by_start_token d now token account chat db).0
step d now (verify_telegram account phone username) db =
    (verify_phone_by_telegram_contact d now account phone username db).0
step d now (verify_max account phone username) db =
    (verify_phone_by_max_contact d now account phone username db).0

-- The database gives a new row an id that no row has.
abbrev pub IsFresh : Call → Db → Type 0
IsFresh (start id raw user_id phone_raw provider) db = count (has_id id) db.sessions ≡ 0
IsFresh (get _ _) db = Unit
IsFresh _ db = Unit

pub data Reach (d : Deps) (db : Db) : Db → Type 0 where
  here : Reach d db db
  next :
      {db' : Db} (now : ℕ) (c : Call)
      → Reach d db db'
      → IsFresh c db'
      → Reach d db (step d now c db')

expire : Session → Session
expire = close expired session_expired

module _ (d : Deps) (now : ℕ) (db : Db) where
  expire-IsConsistent :
      (id : ℕ) → IsConsistent db → IsConsistent (update_sessions d (has_id id) expire db)
  unfolding expire
  expire-IsConsistent id v =
      update_sessions-IsConsistent d (has_id id) expire db (λ r. (refl, refl, (λ h. cc))) v

  reject_lem :
      (s : Session) (status : Status) (reason : Reason)
      → is_pending status ≡ false
      → IsConsistent db
      → IsConsistent (reject d s status reason db).0
  reject_lem s status reason h v =
      update_sessions-IsConsistent d (has_id s.id) (close status reason) db
        (λ r. (refl, refl, (λ k. cc))) v

  cancel_lem :
      (user_id session_id : ℕ)
      → IsConsistent db
      → IsConsistent (cancel_phone_verification_session d user_id session_id db).0
  unfolding cancel_phone_verification_session
  cancel_lem user_id session_id v =
      update_sessions-IsConsistent d _ (close cancelled cancelled_by_user) db
        (λ r. (refl, refl, (λ h. cc))) v

  -- A call keeps the invariant, if the id of a new session is fresh: session ids stay unique, a user
  -- has at most one pending session, and no two users share a phone, a Telegram or a MAX account.
  pub step-IsConsistent :
      (c : Call) → IsConsistent db → IsFresh c db → IsConsistent (step d now c db)
  unfolding step expire
  step-IsConsistent (start id raw user_id phone_raw chosen) v f =
      start_exits (λ o. IsConsistent o.0) d now db id raw user_id phone_raw chosen (λ e _. v)
        (λ phone _.
          replace_session-IsConsistent d
            (new_session d now id user_id phone (default_provider chosen) raw) db v f)
  step-IsConsistent (get user_id session_id) v f =
      get_exits IsConsistent d now db v (λ s _ _ _. expire-IsConsistent s.id v) user_id session_id
  step-IsConsistent (cancel user_id session_id) v f = cancel_lem user_id session_id v
  step-IsConsistent (bind_telegram token account chat) v f =
      bind_telegram_exits IsConsistent d now db v (λ s _ _ _. expire-IsConsistent s.id v) token
        account chat
        λ n s _ _.
          update_sessions-IsConsistent d (has_id s.id) (attach_telegram d n chat) db
            (λ r. (refl, refl, (λ h. h))) v
  step-IsConsistent (bind_max token account chat) v f =
      bind_max_exits IsConsistent d now db v (λ s _ _ _. expire-IsConsistent s.id v) token account
        chat
        λ n s _ _.
          update_sessions-IsConsistent d (has_id s.id) (attach_max d n chat) db
            (λ r. (refl, refl, (λ h. h))) v
  step-IsConsistent (verify_telegram account phone username) v f =
      telegram_exits (λ o. IsConsistent o.0) d db now account phone username (λ _ _. v)
        (λ n s status reason _ _ h. reject_lem s status reason h v)
        λ n p digits s user _ c.
          commit_telegram-IsConsistent d now n p username s user db v c.phone_free
  step-IsConsistent (verify_max account phone username) v f =
      max_exits (λ o. IsConsistent o.0) d db now account phone username (λ _ _. v)
        (λ n s status reason _ _ h. reject_lem s status reason h v)
        λ n p digits s user _ c alone.
          commit_max-IsConsistent d now n p username s user db v c.phone_free alone

-- So it holds after every history.
pub Reach-IsConsistent :
    (d : Deps) {db db' : Db} → IsConsistent db → Reach d db db' → IsConsistent db'
Reach-IsConsistent d v here = v
Reach-IsConsistent d v (next {db'} now c r f) =
    step-IsConsistent d now db' c (Reach-IsConsistent d v r) f
