-- ===== src/EmailChange.antt =====
-- src/services/emailChangeService.ts: changing a user's email by a code sent to the new address.
-- Each call takes the time `now` and the database, and returns the database after it and a result.
pub mod Calls
pub mod Exits
pub mod Consistent
pub mod History
pub mod Verified
mod Tests
use leader_product_api.Base.{
  ◌≡◌, ℕ, suc, ◌+◌, ◌-◌, ◌*◌, ◌/◌, Bool, true, false, ◌&&◌, ◌||◌, not, Option, none, some, List, [],
  ◌∷◌, ltb, leb, ◌==◌, if◌then◌else◌, length, keep, some_of, is_empty, text_eq, Text, is_filled,
  is_space, trim, found_from,
}
use leader_product_api.Table.{Table}

pub data Status : Type 0 where
  pending verified failed expired cancelled : Status

pub data Reason : Type 0 where
  replaced_by_new_request session_expired too_many_attempts invalid_code email_already_used : Reason
  replaced_by_verified_request cancelled_by_user : Reason

pub record Session : Type 0 where
  pub id : ℕ
  pub user_id : ℕ
  pub current_email : Option Text
  pub requested_email : Text
  pub code_hash : Text
  pub status : Status
  pub attempts_count : ℕ
  pub expires_at : ℕ
  pub verified_at : Option ℕ
  pub last_sent_at : Option ℕ
  pub failure_reason : Option Reason

pub record Account : Type 0 where
  pub id : ℕ
  pub email : Option Text

pub record Db : Type 0 where
  pub accounts : List Account
  pub sessions : List Session

-- The tables, the SHA-256 digest, `toLowerCase`, the comparison of two emails in the database with
-- `mode: 'insensitive'` (an equivalence in its two uses here), and whether the mail server takes a code for an address.
pub record Deps : Type 0 where
  pub accounts_table : Table Account
  pub sessions_table : Table Session
  pub hash_code : Text → Text
  pub to_lower_case : Text → Text
  pub same_email : Text → Text → Bool
  pub same_email_symm : (e f : Text) → same_email e f ≡ true → same_email f e ≡ true
  pub same_email_trans :
      (e f g : Text) → same_email e f ≡ true → same_email f g ≡ true → same_email e g ≡ true
  pub send_verification_email : Text → Text → Bool

abbrev pub code_ttl_ms : ℕ
code_ttl_ms = 10 * 60 * 1000

abbrev pub resend_cooldown_sec : ℕ
resend_cooldown_sec = 30

abbrev pub max_attempts : ℕ
max_attempts = 5

pub data Error : Type 0 where
  invalid_email user_not_found same_as_current conflict session_not_found : Error
  session_not_active expired_session code_invalid attempts_exceeded mail_failed : Error
  resend_too_early : ℕ → Error
  -- what the client of the database throws on the update of a row that is missing
  record_missing : Error

pub data Result : Type 0 where
  ok : Session → Result
  fail : Error → Result

abbrev pub is_pending : Status → Bool
is_pending pending = true
is_pending _ = false

abbrev pub has_id : ℕ → Session → Bool
has_id id s = s.id == id

abbrev pub mine : (user_id session_id : ℕ) → Session → Bool
mine user_id session_id s = s.id == session_id && s.user_id == user_id

abbrev pub pending_of : ℕ → Session → Bool
pending_of user_id s = s.user_id == user_id && is_pending s.status

abbrev pub close : Status → Reason → Session → Session
close status reason s = record s { status = status; failure_reason = some reason }

is_at : ℕ → Bool
is_at c = c == b'@'

-- The text up to the first `@`, and what follows it.
before_at : Text → Text
unfolding is_at
before_at [] = []
before_at (c ∷ s) = if is_at c then [] else c ∷ before_at s

after_at : Text → Text
unfolding is_at
after_at [] = []
after_at (c ∷ s) = if is_at c then s else after_at s

-- A dot with a character on its right.
dot_inside : Text → Bool
dot_inside [] = false
dot_inside (c ∷ s) = c == b'.' && not (is_empty s)

-- `[^\s@]+\.[^\s@]+` on a text without white space and `@`: a dot, not at either end.
has_inner_dot : Text → Bool
unfolding dot_inside
has_inner_dot [] = false
has_inner_dot (c ∷ s) = found_from dot_inside s

-- `/^[^\s@]+@[^\s@]+\.[^\s@]+$/`
unfoldable pub is_email : Text → Bool
unfolding before_at after_at has_inner_dot is_at
is_email s =
    not (some_of is_space s)
    && (some_of is_at s
        && (not (is_empty (before_at s))
            && (not (some_of is_at (after_at s)) && has_inner_dot (after_at s))))

is_digit : ℕ → Bool
is_digit c = leb b'0' c && leb c b'9'

-- `/^\d{6}$/`
unfoldable pub is_code : Text → Bool
unfolding is_digit
is_code s = length s == 6 && not (some_of (λ c. not (is_digit c)) s)

abbrev pub is_expired : (now expires_at : ℕ) → Bool
is_expired now expires_at = leb expires_at now

module _ (d : Deps) where
  open d use {
    accounts_table, sessions_table, hash_code, to_lower_case, same_email, send_verification_email,
  }

  unfoldable pub normalize_email : Text → Text
  normalize_email s = to_lower_case (trim s)

  abbrev pub update_sessions : (Session → Bool) → (Session → Session) → Db → Db
  update_sessions p f db = record db { sessions = (sessions_table.update_many p f db.sessions).1 }

  abbrev pub update_session : ℕ → (Session → Session) → Db → Db
  update_session id f db = update_sessions (has_id id) f db

  -- Another account than `user_id` with the email, up to case.
  abbrev pub uses_email : Text → ℕ → Account → Bool
  uses_email email user_id a = elim a.email [
    | none ↦ false
    | some e ↦ same_email e email && not (a.id == user_id)
  ]

  -- The email of the account, normalised, is the one asked for; null and the empty text are no email.
  abbrev pub same_as_email : Option Text → Text → Bool
  same_as_email none requested = false
  same_as_email (some []) requested = false
  same_as_email (some (c ∷ s)) requested =
      not (is_empty (normalize_email (c ∷ s))) && text_eq (normalize_email (c ∷ s)) requested

  abbrev pub new_session : (now id user_id : ℕ) → Option Text → (requested code : Text) → Session
  new_session now id user_id current requested code = record {
    id = id;
    user_id = user_id;
    current_email = current;
    requested_email = requested;
    code_hash = hash_code code;
    status = pending;
    attempts_count = 0;
    expires_at = now + code_ttl_ms;
    verified_at = none;
    last_sent_at = some now;
    failure_reason = none;
  }

  abbrev pub replace_session : Session → Db → Db
  replace_session s db =
      let cleared =
        update_sessions (pending_of s.user_id) (close cancelled replaced_by_new_request) db in
      record cleared { sessions = sessions_table.create s cleared.sessions }

  -- The reply once the mail server has taken the code; it throws otherwise.
  abbrev pub mailed : Session → Text → Result
  mailed s code = if send_verification_email s.requested_email code then ok s else fail mail_failed

  -- `id` is the fresh row id of this call, `code` the random code.
  unfoldable pub start_email_change_session :
      (now id : ℕ) (code : Text) (user_id : ℕ) (email_raw : Text) → Db → Db × Result
  start_email_change_session now id code user_id email_raw db =
      let requested = normalize_email email_raw in
      if not (is_email requested)
      then (db, fail invalid_email)
      else elim (accounts_table.find_first (λ a. a.id == user_id) db.accounts) [
        | none ↦ (db, fail user_not_found)
        | some user ↦
            if same_as_email user.email requested
            then (db, fail same_as_current)
            else elim (accounts_table.find_first (uses_email requested user_id) db.accounts) [
              | some _ ↦ (db, fail conflict)
              | none ↦
                  let s = new_session now id user_id user.email requested code in
                  (replace_session s db, mailed s code)
            ]
      ]
