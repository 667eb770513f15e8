-- ===== src/PhoneSession.antt =====
-- src/services/phoneVerificationService.ts: sessions that verify a phone number through a messenger.
-- Each call takes the time `now` and the database, and returns the database after it.
pub mod Telegram
pub mod Max
pub mod Exits
pub mod CallExits
pub mod Consistent
pub mod Writes
pub mod History
pub mod Final
pub mod Verified
pub mod Started
mod Tests
use leader_product_api.Base.{
  ℕ, ◌+◌, ◌*◌, Bool, true, false, ◌&&◌, ◌||◌, not, Option, none, some, List, [], ◌∷◌, ◌++◌, leb,
  ◌==◌, if◌then◌else◌, is_some_of, drop, is_empty, text_eq, Text, codes, has_prefix, found_from,
  nonzero,
}
use leader_product_api.Table.{Table}
use leader_product_api.Users.{User}
use leader_product_api.Phone.{
  normalize_phone_to_digits11, normalize_phone_to_big_int, to_api_phone_string,
}

pub data Provider : Type 0 where
  telegram max : Provider

pub data Status : Type 0 where
  pending verified failed expired cancelled : Status

pub data Reason : Type 0 where
  replaced_by_new_request session_expired cancelled_by_user phone_mismatch : Reason
  user_not_found phone_already_used max_already_used : Reason

pub record Session : Type 0 where
  pub id : ℕ
  pub user_id : ℕ
  pub requested_phone : ℕ
  pub status : Status
  pub provider : Provider
  pub token_hash : Text
  pub telegram_user_id : Option ℕ
  pub chat_id : Option ℕ
  pub max_user_id : Option ℕ
  pub max_chat_id : Option ℕ
  pub expires_at : ℕ
  pub verified_at : Option ℕ
  pub failure_reason : Option Reason
  pub created_at : ℕ

pub record Db : Type 0 where
  pub users : List User
  pub sessions : List Session

-- The tables, the configuration of the two bots, and two functions of packages and the runtime:
-- the SHA-256 digest and `BigInt` on a text, with no value where it throws.
pub record Deps : Type 0 where
  pub users_table : Table User
  pub sessions_table : Table Session
  pub hash_token : Text → Text
  pub parse_big_int : Text → Option ℕ
  pub telegram_bot_configured : Bool
  pub max_bot_configured : Bool
  pub telegram_bot_username : Text
  pub max_bot_username : Text

abbrev pub is_pending : Status → Bool
is_pending pending = true
is_pending _ = false

abbrev pub same_provider : Provider → Provider → Bool
same_provider telegram telegram = true
same_provider max max = true
same_provider telegram max = false
same_provider max telegram = false

abbrev pub ttl_ms : ℕ
ttl_ms = 10 * 60 * 1000

abbrev pub has_id : ℕ → Session → Bool
has_id id s = s.id == id

abbrev pub pending_of : ℕ → Session → Bool
pending_of user_id s = s.user_id == user_id && is_pending s.status

-- The new values of a row that leaves the pending state without success.
abbrev pub close : Status → Reason → Session → Session
close status reason s = record s { status = status; failure_reason = some reason }

pub data StartError : Type 0 where
  not_configured bad_phone_format phone_in_use deep_link_unavailable : StartError

pub record StartView : Type 0 where
  pub session_id : ℕ
  pub deep_link_url : Text
  pub expires_at : ℕ
  pub requested_phone : Option Text
  pub provider : Provider

pub data Outcome : Type 0 where
  started : StartView → Outcome
  refused : StartError → Outcome

pub is_token_char : ℕ → Bool
is_token_char c =
    (leb b'A' c && leb c b'Z')
    || (leb b'a' c && leb c b'z')
    || (leb b'0' c && leb c b'9')
    || c == b'_'
    || c == b'-'

pub first_is_token_char : Text → Bool
unfolding is_token_char
first_is_token_char [] = false
first_is_token_char (c ∷ s) = is_token_char c

-- `[?&]start=verify_phone_[A-Za-z0-9_-]+` at the beginning of a text.
start_parameter : Text → Bool
unfolding first_is_token_char
start_parameter [] = false
start_parameter (c ∷ s) =
    (c == b'?' || c == b'&')
    && (has_prefix (codes "start=verify_phone_") s && first_is_token_char (drop 19 s))

abbrev site : Provider → Text
site telegram = codes "https://t.me/"
site max = codes "https://max.ru/"

pub is_valid_phone_verification_deep_link : Text → Provider → Bool
unfolding start_parameter
is_valid_phone_verification_deep_link url provider =
    not (is_empty url) && (has_prefix (site provider) url && found_from start_parameter url)

-- What an update of the rows that pass a test makes of the database.
abbrev pub update_sessions : Deps → (Session → Bool) → (Session → Session) → Db → Db
update_sessions d p f db = record db { sessions = (d.sessions_table.update_many p f db.sessions).1 }

-- What the caller is shown of a session.
abbrev pub view : Session → Session × Option Text
view s = (s, to_api_phone_string (some s.requested_phone))

module _ (d : Deps) where
  open d use {users_table, sessions_table, hash_token, parse_big_int}

  abbrev pub bot_username : Provider → Text
  bot_username telegram = d.telegram_bot_username
  bot_username max = d.max_bot_username

  abbrev pub bot_configured : Provider → Bool
  bot_configured telegram = d.telegram_bot_configured
  bot_configured max = d.max_bot_configured

  pub is_phone_verification_configured : Provider → Bool
  is_phone_verification_configured provider =
      bot_configured provider && not (is_empty (bot_username provider))

  build_deep_link : Provider → Text → Option Text
  build_deep_link provider token =
      if is_empty (bot_username provider)
      then none
      else some
          (site provider ++ (bot_username provider ++ (codes "?start=verify_phone_" ++ token)))

  abbrev pub new_session : ℕ → ℕ → ℕ → ℕ → Provider → Text → Session
  new_session now id user_id phone provider raw_token = record {
    id = id;
    user_id = user_id;
    requested_phone = phone;
    status = pending;
    provider = provider;
    token_hash = hash_token raw_token;
    telegram_user_id = none;
    chat_id = none;
    max_user_id = none;
    max_chat_id = none;
    expires_at = now + ttl_ms;
    verified_at = none;
    failure_reason = none;
    created_at = now;
  }

  -- The end of a start: the pending sessions of the user are cancelled and one is made.
  pub replace_session : Session → Db → Db
  replace_session s db =
      let cancelled_others =
        update_sessions d (pending_of s.user_id) (close cancelled replaced_by_new_request) db in
      record cancelled_others { sessions = sessions_table.create s cancelled_others.sessions }

  pub start_reply : Session → Text → Outcome
  unfolding build_deep_link is_valid_phone_verification_deep_link
  start_reply s raw_token = elim (build_deep_link s.provider raw_token) [
    | none ↦ refused not_configured
    | some url ↦
        if not (is_valid_phone_verification_deep_link url s.provider)
        then refused deep_link_unavailable
        else started (record {
          session_id = s.id;
          deep_link_url = url;
          expires_at = s.expires_at;
          requested_phone = to_api_phone_string (some s.requested_phone);
          provider = s.provider;
        })
  ]

  -- `id` and `raw_token` are the fresh row id and the random token of this call.
  unfoldable pub start_phone_verification_session :
      (now id : ℕ) (raw_token : Text) (user_id : ℕ) (phone_raw : Text)
      → Option Provider
      → Db
      → Db × Outcome
  unfolding replace_session start_reply is_phone_verification_configured
  start_phone_verification_session now id raw_token user_id phone_raw chosen db =
      let provider : Provider = elim chosen [ none ↦ telegram | some p ↦ p ] in
      if not (is_phone_verification_configured provider)
      then (db, refused not_configured)
      else elim (normalize_phone_to_digits11 phone_raw) [
        | none ↦ (db, refused bad_phone_format)
        | some digits ↦ elim (nonzero (normalize_phone_to_big_int digits)) [
          | none ↦ (db, refused bad_phone_format)
          | some phone ↦
              elim (users_table.find_first (λ u. is_some_of u.phone phone && not (u.id == user_id))
                db.users) [
                  | some owner ↦ (db, refused phone_in_use)
                  | none ↦
                      let s = new_session now id user_id phone provider raw_token in
                      (replace_session s db, start_reply s raw_token)
                ]
        ]
      ]

  unfoldable pub get_phone_verification_session_state :
      (now user_id session_id : ℕ) → Db → Db × Option (Session × Option Text)
  get_phone_verification_session_state now user_id session_id db =
      elim (sessions_table.find_first (λ s. s.id == session_id && s.user_id == user_id)
        db.sessions) [
          | none ↦ (db, none)
          | some s ↦
              if is_pending s.status && leb s.expires_at now
              then (
                update_sessions d (has_id s.id) (close expired session_expired) db,
                some (view (close expired session_expired s)),
              )
              else (db, some (view s))
        ]

  unfoldable pub cancel_phone_verification_session : (user_id session_id : ℕ) → Db → Db × Bool
  cancel_phone_verification_session user_id session_id db =
      let mine : Session → Bool =
        λ s. s.id == session_id && (s.user_id == user_id && is_pending s.status) in
      let (n, rows) =
        sessions_table.update_many mine (close cancelled cancelled_by_user) db.sessions in
      (record db { sessions = rows }, not (n == 0))
