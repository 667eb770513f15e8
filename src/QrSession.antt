-- ===== src/QrSession.antt =====
-- src/services/messengerQrAuthSessionService.ts: sessions that sign a user in by a QR code and a
-- messenger. Each call takes the time `now` and the table, and returns the table after it. The
-- client stamps `updated_at` at each update of one row.
pub mod Calls
pub mod Moves
pub mod Once
mod Tests
use leader_product_api.Base.{
  ℕ, ◌+◌, ◌*◌, Bool, true, false, ◌&&◌, ◌||◌, not, Option, none, some, List, [], ◌∷◌, ◌++◌, leb,
  ltb, ◌==◌, if◌then◌else◌, is_some_of, drop, is_empty, text_eq, Text, codes, has_prefix, nonzero,
  trim, or_text,
}
use leader_product_api.Table.{Table}
use leader_product_api.PhoneSession.{Provider, telegram, max, same_provider, is_token_char}

pub data Status : Type 0 where
  pending awaiting_contact verified failed expired cancelled consumed : Status

pub record Session : Type 0 where
  pub id : Text
  pub provider : Provider
  pub start_token_hash : Text
  pub client_token_hash : Text
  pub status : Status
  pub messenger_user_id : Option ℕ
  pub messenger_chat_id : Option ℕ
  pub messenger_username : Option Text
  pub resolved_user_id : Option ℕ
  pub failure_reason : Option Text
  pub expires_at : ℕ
  pub verified_at : Option ℕ
  pub consumed_at : Option ℕ
  pub created_at : ℕ
  pub updated_at : ℕ

-- The table, the configuration of the bots, the digest, and `BigInt` on a text with no value where
-- it throws.
pub record Deps : Type 0 where
  pub sessions_table : Table Session
  pub hash_token : Text → Text
  pub parse_big_int : Text → Option ℕ
  pub bot_configured : Provider → Bool
  pub bot_username : Provider → Text

abbrev pub ttl_ms : ℕ
ttl_ms = 10 * 60 * 1000

abbrev pub poll_interval_sec : ℕ
poll_interval_sec = 3

-- ACTIVE_PENDING_STATUSES
abbrev pub is_open : Status → Bool
is_open pending = true
is_open awaiting_contact = true
is_open _ = false

abbrev pub is_verified : Status → Bool
is_verified verified = true
is_verified _ = false

abbrev pub is_consumed : Status → Bool
is_consumed consumed = true
is_consumed _ = false

abbrev pub has_id : Text → Session → Bool
has_id id s = text_eq s.id id

abbrev filled_or_none : Option Text → Option Text
filled_or_none t = or_text t none

is_line_break : ℕ → Bool
is_line_break c = c == 10 || (c == 13 || (c == 8232 || c == 8233))

are_token_chars : Text → Bool
are_token_chars [] = true
are_token_chars (c ∷ s) = is_token_char c && are_token_chars s

-- `\?start=auth_qr_[A-Za-z0-9_-]+$`
is_start_parameter : Text → Bool
unfolding are_token_chars
is_start_parameter s =
    has_prefix (codes "?start=auth_qr_") s
    && (not (is_empty (drop 15 s)) && are_token_chars (drop 15 s))

-- `.+` and the start parameter after it.
name_and_parameter : Text → Bool
unfolding is_start_parameter is_line_break
name_and_parameter [] = false
name_and_parameter (c ∷ s) = not (is_line_break c) && (is_start_parameter s || name_and_parameter s)

abbrev pub site : Provider → Text
site telegram = codes "https://t.me/"
site max = codes "https://max.ru/"

abbrev site_length : Provider → ℕ
site_length telegram = 13
site_length max = 15

is_valid_deep_link : Text → Provider → Bool
unfolding name_and_parameter
is_valid_deep_link url provider =
    has_prefix (site provider) url && name_and_parameter (drop (site_length provider) url)

pub data StartError : Type 0 where
  not_configured deep_link_unavailable : StartError

pub record StartView : Type 0 where
  pub provider : Provider
  pub session_token : Text
  pub deep_link_url : Text
  pub qr_payload : Text
  pub expires_at : ℕ
  pub poll_interval : ℕ

pub data Outcome : Type 0 where
  started : StartView → Outcome
  refused : StartError → Outcome

-- What a lookup by a token ends in; an empty token is an error.
pub data Lookup : Type 0 where
  token_required : Lookup
  looked_up : Option Session → Lookup

-- The new values of a row in each update.
abbrev pub expire : ℕ → Session → Session
expire now s = record s {
  status = expired;
  failure_reason = some (codes "SESSION_EXPIRED");
  updated_at = now;
}

abbrev pub cancel_row : ℕ → Session → Session
cancel_row now s = record s {
  status = cancelled;
  failure_reason = some (codes "CANCELLED_BY_USER");
  updated_at = now;
}

abbrev pub bind_row : (now account : ℕ) → Option ℕ → Option Text → Session → Session
bind_row now account chat username s = record s {
  messenger_user_id = some account;
  messenger_chat_id = chat;
  messenger_username = filled_or_none username;
  status = awaiting_contact;
  failure_reason = none;
  updated_at = now;
}

-- `found` is the row as the search read it.
abbrev pub verify_row : (now user_id : ℕ) → Option Text → Session → Session → Session
verify_row now user_id username found s = record s {
  status = verified;
  resolved_user_id = some user_id;
  messenger_username = filled_or_none (or_text username found.messenger_username);
  failure_reason = none;
  verified_at = some now;
  updated_at = now;
}

abbrev pub fail_row : (now : ℕ) → Text → Option Text → Session → Session → Session
fail_row now reason username found s = record s {
  status = failed;
  failure_reason = some reason;
  messenger_username = filled_or_none (or_text username found.messenger_username);
  updated_at = now;
}

abbrev pub consume_row : ℕ → Session → Session
consume_row now s = record s { status = consumed; consumed_at = some now; updated_at = now }
