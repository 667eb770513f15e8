-- ===== src/PhoneSession/Tests.antt =====
-- A user verifies a phone through Telegram, and the theorems at such inputs.
use leader_product_api.Base.{
  ℕ, ◌≡◌, ◌≢◌, refl, inl, inr, true, Option, none, some, [], ◌∷◌, arith, Text, codes, count, Member,
}
use leader_product_api.Table.{in_memory}
use leader_product_api.Users.{User, local}
use leader_product_api.Phone.{
  normalize_phone_to_digits11, normalize_phone_to_big_int, to_api_phone_string,
}
use leader_product_api.PhoneSession.{
  Session, Db, Deps, Provider, telegram, max, pending, cancelled, cancelled_by_user, phone_mismatch,
  pending_of, StartView, started, refused, deep_link_unavailable, start_phone_verification_session,
  close, first_is_token_char, cancel_phone_verification_session,
}
use leader_product_api.PhoneSession.Telegram.{
  accepted, rejected, verify_phone_by_telegram_contact, waits_for_telegram, find_session,
  check_session,
}
use leader_product_api.PhoneSession.Max.{verify_phone_by_max_contact, waits_for_max}
use leader_product_api.PhoneSession.Consistent.{IsConsistent}
use leader_product_api.PhoneSession.History.{
  Call, start, cancel, step, here, next, Reach-IsConsistent,
}
use leader_product_api.PhoneSession.CallExits.{IsAllowed}
use leader_product_api.PhoneSession.Final.{Reach-settled}
use leader_product_api.PhoneSession.Verified.{
  IsVerification, verify_telegram-IsVerification, verify_max-IsVerification, refused_contact-users,
}
use leader_product_api.PhoneSession.Started.{start-ne-unavailable, start_iff, start_one_pending}

-- Tables in memory, a digest that changes nothing, and accounts told by their first character.
abbrev first_code : Text → Option ℕ
first_code [] = none
first_code (c ∷ s) = some c

abbrev deps : Deps
deps = record {
  users_table = in_memory;
  sessions_table = in_memory;
  hash_token = λ t. t;
  parse_big_int = first_code;
  telegram_bot_configured = true;
  max_bot_configured = true;
  telegram_bot_username = codes "leader_bot";
  max_bot_username = codes "leader_max";
}

abbrev ivan : User
ivan = record {
  id = 1;
  email = some (codes "ivan@example.com");
  password_hash = some (codes "hash");
  phone = none;
  phone_verified_at = none;
  telegram_id = none;
  telegram_username = none;
  telegram_linked_at = none;
  max_id = none;
  max_username = none;
  max_linked_at = none;
  auth_provider = local;
}

abbrev waiting : Session
waiting = record {
  id = 7;
  user_id = 1;
  requested_phone = 79123456789;
  status = pending;
  provider = telegram;
  token_hash = codes "token";
  telegram_user_id = some 53;
  chat_id = some 53;
  max_user_id = none;
  max_chat_id = none;
  expires_at = 600_000;
  verified_at = none;
  failure_reason = none;
  created_at = 0;
}

abbrev waiting_for_max : Session
waiting_for_max = record waiting { provider = Provider.max; max_user_id = some 53 }

abbrev given_up : Session
given_up = close cancelled cancelled_by_user (record waiting { id = 6 })

abbrev bound : Db
bound = record { users = ivan ∷ []; sessions = waiting ∷ given_up ∷ [] }

abbrev bound_to_max : Db
bound_to_max = record { users = ivan ∷ []; sessions = waiting_for_max ∷ [] }

abbrev contact : Text
contact = codes "+7 912 345-67-89"

accepted_in_time :
    (verify_phone_by_telegram_contact deps 1000 (codes "5") contact none bound).1 ≡ accepted 1
unfolding verify_phone_by_telegram_contact find_session check_session normalize_phone_to_digits11
    normalize_phone_to_big_int to_api_phone_string
accepted_in_time = refl

accepted_through_max :
    (verify_phone_by_max_contact deps 1000 (codes "5") contact none bound_to_max).1 ≡ accepted 1
unfolding verify_phone_by_max_contact find_session check_session normalize_phone_to_digits11
    normalize_phone_to_big_int to_api_phone_string
accepted_through_max = refl

other_phone :
    (verify_phone_by_telegram_contact deps 1000 (codes "5") (codes "89990000000") none bound).1
    ≡ rejected phone_mismatch
unfolding verify_phone_by_telegram_contact find_session check_session normalize_phone_to_digits11
    normalize_phone_to_big_int to_api_phone_string
other_phone = refl

bound-IsConsistent : IsConsistent bound
bound-IsConsistent = record {
  session_table = record { session_ids = λ id. ground arith; one_pending = λ u. ground arith };
  user_table = record {
    user_ids = λ id. ground arith;
    phones = λ n. omega arith;
    telegram_ids = λ n. omega arith;
    max_ids = λ n. omega arith;
  };
}

abbrev again : Call
again = start 8 (codes "x1") 1 contact none

Reach-IsConsistent_example : IsConsistent (step deps 2000 again (step deps 1000 (cancel 1 7) bound))
unfolding step cancel_phone_verification_session
Reach-IsConsistent_example =
    Reach-IsConsistent deps bound-IsConsistent
      (next 2000 again (next 1000 (cancel 1 7) here tt) refl)

Reach-settled_example : Member given_up (step deps 1000 (cancel 1 7) bound).sessions
Reach-settled_example =
    Reach-settled deps given_up bound-IsConsistent (inr (inl refl)) refl
      (next 1000 (cancel 1 7) here tt)

verify_telegram-IsVerification_example :
    IsVerification waits_for_telegram
      (λ u. u.telegram_id)
      deps
      1000
      (codes "5")
      contact
      bound
      (verify_phone_by_telegram_contact deps 1000 (codes "5") contact none bound).0
      1
verify_telegram-IsVerification_example =
    verify_telegram-IsVerification deps 1000 (codes "5") contact none bound 1 accepted_in_time

verify_max-IsVerification_example :
    IsVerification waits_for_max
      (λ u. u.max_id)
      deps
      1000
      (codes "5")
      contact
      bound_to_max
      (verify_phone_by_max_contact deps 1000 (codes "5") contact none bound_to_max).0
      1
verify_max-IsVerification_example =
    verify_max-IsVerification deps 1000 (codes "5") contact none bound_to_max 1 accepted_through_max

no_phone :
    (id : ℕ)
    → (verify_phone_by_telegram_contact deps 1000 (codes "5") (codes "1") none bound).1
      ≢ accepted id
unfolding verify_phone_by_telegram_contact find_session check_session normalize_phone_to_digits11
    normalize_phone_to_big_int to_api_phone_string
no_phone id h = cc

late_for_max :
    (id : ℕ)
    → (verify_phone_by_max_contact deps 600_000 (codes "5") contact none bound_to_max).1
      ≢ accepted id
unfolding verify_phone_by_max_contact find_session check_session normalize_phone_to_digits11
    normalize_phone_to_big_int to_api_phone_string
late_for_max id h = cc

refused_contact-users_example :
    (verify_phone_by_max_contact deps 600_000 (codes "5") contact none bound_to_max).0.users
    ≡ bound_to_max.users
refused_contact-users_example =
    refused_contact-users max deps 600_000 (codes "5") contact none bound_to_max late_for_max

start-ne-unavailable_example :
    (start_phone_verification_session deps 1000 8 (codes "x1") 1 contact none bound).1
    ≢ refused deep_link_unavailable
unfolding first_is_token_char
start-ne-unavailable_example =
    start-ne-unavailable deps 1000 8 (codes "x1") 1 contact none bound refl

abbrev reply : StartView
reply = record {
  session_id = 8;
  deep_link_url = codes "https://t.me/leader_bot?start=verify_phone_x1";
  expires_at = 601_000;
  requested_phone = some (codes "79123456789");
  provider = telegram;
}

answered :
    (start_phone_verification_session deps 1000 8 (codes "x1") 1 contact none bound).1
    ≡ started reply
unfolding start_phone_verification_session normalize_phone_to_digits11 normalize_phone_to_big_int
    to_api_phone_string
answered = refl

start_iff_example : (phone : ℕ) × IsAllowed deps 1 contact none bound phone
unfolding first_is_token_char
start_iff_example =
    (start_iff deps 1000 8 (codes "x1") 1 contact none bound refl).0 (reply, answered)

start_one_pending_example :
    count
      (pending_of 1)
      (start_phone_verification_session deps 1000 8 (codes "x1") 1 contact none bound).0.sessions
    ≡ 1
unfolding first_is_token_char
start_one_pending_example =
    (start_one_pending deps 1000 8 (codes "x1") 1 contact none bound refl reply answered).0
