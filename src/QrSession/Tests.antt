-- ===== src/QrSession/Tests.antt =====
-- A sign-in by QR code, and the theorems at such inputs.
use leader_product_api.Base.{
  ◌≡◌, refl, inl, true, false, none, some, [], ◌∷◌, arith, codes, trim, Member, Bool-cases, inr,
  text_eq,
}
use leader_product_api.Table.{in_memory}
use leader_product_api.PhoneSession.{telegram}
use leader_product_api.QrSession.{Session, Deps, verified}
use leader_product_api.QrSession.Calls.{consume_messenger_qr_auth_session}
use leader_product_api.QrSession.Moves.{get, consume, step, HasUniqueIds, IsMove}
use leader_product_api.QrSession.Once.{step-IsMove, consume_once, here, next}

abbrev deps : Deps
deps = record {
  sessions_table = in_memory;
  hash_token = λ t. t;
  parse_big_int = λ t. some 53;
  bot_configured = λ p. true;
  bot_username = λ p. codes "leader_bot";
}

abbrev scanned : Session
scanned = record {
  id = codes "s1";
  provider = telegram;
  start_token_hash = codes "start";
  client_token_hash = codes "client";
  status = verified;
  messenger_user_id = some 53;
  messenger_chat_id = some 53;
  messenger_username = none;
  resolved_user_id = some 1;
  failure_reason = none;
  expires_at = 600_000;
  verified_at = some 5;
  consumed_at = none;
  created_at = 0;
  updated_at = 5;
}

one_unique : HasUniqueIds (scanned ∷ [])
one_unique id = elim (Bool-cases (text_eq (codes "s1") id)) [
  | inl e ↦ rw e (omega arith)
  | inr e ↦ rw e (omega arith)
]

first_consumed : (consume_messenger_qr_auth_session deps 7 (codes "s1") (scanned ∷ [])).1 ≡ true
unfolding consume_messenger_qr_auth_session trim
first_consumed = refl

step-IsMove_example :
    (t : Session) × Member t (step deps 7 (consume (codes "s1")) (scanned ∷ [])) × IsMove scanned t
step-IsMove_example =
    step-IsMove deps 7 (scanned ∷ []) one_unique scanned (inl refl) (consume (codes "s1"))

consume_once_example :
    (consume_messenger_qr_auth_session deps 9 (codes "s1") (
      step deps 8
        (get telegram (codes "client"))
        (consume_messenger_qr_auth_session deps 7 (codes "s1") (scanned ∷ [])).0)).1
    ≡ false
consume_once_example =
    consume_once deps (codes "s1") 7 9 (scanned ∷ [])
      (step deps 8 (get telegram (codes "client"))
        (consume_messenger_qr_auth_session deps 7 (codes "s1") (scanned ∷ [])).0)
      one_unique first_consumed (next 8 (get telegram (codes "client")) here tt)
