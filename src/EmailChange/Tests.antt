-- ===== src/EmailChange/Tests.antt =====
-- A user changes an email, and the theorems at such inputs.
use leader_product_api.Base.{
  ◌+◌, ◌*◌, ◌≤◌, ◌≡◌, ◌↔◌, refl, true, false, none, some, [], ◌∷◌, arith, Text, codes, text_eq,
  trim, text_eq→eq, text_eq_refl,
}
use leader_product_api.Table.{in_memory}
use leader_product_api.EmailChange.{
  Session, Db, Deps, pending, ok, fail, attempts_exceeded, is_email, is_code,
}
use leader_product_api.EmailChange.Calls.{
  too_early, with_active, commit, verify_email_change_session, resend_email_change_code, renew_code,
  verify,
}
use leader_product_api.EmailChange.Consistent.{IsEmailState}
use leader_product_api.EmailChange.History.{
  cancel, verify_code, step, next, here, Reach-IsEmailState,
}
use leader_product_api.EmailChange.Verified.{
  IsChange, verify-IsChange, IsResent, resend-IsResent, too_early_exact,
}

text_eq_symm : (s t : Text) → text_eq s t ≡ true → text_eq t s ≡ true
text_eq_symm s t h = rw (text_eq→eq s t h) (text_eq_refl t)

text_eq_trans : (s t u : Text) → text_eq s t ≡ true → text_eq t u ≡ true → text_eq s u ≡ true
text_eq_trans s t u h k = rw (text_eq→eq s t h) k

abbrev deps : Deps
deps = record {
  accounts_table = in_memory;
  sessions_table = in_memory;
  hash_code = λ t. t;
  to_lower_case = λ t. t;
  same_email = text_eq;
  same_email_symm = text_eq_symm;
  same_email_trans = text_eq_trans;
  send_verification_email = λ _ _. true;
}

abbrev opened : Session
opened = record {
  id = 3;
  user_id = 1;
  current_email = some (codes "old@example.com");
  requested_email = codes "new@example.com";
  code_hash = codes "123456";
  status = pending;
  attempts_count = 4;
  expires_at = 600_000;
  verified_at = none;
  last_sent_at = some 0;
  failure_reason = none;
}

abbrev db : Db
db = record {
  accounts = record { id = 1; email = some (codes "old@example.com") } ∷ [];
  sessions = opened ∷ [];
}

emails :
    (is_email (codes "a@b.ru") ≡ true)
    × (is_email (codes "a@b") ≡ false)
    × (is_email (codes "a b@c.d") ≡ false)
    × (is_email (codes "a@.d") ≡ false)
unfolding is_email
emails = (refl, refl, refl, refl)

right_code :
    (verify_email_change_session deps 1000 1 3 (codes " 123456 ") db).1 ≡ ok (verify 1000 opened)
unfolding verify_email_change_session with_active commit is_code trim
right_code = refl

fifth_wrong_code :
    (verify_email_change_session deps 1000 1 3 (codes "654321") db).1 ≡ fail attempts_exceeded
unfolding verify_email_change_session with_active commit is_code trim
fifth_wrong_code = refl

sent_again :
    (resend_email_change_code deps 30_000 (codes "777777") 1 3 db).1
    ≡ ok (renew_code deps 30_000 (codes "777777") opened)
unfolding resend_email_change_code with_active
sent_again = refl

db-IsEmailState : IsEmailState deps db
db-IsEmailState = record {
  session_table = record {
    session_ids = λ id. ground arith;
    one_pending = λ u. ground arith;
    attempts = ((omega arith, (λ _. omega arith)), tt);
  };
  account_table = record { account_ids = λ id. ground arith; emails = λ e. ground arith };
}

Reach-IsEmailState_example :
    IsEmailState deps
      (step deps 2000 (cancel 1 3) (step deps 1000 (verify_code 1 3 (codes "654321")) db))
Reach-IsEmailState_example =
    Reach-IsEmailState deps db-IsEmailState
      (next 2000 (cancel 1 3) (next 1000 (verify_code 1 3 (codes "654321")) here tt) tt)

verify-IsChange_example :
    IsChange deps 1000 1 3
      (codes " 123456 ")
      db
      (verify_email_change_session deps 1000 1 3 (codes " 123456 ") db).0
      (verify 1000 opened)
verify-IsChange_example =
    verify-IsChange deps 1000 1 3 (codes " 123456 ") db (verify 1000 opened) right_code

resend-IsResent_example :
    IsResent deps 30_000
      (codes "777777")
      1
      3
      db
      (resend_email_change_code deps 30_000 (codes "777777") 1 3 db).0
      (renew_code deps 30_000 (codes "777777") opened)
resend-IsResent_example =
    resend-IsResent deps 30_000 (codes "777777") 1 3 db
      (λ id. db-IsEmailState.session_table.session_ids id)
      (renew_code deps 30_000 (codes "777777") opened) sent_again

too_early_exact_example : (too_early (12_500 + 1000 * 18) (some 0) ≡ none) ↔ (18 ≤ 18)
too_early_exact_example = too_early_exact 12_500 0 18 18 refl
