-- ===== src/PhoneSession/Writes.antt =====
-- src/services/phoneVerificationService.ts: the invariant under the transactions and a new session.
use mathlib.Core.Path.{subst}
use leader_product_api.Base.{
  ℕ, ◌≡◌, refl, ◌∙◌, inl, inr, true, false, Option, none, some, List, ◌∷◌, All, Member, arith, ◌==◌,
  ==_iff, Text, Bool-cases, count, change, count-change, count-change-le, count_unique, All-change,
  All-change-intro, count-eq-zero,
}
use leader_product_api.Users.{User}
use leader_product_api.PhoneSession.{
  Session, Db, Deps, pending_of, has_id, update_sessions, replace_session, close, cancelled,
  replaced_by_new_request,
}
use leader_product_api.PhoneSession.Telegram.{
  uses_phone, owns_telegram, unlink_telegram, link_telegram, unlinked, set_user, commit_telegram,
  verify_session,
}
use leader_product_api.PhoneSession.Max.{owns_max, link_max, commit_max}
use leader_product_api.PhoneSession.Consistent.{
  IsSessionTable, IsUserTable, IsConsistent, has_phone, has_telegram, has_max, kept_column,
  claimed_column, mine_of_free, link_max-IsUserTable, update_sessions-IsConsistent,
  change-IsSessionTable,
}

unlink-IsUserTable :
    (owner : User) (rows : List User)
    → IsUserTable rows
    → IsUserTable (change (λ u. u.id == owner.id) (unlink_telegram owner) rows)
unlink-IsUserTable owner rows v = record {
  user_ids =
      kept_column rows v owner.id (unlink_telegram owner) (λ n u. u.id == n) (λ n u. refl)
        v.user_ids;
  phones = kept_column rows v owner.id (unlink_telegram owner) has_phone (λ n u. refl) v.phones;
  telegram_ids = λ n. omega (
    arith,
    count-change-le (has_telegram n) (λ u. u.id == owner.id) (unlink_telegram owner) (λ u _ h. cc)
        rows,
    v.telegram_ids n,
  );
  max_ids = kept_column rows v owner.id (unlink_telegram owner) has_max (λ n u. refl) v.max_ids;
}

-- The only other holder of the account is the owner found, so nobody else holds it any more.
unlink-owns_telegram :
    (account : ℕ) (user owner : User) (rows : List User)
    → IsUserTable rows
    → Member owner rows
    → owns_telegram account user owner ≡ true
    → All
        (λ u. owns_telegram account user u ≡ false)
        (change (λ u. u.id == owner.id) (unlink_telegram owner) rows)
unlink-owns_telegram account user owner rows v m h =
    All-change-intro _ (λ u. u.id == owner.id) (unlink_telegram owner) rows (λ u _ _. refl)
      λ u stored other. elim (Bool-cases (has_telegram account u)) [
        | inr e ↦ rw e refl
        | inl e ↦
            let same : u ≡ owner =
              count_unique (has_telegram account) rows u owner (v.telegram_ids account) stored e m
                (ground arith) in
            absurd (ground (arith, same))
      ]

link_telegram-IsUserTable :
    (now account phone : ℕ) (username : Option Text) (user : User) (rows : List User)
    → IsUserTable rows
    → All (λ u. uses_phone phone user u ≡ false) rows
    → All (λ u. owns_telegram account user u ≡ false) rows
    → IsUserTable
        (change (λ u. u.id == user.id) (link_telegram now account phone username user) rows)
link_telegram-IsUserTable now account phone username user rows v free alone = record {
  user_ids = kept_column rows v user.id link (λ n u. u.id == n) (λ n u. refl) v.user_ids;
  phones =
      claimed_column rows v user.id link has_phone phone (λ n u. refl)
        (mine_of_free has_phone phone user rows free) v.phones;
  telegram_ids =
      claimed_column rows v user.id link has_telegram account (λ n u. refl)
        (mine_of_free has_telegram account user rows alone) v.telegram_ids;
  max_ids = kept_column rows v user.id link has_max (λ n u. refl) v.max_ids;
}
  where
    link : User → User
    link = link_telegram now account phone username user

pub commit_max-IsConsistent :
    (d : Deps) (now account phone : ℕ) (username : Option Text) (s : Session) (user : User)
    (db : Db)
    → IsConsistent db
    → All (λ u. uses_phone phone user u ≡ false) db.users
    → All (λ u. owns_max account user u ≡ false) db.users
    → IsConsistent (commit_max d now account phone username s user db)
unfolding commit_max
commit_max-IsConsistent d now account phone username s user db v free alone = record {
  session_table =
      (update_sessions-IsConsistent d (has_id s.id) (verify_session now) db
        (λ r. (refl, refl, (λ h. cc))) v).session_table;
  user_table =
      rw
        (d.users_table.update_many_rows (λ u. u.id == user.id)
          (link_max now account phone username user) db.users)
        (link_max-IsUserTable now account phone username user db.users v.user_table free alone);
}

pub commit_telegram-IsConsistent :
    (d : Deps) (now account phone : ℕ) (username : Option Text) (s : Session) (user : User)
    (db : Db)
    → IsConsistent db
    → All (λ u. uses_phone phone user u ≡ false) db.users
    → IsConsistent (commit_telegram d now account phone username s user db)
unfolding commit_telegram
commit_telegram-IsConsistent d now account phone username s user db v free = record {
  session_table = settled;
  user_table = linked (d.users_table.find_first (owns_telegram account user) db.users) refl;
}
  where
    settled : IsSessionTable (update_sessions d (has_id s.id) (verify_session now) db).sessions
    settled =
        (update_sessions-IsConsistent d (has_id s.id) (verify_session now) db
          (λ r. (refl, refl, (λ h. cc))) v).session_table

    link : User → User
    link = link_telegram now account phone username user

    linked :
        (o : Option User)
        → d.users_table.find_first (owns_telegram account user) db.users ≡ o
        → IsUserTable (set_user d user.id link (unlinked d o db.users))
    linked none e = rw (d.users_table.update_many_rows (λ u. u.id == user.id) link db.users) (
        link_telegram-IsUserTable now account phone username user db.users v.user_table free
          (d.users_table.find_first_missing _ db.users e))
    linked (some owner) e =
        let (m, h) = d.users_table.find_first_found (owns_telegram account user) db.users owner e in
        rw (d.users_table.update_many_rows (λ u. u.id == owner.id) (unlink_telegram owner) db.users)
          (rw (d.users_table.update_many_rows (λ u. u.id == user.id) link _) (
            link_telegram-IsUserTable now account phone username user _
              (unlink-IsUserTable owner db.users v.user_table)
              (All-change _ (λ u. u.id == owner.id) (unlink_telegram owner) db.users (λ u k _. k)
                free)
              (unlink-owns_telegram account user owner db.users v.user_table m h)))

abbrev pub cancel : Session → Session
cancel = close cancelled replaced_by_new_request

pub none_pending :
    (user_id : ℕ) (rows : List Session)
    → count (pending_of user_id) (change (pending_of user_id) cancel rows) ≡ 0
none_pending user_id rows =
    count-eq-zero (pending_of user_id) _
      (All-change-intro _ (pending_of user_id) cancel rows (λ r _ _. ground arith) (λ r _ e. e))

numbers_eq : (a b : ℕ) → (a == b) ≡ true → a ≡ b
numbers_eq a b = (==_iff a b).0

cons-IsSessionTable :
    (s : Session) (rows : List Session)
    → IsSessionTable rows
    → count (has_id s.id) rows ≡ 0
    → count (pending_of s.user_id) rows ≡ 0
    → IsSessionTable (s ∷ rows)
cons-IsSessionTable s rows v fresh idle = record {
  session_ids = λ id. elim (Bool-cases (s.id == id)) [
    | inl e ↦
        let gone = subst (λ m. count (has_id m) rows ≡ 0) (numbers_eq s.id id e) fresh in
        ground (arith, gone)
    | inr e ↦ rw e (v.session_ids id)
  ];
  one_pending = λ u. elim (Bool-cases (s.user_id == u)) [
    | inl e ↦
        let gone = subst (λ m. count (pending_of m) rows ≡ 0) (numbers_eq s.user_id u e) idle in
        ground (arith, gone)
    | inr e ↦ rw e (v.one_pending u)
  ];
}

-- The new session is the only pending one of its user.
pub replace_session-IsConsistent :
    (d : Deps) (s : Session) (db : Db)
    → IsConsistent db
    → count (has_id s.id) db.sessions ≡ 0
    → IsConsistent (replace_session d s db)
unfolding replace_session
replace_session-IsConsistent d s db v fresh = record {
  user_table = v.user_table;
  session_table = rw (d.sessions_table.update_many_rows (pending_of s.user_id) cancel db.sessions) (
      rw (d.sessions_table.create_rows s (change (pending_of s.user_id) cancel db.sessions)) (
        cons-IsSessionTable s _
          (change-IsSessionTable (pending_of s.user_id) cancel db.sessions
            (λ r. (refl, refl, (λ h. cc))) v.session_table)
          (count-change (has_id s.id) (pending_of s.user_id) cancel (λ r _. refl) db.sessions
            ∙ fresh)
          (none_pending s.user_id db.sessions)));
}
