-- ===== src/PhoneSession/Consistent.antt =====
-- src/services/phoneVerificationService.ts: the invariant of the two tables, and the writes of rows.
use mathlib.Core.Path.{subst}
use leader_product_api.Base.{
  ℕ, ◌≤◌, ◌≡◌, refl, inl, inr, Bool, true, false, ◌&&◌, not, Option, List, All, All-Member, arith,
  ◌==◌, Text, is_some_of, Bool-cases, count, change, count-change, count-change-le, count_claimed,
  All-intro,
}
use leader_product_api.Users.{User}
use leader_product_api.PhoneSession.{
  Session, Db, Deps, is_pending, pending_of, has_id, update_sessions,
}
use leader_product_api.PhoneSession.Telegram.{uses_phone}
use leader_product_api.PhoneSession.Max.{owns_max, link_max}

-- Row ids are unique, and a user has at most one pending session.
pub record IsSessionTable (rows : List Session) : Type 0 where
  pub session_ids : (id : ℕ) → count (has_id id) rows ≤ 1
  pub one_pending : (user_id : ℕ) → count (pending_of user_id) rows ≤ 1

abbrev pub has_phone : ℕ → User → Bool
has_phone n u = is_some_of u.phone n

abbrev pub has_telegram : ℕ → User → Bool
has_telegram n u = is_some_of u.telegram_id n

abbrev pub has_max : ℕ → User → Bool
has_max n u = is_some_of u.max_id n

-- Row ids are unique, and so are phones and messenger accounts.
pub record IsUserTable (rows : List User) : Type 0 where
  pub user_ids : (id : ℕ) → count (λ u. u.id == id) rows ≤ 1
  pub phones : (n : ℕ) → count (has_phone n) rows ≤ 1
  pub telegram_ids : (n : ℕ) → count (has_telegram n) rows ≤ 1
  pub max_ids : (n : ℕ) → count (has_max n) rows ≤ 1

pub record IsConsistent (db : Db) : Type 0 where
  pub session_table : IsSessionTable db.sessions
  pub user_table : IsUserTable db.users

-- A write that leaves the owner of a session alone and makes no session pending.
abbrev pub IsSettling : (Session → Session) → Type 0
IsSettling f =
    (s : Session)
    → ((f s).id ≡ s.id)
      × ((f s).user_id ≡ s.user_id)
      × (is_pending (f s).status ≡ true → is_pending s.status ≡ true)

pub change-IsSessionTable :
    (p : Session → Bool) (f : Session → Session) (rows : List Session)
    → IsSettling f
    → IsSessionTable rows
    → IsSessionTable (change p f rows)
change-IsSessionTable p f rows k v = record {
  session_ids = λ id.
      omega
        (arith, count-change (has_id id) p f (λ s _. ground (arith, k s)) rows, v.session_ids id);
  one_pending = λ u. omega (
    arith,
    count-change-le (pending_of u) p f (λ s _. ground (arith, k s)) rows,
    v.one_pending u,
  );
}

pub update_sessions-IsConsistent :
    (d : Deps) (p : Session → Bool) (f : Session → Session) (db : Db)
    → IsSettling f
    → IsConsistent db
    → IsConsistent (update_sessions d p f db)
update_sessions-IsConsistent d p f db k v = record {
  session_table =
      rw (d.sessions_table.update_many_rows p f db.sessions)
        (change-IsSessionTable p f db.sessions k v.session_table);
  user_table = v.user_table;
}

-- A write to the row of one user: `link` fills columns of the row `id` with the values of `claims`.
module _ (rows : List User) (v : IsUserTable rows) (id : ℕ) (link : User → User) where
  -- A column that the write leaves alone.
  pub kept_column :
      (q : ℕ → User → Bool)
      → ((n : ℕ) (u : User) → q n (link u) ≡ q n u)
      → ((n : ℕ) → count (q n) rows ≤ 1)
      → (n : ℕ) → count (q n) (change (λ u. u.id == id) link rows) ≤ 1
  kept_column q h k n =
      omega (arith, count-change (q n) (λ u. u.id == id) link (λ u _. h n u) rows, k n)

  -- A column set to a value that no other user has.
  pub claimed_column :
      (q : ℕ → User → Bool) (value : ℕ)
      → ((n : ℕ) (u : User) → q n (link u) ≡ (value == n))
      → All (λ u. q value u ≡ true → (u.id == id) ≡ true) rows
      → ((n : ℕ) → count (q n) rows ≤ 1)
      → (n : ℕ) → count (q n) (change (λ u. u.id == id) link rows) ≤ 1
  claimed_column q value h free k n = elim (Bool-cases (value == n)) [
    | inl e ↦
        let same : value ≡ n = ground arith in
        subst (λ m. count (q m) (change (λ u. u.id == id) link rows) ≤ 1) same
          (omega (arith, count_claimed (q value) (λ u. u.id == id) link rows free, v.user_ids id))
    | inr e ↦ omega (
      arith,
      count-change-le (q n) (λ u. u.id == id) link (λ u _. ground (arith, h n u)) rows,
      k n,
    )
  ]

pub mine_of_free :
    (q : ℕ → User → Bool) (value : ℕ) (user : User) (rows : List User)
    → All (λ u. (q value u && not (u.id == user.id)) ≡ false) rows
    → All (λ u. q value u ≡ true → (u.id == user.id) ≡ true) rows
mine_of_free q value user rows h =
    All-intro _ rows (λ u m e. let k = All-Member _ rows u h m in ground arith)

pub link_max-IsUserTable :
    (now account phone : ℕ) (username : Option Text) (user : User) (rows : List User)
    → IsUserTable rows
    → All (λ u. uses_phone phone user u ≡ false) rows
    → All (λ u. owns_max account user u ≡ false) rows
    → IsUserTable (change (λ u. u.id == user.id) (link_max now account phone username user) rows)
link_max-IsUserTable now account phone username user rows v free alone = record {
  user_ids = kept_column rows v user.id link (λ n u. u.id == n) (λ n u. refl) v.user_ids;
  phones =
      claimed_column rows v user.id link has_phone phone (λ n u. refl)
        (mine_of_free has_phone phone user rows free) v.phones;
  telegram_ids = kept_column rows v user.id link has_telegram (λ n u. refl) v.telegram_ids;
  max_ids =
      claimed_column rows v user.id link has_max account (λ n u. refl)
        (mine_of_free has_max account user rows alone) v.max_ids;
}
  where
    link : User → User
    link = link_max now account phone username user
