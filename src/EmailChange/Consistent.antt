-- ===== src/EmailChange/Consistent.antt =====
-- src/services/emailChangeService.ts: the invariant of the tables, and the writes of rows.
use mathlib.Core.Path.{subst}
use leader_product_api.Base.{
  ℕ, ◌≤◌, ◌<◌, ◌≡◌, refl, sym, ◌∙◌, inl, inr, Bool, true, false, Option, none, some, List, ◌∷◌, All,
  All-Member, Member, arith, ◌==◌, ==_iff, Text, Bool-cases, count, change, count-change,
  count_claimed, count-change-le, count-change-le_of_All, count-change_of_All, count_unique,
  All-intro, All-change-intro, count-eq-zero,
}
use leader_product_api.EmailChange.{
  Session, Account, Db, Deps, is_pending, pending_of, has_id, max_attempts, close, cancelled,
  Reason, replaced_by_new_request, replaced_by_verified_request, update_sessions, replace_session,
  uses_email,
}
use leader_product_api.EmailChange.Calls.{count_attempt, verify, other_pending, set_email, commit}

-- The attempts spent stay within the limit, and below it while the session is pending.
abbrev pub IsCounted : Session → Type 0
IsCounted s =
    (s.attempts_count ≤ max_attempts)
    × (is_pending s.status ≡ true → s.attempts_count < max_attempts)

pub record IsSessionTable (rows : List Session) : Type 0 where
  pub session_ids : (id : ℕ) → count (has_id id) rows ≤ 1
  pub one_pending : (user_id : ℕ) → count (pending_of user_id) rows ≤ 1
  pub attempts : All IsCounted rows

abbrev pub has_email : Deps → Text → Account → Bool
has_email d email a = elim a.email [ none ↦ false | some e ↦ d.same_email e email ]

pub record IsAccountTable (d : Deps) (rows : List Account) : Type 0 where
  pub account_ids : (id : ℕ) → count (λ a. a.id == id) rows ≤ 1
  pub emails : (email : Text) → count (has_email d email) rows ≤ 1

pub record IsEmailState (d : Deps) (db : Db) : Type 0 where
  pub session_table : IsSessionTable db.sessions
  pub account_table : IsAccountTable d db.accounts

-- A write of a row that keeps its owner, makes nothing pending, and keeps the count.
abbrev pub IsSettling : (Session → Session) → Session → Type 0
IsSettling f s =
    ((f s).id ≡ s.id)
    × ((f s).user_id ≡ s.user_id)
    × (is_pending (f s).status ≡ true → is_pending s.status ≡ true)
    × (IsCounted s → IsCounted (f s))

pub change-IsSessionTable :
    (p : Session → Bool) (f : Session → Session) (rows : List Session)
    → ((s : Session) → Member s rows → p s ≡ true → IsSettling f s)
    → IsSessionTable rows
    → IsSessionTable (change p f rows)
change-IsSessionTable p f rows k v = record {
  session_ids = λ id. omega (
    arith,
    count-change_of_All (has_id id) p f rows (All-intro _ rows (λ s m e. ground (arith, k s m e))),
    v.session_ids id,
  );
  one_pending = λ u. omega (
    arith,
    count-change-le_of_All (pending_of u) p f rows
        (All-intro _ rows (λ s m e. ground (arith, k s m e))),
    v.one_pending u,
  );
  attempts =
      All-change-intro IsCounted p f rows
        (λ s m e. (k s m e).3 (All-Member IsCounted rows s v.attempts m))
        (λ s m e. All-Member IsCounted rows s v.attempts m);
}

abbrev cancel : Session → Session
cancel = close cancelled replaced_by_new_request

cancel-IsSettling : (r : Session) → IsSettling cancel r
cancel-IsSettling r = (refl, refl, (λ h. cc), (λ c. ground arith))

pub none_pending :
    (user_id : ℕ) (reason : Reason) (rows : List Session)
    → count (pending_of user_id) (change (pending_of user_id) (close cancelled reason) rows) ≡ 0
none_pending user_id reason rows = count-eq-zero (pending_of user_id) _ (
    All-change-intro _ (pending_of user_id) (close cancelled reason) rows (λ r _ _. ground arith)
      (λ r _ e. e))

same_number : (a b : ℕ) → (a == b) ≡ true → a ≡ b
same_number a b = (==_iff a b).0

cons-IsSessionTable :
    (s : Session) (rows : List Session)
    → IsSessionTable rows
    → count (has_id s.id) rows ≡ 0
    → count (pending_of s.user_id) rows ≡ 0
    → IsCounted s
    → IsSessionTable (s ∷ rows)
cons-IsSessionTable s rows v fresh idle counted = record {
  session_ids = λ id. elim (Bool-cases (s.id == id)) [
    | inl e ↦
        let gone = subst (λ m. count (has_id m) rows ≡ 0) (same_number s.id id e) fresh in
        ground (arith, gone)
    | inr e ↦ rw e (v.session_ids id)
  ];
  one_pending = λ u. elim (Bool-cases (s.user_id == u)) [
    | inl e ↦
        let gone = subst (λ m. count (pending_of m) rows ≡ 0) (same_number s.user_id u e) idle in
        ground (arith, gone)
    | inr e ↦ rw e (v.one_pending u)
  ];
  attempts = (counted, v.attempts);
}

module _ (d : Deps) (db : Db) (v : IsEmailState d db) where
  pub update_sessions-IsEmailState :
      (p : Session → Bool) (f : Session → Session)
      → ((s : Session) → Member s db.sessions → p s ≡ true → IsSettling f s)
      → IsEmailState d (update_sessions d p f db)
  update_sessions-IsEmailState p f k = record {
    session_table =
        rw (d.sessions_table.update_many_rows p f db.sessions)
          (change-IsSessionTable p f db.sessions k v.session_table);
    account_table = v.account_table;
  }

  -- One more wrong code: the fifth ends the session.
  pub count_attempt-IsEmailState :
      (s : Session)
      → Member s db.sessions
      → is_pending s.status ≡ true
      → IsEmailState d (update_sessions d (has_id s.id) (count_attempt s) db)
  count_attempt-IsEmailState s m p =
      update_sessions-IsEmailState (has_id s.id) (count_attempt s) λ r stored e.
        let same : r ≡ s =
          count_unique (has_id s.id) db.sessions r s (v.session_table.session_ids s.id) stored e m
            (ground arith) in
        let counted = All-Member IsCounted db.sessions s v.session_table.attempts m in
        let left = counted.1 p in
        subst (IsSettling (count_attempt s)) (sym same) (refl, refl, (λ _. p), (λ _. ground arith))

  pub replace_session-IsEmailState :
      (s : Session)
      → count (has_id s.id) db.sessions ≡ 0
      → IsCounted s
      → IsEmailState d (replace_session d s db)
  replace_session-IsEmailState s fresh counted = record {
    account_table = v.account_table;
    session_table =
        rw (d.sessions_table.update_many_rows (pending_of s.user_id) cancel db.sessions) (
          rw (d.sessions_table.create_rows s (change (pending_of s.user_id) cancel db.sessions)) (
            cons-IsSessionTable s _
              (change-IsSessionTable (pending_of s.user_id) cancel db.sessions
                (λ r _ _. cancel-IsSettling r) v.session_table)
              (count-change (has_id s.id) (pending_of s.user_id) cancel (λ r _. refl) db.sessions
                ∙ fresh)
              (none_pending s.user_id replaced_by_new_request db.sessions) counted));
  }

-- An email that is the same as the new one, up to case, can only stand in the user's own row.
mine_of_free :
    (d : Deps) (email requested : Text) (user_id : ℕ) (rows : List Account)
    → d.same_email requested email ≡ true
    → All (λ b. uses_email d requested user_id b ≡ false) rows
    → All (λ b. has_email d email b ≡ true → (b.id == user_id) ≡ true) rows
mine_of_free d email requested user_id rows same free =
    All-intro _ rows λ b m. row b b.email refl (All-Member _ rows b free m)
  where
    row :
        (b : Account) (o : Option Text)
        → b.email ≡ o
        → uses_email d requested user_id b ≡ false
        → has_email d email b ≡ true
        → (b.id == user_id) ≡ true
    row b none e u h = ground arith
    row b (some f) e u h =
        let g : d.same_email f email ≡ true = ground arith in
        let t = d.same_email_trans f email requested g (d.same_email_symm requested email same) in
        ground arith

set_email-IsAccountTable :
    (d : Deps) (requested : Text) (user_id : ℕ) (rows : List Account)
    → IsAccountTable d rows
    → All (λ b. uses_email d requested user_id b ≡ false) rows
    → IsAccountTable d (change (λ a. a.id == user_id) (set_email requested) rows)
set_email-IsAccountTable d requested user_id rows v free = record {
  account_ids = λ id. omega (
    arith,
    count-change (λ a. a.id == id) (λ a. a.id == user_id) (set_email requested) (λ a _. refl) rows,
    v.account_ids id,
  );
  emails = λ email. elim (Bool-cases (d.same_email requested email)) [
    | inl e ↦ omega (
      arith,
      count_claimed (has_email d email) (λ a. a.id == user_id) (set_email requested) rows
          (mine_of_free d email requested user_id rows e free),
      v.account_ids user_id,
    )
    | inr e ↦ omega (
      arith,
      count-change-le (has_email d email) (λ a. a.id == user_id) (set_email requested) (λ a _ h. cc)
          rows,
      v.emails email,
    )
  ];
}

verify-IsSettling : (now : ℕ) (r : Session) → IsSettling (verify now) r
verify-IsSettling now r = (refl, refl, (λ h. cc), (λ c. ground arith))

pub commit-IsEmailState :
    (d : Deps) (now user_id : ℕ) (s : Session) (db : Db)
    → IsEmailState d db
    → All (λ b. uses_email d s.requested_email user_id b ≡ false) db.accounts
    → IsEmailState d (commit d now user_id s db)
unfolding commit
commit-IsEmailState d now user_id s db v free =
    let done =
      update_sessions-IsEmailState d db v (has_id s.id) (verify now)
        (λ r _ _. verify-IsSettling now r) in
    let alone =
      update_sessions-IsEmailState d _ done (other_pending user_id s.id)
        (close cancelled replaced_by_verified_request)
        (λ r _ _. (refl, refl, (λ h. cc), (λ c. ground arith))) in
    record {
      session_table = alone.session_table;
      account_table =
          rw
            (d.accounts_table.update_many_rows (λ a. a.id == user_id) (set_email s.requested_email)
              db.accounts)
            (set_email-IsAccountTable d s.requested_email user_id db.accounts v.account_table free);
    }
