-- ===== src/QrSession/Once.antt =====
-- src/services/messengerQrAuthSessionService.ts: the moves of a stored session over calls and
-- histories, and the consumption of a session.
use mathlib.Core.Path.{subst, sym, ap}
use leader_product_api.Base.{
  ℕ, ◌≤◌, ◌≡◌, ◌∙◌, refl, inl, inr, Bool, true, false, ◌&&◌, List, [], ◌∷◌, ltb, arith, Member,
  All-intro, count-eq-zero, Bool-cases, is_empty, Text, text_eq, text_eq→eq, text_eq_refl, trim,
  count, count_unique, count-change, Member-change_kept, Member-change_made, change,
}
use leader_product_api.QrSession.{
  Session, Deps, consumed, is_open, is_verified, is_consumed, has_id, consume_row,
}
use leader_product_api.QrSession.Calls.{update_row, new_session, consume_messenger_qr_auth_session}
use leader_product_api.QrSession.Moves.{Call, start, step, HasUniqueIds, IsMove, kept_by_call}

-- The rows that a consumption writes.
abbrev consumes : Text → Session → Bool
consumes session_id s = text_eq s.id (trim session_id) && is_verified s.status

module _ (d : Deps) (now : ℕ) (rows : List Session) where
  -- A consumption writes its rows, or nothing without an id.
  consume_exits :
      (P : List Session → Type 0) (session_id : Text)
      → P rows
      → P (change (consumes session_id) (consume_row now) rows)
      → P (consume_messenger_qr_auth_session d now session_id rows).0
  unfolding consume_messenger_qr_auth_session
  consume_exits P session_id unchanged written = elim (Bool-cases (is_empty (trim session_id))) [
    | inl e ↦ rw (e, consume_messenger_qr_auth_session) unchanged
    | inr e ↦
        rw (e, consume_messenger_qr_auth_session)
          (subst P
            (sym (d.sessions_table.update_many_rows (consumes session_id) (consume_row now) rows))
            written)
  ]

  module _ (unique : HasUniqueIds rows) (s : Session) (stored : Member s rows) where
    abbrev MovesTo : List Session → Type 0
    MovesTo after = (t : Session) × Member t after × IsMove s t

    unmoved : (after : List Session) → Member s after → MovesTo after
    unmoved after m = (s, m, inr (inl refl))

    moved_by_write :
        (r : Session)
        → Member r rows
        → is_open r.status ≡ true
        → (f : Session → Session) → ((x : Session) → (f x).id ≡ x.id)
        → ((x : Session) → is_consumed (f x).status ≡ false)
        → MovesTo (update_row d r.id f rows)
    moved_by_write r m e f ids open_still =
        subst MovesTo (sym (d.sessions_table.update_many_rows (has_id r.id) f rows))
          (elim (Bool-cases (has_id r.id s)) [
            | inr h ↦
                unmoved (change (has_id r.id) f rows)
                  (Member-change_kept (has_id r.id) f rows s stored h)
            | inl h ↦
                let same : s ≡ r =
                  count_unique (has_id r.id) rows s r (unique r.id) stored h m
                    (text_eq_refl r.id) in
                (
                  f s,
                  Member-change_made (has_id r.id) f rows s stored h,
                  inl (subst (λ z. is_open z.status ≡ true) (sym same) e, ids s, open_still s),
                )
          ])

    moved_by_consume :
        (session_id : Text) → MovesTo (change (consumes session_id) (consume_row now) rows)
    moved_by_consume session_id = elim (Bool-cases (consumes session_id s)) [
      | inr h ↦
          unmoved _ (Member-change_kept (consumes session_id) (consume_row now) rows s stored h)
      | inl h ↦ (
        consume_row now s,
        Member-change_made (consumes session_id) (consume_row now) rows s stored h,
        inr (inr (ground arith, refl, refl, refl)),
      )
    ]

    -- Where ids are unique, every call moves a stored session by one of the moves: an open session
    -- stays, or becomes anything but consumed; a verified one stays or is consumed with its user
    -- kept; any other stays as it is.
    pub step-IsMove : (c : Call) → (t : Session) × Member t (step d now c rows) × IsMove s t
    step-IsMove c =
        kept_by_call d now rows MovesTo (unmoved rows stored) moved_by_write c
          (λ id a b provider e.
            subst MovesTo (sym (d.sessions_table.create_rows _ rows))
              (unmoved (new_session d now id a b provider ∷ rows) (inr stored)))
          (λ session_id.
            consume_exits MovesTo session_id (unmoved rows stored) (moved_by_consume session_id))

-- The database gives a new session an id that no row has.
abbrev pub IsFresh : Call → List Session → Type 0
IsFresh (start id a b provider) rows = count (has_id id) rows ≡ 0
IsFresh _ rows = Unit

pub data Reach (d : Deps) (rows : List Session) : List Session → Type 0 where
  here : Reach d rows rows
  next :
      {after : List Session} (now : ℕ) (c : Call)
      → Reach d rows after
      → IsFresh c after
      → Reach d rows (step d now c after)

module _ (d : Deps) (now : ℕ) (rows : List Session) (unique : HasUniqueIds rows) where
  change-HasUniqueIds :
      (p : Session → Bool) (f : Session → Session)
      → ((x : Session) → (f x).id ≡ x.id)
      → HasUniqueIds (change p f rows)
  change-HasUniqueIds p f ids i =
      subst (λ n. n ≤ 1)
        (sym (count-change (has_id i) p f (λ x _. ap (λ z. text_eq z i) (ids x)) rows)) (unique i)

  created-HasUniqueIds : (s : Session) → count (has_id s.id) rows ≡ 0 → HasUniqueIds (s ∷ rows)
  created-HasUniqueIds s fresh i = elim (Bool-cases (has_id i s)) [
    | inr e ↦ rw e (unique i)
    | inl e ↦
        let none_yet : count (has_id i) rows ≡ 0 =
          subst (λ z. count (has_id z) rows ≡ 0) (text_eq→eq s.id i e) fresh in
        rw (e, none_yet) (omega arith)
  ]

  step-HasUniqueIds : (c : Call) → IsFresh c rows → HasUniqueIds (step d now c rows)
  step-HasUniqueIds c fresh =
      kept_by_call d now rows HasUniqueIds unique
        (λ r m e f ids open_still.
          subst HasUniqueIds (sym (d.sessions_table.update_many_rows (has_id r.id) f rows))
            (change-HasUniqueIds (has_id r.id) f ids))
        c
        (λ id a b provider e. subst HasUniqueIds (sym (d.sessions_table.create_rows _ rows)) (
          created-HasUniqueIds (new_session d now id a b provider)
            (subst (λ z. IsFresh z rows) e fresh)))
        (λ session_id.
          consume_exits d now rows HasUniqueIds session_id unique
            (change-HasUniqueIds (consumes session_id) (consume_row now) (λ x. refl)))

count-found :
    {A : Type 0} (q : A → Bool) (xs : List A)
    → 1 ≤ count q xs
    → (a : A) × Member a xs × (q a ≡ true)
count-found q [] h = ground arith
count-found q (x ∷ xs) h = elim (Bool-cases (q x)) [
  | inl e ↦ (x, inl refl, e)
  | inr e ↦ let (a, m, k) = count-found q xs (rw e at h) in (a, inr m, k)
]

-- A session that is consumed stays in the table as it is.
Reach-consumed :
    (d : Deps) {rows after : List Session} (s : Session)
    → HasUniqueIds rows
    → Member s rows
    → s.status ≡ consumed
    → Reach d rows after
    → HasUniqueIds after × Member s after
Reach-consumed d s unique m h here = (unique, m)
Reach-consumed d s unique m h (next {after} now c r fresh) =
    let (u, k) = Reach-consumed d s unique m h r in
    let (t, stored, move) = step-IsMove d now after u s k c in
    (
      step-HasUniqueIds d now after u c fresh,
      elim move [
        | inl (e, _, _) ↦ ground (arith, e, h)
        | inr (inl e) ↦ subst (λ z. Member z (step d now c after)) e stored
        | inr (inr (e, _, _, _)) ↦ ground (arith, e, h)
      ],
    )

module _ (d : Deps) (session_id : Text) where
  answer_exits :
      (Q : List Session × Bool → Type 0) (now : ℕ) (rows : List Session)
      → Q (rows, false)
      → Q (
        change (consumes session_id) (consume_row now) rows,
        ltb 0 (count (consumes session_id) rows),
      )
      → Q (consume_messenger_qr_auth_session d now session_id rows)
  unfolding consume_messenger_qr_auth_session
  answer_exits Q now rows without written = elim (Bool-cases (is_empty (trim session_id))) [
    | inl e ↦ rw (e, consume_messenger_qr_auth_session) without
    | inr e ↦
        rw (e, consume_messenger_qr_auth_session)
          (subst
            (λ r. Q (
              r,
              ltb 0 (d.sessions_table.update_many (consumes session_id) (consume_row now) rows).0,
            ))
            (sym (d.sessions_table.update_many_rows (consumes session_id) (consume_row now) rows))
            (subst (λ n. Q (change (consumes session_id) (consume_row now) rows, ltb 0 n))
              (sym
                (d.sessions_table.update_many_count (consumes session_id) (consume_row now) rows))
              written))
  ]

  abbrev IsDone : List Session → Type 0
  IsDone rows =
      (s : Session) × Member s rows × (s.status ≡ consumed) × (has_id (trim session_id) s ≡ true)

  success-consumed :
      (now : ℕ) (rows : List Session)
      → (consume_messenger_qr_auth_session d now session_id rows).1 ≡ true
      → IsDone (consume_messenger_qr_auth_session d now session_id rows).0
  success-consumed now rows =
      answer_exits (λ o. o.1 ≡ true → IsDone o.0) now rows (λ h. ground arith)
        λ h.
          let (s, m, k) = count-found (consumes session_id) rows (ground (arith, h)) in
          (
            consume_row now s,
            Member-change_made (consumes session_id) (consume_row now) rows s m k,
            refl,
            ground (arith, k),
          )

  done-refused :
      (now : ℕ) (rows : List Session)
      → HasUniqueIds rows
      → IsDone rows
      → (consume_messenger_qr_auth_session d now session_id rows).1 ≡ false
  done-refused now rows unique (s, m, h, named) =
      answer_exits (λ o. o.1 ≡ false) now rows refl
        (rw (count-eq-zero (consumes session_id) rows (All-intro _ rows no_other)) refl)
    where
      no_other : (r : Session) → Member r rows → consumes session_id r ≡ false
      no_other r n = elim (Bool-cases (consumes session_id r)) [
        | inr e ↦ e
        | inl e ↦
            let same : r ≡ s =
              count_unique (has_id (trim session_id)) rows r s (unique (trim session_id)) n
                (ground (arith, e)) m named in
            let status : r.status ≡ consumed = ap (λ (z : Session). z.status) same ∙ h in
            ground (arith, e, status)
      ]

  -- Where ids are unique, a session that was consumed is not consumed again, whatever calls come
  -- between, given fresh ids for new sessions.
  pub consume_once :
      (now later : ℕ) (rows after : List Session)
      → HasUniqueIds rows
      → (consume_messenger_qr_auth_session d now session_id rows).1 ≡ true
      → Reach d (consume_messenger_qr_auth_session d now session_id rows).0 after
      → (consume_messenger_qr_auth_session d later session_id after).1 ≡ false
  consume_once now later rows after unique h r =
      let (s, m, status, named) = success-consumed now rows h in
      let first = consume_exits d now rows HasUniqueIds session_id unique (
        change-HasUniqueIds d now rows unique (consumes session_id) (consume_row now)
          (λ x. refl)) in
      let (u, k) = Reach-consumed d s first m status r in
      done-refused later after u (s, k, status, named)
