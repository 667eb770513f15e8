-- ===== src/QrSession/Moves.antt =====
-- src/services/messengerQrAuthSessionService.ts as a state machine: the calls, the moves of a session
-- and the ways out of the calls.
use leader_product_api.Base.{
  ℕ, ◌≤◌, ◌≡◌, ◌⊎◌, refl, inl, inr, Bool, true, false, ◌&&◌, not, Option, none, some, List, ltb,
  arith, Member, Bool-cases, Option-cases, is_empty, Text, text_eq, trim, nonzero, count,
}
use leader_product_api.PhoneSession.{Provider, same_provider}
use leader_product_api.QrSession.{
  Session, Deps, Lookup, token_required, looked_up, is_consumed, consumed, is_open, is_verified,
  has_id, expire, cancel_row, bind_row, verify_row, fail_row, is_valid_deep_link,
}
use leader_product_api.QrSession.Calls.{
  finish_cancel, update_row, expire_session_if_needed, new_session, start_messenger_qr_auth_session,
  get_messenger_qr_auth_session_by_client_token, cancel_messenger_qr_auth_session_by_client_token,
  bind_messenger_qr_auth_session_by_start_token, mark_latest_messenger_qr_auth_session_verified,
  mark_latest_messenger_qr_auth_session_failed,
  get_latest_active_messenger_qr_auth_session_by_messenger_user, consume_messenger_qr_auth_session,
  update_latest, attach, parse_optional, is_active_of, build_deep_link,
}

pub data Call : Type 0 where
  start : (id start_token session_token : Text) → Provider → Call
  get cancel : Provider → (token : Text) → Call
  bind : Provider → (token account_raw : Text) → (chat username : Option Text) → Call
  mark_verified : Provider → (account_raw : Text) → (user_id : ℕ) → (username : Option Text) → Call
  mark_failed : Provider → (account_raw reason : Text) → (username : Option Text) → Call
  consume : (session_id : Text) → Call

unfoldable pub step : Deps → ℕ → Call → List Session → List Session
step d now (start id start_token session_token provider) rows =
    (start_messenger_qr_auth_session d now id start_token session_token provider rows).0
step d now (get provider token) rows =
    (get_messenger_qr_auth_session_by_client_token d now provider token rows).0
step d now (cancel provider token) rows =
    (cancel_messenger_qr_auth_session_by_client_token d now provider token rows).0
step d now (bind provider token account chat username) rows =
    (bind_messenger_qr_auth_session_by_start_token d now provider token account chat username
      rows).0
step d now (mark_verified provider account user_id username) rows =
    (mark_latest_messenger_qr_auth_session_verified d now provider account user_id username rows).0
step d now (mark_failed provider account reason username) rows =
    (mark_latest_messenger_qr_auth_session_failed d now provider account reason username rows).0
step d now (consume session_id) rows = (consume_messenger_qr_auth_session d now session_id rows).0

abbrev pub HasUniqueIds : List Session → Type 0
HasUniqueIds rows = (id : Text) → count (has_id id) rows ≤ 1

-- An open session may become anything but consumed, a verified one stays or is consumed and keeps
-- its user, and any other stays as it is.
abbrev pub IsMove : Session → Session → Type 0
IsMove s t =
    ((is_open s.status ≡ true) × (t.id ≡ s.id) × (is_consumed t.status ≡ false))
    ⊎ ((t ≡ s)
        ⊎ ((is_verified s.status ≡ true)
            × (t.id ≡ s.id)
            × (t.status ≡ consumed)
            × (t.resolved_user_id ≡ s.resolved_user_id)))

-- The ways out of the calls that write an open session: what a property has to show of each.
module _ (d : Deps) (now : ℕ) (rows : List Session) where
  expire_exits :
      (Q : List Session × Session → Type 0) (s : Session)
      → Q (rows, s)
      → (is_open s.status ≡ true → Q (update_row d s.id (expire now) rows, expire now s))
      → Q (expire_session_if_needed d now s rows)
  unfolding expire_session_if_needed
  expire_exits Q s kept written = elim (Bool-cases (is_open s.status)) [
    | inr e ↦ rw (e, expire_session_if_needed) kept
    | inl e ↦
        rw (e, expire_session_if_needed)
          (elim (Bool-cases (ltb now s.expires_at)) [
            | inl t ↦ rw t kept
            | inr t ↦ rw t (written e)
          ])
  ]

  get_exits :
      (Q : List Session × Lookup → Type 0) (provider : Provider) (token : Text)
      → Q (rows, token_required)
      → Q (rows, looked_up none)
      → ((s : Session) → Member s rows → Q (rows, looked_up (some s)))
      → ((s : Session)
          → Member s rows
          → is_open s.status ≡ true
          → Q (update_row d s.id (expire now) rows, looked_up (some (expire now s))))
      → Q (get_messenger_qr_auth_session_by_client_token d now provider token rows)
  unfolding get_messenger_qr_auth_session_by_client_token
  get_exits Q provider token required missing kept written =
      elim (Bool-cases (is_empty (trim token))) [
        | inl e ↦ rw (e, get_messenger_qr_auth_session_by_client_token) required
        | inr e ↦
            rw (e, get_messenger_qr_auth_session_by_client_token)
              (elim (Option-cases (d.sessions_table.find_first (asks provider token) rows)) [
                | inl t ↦ rw t missing
                | inr (s, t) ↦
                    let (m, _) = d.sessions_table.find_first_found (asks provider token) rows s t in
                    rw t
                      (expire_exits (λ o. Q (o.0, looked_up (some o.1))) s (kept s m) (written s m))
              ])
      ]
    where
      asks : Provider → Text → Session → Bool
      asks p raw s =
          same_provider s.provider p && text_eq s.client_token_hash (d.hash_token (trim raw))

  module _ (P : List Session → Type 0) (unchanged : P rows)
      (write : (s : Session)
        → Member s rows
        → is_open s.status ≡ true
        → (f : Session → Session) → ((x : Session) → (f x).id ≡ x.id)
        → ((x : Session) → is_consumed (f x).status ≡ false)
        → P (update_row d s.id f rows)) where
    kept_by_get :
        (provider : Provider) (token : Text)
        → P (get_messenger_qr_auth_session_by_client_token d now provider token rows).0
    kept_by_get provider token =
        get_exits (λ o. P o.0) provider token unchanged unchanged (λ s m. unchanged)
          (λ s m e. write s m e (expire now) (λ _. refl) (λ _. refl))

    kept_by_cancel :
        (provider : Provider) (token : Text)
        → P (cancel_messenger_qr_auth_session_by_client_token d now provider token rows).0
    unfolding cancel_messenger_qr_auth_session_by_client_token
    kept_by_cancel provider token =
        get_exits (λ o. P (finish_cancel d now o).0) provider token unchanged unchanged
          (λ s m. elim (Bool-cases (is_open s.status)) [
            | inr e ↦ rw e unchanged
            | inl e ↦ rw e (write s m e (cancel_row now) (λ _. refl) (λ _. refl))
          ])
          (λ s m e. write s m e (expire now) (λ _. refl) (λ _. refl))

    kept_by_bind :
        (provider : Provider) (token account_raw : Text) (chat username : Option Text)
        → P
            (bind_messenger_qr_auth_session_by_start_token d now provider token account_raw chat
              username rows).0
    unfolding bind_messenger_qr_auth_session_by_start_token
    kept_by_bind provider token account_raw chat username =
        elim (Bool-cases (is_empty (trim token))) [
          | inl e ↦ rw (e, bind_messenger_qr_auth_session_by_start_token) unchanged
          | inr e ↦
              rw (e, bind_messenger_qr_auth_session_by_start_token)
                (elim (Option-cases (nonzero (d.parse_big_int account_raw))) [
                  | inl t ↦ rw t unchanged
                  | inr (account, t) ↦
                      rw t (elim (Option-cases (d.sessions_table.find_first asks rows)) [
                        | inl u ↦ rw u unchanged
                        | inr (s, u) ↦
                            let (m, _) = d.sessions_table.find_first_found asks rows s u in
                            rw u (
                              expire_exits (λ o. P (attach d now account chat username o).0) s
                                (elim (Bool-cases (is_open s.status)) [
                                  | inr k ↦ rw k unchanged
                                  | inl k ↦ rw k (
                                      write s m k
                                        (bind_row now account (parse_optional d chat) username)
                                        (λ _. refl) (λ _. refl))
                                ])
                                (λ k. write s m k (expire now) (λ _. refl) (λ _. refl)))
                      ])
                ])
        ]
      where
        asks : Session → Bool
        asks s =
            same_provider s.provider provider
            && text_eq s.start_token_hash (d.hash_token (trim token))

    kept_by_mark :
        (provider : Provider) (account_raw : Text) (f : Session → Session → Session)
        → ((s x : Session) → (f s x).id ≡ x.id)
        → ((s x : Session) → is_consumed (f s x).status ≡ false)
        → P (update_latest d now provider account_raw f rows).0
    unfolding get_latest_active_messenger_qr_auth_session_by_messenger_user
    kept_by_mark provider account_raw f same open_still =
        elim (Option-cases (nonzero (d.parse_big_int account_raw))) [
          | inl t ↦
              rw (t, update_latest, get_latest_active_messenger_qr_auth_session_by_messenger_user)
                unchanged
          | inr (account, t) ↦
              rw (t, update_latest, get_latest_active_messenger_qr_auth_session_by_messenger_user)
                (elim (Option-cases (
                  d.sessions_table.find_latest (is_active_of d now provider account)
                    (λ s. s.updated_at) rows)) [
                      | inl u ↦ rw u unchanged
                      | inr (s, u) ↦
                          let (m, w, _) =
                            d.sessions_table.find_latest_found (is_active_of d now provider account)
                              (λ r. r.updated_at) rows s u in
                          rw u (write s m (active_open account s w) (f s) (same s) (open_still s))
                    ])
        ]
      where
        active_open :
            (account : ℕ) (s : Session)
            → is_active_of d now provider account s ≡ true
            → is_open s.status ≡ true
        active_open account s h = ground arith

    kept_by_start :
        (id start_token session_token : Text) (provider : Provider)
        → P (d.sessions_table.create (new_session d now id start_token session_token provider) rows)
        → P (start_messenger_qr_auth_session d now id start_token session_token provider rows).0
    unfolding start_messenger_qr_auth_session
    kept_by_start id start_token session_token provider created =
        elim (Bool-cases (d.bot_configured provider && not (is_empty (d.bot_username provider)))) [
          | inr e ↦ rw (e, start_messenger_qr_auth_session) unchanged
          | inl e ↦
              rw (e, start_messenger_qr_auth_session)
                (elim (Bool-cases
                  (is_valid_deep_link (build_deep_link d provider start_token) provider)) [
                    | inr t ↦ rw t unchanged
                    | inl t ↦ rw t created
                  ])
        ]

    -- Every call, given what a start and a consumption do.
    pub kept_by_call :
        (c : Call)
        → ((id start_token session_token : Text) (provider : Provider)
            → c ≡ start id start_token session_token provider
            → P (
                d.sessions_table.create
                  (new_session d now id start_token session_token provider)
                  rows))
        → ((session_id : Text) → P (consume_messenger_qr_auth_session d now session_id rows).0)
        → P (step d now c rows)
    unfolding step mark_latest_messenger_qr_auth_session_verified
        mark_latest_messenger_qr_auth_session_failed
    kept_by_call (start id start_token session_token provider) created consumes =
        kept_by_start id start_token session_token provider
          (created id start_token session_token provider refl)
    kept_by_call (get provider token) created consumes = kept_by_get provider token
    kept_by_call (cancel provider token) created consumes = kept_by_cancel provider token
    kept_by_call (bind provider token account chat username) created consumes =
        kept_by_bind provider token account chat username
    kept_by_call (mark_verified provider account user_id username) created consumes =
        kept_by_mark provider account (verify_row now user_id username) (λ s x. refl) (λ s x. refl)
    kept_by_call (mark_failed provider account reason username) created consumes =
        kept_by_mark provider account (fail_row now reason username) (λ s x. refl) (λ s x. refl)
    kept_by_call (consume session_id) created consumes = consumes session_id
