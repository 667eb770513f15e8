-- ===== src/QrSession/Calls.antt =====
-- src/services/messengerQrAuthSessionService.ts: the calls.
use leader_product_api.Base.{
  ℕ, ◌+◌, Bool, true, false, ◌&&◌, not, Option, none, some, List, ◌++◌, ltb, if◌then◌else◌,
  is_some_of, is_empty, text_eq, Text, codes, nonzero, trim,
}
use leader_product_api.PhoneSession.{Provider, same_provider}
use leader_product_api.QrSession.{
  Session, Deps, ttl_ms, poll_interval_sec, is_open, is_verified, has_id, site, is_valid_deep_link,
  Outcome, Lookup, expire, cancel_row, bind_row, verify_row, fail_row, consume_row, pending,
  not_configured, deep_link_unavailable, started, refused, token_required, looked_up,
}

module _ (d : Deps) where
  open d use {sessions_table, hash_token, parse_big_int, bot_configured, bot_username}

  abbrev pub parse_optional : Option Text → Option ℕ
  parse_optional none = none
  parse_optional (some t) = parse_big_int t

  -- `update` of the row with an id.
  abbrev pub update_row : Text → (Session → Session) → List Session → List Session
  update_row id f rows = (sessions_table.update_many (has_id id) f rows).1

  unfoldable pub expire_session_if_needed : ℕ → Session → List Session → List Session × Session
  expire_session_if_needed now s rows =
      if not (is_open s.status)
      then (rows, s)
      else if ltb now s.expires_at
      then (rows, s)
      else (update_row s.id (expire now) rows, expire now s)

  abbrev pub new_session : (now : ℕ) (id start_token session_token : Text) → Provider → Session
  new_session now id start_token session_token provider = record {
    id = id;
    provider = provider;
    start_token_hash = hash_token start_token;
    client_token_hash = hash_token session_token;
    status = pending;
    messenger_user_id = none;
    messenger_chat_id = none;
    messenger_username = none;
    resolved_user_id = none;
    failure_reason = none;
    expires_at = now + ttl_ms;
    verified_at = none;
    consumed_at = none;
    created_at = now;
    updated_at = now;
  }

  unfoldable pub build_deep_link : Provider → Text → Text
  build_deep_link provider token =
      site provider ++ (bot_username provider ++ (codes "?start=auth_qr_" ++ token))

  -- `id` is the fresh row id, and the two tokens are the random ones, of this call.
  unfoldable pub start_messenger_qr_auth_session :
      (now : ℕ) (id start_token session_token : Text)
      → Provider
      → List Session
      → List Session × Outcome
  unfolding build_deep_link is_valid_deep_link
  start_messenger_qr_auth_session now id start_token session_token provider rows =
      let url = build_deep_link provider start_token in
      if not (bot_configured provider && not (is_empty (bot_username provider)))
      then (rows, refused not_configured)
      else if not (is_valid_deep_link url provider)
      then (rows, refused deep_link_unavailable)
      else (
        sessions_table.create (new_session now id start_token session_token provider) rows,
        started (record {
          provider = provider;
          session_token = session_token;
          deep_link_url = url;
          qr_payload = url;
          expires_at = now + ttl_ms;
          poll_interval = poll_interval_sec;
        }),
      )

  abbrev pub looks_up : List Session × Session → List Session × Lookup
  looks_up (rows, s) = (rows, looked_up (some s))

  unfoldable pub get_messenger_qr_auth_session_by_client_token :
      (now : ℕ) → Provider → Text → List Session → List Session × Lookup
  unfolding expire_session_if_needed
  get_messenger_qr_auth_session_by_client_token now provider token rows =
      if is_empty (trim token)
      then (rows, token_required)
      else elim (sessions_table.find_first
          (λ s.
            same_provider s.provider provider
            && text_eq s.client_token_hash (hash_token (trim token)))
          rows) [
            | none ↦ (rows, looked_up none)
            | some s ↦ looks_up (expire_session_if_needed now s rows)
          ]

  -- The end of a cancellation, from what the lookup left.
  abbrev pub finish_cancel : ℕ → List Session × Lookup → List Session × (Bool × Lookup)
  finish_cancel now (rows, answer) = elim answer [
    | token_required ↦ (rows, (false, token_required))
    | looked_up o ↦ elim o [
      | none ↦ (rows, (false, looked_up none))
      | some s ↦
          if not (is_open s.status)
          then (rows, (false, looked_up (some s)))
          else (update_row s.id (cancel_row now) rows, (true, looked_up (some (cancel_row now s))))
    ]
  ]

  -- Whether the session was cancelled, and the session.
  unfoldable pub cancel_messenger_qr_auth_session_by_client_token :
      (now : ℕ) → Provider → Text → List Session → List Session × (Bool × Lookup)
  unfolding get_messenger_qr_auth_session_by_client_token
  cancel_messenger_qr_auth_session_by_client_token now provider token rows =
      finish_cancel now (get_messenger_qr_auth_session_by_client_token now provider token rows)

  abbrev pub attach :
      (now account : ℕ)
      → Option Text
      → Option Text
      → List Session × Session
      → List Session × Option Session
  attach now account chat username (rows, s) = if not (is_open s.status) then (rows, some s) else (
    update_row s.id (bind_row now account (parse_optional chat) username) rows,
    some (bind_row now account (parse_optional chat) username s),
  )

  unfoldable pub bind_messenger_qr_auth_session_by_start_token :
      (now : ℕ)
      → Provider
      → (token account_raw : Text) → (chat username : Option Text) → List Session
      → List Session × Option Session
  unfolding expire_session_if_needed
  bind_messenger_qr_auth_session_by_start_token now provider token account_raw chat username rows =
      if is_empty (trim token) then (rows, none) else elim (nonzero (parse_big_int account_raw)) [
        | none ↦ (rows, none)
        | some account ↦
            elim (sessions_table.find_first
              (λ s.
                same_provider s.provider provider
                && text_eq s.start_token_hash (hash_token (trim token)))
              rows) [
                | none ↦ (rows, none)
                | some s ↦ attach now account chat username (expire_session_if_needed now s rows)
              ]
      ]

  abbrev pub is_active_of : (now : ℕ) → Provider → ℕ → Session → Bool
  is_active_of now provider account s =
      same_provider s.provider provider
      && (is_some_of s.messenger_user_id account && (is_open s.status && ltb now s.expires_at))

  unfoldable pub get_latest_active_messenger_qr_auth_session_by_messenger_user :
      (now : ℕ) → Provider → Text → List Session → Option Session
  get_latest_active_messenger_qr_auth_session_by_messenger_user now provider account_raw rows =
      elim (nonzero (parse_big_int account_raw)) [
        | none ↦ none
        | some account ↦
            sessions_table.find_latest (is_active_of now provider account) (λ s. s.updated_at) rows
      ]

  -- An update of the latest active session of an account, if there is one.
  abbrev pub update_latest :
      (now : ℕ)
      → Provider
      → Text
      → (Session → Session → Session)
      → List Session
      → List Session × Option Session
  update_latest now provider account_raw f rows =
      elim (get_latest_active_messenger_qr_auth_session_by_messenger_user now provider account_raw
        rows) [ none ↦ (rows, none) | some s ↦ (update_row s.id (f s) rows, some (f s s)) ]

  unfoldable pub mark_latest_messenger_qr_auth_session_verified :
      (now : ℕ)
      → Provider
      → Text
      → (resolved_user_id : ℕ) → Option Text
      → List Session
      → List Session × Option Session
  unfolding get_latest_active_messenger_qr_auth_session_by_messenger_user
  mark_latest_messenger_qr_auth_session_verified now provider account_raw user_id username rows =
      update_latest now provider account_raw (verify_row now user_id username) rows

  unfoldable pub mark_latest_messenger_qr_auth_session_failed :
      (now : ℕ)
      → Provider
      → Text
      → (failure_reason : Text) → Option Text
      → List Session
      → List Session × Option Session
  unfolding get_latest_active_messenger_qr_auth_session_by_messenger_user
  mark_latest_messenger_qr_auth_session_failed now provider account_raw reason username rows =
      update_latest now provider account_raw (fail_row now reason username) rows

  unfoldable pub consume_messenger_qr_auth_session :
      (now : ℕ) → Text → List Session → List Session × Bool
  consume_messenger_qr_auth_session now session_id rows =
      if is_empty (trim session_id)
      then (rows, false)
      else let (n, after) =
          sessions_table.update_many (λ s. text_eq s.id (trim session_id) && is_verified s.status)
            (consume_row now) rows in
        (after, ltb 0 n)
