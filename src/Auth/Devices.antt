-- ===== src/Auth/Devices.antt =====
-- src/services/authRefreshTokenService.ts: the device that a refresh token belongs to.
use leader_product_api.Base.{
  ℕ, Bool, true, false, ◌&&◌, Option, none, some, List, [], ◌∷◌, Text, text_eq, trim, or_text, ◌==◌,
}
use leader_product_api.Auth.{DeviceSession, Deps}

pub record AuthDeviceInfo : Type 0 where
  pub device_session_id : Option Text
  pub install_id : Option Text
  pub platform : Option Text
  pub app_version : Option Text
  pub device_name : Option Text

-- `String(value || '').trim() || undefined`
unfoldable pub clean : Option Text → Option Text
unfolding trim
clean none = none
clean (some t) = elim (trim t) [ [] ↦ none | c ∷ rest ↦ some (c ∷ rest) ]

unfoldable pub normalize_device_info : AuthDeviceInfo → AuthDeviceInfo
unfolding clean
normalize_device_info input = record {
  device_session_id = clean input.device_session_id;
  install_id = clean input.install_id;
  platform = clean input.platform;
  app_version = clean input.app_version;
  device_name = clean input.device_name;
}

abbrev pub or_install : Option Text → Text → Text
or_install none t = t
or_install (some s) t = s

abbrev pub is_live : Option ℕ → Bool
is_live none = true
is_live (some t) = false

abbrev pub has_device_id : Text → DeviceSession → Bool
has_device_id id s = text_eq s.id id

abbrev pub is_session_of : Text → (user_id : ℕ) → DeviceSession → Bool
is_session_of id user_id s = text_eq s.id id && (s.user_id == user_id && is_live s.revoked_at)

abbrev pub is_install_of : Text → (user_id : ℕ) → DeviceSession → Bool
is_install_of install_id user_id s =
    s.user_id == user_id && (text_eq s.install_id install_id && is_live s.revoked_at)

module _ (d : Deps) (now : ℕ) where
  -- The columns that a device seen again gets.
  abbrev pub seen_again : AuthDeviceInfo → DeviceSession → DeviceSession
  seen_again info s = record s {
    last_seen_at = now;
    platform = or_text info.platform s.platform;
    app_version = or_text info.app_version s.app_version;
    device_name = or_text info.device_name s.device_name;
  }

  abbrev pub seen_with_install : AuthDeviceInfo → DeviceSession → DeviceSession
  seen_with_install info s = record (seen_again info s) {
    install_id = or_install info.install_id s.install_id;
  }

  abbrev pub new_device : Text → (user_id : ℕ) → Text → AuthDeviceInfo → DeviceSession
  new_device id user_id install_id info = record {
    id = id;
    user_id = user_id;
    install_id = install_id;
    platform = info.platform;
    app_version = info.app_version;
    device_name = info.device_name;
    created_at = now;
    last_seen_at = now;
    revoked_at = none;
  }

  abbrev pub update_device :
      Text → (DeviceSession → DeviceSession) → List DeviceSession → List DeviceSession
  update_device id f devices = (d.devices_table.update_many (has_device_id id) f devices).1

  -- The device found by the installation, or a new one; none without an installation.
  unfoldable pub ensure_install :
      Text → (user_id : ℕ) → AuthDeviceInfo → List DeviceSession → List DeviceSession × Option Text
  ensure_install fresh user_id info devices = elim info.install_id [
    | none ↦ (devices, none)
    | some install ↦
        elim (d.devices_table.find_latest (is_install_of install user_id) (λ s. s.created_at)
          devices) [
            | some s ↦ (update_device s.id (seen_again info) devices, some s.id)
            | none ↦
                (d.devices_table.create (new_device fresh user_id install info) devices, some fresh)
          ]
  ]

  unfoldable pub ensure_device_session :
      Text → (user_id : ℕ) → AuthDeviceInfo → List DeviceSession → List DeviceSession × Option Text
  unfolding normalize_device_info ensure_install
  ensure_device_session fresh user_id raw devices =
      let info = normalize_device_info raw in
      let by_install = ensure_install fresh user_id info devices in
      elim info.device_session_id [
        | none ↦ by_install
        | some id ↦ elim (d.devices_table.find_first (is_session_of id user_id) devices) [
          | none ↦ by_install
          | some s ↦ (update_device s.id (seen_with_install info) devices, some s.id)
        ]
      ]
