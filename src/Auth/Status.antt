-- ===== src/Auth/Status.antt =====
-- secure.h, the statuses of a login and their flags.
use input.Base.{if◌then◌else◌, has_bit, ℕ, ◌+◌, ◌^◌, Bool, true, false}

-- The names that go with the statuses.
pub data Status : Type 0 where
  auth_internal_error auth_need_password auth_not_exist auth_recovery_key_invalid : Status
  auth_no_userid auth_not_device_owner auth_ok auth_user_cancel auth_user_cancel_dont_hide : Status
  auth_in_progress auth_confirm_failed auth_need_credentials auth_no_recovery_key : Status
  auth_synchronizer_uid_mismatch auth_invalid_registration_pin auth_already_registered : Status
  auth_device_cert_renew_no_effect auth_ssl_cacert_error : Status

abbrev pub is_error : Status → Bool
is_error auth_ok = false
is_error auth_user_cancel = false
is_error auth_user_cancel_dont_hide = false
is_error auth_in_progress = false
is_error auth_need_credentials = false
is_error _ = true

abbrev pub hides_window : Status → Bool
hides_window auth_ok = true
hides_window auth_user_cancel = true
hides_window _ = false

-- The flags that go with a status, by their bit.
abbrev pub flag_error : ℕ
flag_error = 0

abbrev pub flag_local_password_mismatch : ℕ
flag_local_password_mismatch = 1

abbrev pub flag_remote_user_or_password_mismatch : ℕ
flag_remote_user_or_password_mismatch = 2

abbrev pub flag_recovered : ℕ
flag_recovered = 3

abbrev pub flag_auto_started : ℕ
flag_auto_started = 4

abbrev pub flag_offline : ℕ
flag_offline = 5

abbrev pub flag_http_error : ℕ
flag_http_error = 6

abbrev pub flag_network_error : ℕ
flag_network_error = 7

abbrev pub flag_remote_internal_error : ℕ
flag_remote_internal_error = 8

abbrev pub flag_local_started : ℕ
flag_local_started = 9

abbrev pub flag_remote_started : ℕ
flag_remote_started = 10

abbrev pub flag_not_registered : ℕ
flag_not_registered = 11

abbrev pub flag_local_credentials_missing : ℕ
flag_local_credentials_missing = 12

abbrev pub flag_remote_credentials_missing : ℕ
flag_remote_credentials_missing = 13

abbrev pub flag_not_logged_in : ℕ
flag_not_logged_in = 14

abbrev pub flag_userid_mismatch : ℕ
flag_userid_mismatch = 15

abbrev pub flag_remote_password_expired : ℕ
flag_remote_password_expired = 16

abbrev pub flag_remote_account_locked : ℕ
flag_remote_account_locked = 17

abbrev pub flag_remote_account_disabled : ℕ
flag_remote_account_disabled = 18

-- `flags | (1 << bit)`
abbrev pub or_flag : ℕ → ℕ → ℕ
or_flag bit flags = if has_bit bit flags then flags else flags + 2 ^ bit
