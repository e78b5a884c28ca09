-- ===== src/Secure/Remote.antt =====
-- secure.c, `auth_remote_status`: the backend daemon tells how the remote login went.
use input.Secure.Local.{Request, remove_key, local_auth}
use input.Base.{
  if◌then◌else◌, get_elem?, ℤ, pos, negsuc, ℕ, ◌^◌, Bool, true, false, Option, none, some, List, [],
  ◌∷◌,
}
use input.Auth.Status.{
  Status, auth_internal_error, auth_not_device_owner, auth_in_progress, auth_need_credentials,
  auth_no_recovery_key, auth_synchronizer_uid_mismatch, auth_invalid_registration_pin,
  auth_already_registered, auth_device_cert_renew_no_effect, auth_ssl_cacert_error,
  flag_remote_user_or_password_mismatch, flag_auto_started, flag_offline, flag_http_error,
  flag_network_error, flag_remote_internal_error, flag_remote_started, flag_not_registered,
  flag_remote_credentials_missing, flag_not_logged_in, flag_userid_mismatch,
  flag_remote_password_expired, flag_remote_account_locked, flag_remote_account_disabled, or_flag,
}
use input.Secure.{File, local_hash, remote_hash, World, Host, remove_file, auth_status}

-- What a status asks for: only a status of our own, with a flag perhaps, or the local login.
pub data Verdict : Type 0 where
  say : Status → Verdict
  say_with : Status → ℕ → Verdict
  try_with : ℕ → Verdict
  try_recovering : Verdict
  invalid : Verdict

-- REMOTE_AUTH_INTERNAL_ERROR, -1, and down.
abbrev pub below : List Verdict
below =
    try_with flag_remote_internal_error
    ∷ try_with flag_offline
    ∷ try_with flag_network_error
    ∷ try_with flag_http_error
    ∷ try_with flag_not_registered
    ∷ say auth_not_device_owner
    ∷ say_with auth_internal_error flag_not_logged_in
    ∷ say_with auth_internal_error flag_userid_mismatch
    ∷ say auth_invalid_registration_pin
    ∷ say auth_already_registered
    ∷ say auth_synchronizer_uid_mismatch
    ∷ []

-- REMOTE_AUTH_IN_PROGRESS, 0, and up.
abbrev pub above : List Verdict
above =
    say_with auth_in_progress flag_remote_started
    ∷ try_recovering
    ∷ say_with auth_need_credentials flag_remote_user_or_password_mismatch
    ∷ say_with auth_need_credentials flag_remote_credentials_missing
    ∷ say auth_no_recovery_key
    ∷ say_with auth_need_credentials flag_remote_password_expired
    ∷ say_with auth_need_credentials flag_remote_account_locked
    ∷ say_with auth_need_credentials flag_remote_account_disabled
    ∷ say auth_device_cert_renew_no_effect
    ∷ say auth_ssl_cacert_error
    ∷ []

abbrev pub or_invalid : Option Verdict → Verdict
or_invalid none = invalid
or_invalid (some v) = v

unfoldable pub verdict : ℤ → Verdict
verdict (pos n) = or_invalid (get_elem? above n)
verdict (negsuc n) = or_invalid (get_elem? below n)

-- What the daemon sends.
pub record Report : Type 0 where
  pub auto_started : Bool
  pub status : ℤ
  pub id : List ℕ
  pub username : List ℕ
  pub recovery_key : Option File
  pub ctx_flags : ℕ

abbrev pub report_flags : Report → ℕ
report_flags r = if r.auto_started then 2 ^ flag_auto_started else 0

module _ (host : Host) where
  abbrev pub request : Report → Bool → ℕ → Request
  request r remote_ok flags = record {
    remote_ok = remote_ok;
    remote_flags = flags;
    uname = record { remote = true; hash = host.digest r.id };
    id = r.id;
    username = r.username;
    recovery_key = r.recovery_key;
    userpass = local_hash (host.digest r.username);
    ctx_flags = r.ctx_flags;
  }

  abbrev pub act_on : Verdict → Report → World → Bool × World
  act_on (say status) r w = (false, auth_status host status (report_flags r) w)
  act_on (say_with status flag) r w =
      (false, auth_status host status (or_flag flag (report_flags r)) w)
  act_on (try_with flag) r w = local_auth host (request r false (or_flag flag (report_flags r))) w
  act_on try_recovering r w = local_auth host (request r true (report_flags r)) w
  act_on invalid r w = (false, w)

  -- The two files, unless recovery was started.
  abbrev pub remove_after : Report → Bool × World → World
  remove_after r (true, w) = w
  remove_after r (false, w) =
      remove_key r.recovery_key
        (if r.auto_started then w else remove_file (local_hash (host.digest r.username)) w)

  unfoldable pub auth_remote_status : Report → World → World
  unfolding verdict auth_status local_auth
  auth_remote_status r w = remove_after r (
      act_on (verdict r.status) r
        (if r.auto_started then w else remove_file (remote_hash (host.digest r.username)) w))
