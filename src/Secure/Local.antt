-- ===== src/Secure/Local.antt =====
-- secure.c, `local_auth`: a password is tried on the user's partition, which is made or recovered where
-- that is possible.
use input.Auth.{flag_remote_user}
use input.Auth.Status.{
  Status, auth_internal_error, auth_not_exist, auth_recovery_key_invalid, auth_no_userid, auth_ok,
  auth_in_progress, auth_need_credentials, flag_local_password_mismatch, flag_recovered,
  flag_auto_started, flag_local_started, flag_local_credentials_missing, or_flag,
}
use input.Secure.{
  UserName, File, change_pass, check_user, start_recovery, user_assoc, platform_user, World, Host,
  note, run_script, sec_check_pass_and_mount, user_create, remove_file, is_there, auth_status,
}
use input.Base.{
  if◌then◌else◌, has_bit, ℤ, pos, negsuc, ℕ, zero, suc, ◌^◌, Bool, true, false, not, ◌&&◌, Option,
  none, some, List, [], ◌∷◌,
}

-- The arguments, with the user's name for the scripts.
pub record Request : Type 0 where
  pub remote_ok : Bool
  pub remote_flags : ℕ
  pub uname : UserName
  pub id : List ℕ
  pub username : List ℕ
  pub recovery_key : Option File
  pub userpass : File
  pub ctx_flags : ℕ

-- How it ends, before the clean-up.
pub data Outcome : Type 0 where
  fails : Status → ℕ → Outcome
  succeeds : ℕ → Outcome
  recovers : Outcome

-- The sign of a script's status.
pub data Sign : Type 0 where
  minus nought plus : Sign

abbrev pub sign : ℤ → Sign
sign (negsuc n) = minus
sign (pos zero) = nought
sign (pos (suc n)) = plus

abbrev pub breaks : Request → World → Outcome × World
breaks r w = (fails auth_internal_error r.remote_flags, w)

abbrev pub remounted : Request → Sign → World → Outcome × World
remounted r nought w = (succeeds (or_flag flag_recovered r.remote_flags), w)
remounted r _ w = breaks r w

abbrev pub pass_changed : Request → Sign → World → Outcome × World
pass_changed r minus w = breaks r w
pass_changed r plus w = (fails auth_recovery_key_invalid r.remote_flags, w)
pass_changed r nought w =
    let (z, w') = sec_check_pass_and_mount r.uname w in remounted r (sign z) w'

-- Without a recovery key: recovery starts if the remote login went well.
abbrev pub without_key : Request → Status → ℕ → World → Outcome × World
without_key r status flags w = (if r.remote_ok then recovers else fails status flags, w)

abbrev pub pass_refused : Request → World → Outcome × World
pass_refused r w =
    if is_there r.recovery_key
    then (let (z, w') = run_script change_pass r.uname w in pass_changed r (sign z) w')
    else without_key r auth_need_credentials (or_flag flag_local_password_mismatch r.remote_flags) w

abbrev pub first_mounted : Request → Sign → World → Outcome × World
first_mounted r minus w = breaks r w
first_mounted r plus w = pass_refused r w
first_mounted r nought w = (succeeds r.remote_flags, w)

abbrev pub new_mounted : Request → Sign → World → Outcome × World
new_mounted r nought w = (succeeds r.remote_flags, w)
new_mounted r _ w = breaks r w

abbrev pub user_made : Request → Sign → World → Outcome × World
user_made r nought w = let (z, w') = sec_check_pass_and_mount r.uname w in new_mounted r (sign z) w'
user_made r _ w = breaks r w

abbrev pub no_user : Request → World → Outcome × World
no_user r w =
    if has_bit flag_remote_user r.ctx_flags && not (is_there r.recovery_key)
    then without_key r auth_not_exist r.remote_flags w
    else (let (z, w') = user_create r.uname r.username w in user_made r (sign z) w')

abbrev pub user_checked : Request → Sign → World → Outcome × World
user_checked r minus w = breaks r w
user_checked r plus w = no_user r w
user_checked r nought w =
    let (z, w') = sec_check_pass_and_mount r.uname w in first_mounted r (sign z) w'

abbrev pub id_checked : Request → List ℕ → World → Outcome × World
id_checked r [] w =
    (fails (if r.remote_ok then auth_internal_error else auth_no_userid) r.remote_flags, w)
id_checked r (x ∷ xs) w =
    let (z, w') = run_script check_user r.uname w in user_checked r (sign z) w'

unfoldable pub try_local : Request → World → Outcome × World
unfolding run_script sec_check_pass_and_mount user_create
try_local r w =
    if w.files r.userpass
    then id_checked r r.id w
    else (fails auth_need_credentials (or_flag flag_local_credentials_missing r.remote_flags), w)

-- `remove` of the recovery key, if there is one.
abbrev pub remove_key : Option File → World → World
remove_key none w = w
remove_key (some f) w = remove_file f w

-- `got_recovery_key_file`, which is set after the tests of the hash file and of the id.
abbrev pub key_with_id : Request → List ℕ → Option File
key_with_id r [] = none
key_with_id r (x ∷ xs) = r.recovery_key

abbrev pub got_recovery_key : Request → World → Option File
got_recovery_key r w = if w.files r.userpass then key_with_id r r.id else none

abbrev pub clean_up : Request → Option File → World → World
clean_up r got w =
    remove_key got
      (if has_bit flag_auto_started r.remote_flags then w else remove_file r.userpass w)

-- A remote user's flags keep only AUTH_FLAG_REMOTE_USER.
abbrev pub cached_flags : ℕ → ℕ
cached_flags flags = if has_bit flag_remote_user flags then 2 ^ flag_remote_user else flags

unfoldable pub auth_update_cache : UserName → List ℕ → ℕ → World → World
auth_update_cache u username flags w =
    note (user_assoc u.hash username) (note (platform_user username (cached_flags flags)) w)

module _ (host : Host) where
  abbrev pub end_with : Request → Option File → Outcome × World → Bool × World
  end_with r got (fails status flags, w) = (false, clean_up r got (auth_status host status flags w))
  end_with r got (succeeds flags, w) = (
    false,
    clean_up r got
        (auth_status host auth_ok flags (auth_update_cache r.uname r.username r.ctx_flags w)),
  )
  end_with r got (recovers, w) = (true, note (start_recovery r.id r.username) w)

  -- Whether recovery was started.
  unfoldable pub local_auth : Request → World → Bool × World
  unfolding try_local auth_status auth_update_cache
  local_auth r w =
      let w' = auth_status host auth_in_progress (2 ^ flag_local_started) w in
      end_with r (got_recovery_key r w') (try_local r w')
