-- ===== src/Secure/End.antt =====
-- secure.c, `auth_end` and `auth_remote_login`: a password has been typed, or comes by D-Bus.
use input.Auth.{
  AuthContext, flag_confirm_pw, flag_set_local_pw, flag_remote_user, flag_set_root_pw,
  flag_change_local_pw,
}
use input.Secure.Local.{Request, local_auth}
use input.Secure.Change.{change_root_password, change_or_create_local_password}
use input.Domains.{same_text}
use input.Auth.Status.{
  auth_internal_error, auth_need_password, auth_ok, auth_in_progress, auth_confirm_failed,
  auth_need_credentials, flag_remote_started,
}
use input.Secure.{
  local_hash, remote_hash, start_login, World, Host, note, auth_write_hash, ask_uivm,
  auth_window_shown, is_there, auth_status,
}
use input.Base.{
  if◌then◌else◌, has_bit, ℕ, ◌^◌, Bool, true, false, not, ◌&&◌, ◌||◌, Option, none, some, List, [],
  ◌∷◌,
}

-- `strcmp`
abbrev pub is_confirmed : List ℕ → Option (List ℕ) → Bool
is_confirmed password none = false
is_confirmed password (some again) = same_text password again

abbrev pub text_of : Option (List ℕ) → List ℕ
text_of none = []
text_of (some t) = t

module _ (host : Host) where
  abbrev pub internal_error : World → World
  internal_error w = auth_status host auth_internal_error 0 w

  abbrev pub root_changed : Bool × World → World
  root_changed (true, w) = auth_status host auth_ok 0 w
  root_changed (false, w) = internal_error w

  abbrev pub set_root : List ℕ → World → World
  set_root [] w = auth_status host auth_need_password 0 w
  set_root (c ∷ cs) w = root_changed (change_root_password host false w)

  abbrev pub local_request : List ℕ → ℕ → Request
  local_request user flags = record {
    remote_ok = false;
    remote_flags = 0;
    uname = record { remote = false; hash = host.digest user };
    id = user;
    username = user;
    recovery_key = none;
    userpass = local_hash (host.digest user);
    ctx_flags = flags;
  }

  abbrev pub remote_started : List ℕ → Bool × World → World
  remote_started user (false, w) = internal_error w
  remote_started user (true, w) =
      note (start_login user) (auth_status host auth_in_progress (2 ^ flag_remote_started) w)

  abbrev pub write_remote : List ℕ → World → World
  write_remote user w = remote_started user (auth_write_hash (remote_hash (host.digest user)) w)

  abbrev pub hash_written : List ℕ → ℕ → Bool × World → World
  hash_written user flags (false, w) = internal_error w
  hash_written user flags (true, w) =
      if has_bit flag_remote_user flags
      then write_remote user w
      else (local_auth host (local_request user flags) w).1

  -- After the user's name is known not to be empty.
  abbrev pub log_in : List ℕ → Option (List ℕ) → ℕ → World → World
  log_in user old flags w =
      if has_bit flag_set_local_pw flags || has_bit flag_change_local_pw flags
      then (change_or_create_local_password host user (is_there old) w).1
      else hash_written user flags (auth_write_hash (local_hash (host.digest user)) w)

  abbrev pub with_user : List ℕ → Option (List ℕ) → ℕ → World → World
  with_user [] old flags w = auth_status host auth_need_credentials 0 w
  with_user (c ∷ cs) old flags w = log_in (c ∷ cs) old flags w

  abbrev pub in_context :
      Option (List ℕ) → List ℕ → Option (List ℕ) → Option (List ℕ) → ℕ → World → World
  in_context user password confirm old flags w =
      if has_bit flag_confirm_pw flags && not (is_confirmed password confirm)
      then auth_status host auth_confirm_failed 0 w
      else if has_bit flag_set_root_pw flags
      then set_root password w
      else with_user (text_of user) old flags w

  abbrev pub end_in :
      Option AuthContext
      → Option (List ℕ)
      → List ℕ
      → Option (List ℕ)
      → Option (List ℕ)
      → World
      → World
  end_in none user password confirm old w = internal_error w
  end_in (some ctx) user password confirm old w = in_context user password confirm old ctx.flags w

  unfoldable pub auth_end :
      Option (List ℕ) → List ℕ → Option (List ℕ) → Option (List ℕ) → World → World
  unfolding auth_status change_root_password change_or_create_local_password auth_write_hash
      local_auth
  auth_end user password confirm old w =
      let w' = ask_uivm w in
      if auth_window_shown w'
      then end_in w'.context user password confirm old w'
      else internal_error w'

  abbrev pub both_hashes : List ℕ → Bool × World → World
  both_hashes user (false, w) = internal_error w
  both_hashes user (true, w) = write_remote user w

  abbrev pub remote_login_in : Option AuthContext → List ℕ → World → World
  remote_login_in none user w = internal_error w
  remote_login_in (some ctx) user w =
      if has_bit flag_remote_user ctx.flags
      then both_hashes user (auth_write_hash (local_hash (host.digest user)) w)
      else internal_error w

  unfoldable pub auth_remote_login : List ℕ → World → World
  unfolding auth_status auth_write_hash
  auth_remote_login user w = remote_login_in w.context user w
