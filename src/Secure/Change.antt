-- ===== src/Secure/Change.antt =====
-- secure.c, `change_or_create_local_password` and `change_root_password`.
use input.Secure.Local.{Sign, minus, nought, plus, sign, auth_update_cache}
use input.Auth.Status.{
  Status, auth_internal_error, auth_recovery_key_invalid, auth_ok, auth_in_progress,
  flag_local_started,
}
use input.Secure.{
  UserName, File, local_hash, local_hash_old, pass_new, pass_old, change_pass, change_recovery,
  check_user, change_root, root_password_set, Written, whole, unopened, cut, World, Host, note,
  run_script, is_ok, sec_check_pass_and_mount, user_create, remove_file, add_file, outcome_of,
  next_write, auth_write_hash, auth_status,
}
use input.Base.{if◌then◌else◌, ℕ, ◌^◌, Bool, true, false, not, ◌&&◌, Option, none, some, List, []}

-- The name of the file with the old hash is made after the new one was written.
abbrev pub remove_old : Bool → List ℕ → World → World
remove_old b h w = if b then remove_file (local_hash_old h) w else w

-- `string_maybe_to_file`: a file that was opened stays, and no string is no file.
abbrev pub string_as : Written → File → World → Bool × World
string_as whole f w = (true, add_file f w)
string_as unopened f w = (false, w)
string_as cut f w = (false, add_file f w)

abbrev pub string_maybe_to_file : Bool → File → World → Bool × World
string_maybe_to_file false f w = (true, w)
string_maybe_to_file true f w = string_as (outcome_of w.disk) f (next_write w)

abbrev pub root : UserName
root = record { remote = false; hash = [] }

-- `have_root_password`, and its refusal: no old password is given though there is one, or it is unknown.
abbrev pub may_change_root : Bool → Option Bool → Bool
may_change_root true have = true
may_change_root false none = false
may_change_root false (some have) = not have

abbrev pub change_root_by : Bool × World → Bool × World
change_root_by (false, w) = (false, w)
change_root_by (true, w) =
    let (z, w') = run_script change_root root w in
    if is_ok z then (true, note root_password_set w') else (false, w')

abbrev pub write_old : Bool → Bool × World → Bool × World
write_old old (false, w) = (false, w)
write_old old (true, w) = string_maybe_to_file old pass_old w

abbrev pub unlink_both : Bool × World → Bool × World
unlink_both (b, w) = (b, remove_file pass_old (remove_file pass_new w))

module _ (host : Host) where
  -- `old` is whether an old password is given.
  unfoldable pub change_root_password : Bool → World → Bool × World
  unfolding auth_status run_script
  change_root_password old w =
      let w' = auth_status host auth_in_progress (2 ^ flag_local_started) w in
      unlink_both (
        if may_change_root old w'.root_password
        then change_root_by (write_old old (string_maybe_to_file true pass_new w'))
        else (false, w'))

  abbrev pub goes_wrong : Status → World → Bool × World
  goes_wrong status w = (false, auth_status host status 0 w)

  abbrev pub at_last_mounted : UserName → List ℕ → Sign → World → Bool × World
  at_last_mounted u user nought w =
      (true, auth_status host auth_ok 0 (auth_update_cache u user 0 w))
  at_last_mounted u user _ w = goes_wrong auth_internal_error w

  abbrev pub then_mount : UserName → List ℕ → World → Bool × World
  then_mount u user w =
      let (z, w') = sec_check_pass_and_mount u w in at_last_mounted u user (sign z) w'

  abbrev pub made_or_kept : UserName → List ℕ → Sign → World → Bool × World
  made_or_kept u user nought w = then_mount u user w
  made_or_kept u user _ w = goes_wrong auth_internal_error w

  abbrev pub old_accepted : UserName → List ℕ → Sign → World → Bool × World
  old_accepted u user minus w = goes_wrong auth_internal_error w
  old_accepted u user plus w = goes_wrong auth_recovery_key_invalid w
  old_accepted u user nought w =
      let (z, w') = run_script change_recovery u w in made_or_kept u user (sign z) w'

  abbrev pub user_exists : UserName → List ℕ → Sign → World → Bool × World
  user_exists u user minus w = goes_wrong auth_internal_error w
  user_exists u user plus w = let (z, w') = user_create u user w in made_or_kept u user (sign z) w'
  user_exists u user nought w =
      let (z, w') = run_script change_pass u w in old_accepted u user (sign z) w'

  abbrev pub both_written : UserName → List ℕ → Bool × World → Bool × World
  both_written u user (false, w) = goes_wrong auth_internal_error w
  both_written u user (true, w) =
      let (z, w') = run_script check_user u w in user_exists u user (sign z) w'

  abbrev pub new_written : UserName → List ℕ → Bool → Bool × World → Bool × World
  new_written u user old (false, w) = goes_wrong auth_internal_error w
  new_written u user true (true, w) =
      both_written u user (auth_write_hash (local_hash_old (host.digest user)) w)
  new_written u user false (true, w) = both_written u user (true, w)

  abbrev pub clean_passwords : List ℕ → Bool → Bool × World → Bool × World
  clean_passwords h old (b, w) = (b, remove_old old h (remove_file (local_hash h) w))

  unfoldable pub change_or_create_local_password : List ℕ → Bool → World → Bool × World
  unfolding auth_status run_script sec_check_pass_and_mount user_create auth_write_hash
      auth_update_cache
  change_or_create_local_password user old w =
      let h = host.digest user in
      let u : UserName = record { remote = false; hash = h } in
      let written =
        auth_write_hash (local_hash h)
          (auth_status host auth_in_progress (2 ^ flag_local_started) w) in
      clean_passwords h (old && written.0) (new_written u user old written)
