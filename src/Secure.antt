-- ===== src/Secure.antt =====
-- secure.c: the sessions of the authentication window. The statics of secure.c and what it changes in
-- `input_dev` are the record `World`, with the files on the ramdisk and a log of what was sent and run,
-- the newest first. What the scripts of secure_scripts.c return is a list of replies, what becomes of a
-- write to a file another one. `null_read` is set where the source reads through the null pointer that it
-- has for the UIVM while that is not running. `digest` stands for SHA-1, `user_get_name` for the database.
pub mod Local
pub mod Remote
pub mod Change
pub mod End
pub mod Keys
pub mod Proven
pub mod Mounted
pub mod Cleaned
pub mod Tried
pub mod Opened
pub mod Ended
pub mod Reported
pub mod Locked
pub mod Sessions
pub mod Escape
pub mod Blind
use input.Auth.Status.{Status, is_error, hides_window, flag_error, or_flag}
use input.Domains.{same_text}
use input.Auth.{AuthInput, AuthContext, input_clear_passwd}
use input.Base.{
  ◌==◌, if◌then◌else◌, ℤ, pos, negsuc, ℕ, zero, Bool, true, false, not, ◌&&◌, ◌||◌, Option, none,
  some, List, [], ◌∷◌,
}

-- A user of the scripts: LOCAL_USER_PREFIX or REMOTE_USER_PREFIX, and the digest of the name.
pub record UserName : Type 0 where
  pub remote : Bool
  pub hash : List ℕ

-- A file: the two kinds with the digest of a user in their name, the two passwords of root, and the paths
-- that others choose.
pub data File : Type 0 where
  local_hash : List ℕ → File
  local_hash_old : List ℕ → File
  remote_hash : List ℕ → File
  pass_new : File
  pass_old : File
  other_path : List ℕ → File

abbrev pub same_file : File → File → Bool
same_file (local_hash h) (local_hash h') = same_text h h'
same_file (local_hash_old h) (local_hash_old h') = same_text h h'
same_file (remote_hash h) (remote_hash h') = same_text h h'
same_file pass_new pass_new = true
same_file pass_old pass_old = true
same_file (other_path p) (other_path p') = same_text p p'
same_file _ _ = false

pub data Script : Type 0 where
  check_pass mount new_user change_pass change_recovery check_user change_root : Script

-- What is done for others to see.
pub data Act : Type 0 where
  ran : Script → UserName → ℤ → Act
  said : Status → ℕ → Act
  start_recovery : List ℕ → List ℕ → Act
  start_login : List ℕ → Act
  user_assoc : List ℕ → List ℕ → Act
  platform_user : List ℕ → ℕ → Act
  secure_mode_is : Bool → Act
  root_password_set : Act

-- What becomes of a write: it succeeds, the file is not opened, or it is opened and not all is written.
pub data Written : Type 0 where
  whole unopened cut : Written

-- `status` is `none` for "none"; `root_password` is whether the password file has a password of root, or
-- `none` if that cannot be told; `login_state` is the number at login/state in xenstore, if there is one;
-- `replies` and `disk` are what comes next.
pub record World : Type 0 where
  pub context : Option AuthContext
  pub status : Option Status
  pub flags : ℕ
  pub login_state : Option ℕ
  pub root_password : Option Bool
  pub uivm : Bool
  pub null_read : Bool
  pub secure_mode : Bool
  pub fields : AuthInput
  pub files : File → Bool
  pub replies : List ℤ
  pub disk : List Written
  pub log : List Act

pub record Host : Type 0 where
  pub digest : List ℕ → List ℕ
  pub user_get_name : List ℕ → List ℕ

abbrev pub note : Act → World → World
note a w = record w { log = a ∷ w.log }

-- A script is run; once the replies have run out, the fork fails.
abbrev pub reply_of : List ℤ → ℤ
reply_of [] = negsuc 0
reply_of (z ∷ zs) = z

abbrev pub rest_of {ℓ} : {A : Type ℓ} → List A → List A
rest_of [] = []
rest_of (x ∷ xs) = xs

unfoldable pub run_script : Script → UserName → World → ℤ × World
run_script s u w =
    let z = reply_of w.replies in
    (z, record w { replies = rest_of w.replies; log = ran s u z ∷ w.log })

abbrev pub is_ok : ℤ → Bool
is_ok (pos zero) = true
is_ok _ = false

unfoldable pub sec_check_pass_and_mount : UserName → World → ℤ × World
unfolding run_script
sec_check_pass_and_mount u w =
    let (checked, w') = run_script check_pass u w in
    if is_ok checked then run_script mount u w' else (checked, w')

unfoldable pub user_create : UserName → List ℕ → World → ℤ × World
unfolding run_script
user_create u name w =
    let (made, w') = run_script new_user u w in
    if is_ok made then (pos 0, note (user_assoc u.hash name) w') else (made, w')

abbrev pub remove_file : File → World → World
remove_file f w = record w { files = λ g. if same_file g f then false else w.files g }

abbrev pub add_file : File → World → World
add_file f w = record w { files = λ g. if same_file g f then true else w.files g }

abbrev pub outcome_of : List Written → Written
outcome_of [] = whole
outcome_of (x ∷ xs) = x

abbrev pub next_write : World → World
next_write w = record w { disk = rest_of w.disk }

-- `auth_write_local_hash` and `auth_write_remote_hash`.
abbrev pub written_as : Written → File → World → Bool × World
written_as whole f w = (true, add_file f w)
written_as unopened f w = (false, w)
written_as cut f w = (false, remove_file f w)

unfoldable pub auth_write_hash : File → World → Bool × World
auth_write_hash f w = written_as (outcome_of w.disk) f (next_write w)

unfoldable pub auth_set_context : AuthContext → World → World
auth_set_context ctx w = record w { context = some ctx; status = none; flags = 0 }

-- The number at login/state is not 3.
abbrev pub shown_by : Option ℕ → Bool
shown_by none = false
shown_by (some n) = not (n == 3)

-- The number of the UIVM is read, through a null pointer if it is not running.
abbrev pub ask_uivm : World → World
ask_uivm w = record w { null_read = w.null_read || not w.uivm }

abbrev pub auth_window_shown : World → Bool
auth_window_shown w = shown_by w.login_state

abbrev pub is_there {ℓ} : {A : Type ℓ} → Option A → Bool
is_there none = false
is_there (some x) = true

unfoldable pub auth_begin : World → Bool × World
auth_begin w =
    if is_there w.context && w.uivm && not (auth_window_shown w)
    then (true, record w { login_state = some 1 })
    else (false, w)

module _ (host : Host) where
  abbrev pub clear_fields : World → World
  clear_fields w = record w { fields = input_clear_passwd host.user_get_name w.context w.fields }

  -- The timer that goes back to the window is left out.
  abbrev pub entering : Bool → World → Bool × World
  entering true w = auth_begin (record w { fields = record w.fields { collect_password = false } })
  entering false w = (true, w)

  abbrev pub change_mode : Bool → World → World
  change_mode onoff w =
      note (secure_mode_is onoff) (clear_fields (record w { secure_mode = onoff }))

  unfoldable pub input_secure : Bool → World → Bool × World
  unfolding auth_begin input_clear_passwd
  input_secure true w = if w.secure_mode then (false, w) else entering true (change_mode true w)
  input_secure false w = if w.secure_mode then entering false (change_mode false w) else (false, w)

  abbrev pub hide : World → World
  hide w = (input_secure false (ask_uivm (record w { context = none; login_state = some 0 }))).1

  unfoldable pub auth_status : Status → ℕ → World → World
  unfolding input_secure
  auth_status status flags w =
      let flags' = if is_error status then or_flag flag_error flags else flags in
      let w' = if hides_window status then hide w else w in
      note (said status flags') (record w' { status = some status; flags = flags' })
