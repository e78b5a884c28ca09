-- ===== src/Secure/Opened.antt =====
-- The window goes away only on proof: the changes of a password, what is typed and what the daemon says.
use input.Secure.Tried.{TellsBy-after, Kept-if, remove_file-Kept, cache-Kept, ok-Lawful}
use input.Secure.Mounted.{TellsBy, run-Kept, user_create-Kept, status-Kept}
use input.Secure.Change.{
  remove_old, string_as, string_maybe_to_file, goes_wrong, at_last_mounted, then_mount,
  made_or_kept, old_accepted, user_exists, both_written, new_written,
  change_or_create_local_password,
}
use input.Secure.Local.{Sign, minus, nought, plus, sign, auth_update_cache}
use input.Secure.Proven.{
  same, Proven-Longer, Kept, Kept-self, Kept-trans, LawfulBy, kept, Kept-Lawful, Lawful-Kept,
}
use input.Base.{ℕ, ◌^◌, ◌≡◌, refl, Bool, true, false, ◌&&◌, List}
use input.Auth.Status.{
  Status, auth_internal_error, auth_recovery_key_invalid, auth_ok, auth_in_progress, hides_window,
  flag_local_started,
}
use input.Secure.{
  UserName, File, local_hash, local_hash_old, change_pass, change_recovery, check_user, Written,
  whole, unopened, cut, World, Host, run_script, sec_check_pass_and_mount, user_create, remove_file,
  outcome_of, next_write, written_as, auth_write_hash, auth_status,
}

written-Kept : (x : Written) (f : File) (w : World) → Kept w (written_as x f w).1
written-Kept whole f w = record { context = refl; secure_mode = refl; log = same }
written-Kept unopened f w = Kept-self w
written-Kept cut f w = remove_file-Kept f w

next_write-Kept : (w : World) → Kept w (next_write w)
next_write-Kept w = record { context = refl; secure_mode = refl; log = same }

pub write_hash-Kept : (f : File) (w : World) → Kept w (auth_write_hash f w).1
unfolding auth_write_hash
write_hash-Kept f w =
    let v = next_write w in
    Kept-trans w v (written_as (outcome_of w.disk) f v).1 (next_write-Kept w)
      (written-Kept (outcome_of w.disk) f v)

string_as-Kept : (x : Written) (f : File) (w : World) → Kept w (string_as x f w).1
string_as-Kept whole f w = record { context = refl; secure_mode = refl; log = same }
string_as-Kept unopened f w = Kept-self w
string_as-Kept cut f w = record { context = refl; secure_mode = refl; log = same }

pub string-Kept : (b : Bool) (f : File) (w : World) → Kept w (string_maybe_to_file b f w).1
string-Kept false f w = Kept-self w
string-Kept true f w =
    let v = next_write w in
    Kept-trans w v (string_as (outcome_of w.disk) f v).1 (next_write-Kept w)
      (string_as-Kept (outcome_of w.disk) f v)

goes_wrong-Lawful :
    (host : Host) (u : UserName) (status : Status) (w v : World)
    → hides_window status ≡ false
    → Kept w v
    → LawfulBy false u w (goes_wrong host status v).1
goes_wrong-Lawful host u status w v h k =
    kept (Kept-trans w v (auth_status host status 0 v) k (status-Kept host status 0 v h))

at_last_mounted-Lawful :
    (host : Host) (u : UserName) (user : List ℕ) (s : Sign) (w v : World)
    → TellsBy s u w v
    → LawfulBy false u w (at_last_mounted host u user s v).1
at_last_mounted-Lawful host u user minus w v t =
    goes_wrong-Lawful host u auth_internal_error w v refl t
at_last_mounted-Lawful host u user plus w v t =
    goes_wrong-Lawful host u auth_internal_error w v refl t
at_last_mounted-Lawful host u user nought w v (k, p) =
    let c = auth_update_cache u user 0 v in
    ok-Lawful host u auth_ok 0 w c refl
      (Proven-Longer u w.log v.log c.log p (cache-Kept u user 0 v).log)

then_mount-Lawful :
    (host : Host) (u : UserName) (user : List ℕ) (w v : World)
    → Kept w v
    → LawfulBy false u w (then_mount host u user v).1
then_mount-Lawful host u user w v k =
    let p = sec_check_pass_and_mount u v in
    at_last_mounted-Lawful host u user (sign p.0) w p.1 (TellsBy-after u w v k)

made_or_kept-Lawful :
    (host : Host) (u : UserName) (user : List ℕ) (s : Sign) (w v : World)
    → Kept w v
    → LawfulBy false u w (made_or_kept host u user s v).1
made_or_kept-Lawful host u user minus w v k =
    goes_wrong-Lawful host u auth_internal_error w v refl k
made_or_kept-Lawful host u user plus w v k = goes_wrong-Lawful host u auth_internal_error w v refl k
made_or_kept-Lawful host u user nought w v k = then_mount-Lawful host u user w v k

old_accepted-Lawful :
    (host : Host) (u : UserName) (user : List ℕ) (s : Sign) (w v : World)
    → Kept w v
    → LawfulBy false u w (old_accepted host u user s v).1
old_accepted-Lawful host u user minus w v k =
    goes_wrong-Lawful host u auth_internal_error w v refl k
old_accepted-Lawful host u user plus w v k =
    goes_wrong-Lawful host u auth_recovery_key_invalid w v refl k
old_accepted-Lawful host u user nought w v k =
    let p = run_script change_recovery u v in
    made_or_kept-Lawful host u user (sign p.0) w p.1
      (Kept-trans w v p.1 k (run-Kept change_recovery u v))

user_exists-Lawful :
    (host : Host) (u : UserName) (user : List ℕ) (s : Sign) (w v : World)
    → Kept w v
    → LawfulBy false u w (user_exists host u user s v).1
user_exists-Lawful host u user minus w v k = goes_wrong-Lawful host u auth_internal_error w v refl k
user_exists-Lawful host u user plus w v k =
    let p = user_create u user v in
    made_or_kept-Lawful host u user (sign p.0) w p.1
      (Kept-trans w v p.1 k (user_create-Kept u user v))
user_exists-Lawful host u user nought w v k =
    let p = run_script change_pass u v in
    old_accepted-Lawful host u user (sign p.0) w p.1
      (Kept-trans w v p.1 k (run-Kept change_pass u v))

both_written-Lawful :
    (host : Host) (u : UserName) (user : List ℕ) (b : Bool) (w v : World)
    → Kept w v
    → LawfulBy false u w (both_written host u user (b, v)).1
both_written-Lawful host u user false w v k =
    goes_wrong-Lawful host u auth_internal_error w v refl k
both_written-Lawful host u user true w v k =
    let p = run_script check_user u v in
    user_exists-Lawful host u user (sign p.0) w p.1 (Kept-trans w v p.1 k (run-Kept check_user u v))

new_written-Lawful :
    (host : Host) (u : UserName) (user : List ℕ) (old b : Bool) (w v : World)
    → Kept w v
    → LawfulBy false u w (new_written host u user old (b, v)).1
new_written-Lawful host u user true false w v k =
    goes_wrong-Lawful host u auth_internal_error w v refl k
new_written-Lawful host u user false false w v k =
    goes_wrong-Lawful host u auth_internal_error w v refl k
new_written-Lawful host u user false true w v k = both_written-Lawful host u user true w v k
new_written-Lawful host u user true true w v k =
    let p = auth_write_hash (local_hash_old (host.digest user)) v in
    both_written-Lawful host u user p.0 w p.1
      (Kept-trans w v p.1 k (write_hash-Kept (local_hash_old (host.digest user)) v))

remove_old-Kept : (b : Bool) (h : List ℕ) (w : World) → Kept w (remove_old b h w)
remove_old-Kept b h w =
    Kept-if b w (remove_file (local_hash_old h) w) w (remove_file-Kept (local_hash_old h) w)
      (Kept-self w)

abbrev pub local_user : Host → List ℕ → UserName
local_user host user = record { remote = false; hash = host.digest user }

pub change_or_create-Lawful :
    (host : Host) (user : List ℕ) (old : Bool) (w : World)
    → LawfulBy false (local_user host user) w (change_or_create_local_password host user old w).1
unfolding change_or_create_local_password
change_or_create-Lawful host user old w =
    let h = host.digest user in
    let u = local_user host user in
    let v = auth_status host auth_in_progress (2 ^ flag_local_started) w in
    let p = auth_write_hash (local_hash h) v in
    let v' = (new_written host u user old p).1 in
    let v'' = remove_file (local_hash h) v' in
    Lawful-Kept u w v' (remove_old (old && p.0) h v'')
      (Kept-Lawful u w v v' (status-Kept host auth_in_progress (2 ^ flag_local_started) w refl)
        (new_written-Lawful host u user old p.0 v p.1 (write_hash-Kept (local_hash h) v)))
      (Kept-trans v' v'' (remove_old (old && p.0) h v'') (remove_file-Kept (local_hash h) v')
        (remove_old-Kept (old && p.0) h v''))
