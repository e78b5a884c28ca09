-- ===== src/Secure/Tried.antt =====
-- A local login succeeds only on proof, and does nothing to the window otherwise.
use input.Auth.{flag_remote_user}
use input.Base.{
  if◌then◌else◌, has_bit, ℕ, ◌^◌, ◌≡◌, refl, Bool, true, false, not, ◌&&◌, Option, none, some, List,
  [], ◌∷◌,
}
use input.Auth.Status.{
  Status, auth_internal_error, auth_not_exist, auth_no_userid, auth_ok, auth_in_progress,
  auth_need_credentials, hides_window, flag_local_password_mismatch, flag_auto_started,
  flag_local_started, flag_local_credentials_missing, or_flag,
}
use input.Secure.{
  UserName, File, change_pass, check_user, start_recovery, user_assoc, platform_user, World, Host,
  note, run_script, sec_check_pass_and_mount, user_create, remove_file, is_there, auth_status,
}
use input.Secure.Local.{
  Request, Outcome, fails, succeeds, recovers, Sign, minus, nought, plus, sign, remounted,
  pass_changed, without_key, pass_refused, first_mounted, new_mounted, user_made, no_user,
  user_checked, id_checked, try_local, remove_key, got_recovery_key, clean_up, cached_flags,
  auth_update_cache, end_with, local_auth,
}
use input.Secure.Proven.{
  same, ProvenBy, Proven-Longer, Kept, Kept-self, Kept-trans, LawfulBy, kept, closed, Kept-Lawful,
  Lawful-Kept,
}
use input.Secure.Mounted.{
  TellsBy, TellsBy-Kept, Kept-note, run-Kept, sec_check_pass_and_mount-Tells, user_create-Kept,
  status-Kept, hides-Closed,
}

-- What a try may end in.
abbrev Fine : Request → World → Outcome × World → Type 0
Fine r w (fails status flags, v) = (hides_window status ≡ false) × Kept w v
Fine r w (succeeds flags, v) = Kept w v × ProvenBy false r.uname w.log v.log
Fine r w (recovers, v) = Kept w v

Fine-if :
    (b : Bool) (r : Request) (w : World) (p q : Outcome × World)
    → Fine r w p
    → Fine r w q
    → Fine r w (if b then p else q)
Fine-if true r w p q f g = f
Fine-if false r w p q f g = g

remounted-Fine :
    (s : Sign) (r : Request) (w v : World) → TellsBy s r.uname w v → Fine r w (remounted r s v)
remounted-Fine minus r w v t = (refl, t)
remounted-Fine nought r w v t = t
remounted-Fine plus r w v t = (refl, t)

new_mounted-Fine :
    (s : Sign) (r : Request) (w v : World) → TellsBy s r.uname w v → Fine r w (new_mounted r s v)
new_mounted-Fine minus r w v t = (refl, t)
new_mounted-Fine nought r w v t = t
new_mounted-Fine plus r w v t = (refl, t)

-- The check and the mount, after other steps.
pub TellsBy-after :
    (u : UserName) (w v : World)
    → Kept w v
    → (let p = sec_check_pass_and_mount u v in TellsBy (sign p.0) u w p.1)
TellsBy-after u w v k =
    let p = sec_check_pass_and_mount u v in
    TellsBy-Kept (sign p.0) u w v p.1 k (sec_check_pass_and_mount-Tells u v)

pass_changed-Fine :
    (s : Sign) (r : Request) (w v : World) → Kept w v → Fine r w (pass_changed r s v)
pass_changed-Fine minus r w v k = (refl, k)
pass_changed-Fine plus r w v k = (refl, k)
pass_changed-Fine nought r w v k =
    let p = sec_check_pass_and_mount r.uname v in
    remounted-Fine (sign p.0) r w p.1 (TellsBy-after r.uname w v k)

starts_or_fails :
    (b : Bool) (r : Request) (status : Status) (flags : ℕ) (w v : World)
    → hides_window status ≡ false
    → Kept w v
    → Fine r w ((if b then recovers else fails status flags), v)
starts_or_fails true r status flags w v h k = k
starts_or_fails false r status flags w v h k = (h, k)

without_key-Fine :
    (r : Request) (status : Status) (flags : ℕ) (w v : World)
    → hides_window status ≡ false
    → Kept w v
    → Fine r w (without_key r status flags v)
without_key-Fine r status flags w v h k = starts_or_fails r.remote_ok r status flags w v h k

pass_refused-Fine : (r : Request) (w v : World) → Kept w v → Fine r w (pass_refused r v)
pass_refused-Fine r w v k =
    let p = run_script change_pass r.uname v in
    Fine-if (is_there r.recovery_key) r w (pass_changed r (sign p.0) p.1)
      (without_key r auth_need_credentials (or_flag flag_local_password_mismatch r.remote_flags) v)
      (pass_changed-Fine (sign p.0) r w p.1 (Kept-trans w v p.1 k (run-Kept change_pass r.uname v)))
      (without_key-Fine r auth_need_credentials
        (or_flag flag_local_password_mismatch r.remote_flags) w v refl k)

first_mounted-Fine :
    (s : Sign) (r : Request) (w v : World) → TellsBy s r.uname w v → Fine r w (first_mounted r s v)
first_mounted-Fine minus r w v t = (refl, t)
first_mounted-Fine nought r w v t = t
first_mounted-Fine plus r w v t = pass_refused-Fine r w v t

user_made-Fine : (s : Sign) (r : Request) (w v : World) → Kept w v → Fine r w (user_made r s v)
user_made-Fine minus r w v k = (refl, k)
user_made-Fine plus r w v k = (refl, k)
user_made-Fine nought r w v k =
    let p = sec_check_pass_and_mount r.uname v in
    new_mounted-Fine (sign p.0) r w p.1 (TellsBy-after r.uname w v k)

no_user-Fine : (r : Request) (w v : World) → Kept w v → Fine r w (no_user r v)
no_user-Fine r w v k =
    let p = user_create r.uname r.username v in
    Fine-if (has_bit flag_remote_user r.ctx_flags && not (is_there r.recovery_key)) r w
      (without_key r auth_not_exist r.remote_flags v) (user_made r (sign p.0) p.1)
      (without_key-Fine r auth_not_exist r.remote_flags w v refl k)
      (user_made-Fine (sign p.0) r w p.1
        (Kept-trans w v p.1 k (user_create-Kept r.uname r.username v)))

user_checked-Fine :
    (s : Sign) (r : Request) (w v : World) → Kept w v → Fine r w (user_checked r s v)
user_checked-Fine minus r w v k = (refl, k)
user_checked-Fine plus r w v k = no_user-Fine r w v k
user_checked-Fine nought r w v k =
    let p = sec_check_pass_and_mount r.uname v in
    first_mounted-Fine (sign p.0) r w p.1 (TellsBy-after r.uname w v k)

no_id_shows : (b : Bool) → hides_window (if b then auth_internal_error else auth_no_userid) ≡ false
no_id_shows true = refl
no_id_shows false = refl

id_checked-Fine : (r : Request) (id : List ℕ) (w : World) → Fine r w (id_checked r id w)
id_checked-Fine r [] w = (no_id_shows r.remote_ok, Kept-self w)
id_checked-Fine r (x ∷ xs) w =
    let p = run_script check_user r.uname w in
    user_checked-Fine (sign p.0) r w p.1 (run-Kept check_user r.uname w)

pub try_local-Fine : (r : Request) (w : World) → Fine r w (try_local r w)
unfolding try_local
try_local-Fine r w =
    Fine-if (w.files r.userpass) r w (id_checked r r.id w)
      (fails auth_need_credentials (or_flag flag_local_credentials_missing r.remote_flags), w)
      (id_checked-Fine r r.id w) (refl, Kept-self w)

-- The steps that end a try keep what they find.
pub remove_key-Kept : (o : Option File) (w : World) → Kept w (remove_key o w)
remove_key-Kept none w = Kept-self w
remove_key-Kept (some f) w = record { context = refl; secure_mode = refl; log = same }

pub Kept-if : (b : Bool) (w v v' : World) → Kept w v → Kept w v' → Kept w (if b then v else v')
Kept-if true w v v' k l = k
Kept-if false w v v' k l = l

pub remove_file-Kept : (f : File) (w : World) → Kept w (remove_file f w)
remove_file-Kept f w = record { context = refl; secure_mode = refl; log = same }

clean_up-Kept : (r : Request) (got : Option File) (w : World) → Kept w (clean_up r got w)
clean_up-Kept r got w =
    let v = if has_bit flag_auto_started r.remote_flags then w else remove_file r.userpass w in
    Kept-trans w v (remove_key got v)
      (Kept-if (has_bit flag_auto_started r.remote_flags) w w (remove_file r.userpass w)
        (Kept-self w) (remove_file-Kept r.userpass w))
      (remove_key-Kept got v)

pub cache-Kept :
    (u : UserName) (name : List ℕ) (flags : ℕ) (w : World)
    → Kept w (auth_update_cache u name flags w)
unfolding auth_update_cache
cache-Kept u name flags w =
    let v = note (platform_user name (cached_flags flags)) w in
    Kept-trans w v (note (user_assoc u.hash name) v)
      (Kept-note (platform_user name (cached_flags flags)) w) (Kept-note (user_assoc u.hash name) v)

-- The proof is in the log when the window is told that all went well.
pub ok-Lawful :
    {root : Bool}
    → (host : Host) (u : UserName) (status : Status) (flags : ℕ) (w v : World)
    → hides_window status ≡ true
    → ProvenBy root u w.log v.log
    → LawfulBy root u w (auth_status host status flags v)
ok-Lawful host u status flags w v h p =
    let c = hides-Closed host status flags v h in
    closed c.context c.secure_mode
      (Proven-Longer u w.log v.log (auth_status host status flags v).log p c.log)

end_with-Lawful :
    (host : Host) (r : Request) (got : Option File) (w : World) (o : Outcome) (v : World)
    → Fine r w (o, v)
    → LawfulBy false r.uname w (end_with host r got (o, v)).1
end_with-Lawful host r got w (fails status flags) v (h, k) =
    let v' = auth_status host status flags v in
    kept (
      Kept-trans w v (clean_up r got v') k (
        Kept-trans v v' (clean_up r got v') (status-Kept host status flags v h)
          (clean_up-Kept r got v')))
end_with-Lawful host r got w (succeeds flags) v (k, p) =
    let c = auth_update_cache r.uname r.username r.ctx_flags v in
    let v' = auth_status host auth_ok flags c in
    Lawful-Kept r.uname w v' (clean_up r got v')
      (ok-Lawful host r.uname auth_ok flags w c refl (
        Proven-Longer r.uname w.log v.log c.log p
          (cache-Kept r.uname r.username r.ctx_flags v).log))
      (clean_up-Kept r got v')
end_with-Lawful host r got w recovers v k = kept (
    Kept-trans w v (note (start_recovery r.id r.username) v) k
      (Kept-note (start_recovery r.id r.username) v))

pub local_auth-Lawful :
    (host : Host) (r : Request) (w : World) → LawfulBy false r.uname w (local_auth host r w).1
unfolding local_auth
local_auth-Lawful host r w =
    let v = auth_status host auth_in_progress (2 ^ flag_local_started) w in
    let p = try_local r v in
    let got = got_recovery_key r v in
    Kept-Lawful r.uname w v (end_with host r got p).1
      (status-Kept host auth_in_progress (2 ^ flag_local_started) w refl)
      (end_with-Lawful host r got v p.0 p.1 (try_local-Fine r v))
