-- ===== src/Secure/Ended.antt =====
-- The window goes away only on proof: what is typed, and what the daemon says.
use input.Secure.Local.{local_auth}
use input.Secure.Tried.{ok-Lawful, local_auth-Lawful}
use input.Secure.Opened.{write_hash-Kept, string-Kept, local_user, change_or_create-Lawful}
use input.Secure.Mounted.{Kept-note, run-Kept, status-Kept}
use input.Secure.End.{
  is_confirmed, text_of, internal_error, root_changed, set_root, local_request, remote_started,
  write_remote, hash_written, log_in, with_user, in_context, end_in, auth_end,
}
use input.Auth.{
  AuthContext, flag_confirm_pw, flag_set_local_pw, flag_remote_user, flag_set_root_pw,
  flag_change_local_pw,
}
use input.Secure.Change.{
  string_maybe_to_file, root, may_change_root, change_root_by, write_old, unlink_both,
  change_root_password, change_or_create_local_password,
}
use input.Secure.Proven.{
  same, root_set, Proven, Kept, Kept-self, Kept-trans, LawfulBy, kept, Kept-Lawful, Lawful,
  LawfulBy-any,
}
use input.Base.{
  if◌then◌else◌, has_bit, ℕ, ◌^◌, refl, Bool, true, false, not, ◌&&◌, ◌||◌, Option, none, some,
  List, [], ◌∷◌,
}
use input.Auth.Status.{
  auth_internal_error, auth_need_password, auth_ok, auth_in_progress, auth_confirm_failed,
  auth_need_credentials, flag_local_started, flag_remote_started,
}
use input.Secure.{
  UserName, local_hash, remote_hash, pass_new, pass_old, change_root, start_login,
  root_password_set, World, Host, note, run_script, is_ok, auth_write_hash, ask_uivm,
  auth_window_shown, is_there, auth_status,
}

-- What a change of the password of root may end in.
abbrev RootSet : UserName → World → Bool × World → Type 0
RootSet u w (false, v) = Kept w v
RootSet u w (true, v) = Proven u w.log v.log

RootSet-if :
    (b : Bool) (u : UserName) (w : World) (p q : Bool × World)
    → RootSet u w p
    → RootSet u w q
    → RootSet u w (if b then p else q)
RootSet-if true u w p q k l = k
RootSet-if false u w p q k l = l

change_by-RootSet :
    (u : UserName) (b : Bool) (w v : World) → Kept w v → RootSet u w (change_root_by (b, v))
change_by-RootSet u false w v k = k
change_by-RootSet u true w v k =
    let p = run_script change_root root v in
    let l = Kept-trans w v p.1 k (run-Kept change_root root v) in
    RootSet-if (is_ok p.0) u w (true, note root_password_set p.1) (false, p.1)
      (root_set p.1.log refl l.log) l

write_old-Kept : (old b : Bool) (w v : World) → Kept w v → Kept w (write_old old (b, v)).1
write_old-Kept old false w v k = k
write_old-Kept old true w v k =
    Kept-trans w v (string_maybe_to_file old pass_old v).1 k (string-Kept old pass_old v)

unlinked-RootSet :
    (u : UserName) (w : World) (b : Bool) (v : World)
    → RootSet u w (b, v)
    → RootSet u w (unlink_both (b, v))
unlinked-RootSet u w false v k = record {
  context = k.context;
  secure_mode = k.secure_mode;
  log = k.log;
}
unlinked-RootSet u w true v p = p

change_root-RootSet :
    (host : Host) (u : UserName) (old : Bool) (w : World)
    → RootSet u w (change_root_password host old w)
unfolding change_root_password
change_root-RootSet host u old w =
    let v = auth_status host auth_in_progress (2 ^ flag_local_started) w in
    let k = status-Kept host auth_in_progress (2 ^ flag_local_started) w refl in
    let p = string_maybe_to_file true pass_new v in
    let q = write_old old p in
    let o = if may_change_root old v.root_password then change_root_by q else (false, v) in
    unlinked-RootSet u w o.0 o.1 (
      RootSet-if (may_change_root old v.root_password) u w (change_root_by q) (false, v)
        (change_by-RootSet u q.0 w q.1
          (write_old-Kept old p.0 w p.1 (Kept-trans w v p.1 k (string-Kept true pass_new v))))
        k)

pub error-Lawful :
    {root : Bool}
    → (host : Host) (u : UserName) (w v : World) → Kept w v
    → LawfulBy root u w (internal_error host v)
error-Lawful host u w v k =
    kept (Kept-trans w v (internal_error host v) k (status-Kept host auth_internal_error 0 v refl))

root_changed-Lawful :
    (host : Host) (u : UserName) (w : World) (b : Bool) (v : World)
    → RootSet u w (b, v)
    → Lawful u w (root_changed host (b, v))
root_changed-Lawful host u w true v p = ok-Lawful host u auth_ok 0 w v refl p
root_changed-Lawful host u w false v k = error-Lawful host u w v k

set_root-Lawful :
    (host : Host) (u : UserName) (password : List ℕ) (w : World)
    → Lawful u w (set_root host password w)
set_root-Lawful host u [] w = kept (status-Kept host auth_need_password 0 w refl)
set_root-Lawful host u (c ∷ cs) w =
    let p = change_root_password host false w in
    root_changed-Lawful host u w p.0 p.1 (change_root-RootSet host u false w)

remote_started-Lawful :
    {root : Bool}
    → (host : Host) (u : UserName) (user : List ℕ) (b : Bool) (w v : World) → Kept w v
    → LawfulBy root u w (remote_started host user (b, v))
remote_started-Lawful host u user false w v k = error-Lawful host u w v k
remote_started-Lawful host u user true w v k =
    let v' = auth_status host auth_in_progress (2 ^ flag_remote_started) v in
    kept (
      Kept-trans w v (note (start_login user) v') k (
        Kept-trans v v' (note (start_login user) v')
          (status-Kept host auth_in_progress (2 ^ flag_remote_started) v refl)
          (Kept-note (start_login user) v')))

pub write_remote-Lawful :
    {root : Bool}
    → (host : Host) (u : UserName) (user : List ℕ) (w v : World) → Kept w v
    → LawfulBy root u w (write_remote host user v)
write_remote-Lawful host u user w v k =
    let p = auth_write_hash (remote_hash (host.digest user)) v in
    remote_started-Lawful host u user p.0 w p.1
      (Kept-trans w v p.1 k (write_hash-Kept (remote_hash (host.digest user)) v))

pub Lawful-if :
    {root : Bool}
    → (b : Bool) (u : UserName) (w v v' : World) → LawfulBy root u w v
    → LawfulBy root u w v'
    → LawfulBy root u w (if b then v else v')
Lawful-if true u w v v' k l = k
Lawful-if false u w v v' k l = l

hash_written-Lawful :
    (host : Host) (user : List ℕ) (flags : ℕ) (b : Bool) (w v : World)
    → Kept w v
    → Lawful (local_user host user) w (hash_written host user flags (b, v))
hash_written-Lawful host user flags false w v k = error-Lawful host (local_user host user) w v k
hash_written-Lawful host user flags true w v k =
    let u = local_user host user in
    let v' = (local_auth host (local_request host user flags) v).1 in
    Lawful-if (has_bit flag_remote_user flags) u w (write_remote host user v) v'
      (write_remote-Lawful host u user w v k)
      (LawfulBy-any u w v'
        (Kept-Lawful u w v v' k (local_auth-Lawful host (local_request host user flags) v)))

log_in-Lawful :
    (host : Host) (user : List ℕ) (old : Option (List ℕ)) (flags : ℕ) (w : World)
    → Lawful (local_user host user) w (log_in host user old flags w)
log_in-Lawful host user old flags w =
    let p = auth_write_hash (local_hash (host.digest user)) w in
    Lawful-if (has_bit flag_set_local_pw flags || has_bit flag_change_local_pw flags)
      (local_user host user) w (change_or_create_local_password host user (is_there old) w).1
      (hash_written host user flags p)
      (LawfulBy-any (local_user host user) w
        (change_or_create_local_password host user (is_there old) w).1
        (change_or_create-Lawful host user (is_there old) w))
      (hash_written-Lawful host user flags p.0 w p.1
        (write_hash-Kept (local_hash (host.digest user)) w))

with_user-Lawful :
    (host : Host) (user : List ℕ) (old : Option (List ℕ)) (flags : ℕ) (w : World)
    → Lawful (local_user host user) w (with_user host user old flags w)
with_user-Lawful host [] old flags w = kept (status-Kept host auth_need_credentials 0 w refl)
with_user-Lawful host (c ∷ cs) old flags w = log_in-Lawful host (c ∷ cs) old flags w

in_context-Lawful :
    (host : Host) (user : Option (List ℕ)) (password : List ℕ) (confirm old : Option (List ℕ))
    (flags : ℕ) (w : World)
    → Lawful (local_user host (text_of user)) w (in_context host user password confirm old flags w)
in_context-Lawful host user password confirm old flags w =
    let u = local_user host (text_of user) in
    let v = auth_status host auth_confirm_failed 0 w in
    let v' = set_root host password w in
    let v'' = with_user host (text_of user) old flags w in
    Lawful-if (has_bit flag_confirm_pw flags && not (is_confirmed password confirm)) u w v
      (if has_bit flag_set_root_pw flags then v' else v'')
      (kept (status-Kept host auth_confirm_failed 0 w refl))
      (Lawful-if (has_bit flag_set_root_pw flags) u w v' v'' (set_root-Lawful host u password w)
        (with_user-Lawful host (text_of user) old flags w))

end_in-Lawful :
    (host : Host) (ctx : Option AuthContext) (user : Option (List ℕ)) (password : List ℕ)
    (confirm old : Option (List ℕ)) (w : World)
    → Lawful (local_user host (text_of user)) w (end_in host ctx user password confirm old w)
end_in-Lawful host none user password confirm old w =
    error-Lawful host (local_user host (text_of user)) w w (Kept-self w)
end_in-Lawful host (some ctx) user password confirm old w =
    in_context-Lawful host user password confirm old ctx.flags w

ask_uivm-Kept : (w : World) → Kept w (ask_uivm w)
ask_uivm-Kept w = record { context = refl; secure_mode = refl; log = same }

-- A typed password closes the window only when the password of the user that was typed was checked by
-- `check_pass` and `mount` after it succeeded for that user, or a password of root was set; in any other
-- case the context and the secure mode stay as they were.
pub auth_end-Lawful :
    (host : Host) (user : Option (List ℕ)) (password : List ℕ) (confirm old : Option (List ℕ))
    (w : World)
    → Lawful (local_user host (text_of user)) w (auth_end host user password confirm old w)
unfolding auth_end
auth_end-Lawful host user password confirm old w =
    let u = local_user host (text_of user) in
    let v = ask_uivm w in
    Kept-Lawful u w v (auth_end host user password confirm old w) (ask_uivm-Kept w) (
      Lawful-if (auth_window_shown v) u v (end_in host v.context user password confirm old v)
        (internal_error host v) (end_in-Lawful host v.context user password confirm old v)
        (error-Lawful host u v v (Kept-self v)))
