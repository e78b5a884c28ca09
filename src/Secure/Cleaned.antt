-- ===== src/Secure/Cleaned.antt =====
-- The hashes of passwords on the ramdisk.
use input.Auth.{
  AuthContext, flag_confirm_pw, flag_set_local_pw, flag_remote_user, flag_set_root_pw,
  flag_change_local_pw,
}
use input.Secure.End.{remote_started, auth_end}
use input.Secure.Locked.{true_not_false}
use input.Secure.Local.{
  Request, Outcome, fails, succeeds, recovers, try_local, remove_key, key_with_id, got_recovery_key,
  clean_up, auth_update_cache, end_with, local_auth,
}
use input.Domains.{same_text}
use input.Base.{
  ◌==◌, if◌then◌else◌, has_bit, ==_iff, set, ℕ, ◌^◌, ◌≡◌, refl, ap, ◌∙◌, subst, Bool, true, false,
  not, Option, none, some, List, [], ◌∷◌,
}
use input.Auth.Status.{
  auth_internal_error, auth_ok, auth_in_progress, flag_error, flag_auto_started, flag_local_started,
}
use input.Secure.{
  File, local_hash, local_hash_old, remote_hash, pass_new, pass_old, other_path, same_file, said,
  Written, whole, unopened, cut, World, Host, remove_file, add_file, next_write, written_as,
  auth_write_hash, ask_uivm, auth_status,
}

same_text_self : (t : List ℕ) → same_text t t ≡ true
same_text_self [] = refl
same_text_self (x ∷ xs) = rw ((==_iff x x).1 refl, same_text_self xs) refl

same_file_self : (f : File) → same_file f f ≡ true
same_file_self (local_hash h) = same_text_self h
same_file_self (local_hash_old h) = same_text_self h
same_file_self (remote_hash h) = same_text_self h
same_file_self pass_new = refl
same_file_self pass_old = refl
same_file_self (other_path p) = same_text_self p

pub removed_gone : (f : File) (w : World) → (remove_file f w).files f ≡ false
removed_gone f w = rw (same_file_self f) refl

gone-if : (b c : Bool) → c ≡ false → (if b then false else c) ≡ false
gone-if true c h = refl
gone-if false c h = h

stays_gone :
    (o : Option File) (f : File) (w : World) → w.files f ≡ false → (remove_key o w).files f ≡ false
stays_gone none f w h = h
stays_gone (some g) f w h = gone-if (same_file f g) (w.files f) h

abbrev pub key_gone : Option File → World → Bool
key_gone none w = true
key_gone (some f) w = not (w.files f)

key_gone-removed : (o : Option File) (w : World) → key_gone o (remove_key o w) ≡ true
key_gone-removed none w = refl
key_gone-removed (some f) w = rw (removed_gone f w) refl

-- Of a request's files, the password's and the recovery key are not there.
pub record IsClean (r : Request) (w : World) : Type 0 where
  pub userpass : w.files r.userpass ≡ false
  pub recovery_key : key_gone r.recovery_key w ≡ true

unless_auto :
    (b : Bool) (f : File) (w : World)
    → b ≡ false
    → (if b then w else remove_file f w).files f ≡ false
unless_auto true f w h = absurd (true_not_false h)
unless_auto false f w h = removed_gone f w

clean_up-IsClean :
    (r : Request) (got : Option File) (w : World)
    → has_bit flag_auto_started r.remote_flags ≡ false
    → got ≡ r.recovery_key
    → IsClean r (clean_up r got w)
clean_up-IsClean r got w h same =
    let b = has_bit flag_auto_started r.remote_flags in
    let v = if b then w else remove_file r.userpass w in
    record {
      userpass = stays_gone got r.userpass v (unless_auto b r.userpass w h);
      recovery_key =
          subst (λ o. key_gone o (remove_key got v) ≡ true) same (key_gone-removed got v);
    }

end_with-IsClean :
    (host : Host) (r : Request) (got : Option File) (o : Outcome) (w : World)
    → has_bit flag_auto_started r.remote_flags ≡ false
    → got ≡ r.recovery_key
    → (end_with host r got (o, w)).0 ≡ false
    → IsClean r (end_with host r got (o, w)).1
end_with-IsClean host r got (fails status flags) w h same e =
    clean_up-IsClean r got (auth_status host status flags w) h same
end_with-IsClean host r got (succeeds flags) w h same e =
    clean_up-IsClean r got
      (auth_status host auth_ok flags (auth_update_cache r.uname r.username r.ctx_flags w)) h same
end_with-IsClean host r got recovers w h same e = absurd (true_not_false e)

-- The file with the password's hash is there and the user's id is not empty: after a local login that was
-- not started by itself and did not start recovery, whatever the scripts said, neither that file nor the
-- recovery key is left on the ramdisk.
pub local_auth-IsClean :
    (host : Host) (r : Request) (w : World) (c : ℕ) (cs : List ℕ)
    → w.files r.userpass ≡ true
    → r.id ≡ c ∷ cs
    → has_bit flag_auto_started r.remote_flags ≡ false
    → (local_auth host r w).0 ≡ false
    → IsClean r (local_auth host r w).1
unfolding local_auth auth_status
local_auth-IsClean host r w c cs there id h e =
    let v = auth_status host auth_in_progress (2 ^ flag_local_started) w in
    let p = try_local r v in
    let same : got_recovery_key r v ≡ r.recovery_key =
      ap (λ b. if b then key_with_id r r.id else none) there ∙ ap (λ xs. key_with_id r xs) id in
    end_with-IsClean host r (got_recovery_key r v) p.0 p.1 h same e

abbrev pub is_whole : Written → Bool
is_whole whole = true
is_whole unopened = false
is_whole cut = false

-- What `auth_end` leaves when it could not write the remote hash.
pub record LeavesHash (f : File) (w v : World) : Type 0 where
  pub status : v.status ≡ some auth_internal_error
  pub login : v.log ≡ said auth_internal_error (2 ^ flag_error) ∷ w.log
  pub local_hash_there : v.files f ≡ true

unwritten :
    (host : Host) (user : List ℕ) (x : Written) (w : World)
    → is_whole x ≡ false
    → w.files (local_hash (host.digest user)) ≡ true
    → LeavesHash
        (local_hash (host.digest user))
        w
        (remote_started host user (written_as x (remote_hash (host.digest user)) w))
unfolding auth_status
unwritten host user whole w h there = absurd (true_not_false h)
unwritten host user unopened w h there = record {
  status = refl;
  login = refl;
  local_hash_there = there;
}
unwritten host user cut w h there = record { status = refl; login = refl; local_hash_there = there }

-- The window is shown, for a remote user and with no password to be confirmed, set or changed; the user's
-- name is not empty. The local hash is written whole, the remote one is not: `auth_end` ends with an
-- internal error, the only thing that it reports, and the local hash stays on the ramdisk.
pub auth_end-LeavesHash :
    (host : Host) (c : ℕ) (cs password : List ℕ) (confirm old : Option (List ℕ)) (ctx : AuthContext)
    (n : ℕ) (x : Written) (xs : List Written) (v : World)
    → n == 3 ≡ false
    → has_bit flag_remote_user ctx.flags ≡ true
    → has_bit flag_confirm_pw ctx.flags ≡ false
    → has_bit flag_set_root_pw ctx.flags ≡ false
    → has_bit flag_set_local_pw ctx.flags ≡ false
    → has_bit flag_change_local_pw ctx.flags ≡ false
    → is_whole x ≡ false
    → let w = record v {
      uivm = true;
      context = some ctx;
      login_state = some n;
      disk = whole ∷ x ∷ xs;
    } in
      LeavesHash
        (local_hash (host.digest (c ∷ cs)))
        w
        (auth_end host (some (c ∷ cs)) password confirm old w)
unfolding auth_end auth_write_hash
auth_end-LeavesHash host c cs password confirm old ctx n x xs v shown rem con root set change part =
    let w = record v {
      uivm = true;
      context = some ctx;
      login_state = some n;
      disk = whole ∷ x ∷ xs;
    } in
    let user = c ∷ cs in
    let f = local_hash (host.digest user) in
    let half = next_write (add_file f (next_write (ask_uivm w))) in
    let ended = remote_started host user (written_as x (remote_hash (host.digest user)) half) in
    let e : auth_end host (some user) password confirm old w ≡ ended =
      rw (shown, con, root, set, change, rem) refl in
    let u = unwritten host user x half part (rw (same_file_self f) refl) in
    record {
      status = ap (λ v. v.status) e ∙ u.status;
      login = ap (λ v. v.log) e ∙ u.login;
      local_hash_there = ap (λ v. v.files f) e ∙ u.local_hash_there;
    }
