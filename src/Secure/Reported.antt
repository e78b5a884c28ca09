-- ===== src/Secure/Reported.antt =====
-- What the daemon says leaves the window in place, but for a login that was proven.
use input.Secure.Opened.{write_hash-Kept}
use input.Secure.Ended.{error-Lawful, write_remote-Lawful, Lawful-if}
use input.Secure.Tried.{remove_key-Kept, Kept-if, remove_file-Kept, local_auth-Lawful}
use input.Secure.Local.{remove_key}
use input.Secure.Mounted.{status-Kept}
use input.Secure.End.{internal_error, both_hashes, remote_login_in, auth_remote_login}
use input.Auth.{AuthContext, flag_remote_user}
use input.Secure.Proven.{Kept, Kept-self, Kept-trans, LawfulBy, kept, Kept-Lawful, Lawful-Kept}
use input.Secure.Remote.{
  Verdict, say, say_with, try_with, try_recovering, invalid, below, above, or_invalid, verdict,
  Report, report_flags, request, act_on, remove_after, auth_remote_status,
}
use input.Base.{
  if◌then◌else◌, has_bit, get_elem?, ℤ, pos, negsuc, ℕ, zero, suc, ◌≡◌, refl, Bool, true, false,
  ◌||◌, Option, none, some, List, [], ◌∷◌, arith,
}
use input.Auth.Status.{hides_window, or_flag}
use input.Secure.{UserName, local_hash, remote_hash, World, Host, remove_file, auth_write_hash}

abbrev pub hidden_by : Verdict → Bool
hidden_by (say status) = hides_window status
hidden_by (say_with status flag) = hides_window status
hidden_by _ = false

abbrev any_hides : List Verdict → Bool
any_hides [] = false
any_hides (v ∷ vs) = hidden_by v || any_hides vs

or-left : (a b : Bool) → a || b ≡ false → a ≡ false
or-left false b h = refl
or-left true b h = h

or-right : (a b : Bool) → a || b ≡ false → b ≡ false
or-right false b h = h
or-right true b h = ground arith

shown-all :
    (vs : List Verdict) (n : ℕ)
    → any_hides vs ≡ false
    → hidden_by (or_invalid (get_elem? vs n)) ≡ false
shown-all [] n h = refl
shown-all (v ∷ vs) zero h = or-left (hidden_by v) (any_hides vs) h
shown-all (v ∷ vs) (suc n) h = shown-all vs n (or-right (hidden_by v) (any_hides vs) h)

verdict-shown : (z : ℤ) → hidden_by (verdict z) ≡ false
unfolding verdict
verdict-shown (pos n) = shown-all above n refl
verdict-shown (negsuc n) = shown-all below n refl

abbrev pub remote_user : Host → List ℕ → UserName
remote_user host id = record { remote = true; hash = host.digest id }

act_on-Lawful :
    (host : Host) (v : Verdict) (r : Report) (w : World)
    → hidden_by v ≡ false
    → LawfulBy false (remote_user host r.id) w (act_on host v r w).1
act_on-Lawful host (say status) r w h = kept (status-Kept host status (report_flags r) w h)
act_on-Lawful host (say_with status flag) r w h =
    kept (status-Kept host status (or_flag flag (report_flags r)) w h)
act_on-Lawful host (try_with flag) r w h =
    local_auth-Lawful host (request host r false (or_flag flag (report_flags r))) w
act_on-Lawful host try_recovering r w h =
    local_auth-Lawful host (request host r true (report_flags r)) w
act_on-Lawful host invalid r w h = kept (Kept-self w)

remove_after-Kept :
    (host : Host) (r : Report) (b : Bool) (w : World) → Kept w (remove_after host r (b, w))
remove_after-Kept host r true w = Kept-self w
remove_after-Kept host r false w =
    let f = local_hash (host.digest r.username) in
    let v = if r.auto_started then w else remove_file f w in
    Kept-trans w v (remove_key r.recovery_key v)
      (Kept-if r.auto_started w w (remove_file f w) (Kept-self w) (remove_file-Kept f w))
      (remove_key-Kept r.recovery_key v)

-- Whatever the daemon reports, the window closes only when the password of the reported user was checked
-- by `check_pass` and `mount` after it succeeded for that user; in any other case the context and the
-- secure mode stay as they were.
pub auth_remote_status-Lawful :
    (host : Host) (r : Report) (w : World)
    → LawfulBy false (remote_user host r.id) w (auth_remote_status host r w)
unfolding auth_remote_status
auth_remote_status-Lawful host r w =
    let f = remote_hash (host.digest r.username) in
    let u = remote_user host r.id in
    let v = if r.auto_started then w else remove_file f w in
    let p = act_on host (verdict r.status) r v in
    Lawful-Kept u w p.1 (remove_after host r p)
      (Kept-Lawful u w v p.1
        (Kept-if r.auto_started w w (remove_file f w) (Kept-self w) (remove_file-Kept f w))
        (act_on-Lawful host (verdict r.status) r v (verdict-shown r.status)))
      (remove_after-Kept host r p.0 p.1)

both_hashes-Lawful :
    (host : Host) (u : UserName) (user : List ℕ) (b : Bool) (w v : World)
    → Kept w v
    → LawfulBy false u w (both_hashes host user (b, v))
both_hashes-Lawful host u user false w v k = error-Lawful host u w v k
both_hashes-Lawful host u user true w v k = write_remote-Lawful host u user w v k

remote_login_in-Lawful :
    (host : Host) (u : UserName) (ctx : Option AuthContext) (user : List ℕ) (w : World)
    → LawfulBy false u w (remote_login_in host ctx user w)
remote_login_in-Lawful host u none user w = error-Lawful host u w w (Kept-self w)
remote_login_in-Lawful host u (some ctx) user w =
    let f = local_hash (host.digest user) in
    let p = auth_write_hash f w in
    Lawful-if (has_bit flag_remote_user ctx.flags) u w (both_hashes host user p)
      (internal_error host w) (both_hashes-Lawful host u user p.0 w p.1 (write_hash-Kept f w))
      (error-Lawful host u w w (Kept-self w))

pub auth_remote_login-Lawful :
    (host : Host) (u : UserName) (user : List ℕ) (w : World)
    → LawfulBy false u w (auth_remote_login host user w)
unfolding auth_remote_login
auth_remote_login-Lawful host u user w = remote_login_in-Lawful host u w.context user w
