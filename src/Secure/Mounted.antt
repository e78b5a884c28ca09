-- ===== src/Secure/Mounted.antt =====
-- What the scripts log, and what a status does to the window.
use input.Base.{
  if◌then◌else◌, ℤ, pos, negsuc, ℕ, zero, suc, ◌≡◌, refl, Bool, true, false, none, some, List, ◌∷◌,
}
use input.Auth.Status.{Status, is_error, hides_window, flag_error, or_flag}
use input.Secure.{
  UserName, Script, check_pass, mount, new_user, Act, ran, said, user_assoc, secure_mode_is, World,
  Host, note, reply_of, rest_of, run_script, is_ok, sec_check_pass_and_mount, user_create, ask_uivm,
  entering, change_mode, input_secure, hide, auth_status,
}
use input.Secure.Proven.{Longer, same, more, ProvenBy, mounted, Longer-Proven, Kept, Kept-trans}
use input.Secure.Local.{Sign, minus, nought, plus, sign}

-- After a script with this sign, the log is longer; after a mount with the sign 0, it has a proof.
abbrev pub TellsBy : Sign → UserName → World → World → Type 0
TellsBy nought u w w' = Kept w w' × ProvenBy false u w.log w'.log
TellsBy _ u w w' = Kept w w'

TellsBy-of :
    (s : Sign) (u : UserName) (w w' : World)
    → Kept w w'
    → ProvenBy false u w.log w'.log
    → TellsBy s u w w'
TellsBy-of nought u w w' k p = (k, p)
TellsBy-of minus u w w' k p = k
TellsBy-of plus u w w' k p = k

pub TellsBy-Kept :
    (s : Sign) (u : UserName) (w v v' : World) → Kept w v → TellsBy s u v v' → TellsBy s u w v'
TellsBy-Kept nought u w v v' k t =
    (Kept-trans w v v' k t.0, Longer-Proven u w.log v.log v'.log k.log t.1)
TellsBy-Kept minus u w v v' k t = Kept-trans w v v' k t
TellsBy-Kept plus u w v v' k t = Kept-trans w v v' k t

pub TellsBy-weak : (s : Sign) (u : UserName) (w w' : World) → TellsBy s u w w' → Kept w w'
TellsBy-weak nought u w w' t = t.0
TellsBy-weak minus u w w' t = t
TellsBy-weak plus u w w' t = t

pub Kept-note : (a : Act) (w : World) → Kept w (note a w)
Kept-note a w = record { context = refl; secure_mode = refl; log = more a w.log same }

pub run-Kept : (s : Script) (u : UserName) (w : World) → Kept w (run_script s u w).1
unfolding run_script
run-Kept s u w = record {
  context = refl;
  secure_mode = refl;
  log = more (ran s u (run_script s u w).0) w.log same;
}

abbrev after_check : UserName → World → ℤ → List ℤ → World
after_check u w z zs = record w { replies = zs; log = ran check_pass u z ∷ w.log }

after_check-Kept : (u : UserName) (w : World) (z : ℤ) (zs : List ℤ) → Kept w (after_check u w z zs)
after_check-Kept u w z zs = record {
  context = refl;
  secure_mode = refl;
  log = more (ran check_pass u z) w.log same;
}

mount-Tells :
    (u : UserName) (w : World) (z : ℤ) (zs zs' : List ℤ)
    → TellsBy
        (sign z)
        u
        w
        (record w { replies = zs'; log = ran mount u z ∷ (ran check_pass u (pos 0) ∷ w.log) })
mount-Tells u w (pos zero) zs zs' = (
  record {
    context = refl;
    secure_mode = refl;
    log =
        more (ran mount u (pos 0)) (ran check_pass u (pos 0) ∷ w.log)
          (more (ran check_pass u (pos 0)) w.log same);
  },
  mounted w.log same,
)
mount-Tells u w (pos (suc n)) zs zs' = record {
  context = refl;
  secure_mode = refl;
  log =
      more (ran mount u (pos (suc n))) (ran check_pass u (pos 0) ∷ w.log)
        (more (ran check_pass u (pos 0)) w.log same);
}
mount-Tells u w (negsuc n) zs zs' = record {
  context = refl;
  secure_mode = refl;
  log =
      more (ran mount u (negsuc n)) (ran check_pass u (pos 0) ∷ w.log)
        (more (ran check_pass u (pos 0)) w.log same);
}

check-Tells :
    (u : UserName) (w : World) (z : ℤ) (zs : List ℤ)
    → (let v = after_check u w z zs in
        let p = if is_ok z then run_script mount u v else (z, v) in TellsBy (sign p.0) u w p.1)
unfolding run_script
check-Tells u w (pos zero) zs = mount-Tells u w (reply_of zs) zs (rest_of zs)
check-Tells u w (pos (suc n)) zs = after_check-Kept u w (pos (suc n)) zs
check-Tells u w (negsuc n) zs = after_check-Kept u w (negsuc n) zs

pub sec_check_pass_and_mount-Tells :
    (u : UserName) (w : World)
    → (let p = sec_check_pass_and_mount u w in TellsBy (sign p.0) u w p.1)
unfolding sec_check_pass_and_mount
sec_check_pass_and_mount-Tells u w = check-Tells u w (reply_of w.replies) (rest_of w.replies)

pub if_step-Kept :
    (b : Bool) (w : World) (p q : ℤ × World)
    → Kept w p.1
    → Kept w q.1
    → Kept w (if b then p else q).1
if_step-Kept true w p q k l = k
if_step-Kept false w p q k l = l

pub user_create-Kept : (u : UserName) (name : List ℕ) (w : World) → Kept w (user_create u name w).1
unfolding user_create
user_create-Kept u name w =
    let (z, v) = run_script new_user u w in
    if_step-Kept (is_ok z) w (pos 0, note (user_assoc u.hash name) v) (z, v)
      (Kept-trans w v (note (user_assoc u.hash name) v) (run-Kept new_user u w)
        (Kept-note (user_assoc u.hash name) v))
      (run-Kept new_user u w)

pub status-Kept :
    (host : Host) (s : Status) (flags : ℕ) (w : World)
    → hides_window s ≡ false
    → Kept w (auth_status host s flags w)
unfolding auth_status
status-Kept host s flags w h = rw (h) record {
  context = refl;
  secure_mode = refl;
  log = more (said s (if is_error s then or_flag flag_error flags else flags)) w.log same;
}

-- The window is closed.
pub record IsClosed (w w' : World) : Type 0 where
  pub context : w'.context ≡ none
  pub secure_mode : w'.secure_mode ≡ false
  pub log : Longer w.log w'.log

mode-Closed :
    (host : Host) (b : Bool) (w w' : World) (e : w.secure_mode ≡ b)
    → w.context ≡ none
    → IsClosed w (if b then entering host false (change_mode host false w) else (false, w)).1
mode-Closed host true w w' e c = record {
  context = c;
  secure_mode = refl;
  log = more (secure_mode_is false) w.log same;
}
mode-Closed host false w w' e c = record { context = c; secure_mode = e; log = same }

pub hides-Closed :
    (host : Host) (s : Status) (flags : ℕ) (w : World)
    → hides_window s ≡ true
    → IsClosed w (auth_status host s flags w)
unfolding auth_status input_secure
hides-Closed host s flags w h =
    let k =
      mode-Closed host w.secure_mode (ask_uivm (record w { context = none; login_state = some 0 }))
        w refl refl in
    rw (h) record {
      context = k.context;
      secure_mode = k.secure_mode;
      log =
          more (said s (if is_error s then or_flag flag_error flags else flags)) (hide host w).log
            k.log;
    }
