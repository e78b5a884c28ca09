-- ===== src/Secure/Sessions.antt =====
-- Sessions: any sequence of keys, of reports of the daemon, of remote logins, of locks and of forced
-- windows.
use input.Secure.Reported.{remote_user, auth_remote_status-Lawful, auth_remote_login-Lawful}
use input.Secure.Remote.{Report, auth_remote_status}
use input.Secure.Tried.{Kept-if}
use input.Secure.Ended.{auth_end-Lawful}
use input.Secure.Opened.{local_user}
use input.Secure.End.{text_of, auth_end, auth_remote_login}
use input.Secure.Mounted.{status-Kept, hides-Closed}
use input.Secure.Keys.{
  btn_mouse, flag_cannot_cancel, with_fields, SecureKey, escape, tab, backspace, enter, plain,
  key_of, Outside, is_key_down, is_locked, switcher_lock, switcher_auth_force, cancel, key_down,
  then_tell, secure_key, is_motion, dropped, input_secure_mode,
}
use input.Auth.{AuthInput, AuthContext, auth_tab, auth_backspace, auth_collect_key}
use input.Secure.Proven.{Longer, same, Proven, Kept, Kept-self, LawfulBy-any}
use input.Secure.Locked.{
  cannot_leave, true_not_false, Locked, Backed, Fair, Kept-Fair, Lawful-Fair, Fair-trans,
  switcher_lock-Fair, switcher_auth_force-Fair,
}
use Prim.{Unit}
use input.Base.{
  ltb, ◌==◌, if◌then◌else◌, has_bit, Bool-cases, pos, negsuc, is_zero, Event, ev_key, ℕ, ◌≡◌, refl,
  sym, ap, ◌∙◌, subst, ◌⊎◌, inl, inr, Bool, true, false, not, ◌&&◌, ◌||◌, Option, none, some, List,
  [],
}
use input.Auth.Status.{Status, auth_user_cancel, auth_user_cancel_dont_hide, hides_window}
use input.Secure.{UserName, World, Host, clear_fields, auth_status}

-- What holds of the world where there is one.
abbrev Each {ℓ} : {A : Type ℓ} → (A → Type 0) → Option A → Type 0
Each P none = Unit
Each P (some x) = P x

Each-if {ℓ} :
    {A : Type ℓ} (P : A → Type 0) (b : Bool) (x y : Option A)
    → Each P x
    → Each P y
    → Each P (if b then x else y)
Each-if P true x y k l = k
Each-if P false x y k l = l

-- The world after a key is handled, where no null pointer is read.
abbrev After : World → Option World → Type 0
After w o = Each (Fair w) o

status-Log :
    (host : Host) (s : Status) (flags : ℕ) (w : World)
    → Longer w.log (auth_status host s flags w).log
status-Log host s flags w = elim (Bool-cases (hides_window s)) [
  | inl h ↦ (hides-Closed host s flags w h).log
  | inr h ↦ (status-Kept host s flags w h).log
]

clear_fields-Kept : (host : Host) (w : World) → Kept w (clear_fields host w)
clear_fields-Kept host w = record { context = refl; secure_mode = refl; log = same }

with_fields-Kept : (f : AuthInput → AuthInput) (w : World) → Kept w (with_fields f w)
with_fields-Kept f w = record { context = refl; secure_mode = refl; log = same }

cancelled-Fair :
    (host : Host) (b : Bool) (w : World)
    → (cannot_leave w.context ≡ true → b ≡ true)
    → Fair w (auth_status host (if b then auth_user_cancel_dont_hide else auth_user_cancel) 0 w)
unfolding Backed
cancelled-Fair host true w h =
    Kept-Fair w (auth_status host auth_user_cancel_dont_hide 0 w)
      (status-Kept host auth_user_cancel_dont_hide 0 w refl)
cancelled-Fair host false w h =
    let c = hides-Closed host auth_user_cancel 0 w refl in
    record {
      log = c.log;
      locked = λ l. absurd (true_not_false (sym (h l.context)));
      backed = λ b. rw (c.secure_mode) refl;
    }

cancel-After :
    (host : Host) (ctx : Option AuthContext) (w : World)
    → w.context ≡ ctx
    → After w (cancel host ctx w)
cancel-After host none w e = _
cancel-After host (some ctx) w e =
    let b = has_bit flag_cannot_cancel ctx.flags in
    let v = auth_status host (if b then auth_user_cancel_dont_hide else auth_user_cancel) 0 w in
    Fair-trans w v (clear_fields host v)
      (cancelled-Fair host b w (λ h. sym (ap cannot_leave e) ∙ h))
      (Kept-Fair v (clear_fields host v) (clear_fields-Kept host v))

key_down-After :
    (host : Host) (k : SecureKey) (o : Outside) (w : World) → After w (key_down host k o w)
key_down-After host escape o w = cancel-After host w.context w refl
key_down-After host tab o w =
    let f = auth_tab w.context (if o.shift then negsuc 0 else pos 1) in
    Kept-Fair w (with_fields f w) (with_fields-Kept f w)
key_down-After host backspace o w =
    let f : AuthInput → AuthInput = λ s. auth_backspace s.current_field s in
    Kept-Fair w (with_fields f w) (with_fields-Kept f w)
key_down-After host enter o w =
    let f = w.fields in
    let v = auth_end host f.username (text_of f.passwd) f.passwd_confirm f.passwd_previous w in
    Fair-trans w v (clear_fields host v)
      (Lawful-Fair (local_user host (text_of f.username)) w v
        (auth_end-Lawful host f.username (text_of f.passwd) f.passwd_confirm f.passwd_previous w))
      (Kept-Fair v (clear_fields host v) (clear_fields-Kept host v))
key_down-After host plain o w =
    let v = with_fields (λ f. auth_collect_key f.current_field o.ascii f) w in
    Kept-Fair w (if is_zero o.ascii then w else v) (
      Kept-if (is_zero o.ascii) w w v (Kept-self w)
        (with_fields-Kept (λ f. auth_collect_key f.current_field o.ascii f) w))

told-Each :
    (host : Host) (o : Outside) (e : Event) (w : World) (m : Option World)
    → After w m
    → Each (λ p. Fair w p.1) (then_tell host o e m)
told-Each host o e w none h = _
told-Each host o e w (some v) h = h

secure_key-Each :
    (host : Host) (o : Outside) (e : Event) (w : World)
    → Each (λ p. Fair w p.1) (secure_key host o e w)
unfolding secure_key
secure_key-Each host o e w =
    told-Each host o e w (if is_key_down e then key_down host (key_of e.code) o w else some w) (
      Each-if (Fair w) (is_key_down e) (key_down host (key_of e.code) o w) (some w)
        (key_down-After host (key_of e.code) o w) (Kept-Fair w w (Kept-self w)))

dropped-Each :
    (host : Host) (w : World) (m : Option (List Event × World))
    → Each (λ p. Fair w p.1) m
    → Each (λ p. Fair w p.2) (dropped host m)
dropped-Each host w none h = _
dropped-Each host w (some p) h = h

secure_mode-Each :
    (host : Host) (o : Outside) (e : Event) (w : World)
    → Each (λ p. Fair w p.2) (input_secure_mode host o e w)
unfolding input_secure_mode
secure_mode-Each host o e w =
    let k = Kept-Fair w w (Kept-self w) in
    let told : Option (Bool × List Event × World) = dropped host (secure_key host o e w) in
    let h : Each (λ p. Fair w p.2) told =
      dropped-Each host w (secure_key host o e w) (secure_key-Each host o e w) in
    Each-if (λ p. Fair w p.2) (not (w.secure_mode && o.focused) || is_motion host e)
      (some (false, [], w))
      (if not (is_locked w.context) && o.bound
        then some (true, [], w)
        else if e.type == ev_key && ltb e.code btn_mouse
        then told
        else some (true, [], w))
      k
      (Each-if (λ p. Fair w p.2) (not (is_locked w.context) && o.bound) (some (true, [], w))
        (if e.type == ev_key && ltb e.code btn_mouse then told else some (true, [], w)) k
        (Each-if (λ p. Fair w p.2) (e.type == ev_key && ltb e.code btn_mouse) told
          (some (true, [], w)) h k))

-- One thing that happens to a session.
pub data Step (host : Host) (w : World) : World → Type 0 where
  typed :
      (o : Outside) (e : Event) (b : Bool) (told : List Event) (v : World)
      → input_secure_mode host o e w ≡ some (b, told, v)
      → Step host w v
  reported : (r : Report) → Step host w (auth_remote_status host r w)
  logged_in : (user : List ℕ) → Step host w (auth_remote_login host user w)
  forced : (user : List ℕ) (flags : ℕ) → Step host w (switcher_auth_force host user flags w)
  locked_by :
      (user : List ℕ) (flags : ℕ) (can_switch_out : Bool)
      → Step host w (switcher_lock host user flags can_switch_out w)

pub data Session (host : Host) (w : World) : World → Type 0 where
  begins : Session host w w
  goes_on : (v v' : World) → Session host w v → Step host v v' → Session host w v'

Step-Fair : (host : Host) (w v : World) → Step host w v → Fair w v
Step-Fair host w _ (typed o e b told v e') =
    subst (Each (λ p. Fair w p.2)) e' (secure_mode-Each host o e w)
Step-Fair host w _ (reported r) =
    Lawful-Fair (remote_user host r.id) w (auth_remote_status host r w) (
      LawfulBy-any (remote_user host r.id) w (auth_remote_status host r w)
        (auth_remote_status-Lawful host r w))
Step-Fair host w _ (logged_in user) =
    Lawful-Fair (local_user host user) w (auth_remote_login host user w) (
      LawfulBy-any (local_user host user) w (auth_remote_login host user w)
        (auth_remote_login-Lawful host (local_user host user) user w))
Step-Fair host w _ (forced user flags) = switcher_auth_force-Fair host user flags w
Step-Fair host w _ (locked_by user flags b) = switcher_lock-Fair host user flags b w

Session-Fair : (host : Host) (w v : World) → Session host w v → Fair w v
Session-Fair host w _ begins = Kept-Fair w w (Kept-self w)
Session-Fair host w _ (goes_on v v' s t) =
    Fair-trans w v v' (Session-Fair host w v s) (Step-Fair host v v' t)

-- Where the secure mode is on with a context that forbids to cancel, any session of keys, reports, remote
-- logins, locks and forced windows leaves it so, or since then the log has a user's password checked by
-- `check_pass` and `mount` run with success right after it, or a password of root set.
pub Session-Locked :
    (host : Host) (w v : World)
    → Session host w v
    → Locked w
    → Locked v ⊎ ((u : UserName) × Proven u w.log v.log)
Session-Locked host w v s = (Session-Fair host w v s).locked

-- Any session keeps it so that there is a context while the secure mode is on.
pub Session-Backed : (host : Host) (w v : World) → Session host w v → Backed w → Backed v
Session-Backed host w v s = (Session-Fair host w v s).backed
