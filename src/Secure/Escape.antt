-- ===== src/Secure/Escape.antt =====
-- Keys where the secure mode has a context.
use input.Secure.Locked.{Backed, backed_when}
use input.Secure.Keys.{
  btn_mouse, SecureKey, escape, tab, backspace, enter, plain, key_of, Outside, is_key_down,
  is_locked, cancel, key_down, then_tell, secure_key, is_motion, dropped, input_secure_mode,
}
use input.Auth.{AuthContext}
use input.Base.{
  ltb, ◌==◌, if◌then◌else◌, Bool-cases, Event, ev_key, ◌≡◌, refl, inl, inr, Bool, true, false, not,
  ◌&&◌, ◌||◌, Option, none, some, List, [],
}
use input.Secure.{World, Host, is_there}

there-if {ℓ} :
    {A : Type ℓ} (b : Bool) (x y : Option A)
    → is_there x ≡ true
    → is_there y ≡ true
    → is_there (if b then x else y) ≡ true
there-if true x y k l = k
there-if false x y k l = l

cancel-there :
    (host : Host) (ctx : Option AuthContext) (w : World)
    → is_there ctx ≡ true
    → is_there (cancel host ctx w) ≡ true
cancel-there host none w h = h
cancel-there host (some ctx) w h = refl

key_down-there :
    (host : Host) (k : SecureKey) (o : Outside) (w : World)
    → is_there w.context ≡ true
    → is_there (key_down host k o w) ≡ true
key_down-there host escape o w h = cancel-there host w.context w h
key_down-there host tab o w h = refl
key_down-there host backspace o w h = refl
key_down-there host enter o w h = refl
key_down-there host plain o w h = refl

told-there :
    (host : Host) (o : Outside) (e : Event) (m : Option World)
    → is_there m ≡ true
    → is_there (dropped host (then_tell host o e m)) ≡ true
told-there host o e none h = h
told-there host o e (some w) h = refl

secure_key-there :
    (host : Host) (o : Outside) (e : Event) (w : World)
    → is_there w.context ≡ true
    → is_there (dropped host (secure_key host o e w)) ≡ true
unfolding secure_key
secure_key-there host o e w h =
    told-there host o e (if is_key_down e then key_down host (key_of e.code) o w else some w) (
      there-if (is_key_down e) (key_down host (key_of e.code) o w) (some w)
        (key_down-there host (key_of e.code) o w h) refl)

-- Where there is a context while the secure mode is on, no event makes `input_secure_mode` read through the
-- null pointer of the context.
pub input_secure_mode-there :
    (host : Host) (o : Outside) (e : Event) (w : World)
    → Backed w
    → is_there (input_secure_mode host o e w) ≡ true
unfolding input_secure_mode Backed
input_secure_mode-there host o e w h = elim (Bool-cases w.secure_mode) [
  | inr off ↦ rw (off) refl
  | inl on ↦
      let told : Option (Bool × List Event × World) = dropped host (secure_key host o e w) in
      there-if (not (w.secure_mode && o.focused) || is_motion host e) (some (false, [], w))
        (if not (is_locked w.context) && o.bound
          then some (true, [], w)
          else if e.type == ev_key && ltb e.code btn_mouse
          then told
          else some (true, [], w))
        refl
        (there-if (not (is_locked w.context) && o.bound) (some (true, [], w))
          (if e.type == ev_key && ltb e.code btn_mouse then told else some (true, [], w)) refl
          (there-if (e.type == ev_key && ltb e.code btn_mouse) told (some (true, [], w))
            (secure_key-there host o e w (backed_when w.secure_mode (is_there w.context) on h))
            refl))
]
