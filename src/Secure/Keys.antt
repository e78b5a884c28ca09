-- ===== src/Secure/Keys.antt =====
-- input.c, `input_secure_mode`: the keys while the authentication window has the keyboard; and
-- `switcher_lock` and `switcher_auth_force` of switch.c, which open it. The stored name, empty where there
-- is none, and the flags are arguments, as is what `input_exec_bindings` and `keycode2ascii` return. `none` stands for a read
-- through a null pointer.
use input.Secure.End.{text_of, auth_end}
use input.Auth.Status.{auth_user_cancel, auth_user_cancel_dont_hide, or_flag}
use input.Secure.{World, Host, auth_set_context, clear_fields, input_secure, auth_status}
use input.Auth.{
  Field, user_field, AuthInput, AuthContext, auth_tab, auth_backspace, auth_collect_key,
}
use input.Base.{
  ltb, ◌==◌, if◌then◌else◌, has_bit, ℤ, pos, negsuc, eqb_ℤ, is_zero, Event, ev_syn, ev_key, ev_rel,
  ev_abs, syn_report, ℕ, ◌-◌, ◌^◌, Bool, true, false, not, ◌&&◌, ◌||◌, Option, none, some, List, [],
  ◌∷◌,
}

abbrev pub key_esc : ℕ
key_esc = 1

abbrev pub key_backspace : ℕ
key_backspace = 14

abbrev pub key_tab : ℕ
key_tab = 15

abbrev pub key_enter : ℕ
key_enter = 28

abbrev pub key_space : ℕ
key_space = 57

abbrev pub btn_mouse : ℕ
btn_mouse = 0x110

abbrev pub flag_lock : ℕ
flag_lock = 0

abbrev pub flag_cannot_cancel : ℕ
flag_cannot_cancel = 4

abbrev pub with_fields : (AuthInput → AuthInput) → World → World
with_fields f w = record w { fields = f w.fields }

-- The keys by what they do.
pub data SecureKey : Type 0 where
  escape tab backspace enter plain : SecureKey

abbrev pub key_of : ℕ → SecureKey
key_of code =
    if code == key_esc
    then escape
    else if code == key_tab
    then tab
    else if code == key_backspace
    then backspace
    else if code == key_enter
    then enter
    else plain

-- What the outside says when a key comes: what the key stands for, whether shift is down, whether the
-- window's guest has the screen, and whether a binding took the key.
pub record Outside : Type 0 where
  pub ascii : ℤ
  pub shift : Bool
  pub focused : Bool
  pub bound : Bool

abbrev pub key_like : ℕ → ℤ → Event
key_like code value = record { type = ev_key; code = code; value = value }

abbrev pub is_user : Field → Bool
is_user user_field = true
is_user _ = false

-- Shift, control and alt, left and right.
abbrev pub is_modifier : ℕ → Bool
is_modifier code = code == 42 || code == 54 || code == 29 || code == 97 || code == 56 || code == 100

-- A key down and up for the window's guest: the key itself in the field of the user's name, a blank
-- otherwise.
abbrev pub shown_code : Outside → Field → ℕ → ℕ
shown_code o field code = if not (is_zero o.ascii) && not (is_user field) then key_space else code

abbrev pub plop : ℕ → List Event
plop code = key_like code (pos 1) ∷ key_like code (pos 0) ∷ []

abbrev pub is_key_down : Event → Bool
is_key_down e = eqb_ℤ e.value (pos 1)

abbrev pub is_locked : Option AuthContext → Bool
is_locked none = false
is_locked (some ctx) = has_bit flag_lock ctx.flags

-- What the window's guest is told, after the key was handled.
abbrev pub told_window : Outside → Event → Field → List Event
told_window o e field =
    if e.code == key_tab
    then []
    else if not (is_zero o.ascii) || e.code == key_backspace
    then (if is_key_down e then plop (shown_code o field e.code) else [])
    else if is_user field && is_modifier e.code
    then e ∷ []
    else []

module _ (host : Host) where
  abbrev pub switcher_lock : List ℕ → ℕ → Bool → World → World
  switcher_lock [] flags can_switch_out w = w
  switcher_lock (c ∷ cs) flags can_switch_out w =
      let flags' =
        or_flag flag_cannot_cancel (if can_switch_out then flags else or_flag flag_lock flags) in
      (input_secure host true (auth_set_context (record { user = c ∷ cs; flags = flags' }) w)).1

  abbrev pub clear_flag : ℕ → ℕ → ℕ
  clear_flag bit flags = if has_bit bit flags then flags - 2 ^ bit else flags

  abbrev pub force_in : Option AuthContext → List ℕ → ℕ → World → World
  force_in (some ctx) user flags w = (input_secure host true w).1
  force_in none [] flags w = w
  force_in none (c ∷ cs) flags w =
      let flags' = or_flag flag_cannot_cancel (clear_flag flag_lock flags) in
      (input_secure host true (auth_set_context (record { user = c ∷ cs; flags = flags' }) w)).1

  abbrev pub switcher_auth_force : List ℕ → ℕ → World → World
  switcher_auth_force user flags w = force_in w.context user flags w

  abbrev pub cancel : Option AuthContext → World → Option World
  cancel none w = none
  cancel (some ctx) w = some (
      clear_fields host (
        auth_status host
          (if has_bit flag_cannot_cancel ctx.flags
            then auth_user_cancel_dont_hide
            else auth_user_cancel)
          0 w))

  abbrev pub key_down : SecureKey → Outside → World → Option World
  key_down escape o w = cancel w.context w
  key_down tab o w = some (with_fields (auth_tab w.context (if o.shift then negsuc 0 else pos 1)) w)
  key_down backspace o w = some (with_fields (λ f. auth_backspace f.current_field f) w)
  key_down enter o w =
      let f = w.fields in
      some (
        clear_fields host
          (auth_end host f.username (text_of f.passwd) f.passwd_confirm f.passwd_previous w))
  key_down plain o w = some (
      if is_zero o.ascii
      then w
      else with_fields (λ f. auth_collect_key f.current_field o.ascii f) w)

  abbrev pub then_tell : Outside → Event → Option World → Option (List Event × World)
  then_tell o e none = none
  then_tell o e (some w) = some (told_window o e w.fields.current_field, w)

  unfoldable pub secure_key : Outside → Event → World → Option (List Event × World)
  unfolding auth_status auth_end auth_tab auth_backspace auth_collect_key
  secure_key o e w = then_tell o e (if is_key_down e then key_down (key_of e.code) o w else some w)

  abbrev pub is_motion : Event → Bool
  is_motion e = e.type == ev_rel || e.type == ev_abs || (e.type == ev_syn && e.code == syn_report)

  abbrev pub dropped : Option (List Event × World) → Option (Bool × List Event × World)
  dropped none = none
  dropped (some (es, w)) = some (true, es, w)

  -- Whether the event is dropped, and what is injected in its place.
  unfoldable pub input_secure_mode : Outside → Event → World → Option (Bool × List Event × World)
  unfolding secure_key
  input_secure_mode o e w =
      if not (w.secure_mode && o.focused) || is_motion e
      then some (false, [], w)
      else if not (is_locked w.context) && o.bound
      then some (true, [], w)
      else if e.type == ev_key && ltb e.code btn_mouse
      then dropped (secure_key o e w)
      else some (true, [], w)
