-- ===== src/Routing.antt =====
-- input.c and encapsulate.c: which domain has the keyboard and which has the mouse. The statics are the
-- record `Router`, with the table of domains of domains.c; a domain is its index in it. `sent` is what
-- `input_send` got, the newest last, without the slot, which is INPUTSLOT_DEFAULT. The model is of a
-- host that restores num lock on a switch, so `turn_numlock_off` is not called; the grab of the
-- devices, the LEDs and the signal of a change of focus are output and left out.
pub mod Seamless
pub mod Filter
pub mod Previous
pub mod Gone
pub mod Silence
pub mod Ops
pub mod Remembered
pub mod Typed
pub mod Runs
pub mod Keys
pub mod Return
use input.MouseButtons.{MouseButton, forget_domain}
use input.Domains.{Domain}
use input.Base.{
  ◌==◌, if◌then◌else◌, pos, is_zero, Event, ev_key, ℕ, zero, suc, Bool, true, false, not, ◌&&◌,
  ◌||◌, Option, none, some, List, [], ◌∷◌, ◌++◌, map,
}

-- `struct keypairs`
pub record KeyPair : Type 0 where
  pub mod_bits : ℕ
  pub keycode : ℕ

-- `modifers` is without its length, `keylist` is `none` for the null pointer.
pub record Diversion : Type 0 where
  pub modifers : List ℕ
  pub keylist : Option (List KeyPair)
  pub key_domain : Option ℕ
  pub mouse_domain : Option ℕ

pub record Router : Type 0 where
  pub keyb_dest : Option ℕ
  pub keyb_parent : Option ℕ
  pub mouse_dest : Option ℕ
  pub mouse_parent : Option ℕ
  pub keyb_waits_for_click : Bool
  pub keyb_modbits : ℕ
  pub key_status : List Bool
  pub mouse_pressed : List MouseButton
  pub domains : List Domain
  pub divert_info : ℕ → Option Diversion
  pub sent : List (ℕ × Event)

abbrev pub points_to : Option ℕ → ℕ → Bool
points_to none i = false
points_to (some j) i = j == i

abbrev pub same_domain : Option ℕ → Option ℕ → Bool
same_domain none none = true
same_domain none (some j) = false
same_domain (some i) o = points_to o i

-- A pointer, unless it is to the domain that is gone.
abbrev pub unless_gone : ℕ → Option ℕ → Option ℕ
unless_gone i o = if points_to o i then none else o

-- A destination is lost with its domain and with the domain that it was diverted from.
abbrev pub lost_with : ℕ → Option ℕ → Option ℕ → Option ℕ
lost_with i parent dest = if points_to parent i then none else unless_gone i dest

unfoldable pub input_domain_gone : ℕ → Router → Router
input_domain_gone i r = record r {
  mouse_dest = lost_with i r.mouse_parent r.mouse_dest;
  keyb_dest = lost_with i r.keyb_parent r.keyb_dest;
  keyb_parent = unless_gone i r.keyb_parent;
  mouse_parent = unless_gone i r.mouse_parent;
  mouse_pressed = forget_domain i r.mouse_pressed;
}

unfoldable pub divert_domain_gone : ℕ → Diversion → Diversion
divert_domain_gone i dv = record dv {
  key_domain = unless_gone i dv.key_domain;
  mouse_domain = unless_gone i dv.mouse_domain;
}

unfoldable pub check_diverts_for_the_dead : ℕ → Router → Router
check_diverts_for_the_dead i r = record r {
  divert_info =
      λ j. elim (r.divert_info j) [ none ↦ none | some dv ↦ some (divert_domain_gone i dv) ];
}

abbrev pub key_release : ℕ → Event
key_release code = record { type = ev_key; code = code; value = pos 0 }

-- Who is told that a key is up: the keyboard's domain, and the mouse's if it is another.
abbrev pub reset_targets : Bool → ℕ → Option ℕ → List ℕ
reset_targets reset_mouse k none = k ∷ []
reset_targets reset_mouse k (some m) = if reset_mouse && not (k == m) then k ∷ m ∷ [] else k ∷ []

abbrev pub told : List ℕ → Event → List (ℕ × Event)
told targets e = map (λ t. (t, e)) targets

-- The keys that are down, from the code on.
unfoldable pub reset_loop : List ℕ → ℕ → List Bool → List (ℕ × Event)
reset_loop targets code [] = []
reset_loop targets code (true ∷ keys) =
    told targets (key_release code) ++ reset_loop targets (suc code) keys
reset_loop targets code (false ∷ keys) = reset_loop targets (suc code) keys

abbrev pub all_up : List Bool → List Bool
all_up = map (λ b. false)

abbrev pub reset_for : Bool → Option ℕ → Router → Router
reset_for reset_mouse none r = r
reset_for reset_mouse (some k) r = record r {
  key_status = all_up r.key_status;
  sent = r.sent ++ reset_loop (reset_targets reset_mouse k r.mouse_dest) 0 r.key_status;
}

unfoldable pub input_keyboard_reset : Bool → Router → Router
unfolding reset_loop
input_keyboard_reset reset_mouse r = reset_for reset_mouse r.keyb_dest r

abbrev pub take_keyboard : Option ℕ → Router → Router
take_keyboard d r = record r { keyb_dest = d; keyb_parent = none; keyb_modbits = 0 }

abbrev pub other_than : Option ℕ → ℕ → Bool
other_than none i = false
other_than (some j) i = not (j == i)

-- For a domain whose keyboard may be diverted to another.
abbrev pub kbd_diverted : ℕ → Option ℕ → Option ℕ → Router → Router
kbd_diverted i (some k) m r = record r {
  keyb_parent = some i;
  keyb_modbits = 0;
  keyb_dest = some k;
  keyb_waits_for_click = true;
}
kbd_diverted i none m r = record (take_keyboard (some i) r) {
  keyb_waits_for_click = other_than m i || r.keyb_waits_for_click;
}

abbrev pub kbd_domain : ℕ → Option Diversion → Router → Router
kbd_domain i none r = take_keyboard (some i) r
kbd_domain i (some dv) r = kbd_diverted i dv.key_domain dv.mouse_domain r

unfoldable pub set_kbd_domain : ℕ → Router → Router
set_kbd_domain i r = kbd_domain i (r.divert_info i) r

abbrev pub take_mouse : ℕ → Router → Router
take_mouse i r = record r { mouse_dest = some i; mouse_parent = none }

abbrev pub mouse_diverted : ℕ → Option ℕ → Router → Router
mouse_diverted i (some m) r = record r {
  mouse_dest = some m;
  mouse_parent = some i;
  keyb_waits_for_click = true;
}
mouse_diverted i none r = take_mouse i r

abbrev pub mouse_domain_of : ℕ → Option Diversion → Router → Router
mouse_domain_of i none r = take_mouse i r
mouse_domain_of i (some dv) r = mouse_diverted i dv.mouse_domain r

unfoldable pub set_mouse_domain : ℕ → Router → Router
set_mouse_domain i r = mouse_domain_of i (r.divert_info i) r

unfoldable pub input_set_mouse : ℕ → Router → Router
unfolding set_mouse_domain
input_set_mouse i r =
    set_mouse_domain i
      (record r { keyb_waits_for_click = not (r.keyb_waits_for_click && points_to r.keyb_dest i) })

abbrev pub no_wait : Router → Router
no_wait r = record r { keyb_waits_for_click = false }

unfoldable pub input_set_keyb : ℕ → Router → Router
unfolding input_keyboard_reset set_kbd_domain
input_set_keyb i r = set_kbd_domain i (no_wait (input_keyboard_reset false r))

unfoldable pub input_set : ℕ → Router → Router
unfolding input_keyboard_reset set_kbd_domain set_mouse_domain
input_set i r = set_kbd_domain i (set_mouse_domain i (no_wait (input_keyboard_reset true r)))

-- The keyboard leaves a domain that has not got the mouse.
abbrev pub leave : Router → Router
leave r = if same_domain r.keyb_dest r.mouse_dest then r else input_keyboard_reset false r

unfoldable pub input_give_keyboard : Option ℕ → Router → Router
unfolding input_keyboard_reset
input_give_keyboard d r = if same_domain d r.keyb_dest then r else take_keyboard d (leave r)

unfoldable pub input_return_keyboard : Option ℕ → Router → Router
unfolding input_keyboard_reset
input_return_keyboard d r =
    if same_domain d r.keyb_dest then take_keyboard r.mouse_dest (leave r) else r

abbrev pub set_key : ℕ → Bool → List Bool → List Bool
set_key code down [] = []
set_key zero down (b ∷ keys) = down ∷ keys
set_key (suc code) down (b ∷ keys) = b ∷ set_key code down keys

-- `key_status` has 256 entries, and `set_key` does nothing past its end.
unfoldable pub input_keys_status : Event → Router → Router
input_keys_status e r =
    if e.type == ev_key
    then record r { key_status = set_key e.code (not (is_zero e.value)) r.key_status }
    else r

abbrev pub or_else : Option ℕ → Option ℕ → Option ℕ
or_else none other = other
or_else (some k) other = some k

abbrev pub send_key_to : Option ℕ → Event → Router → Router
send_key_to none e r = r
send_key_to (some k) e r = record r { sent = r.sent ++ (k, e) ∷ [] }
