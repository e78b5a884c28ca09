-- ===== src/Routing/Filter.antt =====
-- input.c: the keys of a domain whose keyboard is diverted, `filter_keys` and `send_keypair`, and the way
-- of a key through `input_inject`.
use input.Routing.Seamless.{input_inject_seamless_keyboard, input_inject_seamless_mouse}
use input.Routing.{KeyPair, Diversion, Router, key_release, or_else, send_key_to}
use input.Base.{
  ◌==◌, if◌then◌else◌, pos, is_zero, Event, ev_key, ℕ, suc, ◌+◌, ◌-◌, ◌/◌, ◌%◌, ◌^◌, Bool, true,
  false, not, ◌&&◌, Option, none, some, List, [], ◌∷◌, ◌++◌, map,
}

-- The modifiers of a mask, from a bit on.
abbrev pub held_modifiers : ℕ → ℕ → List ℕ → List ℕ
held_modifiers mask n [] = []
held_modifiers mask n (code ∷ codes) =
    if (mask / 2 ^ n) % 2 == 1
    then code ∷ held_modifiers mask (suc n) codes
    else held_modifiers mask (suc n) codes

abbrev pub key_press : ℕ → Event
key_press code = record { type = ev_key; code = code; value = pos 1 }

unfoldable pub send_keypair : KeyPair → List ℕ → List Event
send_keypair key modifers =
    let codes = held_modifiers key.mod_bits 0 modifers in
    map key_press codes ++ key_press key.keycode ∷ key_release key.keycode ∷ map key_release codes

abbrev pub set_modifier : ℕ → Bool → ℕ → ℕ
set_modifier n down mask =
    if (mask / 2 ^ n) % 2 == 1
    then (if down then mask else mask - 2 ^ n)
    else if down
    then mask + 2 ^ n
    else mask

-- The first modifier with the event's code is tracked.
abbrev pub track_modifier : Event → ℕ → List ℕ → ℕ → ℕ
track_modifier e n [] mask = mask
track_modifier e n (code ∷ codes) mask =
    if code == e.code
    then set_modifier n (not (is_zero e.value)) mask
    else track_modifier e (suc n) codes mask

abbrev pub find_pair : ℕ → ℕ → List KeyPair → Option KeyPair
find_pair code mask [] = none
find_pair code mask (key ∷ keys) =
    if key.keycode == code && key.mod_bits == mask then some key else find_pair code mask keys

abbrev pub send_all_to : ℕ → List Event → Router → Router
send_all_to k es r = record r { sent = r.sent ++ map (λ e. (k, e)) es }

abbrev pub pair_found : ℕ → Event → List ℕ → Option KeyPair → Router → Bool × Router
pair_found parent e modifers none r = (false, r)
pair_found parent e modifers (some key) r =
    (true, if is_zero e.value then r else send_all_to parent (send_keypair key modifers) r)

abbrev pub filter_for : ℕ → Event → List ℕ → Option (List KeyPair) → Router → Bool × Router
filter_for parent e modifers none r = (false, r)
filter_for parent e modifers (some keys) r =
    let mask = track_modifier e 0 modifers r.keyb_modbits in
    pair_found parent e modifers (find_pair e.code mask keys) (record r { keyb_modbits = mask })

abbrev pub filter_in : ℕ → Event → Option Diversion → Router → Bool × Router
filter_in parent e none r = (false, r)
filter_in parent e (some dv) r = filter_for parent e dv.modifers dv.keylist r

abbrev pub filter_of : Option ℕ → Event → Router → Bool × Router
filter_of none e r = (false, r)
filter_of (some parent) e r = filter_in parent e (r.divert_info parent) r

-- Whether the key is taken, and the router after that.
unfoldable pub filter_keys : Event → Router → Bool × Router
unfolding send_keypair
filter_keys e r = if e.type == ev_key then filter_of r.keyb_parent e r else (false, r)

-- The keyboard and the mouse are at two domains, and no click is waited for.
abbrev pub is_seamless : Option ℕ → Option ℕ → Bool → Bool
is_seamless none mouse waits = false
is_seamless (some k) none waits = false
is_seamless (some k) (some m) waits = not (k == m) && not waits

abbrev pub send_seamless : Event → Router → Router
send_seamless e r =
    let r' =
      if input_inject_seamless_keyboard e r.key_status then send_key_to r.keyb_dest e r else r in
    if input_inject_seamless_mouse e r.key_status then send_key_to r.mouse_dest e r' else r'

abbrev pub send_untaken : Event → Router → Router
send_untaken e r =
    if is_seamless r.keyb_dest r.mouse_dest r.keyb_waits_for_click
    then send_seamless e r
    else send_key_to (or_else r.keyb_dest r.mouse_dest) e r

-- A key that is neither print screen nor the switch of the video mode.
unfoldable pub inject_key : Event → Router → Router
unfolding filter_keys input_inject_seamless_keyboard input_inject_seamless_mouse
inject_key e r = let (taken, r') = filter_keys e r in if taken then r' else send_untaken e r'
