-- ===== src/Tests.antt =====
-- The theorems at concrete inputs.
pub mod Connection
pub mod Pads
pub mod Routes
pub mod Sessions
pub mod Devices
use native.Mathlib.Omega.{arith}
use input.Base.{
  ◌>>=◌, length, ℤ, pos, negsuc, Event, ev_key, ev_abs, abs_mt_tracking_id, ℕ, ◌+◌, ◌≤◌, ◌≡◌, refl,
  true, false, none, some, List, [], ◌∷◌, ◌++◌, reverse, arith,
}
use input.Multitouch.{send_left, Touch, initial, sync_event, send_pv}
use input.Multitouch.Laws.{IsSettled, send_pv_total}
use input.MouseButtons.{max_num_pressed, MouseButton, find, check_mouse_keys, Frame}
use input.MouseButtons.Laws.{check_mouse_keys_bounded, press-release}
use input.Bindings.{Binding, exec}
use input.Bindings.Sequence.{heard}
use input.Bindings.Soundness.{history, listen, exec_sound}
use input.Bindings.Completeness.{is_some, type_keys, exec_complete}
use input.Gesture.{
  left, right, running, goleft, Finger, switch_right, Gestures, position_match, cursor, at_start,
}
use input.Gesture.Handler.{released, touched, gestures, glist, gesture_handler}
use input.Gesture.Bounds.{IsValid}
use input.Gesture.Overrun.{any_overruns}
use input.Gesture.Crosses.{Early, gesture_handler_overrun}
use input.Gesture.Swipe.{Tap, IsAt, match_tap, swipe_recognised}
use input.Socket.{receive}
use input.Socket.Chunks.{receive-append}
use input.Auth.{pass_field, AuthInput, AuthContext, auth_get_field, auth_current_tab_order}
use input.Auth.Typing.{bytes_of}
use input.Auth.Tabbing.{IsListed}
use input.Auth.Utf16.{utf8_to_utf16le, utf8_to_utf16le_latin}
use input.Gesture.Fingers.{Tracker}
use input.Tablet.{btn_tool_finger, newly_pressed, Tablet}

-- A finger comes down, and has reported so.
abbrev pressing : Touch
pressing = record initial { deferpressed = send_left; pressed = true; had_slot0 = true }

pressing-IsSettled : IsSettled pressing
pressing-IsSettled = record { idle = refl; down_agrees = λ h. refl; up_agrees = λ h. ground arith }

send_pv_total_example :
    (t' : Touch) × (out : List Event) × (send_pv (0 + 3) sync_event pressing [] ≡ some (t', out))
    × IsSettled t'
send_pv_total_example = send_pv_total sync_event pressing [] 0 pressing-IsSettled

abbrev button_event : ℤ → Event
button_event v = record { type = ev_key; code = 0x110; value = v }

abbrev other_button : MouseButton
other_button = record { code = 0x111; domain = 2; slot = pos 3; x = 10; y = 20 }

check_mouse_keys_bounded_example :
    length (check_mouse_keys 1 (pos 3) 10 20 (button_event (pos 1)) (other_button ∷ [])).pressed
    ≤ max_num_pressed
check_mouse_keys_bounded_example =
    check_mouse_keys_bounded 1 (pos 3) 10 20 (button_event (pos 1)) (other_button ∷ [])
      (omega arith)

not_held : find 0x110 (pos 3) (other_button ∷ []) ≡ none
unfolding find
not_held = refl

press-release_example :
    let first = check_mouse_keys 1 (pos 3) 10 20 (button_event (pos 1)) (other_button ∷ []) in
    (first.redirected ≡ false)
    × (first.sent ≡ [])
    × (check_mouse_keys 2 (pos 3) 11 21 (button_event (pos 0)) first.pressed ≡ record {
      pressed = other_button ∷ [];
      sent = record { domain = 1; slot = pos 3; event = button_event (pos 0) } ∷ [];
      redirected = true;
    })
press-release_example =
    press-release 1 2 (pos 3) 10 20 11 21 (button_event (pos 1)) (button_event (pos 0))
      (other_button ∷ []) (omega arith) (omega arith) refl refl refl (omega arith) not_held
      (omega arith)

abbrev frame : Frame
frame = record { x1 = 0; x2 = 100; y1 = 0; y2 = 100 }

-- Control and C.
abbrev copy : Binding ℕ
copy = record {
  binding = 29 ∷ 46 ∷ [];
  cb = some 0;
  force_cb = none;
  matched = 0;
  down = false;
  force_ticks = 0;
}

abbrev key : ℕ → ℤ → Event
key c v = record { type = ev_key; code = c; value = v }

abbrev before_copy : List Event
before_copy = key 30 (pos 1) ∷ key 30 (pos 0) ∷ key 29 (pos 1) ∷ []

copied : (exec (key 46 (pos 1)) (listen before_copy (copy ∷ []))).0 ≡ some copy
unfolding exec
copied = refl

exec_sound_example :
    (before : List ℕ) × (heard (key 46 (pos 1)) (history before_copy [])
      ≡ reverse copy.binding ++ before)
exec_sound_example = exec_sound before_copy (key 46 (pos 1)) (copy ∷ []) copy (refl, tt) copied

exec_complete_example : is_some (type_keys (29 ∷ []) 46 (copy ∷ [])).0 ≡ true
exec_complete_example =
    exec_complete 0 (29 ∷ []) 46 (copy ∷ []) copy refl refl refl (omega arith, tt) (omega arith)

abbrev held_down : Binding ℕ
held_down = record copy { down = true }

abbrev untouched : Finger
untouched = record { last_x = pos 0; last_y = pos 0 }

abbrev at_rest : Gestures
at_rest = record {
  runstate = running;
  fingers = untouched ∷ untouched ∷ untouched ∷ [];
  goleft_at = at_start;
  goright_at = at_start;
  goup_at = at_start;
  cross_l_at = at_start;
  cross_r_at = at_start;
  commands = [];
}

-- The first half of a cross has been drawn.
abbrev half_crossed : Gestures
half_crossed = record at_rest { cross_l_at = record { act = 0; sub_act = 1 } }

at_rest-IsValid : IsValid at_rest
at_rest-IsValid = record {
  three_fingers = refl;
  goleft_in = (refl, omega arith);
  goright_in = (refl, omega arith);
  goup_in = (refl, omega arith);
  cross_l_in = (refl, omega arith);
  cross_r_in = (refl, omega arith);
}

half_crossed-IsValid : IsValid half_crossed
half_crossed-IsValid = record {
  three_fingers = refl;
  goleft_in = (refl, omega arith);
  goright_in = (refl, omega arith);
  goup_in = (refl, omega arith);
  cross_l_in = (refl, omega arith);
  cross_r_in = (refl, omega arith);
}

any_overruns-none : any_overruns (glist running) (pos 1) (pos 1) touched at_rest ≡ false
unfolding cursor
any_overruns-none = refl

half_crossed-Early : Early (glist running) half_crossed
unfolding cursor
half_crossed-Early = (omega arith, (omega arith, (omega arith, (omega arith, (omega arith, tt)))))

half_crossed_overruns :
    any_overruns (glist running) (pos 32000) (pos 32000) released half_crossed ≡ true
unfolding cursor position_match
half_crossed_overruns = refl

gesture_handler_overrun_example :
    gesture_handler 0 (pos 32000) (pos 32000) released half_crossed ≡ none
gesture_handler_overrun_example =
    gesture_handler_overrun 0 (pos 32000) (pos 32000) released half_crossed half_crossed-IsValid
      (omega arith) (λ e. ground arith) half_crossed-Early half_crossed_overruns

abbrev right_tap : Tap
right_tap = record { slot = 0; x = pos 32000; y = pos 16000 }

abbrev left_tap : Tap
left_tap = record { slot = 1; x = pos 10; y = pos 16000 }

right_tap-IsAt : IsAt right right_tap
unfolding position_match
right_tap-IsAt = (omega arith, refl)

left_tap-IsAt : IsAt left left_tap
unfolding position_match
left_tap-IsAt = (omega arith, refl)

starts : cursor goleft at_rest ≡ at_start
unfolding cursor
starts = refl

swipe_recognised_example :
    (t : Gestures) × ((match_tap goleft true right_tap at_rest >>= λ m.
    match_tap goleft true right_tap m.state >>= λ m.
    match_tap goleft false left_tap m.state >>= λ m. match_tap goleft false left_tap m.state)
      ≡ some (record { found = true; tracked = 0; state = t }))
    × (cursor goleft t ≡ at_start)
    × (t.commands ≡ switch_right ∷ [])
swipe_recognised_example =
    swipe_recognised goleft at_rest right_tap right_tap left_tap left_tap refl at_rest-IsValid
      starts right_tap-IsAt right_tap-IsAt left_tap-IsAt left_tap-IsAt

-- A record and a byte of junk.
abbrev bytes : List ℕ
bytes = 0 ∷ 0xE9 ∷ 0xBC ∷ 0x9C ∷ 0xAD ∷ 1 ∷ 0 ∷ 16 ∷ 1 ∷ 1 ∷ 0 ∷ 0 ∷ 0 ∷ []

receive-append_example : receive (0xE9 ∷ []) (bytes ++ bytes) ≡ (
  (receive (0xE9 ∷ []) bytes).0 ++ (receive (receive (0xE9 ∷ []) bytes).1 bytes).0,
  (receive (receive (0xE9 ∷ []) bytes).1 bytes).1,
)
receive-append_example = receive-append (0xE9 ∷ []) bytes bytes

abbrev empty_fields : AuthInput
empty_fields = record {
  cursor = 0;
  passwd = some [];
  passwd_confirm = some [];
  passwd_previous = some [];
  username = some [];
  current_field = pass_field;
  collect_password = true;
}

passwd_empty : auth_get_field pass_field empty_fields ≡ some []
unfolding auth_get_field
passwd_empty = refl

-- "a", then a Latin-1 letter.
abbrev keys : List ℤ
keys = pos 97 ∷ negsuc 22 ∷ []

utf8_to_utf16le_latin_example : utf8_to_utf16le (bytes_of keys) ≡ 97 ∷ 0 ∷ 233 ∷ 0 ∷ []
utf8_to_utf16le_latin_example = utf8_to_utf16le_latin keys (omega arith, (omega arith, tt))

-- The user chooses a new password: it is confirmed.
abbrev new_password : AuthContext
new_password = record { user = []; flags = 2 }

is_listed : IsListed (some new_password) pass_field
unfolding auth_current_tab_order
is_listed = tt

-- A tablet whose driver has just been set up, and one that lost events.
abbrev new_tracker : Tracker
new_tracker = record {
  silence = false;
  go_silent = false;
  track_id = negsuc 0 ∷ negsuc 0 ∷ negsuc 0 ∷ [];
  xs = negsuc 0 ∷ negsuc 0 ∷ negsuc 0 ∷ [];
  ys = negsuc 0 ∷ negsuc 0 ∷ negsuc 0 ∷ [];
  slot = negsuc 0;
  distance = 0;
  track_change = false;
  gestures = at_rest;
}

abbrev lossy : Tablet
lossy = record {
  pen_inrange = false;
  monotouch = false;
  btnleft = newly_pressed;
  tool = btn_tool_finger;
  ignore = true;
  tracker = new_tracker;
}

abbrev first_contact : Event
first_contact = record { type = ev_abs; code = abs_mt_tracking_id; value = pos 7 }
