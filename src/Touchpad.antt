-- ===== src/Touchpad.antt =====
-- touchpad.c: how the packets of a touchpad are put together, its taps, drags and buttons. The statics
-- are the record `Pad`. What is sent by `check_and_inject_event` is the list of the events. The
-- scrolling and the motion of the pointer are arithmetic on `double` and are left out with the state
-- that only they use: the history of moves, the time of a packet, `frac_x` and `frac_y`. The two tests of
-- the pressure against a share of its range, on `double` too, are parameters.
pub mod Taps
pub mod Clicks
pub mod Balance
pub mod Stuck
pub mod Drag
pub mod Clickpad
pub mod Packets
pub mod Buttons
use input.Base.{
  ltb, if◌then◌else◌, ℤ, pos, ltb_ℤ, eqb_ℤ, is_zero, Event, ev_syn, ev_key, syn_report, btn_left, ℕ,
  ◌+◌, ◌-◌, Bool, true, false, not, ◌&&◌, ◌||◌, List, [], ◌∷◌,
}

abbrev pub btn_task : ℕ
btn_task = 0x117

abbrev pub abs_pressure : ℕ
abs_pressure = 0x18

pub data TapState : Type 0 where
  ts_start : TapState
  ts_touch : TapState
  ts_move : TapState
  ts_single_tap_pending : TapState
  ts_possible_drag : TapState
  ts_drag : TapState

-- The bits of `enum edge_type`.
pub record Edges : Type 0 where
  pub right_edge : Bool
  pub bottom_edge : Bool
  pub top_edge : Bool

pub record Packet : Type 0 where
  pub x : ℤ
  pub y : ℤ
  pub pressure : ℤ
  pub button_mask : ℕ
  pub btn_touch : ℤ
  pub fingertouching : Bool

pub record Limits : Type 0 where
  pub minx : ℤ
  pub maxx : ℤ
  pub miny : ℤ
  pub maxy : ℤ
  pub min_pressure : ℤ
  pub max_pressure : ℤ
  pub right_edge : ℤ
  pub bottom_edge : ℤ
  pub top_edge : ℤ
  pub tap_move : ℤ
  pub no_x : ℤ
  pub no_y : ℤ
  pub no_pressure : ℤ
  pub is_clickpad : Bool
  pub clickpad_left_button_maxx : ℤ
  pub is_clickpad_pressed : Bool

-- `struct touchpad_state` and the statics inside the functions; `left_click_timer` is whether the timer
-- runs, `finger` is the static of `detect_finger`.
pub record Pad : Type 0 where
  pub last_x : ℤ
  pub last_y : ℤ
  pub last_fingertouching : Bool
  pub tapstate : TapState
  pub touch_on_x : ℤ
  pub touch_on_y : ℤ
  pub touch_on_edge : Edges
  pub left_click_timer : Bool
  pub finger : Bool
  pub button_down_x : ℤ
  pub touchpad_off : Bool
  pub limits : Limits
  pub tap_to_click_enabled : Bool

unfoldable pub reset_touchpad_packet : Limits → Packet → Packet
reset_touchpad_packet tl tp = record tp {
  x = tl.no_x;
  y = tl.no_y;
  pressure = tl.no_pressure;
  button_mask = 0;
  fingertouching = false;
}

unfoldable pub detect_edge : ℤ → ℤ → Limits → Edges
detect_edge x y tl = record {
  right_edge = ltb_ℤ tl.right_edge x;
  bottom_edge = ltb_ℤ tl.bottom_edge y;
  top_edge = not (ltb_ℤ tl.bottom_edge y) && ltb_ℤ y tl.top_edge;
}

-- Whether a finger touches, from the pressure: `above` and `below` are the tests against its range.
unfoldable pub detect_finger :
    (Limits → ℤ → Bool) → (Limits → ℤ → Bool) → Packet → Limits → Bool → Bool
detect_finger above below tp tl finger =
    if eqb_ℤ tl.max_pressure tl.min_pressure
    then not (is_zero tp.btn_touch)
    else if eqb_ℤ tp.pressure tl.no_pressure
    then finger
    else if finger
    then not (below tl tp.pressure)
    else above tl tp.pressure

abbrev pub key_event : ℕ → ℤ → Event
key_event code value = record { type = ev_key; code = code; value = value }

abbrev pub sync : Event
sync = record { type = ev_syn; code = syn_report; value = pos 0 }

unfoldable pub event_button_change : ℕ → ℤ → List Event
event_button_change button value =
    if ltb button 1 || ltb (btn_task - btn_left) button
    then []
    else key_event (button + btn_left - 1) value ∷ sync ∷ []

abbrev pub button_down : List Event
button_down = event_button_change 1 (pos 1)

abbrev pub button_up : List Event
button_up = event_button_change 1 (pos 0)

abbrev pub value_or : ℤ → ℤ → ℤ → ℤ
value_or value none_there last = if eqb_ℤ value none_there then last else value

unfoldable pub init_touchpad_state : Pad → Pad
init_touchpad_state ts = record ts {
  last_x = pos 0;
  last_y = pos 0;
  last_fingertouching = false;
  tapstate = ts_start;
  touchpad_off = false;
}

unfoldable pub toggle_touchpad_status : Pad → Pad
unfolding init_touchpad_state
toggle_touchpad_status ts =
    if ts.touchpad_off then init_touchpad_state ts else record ts { touchpad_off = true }
