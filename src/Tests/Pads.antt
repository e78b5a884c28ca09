-- ===== src/Tests/Pads.antt =====
-- The theorems about the touchpad at concrete inputs.
use input.Touchpad.Clicks.{handle_clickpad}
use input.Touchpad.Taps.{handle_gestures}
use input.Tablet.{btn_right}
use input.Touchpad.Clickpad.{click_of, clickpad_click}
use input.Touchpad.Stuck.{first_change, toggle_loses_release}
use input.Touchpad.Packets.{save_previous_packet_values, Assembly}
use input.Touchpad.Drag.{ready, on, off, tap_then_drag}
use input.Base.{
  ℤ, pos, negsuc, ℕ, ◌≡◌, refl, ◌≢◌, Bool, true, false, some, List, [], ◌∷◌, ◌++◌, map,
}
use input.Touchpad.{
  ts_start, Edges, Packet, Limits, Pad, button_down, button_up, init_touchpad_state,
  toggle_touchpad_status,
}
use input.Touchpad.Balance.{held_after, Input, step, play, is_drag, play-Ends}

abbrev limits : Limits
limits = record {
  minx = pos 0;
  maxx = pos 1000;
  miny = pos 0;
  maxy = pos 500;
  min_pressure = pos 0;
  max_pressure = pos 255;
  right_edge = pos 800;
  bottom_edge = pos 400;
  top_edge = pos 100;
  tap_move = pos 20;
  no_x = negsuc 0;
  no_y = negsuc 0;
  no_pressure = negsuc 0;
  is_clickpad = false;
  clickpad_left_button_maxx = pos 500;
  is_clickpad_pressed = false;
}

abbrev pad : Pad
pad = record {
  last_x = pos 0;
  last_y = pos 0;
  last_fingertouching = false;
  tapstate = ts_start;
  touch_on_x = pos 0;
  touch_on_y = pos 0;
  touch_on_edge = record { right_edge = false; bottom_edge = false; top_edge = false };
  left_click_timer = false;
  finger = false;
  button_down_x = negsuc 0;
  touchpad_off = false;
  limits = limits;
  tap_to_click_enabled = true;
}

abbrev at_x : ℕ → Packet
at_x x = record {
  x = pos x;
  y = pos 200;
  pressure = pos 100;
  button_mask = 0;
  btn_touch = pos 1;
  fingertouching = true;
}

-- A tap, and a drag that has begun.
abbrev drag_begun : List Input
drag_begun = on (at_x 300) ∷ off (at_x 300) ∷ on (at_x 300) ∷ on (at_x 350) ∷ []

abbrev on_bottom : Edges
on_bottom = record { right_edge = false; bottom_edge = true; top_edge = false }

play-Ends_example :
    held_after false (play drag_begun pad).0 ≡ some (is_drag (play drag_begun pad).1.tapstate)
play-Ends_example = play-Ends drag_begun pad

toggle_loses_release_example :
    let before = play drag_begun (init_touchpad_state pad) in
    (held_after false before.0 ≡ some true)
    × (first_change
          (play (off (at_x 350) ∷ []) (toggle_touchpad_status (toggle_touchpad_status before.1))).0
        ≢ some false)
unfolding play step handle_gestures save_previous_packet_values init_touchpad_state
toggle_loses_release_example = toggle_loses_release drag_begun (off (at_x 350) ∷ []) pad refl refl

tap_then_drag_example :
    (play
      (on (at_x 300)
        ∷ off (at_x 300)
        ∷ on (at_x 300)
        ∷ on (at_x 350)
        ∷ (map on (at_x 360 ∷ []) ++ off (at_x 370) ∷ []))
      (ready pad)).0
    ≡ button_down ++ button_up
tap_then_drag_example =
    tap_then_drag (at_x 300) (at_x 300) (at_x 300) (at_x 350) (at_x 370) (at_x 360 ∷ []) pad refl

clickpad_click_example :
    let pressed = handle_clickpad on_bottom (record (at_x 600) { button_mask = 1 }) pad in
    let released = handle_clickpad on_bottom (record (at_x 100) { button_mask = 2 }) pressed.1 in
    (pressed.0 ++ released.0 ≡ click_of btn_right) × (released.1.limits.is_clickpad_pressed ≡ false)
clickpad_click_example = clickpad_click (at_x 600) (at_x 100) on_bottom on_bottom pad refl refl

abbrev switched_off : Assembly
switched_off = record {
  packet = at_x 0;
  sync_recd = true;
  pad = record pad { touchpad_off = true };
}

abbrev never : Limits → ℤ → Bool
never tl p = false
