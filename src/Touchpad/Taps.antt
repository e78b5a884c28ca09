-- ===== src/Touchpad/Taps.antt =====
-- touchpad.c, `handle_gestures`: taps and drags, with the timer that clicks after a tap.
use input.Base.{
  if◌then◌else◌, ℤ, pos, ◌-ℤ◌, ltb_ℤ, eqb_ℤ, abs, Event, Bool, true, false, not, ◌&&◌, ◌||◌, List,
  [], ◌++◌,
}
use input.Touchpad.{
  TapState, ts_start, ts_touch, ts_move, ts_single_tap_pending, ts_possible_drag, ts_drag, Packet,
  Pad, detect_edge, event_button_change, button_down, button_up, value_or,
}

abbrev pub tap_state : TapState → Pad → Pad
tap_state t ts = record ts { tapstate = t }

abbrev pub pending_click : TapState → Pad → List Event × Pad
pending_click ts_single_tap_pending ts = (button_down ++ button_up, tap_state ts_start ts)
pending_click _ ts = ([], ts)

-- The timer has run out.
unfoldable pub send_left_click_event : Pad → List Event × Pad
unfolding event_button_change
send_left_click_event ts =
    let (es, ts') = pending_click ts.tapstate ts in (es, record ts' { left_click_timer = false })

abbrev pub set_left_click_timer : Pad → Pad
set_left_click_timer ts = record ts { left_click_timer = true }

abbrev pub delete_left_click_timer : Pad → Pad
delete_left_click_timer ts = record ts { left_click_timer = false }

-- How far the finger is from where it came down.
abbrev pub strays : ℤ → ℤ → ℤ → ℤ → Bool
strays value none_there from tap_move =
    not (eqb_ℤ value none_there) && not (ltb_ℤ (pos (abs (value -ℤ from))) tap_move)

abbrev pub remember_touch : Packet → Pad → Pad
remember_touch tp ts =
    let x = value_or tp.x ts.limits.no_x ts.last_x in
    let y = value_or tp.y ts.limits.no_y ts.last_y in
    record ts { touch_on_x = x; touch_on_y = y; touch_on_edge = detect_edge x y ts.limits }

-- A tap may click: it is configured, and not on the bottom edge of a clickpad.
abbrev pub may_click : Pad → Bool
may_click ts =
    ts.tap_to_click_enabled && not (ts.limits.is_clickpad && ts.touch_on_edge.bottom_edge)

-- The switch of `handle_gestures`.
abbrev pub tap_step : TapState → Bool → Bool → Bool → Pad → List Event × Pad
tap_step ts_start touch move release ts = if touch then ([], tap_state ts_touch ts) else ([], ts)
tap_step ts_touch touch move release ts =
    if move
    then ([], tap_state ts_move ts)
    else if release
    then (if may_click ts
        then ([], tap_state ts_single_tap_pending (set_left_click_timer ts))
        else ([], tap_state ts_start ts))
    else ([], ts)
tap_step ts_move touch move release ts = if release then ([], tap_state ts_start ts) else ([], ts)
tap_step ts_single_tap_pending touch move release ts =
    if touch
    then (if may_click ts
        then ([], tap_state ts_possible_drag (delete_left_click_timer ts))
        else (button_down ++ button_up, tap_state ts_touch (delete_left_click_timer ts)))
    else ([], ts)
tap_step ts_possible_drag touch move release ts =
    if move
    then (button_down, tap_state ts_drag ts)
    else if release
    then (button_down ++ button_up ++ button_down ++ button_up, tap_state ts_start ts)
    else ([], ts)
tap_step ts_drag touch move release ts =
    if release then (button_up, tap_state ts_start ts) else ([], ts)

unfoldable pub handle_gestures : Packet → Pad → List Event × Pad
unfolding event_button_change detect_edge
handle_gestures tp ts =
    let touch = tp.fingertouching && not ts.last_fingertouching in
    let release = not tp.fingertouching && ts.last_fingertouching in
    let move =
      tp.fingertouching
      && not touch
      && (strays tp.x ts.limits.no_x ts.touch_on_x ts.limits.tap_move
          || strays tp.y ts.limits.no_y ts.touch_on_y ts.limits.tap_move) in
    tap_step ts.tapstate touch move release (if touch then remember_touch tp ts else ts)
