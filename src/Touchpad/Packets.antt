-- ===== src/Touchpad/Packets.antt =====
-- touchpad.c, `handle_touchpad_event` and `process_packet`: a packet is put together from the events up to
-- a SYN_REPORT and handled.
use input.Touchpad.Taps.{handle_gestures}
use input.Touchpad.Clicks.{bit, handle_button_clicks, handle_clickpad}
use input.Base.{
  leb, ◌==◌, if◌then◌else◌, ℤ, pos, negsuc, ◌-ℤ◌, ltb_ℤ, is_zero, Event, ev_syn, ev_key, ev_abs,
  syn_report, abs_x, abs_y, abs_mt_position_x, abs_mt_position_y, abs_mt_pressure, btn_left, ℕ, suc,
  ◌+◌, ◌-◌, ◌*◌, ◌/◌, ◌^◌, Bool, true, false, not, ◌&&◌, ◌||◌, List, [], ◌++◌,
}
use input.Touchpad.{
  btn_task, abs_pressure, Packet, Limits, Pad, reset_touchpad_packet, detect_edge, detect_finger,
  value_or,
}
use input.Tablet

unfoldable pub save_previous_packet_values : Packet → Pad → Pad
save_previous_packet_values tp ts = record ts {
  last_fingertouching = tp.fingertouching;
  last_x = value_or tp.x ts.limits.no_x ts.last_x;
  last_y = value_or tp.y ts.limits.no_y ts.last_y;
}

-- C's division by 10, towards 0.
abbrev pub tenth : ℤ → ℤ
tenth (pos n) = pos (n / 10)
tenth (negsuc n) = pos 0 -ℤ pos (suc n / 10)

abbrev pub overflow_x : Packet → Limits → Limits
overflow_x tp tl =
    let xrange = tl.maxx -ℤ tl.minx in
    if ltb_ℤ tl.maxx tp.x && not (ltb_ℤ tl.maxx (tp.x -ℤ tenth xrange))
    then record tl { right_edge = tp.x -ℤ (xrange -ℤ tl.right_edge); maxx = tp.x }
    else tl

abbrev pub overflow_y : Packet → Limits → Limits
overflow_y tp tl =
    let yrange = tl.maxy -ℤ tl.miny in
    if ltb_ℤ tl.maxy tp.y && not (ltb_ℤ tl.maxy (tp.y -ℤ tenth yrange))
    then record tl { bottom_edge = tp.y -ℤ (yrange -ℤ tl.bottom_edge); maxy = tp.y }
    else tl

unfoldable pub adjust_overflow : Packet → Limits → Limits
adjust_overflow tp tl = overflow_y tp (overflow_x tp tl)

-- The part of `process_packet` that a touchpad switched off does not get to.
unfoldable pub process_touches :
    (Limits → ℤ → Bool) → (Limits → ℤ → Bool) → Packet → Pad → List Event × Pad
unfolding adjust_overflow detect_edge detect_finger handle_clickpad handle_gestures
    save_previous_packet_values
process_touches above below tp ts =
    let tl = adjust_overflow tp ts.limits in
    let edge = detect_edge (value_or tp.x tl.no_x ts.last_x) (value_or tp.y tl.no_y ts.last_y) tl in
    let finger = detect_finger above below tp tl ts.finger in
    let tp' = record tp { fingertouching = finger } in
    let ts1 = record ts { limits = tl; finger = finger } in
    let (pressed, ts2) = if tl.is_clickpad then handle_clickpad edge tp' ts1 else ([], ts1) in
    let (taps, ts3) = handle_gestures tp' ts2 in
    (pressed ++ taps, save_previous_packet_values tp' ts3)

-- `process_packet` without its calls for scrolling and motion.
unfoldable pub process_clicks :
    (Limits → ℤ → Bool) → (Limits → ℤ → Bool) → Packet → Pad → List Event × Pad
process_clicks above below tp ts =
    let clicks = if ts.limits.is_clickpad then [] else handle_button_clicks tp.button_mask in
    if ts.touchpad_off
    then (clicks, ts)
    else let (es, ts') = process_touches above below tp ts in (clicks ++ es, ts')

pub record Assembly : Type 0 where
  pub packet : Packet
  pub sync_recd : Bool
  pub pad : Pad

abbrev pub begin : Assembly → Assembly
begin a =
    if a.sync_recd
    then record a { packet = reset_touchpad_packet a.pad.limits a.packet; sync_recd = false }
    else a

abbrev pub set_bit : ℕ → ℕ → ℕ
set_bit n mask = if bit n mask then mask else mask + 2 ^ n

abbrev pub on_abs : Event → Packet → Packet
on_abs e tp =
    if e.code == abs_x || e.code == abs_mt_position_x
    then record tp { x = e.value }
    else if e.code == abs_y || e.code == abs_mt_position_y
    then record tp { y = e.value }
    else if e.code == abs_pressure || e.code == abs_mt_pressure
    then record tp { pressure = e.value }
    else tp

abbrev pub on_key : Event → Packet → Packet
on_key e tp =
    if leb btn_left e.code && leb e.code btn_task
    then record tp {
      button_mask =
          set_bit (2 * (e.code - btn_left) + (if is_zero e.value then 1 else 0)) tp.button_mask;
    }
    else if e.code == input.Tablet.btn_touch
    then record tp { btn_touch = e.value }
    else tp

abbrev pub with_packet : Packet → Assembly → Assembly
with_packet tp a = record a { packet = tp }

abbrev pub finish : Assembly → List Event × Pad → List Event × Assembly
finish a (es, ts) = (es, record a { sync_recd = true; pad = ts })

unfoldable pub handle_touchpad_event :
    (Limits → ℤ → Bool) → (Limits → ℤ → Bool) → Event → Assembly → List Event × Assembly
unfolding reset_touchpad_packet
handle_touchpad_event above below e a =
    let a' = begin a in
    if e.type == ev_syn && e.code == syn_report
    then finish a' (process_clicks above below a'.packet a'.pad)
    else if e.type == ev_abs
    then ([], with_packet (on_abs e a'.packet) a')
    else if e.type == ev_key
    then ([], with_packet (on_key e a'.packet) a')
    else ([], a')
