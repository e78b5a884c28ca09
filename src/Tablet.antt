-- ===== src/Tablet.antt =====
-- usb-tablet.c, `handle_usb_tablet_event`: the events of one pen tablet or touch screen, whose row of
-- `tscale` and of `ignore_events`, with the statics, is the record `Tablet`. `check_and_inject_event`
-- is the list of the events handed to it, in their order. The scaling of a coordinate is arithmetic on
-- `double` and a parameter. `none` stands for undefined behaviour below, in `handle_gestures`.
pub mod Dropping
use native.Mathlib.Omega.{arith}
use input.Base.{
  ◌==◌, if◌then◌else◌, ◌>>=◌, ℤ, pos, is_zero, Event, ev_syn, ev_key, ev_abs, syn_report, abs_x,
  abs_y, abs_mt_position_x, abs_mt_position_y, btn_left, ℕ, Bool, true, false, not, ◌&&◌, ◌||◌,
  Option, some, List, [], ◌∷◌, ◌++◌,
}
use input.Gesture.Fingers.{Tracker, is_report, is_dropped, handle_gestures}

abbrev pub btn_right : ℕ
btn_right = 0x111

abbrev pub btn_middle : ℕ
btn_middle = 0x112

abbrev pub btn_tool_pen : ℕ
btn_tool_pen = 0x140

abbrev pub btn_tool_rubber : ℕ
btn_tool_rubber = 0x141

abbrev pub btn_tool_finger : ℕ
btn_tool_finger = 0x145

abbrev pub btn_touch : ℕ
btn_touch = 0x14a

abbrev pub btn_stylus : ℕ
btn_stylus = 0x14b

abbrev pub newly_pressed : ℕ
newly_pressed = 2

-- `subtype` only matters as whether it is SUBTYPE_MONOTOUCH.
pub record Tablet : Type 0 where
  pub pen_inrange : Bool
  pub monotouch : Bool
  pub btnleft : ℕ
  pub tool : ℕ
  pub ignore : Bool
  pub tracker : Tracker

abbrev pub value_set : Event → Bool
value_set e = not (is_zero e.value)

abbrev pick_tool : ℕ → Event → Tablet → Tablet
pick_tool tool e t = if value_set e then record t { tool = tool } else t

-- BTN_TOUCH, for a finger and for the tools.
unfoldable pub on_touch : Event → Tablet → Event × Tablet
on_touch e t =
    if t.tool == btn_tool_finger
    then (if value_set e
        then (
          e,
          if t.btnleft == 0 && not t.pen_inrange then record t { btnleft = newly_pressed } else t,
        )
        else if t.btnleft == 0
        then (e, t)
        else (record e { code = btn_left }, record t { btnleft = 0 }))
    else (record e { code = t.tool }, t)

-- Tablet codes become those of a mouse.
unfoldable pub on_key : Event → Tablet → Event × Tablet
unfolding on_touch
on_key e t =
    if e.code == btn_tool_pen
    then (e, record (pick_tool btn_left e t) { pen_inrange = value_set e })
    else if e.code == btn_tool_finger
    then (e, pick_tool btn_tool_finger e t)
    else if e.code == btn_tool_rubber
    then (e, record (pick_tool btn_right e t) { pen_inrange = value_set e })
    else if e.code == btn_touch
    then on_touch e t
    else if e.code == btn_stylus
    then (record e { code = btn_middle }, t)
    else (e, t)

abbrev pub press_event : Event
press_event = record { type = ev_key; code = btn_left; value = pos 1 }

abbrev pub report_event : Event
report_event = record { type = ev_syn; code = syn_report; value = pos 0 }

-- The last part: what is sent for the event `e` as it came in and `e'` as it was translated.
unfoldable pub deliver : Event → Event → Tablet → Option (List Event × Tablet)
unfolding handle_gestures
deliver e e' t = handle_gestures e' t.tracker >>= λ r. some (
  (if e'.type == ev_key && not (e'.code == e.code) then e ∷ [] else [])
      ++ (if r.0 then e' ∷ [] else []),
  record t { tracker = r.1 },
)

-- The report of a new touch, and the rest of a packet that was dropped.
unfoldable pub filter : Event → Event → Tablet → Option (List Event × Tablet)
unfolding deliver
filter e e' t =
    if is_report e' && t.btnleft == newly_pressed
    then some (e' ∷ press_event ∷ report_event ∷ [], record t { btnleft = 1 })
    else if is_dropped e'
    then deliver e e' (record t { ignore = true })
    else if t.ignore && not (is_report e')
    then some ([], t)
    else deliver e e' (record t { ignore = false })

module _ (scale_x scale_y : ℤ → ℤ) where
  unfoldable pub on_abs : Event → Event
  on_abs e =
      if e.code == abs_x || e.code == abs_mt_position_x
      then record e { value = scale_x e.value }
      else if e.code == abs_y || e.code == abs_mt_position_y
      then record e { value = scale_y e.value }
      else e

  -- While a pen is near, what a finger says is thrown away.
  unfoldable pub handle_usb_tablet_event : Event → Tablet → Option (List Event × Tablet)
  unfolding on_abs on_key filter
  handle_usb_tablet_event e t =
      if e.type == ev_abs
      then (if t.pen_inrange && t.monotouch then some ([], t) else filter e (on_abs e) t)
      else if e.type == ev_key
      then (let (e', t') = on_key e t in filter e e' t')
      else filter e e t

  -- One event after the other: all that is sent.
  unfoldable pub run : List Event → Tablet → Option (List Event × Tablet)
  unfolding handle_usb_tablet_event
  run [] t = some ([], t)
  run (e ∷ es) t = do
    first ← handle_usb_tablet_event e t
    rest ← run es first.1
    some (first.0 ++ rest.0, rest.1)
