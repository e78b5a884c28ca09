-- ===== src/Vkbd.antt =====
-- xen_vkbd.c and xen_event.c: the keyboard and mouse of a paravirtual guest. A device has a page that is
-- shared with the guest, with a ring of events; the ring's length, XENKBD_IN_RING_LEN, and the place of an
-- event in it, the index modulo the length, are those of Xen's headers. The statics of `xen_event_send` are
-- the record `Motions`. What the guest's notification returns is not used. The counters of motions do not
-- reach the end of an int.
pub mod Moves
pub mod Packets
pub mod Ring
pub mod Leds
use input.Touchpad.{btn_task}
use input.Base.{
  leb, ◌==◌, if◌then◌else◌, has_bit, length, set, ℤ, pos, ◌-ℤ◌, is_zero, Event, ev_syn, ev_key,
  ev_rel, ev_abs, syn_report, btn_left, ℕ, ◌+◌, ◌-◌, ◌%◌, ◌^◌, Bool, true, false, not, ◌&&◌, ◌||◌,
  Option, none, some, List, [], ◌∷◌, ◌++◌,
}

abbrev pub rel_x : ℕ
rel_x = 0

abbrev pub rel_y : ℕ
rel_y = 1

abbrev pub wheel : ℕ
wheel = 8

-- `union xenkbd_in_event`
pub data InEvent : Type 0 where
  key : Bool → ℕ → InEvent
  motion position : ℤ → ℤ → ℤ → InEvent

pub record Page : Type 0 where
  pub ring : List InEvent
  pub in_prod : ℕ  -- uint32

-- `struct xen_vkbd_device`
pub record Device : Type 0 where
  pub page : Option Page

-- `struct xen_vkbd_backend`, after both devices were allocated.
pub record Backend : Type 0 where
  pub device : Device
  pub abs_device : Device

abbrev pub put_event : InEvent → Page → Page
put_event e p = record p {
  ring = set p.ring (p.in_prod % length p.ring) e;
  in_prod = (p.in_prod + 1) % 2 ^ 32;
}

abbrev pub put_in : InEvent → Option Page → Option Page
put_in e none = none
put_in e (some p) = some (put_event e p)

unfoldable pub xen_event_write_page : InEvent → Device → Device
xen_event_write_page e d = record d { page = put_in e d.page }

-- An event, and whether it is for the absolute device.
pub record Message : Type 0 where
  pub absolute : Bool
  pub event : InEvent

abbrev pub write_message : Message → Backend → Backend
write_message m b =
    if m.absolute
    then record b { abs_device = xen_event_write_page m.event b.abs_device }
    else record b { device = xen_event_write_page m.event b.device }

abbrev pub write_messages : List Message → Backend → Backend
write_messages [] b = b
write_messages (m ∷ ms) b = write_messages ms (write_message m b)

-- The statics of one kind of motion, with their counter.
pub record Axes : Type 0 where
  pub x : ℤ
  pub y : ℤ
  pub z : ℤ
  pub count : ℕ

pub record Motions : Type 0 where
  pub relative : Axes
  pub absolute : Axes

abbrev pub no_motion : Axes
no_motion = record { x = pos 0; y = pos 0; z = pos 0; count = 0 }

abbrev pub negated : ℤ → ℤ
negated a = pos 0 -ℤ a

abbrev pub move : Event → Axes → Axes
move e a = record {
  x = if e.code == rel_x then e.value else a.x;
  y = if e.code == rel_y then e.value else a.y;
  z = if e.code == wheel then negated e.value else a.z;
  count = a.count + 1;
}

abbrev pub xen_event_send_key : Event → List Message
xen_event_send_key e =
    record {
      absolute = leb btn_left e.code && leb e.code btn_task;
      event = key (not (is_zero e.value)) e.code;
    }
    ∷ []

abbrev pub motion_message : Axes → List Message
motion_message a =
    if a.count == 0 then [] else record { absolute = false; event = motion a.x a.y a.z } ∷ []

abbrev pub position_message : Axes → List Message
position_message a =
    if a.count == 0 then [] else record { absolute = true; event = position a.x a.y a.z } ∷ []

abbrev pub after_motion : Axes → Axes
after_motion a = if a.count == 0 then a else no_motion

-- The position stays.
abbrev pub after_position : Axes → Axes
after_position a = if a.count == 0 then a else record a { z = pos 0; count = 0 }

-- The events by what they do.
pub data Kind : Type 0 where
  of_key of_relative of_absolute of_report of_none : Kind

abbrev pub kind_of : Event → Kind
kind_of e =
    if e.type == ev_key
    then of_key
    else if e.type == ev_rel
    then of_relative
    else if e.type == ev_abs
    then of_absolute
    else if e.type == ev_syn && e.code == syn_report
    then of_report
    else of_none

abbrev pub told_as : Kind → Event → Motions → List Message × Motions
told_as of_key e m = (xen_event_send_key e, m)
told_as of_relative e m = ([], record m { relative = move e m.relative })
told_as of_absolute e m = ([], record m { absolute = move e m.absolute })
told_as of_report e m = (
  motion_message m.relative ++ position_message m.absolute,
  record { relative = after_motion m.relative; absolute = after_position m.absolute },
)
told_as of_none e m = ([], m)

unfoldable pub xen_event_told : Event → Motions → List Message × Motions
xen_event_told e m = told_as (kind_of e) e m

unfoldable pub xen_event_send : Event → Backend × Motions → Backend × Motions
xen_event_send e (b, m) = let (ms, m') = xen_event_told e m in (write_messages ms b, m')

-- The lights of the keyboard, by their bit.
abbrev pub led_of : ℕ → Option ℕ
led_of code =
    if code == 58
    then some 2
    else if code == 69
    then some 1
    else if code == 70
    then some 0
    else none

abbrev pub toggle : Option ℕ → ℕ → ℕ
toggle none leds = leds
toggle (some k) leds = if has_bit k leds then leds - 2 ^ k else leds + 2 ^ k

-- What becomes of `keyboard_led_code`.
unfoldable pub xen_vkbd_handle_led : Event → ℕ → ℕ
xen_vkbd_handle_led e leds =
    if not (e.type == ev_key) || is_zero e.value then leds else toggle (led_of e.code) leds

-- A guest's `keyboard_led_code`, its backend, and the statics.
unfoldable pub xen_vkbd_send_event : Event → ℕ × Backend × Motions → ℕ × Backend × Motions
xen_vkbd_send_event e (leds, b, m) =
    let (b', m') = xen_event_send e (b, m) in (xen_vkbd_handle_led e leds, b', m')
