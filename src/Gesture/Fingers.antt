-- ===== src/Gesture/Fingers.antt =====
-- usb-tablet.c, `handle_gestures`: the contacts of a tablet, as the gestures see them. The arrays have
-- MAXSLOTS entries; a read or a write outside them is undefined in C, and the result `none` here.
use input.Base.{
  ltb, ◌==◌, if◌then◌else◌, ◌>>=◌, get_elem?, set, ℤ, pos, negsuc, ◌-ℤ◌, ltb_ℤ, eqb_ℤ, abs, Event,
  ev_syn, ev_abs, syn_report, syn_dropped, abs_mt_slot, abs_mt_position_x, abs_mt_position_y,
  abs_mt_tracking_id, ℕ, ◌+◌, ◌≡◌, ◌⊎◌, inl, inr, Bool, true, false, not, ◌&&◌, ◌||◌, Option, none,
  some, List, arith,
}
use native.Mathlib.Omega.{arith}
use input.Gesture.{Gestures}
use input.Gesture.Handler.{Push, moved, released, touched, gesture_handler}

abbrev pub max_slots : ℕ
max_slots = 3

-- The function's static variables, and the state of the gestures.
pub record Tracker : Type 0 where
  pub silence : Bool
  pub go_silent : Bool
  pub track_id : List ℤ
  pub xs : List ℤ
  pub ys : List ℤ
  pub slot : ℤ
  pub distance : ℕ
  pub track_change : Bool
  pub gestures : Gestures

abbrev pub at_slot : List ℤ → ℤ → Option ℤ
at_slot zs (pos n) = get_elem? zs n
at_slot zs (negsuc n) = none

abbrev pub put_slot : List ℤ → ℤ → ℤ → List ℤ
put_slot zs (pos n) z = set zs n z
put_slot zs (negsuc n) z = zs

abbrev pub is_negative : ℤ → Bool
is_negative z = ltb_ℤ z (pos 0)

-- `(trackID[slot] < 0) != (e->value < 0)`
abbrev contact_changes : ℤ → ℤ → Bool
contact_changes old new = if is_negative old then not (is_negative new) else is_negative new

-- The `switch` on the code of an EV_ABS event.
unfoldable pub track : Event → Tracker → Option Tracker
track e t =
    if e.code == abs_mt_position_x
    then (at_slot t.xs t.slot >>= λ old. some (record t {
      distance = t.distance + abs (old -ℤ e.value);
      xs = put_slot t.xs t.slot e.value;
    }))
    else if e.code == abs_mt_position_y
    then (at_slot t.ys t.slot >>= λ old. some (record t {
      distance = t.distance + abs (old -ℤ e.value);
      ys = put_slot t.ys t.slot e.value;
    }))
    else if e.code == abs_mt_tracking_id
    then (at_slot t.track_id t.slot >>= λ old. some (
        if contact_changes old e.value
        then record t { track_change = true; track_id = put_slot t.track_id t.slot e.value }
        else t))
    else some t

-- `(track_change) ? ((trackID[slot] >= 0) ? 1 : 0) : -1`
abbrev push_of : Bool → ℤ → Push
push_of false id = moved
push_of true id = if is_negative id then released else touched

-- The contact's report is complete: if it moved or changed, the gestures are told.
unfoldable pub close : ℕ → Tracker → Option Tracker
unfolding gesture_handler
close slot t =
    if t.track_change || ltb 1 t.distance
    then (get_elem? t.xs slot >>= λ x. get_elem? t.ys slot >>= λ y.
        get_elem? t.track_id slot >>= λ id.
        gesture_handler slot x y (push_of t.track_change id) t.gestures >>= λ r. some (record t {
          go_silent = not (r.0 == 0);
          gestures = r.1;
          distance = 0;
          track_change = false;
        }))
    else some (record t { distance = 0; track_change = false })

abbrev pub is_report : Event → Bool
is_report e = e.type == ev_syn && e.code == syn_report

abbrev pub is_dropped : Event → Bool
is_dropped e = e.type == ev_syn && e.code == syn_dropped

-- `new_slot`: -1 unless the event names a slot.
abbrev pub new_slot : Event → ℤ
new_slot e = if e.type == ev_abs && e.code == abs_mt_slot then e.value else negsuc 0

abbrev no_slot : ℤ → Bool
no_slot z = eqb_ℤ z (negsuc 0)

-- The report of a slot that is not in the arrays is left alone.
abbrev close_slot : ℤ → Tracker → Option Tracker
close_slot (pos n) t = close n t
close_slot (negsuc n) t = some t

-- The part under `if (slot < MAXSLOTS)`.
unfoldable pub report : Event → Tracker → Option Tracker
unfolding track close
report e t = (if e.type == ev_abs then track e t else some t) >>= λ t'.
    if not (no_slot (new_slot e)) || is_report e then close_slot t'.slot t' else some t'

unfoldable pub handle_gestures : Event → Tracker → Option (Bool × Tracker)
unfolding report
handle_gestures e t =
    if is_dropped e
    then some (true, record t { distance = 0; track_change = false })
    else ((if ltb_ℤ t.slot (pos max_slots) then report e t else some t) >>= λ a.
        let b = (if no_slot (new_slot e) then a else record a { slot = new_slot e }) in
        let c = (if is_report e then record b { silence = b.go_silent } else b) in
        some (not c.silence, c))

-- The first contact of a tablet that has not named a slot yet is undefined behaviour: an event about a
-- contact's place or identity, before any ABS_MT_SLOT, reads the arrays at -1.
pub handle_gestures_no_slot :
    (e : Event) (t : Tracker)
    → t.slot ≡ negsuc 0
    → e.type ≡ ev_abs
    → (e.code ≡ abs_mt_position_x) ⊎ ((e.code ≡ abs_mt_position_y) ⊎ (e.code ≡ abs_mt_tracking_id))
    → handle_gestures e t ≡ none
unfolding handle_gestures
handle_gestures_no_slot e t no_slot_yet is_abs (inl c) = ground arith
handle_gestures_no_slot e t no_slot_yet is_abs (inr (inl c)) = ground arith
handle_gestures_no_slot e t no_slot_yet is_abs (inr (inr c)) = ground arith
