-- ===== src/Multitouch.antt =====
-- input.c, `demultitouch` and the loop of `input_send` that calls it for a paravirtual guest: a
-- multitouch stream is cut down to the first contact, whose touch becomes the left button.
pub mod Laws
use input.Base.{
  leb, ◌==◌, if◌then◌else◌, ℤ, pos, negsuc, eqb_ℤ, is_zero, Event, ev_syn, ev_key, ev_abs,
  syn_report, syn_mt_report, abs_x, abs_y, abs_mt_slot, abs_mt_touch_major, abs_mt_orientation,
  abs_mt_position_x, abs_mt_position_y, abs_mt_tool_type, abs_mt_blob_id, abs_mt_tracking_id,
  abs_mt_pressure, abs_mt_distance, btn_left, ℕ, zero, suc, Bool, true, false, not, ◌&&◌, ◌||◌,
  Option, none, some, List, ◌∷◌,
}

pub data SimPress : Type 0 where
  nope send_sync send_left send_left_up : SimPress

pub data Action : Type 0 where
  discarded_event send_event events_queued : Action

-- The function's static variables.
pub record Touch : Type 0 where
  pub deferpressed : SimPress
  pub draining : Bool
  pub slot : ℤ
  pub pressed : Bool
  pub had_slot0 : Bool

abbrev pub initial : Touch
initial = record {
  deferpressed = nope;
  draining = false;
  slot = pos 0;
  pressed = false;
  had_slot0 = false;
}

abbrev pub is_sync : Event → Bool
is_sync e = e.type == ev_syn && e.code == syn_report

abbrev pub sync_event : Event
sync_event = record { type = ev_syn; code = syn_report; value = pos 0 }

abbrev pub left_event : Bool → Event
left_event down = record { type = ev_key; code = btn_left; value = if down then pos 1 else pos 0 }

-- What one call returns: the action, the event as rewritten, the statics.
pub record Outcome : Type 0 where
  pub action : Action
  pub event : Event
  pub touch : Touch

-- The slot bookkeeping of a contact other than the first.
track_slot : Event → Touch → Touch
track_slot e t =
    let t' = (if is_sync e then record t { slot = pos 0; had_slot0 = false } else t) in
    if e.type == ev_abs && e.code == abs_mt_slot
    then record t' { slot = e.value; had_slot0 = t'.had_slot0 || is_zero e.value }
    else t'

-- The `switch (deferpressed)` of that branch.
release : SimPress → Event → Touch → Outcome
release send_sync e t = record {
  action = send_event;
  event = sync_event;
  touch = record t { deferpressed = nope; draining = false };
}
release send_left e t = record {
  action = if t.draining then events_queued else send_event;
  event = left_event true;
  touch = record t { deferpressed = send_sync };
}
release send_left_up e t = record {
  action = if t.draining then events_queued else send_event;
  event = left_event false;
  touch = record t { deferpressed = send_sync };
}
release nope e t = record { action = discarded_event; event = e; touch = t }

abbrev is_deferred : SimPress → Bool
is_deferred nope = false
is_deferred _ = true

-- EV_SYN for the first contact.
on_sync : Event → Touch → Outcome
on_sync e t =
    if e.code == syn_mt_report
    then record {
      action = send_event;
      event = record e { code = syn_report };
      touch = record t { slot = pos 1 };
    }
    else if e.code == syn_report
    then (if is_deferred t.deferpressed
        then record {
          action = events_queued;
          event = e;
          touch = record t { had_slot0 = false; draining = true };
        }
        else record { action = send_event; event = e; touch = record t { had_slot0 = false } })
    else record { action = send_event; event = e; touch = t }

-- ABS_MT_TRACKING_ID: a contact begins or ends. The test `slot == 0` holds whenever it is made.
on_tracking : Event → Touch → Outcome
on_tracking e t =
    let now_pressed = not (eqb_ℤ e.value (negsuc 0)) in
    let changed = (t.pressed && not now_pressed) || (not t.pressed && now_pressed) in
    if is_zero t.slot && changed
    then record {
      action = discarded_event;
      event = e;
      touch = record t {
        pressed = now_pressed;
        had_slot0 = true;
        deferpressed = if now_pressed then send_left else send_left_up;
      };
    }
    else record {
      action = if is_zero t.slot then send_event else discarded_event;
      event = e;
      touch = t;
    }

-- ABS_MT_SLOT: another contact takes over; what the first one did is closed by a sync.
on_slot : Event → Touch → Outcome
on_slot e t =
    let t' = record t { slot = e.value } in
    if is_zero e.value
    then record { action = send_event; event = e; touch = t' }
    else if t.had_slot0
    then record { action = send_event; event = sync_event; touch = t' }
    else record { action = discarded_event; event = e; touch = t' }

-- The codes that have no place in a single-touch stream; the first five are consecutive.
abbrev is_mt_only : ℕ → Bool
is_mt_only c =
    (leb abs_mt_touch_major c && leb c abs_mt_orientation)
    || c == abs_mt_tool_type
    || c == abs_mt_blob_id
    || c == abs_mt_pressure
    || c == abs_mt_distance

-- `return (slot == 0);`
pass : Event → Touch → Outcome
pass e t = record {
  action = if is_zero t.slot then send_event else discarded_event;
  event = e;
  touch = t;
}

-- EV_ABS for the first contact.
on_abs : Event → Touch → Outcome
unfolding pass on_tracking on_slot
on_abs e t =
    if e.code == abs_mt_position_x
    then pass (record e { code = abs_x }) t
    else if e.code == abs_mt_position_y
    then pass (record e { code = abs_y }) t
    else if e.code == abs_mt_tracking_id
    then on_tracking e t
    else if e.code == abs_mt_slot
    then on_slot e t
    else if is_mt_only e.code
    then record { action = discarded_event; event = e; touch = record t { had_slot0 = true } }
    else pass e t

pub demultitouch : Event → Touch → Outcome
unfolding track_slot release on_sync on_abs
demultitouch e t =
    if not (is_zero t.slot) || t.draining
    then (let t' = (if t.draining then t else track_slot e t) in release t'.deferpressed e t')
    else if e.type == ev_syn
    then on_sync e t
    else if e.type == ev_abs
    then on_abs e t
    else record { action = send_event; event = e; touch = record t { had_slot0 = true } }

-- The `do … while (ia == events_queued)` of `input_send`, for a paravirtual guest: what the
-- guest's virtual keyboard is sent. `none` means that the fuel ran out.
pub send_pv : ℕ → Event → Touch → List Event → Option (Touch × List Event)
send_pv zero e t sent = none
send_pv (suc fuel) e t sent =
    let o = demultitouch e t in
    elim o.action [
      | discarded_event ↦ some (o.touch, sent)
      | send_event ↦ some (o.touch, o.event ∷ sent)
      | events_queued ↦ send_pv fuel o.event o.touch (o.event ∷ sent)
    ]
