-- ===== src/Touchpad/Balance.antt =====
-- The left button that taps and drags press: it is down while a drag lasts and at no other time.
use input.Touchpad.Packets.{save_previous_packet_values}
use input.Touchpad.Taps.{
  pending_click, send_left_click_event, remember_touch, may_click, tap_step, handle_gestures,
}
use input.Touchpad.{
  TapState, ts_start, ts_touch, ts_move, ts_single_tap_pending, ts_possible_drag, ts_drag, Packet,
  Pad, event_button_change,
}
use input.Base.{
  ◌==◌, if◌then◌else◌, ◌>>=◌, >>=-eq-some, is_zero, Event, ev_key, btn_left, ◌≡◌, refl, sym, ap,
  ◌∙◌, Bool, true, false, not, ◌&&◌, Option, none, some, List, [], ◌∷◌, ◌++◌,
}

-- The press (true) or release (false) of the left button that an event is.
abbrev pub left_change : Event → Option Bool
left_change e =
    if e.type == ev_key && e.code == btn_left then some (not (is_zero e.value)) else none

-- The left button after one event, `none` if it is pressed while down or released while up.
abbrev pub after_change : Option Bool → Bool → Option Bool
after_change none held = some held
after_change (some true) false = some true
after_change (some false) true = some false
after_change (some true) true = none
after_change (some false) false = none

unfoldable pub held_after : Bool → List Event → Option Bool
held_after held [] = some held
held_after held (e ∷ es) = after_change (left_change e) held >>= λ b. held_after b es

-- What may happen to the taps: a packet, or the timer's end.
pub data Input : Type 0 where
  packet : Packet → Input
  timeout : Input

unfoldable pub step : Input → Pad → List Event × Pad
unfolding handle_gestures send_left_click_event save_previous_packet_values
step (packet tp) ts =
    let (es, ts') = handle_gestures tp ts in (es, save_previous_packet_values tp ts')
step timeout ts = if ts.left_click_timer then send_left_click_event ts else ([], ts)

unfoldable pub play : List Input → Pad → List Event × Pad
unfolding step
play [] ts = ([], ts)
play (i ∷ is) ts = let (es, ts') = step i ts in let (es', ts'') = play is ts' in (es ++ es', ts'')

abbrev pub is_drag : TapState → Bool
is_drag ts_drag = true
is_drag _ = false

held_after-append :
    (held b : Bool) (es es' : List Event)
    → held_after held es ≡ some b
    → held_after held (es ++ es') ≡ held_after b es'
unfolding held_after
held_after-append held b [] es' h = ap (λ z. elim z [ some c ↦ held_after c es' | none ↦ none ]) h
held_after-append held b (e ∷ es) es' h =
    let (c, at, rest) = >>=-eq-some (after_change (left_change e) held) (λ c. held_after c es) h in
    rw at (held_after-append c b es es' rest)

-- The events of a step take the left button from up or down to what the state after it says.
abbrev Ends : Bool → List Event × Pad → Type 0
Ends held r = held_after held r.0 ≡ some (is_drag r.1.tapstate)

either :
    (held : Bool) (r r' : List Event × Pad) (c : Bool)
    → Ends held r
    → Ends held r'
    → Ends held (if c then r else r')
either held r r' true h h' = h
either held r r' false h h' = h'

stays : (t : TapState) (ts : Pad) → ts.tapstate ≡ t → Ends (is_drag t) ([], ts)
unfolding held_after
stays t ts h = ap (λ z. some (is_drag z)) (sym h)

tap_step-Ends :
    (t : TapState) (touch move release : Bool) (ts : Pad)
    → ts.tapstate ≡ t
    → Ends (is_drag t) (tap_step t touch move release ts)
unfolding held_after event_button_change
tap_step-Ends ts_start touch move release ts h = either _ _ _ touch refl (stays ts_start ts h)
tap_step-Ends ts_touch touch move release ts h =
    either _ _ _ move refl
      (either _ _ _ release (either _ _ _ (may_click ts) refl refl) (stays ts_touch ts h))
tap_step-Ends ts_move touch move release ts h = either _ _ _ release refl (stays ts_move ts h)
tap_step-Ends ts_single_tap_pending touch move release ts h =
    either _ _ _ touch (either _ _ _ (may_click ts) refl refl) (stays ts_single_tap_pending ts h)
tap_step-Ends ts_possible_drag touch move release ts h =
    either _ _ _ move refl (either _ _ _ release refl (stays ts_possible_drag ts h))
tap_step-Ends ts_drag touch move release ts h = either _ _ _ release refl (stays ts_drag ts h)

pending_click-Ends :
    (t : TapState) (ts : Pad) → ts.tapstate ≡ t → Ends (is_drag t) (pending_click t ts)
unfolding held_after event_button_change
pending_click-Ends ts_single_tap_pending ts h = refl
pending_click-Ends ts_start ts h = stays ts_start ts h
pending_click-Ends ts_touch ts h = stays ts_touch ts h
pending_click-Ends ts_move ts h = stays ts_move ts h
pending_click-Ends ts_possible_drag ts h = stays ts_possible_drag ts h
pending_click-Ends ts_drag ts h = stays ts_drag ts h

same_tapstate :
    (touch : Bool) (tp : Packet) (ts : Pad)
    → (if touch then remember_touch tp ts else ts).tapstate ≡ ts.tapstate
same_tapstate true tp ts = refl
same_tapstate false tp ts = refl

step-Ends : (i : Input) (ts : Pad) → Ends (is_drag ts.tapstate) (step i ts)
unfolding step handle_gestures send_left_click_event save_previous_packet_values
step-Ends (packet tp) ts = tap_step-Ends ts.tapstate _ _ _ _ (same_tapstate _ tp ts)
step-Ends timeout ts =
    either _ _ _ ts.left_click_timer (pending_click-Ends ts.tapstate ts refl)
      (stays ts.tapstate ts refl)

-- Whatever the fingers do and whenever the timer ends, the presses and releases of the left button
-- that come from taps and drags alternate, and the button is down after them exactly if a drag is on.
pub play-Ends :
    (is : List Input) (ts : Pad)
    → held_after (is_drag ts.tapstate) (play is ts).0 ≡ some (is_drag (play is ts).1.tapstate)
unfolding play
play-Ends [] ts = stays ts.tapstate ts refl
play-Ends (i ∷ is) ts =
    let ts' = (step i ts).1 in
    held_after-append (is_drag ts.tapstate) (is_drag ts'.tapstate) (step i ts).0 (play is ts').0
      (step-Ends i ts)
    ∙ play-Ends is ts'
