-- ===== src/Touchpad/Drag.antt =====
-- A tap with a drag after it, on a touchpad that has just been set up.
use input.Touchpad.Packets.{save_previous_packet_values}
use input.Touchpad.Taps.{strays, handle_gestures}
use input.Base.{ℤ, pos, ◌≡◌, refl, ap, true, false, List, [], ◌∷◌, ◌++◌, map}
use input.Touchpad.Balance.{Input, packet, step, play}
use input.Touchpad.{ts_drag, Packet, Pad, button_down, button_up, value_or, init_touchpad_state}

-- The state after `init_touchpad_state`, with clicks by taps configured.
abbrev pub ready : Pad → Pad
ready ts = record (init_touchpad_state ts) {
  tap_to_click_enabled = true;
  limits = record ts.limits { is_clickpad = false };
}

abbrev pub on : Packet → Input
on tp = packet (record tp { fingertouching = true })

abbrev pub off : Packet → Input
off tp = packet (record tp { fingertouching = false })

abbrev dragging : Pad → Pad
dragging ts = record ts { tapstate = ts_drag; last_fingertouching = true }

drag_goes_on :
    (tps : List Packet) (tp : Packet) (ts : Pad)
    → (play (map on tps ++ off tp ∷ []) (dragging ts)).0 ≡ button_up
unfolding play step handle_gestures save_previous_packet_values
drag_goes_on [] tp ts = refl
drag_goes_on (tp' ∷ tps) tp ts = drag_goes_on tps tp (save_previous_packet_values tp' ts)

-- A touchpad that has just been set up and is no clickpad, with clicks by taps configured, gets these
-- packets with no timeout between them: one with a finger, one without, one with a finger, one with the
-- finger `tap_move` or further in x from the last place reported, any number with a finger, one without.
-- The tap does not click, the left button is pressed once and released once.
pub tap_then_drag :
    (tap lift touch away last : Packet) (tps : List Packet) (ts : Pad)
    → let seen = λ (tp : Packet) (x : ℤ). value_or tp.x ts.limits.no_x x in
      strays away.x ts.limits.no_x (seen touch (seen lift (seen tap (pos 0)))) ts.limits.tap_move
        ≡ true
      → (play (on tap ∷ off lift ∷ on touch ∷ on away ∷ (map on tps ++ off last ∷ [])) (ready ts)).0
        ≡ button_down ++ button_up
unfolding play step handle_gestures save_previous_packet_values init_touchpad_state
tap_then_drag tap lift touch away last tps ts far = rw far (
    ap (λ es. button_down ++ es)
      (drag_goes_on tps last
        (save_previous_packet_values away (play (on tap ∷ off lift ∷ on touch ∷ []) (ready ts)).1)))
