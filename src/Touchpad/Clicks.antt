-- ===== src/Touchpad/Clicks.antt =====
-- touchpad.c, `handle_button_clicks` and `handle_clickpad`: the buttons.
use input.Touchpad.{btn_task, Edges, Packet, Pad, event_button_change, value_or}
use input.Base.{
  ◌==◌, if◌then◌else◌, ℤ, pos, negsuc, ltb_ℤ, Event, btn_left, ℕ, zero, suc, ◌-◌, ◌*◌, ◌/◌, ◌%◌,
  ◌^◌, Bool, true, false, List, [], ◌++◌,
}

-- Bit n of a mask.
abbrev pub bit : ℕ → ℕ → Bool
bit n mask = (mask / 2 ^ n) % 2 == 1

-- The two bits of a button, and those of the buttons after it.
abbrev pub click_loop : ℕ → ℕ → ℕ → List Event
click_loop mask button zero = []
click_loop mask button (suc n) =
    (if bit (2 * button - 2) mask then event_button_change button (pos 1) else [])
    ++ (if bit (2 * button - 1) mask then event_button_change button (pos 0) else [])
    ++ click_loop mask (suc button) n

unfoldable pub handle_button_clicks : ℕ → List Event
unfolding event_button_change
handle_button_clicks mask = click_loop mask 1 (btn_task - btn_left)

-- The place of the press decides the button. `!left_button_down` of the source is 0, so the right
-- button's bit is all that is left of the mask.
abbrev pub clickpad_press : ℤ → Packet → Pad → ℕ × Pad
clickpad_press down_x tp ts = (
  if ltb_ℤ ts.limits.clickpad_left_button_maxx down_x then 4 else tp.button_mask,
  record ts { button_down_x = down_x; limits = record ts.limits { is_clickpad_pressed = true } },
)

abbrev pub clickpad_release : Packet → Pad → ℕ × Pad
clickpad_release tp ts = (
  if ltb_ℤ ts.limits.clickpad_left_button_maxx ts.button_down_x then 8 else tp.button_mask,
  record ts { button_down_x = negsuc 0; limits = record ts.limits { is_clickpad_pressed = false } },
)

abbrev pub clickpad_mask : Packet → Pad → ℕ × Pad
clickpad_mask tp ts =
    if bit 0 tp.button_mask
    then clickpad_press (value_or tp.x ts.limits.no_x ts.last_x) tp ts
    else if bit 1 tp.button_mask
    then clickpad_release tp ts
    else (tp.button_mask, ts)

-- The source changes the mask of the packet, which nothing reads after the clicks are sent.
unfoldable pub handle_clickpad : Edges → Packet → Pad → List Event × Pad
unfolding handle_button_clicks
handle_clickpad edge tp ts =
    if edge.bottom_edge
    then (handle_button_clicks (clickpad_mask tp ts).0, (clickpad_mask tp ts).1)
    else ([], ts)
