-- ===== src/Touchpad/Clickpad.antt =====
-- `handle_clickpad`: the one button of a clickpad stands for two.
use input.Touchpad.Clicks.{handle_button_clicks, handle_clickpad}
use input.Tablet.{btn_right}
use input.Touchpad.{Edges, Packet, Pad, key_event, sync, event_button_change, value_or}
use input.Base.{
  if◌then◌else◌, Bool-cases, pos, ltb_ℤ, Event, btn_left, ℕ, ◌≡◌, refl, ap, ◌∙◌, inl, inr, true,
  false, List, [], ◌∷◌, ◌++◌,
}

abbrev pub click_of : ℕ → List Event
click_of code = key_event code (pos 1) ∷ sync ∷ key_event code (pos 0) ∷ sync ∷ []

-- The button of a clickpad is pressed at one place of the bottom edge and let go at another: the place
-- of the press decides whether it is a right or a left click, and the clickpad counts as pressed no more.
pub clickpad_click :
    (down up : Packet) (edge edge' : Edges) (ts : Pad)
    → edge.bottom_edge ≡ true
    → edge'.bottom_edge ≡ true
    → let pressed = handle_clickpad edge (record down { button_mask = 1 }) ts in
      let released = handle_clickpad edge' (record up { button_mask = 2 }) pressed.1 in
      (pressed.0 ++ released.0
        ≡ click_of (
            if ltb_ℤ ts.limits.clickpad_left_button_maxx (value_or down.x ts.limits.no_x ts.last_x)
            then btn_right
            else btn_left))
      × (released.1.limits.is_clickpad_pressed ≡ false)
unfolding handle_clickpad handle_button_clicks event_button_change
clickpad_click down up edge edge' ts h h' =
    elim (Bool-cases
      (ltb_ℤ ts.limits.clickpad_left_button_maxx (value_or down.x ts.limits.no_x ts.last_x))) [
        | inl right ↦ (rw (h, h', right) refl, rw (h, h') refl)
        | inr left ↦ (rw (h, h', left) refl, rw (h, h') refl)
      ]

-- Packets outside the bottom edge.
unfoldable pub wander : List Packet → Edges → Pad → List Event × Pad
unfolding handle_clickpad
wander [] edge ts = ([], ts)
wander (tp ∷ tps) edge ts =
    let (es, ts') = handle_clickpad (record edge { bottom_edge = false }) tp ts in
    let (es', ts'') = wander tps edge ts' in (es ++ es', ts'')

wander_idle : (tps : List Packet) (edge : Edges) (ts : Pad) → wander tps edge ts ≡ ([], ts)
unfolding wander handle_clickpad
wander_idle [] edge ts = refl
wander_idle (tp ∷ tps) edge ts = wander_idle tps edge ts

-- The button of a clickpad is pressed on the bottom edge and the finger moves off the edge before it
-- lets go: no release is sent, whatever the packets that come outside the edge say, and the clickpad
-- goes on counting as pressed.
pub press_never_released :
    (down : Packet) (tps : List Packet) (edge edge' : Edges) (ts : Pad)
    → edge.bottom_edge ≡ true
    → let pressed = handle_clickpad edge (record down { button_mask = 1 }) ts in
      let after = wander tps edge' pressed.1 in
      (after.0 ≡ []) × (after.1.limits.is_clickpad_pressed ≡ true)
unfolding handle_clickpad
press_never_released down tps edge edge' ts h =
    let ts' = (handle_clickpad edge (record down { button_mask = 1 }) ts).1 in
    (
      ap (λ r. r.0) (wander_idle tps edge' ts'),
      ap (λ r. r.1.limits.is_clickpad_pressed) (wander_idle tps edge' ts') ∙ rw h refl,
    )
