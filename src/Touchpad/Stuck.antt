-- ===== src/Touchpad/Stuck.antt =====
-- What `enable_touchpad` forgets: `init_touchpad_state` sets the taps back without a release.
use input.Touchpad.{ts_drag, Pad, init_touchpad_state, toggle_touchpad_status}
use input.Touchpad.Balance.{left_change, after_change, held_after, Input, play, is_drag, play-Ends}
use input.Base.{
  ◌>>=◌, Event, ◌≡◌, refl, ap, ◌∙◌, ◌≢◌, Bool, true, false, Option, none, some, List, [], ◌∷◌,
}

abbrev pub first_of : Option Bool → Option Bool → Option Bool
first_of none later = later
first_of (some b) later = some b

-- The first press (true) or release (false) of the left button.
unfoldable pub first_change : List Event → Option Bool
first_change [] = none
first_change (e ∷ es) = first_of (left_change e) (first_change es)

first_of_press :
    (c : Option Bool) (es : List Event) (b : Bool)
    → (held_after false es ≡ some b → first_change es ≢ some false)
    → (after_change c false >>= λ held. held_after held es) ≡ some b
    → first_of c (first_change es) ≢ some false
first_of_press none es b ih h = ih h
first_of_press (some true) es b ih h = λ e. cc
first_of_press (some false) es b ih h = λ e. cc

first_press :
    (es : List Event) (b : Bool) → held_after false es ≡ some b → first_change es ≢ some false
unfolding held_after first_change
first_press [] b h = λ e. cc
first_press (e ∷ es) b h = first_of_press (left_change e) es b (first_press es b) h

toggle_twice :
    (ts : Pad)
    → ts.touchpad_off ≡ false
    → toggle_touchpad_status (toggle_touchpad_status ts) ≡ init_touchpad_state ts
unfolding toggle_touchpad_status init_touchpad_state
toggle_twice ts on = rw on refl

-- A drag has pressed the left button, and the touchpad is switched off and on again before the finger
-- is lifted: whatever happens then, taps and drags do not release the button; the first that they send
-- of it, if anything, is another press.
pub toggle_loses_release :
    (is is' : List Input) (ts : Pad)
    → let before = play is (init_touchpad_state ts) in
      before.1.tapstate ≡ ts_drag
      → before.1.touchpad_off ≡ false
      → (held_after false before.0 ≡ some true)
        × (first_change (play is' (toggle_touchpad_status (toggle_touchpad_status before.1))).0
            ≢ some false)
unfolding init_touchpad_state
toggle_loses_release is is' ts dragging on =
    let before = play is (init_touchpad_state ts) in
    let again = init_touchpad_state before.1 in
    (
      play-Ends is (init_touchpad_state ts) ∙ ap (λ t. some (is_drag t)) dragging,
      rw (toggle_twice before.1 on) (first_press (play is' again).0 _ (play-Ends is' again)),
    )
