-- ===== src/MouseButtons/Laws.antt =====
-- The behaviour of `check_mouse_keys`.
use mathlib.Core.List.{append-nil}
use input.Base.{
  length, length-append, ℤ, is_zero, Event, btn_misc, btn_joystick, ℕ, ◌≤◌, ◌<◌, ◌≡◌, refl, ◌≢◌,
  true, false, none, List, [], ◌∷◌, ◌++◌, arith,
}
use input.MouseButtons.{max_num_pressed, MouseButton, remove, find, press, check_mouse_keys}

length-remove :
    (code : ℕ) (slot : ℤ) (bs : List MouseButton) → length (remove code slot bs) ≤ length bs
unfolding remove
length-remove code slot [] = omega arith
length-remove code slot (b ∷ bs) = ground (arith, length-remove code slot bs)

length-press :
    (d : ℕ) (slot : ℤ) (x y : ℕ) (e : Event) (bs : List MouseButton)
    → length bs ≤ max_num_pressed
    → length (press d slot x y e bs) ≤ max_num_pressed
unfolding press
length-press d slot x y e bs h =
    ground (
      arith,
      length-append bs (record { code = e.code; domain = d; slot = slot; x = x; y = y } ∷ []),
    )

-- No event makes the table outgrow its array of five entries.
pub check_mouse_keys_bounded :
    (d : ℕ) (slot : ℤ) (x y : ℕ) (e : Event) (bs : List MouseButton)
    → length bs ≤ max_num_pressed
    → length (check_mouse_keys d slot x y e bs).pressed ≤ max_num_pressed
unfolding check_mouse_keys
check_mouse_keys_bounded d slot x y e bs h =
    ground (arith, length-press d slot x y e bs h, length-remove e.code slot bs)

find-append :
    (code : ℕ) (slot : ℤ) (bs cs : List MouseButton)
    → find code slot bs ≡ none
    → find code slot (bs ++ cs) ≡ find code slot cs
unfolding find
find-append code slot [] cs h = refl
find-append code slot (b ∷ bs) cs h = ground (arith, find-append code slot bs cs)

remove-append :
    (code : ℕ) (slot : ℤ) (bs cs : List MouseButton)
    → find code slot bs ≡ none
    → remove code slot (bs ++ cs) ≡ bs ++ remove code slot cs
unfolding find remove
remove-append code slot [] cs h = refl
remove-append code slot (b ∷ bs) cs h = ground (arith, remove-append code slot bs cs)

-- A mouse button that goes down while `d` has the mouse and comes up after the mouse has moved on
-- to `d'`: if it was not down yet on that device and the table has room, the press is logged and
-- goes the usual way, the release goes to `d` and to nobody else, and the table is as it was before.
pub press-release :
    (d d' : ℕ) (slot : ℤ) (x y x' y' : ℕ) (down up : Event) (bs : List MouseButton)
    → btn_misc ≤ down.code
    → down.code < btn_joystick
    → up.code ≡ down.code
    → is_zero down.value ≡ false
    → is_zero up.value ≡ true
    → length bs < max_num_pressed
    → find down.code slot bs ≡ none
    → d ≢ d'
    → let first = check_mouse_keys d slot x y down bs in
      (first.redirected ≡ false)
      × (first.sent ≡ [])
      × (check_mouse_keys d' slot x' y' up first.pressed ≡ record {
        pressed = bs;
        sent = record { domain = d; slot = slot; event = up } ∷ [];
        redirected = true;
      })
unfolding check_mouse_keys find remove
press-release d d' slot x y x' y' down up bs lo hi same is_down is_up room fresh moved =
    let b : MouseButton = record { code = down.code; domain = d; slot = slot; x = x; y = y } in
    ground (
      arith,
      find-append down.code slot bs (b ∷ []) fresh,
      remove-append down.code slot bs (b ∷ []) fresh,
      append-nil bs,
    )
