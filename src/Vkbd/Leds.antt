-- ===== src/Vkbd/Leds.antt =====
-- The lights of the keyboard and keys that repeat.
use input.Vkbd.{toggle, xen_vkbd_handle_led}
use input.Base.{
  ◌==◌, if◌then◌else◌, pos, is_zero, Event, ev_key, ℕ, suc, ◌≡◌, refl, Bool, true, false, Option,
  none, some, arith,
}

toggle_2 : (leds : ℕ) → toggle (some 2) (toggle (some 2) leds) ≡ leds
toggle_2 leds = ground arith

toggle_1 : (leds : ℕ) → toggle (some 1) (toggle (some 1) leds) ≡ leds
toggle_1 leds = ground arith

toggle_0 : (leds : ℕ) → toggle (some 0) (toggle (some 0) leds) ≡ leds
toggle_0 leds = ground arith

toggle-twice :
    (a b c : Bool) (leds : ℕ)
    → (let o : Option ℕ = if a then some 2 else if b then some 1 else if c then some 0 else none in
        toggle o (toggle o leds) ≡ leds)
toggle-twice true b c leds = toggle_2 leds
toggle-twice false true c leds = toggle_1 leds
toggle-twice false false true leds = toggle_0 leds
toggle-twice false false false leds = refl

pressed : (n : ℕ) → is_zero (pos (suc n)) ≡ false
pressed n = ground arith

-- Two events of one key, neither a release, leave the lights as they were: two presses, but a press and
-- its first autorepeat as well.
pub xen_vkbd_handle_led-twice :
    (code leds n k : ℕ)
    → (let e : Event = record { type = ev_key; code = code; value = pos (suc n) } in
        let e' : Event = record { type = ev_key; code = code; value = pos (suc k) } in
        xen_vkbd_handle_led e' (xen_vkbd_handle_led e leds) ≡ leds)
unfolding xen_vkbd_handle_led
xen_vkbd_handle_led-twice code leds n k =
    let h = toggle-twice (code == 58) (code == 69) (code == 70) leds in rw (pressed n, pressed k) h
