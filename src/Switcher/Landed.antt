-- ===== src/Switcher/Landed.antt =====
-- Where the pointer is after a switch.
use input.Switcher.Mouse.{
  max_mouse_abs_x, mouse_switch_prev, Surroundings, switcher_switch_makes_sense, is_inside,
  switch_into, to_prev, past_edge, from_guest, switcher_switch_on_mouse,
}
use input.Base.{
  ◌==◌, if◌then◌else◌, ℤ, pos, negsuc, ◌-ℤ◌, ltb_ℤ, eqb_ℤ, is_zero, Event, ev_abs, ◌≡◌, refl, sym,
  ap, ◌∙◌, Bool, true, false, not, ◌&&◌, ◌||◌, Option, none, some,
}

-- The place of the pointer, if there was a switch, is inside.
abbrev lands : Option (ℤ × ℤ) → Bool
lands none = true
lands (some p) = is_inside p.1

lands-if :
    (b : Bool) (o o' : Option (ℤ × ℤ))
    → lands o ≡ true
    → lands o' ≡ true
    → lands (if b then o else o') ≡ true
lands-if true o o' h h' = h
lands-if false o o' h h' = h'

lands-switch_into :
    (s : Surroundings) (slot x : ℤ) → is_inside x ≡ true → lands (switch_into s slot x) ≡ true
lands-switch_into s slot x h =
    lands-if (not (ltb_ℤ slot (pos 0)) && s.switched slot) (some (slot, x)) none h refl

lands-to_prev :
    (s : Surroundings) (o : Option ℤ) (x : ℤ) → is_inside x ≡ true → lands (to_prev s o x) ≡ true
lands-to_prev s none x h = refl
lands-to_prev s (some slot) x h = lands-switch_into s slot x h

lands-past_edge :
    (s : Surroundings) (from slot x : ℤ)
    → is_inside x ≡ true
    → lands (past_edge s from slot x) ≡ true
lands-past_edge s from slot x h =
    lands-if (eqb_ℤ slot (negsuc 0) || not (switcher_switch_makes_sense s from slot)) none
      (if eqb_ℤ slot mouse_switch_prev then to_prev s s.surface_current x else switch_into s slot x)
      refl
      (lands-if (eqb_ℤ slot mouse_switch_prev) (to_prev s s.surface_current x)
        (switch_into s slot x) (lands-to_prev s s.surface_current x h)
        (lands-switch_into s slot x h))

lands-from_guest : (s : Surroundings) (o : Option ℤ) (x : ℤ) → lands (from_guest s o x) ≡ true
lands-from_guest s none x = refl
lands-from_guest s (some from) x =
    let l = past_edge s from s.left (max_mouse_abs_x -ℤ pos 1) in
    let r = past_edge s from s.right (pos 1) in
    let o : Option (ℤ × ℤ) = if eqb_ℤ x max_mouse_abs_x then r else none in
    lands-if (not s.supports_abs || is_inside x || s.disabled) none (if is_zero x then l else o)
      refl
      (lands-if (is_zero x) l o (lands-past_edge s from s.left (max_mouse_abs_x -ℤ pos 1) refl) (
        lands-if (eqb_ℤ x max_mouse_abs_x) r none (lands-past_edge s from s.right (pos 1) refl)
          refl))

lands-switch :
    (s : Surroundings) (e : Event) (x : ℤ) → lands (switcher_switch_on_mouse s e x) ≡ true
unfolding switcher_switch_on_mouse
lands-switch s e x =
    lands-if (e.type == ev_abs) (from_guest s s.current x) none (lands-from_guest s s.current x)
      refl

inside_stays :
    (a b c : Bool) (o : Option (ℤ × ℤ)) → b ≡ true → (if not a || b || c then none else o) ≡ none
inside_stays true b c o h = rw (h) refl
inside_stays false b c o h = refl

none-if : (b : Bool) (o : Option (ℤ × ℤ)) → o ≡ none → (if b then o else none) ≡ none
none-if true o h = h
none-if false o h = refl

stays : (s : Surroundings) (o : Option ℤ) (x : ℤ) → is_inside x ≡ true → from_guest s o x ≡ none
stays s none x h = refl
stays s (some from) x h =
    inside_stays s.supports_abs (is_inside x) s.disabled
      (if is_zero x
        then past_edge s from s.left (max_mouse_abs_x -ℤ pos 1)
        else if eqb_ℤ x max_mouse_abs_x
        then past_edge s from s.right (pos 1)
        else none)
      h

-- The pointer at an edge made the screen go to another guest: at the place where the pointer was put in it,
-- no event, and whatever its neighbours and adapters are, makes the screen go on or back.
pub switcher_switch_on_mouse-once :
    (s s' : Surroundings) (e e' : Event) (x slot x' : ℤ)
    → switcher_switch_on_mouse s e x ≡ some (slot, x')
    → switcher_switch_on_mouse s' e' x' ≡ none
unfolding switcher_switch_on_mouse
switcher_switch_on_mouse-once s s' e e' x slot x' h =
    let i : is_inside x' ≡ true = ap lands (sym h) ∙ lands-switch s e x in
    none-if (e'.type == ev_abs) (from_guest s' s'.current x') (stays s' s'.current x' i)
