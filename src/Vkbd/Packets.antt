-- ===== src/Vkbd/Packets.antt =====
-- A packet of events gives its keys, in their order, and one motion and one position at its end.
use mathlib.Core.List.{append-nil}
use input.Vkbd.{
  motion, position, Message, Axes, Motions, no_motion, motion_message, position_message,
  after_motion, after_position, xen_event_told,
}
use input.Vkbd.Moves.{
  last_of, or_default, negated_in, on_axis, motions_in, axes_after, no_report, keys_of, tell_all,
  double_negation, neither, axes_of, motions_of, before_report, tell_all-append, packet_end,
}
use input.Base.{
  ◌==◌, if◌then◌else◌, ==_iff, Bool-cases, ℤ, pos, Event, ev_rel, ev_abs, ℕ, ◌+◌, ◌≡◌, refl, ap,
  ◌∙◌, inl, inr, Bool, true, false, not, ◌||◌, none, List, [], ◌∷◌, ◌++◌, arith,
}

abbrev pub has_type : ℕ → List Event → Bool
has_type t [] = false
has_type t (e ∷ es) = e.type == t || has_type t es

-- The last value on an axis, or what it was before.
abbrev pub value_after : ℕ → ℕ → ℤ → List Event → ℤ
value_after t code before es = or_default before (last_of (on_axis t code) es)

-- A wheel's value is turned round.
abbrev pub wheel_after : ℕ → List Event → ℤ
wheel_after t es = or_default (pos 0) (negated_in (last_of (on_axis t 8) es))

abbrev pub motion_told : List Event → List Message
motion_told es =
    if has_type ev_rel es
    then record {
      absolute = false;
      event =
          motion (value_after ev_rel 0 (pos 0) es) (value_after ev_rel 1 (pos 0) es)
            (wheel_after ev_rel es);
    }
      ∷ []
    else []

abbrev pub position_told : ℤ → ℤ → List Event → List Message
position_told x y es =
    if has_type ev_abs es
    then record {
      absolute = true;
      event =
          position (value_after ev_abs 0 x es) (value_after ev_abs 1 y es) (wheel_after ev_abs es);
    }
      ∷ []
    else []

-- Between packets only the last position is remembered.
abbrev pub resting : ℤ → ℤ → Motions
resting x y = record {
  relative = record { x = pos 0; y = pos 0; z = pos 0; count = 0 };
  absolute = record { x = x; y = y; z = pos 0; count = 0 };
}

no_motion_counted : (b : Bool) (n : ℕ) → ((if b then 1 else 0) + n) == 0 ≡ not (b || not (n == 0))
no_motion_counted true n = ground arith
no_motion_counted false n = ground arith

motions_in-has_type : (t : ℕ) (es : List Event) → motions_in t es == 0 ≡ not (has_type t es)
motions_in-has_type t [] = refl
motions_in-has_type t (e ∷ es) =
    no_motion_counted (e.type == t) (motions_in t es)
    ∙ rw (motions_in-has_type t es)
        (ap (λ b. not (e.type == t || b)) (double_negation (has_type t es)))

last_of-none :
    (t code : ℕ) (es : List Event) → has_type t es ≡ false → last_of (on_axis t code) es ≡ none
last_of-none t code [] h = refl
last_of-none t code (e ∷ es) h =
    let (this, rest) = neither (e.type == t) (has_type t es) h in
    rw (last_of-none t code es rest, this) refl

-- No event of the type.
axes_after-none :
    (t : ℕ) (es : List Event) (x y : ℤ)
    → has_type t es ≡ false
    → axes_after t es (axes_of x y (pos 0) 0) ≡ axes_of x y (pos 0) 0
axes_after-none t es x y h =
    let n : motions_in t es ≡ 0 = (==_iff _ _).0 (motions_in-has_type t es ∙ ap not h) in
    rw (last_of-none t 0 es h, last_of-none t 1 es h, last_of-none t 8 es h, n) refl

abbrev told_to : List Message → Axes → List Message × Axes
told_to ms a = (ms, a)

motion_lem :
    (es : List Event)
    → (let r = axes_after ev_rel es no_motion in
        told_to (motion_message r) (after_motion r) ≡ told_to (motion_told es) no_motion)
motion_lem es = elim (Bool-cases (has_type ev_rel es)) [
  | inl h ↦
      let n : (0 + motions_in ev_rel es) == 0 ≡ false =
        ap (λ k. k == 0) (omega arith) ∙ motions_in-has_type ev_rel es ∙ ap not h in
      rw (h, n) refl
  | inr h ↦
      ap (λ r. told_to (motion_message r) (after_motion r))
        (axes_after-none ev_rel es (pos 0) (pos 0) h)
      ∙ rw h refl
]

position_lem :
    (es : List Event) (x y : ℤ)
    → (let a = axes_after ev_abs es (resting x y).absolute in
        told_to (position_message a) (after_position a)
        ≡ told_to
            (position_told x y es)
            (resting (value_after ev_abs 0 x es) (value_after ev_abs 1 y es)).absolute)
position_lem es x y = elim (Bool-cases (has_type ev_abs es)) [
  | inl h ↦
      let n : (0 + motions_in ev_abs es) == 0 ≡ false =
        ap (λ k. k == 0) (omega arith) ∙ motions_in-has_type ev_abs es ∙ ap not h in
      rw (h, n) refl
  | inr h ↦
      ap (λ a. told_to (position_message a) (after_position a)) (axes_after-none ev_abs es x y h)
      ∙ rw (h, last_of-none ev_abs 0 es h, last_of-none ev_abs 1 es h) refl
]

-- A packet, any events but SYN_REPORT and then that, comes when the packet before has ended. Each key and
-- button in it is told in its order, one from BTN_LEFT to BTN_TASK to the absolute device and another to
-- the other one. Then, if it has a relative motion, that other device is told one motion, with the last
-- value of each axis and zero for one without any; then, if it has an absolute one, the absolute device is
-- told one position, with the last value of each axis and for x and y without any what was told before.
-- The wheels are turned round. After it the relative axes, the wheels and the counters are zero again and
-- x and y of the position remembered.
pub tell_all-packet :
    (es : List Event) (x y : ℤ)
    → no_report es ≡ true
    → tell_all (es ++ packet_end ∷ []) (resting x y) ≡ (
      keys_of es ++ (motion_told es ++ position_told x y es),
      resting (value_after ev_abs 0 x es) (value_after ev_abs 1 y es),
    )
unfolding tell_all xen_event_told
tell_all-packet es x y h =
    tell_all-append es (packet_end ∷ []) (resting x y)
    ∙ ap
        (λ (w : List Message × Motions).
          (w.0 ++ (tell_all (packet_end ∷ []) w.1).0, (tell_all (packet_end ∷ []) w.1).1))
        (before_report es (resting x y) h)
    ∙ ap
        (λ (ra : (List Message × Axes) × (List Message × Axes)).
          (keys_of es ++ ((ra.0.0 ++ ra.1.0) ++ []), motions_of ra.0.1 ra.1.1))
        (λ i. (motion_lem es i, position_lem es x y i))
    ∙ ap (λ ms. (keys_of es ++ ms, resting (value_after ev_abs 0 x es) (value_after ev_abs 1 y es)))
        (append-nil (motion_told es ++ position_told x y es))
