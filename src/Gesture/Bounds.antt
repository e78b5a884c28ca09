-- ===== src/Gesture/Bounds.antt =====
-- Where the arrays of gesture.c are read: the state that keeps within them, and the one way out.
use input.Base.{
  ◌==◌, if◌then◌else◌, length, length-set, ℤ, ℕ, ◌<◌, ◌≡◌, Bool, true, false, not, ◌&&◌, Option,
  none, some, arith,
}
use input.Gesture.{
  GesturePosition, na_p, bottom_left, bottom_right, Runstate, Gesture, goleft, goright, goup,
  cross_l, cross_r, Cursor, Gestures, num_fingers, position_match, cursor,
}
use input.Gesture.Match.{Matched, gesture_match}

abbrev pub is_cross : Gesture → Bool
is_cross cross_l = true
is_cross cross_r = true
is_cross _ = false

-- How many sub-actions a gesture's first list has before its end.
abbrev pub sub_actions : Gesture → ℕ
sub_actions g = if is_cross g then 2 else 4

abbrev pub InTable : Gesture → Cursor → Type 0
InTable g c = (c.act ≡ 0) × (c.sub_act < sub_actions g)

-- Every gesture is within its first list, and there are three fingers.
pub record IsValid (s : Gestures) : Type 0 where
  pub three_fingers : length s.fingers ≡ num_fingers
  pub goleft_in : InTable goleft s.goleft_at
  pub goright_in : InTable goright s.goright_at
  pub goup_in : InTable goup s.goup_at
  pub cross_l_in : InTable cross_l s.cross_l_at
  pub cross_r_in : InTable cross_r s.cross_r_at

-- Where the second sub-action of a cross is released.
abbrev pub cross_end : Gesture → GesturePosition
cross_end cross_l = bottom_right
cross_end cross_r = bottom_left
cross_end _ = na_p

-- The second sub-action of a cross succeeds.
abbrev pub overruns : Gesture → ℤ → ℤ → Bool → Gestures → Bool
overruns g x y push s =
    is_cross g && (cursor g s).sub_act == 1 && not push && position_match (cross_end g) x y

pub gesture_match_overrun :
    (g : Gesture) (slot : ℕ) (x y : ℤ) (push : Bool) (s : Gestures)
    → IsValid s
    → slot < num_fingers
    → overruns g x y push s ≡ true
    → gesture_match g slot x y push s ≡ none
unfolding gesture_match cursor
gesture_match_overrun goleft slot x y push s v i o = cc
gesture_match_overrun goright slot x y push s v i o = cc
gesture_match_overrun goup slot x y push s v i o = cc
gesture_match_overrun cross_l slot x y push s v i o = ground arith
gesture_match_overrun cross_r slot x y push s v i o = ground arith

-- The read stays inside the arrays, and so will the next one; the run state is the given one.
abbrev pub Stays : Runstate → Option Matched → Type 0
Stays r none = ⊥
Stays r (some m) = IsValid m.state × (m.state.runstate ≡ r)

pub gesture_match-Stays :
    (g : Gesture) (slot : ℕ) (x y : ℤ) (push : Bool) (s : Gestures)
    → IsValid s
    → slot < num_fingers
    → overruns g x y push s ≡ false
    → Stays s.runstate (gesture_match g slot x y push s)
unfolding gesture_match cursor
gesture_match-Stays goleft slot x y push s v i o =
    ground (arith, length-set s.fingers slot (record { last_x = x; last_y = y }))
gesture_match-Stays goright slot x y push s v i o =
    ground (arith, length-set s.fingers slot (record { last_x = x; last_y = y }))
gesture_match-Stays goup slot x y push s v i o =
    ground (arith, length-set s.fingers slot (record { last_x = x; last_y = y }))
gesture_match-Stays cross_l slot x y push s v i o =
    ground (arith, length-set s.fingers slot (record { last_x = x; last_y = y }))
gesture_match-Stays cross_r slot x y push s v i o =
    ground (arith, length-set s.fingers slot (record { last_x = x; last_y = y }))
