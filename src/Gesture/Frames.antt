-- ===== src/Gesture/Frames.antt =====
-- What a gesture leaves alone: the cursors of the others.
use input.Base.{
  ◌>>=◌, get_elem?, ℤ, ◌-ℤ◌, ℕ, ◌<◌, ◌≡◌, ◌≢◌, Bool, true, false, Option, none, some, arith,
}
use input.Gesture.{
  SmallactionSlot, SmallactionList, Gesture, goleft, goright, goup, cross_l, cross_r, Gestures,
  actionlist, cursor, put_cursor,
}
use input.Gesture.Match.{Matched, put_finger, gesture_match, check_move, gesture_match_move}
use input.Gesture.Bounds.{IsValid}
use input.Gesture.Handler.{Push, moved, released, touched, gesture_matcher}

-- A gesture moves no cursor but its own.
abbrev pub Frames : Gesture → Gesture → Gestures → Option Matched → Type 0
Frames g g' s none = Unit {0}
Frames g g' s (some m) = cursor g' m.state ≡ cursor g' s

gesture_match-Frames :
    (g g' : Gesture) (slot : ℕ) (x y : ℤ) (push : Bool) (s : Gestures)
    → IsValid s
    → g' ≢ g
    → Frames g g' s (gesture_match g slot x y push s)
unfolding gesture_match cursor
gesture_match-Frames goleft g' slot x y push s v n = ground arith
gesture_match-Frames goright g' slot x y push s v n = ground arith
gesture_match-Frames goup g' slot x y push s v n = ground arith
gesture_match-Frames cross_l g' slot x y push s v n = ground arith
gesture_match-Frames cross_r g' slot x y push s v n = ground arith

check_move-Frames :
    (g g' : Gesture) (l : SmallactionList) (a : SmallactionSlot) (slot : ℕ) (x y dx dy : ℤ)
    (s : Gestures)
    → g' ≢ g
    → Frames g g' s (check_move g l a slot x y dx dy s)
unfolding check_move cursor put_cursor put_finger
check_move-Frames g g' l a slot x y dx dy s n = ground arith

bind-Frames {ℓ} :
    {A : Type ℓ} (g g' : Gesture) (s : Gestures) (o : Option A) (f : A → Option Matched)
    → ((a : A) → Frames g g' s (f a))
    → Frames g g' s (o >>= f)
bind-Frames g g' s none f h = tt
bind-Frames g g' s (some a) f h = h a

gesture_match_move-Frames :
    (g g' : Gesture) (slot : ℕ) (x y : ℤ) (s : Gestures)
    → g' ≢ g
    → Frames g g' s (gesture_match_move g slot x y s)
unfolding gesture_match_move
gesture_match_move-Frames g g' slot x y s n =
    bind-Frames g g' s (get_elem? (actionlist g) (cursor g s).act) _ λ l.
      bind-Frames g g' s l.actions _ λ acts.
        bind-Frames g g' s (get_elem? acts (cursor g s).sub_act) _ λ a.
          bind-Frames g g' s (get_elem? s.fingers slot) _
            λ f. check_move-Frames g g' l a slot x y (x -ℤ f.last_x) (y -ℤ f.last_y) s n

pub gesture_matcher-Frames :
    (g g' : Gesture) (slot : ℕ) (x y : ℤ) (p : Push) (s : Gestures)
    → IsValid s
    → g' ≢ g
    → Frames g g' s (gesture_matcher g slot x y p s)
unfolding gesture_matcher
gesture_matcher-Frames g g' slot x y moved s v n = gesture_match_move-Frames g g' slot x y s n
gesture_matcher-Frames g g' slot x y released s v n = gesture_match-Frames g g' slot x y false s v n
gesture_matcher-Frames g g' slot x y touched s v n = gesture_match-Frames g g' slot x y true s v n

-- A gesture that is not one step from its end is not recognised.
abbrev pub Unfound : Option Matched → Type 0
Unfound none = Unit {0}
Unfound (some m) = m.found ≡ false

gesture_match-Unfound :
    (g : Gesture) (slot : ℕ) (x y : ℤ) (push : Bool) (s : Gestures)
    → IsValid s
    → (cursor g s).sub_act < 3
    → Unfound (gesture_match g slot x y push s)
unfolding gesture_match cursor
gesture_match-Unfound goleft slot x y push s v h = ground arith
gesture_match-Unfound goright slot x y push s v h = ground arith
gesture_match-Unfound goup slot x y push s v h = ground arith
gesture_match-Unfound cross_l slot x y push s v h = ground arith
gesture_match-Unfound cross_r slot x y push s v h = ground arith

check_move-Unfound :
    (g : Gesture) (l : SmallactionList) (a : SmallactionSlot) (slot : ℕ) (x y dx dy : ℤ)
    (s : Gestures)
    → Unfound (check_move g l a slot x y dx dy s)
unfolding check_move put_finger
check_move-Unfound g l a slot x y dx dy s = ground arith

bind-Unfound {ℓ} :
    {A : Type ℓ} (o : Option A) (f : A → Option Matched)
    → ((a : A) → Unfound (f a))
    → Unfound (o >>= f)
bind-Unfound none f h = tt
bind-Unfound (some a) f h = h a

gesture_match_move-Unfound :
    (g : Gesture) (slot : ℕ) (x y : ℤ) (s : Gestures) → Unfound (gesture_match_move g slot x y s)
unfolding gesture_match_move
gesture_match_move-Unfound g slot x y s =
    bind-Unfound (get_elem? (actionlist g) (cursor g s).act) _ λ l. bind-Unfound l.actions _ λ acts.
      bind-Unfound (get_elem? acts (cursor g s).sub_act) _ λ a.
        bind-Unfound (get_elem? s.fingers slot) _
          λ f. check_move-Unfound g l a slot x y (x -ℤ f.last_x) (y -ℤ f.last_y) s

pub gesture_matcher-Unfound :
    (g : Gesture) (slot : ℕ) (x y : ℤ) (p : Push) (s : Gestures)
    → IsValid s
    → (cursor g s).sub_act < 3
    → Unfound (gesture_matcher g slot x y p s)
unfolding gesture_matcher
gesture_matcher-Unfound g slot x y moved s v h = gesture_match_move-Unfound g slot x y s
gesture_matcher-Unfound g slot x y released s v h = gesture_match-Unfound g slot x y false s v h
gesture_matcher-Unfound g slot x y touched s v h = gesture_match-Unfound g slot x y true s v h
