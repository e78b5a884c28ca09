-- ===== src/Gesture/Handler.antt =====
-- gesture.c, `gesture_handler`: one event against the gestures that are in force.
use input.Base.{if◌then◌else◌, ◌>>=◌, ℤ, ℕ, ◌+◌, true, false, Option, some, List, [], ◌∷◌}
use input.Gesture.{
  Runstate, startup, running, stand_back, Gesture, goleft, goright, goup, cross_l, cross_r,
  Gestures, gestures_clean,
}
use input.Gesture.Match.{Matched, gesture_match, gesture_match_move}

-- The `push` argument: -1, 0 and 1.
pub data Push : Type 0 where
  moved released touched : Push

abbrev pub gestures : List Gesture
gestures = goleft ∷ goright ∷ goup ∷ cross_l ∷ cross_r ∷ []

abbrev pub standback_gestures : List Gesture
standback_gestures = cross_l ∷ cross_r ∷ []

unfoldable pub gesture_matcher : Gesture → ℕ → ℤ → ℤ → Push → Gestures → Option Matched
unfolding gesture_match gesture_match_move
gesture_matcher g slot x y moved s = gesture_match_move g slot x y s
gesture_matcher g slot x y released s = gesture_match g slot x y false s
gesture_matcher g slot x y touched s = gesture_match g slot x y true s

-- The loop over `glist`: the result, and the state.
unfoldable pub match_all : List Gesture → ℕ → ℤ → ℤ → Push → ℕ → Gestures → Option (ℕ × Gestures)
unfolding gesture_matcher gestures_clean
match_all [] slot x y push tracking s = some (tracking, s)
match_all (g ∷ gs) slot x y push tracking s = do
  m ← gesture_matcher g slot x y push s
  let on = match_all gs slot x y push (tracking + m.tracked) m.state
  if m.found then some (0, gestures_clean m.state) else on

abbrev pub started : Runstate → Gestures → Gestures
started startup s = record (gestures_clean s) { runstate = running }
started _ s = s

abbrev pub glist : Runstate → List Gesture
glist stand_back = standback_gestures
glist _ = gestures

unfoldable pub gesture_handler : ℕ → ℤ → ℤ → Push → Gestures → Option (ℕ × Gestures)
unfolding match_all gestures_clean
gesture_handler slot x y push s =
    let s' = started s.runstate s in match_all (glist s'.runstate) slot x y push 0 s'
