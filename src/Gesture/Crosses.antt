-- ===== src/Gesture/Crosses.antt =====
-- gesture_handler on a whole event.
use input.Gesture.Frames.{Unfound, gesture_matcher-Unfound}
use input.Base.{
  Bool-cases, All, ℤ, ℕ, ◌+◌, ◌<◌, ◌≡◌, refl, ◌∙◌, subst, ◌≢◌, inl, inr, true, false, none, some,
  List, [], ◌∷◌, arith,
}
use input.Gesture.{
  Runstate, startup, running, stand_back, Gesture, Gestures, num_fingers, cursor, gestures_clean,
}
use input.Gesture.Bounds.{IsValid}
use input.Gesture.Handler.{Push, gesture_matcher, match_all, started, glist, gesture_handler}
use input.Gesture.Overrun.{
  overruns_by, AllDistinct, any_overruns, matcher-Stays, matcher_overrun, Same, Same-after,
  any_overruns-Same, Stays-some, match_all-Handled,
}

glist-AllDistinct : (r : Runstate) → AllDistinct (glist r)
glist-AllDistinct startup = grind arith
glist-AllDistinct running = grind arith
glist-AllDistinct stand_back = grind arith

started-IsValid : (s : Gestures) → IsValid s → IsValid (started s.runstate s)
unfolding gestures_clean
started-IsValid s v = ground arith

started_already : (s : Gestures) → s.runstate ≢ startup → started s.runstate s ≡ s
started_already s h = ground arith

-- Unless it is the event that completes a cross gesture of those in force, an event on one of the three
-- fingers is handled within the bounds of every array: the handler has a result, the state keeps
-- within the arrays, and the run state is as it was, or `running` after the start. So standing back
-- and forward, which only a completed cross would do, never happens.
pub gesture_handler-Handled :
    (slot : ℕ) (x y : ℤ) (p : Push) (s : Gestures)
    → IsValid s
    → slot < num_fingers
    → any_overruns (glist (started s.runstate s).runstate) x y p (started s.runstate s) ≡ false
    → (n : ℕ) × (t : Gestures) × (gesture_handler slot x y p s ≡ some (n, t))
      × IsValid t
      × (t.runstate ≡ (started s.runstate s).runstate)
unfolding gesture_handler
gesture_handler-Handled slot x y p s v i o =
    let s' = started s.runstate s in
    match_all-Handled (glist s'.runstate) slot x y p 0 s'.runstate s' refl
      (glist-AllDistinct s'.runstate) (started-IsValid s v) i o

-- No gesture of the list is one step from its end.
abbrev pub Early : List Gesture → Gestures → Type 0
Early gs s = All (λ g. (cursor g s).sub_act < 3) gs

Early-Same : (gs : List Gesture) (s t : Gestures) → Same gs s t → Early gs s → Early gs t
Early-Same [] s t e h = tt
Early-Same (g ∷ gs) s t (e, es) (h, hs) = (rw e h, Early-Same gs s t es hs)

match_all_overrun :
    (gs : List Gesture) (slot : ℕ) (x y : ℤ) (p : Push) (n : ℕ) (s : Gestures)
    → AllDistinct gs
    → IsValid s
    → slot < num_fingers
    → Early gs s
    → any_overruns gs x y p s ≡ true
    → match_all gs slot x y p n s ≡ none
unfolding match_all
match_all_overrun [] slot x y p n s d v i h o = cc
match_all_overrun (g ∷ gs) slot x y p n s (d, ds) v i (h, hs) o =
    elim (Bool-cases (overruns_by p g x y s)) [
      | inl now ↦ rw (matcher_overrun g slot x y p s v i now)
      | inr later ↦
          let (m, e, mv, mr) =
            Stays-some s.runstate (gesture_matcher g slot x y p s)
              (matcher-Stays g slot x y p s v i later) in
          let same = Same-after g gs slot x y p s m v e d in
          let unfound : m.found ≡ false =
            subst Unfound e (gesture_matcher-Unfound g slot x y p s v h) in
          rw e (
            rw unfound (
              match_all_overrun gs slot x y p (n + m.tracked) m.state ds mv i
                (Early-Same gs s m.state same hs)
                (any_overruns-Same gs x y p s m.state same ∙ ground arith)))
    ]

-- The event that completes a cross gesture reads past the end of `singledrag_actions`, which lacks
-- its ENDACTION: whenever a cross in force has its second sub-action succeed, and no gesture in
-- force is one step from its end, the handler's behaviour is undefined.
pub gesture_handler_overrun :
    (slot : ℕ) (x y : ℤ) (p : Push) (s : Gestures)
    → IsValid s
    → slot < num_fingers
    → s.runstate ≢ startup
    → Early (glist s.runstate) s
    → any_overruns (glist s.runstate) x y p s ≡ true
    → gesture_handler slot x y p s ≡ none
unfolding gesture_handler
gesture_handler_overrun slot x y p s v i r h o =
    rw (started_already s r)
      (match_all_overrun (glist s.runstate) slot x y p 0 s (glist-AllDistinct s.runstate) v i h o)
