-- ===== src/Gesture/Overrun.antt =====
-- The handler over all gestures: when it stays within the arrays, and when it does not.
use input.Gesture.Match.{Matched}
use input.Gesture.Moves.{gesture_match_move-Stays}
use input.Gesture.Frames.{Frames, gesture_matcher-Frames}
use input.Base.{
  Bool-cases, All, ℤ, ℕ, ◌+◌, ◌<◌, ◌≡◌, refl, ◌∙◌, subst, ◌≢◌, inl, inr, Bool, true, false, ◌||◌,
  Option, none, some, List, [], ◌∷◌, arith,
}
use input.Gesture.{Runstate, Gesture, Gestures, num_fingers, cursor, gestures_clean}
use input.Gesture.Bounds.{IsValid, overruns, gesture_match_overrun, Stays, gesture_match-Stays}
use input.Gesture.Handler.{Push, moved, released, touched, gesture_matcher, match_all}

abbrev pub overruns_by : Push → Gesture → ℤ → ℤ → Gestures → Bool
overruns_by moved g x y s = false
overruns_by released g x y s = overruns g x y false s
overruns_by touched g x y s = overruns g x y true s

abbrev pub AllDistinct : List Gesture → Type 0
AllDistinct [] = Unit
AllDistinct (g ∷ gs) = All (λ h. h ≢ g) gs × AllDistinct gs

-- Some gesture of the list is a cross whose second sub-action succeeds.
abbrev pub any_overruns : List Gesture → ℤ → ℤ → Push → Gestures → Bool
any_overruns [] x y p s = false
any_overruns (g ∷ gs) x y p s = overruns_by p g x y s || any_overruns gs x y p s

pub matcher-Stays :
    (g : Gesture) (slot : ℕ) (x y : ℤ) (p : Push) (s : Gestures)
    → IsValid s
    → slot < num_fingers
    → overruns_by p g x y s ≡ false
    → Stays s.runstate (gesture_matcher g slot x y p s)
unfolding gesture_matcher
matcher-Stays g slot x y moved s v i o = gesture_match_move-Stays g slot x y s v i
matcher-Stays g slot x y released s v i o = gesture_match-Stays g slot x y false s v i o
matcher-Stays g slot x y touched s v i o = gesture_match-Stays g slot x y true s v i o

pub matcher_overrun :
    (g : Gesture) (slot : ℕ) (x y : ℤ) (p : Push) (s : Gestures)
    → IsValid s
    → slot < num_fingers
    → overruns_by p g x y s ≡ true
    → gesture_matcher g slot x y p s ≡ none
unfolding gesture_matcher
matcher_overrun g slot x y moved s v i o = cc
matcher_overrun g slot x y released s v i o = gesture_match_overrun g slot x y false s v i o
matcher_overrun g slot x y touched s v i o = gesture_match_overrun g slot x y true s v i o

overruns_by-cong :
    (p : Push) (g : Gesture) (x y : ℤ) (s t : Gestures)
    → cursor g t ≡ cursor g s
    → overruns_by p g x y t ≡ overruns_by p g x y s
overruns_by-cong moved g x y s t e = refl
overruns_by-cong released g x y s t e = rw e
overruns_by-cong touched g x y s t e = rw e

-- The gestures of a list keep their cursors.
abbrev pub Same : List Gesture → Gestures → Gestures → Type 0
Same gs s t = All (λ g. cursor g t ≡ cursor g s) gs

pub Same-after :
    (g : Gesture) (gs : List Gesture) (slot : ℕ) (x y : ℤ) (p : Push) (s : Gestures) (m : Matched)
    → IsValid s
    → gesture_matcher g slot x y p s ≡ some m
    → All (λ h. h ≢ g) gs
    → Same gs s m.state
Same-after g [] slot x y p s m v e d = tt
Same-after g (h ∷ gs) slot x y p s m v e (n, d) = (
  subst (Frames g h s) e (gesture_matcher-Frames g h slot x y p s v n),
  Same-after g gs slot x y p s m v e d,
)

pub any_overruns-Same :
    (gs : List Gesture) (x y : ℤ) (p : Push) (s t : Gestures)
    → Same gs s t
    → any_overruns gs x y p t ≡ any_overruns gs x y p s
any_overruns-Same [] x y p s t e = refl
any_overruns-Same (g ∷ gs) x y p s t (e, es) =
    rw (overruns_by-cong p g x y s t e, any_overruns-Same gs x y p s t es)

abbrev pub Handled : Runstate → Option (ℕ × Gestures) → Type 0
Handled r o = (n : ℕ) × (t : Gestures) × (o ≡ some (n, t)) × IsValid t × (t.runstate ≡ r)

pub gestures_clean-IsValid : (s : Gestures) → IsValid s → IsValid (gestures_clean s)
unfolding gestures_clean
gestures_clean-IsValid s v = ground arith

pub Stays-some :
    (r : Runstate) (o : Option Matched)
    → Stays r o
    → (m : Matched) × (o ≡ some m) × IsValid m.state × (m.state.runstate ≡ r)
Stays-some r none v = elim v [ ]
Stays-some r (some m) (v, e) = (m, refl, v, e)

pub match_all-Handled :
    (gs : List Gesture) (slot : ℕ) (x y : ℤ) (p : Push) (n : ℕ) (r : Runstate) (s : Gestures)
    → s.runstate ≡ r
    → AllDistinct gs
    → IsValid s
    → slot < num_fingers
    → any_overruns gs x y p s ≡ false
    → Handled r (match_all gs slot x y p n s)
unfolding match_all gestures_clean
match_all-Handled [] slot x y p n r s er d v i o = (n, s, refl, v, er)
match_all-Handled (g ∷ gs) slot x y p n r s er (d, ds) v i o =
    let (m, e, mv, mr) =
      Stays-some s.runstate (gesture_matcher g slot x y p s)
        (matcher-Stays g slot x y p s v i (ground arith)) in
    let same = Same-after g gs slot x y p s m v e d in
    elim (Bool-cases m.found) [
      | inl f ↦
          rw e (rw f (0, gestures_clean m.state, refl, gestures_clean-IsValid m.state mv, mr ∙ er))
      | inr f ↦ rw e (
          rw f (
            match_all-Handled gs slot x y p (n + m.tracked) r m.state (mr ∙ er) ds mv i
              (any_overruns-Same gs x y p s m.state same ∙ ground arith)))
    ]
