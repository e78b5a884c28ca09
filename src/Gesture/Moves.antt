-- ===== src/Gesture/Moves.antt =====
-- A move keeps the gestures within their arrays.
use input.Base.{
  ltb, ◌==◌, Bool-cases, ◌>>=◌, length, get_elem?, length-set, ℤ, ◌-ℤ◌, abs, ℕ, zero, suc, ◌<◌, ◌≡◌,
  refl, inl, inr, false, ◌&&◌, ◌||◌, Option, some, List, [], ◌∷◌, arith,
}
use input.Gesture.{
  left, right, top, bottom, top_left, top_right, bottom_left, bottom_right, move_left, move_right,
  move_up, move_left_down, move_right_down, SmallactionSlot, SmallactionList, Runstate, Gesture,
  goleft, goright, goup, cross_l, cross_r, Cursor, Gestures, num_fingers, min_dist,
  singledrag_actions, twodrag_actions, list_of, actionlist, cursor, put_cursor, at_start,
}
use input.Gesture.Match.{
  Matched, resolve_move, tracks, put_finger, is_wrong_move, is_free, check_move, gesture_match_move,
}
use input.Gesture.Bounds.{InTable, IsValid, Stays}

get_elem?-some {ℓ} :
    {A : Type ℓ} (xs : List A) (i : ℕ) → i < length xs → (a : A) × (get_elem? xs i ≡ some a)
get_elem?-some [] i h = elim h [ ]
get_elem?-some (x ∷ xs) zero h = (x, refl)
get_elem?-some (x ∷ xs) (suc i) h = get_elem?-some xs i (omega arith)

put_finger-Stays :
    (slot : ℕ) (x y : ℤ) (n : ℕ) (s : Gestures)
    → IsValid s
    → slot < num_fingers
    → Stays s.runstate
        (put_finger slot x y s >>= λ s'. some (record { found = false; tracked = n; state = s' }))
unfolding put_finger
put_finger-Stays slot x y n s v i =
    ground (arith, length-set s.fingers slot (record { last_x = x; last_y = y }))

put_cursor-IsValid :
    (g : Gesture) (s : Gestures)
    → IsValid s
    → IsValid (put_cursor g at_start s) × ((put_cursor g at_start s).runstate ≡ s.runstate)
unfolding put_cursor
put_cursor-IsValid g s v = ground arith

check_move-Stays :
    (g : Gesture) (l : SmallactionList) (a : SmallactionSlot) (slot : ℕ) (x y dx dy : ℤ)
    (s : Gestures)
    → IsValid s
    → slot < num_fingers
    → Stays s.runstate (check_move g l a slot x y dx dy s)
unfolding check_move
check_move-Stays g l a slot x y dx dy s v i =
    elim (Bool-cases ((cursor g s).act == 0 && (cursor g s).sub_act == 0)) [
      | inl idle ↦ rw idle (v, refl)
      | inr busy ↦
          elim (Bool-cases ((ltb (abs dx) min_dist && ltb (abs dy) min_dist) || is_free a.pmove)) [
            | inl free ↦ rw (busy, free) (v, refl)
            | inr strict ↦ elim (Bool-cases (is_wrong_move (resolve_move a.pmove l) dx dy)) [
              | inl wrong ↦ rw (busy, strict, wrong) (put_cursor-IsValid g s v)
              | inr fine ↦
                  rw (busy, strict, fine) (put_finger-Stays slot x y (tracks (cursor g s)) s v i)
            ]
          ]
    ]

bind-Stays {ℓ} :
    {A : Type ℓ} (r : Runstate) (o : Option A) (f : A → Option Matched)
    → (a : A) × (o ≡ some a)
    → ((a : A) → Stays r (f a))
    → Stays r (o >>= f)
bind-Stays r o f (a, e) h = rw e (h a)

reads_in :
    (g : Gesture) (c : Cursor)
    → InTable g c
    → (l : SmallactionList) × (acts : List SmallactionSlot) × (get_elem? (actionlist g) c.act
        ≡ some l)
      × (l.actions ≡ some acts)
      × ((a : SmallactionSlot) × (get_elem? acts c.sub_act ≡ some a))
reads_in goleft c t = (
  list_of twodrag_actions right left move_left,
  twodrag_actions,
  ground arith,
  refl,
  get_elem?-some twodrag_actions c.sub_act (omega arith),
)
reads_in goright c t = (
  list_of twodrag_actions left right move_right,
  twodrag_actions,
  ground arith,
  refl,
  get_elem?-some twodrag_actions c.sub_act (omega arith),
)
reads_in goup c t = (
  list_of twodrag_actions bottom top move_up,
  twodrag_actions,
  ground arith,
  refl,
  get_elem?-some twodrag_actions c.sub_act (omega arith),
)
reads_in cross_l c t = (
  list_of singledrag_actions top_left bottom_right move_right_down,
  singledrag_actions,
  ground arith,
  refl,
  get_elem?-some singledrag_actions c.sub_act (omega arith),
)
reads_in cross_r c t = (
  list_of singledrag_actions top_right bottom_left move_left_down,
  singledrag_actions,
  ground arith,
  refl,
  get_elem?-some singledrag_actions c.sub_act (omega arith),
)

valid-InTable : (g : Gesture) (s : Gestures) → IsValid s → InTable g (cursor g s)
unfolding cursor
valid-InTable goleft s v = v.goleft_in
valid-InTable goright s v = v.goright_in
valid-InTable goup s v = v.goup_in
valid-InTable cross_l s v = v.cross_l_in
valid-InTable cross_r s v = v.cross_r_in

pub gesture_match_move-Stays :
    (g : Gesture) (slot : ℕ) (x y : ℤ) (s : Gestures)
    → IsValid s
    → slot < num_fingers
    → Stays s.runstate (gesture_match_move g slot x y s)
unfolding gesture_match_move
gesture_match_move-Stays g slot x y s v i =
    let (l, acts, el, ea, read) = reads_in g (cursor g s) (valid-InTable g s v) in
    rw el (
      rw ea (
        bind-Stays s.runstate (get_elem? acts (cursor g s).sub_act) _ read λ a.
          bind-Stays s.runstate (get_elem? s.fingers slot) _
            (get_elem?-some s.fingers slot (omega (arith, v.three_fingers)))
            λ f. check_move-Stays g l a slot x y (x -ℤ f.last_x) (y -ℤ f.last_y) s v i))
