-- ===== src/Gesture/Match.antt =====
-- gesture.c, `gesture_match` and `gesture_match_move`: one gesture against one event.
use input.Base.{
  ltb, ◌==◌, if◌then◌else◌, ◌>>=◌, length, get_elem?, set, ℤ, pos, ◌-ℤ◌, ltb_ℤ, abs, ℕ, ◌+◌, Bool,
  true, false, not, ◌&&◌, ◌||◌, Option, none, some, List,
}
use input.Gesture.{
  GesturePosition, given_p1, given_p2, ActionType, end, contact, release, PostMovement, na_m,
  dont_move, move_anywhere, move_left, move_right, move_up, move_down, move_left_down,
  move_right_down, move_left_up, move_right_up, given_m1, given_m2, SmallactionSlot,
  SmallactionList, Gesture, Cursor, Gestures, min_dist, position_match, actionlist, cursor,
  put_cursor, at_start, callback,
}

-- What a matcher returns: whether the gesture is recognised, by how much `*tracking` grew, and the
-- state.
pub record Matched : Type 0 where
  pub found : Bool
  pub tracked : ℕ
  pub state : Gestures

abbrev pub resolve_pos : GesturePosition → SmallactionList → GesturePosition
resolve_pos given_p1 l = l.p1
resolve_pos given_p2 l = l.p2
resolve_pos p l = p

abbrev pub resolve_move : PostMovement → SmallactionList → PostMovement
resolve_move given_m1 l = l.m1
resolve_move given_m2 l = l.m2
resolve_move m l = m

-- The `switch` on the action: whether this contact or release is the expected one.
unfoldable pub is_expected : ActionType → Bool → Bool → Bool
is_expected contact push here = push && here
is_expected release push here = not push && here
is_expected _ push here = false

abbrev is_end : ActionType → Bool
is_end end = true
is_end _ = false

abbrev is_null {ℓ} : {A : Type ℓ} → Option A → Bool
is_null none = true
is_null (some a) = false

-- `(g->sub_act > 1) || (g->act > 0)`, as the growth of `*tracking`.
abbrev pub tracks : Cursor → ℕ
tracks c = if ltb 1 c.sub_act || ltb 0 c.act then 1 else 0

-- `fingers[slot] = …`
unfoldable pub put_finger : ℕ → ℤ → ℤ → Gestures → Option Gestures
put_finger slot x y s =
    if ltb slot (length s.fingers)
    then some (record s { fingers = set s.fingers slot (record { last_x = x; last_y = y }) })
    else none

-- On success the next sub-action is due; otherwise the gesture begins anew.
unfoldable pub move_on : Gesture → ℕ → ℤ → ℤ → Bool → Gestures → Option Gestures
unfolding cursor put_cursor put_finger
move_on g slot x y success s =
    let c = cursor g s in
    if success
    then put_finger slot x y (put_cursor g (record c { sub_act = c.sub_act + 1 }) s)
    else some (put_cursor g at_start s)

abbrev list_after : Cursor → Cursor
list_after c = record { act = c.act + 1; sub_act = 0 }

-- The sub-actions are at their end: the next list of them is due, or the gesture is recognised.
unfoldable pub next_list : Gesture → Gestures → Option Matched
unfolding cursor put_cursor callback
next_list g s = do
  let c = list_after (cursor g s)
  l ← get_elem? (actionlist g) c.act
  if is_null l.actions
      then some (record { found = true; tracked = 0; state = callback g (put_cursor g at_start s) })
      else some (record { found = false; tracked = tracks c; state = put_cursor g c s })

unfoldable pub after_action : Gesture → List SmallactionSlot → Gestures → Option Matched
unfolding next_list
after_action g acts s = do
  due ← get_elem? acts (cursor g s).sub_act
  if is_end due.action
      then next_list g s
      else some (record { found = false; tracked = tracks (cursor g s); state = s })

unfoldable pub gesture_match : Gesture → ℕ → ℤ → ℤ → Bool → Gestures → Option Matched
unfolding is_expected move_on after_action
gesture_match g slot x y push s = do
  l ← get_elem? (actionlist g) (cursor g s).act
  acts ← l.actions
  current ← get_elem? acts (cursor g s).sub_act
  let here = position_match (resolve_pos current.pos l) x y
  s' ← move_on g slot x y (is_expected current.action push here) s
  after_action g acts s'

-- The `switch` on the movement: whether a finger that moved by (dx, dy) breaks the gesture.
unfoldable pub is_wrong_move : PostMovement → ℤ → ℤ → Bool
is_wrong_move dont_move dx dy = true
is_wrong_move move_left dx dy = ltb_ℤ (pos 0) dx || ltb_ℤ (pos 0 -ℤ dx) (pos (abs dy))
is_wrong_move move_right dx dy = ltb_ℤ dx (pos 0) || ltb_ℤ dx (pos (abs dy))
is_wrong_move move_up dx dy = ltb_ℤ (pos 0) dy || ltb_ℤ (pos 0 -ℤ dy) (pos (abs dx))
is_wrong_move move_down dx dy = ltb_ℤ dy (pos 0) || ltb_ℤ dy (pos (abs dx))
is_wrong_move move_left_down dx dy = ltb_ℤ (pos 0) dx || ltb_ℤ dy (pos 0)
is_wrong_move move_right_down dx dy = ltb_ℤ dx (pos 0) || ltb_ℤ dy (pos 0)
is_wrong_move move_left_up dx dy = ltb_ℤ (pos 0) dx || ltb_ℤ (pos 0) dy
is_wrong_move move_right_up dx dy = ltb_ℤ dx (pos 0) || ltb_ℤ (pos 0) dy
is_wrong_move _ dx dy = false

abbrev pub is_free : PostMovement → Bool
is_free na_m = true
is_free move_anywhere = true
is_free _ = false

-- The checks of a move against the sub-action that is due.
unfoldable pub check_move :
    Gesture → SmallactionList → SmallactionSlot → ℕ → ℤ → ℤ → ℤ → ℤ → Gestures → Option Matched
unfolding is_wrong_move put_finger put_cursor cursor
check_move g l current slot x y dx dy s =
    let c = cursor g s in
    if c.act == 0 && c.sub_act == 0
    then some (record { found = false; tracked = 0; state = s })
    else if (ltb (abs dx) min_dist && ltb (abs dy) min_dist) || is_free current.pmove
    then some (record { found = false; tracked = tracks c; state = s })
    else if is_wrong_move (resolve_move current.pmove l) dx dy
    then some (record { found = false; tracked = 0; state = put_cursor g at_start s })
    else (put_finger slot x y s >>= λ s'.
        some (record { found = false; tracked = tracks c; state = s' }))

unfoldable pub gesture_match_move : Gesture → ℕ → ℤ → ℤ → Gestures → Option Matched
unfolding check_move
gesture_match_move g slot x y s = do
  l ← get_elem? (actionlist g) (cursor g s).act
  acts ← l.actions
  current ← get_elem? acts (cursor g s).sub_act
  finger ← get_elem? s.fingers slot
  check_move g l current slot x y (x -ℤ finger.last_x) (y -ℤ finger.last_y) s
