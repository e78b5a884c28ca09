-- ===== src/Gesture.antt =====
-- gesture.c and gesture.h: the tables of the five gestures, the regions of the screen, and the
-- state. A read past the end of one of the source's arrays, or through a null pointer, is undefined
-- in C: in the functions on this state it is the result `none`.
pub mod Match
pub mod Handler
pub mod Fingers
pub mod Overrun
pub mod Crosses
pub mod Bounds
pub mod Moves
pub mod Frames
pub mod Swipe
use input.Base.{
  ℤ, pos, negsuc, ltb_ℤ, ℕ, ◌+◌, ◌-◌, ◌*◌, ◌/◌, Bool, false, ◌&&◌, Option, none, some, List, [],
  ◌∷◌,
}

pub data GesturePosition : Type 0 where
  na_p given_p1 given_p2 abs_position left right top bottom top_left top_right : GesturePosition
  bottom_left bottom_right : GesturePosition

pub data ActionType : Type 0 where
  end contact release move : ActionType

pub data PostMovement : Type 0 where
  na_m dont_move move_anywhere move_left move_right move_up move_down move_left_down : PostMovement
  move_right_down move_left_up move_right_up given_m1 given_m2 : PostMovement

-- `timel` and `finger` are never read.
pub record SmallactionSlot : Type 0 where
  pub action : ActionType
  pub finger : ℤ
  pub pos : GesturePosition
  pub timel : ℤ
  pub pmove : PostMovement

-- `none` for `actions` is the null pointer that ends a list of these.
pub record SmallactionList : Type 0 where
  pub actions : Option (List SmallactionSlot)
  pub p1 : GesturePosition
  pub p2 : GesturePosition
  pub m1 : PostMovement
  pub m2 : PostMovement
  pub timelimit : ℕ

pub data Runstate : Type 0 where
  startup running stand_back : Runstate

pub data Gesture : Type 0 where
  goleft goright goup cross_l cross_r : Gesture

-- `act` and `sub_act` of a `struct gesture`.
pub record Cursor : Type 0 where
  pub act : ℕ
  pub sub_act : ℕ

pub record Finger : Type 0 where
  pub last_x : ℤ
  pub last_y : ℤ

-- What a callback asks of the switcher.
pub data Command : Type 0 where
  switch_left switch_right switch_uivm : Command

-- The statics of gesture.c, with the commands given so far, the latest first.
pub record Gestures : Type 0 where
  pub runstate : Runstate
  pub fingers : List Finger
  pub goleft_at : Cursor
  pub goright_at : Cursor
  pub goup_at : Cursor
  pub cross_l_at : Cursor
  pub cross_r_at : Cursor
  pub commands : List Command

abbrev pub screen : ℕ
screen = 32767

abbrev pub left_x : ℕ
left_x = screen / 4

abbrev pub right_x : ℕ
right_x = 3 * screen / 4

abbrev pub middle : ℕ
middle = screen / 2

abbrev pub top_y : ℕ
top_y = screen / 3

abbrev pub bottom_y : ℕ
bottom_y = 2 * screen / 3

abbrev pub delta : ℕ
delta = screen / 5

abbrev pub num_fingers : ℕ
num_fingers = 3

abbrev pub min_dist : ℕ
min_dist = screen / 50

abbrev below : ℤ → ℕ → Bool
below z n = ltb_ℤ z (pos n)

abbrev above : ℤ → ℕ → Bool
above z n = ltb_ℤ (pos n) z

-- Close to the middle of the screen's other direction.
abbrev central : ℤ → Bool
central z = below z (middle + delta) && above z (middle - delta)

unfoldable pub position_match : GesturePosition → ℤ → ℤ → Bool
position_match left x y = below x left_x && central y
position_match right x y = above x right_x && central y
position_match top x y = below y top_y && central x
position_match bottom x y = above y bottom_y && central x
position_match top_left x y = below x left_x && below y top_y
position_match top_right x y = above x right_x && below y top_y
position_match bottom_left x y = below x left_x && above y bottom_y
position_match bottom_right x y = above x right_x && above y bottom_y
position_match _ x y = false

abbrev pub slot_of : ActionType → ℤ → GesturePosition → ℤ → PostMovement → SmallactionSlot
slot_of a f p t m = record { action = a; finger = f; pos = p; timel = t; pmove = m }

-- `ANY` and `NONE`.
abbrev pub any : ℤ
any = negsuc 0

-- The array has no ENDACTION.
abbrev pub singledrag_actions : List SmallactionSlot
singledrag_actions =
    slot_of contact (pos 0) given_p1 any na_m ∷ slot_of release (pos 0) given_p2 any given_m1 ∷ []

abbrev pub twodrag_actions : List SmallactionSlot
twodrag_actions =
    slot_of contact (pos 0) given_p1 any na_m
    ∷ slot_of contact (pos 1) given_p1 (pos 1) na_m
    ∷ slot_of release any given_p2 (pos 5) given_m1
    ∷ slot_of release any given_p2 (pos 1) given_m1
    ∷ slot_of end any na_p any na_m
    ∷ []

abbrev pub list_of :
    List SmallactionSlot → GesturePosition → GesturePosition → PostMovement → SmallactionList
list_of acts p1 p2 m = record {
  actions = some acts;
  p1 = p1;
  p2 = p2;
  m1 = m;
  m2 = na_m;
  timelimit = 10;
}

-- ENDACTIONLIST: the other fields are zero.
abbrev pub end_list : SmallactionList
end_list = record { actions = none; p1 = na_p; p2 = na_p; m1 = na_m; m2 = na_m; timelimit = 0 }

abbrev pub actionlist : Gesture → List SmallactionList
actionlist goleft = list_of twodrag_actions right left move_left ∷ end_list ∷ []
actionlist goright = list_of twodrag_actions left right move_right ∷ end_list ∷ []
actionlist goup = list_of twodrag_actions bottom top move_up ∷ end_list ∷ []
actionlist cross_l =
    list_of singledrag_actions top_left bottom_right move_right_down
    ∷ list_of singledrag_actions top_right bottom_left move_left_down
    ∷ end_list
    ∷ []
actionlist cross_r =
    list_of singledrag_actions top_right bottom_left move_left_down
    ∷ list_of singledrag_actions top_left bottom_right move_right_down
    ∷ end_list
    ∷ []

unfoldable pub cursor : Gesture → Gestures → Cursor
cursor goleft s = s.goleft_at
cursor goright s = s.goright_at
cursor goup s = s.goup_at
cursor cross_l s = s.cross_l_at
cursor cross_r s = s.cross_r_at

unfoldable pub put_cursor : Gesture → Cursor → Gestures → Gestures
put_cursor goleft c s = record s { goleft_at = c }
put_cursor goright c s = record s { goright_at = c }
put_cursor goup c s = record s { goup_at = c }
put_cursor cross_l c s = record s { cross_l_at = c }
put_cursor cross_r c s = record s { cross_r_at = c }

abbrev pub at_start : Cursor
at_start = record { act = 0; sub_act = 0 }

unfoldable pub standback : Runstate → Runstate
standback running = stand_back
standback stand_back = running
standback startup = startup

-- The callbacks: a swipe to the left shows what lies on the right.
unfoldable pub callback : Gesture → Gestures → Gestures
unfolding standback
callback goleft s = record s { commands = switch_right ∷ s.commands }
callback goright s = record s { commands = switch_left ∷ s.commands }
callback goup s = record s { commands = switch_uivm ∷ s.commands }
callback cross_l s = record s { runstate = standback s.runstate }
callback cross_r s = record s { runstate = standback s.runstate }

unfoldable pub gestures_clean : Gestures → Gestures
gestures_clean s = record s {
  goleft_at = at_start;
  goright_at = at_start;
  goup_at = at_start;
  cross_l_at = at_start;
  cross_r_at = at_start;
}
