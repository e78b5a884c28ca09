-- ===== src/MouseButtons.antt =====
-- input.c, the table `mouse_pressed` of the mouse buttons that are down and the domain that each
-- press went to: `check_mouse_keys`, `dup_mouse_clicks` and the loop of `input_domain_gone`. A
-- domain is named by its index in domains.c's array; the table is the list of its entries in use.
pub mod Laws
pub mod Repeat
pub mod Gone
use input.Base.{
  ltb, leb, ◌==◌, if◌then◌else◌, length, ℤ, pos, eqb_ℤ, is_zero, Event, ev_key, btn_misc,
  btn_joystick, ℕ, Bool, true, false, not, ◌&&◌, ◌||◌, Option, none, some, List, [], ◌∷◌, ◌++◌,
}

abbrev pub max_num_pressed : ℕ
max_num_pressed = 5

pub record MouseButton : Type 0 where
  pub code : ℕ
  pub domain : ℕ
  pub slot : ℤ
  pub x : ℕ
  pub y : ℕ

-- An event for a domain, as handed to `input_send`.
pub record Sent : Type 0 where
  pub domain : ℕ
  pub slot : ℤ
  pub event : Event

pub record Checked : Type 0 where
  pub pressed : List MouseButton
  pub sent : List Sent
  pub redirected : Bool

-- The memcpy loop closes the gap that the first entry with this code and slot leaves.
unfoldable pub remove : ℕ → ℤ → List MouseButton → List MouseButton
remove code slot [] = []
remove code slot (b ∷ bs) =
    if b.code == code && eqb_ℤ b.slot slot then bs else b ∷ remove code slot bs

unfoldable pub find : ℕ → ℤ → List MouseButton → Option MouseButton
find code slot [] = none
find code slot (b ∷ bs) = if b.code == code && eqb_ℤ b.slot slot then some b else find code slot bs

-- A press is logged while there is room for it.
unfoldable pub press : ℕ → ℤ → ℕ → ℕ → Event → List MouseButton → List MouseButton
press d slot x y e bs =
    if ltb (length bs) max_num_pressed
    then bs ++ record { code = e.code; domain = d; slot = slot; x = x; y = y } ∷ []
    else bs

-- A release goes to the domain that saw the press, if that is another one.
unfoldable pub let_go : ℕ → ℤ → Event → List MouseButton → Checked
unfolding find remove
let_go d slot e bs = elim (find e.code slot bs) [
  | none ↦ record { pressed = bs; sent = []; redirected = false }
  | some b ↦
      if b.domain == d
      then record { pressed = remove e.code slot bs; sent = []; redirected = false }
      else record {
        pressed = remove e.code slot bs;
        sent = record { domain = b.domain; slot = slot; event = e } ∷ [];
        redirected = true;
      }
]

-- `x` and `y` are the pointer's position, cut to integers.
unfoldable pub check_mouse_keys : ℕ → ℤ → ℕ → ℕ → Event → List MouseButton → Checked
unfolding press let_go
check_mouse_keys d slot x y e bs =
    if ltb e.code btn_misc || leb btn_joystick e.code
    then record { pressed = bs; sent = []; redirected = false }
    else if is_zero e.value
    then let_go d slot e bs
    else record { pressed = press d slot x y e bs; sent = []; redirected = false }

-- `struct divert_info_t`, the source frame.
pub record Frame : Type 0 where
  pub x1 : ℕ
  pub x2 : ℕ
  pub y1 : ℕ
  pub y2 : ℕ

-- The condition of `dup_mouse_clicks`, as written: the last comparison names `sframe_y1` again.
pub in_frame : Frame → MouseButton → Bool
in_frame f b = ltb f.x1 b.x && ltb b.x f.x2 && ltb f.y1 b.y && ltb b.y f.y1

-- Whether domain `d` already holds this button among the entries that were there at the start.
pub is_dup : ℕ → ℕ → List MouseButton → Bool
is_dup d code [] = false
is_dup d code (b ∷ bs) = (b.domain == d && b.code == code) || is_dup d code bs

pub record Dup : Type 0 where
  pub pressed : List MouseButton
  pub sent : List Sent

-- The loop over the entries that were there at the start; `bs` is the table as it grows.
pub dup_loop : ℕ → Frame → List MouseButton → List MouseButton → Dup → Dup
unfolding in_frame is_dup
dup_loop d f start [] r = r
dup_loop d f start (b ∷ todo) r =
    let on = dup_loop d f start todo r in
    let copy = dup_loop d f start todo (record {
      pressed = r.pressed ++ record b { domain = d } ∷ [];
      sent =
          r.sent
          ++ record {
            domain = d;
            slot = b.slot;
            event = record { type = ev_key; code = b.code; value = pos 1 };
          }
            ∷ [];
    }) in
    if ltb (length r.pressed) max_num_pressed
    then (if not (b.domain == d) && not (is_dup d b.code start) && in_frame f b then copy else on)
    else r

-- `none` for the frame: there is no `mouse_parent`, or it diverts nothing.
pub dup_mouse_clicks : ℕ → Option Frame → List MouseButton → Dup
unfolding dup_loop
dup_mouse_clicks d none bs = record { pressed = bs; sent = [] }
dup_mouse_clicks d (some f) bs = dup_loop d f bs bs (record { pressed = bs; sent = [] })

-- The last loop of `input_domain_gone`. The inner loop runs the outer one's index to the end.
pub forget_domain : ℕ → List MouseButton → List MouseButton
forget_domain d [] = []
forget_domain d (b ∷ bs) = if b.domain == d then bs else b ∷ forget_domain d bs
