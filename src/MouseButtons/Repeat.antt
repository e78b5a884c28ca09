-- ===== src/MouseButtons/Repeat.antt =====
-- The behaviour of `dup_mouse_clicks`.
use input.Base.{ℕ, ◌≡◌, refl, false, Option, none, some, List, [], ◌∷◌, arith}
use input.MouseButtons.{MouseButton, Frame, in_frame, Dup, dup_loop, dup_mouse_clicks}

in_frame_never : (f : Frame) (b : MouseButton) → in_frame f b ≡ false
unfolding in_frame
in_frame_never f b = ground arith

dup_loop_idle :
    (d : ℕ) (f : Frame) (start todo : List MouseButton) (r : Dup) → dup_loop d f start todo r ≡ r
unfolding dup_loop
dup_loop_idle d f start [] r = refl
dup_loop_idle d f start (b ∷ todo) r =
    ground (arith, in_frame_never f b, dup_loop_idle d f start todo r)

-- `dup_mouse_clicks` is meant to repeat a click for a domain that was moved under the pointer, and
-- never does: whatever the domain, the frame and the buttons that are down, it sends nothing and
-- leaves the table alone, since its condition asks for a click both below and above `sframe_y1`.
pub dup_mouse_clicks_idle :
    (d : ℕ) (f : Option Frame) (bs : List MouseButton)
    → dup_mouse_clicks d f bs ≡ record { pressed = bs; sent = [] }
unfolding dup_mouse_clicks
dup_mouse_clicks_idle d none bs = refl
dup_mouse_clicks_idle d (some f) bs = dup_loop_idle d f bs bs (record { pressed = bs; sent = [] })
