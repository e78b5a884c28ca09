-- ===== src/Gesture/Swipe.antt =====
-- The three swipes with two fingers.
use input.Base.{
  ltb, if◌then◌else◌, ◌>>=◌, set, length-set, ℤ, ℕ, ◌+◌, ◌<◌, ◌≡◌, ap, ◌∙◌, Bool, true, false,
  Option, some, ◌∷◌, arith,
}
use input.Gesture.{
  GesturePosition, na_p, left, right, top, bottom, Gesture, goleft, goright, goup, cross_l, cross_r,
  Cursor, Command, switch_left, switch_right, switch_uivm, Gestures, num_fingers, position_match,
  cursor, put_cursor, at_start, callback,
}
use input.Gesture.Match.{Matched, tracks, gesture_match}
use input.Gesture.Bounds.{is_cross, IsValid}

-- Where the fingers come down, and where they come up.
abbrev pub drag_start : Gesture → GesturePosition
drag_start goleft = right
drag_start goright = left
drag_start goup = bottom
drag_start _ = na_p

abbrev pub drag_end : Gesture → GesturePosition
drag_end goleft = left
drag_end goright = right
drag_end goup = top
drag_end _ = na_p

abbrev pub drag_command : Gesture → Command
drag_command goleft = switch_right
drag_command goright = switch_left
drag_command _ = switch_uivm

abbrev in_drag : ℕ → Cursor
in_drag k = record { act = 0; sub_act = k }

-- The state after a sub-action that succeeds.
abbrev stepped : Gesture → ℕ → ℤ → ℤ → Cursor → Gestures → Gestures
stepped g slot x y c s =
    let t = put_cursor g c s in
    record t { fingers = set t.fingers slot (record { last_x = x; last_y = y }) }

-- The sub-actions in their order: whether the finger comes down, and where.
abbrev drag_push : ℕ → Bool
drag_push k = ltb k 2

abbrev drag_pos : Gesture → ℕ → GesturePosition
drag_pos g k = if ltb k 2 then drag_start g else drag_end g

module _ (slot : ℕ) (x y : ℤ) (s : Gestures) (v : IsValid s) (i : slot < num_fingers) where
  drag_on :
      (g : Gesture) (k : ℕ)
      → is_cross g ≡ false
      → k < 3
      → cursor g s ≡ in_drag k
      → position_match (drag_pos g k) x y ≡ true
      → gesture_match g slot x y (drag_push k) s
        ≡ some (record {
          found = false;
          tracked = tracks (in_drag (k + 1));
          state = stepped g slot x y (in_drag (k + 1)) s;
        })
  unfolding gesture_match cursor put_cursor
  drag_on goleft k n b c h = ground arith
  drag_on goright k n b c h = ground arith
  drag_on goup k n b c h = ground arith
  drag_on cross_l k n b c h = cc
  drag_on cross_r k n b c h = cc

  drag_done :
      (g : Gesture)
      → is_cross g ≡ false
      → cursor g s ≡ in_drag 3
      → position_match (drag_end g) x y ≡ true
      → gesture_match g slot x y false s
        ≡ some (record {
          found = true;
          tracked = 0;
          state = callback g (stepped g slot x y at_start s);
        })
  unfolding gesture_match cursor put_cursor
  drag_done goleft n c h = ground arith
  drag_done goright n c h = ground arith
  drag_done goup n c h = ground arith
  drag_done cross_l n c h = cc
  drag_done cross_r n c h = cc

  stepped-IsValid :
      (g : Gesture) (k : ℕ)
      → is_cross g ≡ false
      → k < 4
      → IsValid (stepped g slot x y (in_drag k) s)
        × (cursor g (stepped g slot x y (in_drag k) s) ≡ in_drag k)
        × ((stepped g slot x y (in_drag k) s).commands ≡ s.commands)
  unfolding put_cursor cursor
  stepped-IsValid g k n b =
      ground (arith, length-set s.fingers slot (record { last_x = x; last_y = y }))

callback_lem :
    (g : Gesture) (s : Gestures)
    → is_cross g ≡ false
    → ((callback g s).commands ≡ drag_command g ∷ s.commands)
      × (cursor g (callback g s) ≡ cursor g s)
unfolding callback cursor
callback_lem g s n = ground arith

-- A contact or a release of a finger at a place.
pub record Tap : Type 0 where
  pub slot : ℕ
  pub x : ℤ
  pub y : ℤ

abbrev pub IsAt : GesturePosition → Tap → Type 0
IsAt p t = (t.slot < num_fingers) × (position_match p t.x t.y ≡ true)

abbrev pub match_tap : Gesture → Bool → Tap → Gestures → Option Matched
match_tap g push t s = gesture_match g t.slot t.x t.y push s

-- Two fingers that come down where a swipe starts and come up where it ends are recognised as the
-- swipe with the second release: its command is given once, and the gesture is ready to begin anew.
-- A swipe to the left shows the next slot, one to the right the one before, one upwards the UIVM.
pub swipe_recognised :
    (g : Gesture) (s : Gestures) (a b c d : Tap)
    → is_cross g ≡ false
    → IsValid s
    → cursor g s ≡ at_start
    → IsAt (drag_start g) a
    → IsAt (drag_start g) b
    → IsAt (drag_end g) c
    → IsAt (drag_end g) d
    → (t : Gestures) × ((match_tap g true a s >>= λ m. match_tap g true b m.state >>= λ m.
          match_tap g false c m.state >>= λ m. match_tap g false d m.state)
        ≡ some (record { found = true; tracked = 0; state = t }))
      × (cursor g t ≡ at_start)
      × (t.commands ≡ drag_command g ∷ s.commands)
swipe_recognised g s a b c d n v z ha hb hc hd =
    let s1 = stepped g a.slot a.x a.y (in_drag 1) s in
    let (v1, c1, k1) = stepped-IsValid a.slot a.x a.y s v ha.0 g 1 n (omega arith) in
    let s2 = stepped g b.slot b.x b.y (in_drag 2) s1 in
    let (v2, c2, k2) = stepped-IsValid b.slot b.x b.y s1 v1 hb.0 g 2 n (omega arith) in
    let s3 = stepped g c.slot c.x c.y (in_drag 3) s2 in
    let (v3, c3, k3) = stepped-IsValid c.slot c.x c.y s2 v2 hc.0 g 3 n (omega arith) in
    let s4 = stepped g d.slot d.x d.y at_start s3 in
    let (v4, c4, k4) = stepped-IsValid d.slot d.x d.y s3 v3 hd.0 g 0 n (omega arith) in
    let (commanded, placed) = callback_lem g s4 n in
    (
      callback g s4,
      rw (drag_on a.slot a.x a.y s v ha.0 g 0 n (omega arith) z ha.1) (
          rw (drag_on b.slot b.x b.y s1 v1 hb.0 g 1 n (omega arith) c1 hb.1) (
            rw (drag_on c.slot c.x c.y s2 v2 hc.0 g 2 n (omega arith) c2 hc.1)
              (drag_done d.slot d.x d.y s3 v3 hd.0 g n c3 hd.1))),
      placed ∙ c4,
      commanded ∙ ap (λ k. drag_command g ∷ k) (k4 ∙ k3 ∙ k2 ∙ k1),
    )
