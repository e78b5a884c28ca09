-- ===== src/Tablet/Dropping.antt =====
-- What a tablet sends of a packet that the kernel has dropped events of.
use native.Mathlib.Omega.{arith}
use input.Base.{
  ◌==◌, Bool-cases, All, ℤ, Event, ev_key, ev_abs, ◌≡◌, refl, ◌∙◌, ◌⊎◌, inl, inr, true, false, ◌&&◌,
  some, List, [], ◌∷◌, arith,
}
use input.Gesture.Fingers.{is_report, is_dropped}
use input.Tablet.{
  newly_pressed, Tablet, on_touch, on_key, press_event, report_event, filter, on_abs,
  handle_usb_tablet_event, run,
}

-- An event within a packet: neither its end nor the notice that events were dropped.
abbrev pub IsInner : Event → Type 0
IsInner e = (is_report e ≡ false) × (is_dropped e ≡ false)

on_key_lem :
    (e : Event) (t : Tablet) → ((on_key e t).0.type ≡ e.type) × ((on_key e t).1.ignore ≡ t.ignore)
unfolding on_key on_touch
on_key_lem e t = ground arith

IsInner-as :
    (e e' : Event)
    → e'.type ≡ e.type
    → ((e.type == ev_abs) ≡ true) ⊎ ((e.type == ev_key) ≡ true)
    → IsInner e'
IsInner-as e e' same (inl a) = ground arith
IsInner-as e e' same (inr k) = ground arith

filter-ignore :
    (e e' : Event) (t : Tablet) → IsInner e' → t.ignore ≡ true → filter e e' t ≡ some ([], t)
unfolding filter
filter-ignore e e' t (r, d) i = rw (r, d, i) refl

module _ (scale_x scale_y : ℤ → ℤ) where
  on_abs_lem : (e : Event) → ((on_abs scale_x scale_y e).type ≡ e.type)
  unfolding on_abs
  on_abs_lem e = ground arith

  abbrev Quiet : Event → Tablet → Type 0
  Quiet e t =
      (t' : Tablet) × (handle_usb_tablet_event scale_x scale_y e t ≡ some ([], t'))
      × (t'.ignore ≡ true)

  other_event :
      (e : Event) (t : Tablet)
      → (e.type == ev_abs) ≡ false
      → (e.type == ev_key) ≡ false
      → handle_usb_tablet_event scale_x scale_y e t ≡ filter e e t
  unfolding handle_usb_tablet_event
  other_event e t a k = rw (a, k) refl

  event_ignored : (e : Event) (t : Tablet) → t.ignore ≡ true → IsInner e → Quiet e t
  unfolding handle_usb_tablet_event
  event_ignored e t i inner = elim (Bool-cases (e.type == ev_abs)) [
    | inl a ↦ elim (Bool-cases (t.pen_inrange && t.monotouch)) [
      | inl near ↦ (t, rw (a, near) refl, i)
      | inr near ↦ (
        t,
        rw (a, near)
            (filter-ignore e (on_abs scale_x scale_y e) t
              (IsInner-as e (on_abs scale_x scale_y e) (on_abs_lem e) (inl a)) i),
        i,
      )
    ]
    | inr a ↦ elim (Bool-cases (e.type == ev_key)) [
      | inl k ↦
          let (same, kept) = on_key_lem e t in
          (
            (on_key e t).1,
            rw (a, k)
                (filter-ignore e (on_key e t).0 (on_key e t).1
                  (IsInner-as e (on_key e t).0 same (inr k)) (kept ∙ i)),
            kept ∙ i,
          )
      | inr k ↦ (t, other_event e t a k ∙ filter-ignore e e t inner i, i)
    ]
  ]

  report_sent :
      (e : Event) (t : Tablet)
      → t.btnleft ≡ newly_pressed
      → is_report e ≡ true
      → handle_usb_tablet_event scale_x scale_y e t
        ≡ some (e ∷ press_event ∷ report_event ∷ [], record t { btnleft = 1 })
  unfolding handle_usb_tablet_event filter
  report_sent e t b r = ground arith

  -- From a state that ignores events until the next packet, whatever events come that neither end a packet
  -- nor tell of dropped ones, nothing is sent, and the state still ignores events.
  pub run_ignoring :
      (es : List Event) (t : Tablet)
      → t.ignore ≡ true
      → All IsInner es
      → (t' : Tablet) × (run scale_x scale_y es t ≡ some ([], t')) × (t'.ignore ≡ true)
  unfolding run
  run_ignoring [] t i h = (t, refl, i)
  run_ignoring (e ∷ es) t i (h, hs) =
      let (t1, sent, i1) = event_ignored e t i h in
      let (t2, rest, i2) = run_ignoring es t1 i1 hs in (t2, rw (sent, rest) refl, i2)

  -- When a finger comes down in a packet that is being dropped, the report that ends the packet sends the
  -- press but does not end the dropping: nothing is sent of the packet after it either.
  pub run_touched :
      (e : Event) (es : List Event) (t : Tablet)
      → t.ignore ≡ true
      → t.btnleft ≡ newly_pressed
      → is_report e ≡ true
      → All IsInner es
      → (t' : Tablet) × (run scale_x scale_y (e ∷ es) t
          ≡ some (e ∷ press_event ∷ report_event ∷ [], t'))
        × (t'.ignore ≡ true)
  unfolding run
  run_touched e es t i b r hs =
      let (t', rest, i') = run_ignoring es (record t { btnleft = 1 }) i hs in
      (t', rw (report_sent e t b r, rest) refl, i')
