-- ===== src/Bindings/Soundness.antt =====
-- A callback is called only when its key sequence was typed.
use mathlib.Core.Option.{some-injective}
use input.Base.{
  Bool-cases, get_elem?, All, Event, ℕ, ◌≡◌, refl, sym, subst, inl, inr, Bool, true, false, Option,
  none, some, List, [], ◌∷◌, ◌++◌, map, reverse, arith,
}
use input.Bindings.{
  Binding, event_is_key_down, event_is_key_up, rewind, next_match, advance, settle, scan, exec,
}
use input.Bindings.Sequence.{heard, Tracks, Complete, advance-Tracks}

up-not-down : (e : Event) → event_is_key_up e ≡ true → event_is_key_down e ≡ false
up-not-down e h = ground arith

-- The history after a stretch of events.
abbrev pub history : List Event → List ℕ → List ℕ
history [] h = h
history (e ∷ es) h = history es (heard e h)

module _ {C : Type 0} where
  -- No part of the sequence is matched.
  abbrev pub IsFresh : Binding C → Type 0
  IsFresh b = b.matched ≡ 0

  rename-Complete :
      (h : List ℕ) (b b' : Binding C) → b'.binding ≡ b.binding → Complete h b → Complete h b'
  rename-Complete h b b' e (rest, p) = (rest, subst (λ ks. h ≡ reverse ks ++ rest) (sym e) p)

  settle-Tracks :
      (done : Bool) (b : Binding C) (r : Option (Binding C) × List (Binding C)) (h : List ℕ)
      → Tracks h b
      → (done ≡ true → Complete h b)
      → All (Tracks h) r.1
      → ((x : Binding C) → r.0 ≡ some x → Complete h x)
      → All (Tracks h) (settle done b r).1
        × ((x : Binding C) → (settle done b r).0 ≡ some x → Complete h x)
  unfolding settle
  settle-Tracks done b (some m, bs) h t c ts later = ((t, ts), later)
  settle-Tracks true b (none, bs) h t c ts later =
      ((t, ts), λ x q. subst (Complete h) (some-injective b x q) (c refl))
  settle-Tracks false b (none, bs) h t c ts later = ((t, ts), λ x q. cc)

  scan-Tracks :
      (bs : List (Binding C)) (c : ℕ) (h : List ℕ)
      → All (Tracks h) bs
      → All (Tracks (c ∷ h)) (scan bs c).1
        × ((b : Binding C) → (scan bs c).0 ≡ some b → Complete (c ∷ h) b)
  unfolding scan
  scan-Tracks [] c h t = (tt, λ b e. cc)
  scan-Tracks (b ∷ bs) c h (t, ts) =
      let (kept, same, complete) =
        advance-Tracks b c h (get_elem? b.binding (next_match b c)) refl t in
      let (all_kept, later) = scan-Tracks bs c h ts in
      settle-Tracks (advance b c).0 (advance b c).1 (scan bs c) (c ∷ h) kept
        (λ d. rename-Complete (c ∷ h) b (advance b c).1 same (complete d)) all_kept later

  rewind-Tracks : (bs : List (Binding C)) (h : List ℕ) → All (Tracks h) (map rewind bs)
  unfolding rewind
  rewind-Tracks [] h = tt
  rewind-Tracks (b ∷ bs) h = ((h, refl), rewind-Tracks bs h)

  exec-Tracks :
      (e : Event) (bs : List (Binding C)) (h : List ℕ)
      → All (Tracks h) bs
      → All (Tracks (heard e h)) (exec e bs).1
        × ((b : Binding C) → (exec e bs).0 ≡ some b → Complete (heard e h) b)
  unfolding exec
  exec-Tracks e bs h t = elim (Bool-cases (event_is_key_up e)) [
    | inl up ↦ rw (up, up-not-down e up) (rewind-Tracks bs [], λ b q. cc)
    | inr up ↦ elim (Bool-cases (event_is_key_down e)) [
      | inl down ↦ rw (up, down) (scan-Tracks bs e.code h t)
      | inr down ↦ rw (up, down) (t, λ b q. cc)
    ]
  ]

  -- The events of a stretch, one after the other: the bindings, and the history of presses.
  abbrev pub listen : List Event → List (Binding C) → List (Binding C)
  listen [] bs = bs
  listen (e ∷ es) bs = listen es (exec e bs).1

  listen-Tracks :
      (es : List Event) (bs : List (Binding C)) (h : List ℕ)
      → All (Tracks h) bs
      → All (Tracks (history es h)) (listen es bs)
  listen-Tracks [] bs h t = t
  listen-Tracks (e ∷ es) bs h t =
      listen-Tracks es (exec e bs).1 (heard e h) (exec-Tracks e bs h t).0

  fresh-Tracks : (bs : List (Binding C)) → All IsFresh bs → All (Tracks []) bs
  fresh-Tracks [] f = tt
  fresh-Tracks (b ∷ bs) (f, fs) = (([], rw f), fresh-Tracks bs fs)

  -- A binding's callback is called for an event only if the key presses since the last key release,
  -- this event's included, end with exactly the codes of its sequence, in their order: this holds after
  -- any stretch of events that began with no sequence under way.
  pub exec_sound :
      (es : List Event) (e : Event) (bs : List (Binding C)) (b : Binding C)
      → All IsFresh bs
      → (exec e (listen es bs)).0 ≡ some b
      → (before : List ℕ) × (heard e (history es []) ≡ reverse b.binding ++ before)
  exec_sound es e bs b f q =
      (exec-Tracks e (listen es bs) (history es []) (listen-Tracks es bs [] (fresh-Tracks bs f))).1
        b q
