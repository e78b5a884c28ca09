-- ===== src/Bindings.antt =====
-- input.c, the key sequences that the daemon itself acts on: `input_add_binding`,
-- `input_exec_bindings`, `check_for_force_binding` and the tests of an event that they make. A
-- callback is a value of the type `C`, which stands for the function and its `opaque`; what it does
-- to the rest of the daemon, a `W`, is a parameter, and so is `input_keyboard_reset`. No callback of
-- the daemon changes the bindings.
pub mod Sequence
pub mod Force
pub mod Soundness
pub mod Completeness
use input.Base.{
  ltb, ◌==◌, if◌then◌else◌, get_elem?, pos, eqb_ℤ, Event, ev_key, ℕ, ◌+◌, Bool, true, false, ◌&&◌,
  Option, none, some, List, [], ◌∷◌, ◌++◌, map,
}

abbrev pub btn_mouse : ℕ
btn_mouse = 0x110

-- `binding` without the -1 that ends it: the array is read at `matched`, and an index past the last
-- code reads the -1.
pub record Binding (C : Type 0) : Type 0 where
  pub binding : List ℕ
  pub cb : Option C
  pub force_cb : Option C
  pub matched : ℕ
  pub down : Bool
  pub force_ticks : ℕ

abbrev pub event_is_key : Event → Bool
event_is_key e = e.type == ev_key && ltb e.code btn_mouse

-- VALUE_KEY_DOWN is 1, VALUE_KEY_UP is 0, VALUE_KEY_REPEAT is 2.
abbrev pub event_is_key_down : Event → Bool
event_is_key_down e = event_is_key e && eqb_ℤ e.value (pos 1)

abbrev pub event_is_key_up : Event → Bool
event_is_key_up e = event_is_key e && eqb_ℤ e.value (pos 0)

abbrev reads : Option ℕ → ℕ → Bool
reads none code = false
reads (some k) code = k == code

abbrev ends : Option ℕ → Bool
ends none = true
ends (some k) = false

module _ {C : Type 0} where
  unfoldable pub add_binding : List ℕ → Option C → Option C → List (Binding C) → List (Binding C)
  add_binding keys cb force_cb bs =
      bs
      ++ record {
        binding = keys;
        cb = cb;
        force_cb = force_cb;
        matched = 0;
        down = false;
        force_ticks = 0;
      }
        ∷ []

  -- The key up of the first loop.
  unfoldable pub rewind : Binding C → Binding C
  rewind b = record b { down = false; matched = 0 }

  -- Where a key leaves a sequence: one further, or at its start.
  unfoldable pub next_match : Binding C → ℕ → ℕ
  next_match b code = if reads (get_elem? b.binding b.matched) code then b.matched + 1 else 0

  -- One round of the second loop: whether the sequence is complete, and the binding.
  unfoldable pub advance : Binding C → ℕ → Bool × Binding C
  unfolding next_match
  advance b code =
      let m = next_match b code in
      if ends (get_elem? b.binding m)
      then (true, record b { matched = 0 })
      else (false, record b { matched = m })

  -- `matched` points at the last of the sequences that are complete: `b` counts if none behind it
  -- does. That one is marked as held down.
  unfoldable pub settle :
      Bool
      → Binding C
      → Option (Binding C) × List (Binding C)
      → Option (Binding C) × List (Binding C)
  settle done b (some m, bs) = (some m, b ∷ bs)
  settle true b (none, bs) = (some b, record b { down = true } ∷ bs)
  settle false b (none, bs) = (none, b ∷ bs)

  -- The second loop.
  unfoldable pub scan : List (Binding C) → ℕ → Option (Binding C) × List (Binding C)
  unfolding advance settle
  scan [] code = (none, [])
  scan (b ∷ bs) code = let (done, b') = advance b code in settle done b' (scan bs code)

  -- What an event does to the bindings, and the binding whose callback is called.
  unfoldable pub exec : Event → List (Binding C) → Option (Binding C) × List (Binding C)
  unfolding rewind scan
  exec e bs =
      let bs' = (if event_is_key_up e then map rewind bs else bs) in
      if event_is_key_down e then scan bs' e.code else (none, bs')

  -- One round of `check_for_force_binding`: whether `force_cb` is due, and the binding.
  unfoldable pub tick : Binding C → Bool × Binding C
  tick b =
      let t = (if b.down then b.force_ticks + 1 else 0) in
      if ltb 6 t
      then (true, record b { force_ticks = 0; down = false })
      else (false, record b { force_ticks = t })

module _ {C W : Type 0} (call : C → W → W × Bool) (keyboard_reset : W → W) where
  call_back : Option C → W → W
  call_back none w = w
  call_back (some c) w = let (w', reset) = call c w in if reset then keyboard_reset w' else w'

  -- `true` means that the event is not to be injected.
  pub input_exec_bindings : Event → List (Binding C) → W → Bool × List (Binding C) × W
  unfolding exec call_back
  input_exec_bindings e bs w =
      let (hit, bs') = exec e bs in
      elim hit [ none ↦ (false, bs', w) | some b ↦ (true, bs', call_back b.cb w) ]

  force_call : Bool → Option C → W → W
  force_call false f w = w
  force_call true none w = w
  force_call true (some c) w = (call c w).0

  pub check_for_force_binding : List (Binding C) → W → List (Binding C) × W
  unfolding tick force_call
  check_for_force_binding [] w = ([], w)
  check_for_force_binding (b ∷ bs) w =
      let (due, b') = tick b in
      let (bs', w') = check_for_force_binding bs (force_call due b.force_cb w) in (b' ∷ bs', w')
