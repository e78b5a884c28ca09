-- ===== src/Bindings/Force.antt =====
-- A binding that is held down.
use input.Base.{
  ◌==◌, if◌then◌else◌, ℕ, zero, suc, ◌+◌, ◌≤◌, ◌≡◌, Bool, true, false, not, ◌||◌, arith,
}
use input.Bindings.{Binding, rewind, tick}

module _ {C : Type 0} where
  -- `n` rounds of the one-second timer: whether any of them was due, and the binding.
  abbrev pub rounds : ℕ → Binding C → Bool × Binding C
  rounds zero b = (false, b)
  rounds (suc n) b = let (due, b') = tick b in let (later, b'') = rounds n b' in (due || later, b'')

  rounds_quiet :
      (n : ℕ) (b : Binding C)
      → b.down ≡ true
      → b.force_ticks + n ≤ 6
      → rounds n b ≡ (false, record b { force_ticks = b.force_ticks + n })
  unfolding tick
  rounds_quiet zero b d h = ground arith
  rounds_quiet (suc n) b d h =
      ground (arith, rounds_quiet n (record b { force_ticks = b.force_ticks + 1 }) d (omega arith))

  -- A binding that was just recognised goes through up to six rounds of the timer with none due. The
  -- round after them is due, for its force callback, exactly if they were six; it then starts to count
  -- anew and no longer takes the binding as held down. If a key comes up before it, it is not due.
  pub tick-rounds :
      (b : Binding C) (n : ℕ)
      → b.down ≡ true
      → b.force_ticks ≡ 0
      → n ≤ 6
      → ((rounds n b).0 ≡ false)
        × (tick (rounds n b).1
            ≡ (n == 6, record b { force_ticks = if n == 6 then 0 else n + 1; down = not (n == 6) }))
        × ((tick (rewind (rounds n b).1)).0 ≡ false)
  unfolding tick rewind
  tick-rounds b n d z h = ground (arith, rounds_quiet n b d (omega arith))
