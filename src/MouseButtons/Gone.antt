-- ===== src/MouseButtons/Gone.antt =====
-- The behaviour of the table when a domain goes away.
use input.Base.{
  ◌==◌, if◌then◌else◌, ==_iff, Bool-cases, ℕ, suc, ◌-◌, ◌≡◌, refl, ◌≢◌, inl, inr, List, [], ◌∷◌,
  arith,
}
use input.MouseButtons.{MouseButton, forget_domain}

-- How many entries belong to a domain.
abbrev pub held : ℕ → List MouseButton → ℕ
held d [] = 0
held d (b ∷ bs) = if b.domain == d then suc (held d bs) else held d bs

held_own : (d : ℕ) (bs : List MouseButton) → held d (forget_domain d bs) ≡ held d bs - 1
unfolding forget_domain
held_own d [] = refl
held_own d (b ∷ bs) = ground (arith, held_own d bs)

held_other : (d d' : ℕ) (bs : List MouseButton) → d' ≢ d → held d' (forget_domain d bs) ≡ held d' bs
unfolding forget_domain
held_other d d' [] n = refl
held_other d d' (b ∷ bs) n = ground (arith, held_other d d' bs n)

-- When a domain goes away one entry of it is dropped, not all of them: it keeps one entry less than
-- it had, and every other domain keeps all of its own.
pub held-forget_domain :
    (d d' : ℕ) (bs : List MouseButton)
    → held d' (forget_domain d bs) ≡ (if d' == d then held d' bs - 1 else held d' bs)
held-forget_domain d d' bs = elim (Bool-cases (d' == d)) [
  | inl same ↦ rw same (rw ((==_iff d' d).0 same) (held_own d bs))
  | inr other ↦ rw other (held_other d d' bs (λ e. cc ((==_iff d' d).1 e)))
]
