-- ===== src/Bindings/Sequence.antt =====
-- A binding against the history of the key presses since the last release.
use mathlib.Core.List.{reverse-append}
use native.Mathlib.Numerals.{add-one}
use input.Base.{
  ◌==◌, if◌then◌else◌, ==_iff, Bool-cases, get_elem?, take, Event, ℕ, zero, suc, ◌≡◌, refl, ap, ◌∙◌,
  subst, inl, inr, true, Option, none, some, List, [], ◌∷◌, ◌++◌, reverse, arith,
}
use input.Bindings.{Binding, event_is_key_down, event_is_key_up, next_match, advance}

-- The key presses since the last key release, the latest first.
abbrev pub heard : Event → List ℕ → List ℕ
heard e h = if event_is_key_up e then [] else if event_is_key_down e then e.code ∷ h else h

module _ {C : Type 0} where
  -- The part of the sequence that is matched is what was pressed last.
  abbrev pub Tracks : List ℕ → Binding C → Type 0
  Tracks h b = (rest : List ℕ) × (h ≡ reverse (take b.matched b.binding) ++ rest)

take-suc :
    (ks : List ℕ) (m : ℕ) {c : ℕ} → get_elem? ks m ≡ some c → take (suc m) ks ≡ take m ks ++ c ∷ []
take-suc [] m e = cc
take-suc (k ∷ ks) zero e = ground arith
take-suc (k ∷ ks) (suc m) e = ap (λ t. k ∷ t) (take-suc ks m e)

take_all : (ks : List ℕ) (m : ℕ) → get_elem? ks m ≡ none → take m ks ≡ ks
take_all [] zero e = refl
take_all [] (suc m) e = refl
take_all (k ∷ ks) zero e = cc
take_all (k ∷ ks) (suc m) e = ap (λ t. k ∷ t) (take_all ks m e)

extend :
    (ks : List ℕ) (m c : ℕ) (h : List ℕ)
    → get_elem? ks m ≡ some c
    → (rest : List ℕ) × (h ≡ reverse (take m ks) ++ rest)
    → (rest : List ℕ) × (c ∷ h ≡ reverse (take (suc m) ks) ++ rest)
extend ks m c h e (rest, p) =
    (rest, rw (take-suc ks m e, reverse-append (take m ks) (c ∷ [])) (ap (λ t. c ∷ t) p))

module _ {C : Type 0} where
  next_match-Tracks :
      (b : Binding C) (c : ℕ) (h : List ℕ) (o : Option ℕ)
      → get_elem? b.binding b.matched ≡ o
      → Tracks h b
      → Tracks (c ∷ h) (record b { matched = next_match b c })
  unfolding next_match
  next_match-Tracks b c h none e t = rw e (c ∷ h, refl)
  next_match-Tracks b c h (some k) e t = elim (Bool-cases (k == c)) [
    | inl hit ↦
        rw (e, hit, add-one) (extend b.binding b.matched c h (e ∙ ap some ((==_iff k c).0 hit)) t)
    | inr miss ↦ rw (e, miss) (c ∷ h, refl)
  ]

  -- The sequence was pressed last, in its order.
  abbrev pub Complete : List ℕ → Binding C → Type 0
  Complete h b = (rest : List ℕ) × (h ≡ reverse b.binding ++ rest)

  pub advance-Tracks :
      (b : Binding C) (c : ℕ) (h : List ℕ) (o : Option ℕ)
      → get_elem? b.binding (next_match b c) ≡ o
      → Tracks h b
      → Tracks (c ∷ h) (advance b c).1
        × ((advance b c).1.binding ≡ b.binding)
        × ((advance b c).0 ≡ true → Complete (c ∷ h) b)
  unfolding advance
  advance-Tracks b c h none e t =
      let (rest, p) = next_match-Tracks b c h (get_elem? b.binding b.matched) refl t in
      rw e (
        (c ∷ h, refl),
        refl,
        λ _. (
          rest,
          subst (λ ks. c ∷ h ≡ reverse ks ++ rest) (take_all b.binding (next_match b c) e) p,
        ),
      )
  advance-Tracks b c h (some k) e t =
      rw e (next_match-Tracks b c h (get_elem? b.binding b.matched) refl t, refl, λ q. cc)
