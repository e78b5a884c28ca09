-- ===== src/Domains/Counts.antt =====
-- How many entries of the table of domains pass a test, before and after a change of it.
use input.Base.{
  ◌==◌, if◌then◌else◌, Bool-cases, Option-cases, get_elem?, ℤ, eqb_ℤ, ℕ, zero, suc, ◌+◌, ◌≤◌, ◌≡◌,
  refl, ap, ◌∙◌, inl, inr, Bool, true, false, ◌&&◌, none, some, List, [], ◌∷◌, map, arith,
}
use input.Domains.{
  Domain, minus_one, find_index, count_of, has_domid, has_slot, update_at, no_prev_keyb,
  reset_prev_keyb_domain, cleared, forget,
}

abbrev pub one : Bool → ℕ
one true = 1
one false = 0

module _ (test : Domain → Bool) where
  pub count_none : (ds : List Domain) → find_index test ds ≡ none → count_of test ds ≡ 0
  unfolding find_index count_of
  count_none [] h = refl
  count_none (d ∷ ds) h = elim (Bool-cases (test d)) [
    | inl e ↦ absurd (ground (arith, h, e))
    | inr e ↦ elim (Option-cases (find_index test ds)) [
      | inl n ↦ rw e (count_none ds n)
      | inr (i, s) ↦ absurd (ground (arith, h, e, s))
    ]
  ]

  pub count_update :
      (f : Domain → Domain) (ds : List Domain) (i : ℕ) (d : Domain)
      → get_elem? ds i ≡ some d
      → count_of test (update_at i f ds) + one (test d) ≡ count_of test ds + one (test (f d))
  unfolding count_of update_at
  count_update f [] i d h = cc
  count_update f (x ∷ ds) zero d h = ground (arith, h)
  count_update f (x ∷ ds) (suc i) d h = ground (arith, count_update f ds i d h)

  pub count_map :
      (g : Domain → Domain) (ds : List Domain)
      → ((d : Domain) → test (g d) ≡ test d)
      → count_of test (map g ds) ≡ count_of test ds
  unfolding count_of
  count_map g [] h = refl
  count_map g (d ∷ ds) h = rw (h d) (ground (arith, count_map g ds h))

pub get_elem?-update_at :
    (f : Domain → Domain) (ds : List Domain) (i j : ℕ) (d : Domain)
    → get_elem? ds i ≡ some d
    → get_elem? (update_at j f ds) i ≡ some (if i == j then f d else d)
unfolding update_at
get_elem?-update_at f [] i j d h = cc
get_elem?-update_at f (x ∷ ds) zero zero d h = ground (arith, h)
get_elem?-update_at f (x ∷ ds) zero (suc j) d h = ground (arith, h)
get_elem?-update_at f (x ∷ ds) (suc i) zero d h = ground (arith, h)
get_elem?-update_at f (x ∷ ds) (suc i) (suc j) d h =
    ground (arith, get_elem?-update_at f ds i j d h)

pub get_elem?-map :
    (g : Domain → Domain) (ds : List Domain) (i : ℕ) (d : Domain)
    → get_elem? ds i ≡ some d
    → get_elem? (map g ds) i ≡ some (g d)
get_elem?-map g [] i d h = cc
get_elem?-map g (x ∷ ds) zero d h = ground (arith, h)
get_elem?-map g (x ∷ ds) (suc i) d h = get_elem?-map g ds i d h

-- A test that an entry that is not in use fails, and that does not ask about the keyboard.
abbrev pub Ignores : (Domain → Bool) → Type 0
Ignores test =
    ((d : Domain) → d.initialised ≡ false → test d ≡ false)
    × ((d : Domain) → test (no_prev_keyb d) ≡ test d)

pub has_domid-Ignores : (n : ℤ) → Ignores (has_domid n)
has_domid-Ignores n = (λ d u. rw u refl, λ d. refl)

pub has_slot-Ignores : (s : ℤ) → Ignores (has_slot s)
has_slot-Ignores s = (λ d u. rw u refl, λ d. refl)

-- The entry is still there, as far as it matters here.
abbrev pub Kept : Domain → List Domain → ℕ → Type 0
Kept d ds i =
    (d' : Domain) × (get_elem? ds i ≡ some d')
    × (d.initialised ≡ false → d'.initialised ≡ false)
    × (d'.domid ≡ d.domid)

pub count_reset :
    (test : Domain → Bool) (domid : ℤ) (ds : List Domain)
    → Ignores test
    → count_of test (reset_prev_keyb_domain domid ds) ≡ count_of test ds
unfolding reset_prev_keyb_domain
count_reset test domid ds (_, same) = elim (Bool-cases (eqb_ℤ domid minus_one)) [
  | inl e ↦ rw e refl
  | inr e ↦ rw e (
      count_map test
        (λ d. if d.initialised && eqb_ℤ d.prev_keyb_domid domid then no_prev_keyb d else d) ds
        (λ d. ground (arith, same d)))
]

pub reset-Kept :
    (domid : ℤ) (ds : List Domain) (i : ℕ) (d : Domain)
    → get_elem? ds i ≡ some d
    → Kept d (reset_prev_keyb_domain domid ds) i
unfolding reset_prev_keyb_domain
reset-Kept domid ds i d h = elim (Bool-cases (eqb_ℤ domid minus_one)) [
  | inl e ↦ (d, rw e h, λ u. u, refl)
  | inr e ↦ (
    (if d.initialised && eqb_ℤ d.prev_keyb_domid domid then no_prev_keyb d else d),
    rw e (
        get_elem?-map
          (λ d. if d.initialised && eqb_ℤ d.prev_keyb_domid domid then no_prev_keyb d else d) ds i d
          h),
    λ u. ground arith,
    ground arith,
  )
]

pub forget-none : (i : ℕ) (ds : List Domain) → get_elem? ds i ≡ none → forget i ds ≡ ds
unfolding forget
forget-none i ds e = rw (e, forget) refl

pub forget-some :
    (i : ℕ) (ds : List Domain) (d : Domain)
    → get_elem? ds i ≡ some d
    → forget i ds ≡ update_at i cleared (reset_prev_keyb_domain d.domid ds)
unfolding forget
forget-some i ds d e = rw (e, forget) refl

pub forget_le :
    (test : Domain → Bool) (i : ℕ) (ds : List Domain)
    → Ignores test
    → count_of test (forget i ds) ≤ count_of test ds
forget_le test i ds ig = elim (Option-cases (get_elem? ds i)) [
  | inl e ↦ rw (forget-none i ds e) (omega arith)
  | inr (d, e) ↦
      let (d', at, _, _) = reset-Kept d.domid ds i d e in
      rw (forget-some i ds d e) (
        omega (
          arith,
          count_update test cleared (reset_prev_keyb_domain d.domid ds) i d' at,
          count_reset test d.domid ds ig,
          ap one (ig.0 (cleared d') refl),
        ))
]

pub forget-Kept :
    (j i : ℕ) (ds : List Domain) (d : Domain) → get_elem? ds i ≡ some d → Kept d (forget j ds) i
forget-Kept j i ds d h = elim (Option-cases (get_elem? ds j)) [
  | inl e ↦ (d, rw (forget-none j ds e) h, λ u. u, refl)
  | inr (g, e) ↦
      let (d', at, off, same) = reset-Kept g.domid ds i d h in
      (
        (if i == j then cleared d' else d'),
        rw (forget-some j ds g e)
            (get_elem?-update_at cleared (reset_prev_keyb_domain g.domid ds) i j d' at),
        λ u. ground (arith, off u),
        ground (arith, same),
      )
]

pub update_quiet :
    (test : Domain → Bool) (f : Domain → Domain) (ds : List Domain) (i : ℕ) (d : Domain)
    → get_elem? ds i ≡ some d
    → test d ≡ false
    → test (f d) ≡ false
    → count_of test (update_at i f ds) ≡ count_of test ds
update_quiet test f ds i d h a b = omega (arith, count_update test f ds i d h, ap one a, ap one b)

pub update_at_self :
    (f : Domain → Domain) (ds : List Domain) (i : ℕ) (d : Domain)
    → get_elem? ds i ≡ some d
    → get_elem? (update_at i f ds) i ≡ some (f d)
unfolding update_at
update_at_self f [] i d h = cc
update_at_self f (x ∷ ds) zero d h = ground (arith, h)
update_at_self f (x ∷ ds) (suc i) d h = update_at_self f ds i d h

pub find_some :
    (test : Domain → Bool) (ds : List Domain) (i : ℕ)
    → find_index test ds ≡ some i
    → (d : Domain) × (get_elem? ds i ≡ some d) × (test d ≡ true)
unfolding find_index
find_some test [] i h = cc
find_some test (d ∷ ds) zero h = elim (Bool-cases (test d)) [
  | inl e ↦ (d, refl, e)
  | inr e ↦ elim (Option-cases (find_index test ds)) [
    | inl n ↦ absurd (ground (arith, h, e, n))
    | inr (j, s) ↦ absurd (ground (arith, h, e, s))
  ]
]
find_some test (d ∷ ds) (suc i) h = elim (Bool-cases (test d)) [
  | inl e ↦ absurd (ground (arith, h, e))
  | inr e ↦ elim (Option-cases (find_index test ds)) [
    | inl n ↦ absurd (ground (arith, h, e, n))
    | inr (j, s) ↦
        let same : j ≡ i = ground (arith, h, e, s) in find_some test ds i (s ∙ ap some same)
  ]
]
