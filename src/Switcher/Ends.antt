-- ===== src/Switcher/Ends.antt =====
-- Where the loop of `go_to_next` ends.
use input.Routing.{points_to}
use input.Switcher.{candidate, scan_slots, slot_after, next_of, go_to_next}
use input.Domains.{Domain, domain_uivm}
use input.Base.{
  ltb, Bool-cases, get_elem?, pos, eqb_ℤ, ℕ, zero, suc, ◌+◌, ◌%◌, ◌≤◌, ◌<◌, ◌≡◌, refl, ap, ◌∙◌, ◌≢◌,
  inl, inr, false, Option, none, some, List, arith,
}

Ends : Option (Option ℕ) → Type 0
Ends r = (o : Option ℕ) × (r ≡ some o)

found_or :
    (o : Option ℕ) (rest : Option (Option ℕ))
    → Ends rest
    → Ends (elim o [ none ↦ rest | some i ↦ some (some i) ])
unfolding Ends
found_or none rest h = h
found_or (some i) rest h = (some i, refl)

one_round :
    (fuel slot k : ℕ) (ds : List Domain)
    → (slot ≢ k → Ends (scan_slots fuel (suc (slot % 10)) (pos k) ds))
    → Ends (scan_slots (suc fuel) slot (pos k) ds)
unfolding scan_slots Ends
one_round fuel slot k ds h = elim (Bool-cases (eqb_ℤ (pos slot) (pos k))) [
  | inl same ↦ rw same (none, refl)
  | inr other ↦ rw other (found_or (candidate (slot % 10) ds) _ (h (λ e. ground (arith, e, other))))
]

up_to :
    (fuel slot k : ℕ) (ds : List Domain)
    → slot ≤ k
    → k ≤ 10
    → k < fuel + slot
    → Ends (scan_slots fuel slot (pos k) ds)
up_to zero slot k ds h h' h'' = absurd (omega arith)
up_to (suc fuel) slot k ds h h' h'' = one_round fuel slot k ds (λ n.
    let same : slot % 10 ≡ slot = omega (arith, h, h', n) in
    up_to fuel (suc (slot % 10)) k ds (omega (arith, h, n, same)) h' (omega (arith, same, h'')))

around :
    (fuel slot k : ℕ) (ds : List Domain)
    → slot ≤ 10
    → k < slot
    → 0 < k
    → 10 + k < fuel + slot
    → Ends (scan_slots fuel slot (pos k) ds)
around zero slot k ds h h' h'' enough = absurd (omega arith)
around (suc fuel) slot k ds h h' h'' enough = one_round fuel slot k ds (λ n.
    elim (Bool-cases (ltb slot 10)) [
      | inl below ↦
          let less : slot < 10 = ground (arith, below) in
          let same : slot % 10 ≡ slot = omega (arith, less) in
          rw same (
            around fuel (suc slot) k ds (omega (arith, less)) (omega (arith, h')) h''
              (omega (arith, enough)))
      | inr at_end ↦
          let ten : slot ≡ 10 = ground (arith, at_end, h) in
          let wraps : slot % 10 ≡ 0 = omega (arith, ten) in
          rw wraps (
            up_to fuel 1 k ds (omega (arith, h'')) (omega (arith, h', ten))
              (omega (arith, enough, ten)))
    ])

scan_slots-Ends :
    (k : ℕ) (ds : List Domain)
    → 0 < k
    → k ≤ 10
    → (o : Option ℕ) × (scan_slots 12 (suc k) (pos k) ds ≡ some o)
unfolding Ends
scan_slots-Ends k ds h h' = elim (Bool-cases (ltb k 10)) [
  | inl below ↦
      let less : k < 10 = ground (arith, below) in
      around 12 (suc k) k ds (omega (arith, less)) (omega arith) h (omega arith)
  | inr at_end ↦
      let ten : k ≡ 10 = ground (arith, at_end, h') in
      let wraps : suc k % 10 ≡ 1 = omega (arith, ten) in
      one_round 11 (suc k) k ds (λ n.
        rw wraps (up_to 11 2 k ds (omega (arith, ten)) (omega (arith, ten)) (omega (arith, ten))))
]

stuck_from :
    (fuel slot k : ℕ) (ds : List Domain)
    → slot ≢ k
    → 10 < k
    → ((s : ℕ) → s < 10 → candidate s ds ≡ none)
    → scan_slots fuel slot (pos k) ds ≡ none
unfolding scan_slots
stuck_from zero slot k ds h h' empty = refl
stuck_from (suc fuel) slot k ds h h' empty =
    let other : eqb_ℤ (pos slot) (pos k) ≡ false = ground (arith, h) in
    let none_there : candidate (slot % 10) ds ≡ none = empty (slot % 10) (omega arith) in
    let rest = stuck_from fuel (suc (slot % 10)) k ds (λ e. omega (arith, e, h')) h' empty in
    rw other (
      ap
        (λ o. elim o [
          | none ↦ scan_slots fuel (suc (slot % 10)) (pos k) ds
          | some i ↦ some (some i)
        ])
        none_there
      ∙ rest)

-- The current guest's slot is 11 or above and no guest but the UIVM is in the slots 0 to 9: no number of
-- rounds is enough, the loop does not end.
pub go_to_next_stuck :
    (fuel i k : ℕ) (d : Domain) (ds : List Domain)
    → points_to (domain_uivm ds) i ≡ false
    → get_elem? ds i ≡ some d
    → d.slot ≡ pos k
    → 10 < k
    → ((s : ℕ) → s < 10 → candidate s ds ≡ none)
    → go_to_next fuel (some i) ds ≡ none
unfolding go_to_next
go_to_next_stuck fuel i k d ds h at slot high empty = rw h (
    ap (λ o. next_of fuel o ds) at
    ∙ ap (λ s. scan_slots fuel (slot_after s) s ds) slot
    ∙ stuck_from fuel (suc k) k ds (λ e. omega (arith, e)) high empty)

-- The current guest is another one than the UIVM and its slot is 1 to 10: the loop ends within twelve
-- rounds, whatever else the table has.
pub go_to_next_ends :
    (i k : ℕ) (d : Domain) (ds : List Domain)
    → points_to (domain_uivm ds) i ≡ false
    → get_elem? ds i ≡ some d
    → d.slot ≡ pos k
    → 0 < k
    → k ≤ 10
    → (o : Option ℕ) × (go_to_next 12 (some i) ds ≡ some o)
unfolding go_to_next Ends
go_to_next_ends i k d ds h at slot low high =
    let (o, ends) = scan_slots-Ends k ds low high in
    (
      o,
      rw h (ap (λ o. next_of 12 o ds) at ∙ ap (λ s. scan_slots 12 (slot_after s) s ds) slot ∙ ends),
    )
