-- ===== src/Domains/Unique.antt =====
-- The domains' numbers and slots: no two guests have the same.
use input.Base.{
  Bool-cases, Option-cases, get_elem?, ℤ, pos, ltb_ℤ, eq_of_eqb, ℕ, ◌≤◌, ◌≡◌, refl, sym, ap, ◌∙◌,
  subst, ◌⊎◌, inl, inr, Bool, true, false, not, ◌||◌, Option, none, some, List, arith,
}
use input.Domains.{
  ndomain_max, Domain, count_of, has_domid, has_slot, empty_domain, domain_with_domid,
  domain_with_slot, domain_with_slot_and_not_domid, update_at, domain_init, domain_new, forget,
  switch_on, after_slot, read_info, Info, slot_occupied_by_dead_domain, salvage, domain_assign_slot,
  domain_setup,
}
use input.Domains.Counts.{
  one, count_none, count_update, Ignores, has_domid-Ignores, has_slot-Ignores, forget_le,
  forget-Kept, update_quiet, update_at_self, find_some,
}

-- No two guests have the same number, nor the same slot. A number or slot of -1 is none.
pub record IsUnique (ds : List Domain) : Type 0 where
  pub domids : (n : ℕ) → count_of (has_domid (pos n)) ds ≤ 1
  pub slots : (s : ℕ) → count_of (has_slot (pos s)) ds ≤ 1

-- The entry of a guest that is being set up.
abbrev Waiting : ℤ → List Domain → ℕ → Type 0
Waiting domid ds i =
    (d : Domain) × (get_elem? ds i ≡ some d) × (d.initialised ≡ false) × (d.domid ≡ domid)

-- No test counts more entries than before.
abbrev Fewer : List Domain → List Domain → Type 0
Fewer ds ds' = (test : Domain → Bool) → Ignores test → count_of test ds' ≤ count_of test ds

abbrev in_slot : ℤ → Domain → Domain
in_slot slot d = record d { slot = slot }

slot_of : (slot : ℤ) (d d' : Domain) → some (in_slot slot d) ≡ some d' → d'.slot ≡ slot
slot_of slot d d' h = cc

vacant :
    (slot : ℤ) (ds : List Domain)
    → domain_with_slot slot ds ≡ none
    → count_of (has_slot slot) ds ≡ 0
unfolding domain_with_slot
vacant slot ds h = count_none (has_slot slot) ds h

absent :
    (domid : ℤ) (ds : List Domain)
    → domain_with_domid domid ds ≡ none
    → count_of (has_domid domid) ds ≡ 0
unfolding domain_with_domid
absent domid ds h = count_none (has_domid domid) ds h

not-false : (b : Bool) → not b ≡ true → b ≡ false
not-false true h = cc
not-false false h = refl

free_entry :
    (ds : List Domain) (i : ℕ)
    → empty_domain ds ≡ some i
    → (d : Domain) × (get_elem? ds i ≡ some d) × (d.initialised ≡ false)
unfolding empty_domain
free_entry ds i h =
    let (d, at, off) = find_some (λ d. not d.initialised) ds i h in
    (d, at, not-false d.initialised off)

refused :
    (domid : ℤ) (ds : List Domain) (i j : ℕ)
    → domain_with_domid domid ds ≡ some j
    → (domain_new domid ds).0 ≡ some i
    → ⊥
unfolding domain_new
refused domid ds i j e h = cc (rw (e, domain_new) at h)

full :
    (domid : ℤ) (ds : List Domain) (i : ℕ)
    → domain_with_domid domid ds ≡ none
    → empty_domain ds ≡ none
    → (domain_new domid ds).0 ≡ some i
    → ⊥
unfolding domain_new
full domid ds i e f h = cc (rw (e, f, domain_new) at h)

entered :
    (domid : ℤ) (ds : List Domain) (i j : ℕ)
    → domain_with_domid domid ds ≡ none
    → empty_domain ds ≡ some j
    → (domain_new domid ds).0 ≡ some i
    → j ≡ i
unfolding domain_new
entered domid ds i j e f h = cc (rw (e, f, domain_new) at h)

abbrev Entered : ℤ → List Domain → ℕ → Type 0
Entered domid ds i =
    (domain_with_domid domid ds ≡ none)
    × (empty_domain ds ≡ some i)
    × ((domain_new domid ds).1 ≡ update_at i (λ _. domain_init domid) ds)

new-Entered :
    (domid : ℤ) (ds : List Domain) (i : ℕ) → (domain_new domid ds).0 ≡ some i → Entered domid ds i
unfolding domain_new
new-Entered domid ds i h = elim (Option-cases (domain_with_domid domid ds)) [
  | inr (j, e) ↦ absurd (refused domid ds i j e h)
  | inl e ↦ elim (Option-cases (empty_domain ds)) [
    | inl f ↦ absurd (full domid ds i e f h)
    | inr (j, f) ↦
        let same : j ≡ i = entered domid ds i j e f h in
        subst (λ k. Entered domid ds k) same (e, f, rw (e, f, domain_new) refl)
  ]
]

module _ (getinfo : ℤ → Info) (in_xenstore : ℤ → Bool) where
  salvage_is :
      (slot domid : ℤ) (ds : List Domain)
      → (salvage getinfo in_xenstore slot domid forget ds ≡ ds)
        ⊎ ((j : ℕ) × (salvage getinfo in_xenstore slot domid forget ds ≡ forget j ds))
  unfolding salvage
  salvage_is slot domid ds =
      elim (Bool-cases (slot_occupied_by_dead_domain getinfo in_xenstore slot domid ds)) [
        | inl dead ↦ elim (Option-cases (domain_with_slot_and_not_domid slot domid ds)) [
          | inl e ↦ inl (rw (dead, e, salvage) refl)
          | inr (j, e) ↦ inr (j, rw (dead, e, salvage) refl)
        ]
        | inr free ↦ inl (rw (free, salvage) refl)
      ]

  salvage_lem :
      (slot domid : ℤ) (ds : List Domain) (i : ℕ)
      → Waiting domid ds i
      → Waiting domid (salvage getinfo in_xenstore slot domid forget ds) i
        × Fewer ds (salvage getinfo in_xenstore slot domid forget ds)
  salvage_lem slot domid ds i (d, at, off, same) = elim (salvage_is slot domid ds) [
    | inl e ↦ rw e ((d, at, off, same), λ test ig. omega arith)
    | inr (j, e) ↦
        let (d', at', off', same') = forget-Kept j i ds d at in
        rw e ((d', at', off' off, same' ∙ same), λ test ig. forget_le test j ds ig)
  ]

  -- What `domain_assign_slot` leaves: the entry, no more guests than before, and where it succeeds nobody
  -- else in the slot.
  abbrev Assigned : ℤ → ℤ → List Domain → ℕ → Bool × List Domain → Type 0
  Assigned domid slot ds i r =
      Waiting domid r.1 i
      × Fewer ds r.1
      × (r.0 ≡ true
          → (count_of (has_slot slot) r.1 ≡ 0)
            × ((d : Domain) → get_elem? r.1 i ≡ some d → d.slot ≡ slot))

  assign-Assigned :
      (i : ℕ) (domid slot : ℤ) (ds : List Domain)
      → Waiting domid ds i
      → Assigned domid slot ds i (domain_assign_slot getinfo in_xenstore i domid slot ds)
  unfolding domain_assign_slot
  assign-Assigned i domid slot ds w =
      elim (Bool-cases (ltb_ℤ slot (pos 0) || not (ltb_ℤ slot (pos ndomain_max)))) [
        | inl bad ↦ rw (bad, domain_assign_slot) (w, λ test ig. omega arith, λ u. cc)
        | inr good ↦
            let ds' = salvage getinfo in_xenstore slot domid forget ds in
            let (w', fewer) = salvage_lem slot domid ds i w in
            elim (Option-cases (domain_with_slot slot ds')) [
              | inr (j, e) ↦ rw (good, e, domain_assign_slot) (w', fewer, λ u. cc)
              | inl e ↦
                  let (d, at, off, same) = w' in
                  rw (good, e, domain_assign_slot)
                    (
                      (
                        record d { slot = slot },
                        update_at_self (in_slot slot) ds' i d at,
                        off,
                        same,
                      ),
                      λ test ig. omega (
                        arith,
                        fewer test ig,
                        update_quiet test (in_slot slot) ds' i d at (ig.0 d off)
                            (ig.0 (record d { slot = slot }) off),
                      ),
                      λ _. (
                        update_quiet (has_slot slot) (in_slot slot) ds' i d at
                              ((has_slot-Ignores slot).0 d off)
                              ((has_slot-Ignores slot).0 (record d { slot = slot }) off)
                            ∙ vacant slot ds' e,
                        λ d' h.
                            slot_of slot d d' (sym (update_at_self (in_slot slot) ds' i d at) ∙ h),
                      ),
                    )
            ]
      ]

  count_after :
      (test : Domain → Bool) (ds : List Domain) (i : ℕ) (d : Domain)
      → Ignores test
      → get_elem? ds i ≡ some d
      → d.initialised ≡ false
      → count_of test ds ≤ 1
      → (test (switch_on d) ≡ true → count_of test ds ≡ 0)
      → count_of test (update_at i switch_on ds) ≤ 1
  count_after test ds i d ig at off le free =
      let counted = count_update test switch_on ds i d at in
      let before = ap one (ig.0 d off) in
      elim (Bool-cases (test (switch_on d))) [
        | inl e ↦ omega (arith, counted, before, ap one e, free e)
        | inr e ↦ omega (arith, counted, before, ap one e)
      ]

  after-Unique :
      (i : ℕ) (domid slot : ℤ) (ds : List Domain) (r : Bool × List Domain)
      → Assigned domid slot ds i r
      → count_of (has_domid domid) ds ≡ 0
      → IsUnique ds
      → IsUnique (after_slot i r).1
  after-Unique i domid slot ds (false, ds2) (w, fewer, good) none_yet u = record {
    domids = λ n. omega (arith, fewer (has_domid (pos n)) (has_domid-Ignores (pos n)), u.domids n);
    slots = λ s. omega (arith, fewer (has_slot (pos s)) (has_slot-Ignores (pos s)), u.slots s);
  }
  after-Unique i domid slot ds (true, ds2) ((d, at, off, same), fewer, good) none_yet u = record {
    domids = λ n.
        count_after (has_domid (pos n)) ds2 i d (has_domid-Ignores (pos n)) at off
          (omega (arith, fewer (has_domid (pos n)) (has_domid-Ignores (pos n)), u.domids n))
          (λ e.
            let n_is : domid ≡ pos n = sym same ∙ eq_of_eqb d.domid (pos n) e in
            omega (
              arith,
              subst (λ z. count_of (has_domid z) ds2 ≤ count_of (has_domid z) ds) n_is
                  (fewer (has_domid domid) (has_domid-Ignores domid)),
              subst (λ z. count_of (has_domid z) ds ≡ 0) n_is none_yet,
            ));
    slots = λ s.
        count_after (has_slot (pos s)) ds2 i d (has_slot-Ignores (pos s)) at off
          (omega (arith, fewer (has_slot (pos s)) (has_slot-Ignores (pos s)), u.slots s))
          (λ e.
            let (empty, in_it) = good refl in
            subst (λ z. count_of (has_slot z) ds2 ≡ 0)
              (sym (in_it d at) ∙ eq_of_eqb d.slot (pos s) e) empty);
  }

  setup-Unique :
      (i : ℕ) (domid : ℤ) (uuid : Option (List ℕ)) (is_pv : Bool) (slot : ℤ) (ds : List Domain)
      → Waiting domid ds i
      → count_of (has_domid domid) ds ≡ 0
      → IsUnique ds
      → IsUnique (domain_setup getinfo in_xenstore i domid uuid is_pv slot ds).1
  unfolding domain_setup
  setup-Unique i domid uuid is_pv slot ds (d, at, off, same) none_yet u =
      let read = read_info uuid is_pv in
      let ds1 = update_at i read ds in
      let quiet = λ (test : Domain → Bool) (ig : Ignores test).
        update_quiet test read ds i d at (ig.0 d off) (ig.0 (read d) off) in
      after-Unique i domid slot ds1 (domain_assign_slot getinfo in_xenstore i domid slot ds1)
        (assign-Assigned i domid slot ds1 (read d, update_at_self read ds i d at, off, same))
        (quiet (has_domid domid) (has_domid-Ignores domid) ∙ none_yet)
        (record {
          domids =
              λ n. omega (arith, quiet (has_domid (pos n)) (has_domid-Ignores (pos n)), u.domids n);
          slots =
              λ s. omega (arith, quiet (has_slot (pos s)) (has_slot-Ignores (pos s)), u.slots s);
        })

  -- A guest that connects gets a free entry and is set up in it: whatever Xen and the toolstack say, and
  -- whether the slot is free, taken or held by a dead guest, no two guests in use end up with the same
  -- number or the same slot if none had before.
  pub connect-IsUnique :
      (n : ℕ) (uuid : Option (List ℕ)) (is_pv : Bool) (slot : ℤ) (ds : List Domain) (i : ℕ)
      → IsUnique ds
      → (domain_new (pos n) ds).0 ≡ some i
      → IsUnique
          (domain_setup getinfo in_xenstore i (pos n) uuid is_pv slot (domain_new (pos n) ds).1).1
  connect-IsUnique n uuid is_pv slot ds i u h =
      let (none_yet, free, is) = new-Entered (pos n) ds i h in
      let fresh = λ (d : Domain). domain_init (pos n) in
      let (d, at, off) = free_entry ds i free in
      let quiet = λ (test : Domain → Bool) (ig : Ignores test).
        update_quiet test fresh ds i d at (ig.0 d off) (ig.0 (domain_init (pos n)) refl) in
      rw is (
        setup-Unique i (pos n) uuid is_pv slot (update_at i fresh ds)
          (domain_init (pos n), update_at_self fresh ds i d at, refl, refl)
          (quiet (has_domid (pos n)) (has_domid-Ignores (pos n)) ∙ absent (pos n) ds none_yet)
          (record {
            domids = λ m.
                omega (arith, quiet (has_domid (pos m)) (has_domid-Ignores (pos m)), u.domids m);
            slots =
                λ s. omega (arith, quiet (has_slot (pos s)) (has_slot-Ignores (pos s)), u.slots s);
          }))
