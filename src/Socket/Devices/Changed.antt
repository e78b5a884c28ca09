-- ===== src/Socket/Devices/Changed.antt =====
-- What a change does to the entries of the queue of device events.
use input.Socket.Devices.{change, changed_or}
use input.Socket.Sending.{DevEvent}
use input.Base.{
  ◌==◌, if◌then◌else◌, ==_iff, Bool-cases, All, ℕ, suc, ◌≤◌, ◌<◌, ◌≡◌, refl, sym, ap, ◌∙◌, subst,
  inl, inr, Bool, true, false, not, ◌&&◌, ◌||◌, Option, none, some, List, [], ◌∷◌, arith,
}

-- Whether the plugin has a device after it was told of an entry: DEV_RESET comes before DEV_CONF.
abbrev pub told_of : ℕ → DevEvent → Bool → Bool
told_of x d known = if d.slot == x then d.add || (not d.remove && known) else known

-- After all entries, in the order of `flush_queued_dev_events`.
unfoldable pub after_flush : ℕ → List DevEvent → Bool → Bool
after_flush x [] known = known
after_flush x (d ∷ ds) known = after_flush x ds (told_of x d known)

-- How many entries a slot has.
unfoldable pub entries : ℕ → List DevEvent → ℕ
entries x [] = 0
entries x (d ∷ ds) = if d.slot == x then suc (entries x ds) else entries x ds

after_flush_untold :
    (x : ℕ) (ds : List DevEvent) (known : Bool) → entries x ds ≡ 0 → after_flush x ds known ≡ known
unfolding entries after_flush
after_flush_untold x [] known h = refl
after_flush_untold x (d ∷ ds) known h = elim (Bool-cases (d.slot == x)) [
  | inl same ↦ absurd (ground (arith, h, same))
  | inr other ↦ rw other (after_flush_untold x ds known (ground (arith, h, other)))
]

abbrev pub unmarked : ℕ → DevEvent
unmarked x = record { slot = x; remove = false; add = false }

-- The entry of a slot, or one without marks.
unfoldable pub entry_of : ℕ → List DevEvent → DevEvent
entry_of x [] = unmarked x
entry_of x (d ∷ ds) = if d.slot == x then d else entry_of x ds

abbrev pub told_by : DevEvent → Bool → Bool
told_by d known = d.add || (not d.remove && known)

pub after_flush_lem :
    (x : ℕ) (ds : List DevEvent) (known : Bool)
    → entries x ds ≤ 1
    → after_flush x ds known ≡ told_by (entry_of x ds) known
unfolding entries after_flush entry_of
after_flush_lem x [] known once = refl
after_flush_lem x (d ∷ ds) known once = elim (Bool-cases (d.slot == x)) [
  | inl same ↦ rw same (after_flush_untold x ds (told_by d known) (ground (arith, once, same)))
  | inr other ↦ rw other (after_flush_lem x ds known (ground (arith, once, other)))
]

entry_none : (x : ℕ) (ds : List DevEvent) → entries x ds ≡ 0 → entry_of x ds ≡ unmarked x
unfolding entries entry_of
entry_none x [] h = refl
entry_none x (d ∷ ds) h = elim (Bool-cases (d.slot == x)) [
  | inl same ↦ absurd (ground (arith, h, same))
  | inr other ↦ rw other (entry_none x ds (ground (arith, h, other)))
]

abbrev pub HasSmallSlot : DevEvent → Type 0
HasSmallSlot d = d.slot < 256

-- One entry of a slot that no later one has is changed.
pub data Changed (f : DevEvent → DevEvent) (s : ℕ) : List DevEvent → List DevEvent → Type 0 where
  here :
      (d : DevEvent) (ds : List DevEvent)
      → d.slot == s ≡ true
      → entries s ds ≡ 0
      → Changed f s (d ∷ ds) (f d ∷ ds)
  later :
      (d : DevEvent) (ds ds' : List DevEvent) → Changed f s ds ds' → Changed f s (d ∷ ds) (d ∷ ds')

abbrev pub Found : (DevEvent → DevEvent) → ℕ → List DevEvent → Option (List DevEvent) → Type 0
Found f s ds none = entries s ds ≡ 0
Found f s ds (some ds') = Changed f s ds ds'

lookup_cons :
    (f : DevEvent → DevEvent) (s : ℕ) (d : DevEvent) (ds : List DevEvent)
    (o : Option (List DevEvent))
    → Found f s ds o
    → Found f s (d ∷ ds) (elim o [
      | some ds' ↦ some (d ∷ ds')
      | none ↦ if d.slot == s then some (f d ∷ ds) else none
    ])
unfolding entries
lookup_cons f s d ds (some ds') h = later d ds ds' h
lookup_cons f s d ds none h = elim (Bool-cases (d.slot == s)) [
  | inl same ↦ rw same (here d ds same h)
  | inr other ↦ rw other (rw other h)
]

pub change-Found :
    (f : DevEvent → DevEvent) (s : ℕ) (ds : List DevEvent) → Found f s ds (change f s ds)
unfolding change entries
change-Found f s [] = refl
change-Found f s (d ∷ ds) = lookup_cons f s d ds (change f s ds) (change-Found f s ds)

has_entry :
    (f : DevEvent → DevEvent) (s : ℕ) (ds ds' : List DevEvent)
    → Changed f s ds ds'
    → 1 ≤ entries s ds
unfolding entries
has_entry f s _ _ (here d ds same h) = ground (arith, same)
has_entry f s _ _ (later d ds ds' c) = ground (arith, has_entry f s ds ds' c)

module _ (f : DevEvent → DevEvent) (keeps : (d : DevEvent) → (f d).slot ≡ d.slot) (s : ℕ) where
  entries-Changed :
      (x : ℕ) (ds ds' : List DevEvent) → Changed f s ds ds' → entries x ds' ≡ entries x ds
  unfolding entries
  entries-Changed x _ _ (here d ds same h) = rw (keeps d) refl
  entries-Changed x _ _ (later d ds ds' c) = rw (entries-Changed x ds ds' c) refl

  entry_other :
      (x : ℕ) (ds ds' : List DevEvent)
      → s == x ≡ false
      → Changed f s ds ds'
      → entry_of x ds' ≡ entry_of x ds
  unfolding entry_of
  entry_other x _ _ h (here d ds same none_later) =
      let is_s : d.slot ≡ s = (==_iff d.slot s).0 same in
      let own : (f d).slot == x ≡ false = ap (λ z. z == x) (keeps d ∙ is_s) ∙ h in
      let other : d.slot == x ≡ false = ap (λ z. z == x) is_s ∙ h in rw (own, other) refl
  entry_other x _ _ h (later d ds ds' c) = rw (entry_other x ds ds' h c) refl

  entry_own :
      (ds ds' : List DevEvent)
      → entries s ds ≤ 1
      → Changed f s ds ds'
      → entry_of s ds' ≡ f (entry_of s ds)
  unfolding entry_of entries
  entry_own _ _ once (here d ds same none_later) =
      let own : (f d).slot == s ≡ true = ap (λ z. z == s) (keeps d) ∙ same in rw (own, same) refl
  entry_own _ _ once (later d ds ds' c) =
      let other : d.slot == s ≡ false = ground (arith, has_entry f s ds ds' c, once) in
      rw other (entry_own ds ds' (ground (arith, once, other)) c)

  small-Changed :
      (ds ds' : List DevEvent) → Changed f s ds ds' → All HasSmallSlot ds → All HasSmallSlot ds'
  small-Changed _ _ (here d ds same h) (this, rest) =
      (subst (λ n. n < 256) (sym (keeps d)) this, rest)
  small-Changed _ _ (later d ds ds' c) (this, rest) = (this, small-Changed ds ds' c rest)

  pub small-changed_or :
      (n : DevEvent) (ds : List DevEvent) (o : Option (List DevEvent))
      → n.slot < 256
      → Found f s ds o
      → All HasSmallSlot ds
      → All HasSmallSlot (changed_or o n ds)
  small-changed_or n ds (some ds') h found all = small-Changed ds ds' found all
  small-changed_or n ds none h found all = (h, all)

  -- The queue after one change, whether an entry was changed or is new.
  pub changed_or-Once :
      (n : DevEvent) (x : ℕ) (ds : List DevEvent) (o : Option (List DevEvent))
      → n.slot ≡ s
      → Found f s ds o
      → entries x ds ≤ 1
      → entries x (changed_or o n ds) ≤ 1
  unfolding entries
  changed_or-Once n x ds (some ds') is_s found once =
      omega (arith, entries-Changed x ds ds' found, once)
  changed_or-Once n x ds none is_s found once = elim (Bool-cases (n.slot == x)) [
    | inl same ↦
        let s_is : s ≡ x = sym is_s ∙ (==_iff n.slot x).0 same in
        rw same (omega (arith, subst (λ z. entries z ds ≡ 0) s_is found))
    | inr other ↦ rw other once
  ]

  own_after :
      (n : DevEvent) (ds : List DevEvent) (o : Option (List DevEvent))
      → n ≡ f (unmarked s)
      → Found f s ds o
      → entries s ds ≤ 1
      → entry_of s (changed_or o n ds) ≡ f (entry_of s ds)
  unfolding entry_of
  own_after n ds (some ds') new found once = entry_own ds ds' once found
  own_after n ds none new found once =
      let own : n.slot == s ≡ true =
        (==_iff n.slot s).1 (ap (λ d. d.slot) new ∙ keeps (unmarked s)) in
      rw own (new ∙ ap f (sym (entry_none s ds found)))

  other_after :
      (n : DevEvent) (x : ℕ) (ds : List DevEvent) (o : Option (List DevEvent))
      → n.slot ≡ s
      → Found f s ds o
      → s == x ≡ false
      → entry_of x (changed_or o n ds) ≡ entry_of x ds
  unfolding entry_of
  other_after n x ds (some ds') is_s found h = entry_other x ds ds' h found
  other_after n x ds none is_s found h =
      let other : n.slot == x ≡ false = ap (λ z. z == x) is_s ∙ h in rw other refl

  pub changed_or-entry_of :
      (n : DevEvent) (x : ℕ) (ds : List DevEvent) (o : Option (List DevEvent))
      → n ≡ f (unmarked s)
      → Found f s ds o
      → entries s ds ≤ 1
      → entry_of x (changed_or o n ds) ≡ (if s == x then f (entry_of x ds) else entry_of x ds)
  changed_or-entry_of n x ds o new found once = elim (Bool-cases (s == x)) [
    | inl same ↦ rw same (
        subst (λ z. entry_of z (changed_or o n ds) ≡ f (entry_of z ds)) ((==_iff s x).0 same)
          (own_after n ds o new found once))
    | inr other ↦
        rw other (other_after n x ds o (ap (λ d. d.slot) new ∙ keeps (unmarked s)) found other)
  ]
