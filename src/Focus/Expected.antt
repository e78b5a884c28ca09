-- ===== src/Focus/Expected.antt =====
-- The window of an expected death, in microseconds.
use input.Focus.{
  nslots, Timeval, FocusSlot, Incumbent, in_slots, change_at, change_slot, focus_expect_death,
  expecting_death, expected_in, gone_from, focus_domain_gone,
}
use input.Base.{
  ltb, leb, length, get_elem?, get_elem?-below, pos, ℕ, zero, suc, ◌+◌, ◌*◌, ◌<◌, ◌≡◌, refl, ap,
  ◌∙◌, ◌≢◌, Bool, true, not, ◌&&◌, none, some, List, [], ◌∷◌, arith,
}

abbrev pub microseconds : Timeval → ℕ
microseconds t = t.tv_sec * 1000000 + t.tv_usec

-- From the time `t` on, for less than 31 seconds.
abbrev pub in_window : Timeval → Timeval → Bool
in_window t now =
    leb (microseconds t) (microseconds now) && ltb (microseconds now) (microseconds t + 31000000)

expecting-window :
    (now : Timeval) (s : FocusSlot)
    → now.tv_usec < 1000000
    → s.death_window.tv_usec < 1000000
    → expecting_death now s ≡ in_window s.death_window now
unfolding expecting_death
expecting-window now s h h' = ground arith

none_differs : (s : FocusSlot) → none ≢ some s
none_differs s = λ h. cc

get_elem?-change_at :
    (f : FocusSlot → FocusSlot) (i : ℕ) (slots : List FocusSlot) (s : FocusSlot)
    → get_elem? slots i ≡ some s
    → get_elem? (change_at i f slots) i ≡ some (f s)
get_elem?-change_at f i [] s h = absurd (none_differs s h)
get_elem?-change_at f zero (x ∷ slots) s h = let e : x ≡ s = cc in ap (λ y. some (f y)) e
get_elem?-change_at f (suc i) (x ∷ slots) s h = get_elem?-change_at f i slots s h

in_slots-pos : (i : ℕ) → i < nslots → in_slots (pos i) ≡ some i
in_slots-pos i h = let b : ltb i nslots ≡ true = ground arith in rw (b) refl

-- The slots are all there, a death in one of them is expected at `t`, and its guest goes away at `now`: the
-- screen goes to the UIVM if the guest is a PVM and `now` is not within 31 seconds, to the microsecond,
-- from `t` on.
pub focus_domain_gone-expected :
    (t now : Timeval) (i : ℕ) (d : Incumbent) (slots : List FocusSlot)
    → d.slot ≡ pos i
    → i < nslots
    → length slots ≡ nslots
    → t.tv_usec < 1000000
    → now.tv_usec < 1000000
    → focus_domain_gone now d (focus_expect_death t d slots) ≡ (d.is_pvm && not (in_window t now))
unfolding focus_domain_gone focus_expect_death
focus_domain_gone-expected t now i d slots h h' whole ht hn =
    let f : FocusSlot → FocusSlot = λ s. record s { death_window = t } in
    let e = ap in_slots h ∙ in_slots-pos i h' in
    let (s, g) = get_elem?-below slots i (omega arith) in
    let g' = get_elem?-change_at f i slots s g in
    let w = expecting-window now (f s) hn ht in
    ap (λ o. d.is_pvm && gone_from now o (change_slot f o slots)) e
    ∙ (ap (λ o. d.is_pvm && not (expected_in now o)) g' ∙ ap (λ b. d.is_pvm && not b) w)
