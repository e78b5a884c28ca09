-- ===== src/Routing/Remembered.antt =====
-- A domain that is gone stays out of what other domains remember of the keyboard.
use input.Routing.Gone.{IsClear}
use input.Routing.Previous.{
  domid_of, update_domain, with_prev_keyb, input_give_keyboard_from_domain, forget_keyb,
  input_return_keyboard_to_domain, remember, save_prev_keyb_domain, give_back, restore_in,
  restore_prev_keyb_domain,
}
use input.Routing.{Router, points_to}
use input.Base.{
  ◌==◌, if◌then◌else◌, get_elem?, ℤ, ℕ, zero, suc, ◌≡◌, refl, subst, Bool, true, false, Option,
  none, some, List, [], ◌∷◌,
}
use input.Domains.{Domain, update_at, no_prev_keyb}
use mathlib.Core.Option.{some-injective}
use input.Routing.Silence.{either, give-IsClear, return-IsClear}

looked_up :
    (f : Domain → Domain) (P : Domain → Type 0) (j l : ℕ) (ds : List Domain) (d : Domain)
    → ((d : Domain) → P d → P (f d))
    → ((l : ℕ) (d : Domain) → get_elem? ds l ≡ some d → P d)
    → get_elem? (update_at j f ds) l ≡ some d
    → P d
unfolding update_at
looked_up f P j l [] d keeps all at = cc
looked_up f P zero zero (d0 ∷ ds) d keeps all at =
    subst P (some-injective (f d0) d at) (keeps d0 (all 0 d0 refl))
looked_up f P zero (suc l) (d0 ∷ ds) d keeps all at = all (suc l) d at
looked_up f P (suc j) zero (d0 ∷ ds) d keeps all at = all 0 d at
looked_up f P (suc j) (suc l) (d0 ∷ ds) d keeps all at =
    looked_up f P j l ds d keeps (λ l. all (suc l)) at

forget_keyb-quiet :
    (i : ℕ) (b : Bool) (d : Domain)
    → points_to d.prev_keyb_domain_ptr i ≡ false
    → points_to (if b then no_prev_keyb d else d).prev_keyb_domain_ptr i ≡ false
forget_keyb-quiet i true d h = refl
forget_keyb-quiet i false d h = h

remember-quiet :
    (i : ℕ) (b : Bool) (k : ℕ) (domid : ℤ) (d : Domain)
    → k == i ≡ false
    → points_to ((if b then no_prev_keyb else with_prev_keyb k domid) d).prev_keyb_domain_ptr i
      ≡ false
remember-quiet i true k domid d h = refl
remember-quiet i false k domid d h = h

module _ {i n : ℕ} where
  update-IsClear :
      (j : ℕ) (f : Domain → Domain) (r : Router)
      → ((d : Domain)
          → points_to d.prev_keyb_domain_ptr i ≡ false
          → points_to (f d).prev_keyb_domain_ptr i ≡ false)
      → IsClear i n r
      → IsClear i n (update_domain j f r)
  update-IsClear j f r keeps c = record {
    keyb_dest = c.keyb_dest;
    keyb_parent = c.keyb_parent;
    mouse_dest = c.mouse_dest;
    mouse_parent = c.mouse_parent;
    diverts = c.diverts;
    prevs = λ l d.
        looked_up f (λ d. points_to d.prev_keyb_domain_ptr i ≡ false) j l r.domains d keeps c.prevs;
    silent = c.silent;
  }

  pub give_from-IsClear :
      (d o : Option ℕ) (r : Router)
      → points_to o i ≡ false
      → IsClear i n r
      → IsClear i n (input_give_keyboard_from_domain d o r)
  unfolding input_give_keyboard_from_domain
  give_from-IsClear none o r h c = c
  give_from-IsClear (some j) none r h c = c
  give_from-IsClear (some j) (some k) r h c = either (j == k) c (
      either (points_to r.mouse_dest j) (give-IsClear (some k) r h c)
        (update-IsClear j (with_prev_keyb k (domid_of k r)) r (λ d _. h) c))

  pub return_to-IsClear :
      (d o : Option ℕ) (r : Router)
      → IsClear i n r
      → IsClear i n (input_return_keyboard_to_domain d o r)
  unfolding input_return_keyboard_to_domain
  return_to-IsClear none o r c = c
  return_to-IsClear (some j) none r c = c
  return_to-IsClear (some j) (some k) r c = either (j == k) c (
      either (points_to r.mouse_dest j) (return-IsClear (some k) r c)
        (update-IsClear j (forget_keyb k (domid_of k r)) r (λ d. forget_keyb-quiet i _ d) c))

  remember-IsClear :
      (j : ℕ) (k m : Option ℕ) (r : Router)
      → points_to k i ≡ false
      → IsClear i n r
      → IsClear i n (remember j k m r)
  remember-IsClear j none m r h c = c
  remember-IsClear j (some k) none r h c = c
  remember-IsClear j (some k) (some m) r h c =
      update-IsClear j _ r (λ d _. remember-quiet i (k == m) k (domid_of k r) d h) c

  give_back-IsClear :
      (k : Option ℕ) (domid : ℤ) (r : Router)
      → points_to k i ≡ false
      → IsClear i n r
      → IsClear i n (give_back k domid r)
  give_back-IsClear none domid r h c = c
  give_back-IsClear (some k) domid r h c = either _ (give-IsClear (some k) r h c) c

  restore_in-IsClear :
      (j : ℕ) (o : Option Domain) (r : Router)
      → get_elem? r.domains j ≡ o
      → IsClear i n r
      → IsClear i n (restore_in o r)
  restore_in-IsClear j none r at c = c
  restore_in-IsClear j (some d) r at c =
      give_back-IsClear d.prev_keyb_domain_ptr d.prev_keyb_domid r (c.prevs j d at) c

  pub restore-IsClear :
      (d : Option ℕ) (r : Router) → IsClear i n r → IsClear i n (restore_prev_keyb_domain d r)
  unfolding restore_prev_keyb_domain
  restore-IsClear none r c = c
  restore-IsClear (some j) r c = restore_in-IsClear j _ r refl c

  pub save-IsClear :
      (d : Option ℕ) (r : Router) → IsClear i n r → IsClear i n (save_prev_keyb_domain d r)
  unfolding save_prev_keyb_domain
  save-IsClear none r c = c
  save-IsClear (some j) r c = remember-IsClear j r.keyb_dest r.mouse_dest r c.keyb_dest c
