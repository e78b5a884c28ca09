-- ===== src/Routing/Silence.antt =====
-- What the operations of the router do for a domain that is no destination: nothing.
use input.Routing.{
  Diversion, Router, points_to, same_domain, key_release, reset_targets, told, reset_loop,
  reset_for, input_keyboard_reset, take_keyboard, kbd_diverted, kbd_domain, set_kbd_domain,
  mouse_diverted, mouse_domain_of, set_mouse_domain, input_set_mouse, no_wait, input_set_keyb,
  input_set, leave, input_give_keyboard, input_return_keyboard,
}
use input.Base.{
  ◌==◌, if◌then◌else◌, Bool-cases, get_elem?, Event, ℕ, suc, ◌+◌, ◌≡◌, refl, sym, ap, ◌∙◌, inl, inr,
  Bool, true, false, not, ◌&&◌, Option, none, some, List, [], ◌∷◌, ◌++◌, arith,
}
use input.Routing.Gone.{heard, IsClear}

pub heard-append :
    (i : ℕ) (es es' : List (ℕ × Event)) → heard i (es ++ es') ≡ heard i es + heard i es'
unfolding heard
heard-append i [] es' = omega arith
heard-append i ((j, e) ∷ es) es' = ground (arith, heard-append i es es')

abbrev Avoids : ℕ → List ℕ → Type 0
Avoids i targets = (e : Event) → heard i (told targets e) ≡ 0

reset_targets-Avoids :
    (i : ℕ) (b : Bool) (k : ℕ) (m : Option ℕ)
    → k == i ≡ false
    → points_to m i ≡ false
    → Avoids i (reset_targets b k m)
unfolding heard
reset_targets-Avoids i b k none h h' e = rw h refl
reset_targets-Avoids i b k (some m) h h' e = elim (Bool-cases (b && not (k == m))) [
  | inl both ↦ rw (both, h, h') refl
  | inr one ↦ rw (one, h) refl
]

reset_loop-Avoids :
    (i : ℕ) (targets : List ℕ) (code : ℕ) (keys : List Bool)
    → Avoids i targets
    → heard i (reset_loop targets code keys) ≡ 0
unfolding reset_loop heard
reset_loop-Avoids i targets code [] h = refl
reset_loop-Avoids i targets code (true ∷ keys) h = omega (
  arith,
  heard-append i (told targets (key_release code)) (reset_loop targets (suc code) keys),
  h (key_release code),
  reset_loop-Avoids i targets (suc code) keys h,
)
reset_loop-Avoids i targets code (false ∷ keys) h = reset_loop-Avoids i targets (suc code) keys h

module _ {i n : ℕ} where
  pub either :
      {r r' : Router} (c : Bool)
      → IsClear i n r
      → IsClear i n r'
      → IsClear i n (if c then r else r')
  either true h h' = h
  either false h h' = h'

  reset_for-IsClear :
      (b : Bool) (k : Option ℕ) (r : Router)
      → points_to k i ≡ false
      → IsClear i n r
      → IsClear i n (reset_for b k r)
  reset_for-IsClear b none r h c = c
  reset_for-IsClear b (some k) r h c =
      let targets = reset_targets b k r.mouse_dest in
      record {
        keyb_dest = c.keyb_dest;
        keyb_parent = c.keyb_parent;
        mouse_dest = c.mouse_dest;
        mouse_parent = c.mouse_parent;
        diverts = c.diverts;
        prevs = c.prevs;
        silent = omega (
          arith,
          heard-append i r.sent (reset_loop targets 0 r.key_status),
          reset_loop-Avoids i targets 0 r.key_status
              (reset_targets-Avoids i b k r.mouse_dest h c.mouse_dest),
          c.silent,
        );
      }

  pub reset-IsClear :
      (b : Bool) (r : Router) → IsClear i n r → IsClear i n (input_keyboard_reset b r)
  unfolding input_keyboard_reset
  reset-IsClear b r c = reset_for-IsClear b r.keyb_dest r c.keyb_dest c

  -- New destinations that are not the domain.
  pub redirect :
      (r r' : Router)
      → points_to r'.keyb_dest i ≡ false
      → points_to r'.keyb_parent i ≡ false
      → points_to r'.mouse_dest i ≡ false
      → points_to r'.mouse_parent i ≡ false
      → r'.divert_info ≡ r.divert_info
      → r'.domains ≡ r.domains
      → r'.sent ≡ r.sent
      → IsClear i n r
      → IsClear i n r'
  redirect r r' h1 h2 h3 h4 d1 d2 d3 c = record {
    keyb_dest = h1;
    keyb_parent = h2;
    mouse_dest = h3;
    mouse_parent = h4;
    diverts = λ j dv at. c.diverts j dv (ap (λ f. f j) (sym d1) ∙ at);
    prevs = λ j d at. c.prevs j d (ap (λ ds. get_elem? ds j) (sym d2) ∙ at);
    silent = ap (heard i) d3 ∙ c.silent;
  }

  take_keyboard-IsClear :
      (d : Option ℕ) (r : Router)
      → points_to d i ≡ false
      → IsClear i n r
      → IsClear i n (take_keyboard d r)
  take_keyboard-IsClear d r h c = redirect r _ h refl c.mouse_dest c.mouse_parent refl refl refl c

  no_wait-IsClear : (r : Router) → IsClear i n r → IsClear i n (no_wait r)
  no_wait-IsClear r c =
      redirect r _ c.keyb_dest c.keyb_parent c.mouse_dest c.mouse_parent refl refl refl c

  kbd_diverted-IsClear :
      (j : ℕ) (k m : Option ℕ) (r : Router)
      → j == i ≡ false
      → points_to k i ≡ false
      → IsClear i n r
      → IsClear i n (kbd_diverted j k m r)
  kbd_diverted-IsClear j none m r h h' c =
      redirect r _ h refl c.mouse_dest c.mouse_parent refl refl refl c
  kbd_diverted-IsClear j (some k) m r h h' c =
      redirect r _ h' h c.mouse_dest c.mouse_parent refl refl refl c

  kbd_domain-IsClear :
      (j : ℕ) (o : Option Diversion) (r : Router)
      → j == i ≡ false
      → r.divert_info j ≡ o
      → IsClear i n r
      → IsClear i n (kbd_domain j o r)
  kbd_domain-IsClear j none r h at c = take_keyboard-IsClear (some j) r h c
  kbd_domain-IsClear j (some dv) r h at c =
      kbd_diverted-IsClear j dv.key_domain dv.mouse_domain r h (c.diverts j dv at).0 c

  mouse_diverted-IsClear :
      (j : ℕ) (m : Option ℕ) (r : Router)
      → j == i ≡ false
      → points_to m i ≡ false
      → IsClear i n r
      → IsClear i n (mouse_diverted j m r)
  mouse_diverted-IsClear j none r h h' c =
      redirect r _ c.keyb_dest c.keyb_parent h refl refl refl refl c
  mouse_diverted-IsClear j (some m) r h h' c =
      redirect r _ c.keyb_dest c.keyb_parent h' h refl refl refl c

  mouse_domain_of-IsClear :
      (j : ℕ) (o : Option Diversion) (r : Router)
      → j == i ≡ false
      → r.divert_info j ≡ o
      → IsClear i n r
      → IsClear i n (mouse_domain_of j o r)
  mouse_domain_of-IsClear j none r h at c = mouse_diverted-IsClear j none r h refl c
  mouse_domain_of-IsClear j (some dv) r h at c =
      mouse_diverted-IsClear j dv.mouse_domain r h (c.diverts j dv at).1 c

  pub input_set-IsClear :
      (j : ℕ) (r : Router) → j == i ≡ false → IsClear i n r → IsClear i n (input_set j r)
  unfolding input_set set_kbd_domain set_mouse_domain
  input_set-IsClear j r h c =
      let r1 = no_wait (input_keyboard_reset true r) in
      let c1 = no_wait-IsClear (input_keyboard_reset true r) (reset-IsClear true r c) in
      kbd_domain-IsClear j _ (set_mouse_domain j r1) h refl
        (mouse_domain_of-IsClear j _ r1 h refl c1)

  pub input_set_keyb-IsClear :
      (j : ℕ) (r : Router) → j == i ≡ false → IsClear i n r → IsClear i n (input_set_keyb j r)
  unfolding input_set_keyb set_kbd_domain
  input_set_keyb-IsClear j r h c =
      kbd_domain-IsClear j _ _ h refl
        (no_wait-IsClear (input_keyboard_reset false r) (reset-IsClear false r c))

  pub input_set_mouse-IsClear :
      (j : ℕ) (r : Router) → j == i ≡ false → IsClear i n r → IsClear i n (input_set_mouse j r)
  unfolding input_set_mouse set_mouse_domain
  input_set_mouse-IsClear j r h c =
      mouse_domain_of-IsClear j _ _ h refl
        (redirect r _ c.keyb_dest c.keyb_parent c.mouse_dest c.mouse_parent refl refl refl c)

  leave-IsClear : (r : Router) → IsClear i n r → IsClear i n (leave r)
  leave-IsClear r c = either (same_domain r.keyb_dest r.mouse_dest) c (reset-IsClear false r c)

  pub give-IsClear :
      (d : Option ℕ) (r : Router)
      → points_to d i ≡ false
      → IsClear i n r
      → IsClear i n (input_give_keyboard d r)
  unfolding input_give_keyboard
  give-IsClear d r h c =
      either (same_domain d r.keyb_dest) c (take_keyboard-IsClear d (leave r) h (leave-IsClear r c))

  pub return-IsClear :
      (d : Option ℕ) (r : Router) → IsClear i n r → IsClear i n (input_return_keyboard d r)
  unfolding input_return_keyboard
  return-IsClear d r c =
      either (same_domain d r.keyb_dest)
        (take_keyboard-IsClear r.mouse_dest (leave r) c.mouse_dest (leave-IsClear r c)) c
