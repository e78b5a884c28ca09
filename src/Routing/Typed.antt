-- ===== src/Routing/Typed.antt =====
-- A domain that is gone gets no key, not even one that a diversion takes.
use input.Routing.Seamless.{input_inject_seamless_keyboard, input_inject_seamless_mouse}
use input.Routing.Filter.{
  send_keypair, track_modifier, find_pair, send_all_to, pair_found, filter_for, filter_in,
  filter_of, filter_keys, is_seamless, send_seamless, send_untaken, inject_key,
}
use input.Routing.{
  KeyPair, Diversion, Router, points_to, set_key, input_keys_status, or_else, send_key_to,
}
use input.Routing.Gone.{heard, IsClear}
use input.Base.{
  ◌==◌, if◌then◌else◌, is_zero, Event, ev_key, ℕ, ◌≡◌, refl, Bool, true, false, not, Option, none,
  some, List, [], ◌∷◌, map, arith,
}
use input.Routing.Silence.{heard-append, either, redirect}

or_else-quiet :
    (i : ℕ) (o o' : Option ℕ)
    → points_to o i ≡ false
    → points_to o' i ≡ false
    → points_to (or_else o o') i ≡ false
or_else-quiet i none o' h h' = h'
or_else-quiet i (some k) o' h h' = h

heard_elsewhere : (i k : ℕ) (es : List Event) → k == i ≡ false → heard i (map (λ e. (k, e)) es) ≡ 0
unfolding heard
heard_elsewhere i k [] h = refl
heard_elsewhere i k (e ∷ es) h = rw h (heard_elsewhere i k es h)

module _ {i n : ℕ} where
  send_key_to-IsClear :
      (o : Option ℕ) (e : Event) (r : Router)
      → points_to o i ≡ false
      → IsClear i n r
      → IsClear i n (send_key_to o e r)
  unfolding heard
  send_key_to-IsClear none e r h c = c
  send_key_to-IsClear (some k) e r h c = record {
    keyb_dest = c.keyb_dest;
    keyb_parent = c.keyb_parent;
    mouse_dest = c.mouse_dest;
    mouse_parent = c.mouse_parent;
    diverts = c.diverts;
    prevs = c.prevs;
    silent = ground (arith, heard-append i r.sent ((k, e) ∷ []), h, c.silent);
  }

  send_all_to-IsClear :
      (k : ℕ) (es : List Event) (r : Router)
      → k == i ≡ false
      → IsClear i n r
      → IsClear i n (send_all_to k es r)
  send_all_to-IsClear k es r h c = record {
    keyb_dest = c.keyb_dest;
    keyb_parent = c.keyb_parent;
    mouse_dest = c.mouse_dest;
    mouse_parent = c.mouse_parent;
    diverts = c.diverts;
    prevs = c.prevs;
    silent =
        omega
          (arith, heard-append i r.sent (map (λ e. (k, e)) es), heard_elsewhere i k es h, c.silent);
  }

  pair_found-IsClear :
      (k : ℕ) (e : Event) (modifers : List ℕ) (o : Option KeyPair) (r : Router)
      → k == i ≡ false
      → IsClear i n r
      → IsClear i n (pair_found k e modifers o r).1
  pair_found-IsClear k e modifers none r h c = c
  pair_found-IsClear k e modifers (some pair) r h c =
      either (is_zero e.value) c (send_all_to-IsClear k (send_keypair pair modifers) r h c)

  filter_for-IsClear :
      (k : ℕ) (e : Event) (modifers : List ℕ) (keys : Option (List KeyPair)) (r : Router)
      → k == i ≡ false
      → IsClear i n r
      → IsClear i n (filter_for k e modifers keys r).1
  filter_for-IsClear k e modifers none r h c = c
  filter_for-IsClear k e modifers (some keys) r h c =
      let mask = track_modifier e 0 modifers r.keyb_modbits in
      pair_found-IsClear k e modifers (find_pair e.code mask keys)
        (record r { keyb_modbits = mask }) h
        (redirect r (record r { keyb_modbits = mask }) c.keyb_dest c.keyb_parent c.mouse_dest
          c.mouse_parent refl refl refl c)

  filter_in-IsClear :
      (k : ℕ) (e : Event) (o : Option Diversion) (r : Router)
      → k == i ≡ false
      → IsClear i n r
      → IsClear i n (filter_in k e o r).1
  filter_in-IsClear k e none r h c = c
  filter_in-IsClear k e (some dv) r h c = filter_for-IsClear k e dv.modifers dv.keylist r h c

  filter_of-IsClear :
      (o : Option ℕ) (e : Event) (r : Router)
      → points_to o i ≡ false
      → IsClear i n r
      → IsClear i n (filter_of o e r).1
  filter_of-IsClear none e r h c = c
  filter_of-IsClear (some k) e r h c = filter_in-IsClear k e (r.divert_info k) r h c

  send_seamless-IsClear : (e : Event) (r : Router) → IsClear i n r → IsClear i n (send_seamless e r)
  send_seamless-IsClear e r c =
      let c' =
        either (input_inject_seamless_keyboard e r.key_status)
          (send_key_to-IsClear r.keyb_dest e r c.keyb_dest c) c in
      either (input_inject_seamless_mouse e r.key_status)
        (send_key_to-IsClear r.mouse_dest e _ c.mouse_dest c') c'

  -- The two outcomes of the filter.
  sent_or_taken :
      (e : Event) (f : Bool × Router)
      → IsClear i n f.1
      → IsClear i n (if f.0 then f.1 else send_untaken e f.1)
  sent_or_taken e f c =
      let r = f.1 in
      either f.0 c (
        either (is_seamless r.keyb_dest r.mouse_dest r.keyb_waits_for_click)
          (send_seamless-IsClear e r c)
          (send_key_to-IsClear _ e r (or_else-quiet i _ _ c.keyb_dest c.mouse_dest) c))

  filter_if :
      (b : Bool) (e : Event) (r : Router)
      → IsClear i n r
      → IsClear i n (if b then filter_of r.keyb_parent e r else (false, r)).1
  filter_if true e r c = filter_of-IsClear r.keyb_parent e r c.keyb_parent c
  filter_if false e r c = c

  pub key-IsClear :
      (e : Event) (r : Router) → IsClear i n r → IsClear i n (inject_key e (input_keys_status e r))
  unfolding inject_key input_keys_status filter_keys
  key-IsClear e r c =
      let c' =
        either (e.type == ev_key)
          (redirect r
            (record r { key_status = set_key e.code (not (is_zero e.value)) r.key_status })
            c.keyb_dest c.keyb_parent c.mouse_dest c.mouse_parent refl refl refl c)
          c in
      sent_or_taken e _ (filter_if (e.type == ev_key) e _ c')
