-- ===== src/Routing/Keys.antt =====
-- The keys that are down when the keyboard changes hands.
use input.Routing.Seamless.{key_sysrq, key_switchvideomode}
use input.Routing.Filter.{filter_keys, is_seamless, send_seamless, inject_key}
use input.Routing.Ops.{give, key, step, run}
use input.Routing.{
  Router, points_to, same_domain, key_release, reset_targets, told, reset_loop, all_up, reset_for,
  input_keyboard_reset, take_keyboard, input_give_keyboard, input_keys_status, send_key_to,
}
use input.Base.{
  ◌==◌, if◌then◌else◌, is_zero, Event, ev_key, ℕ, suc, ◌≡◌, refl, sym, ap, ◌∙◌, Bool, true, false,
  not, ◌&&◌, ◌||◌, Option, none, some, List, [], ◌∷◌, ◌++◌, arith,
}

-- Whether a domain was told that a key is up.
unfoldable pub was_released : ℕ → ℕ → List (ℕ × Event) → Bool
was_released i code [] = false
was_released i code ((j, e) ∷ es) =
    (j == i && e.type == ev_key && e.code == code && is_zero e.value) || was_released i code es

-- Whether a key is down in the rest of the table that starts at a code.
abbrev pub is_down : ℕ → ℕ → List Bool → Bool
is_down from code [] = false
is_down from code (b ∷ keys) = (b && from == code) || is_down (suc from) code keys

or_assoc : (a b c : Bool) → ((a || b) || c) ≡ (a || (b || c))
or_assoc true b c = refl
or_assoc false b c = refl

and_false : (a : Bool) → (a && false) ≡ false
and_false true = refl
and_false false = refl

and_or : (a b c : Bool) → ((a && b) || (a && c)) ≡ (a && (b || c))
and_or true b c = refl
and_or false b c = refl

or_and : (a b c : Bool) → ((a && true && c && true) || (b && c)) ≡ ((a || b) && c)
or_and true true true = refl
or_and true true false = refl
or_and true false true = refl
or_and true false false = refl
or_and false b c = refl

was_released-append :
    (i code : ℕ) (es es' : List (ℕ × Event))
    → was_released i code (es ++ es') ≡ (was_released i code es || was_released i code es')
unfolding was_released
was_released-append i code [] es' = refl
was_released-append i code ((j, e) ∷ es) es' =
    let this = j == i && e.type == ev_key && e.code == code && is_zero e.value in
    ap (λ b. this || b) (was_released-append i code es es') ∙ sym (or_assoc this _ _)

-- Whether a domain is among those told.
abbrev pub is_in : ℕ → List ℕ → Bool
is_in i [] = false
is_in i (j ∷ js) = j == i || is_in i js

was_released-told :
    (i code c : ℕ) (targets : List ℕ)
    → was_released i code (told targets (key_release c)) ≡ (is_in i targets && c == code)
unfolding was_released
was_released-told i code c [] = refl
was_released-told i code c (j ∷ js) =
    ap (λ b. (j == i && true && c == code && true) || b) (was_released-told i code c js)
    ∙ or_and (j == i) (is_in i js) (c == code)

was_released-reset_loop :
    (i code c : ℕ) (targets : List ℕ) (keys : List Bool)
    → was_released i code (reset_loop targets c keys) ≡ (is_in i targets && is_down c code keys)
unfolding was_released reset_loop
was_released-reset_loop i code c targets [] = sym (and_false (is_in i targets))
was_released-reset_loop i code c targets (true ∷ keys) =
    was_released-append i code (told targets (key_release c)) (reset_loop targets (suc c) keys)
    ∙ rw (was_released-told i code c targets, was_released-reset_loop i code (suc c) targets keys)
        (and_or (is_in i targets) (c == code) (is_down (suc c) code keys))
was_released-reset_loop i code c targets (false ∷ keys) =
    was_released-reset_loop i code (suc c) targets keys

is_down-all_up : (from code : ℕ) (keys : List Bool) → is_down from code (all_up keys) ≡ false
is_down-all_up from code [] = refl
is_down-all_up from code (b ∷ keys) = is_down-all_up (suc from) code keys

reset_targets_lem :
    (i : ℕ) (b : Bool) (k : ℕ) (m : Option ℕ)
    → is_in i (reset_targets b k m) ≡ (k == i || (b && points_to m i))
reset_targets_lem i true k none = refl
reset_targets_lem i false k none = refl
reset_targets_lem i false k (some m) = refl
reset_targets_lem i true k (some m) = ground arith

-- The keyboard is reset while a domain has it: every key is up then, and exactly the keys that were
-- down are released, at the domain that has the keyboard and, if that is asked for, at the one that has
-- the mouse.
pub input_keyboard_reset-Released :
    (b : Bool) (k : ℕ) (r : Router)
    → r.keyb_dest ≡ some k
    → (es : List (ℕ × Event)) × ((input_keyboard_reset b r).sent ≡ r.sent ++ es)
      × ((code : ℕ) → is_down 0 code (input_keyboard_reset b r).key_status ≡ false)
      × ((i code : ℕ)
          → was_released i code es
            ≡ ((k == i || (b && points_to r.mouse_dest i)) && is_down 0 code r.key_status))
unfolding input_keyboard_reset
input_keyboard_reset-Released b k r h =
    let targets = reset_targets b k r.mouse_dest in
    (
      reset_loop targets 0 r.key_status,
      ap (λ o. (reset_for b o r).sent) h,
      λ code.
          ap (λ o. is_down 0 code (reset_for b o r).key_status) h
          ∙ is_down-all_up 0 code r.key_status,
      λ i code.
          was_released-reset_loop i code 0 targets r.key_status
          ∙ ap (λ c. c && is_down 0 code r.key_status) (reset_targets_lem i b k r.mouse_dest),
    )

-- `input_give_keyboard` with its tests' pointers as arguments.
abbrev give_at : Option ℕ → Option ℕ → Option ℕ → Router → Router
give_at d keyb mouse r =
    if same_domain d keyb
    then r
    else take_keyboard d (if same_domain keyb mouse then r else input_keyboard_reset false r)

give_at_mouse :
    (m d : ℕ) (r : Router)
    → r.keyb_dest ≡ some m
    → r.mouse_dest ≡ some m
    → m == d ≡ false
    → input_give_keyboard (some d) r ≡ take_keyboard (some d) r
unfolding input_give_keyboard
give_at_mouse m d r h h' other =
    let self : m == m ≡ true = ground arith in
    ap (λ o. give_at (some d) o r.mouse_dest r) h
    ∙ ap (λ o. give_at (some d) (some m) o r) h'
    ∙ rw (other, self) refl

quiet_when_waiting : (k : ℕ) (o : Option ℕ) (b : Bool) → b ≡ true → is_seamless (some k) o b ≡ false
quiet_when_waiting k none b h = refl
quiet_when_waiting k (some m) b h = ap (λ c. not (k == m) && not c) h ∙ and_false (not (k == m))

-- While a click is waited for, the keyboard is given from the domain that has the mouse, too, to another
-- one while a key is down: the first is not told that the key is up, its release goes to the second. The
-- key is neither print screen nor the switch of the video mode.
pub give_keeps_key :
    (m d code : ℕ) (r : Router)
    → r.keyb_dest ≡ some m
    → r.mouse_dest ≡ some m
    → r.keyb_waits_for_click ≡ true
    → m == d ≡ false
    → code == key_sysrq ≡ false
    → code == key_switchvideomode ≡ false
    → (run (give (some d) ∷ key (key_release code) ∷ []) r).sent
      ≡ r.sent ++ (d, key_release code) ∷ []
unfolding run step inject_key input_keys_status filter_keys
give_keeps_key m d code r h h' waits other no_sysrq no_switch =
    let e = key_release code in
    let taken = input_keys_status e (take_keyboard (some d) r) in
    ap (λ r'. (inject_key e (input_keys_status e r')).sent) (give_at_mouse m d r h h' other)
    ∙ ap (λ b. (if b then send_seamless e taken else send_key_to (some d) e taken).sent)
        (quiet_when_waiting d r.mouse_dest r.keyb_waits_for_click waits)
