-- ===== src/Tests/Routes.antt =====
-- The theorems about the keyboard and the mouse's domains at concrete inputs.
use input.Routing.Ops.{give, key, run}
use input.Routing.Previous.{save_prev_keyb_domain, restore_prev_keyb_domain}
use input.Switcher.Ends.{go_to_next_stuck, go_to_next_ends}
use input.Switcher.{candidate, go_to_next}
use input.Routing.Return.{save-restore}
use input.Routing.Keys.{was_released, is_down, input_keyboard_reset-Released, give_keeps_key}
use input.Domains.{Domain, find_index, domain_with_slot, domain_uivm, update_at, domain_init}
use input.Base.{
  ◌==◌, pos, eqb_ℤ, Event, ℕ, ◌<◌, ◌≡◌, refl, Bool, true, false, ◌&&◌, ◌||◌, Option, none, some,
  List, [], ◌∷◌, ◌++◌, arith,
}
use input.Routing.{Router, points_to, key_release, input_keyboard_reset}

-- Guest 0 has the mouse, guest 1 the keyboard, with a key held down.
abbrev router : Router
router = record {
  keyb_dest = some 1;
  keyb_parent = none;
  mouse_dest = some 0;
  mouse_parent = none;
  keyb_waits_for_click = false;
  keyb_modbits = 0;
  key_status = false ∷ true ∷ [];
  mouse_pressed = [];
  domains = domain_init (pos 5) ∷ domain_init (pos 6) ∷ domain_init (pos 7) ∷ [];
  divert_info = λ i. none;
  sent = [];
}

abbrev points_at : Option Domain → Bool
points_at none = false
points_at (some d) = points_to d.prev_keyb_domain_ptr 1

input_keyboard_reset-Released_example :
    (es : List (ℕ × Event)) × ((input_keyboard_reset true router).sent ≡ router.sent ++ es)
    × ((code : ℕ) → is_down 0 code (input_keyboard_reset true router).key_status ≡ false)
    × ((i code : ℕ)
        → was_released i code es ≡ (
            (1 == i || (true && points_to router.mouse_dest i))
            && is_down 0 code router.key_status))
input_keyboard_reset-Released_example = input_keyboard_reset-Released true 1 router refl

abbrev together : Router
together = record router { keyb_dest = some 0; keyb_waits_for_click = true }

give_keeps_key_example :
    (run (give (some 2) ∷ key (key_release 1) ∷ []) together).sent
    ≡ together.sent ++ (2, key_release 1) ∷ []
give_keeps_key_example = give_keeps_key 0 2 1 together refl refl refl refl refl refl

abbrev remembering : Domain
remembering = record (domain_init (pos 5)) {
  prev_keyb_domain_ptr = some 1;
  prev_keyb_domid = pos 6;
}

-- Another guest came, and guest 0 got another slot.
abbrev moved : Router
moved = record router {
  keyb_dest = some 2;
  mouse_dest = some 2;
  domains = record remembering { slot = pos 4 } ∷ domain_init (pos 6) ∷ domain_init (pos 8) ∷ [];
}

save-restore_example : (restore_prev_keyb_domain (some 0) moved).keyb_dest ≡ some 1
unfolding save_prev_keyb_domain update_at
save-restore_example =
    save-restore 0 1 0 (domain_init (pos 5)) remembering (record remembering { slot = pos 4 })
      router moved refl refl refl refl refl refl refl refl refl refl

abbrev in_slot : ℕ → Domain
in_slot s = record (domain_init (pos 9)) { initialised = true; slot = pos s }

go_to_next_ends_example :
    (o : Option ℕ) × (go_to_next 12 (some 1) (in_slot 0 ∷ in_slot 5 ∷ []) ≡ some o)
unfolding domain_uivm
go_to_next_ends_example =
    go_to_next_ends 1 5 (in_slot 5) (in_slot 0 ∷ in_slot 5 ∷ []) refl refl refl (omega arith)
      (omega arith)

alone_in_12 : (s : ℕ) → s < 10 → candidate s (in_slot 12 ∷ []) ≡ none
unfolding input.Domains.domain_with_slot input.Domains.find_index
alone_in_12 s h =
    let other : eqb_ℤ (pos 12) (pos s) ≡ false = ground (arith, h) in rw (candidate, other) refl

go_to_next_stuck_example : go_to_next 1000 (some 0) (in_slot 12 ∷ []) ≡ none
unfolding domain_uivm
go_to_next_stuck_example =
    go_to_next_stuck 1000 0 12 (in_slot 12) (in_slot 12 ∷ []) refl refl refl (omega arith)
      alone_in_12
