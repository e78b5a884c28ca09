-- ===== src/Routing/Ops.antt =====
-- The router as a machine: the operations that the rest of the daemon calls, in any order.
use input.Routing.Filter.{inject_key}
use input.Routing.Previous.{
  input_give_keyboard_from_domain, input_return_keyboard_to_domain, save_prev_keyb_domain,
  restore_prev_keyb_domain,
}
use input.Routing.{
  Router, points_to, input_set_mouse, input_set_keyb, input_set, input_give_keyboard,
  input_return_keyboard, input_keys_status,
}
use input.Base.{◌==◌, Event, ℕ, Bool, false, ◌||◌, Option, List, [], ◌∷◌}

pub data Op : Type 0 where
  set_both : ℕ → Op
  set_mouse : ℕ → Op
  set_keyb : ℕ → Op
  give : Option ℕ → Op
  take_back : Option ℕ → Op
  give_from : Option ℕ → Option ℕ → Op
  return_to : Option ℕ → Option ℕ → Op
  save : Option ℕ → Op
  restore : Option ℕ → Op
  key : Event → Op

unfoldable pub step : Op → Router → Router
unfolding input_set input_set_mouse input_set_keyb input_give_keyboard input_return_keyboard
    input_give_keyboard_from_domain input_return_keyboard_to_domain save_prev_keyb_domain
    restore_prev_keyb_domain input_keys_status inject_key
step (set_both i) r = input_set i r
step (set_mouse i) r = input_set_mouse i r
step (set_keyb i) r = input_set_keyb i r
step (give d) r = input_give_keyboard d r
step (take_back d) r = input_return_keyboard d r
step (give_from d n) r = input_give_keyboard_from_domain d n r
step (return_to d n) r = input_return_keyboard_to_domain d n r
step (save d) r = save_prev_keyb_domain d r
step (restore d) r = restore_prev_keyb_domain d r
step (key e) r = inject_key e (input_keys_status e r)

unfoldable pub run : List Op → Router → Router
unfolding step
run [] r = r
run (op ∷ ops) r = run ops (step op r)

-- Whether an operation is asked to make a domain a destination.
abbrev pub names : ℕ → Op → Bool
names i (set_both j) = j == i
names i (set_mouse j) = j == i
names i (set_keyb j) = j == i
names i (give d) = points_to d i
names i (take_back d) = false
names i (give_from d n) = points_to n i
names i (return_to d n) = false
names i (save d) = false
names i (restore d) = false
names i (key e) = false

abbrev pub any_names : ℕ → List Op → Bool
any_names i [] = false
any_names i (op ∷ ops) = names i op || any_names i ops
